-- ===== src/Engine/Report.antt =====
-- What `submit_order` and `modify_order` report agrees with the trades that they made.
use hft_orderbook_engine.Base.{
  ℕ, ◌<◌, ◌≡◌, refl, subst, ◌||◌, Option, none, some, arith, u64_mod, Bool-cases, inl, inr, ◌==◌,
}
use hft_orderbook_engine.Base.Int.{ℤ}
use hft_orderbook_engine.Book
use hft_orderbook_engine.Core.{Store, remaining_quantity}
use hft_orderbook_engine.Engine.{
  Engine, Matching, MatchResult, MatchStatus, is_market, is_ioc, is_fok,
}
use hft_orderbook_engine.Engine.Invariant.{Good}
use hft_orderbook_engine.Engine.Ledger.{IsLedger, IsLedger-same, OnSome, match_order-IsLedger}
use hft_orderbook_engine.Engine.Operations.{IsDisplayed, rounds, submit_order-Steady}
use hft_orderbook_engine.Engine.Modify.{resume}
use hft_orderbook_engine.Engine.Submit.{
  submit_order, modify_order, match_order, settle, settle_modify, rest, admissible, start,
  is_prevented,
}

-- The engine and the result of an operation, as a ledger reads them.
abbrev pub answer : Engine × MatchResult → Matching
answer (e, r) = record { engine = e; result = r }

start-IsLedger :
    (e : Engine) (o : ℕ) → e.trade_id_counter < u64_mod → IsLedger e.trade_id_counter (start e o)
start-IsLedger e o low = record {
  count = refl;
  bound = omega arith;
  sum = refl;
  counter = omega (arith, low);
  ids = refl;
}

rest-IsLedger :
    (c : ℕ) (e : Engine) (r : MatchResult) (o : ℕ) (st : MatchStatus)
    → IsLedger c (answer (e, r))
    → IsLedger c (answer (rest e r o st))
unfolding rest
rest-IsLedger c e r o st v =
    IsLedger-same c (answer (e, r)) (answer (rest e r o st)) refl refl refl refl v

settle-IsLedger : (c : ℕ) (m : Matching) (o : ℕ) → IsLedger c m → IsLedger c (answer (settle m o))
unfolding settle rest
settle-IsLedger c m o v = elim (Bool-cases (is_prevented m.result.status)) [
  | inl p ↦ rw (p, settle) (IsLedger-same c m _ refl refl refl refl v)
  | inr p ↦ elim (Bool-cases (remaining_quantity (m.store o) == 0)) [
    | inl z ↦ rw (p, z, settle) (IsLedger-same c m _ refl refl refl refl v)
    | inr z ↦ elim (Bool-cases (is_market (m.store o).type || is_ioc (m.store o).type)) [
      | inl k ↦ rw (p, z, k, settle) (IsLedger-same c m _ refl refl refl refl v)
      | inr k ↦ elim (Bool-cases (is_fok (m.store o).type)) [
        | inl f ↦ rw (p, z, k, f, settle) (IsLedger-same c m _ refl refl refl refl v)
        | inr f ↦ rw (p, z, k, f, settle) (IsLedger-same c m _ refl refl refl refl v)
      ]
    ]
  ]
]

pub submit_order-OnSome :
    (fuel : ℕ) (e : Engine) (o : ℕ)
    → e.trade_id_counter < u64_mod
    → OnSome
        (λ (r : Engine × MatchResult). IsLedger e.trade_id_counter (answer r))
        (submit_order fuel e o)
unfolding submit_order
submit_order-OnSome fuel e o low = elim (Bool-cases (admissible e o)) [
  | inl p ↦
      rw (p, submit_order)
        (settled (match_order fuel (start e o) o)
          (match_order-IsLedger fuel e.trade_id_counter (start e o) o (start-IsLedger e o low)))
  | inr p ↦
      rw (p, submit_order)
        (IsLedger-same e.trade_id_counter (start e o) _ refl refl refl refl
          (start-IsLedger e o low))
]
  where
    settled :
        (x : Option Matching)
        → OnSome (IsLedger e.trade_id_counter) x
        → OnSome
            (λ (r : Engine × MatchResult). IsLedger e.trade_id_counter (answer r))
            (elim x [ none ↦ none | some m ↦ some (settle m o) ])
    settled none v = tt
    settled (some m) v = settle-IsLedger e.trade_id_counter m o v

settle_modify-IsLedger :
    (c : ℕ) (m : Matching) (o : ℕ) → IsLedger c m → IsLedger c (answer (settle_modify m o))
unfolding settle_modify rest
settle_modify-IsLedger c m o v = elim (Bool-cases (remaining_quantity (m.store o) == 0)) [
  | inl z ↦ rw (z, settle_modify) (IsLedger-same c m _ refl refl refl refl v)
  | inr z ↦ rw (z, settle_modify) (IsLedger-same c m _ refl refl refl refl v)
]

pub modify_order-OnSome :
    (fuel : ℕ) (e : Engine) (id : ℕ) (price : ℤ) (quantity timestamp : ℕ)
    → e.trade_id_counter < u64_mod
    → OnSome
        (λ (r : Engine × MatchResult). IsLedger e.trade_id_counter (answer r))
        (modify_order fuel e id price quantity timestamp)
unfolding modify_order
modify_order-OnSome fuel e id price quantity timestamp low =
    resumed (Book.modify_order e.book e.store id price quantity timestamp)
  where
    c : ℕ
    c = e.trade_id_counter

    settled :
        (o : ℕ) (x : Option Matching)
        → OnSome (IsLedger c) x
        → OnSome
            (λ (r : Engine × MatchResult). IsLedger c (answer r))
            (elim x [ none ↦ none | some m ↦ some (settle_modify m o) ])
    settled o none v = tt
    settled o (some m) v = settle_modify-IsLedger c m o v

    resumed :
        (x : Book.OrderBook × Store × Option Book.ModifyResult)
        → OnSome (λ (r : Engine × MatchResult). IsLedger c (answer r)) (resume fuel e x)
    resumed (b, s, none) =
        IsLedger-same c (start e 0) _ refl refl refl refl (start-IsLedger e 0 low)
    resumed (b, s, some amendment) =
        let e' = record e { book = b; store = s } in
        settled amendment.order (match_order fuel (start e' amendment.order) amendment.order) (
          match_order-IsLedger fuel c (start e' amendment.order) amendment.order
            (start-IsLedger e' amendment.order low))

-- In an engine whose invariant holds, apart from an order that is in hand and in no queue, with a
-- trade id counter of 64 bits and fuel above the 64 trades and the resting orders, submitting an
-- order that shows all of its quantity returns a result that lists its trades in full: at most 64,
-- their number, the sum of their quantities and the counter as reported, with consecutive ids.
pub submit_order-IsLedger :
    (fuel : ℕ) (e : Engine) (o : ℕ) (g : Good e o)
    → IsDisplayed (e.store o)
    → rounds g < fuel
    → e.trade_id_counter < u64_mod
    → (r : Engine × MatchResult) × (submit_order fuel e o ≡ some r)
      × IsLedger e.trade_id_counter (answer r)
submit_order-IsLedger fuel e o g shown enough low =
    let (r, run, _, _) = submit_order-Steady fuel e o g shown enough in
    (
      r,
      run,
      subst (OnSome (λ (r : Engine × MatchResult). IsLedger e.trade_id_counter (answer r))) run
          (submit_order-OnSome fuel e o low),
    )
