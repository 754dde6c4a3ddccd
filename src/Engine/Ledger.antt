-- ===== src/Engine/Ledger.antt =====
-- The result of a match: its trades, their number, their sum and their ids.
use hft_orderbook_engine.Base.{
  ℕ, zero, suc, ◌+◌, ◌%◌, ◌≤◌, ◌<◌, ◌≡◌, refl, ◌∙◌, ap, Bool, true, false, ◌&&◌, Option, none, some,
  List, [], ◌∷◌, ◌++◌, map, length, length-append, arith, add64, add32, u64_mod, Bool-cases,
  Option-cases, inl, inr, ◌==◌,
}
use hft_orderbook_engine.Core.{Side, Trade, remaining_quantity, remaining_visible}
use hft_orderbook_engine.Book
use hft_orderbook_engine.Book.{levels, best_idx}
use hft_orderbook_engine.Engine.{
  Engine, Matching, stp_none, cancel_newest, cancel_oldest, cancel_both, SelfTradePreventionMode,
  max_trades_per_match, execute_fill, fill_quantity, after_fill, retire, requeue, handle_self_trade,
  match_front, match_level, wants_more, stp_enabled, check_self_trade, opposite,
}
use hft_orderbook_engine.Engine.Submit.{match_order, crosses_best}

abbrev pub total_traded : List Trade → ℕ
total_traded [] = 0
total_traded (t ∷ ts) = t.quantity + total_traded ts

-- The ids after `n`, wrapping as the counter does.
abbrev pub ids_after : ℕ → ℕ → List ℕ
ids_after c zero = []
ids_after c (suc n) = ids_after c n ++ (c + suc n) % u64_mod ∷ []

abbrev pub trade_ids : List Trade → List ℕ
trade_ids ts = map (λ (t : Trade). t.trade_id) ts

-- The result lists its trades in full, at most 64; the ids go on from the counter `c`.
pub record IsLedger (c : ℕ) (m : Matching) : Type 0 where
  pub count : m.result.trade_count ≡ length m.result.trades
  pub bound : m.result.trade_count ≤ max_trades_per_match
  pub sum : m.result.filled_quantity ≡ total_traded m.result.trades % u64_mod
  pub counter : m.trade_id_counter ≡ (c + length m.result.trades) % u64_mod
  pub ids : trade_ids m.result.trades ≡ ids_after c (length m.result.trades)

total_traded-append :
    (ts us : List Trade) → total_traded (ts ++ us) ≡ total_traded ts + total_traded us
total_traded-append [] us = omega arith
total_traded-append (t ∷ ts) us = omega (arith, total_traded-append ts us)

trade_ids-append : (ts us : List Trade) → trade_ids (ts ++ us) ≡ trade_ids ts ++ trade_ids us
trade_ids-append [] us = refl
trade_ids-append (t ∷ ts) us = ap (λ xs. t.trade_id ∷ xs) (trade_ids-append ts us)

-- One more trade, with the next id.
IsLedger-snoc :
    (c : ℕ) (m m' : Matching) (t : Trade)
    → m.result.trade_count < max_trades_per_match
    → IsLedger c m
    → m'.result.trades ≡ m.result.trades ++ t ∷ []
    → m'.result.trade_count ≡ add32 m.result.trade_count 1
    → m'.result.filled_quantity ≡ add64 m.result.filled_quantity t.quantity
    → m'.trade_id_counter ≡ add64 m.trade_id_counter 1
    → t.trade_id ≡ add64 m.trade_id_counter 1
    → IsLedger c m'
IsLedger-snoc c m m' t room v trades count filled counter id =
    let ts = m.result.trades in
    let more : length (ts ++ t ∷ []) ≡ suc (length ts) = omega (arith, length-append ts (t ∷ [])) in
    let sum = total_traded-append ts (t ∷ []) in
    let next : t.trade_id ≡ (c + suc (length ts)) % u64_mod = omega (arith, id, v.counter) in
    record {
      count = rw trades (omega (arith, more, count, v.count, room));
      bound = omega (arith, count, room);
      sum = rw trades (omega (arith, filled, v.sum, sum));
      counter = rw (trades, more) (omega (arith, counter, v.counter));
      ids =
          rw (trades, more)
            (trade_ids-append ts (t ∷ [])
              ∙ ap (λ xs. xs ++ t.trade_id ∷ []) v.ids
              ∙ ap (λ n. ids_after c (length ts) ++ n ∷ []) next);
    }

execute_fill-IsLedger :
    (c : ℕ) (m : Matching) (o front q : ℕ) (d : Side) (i : ℕ)
    → m.result.trade_count < max_trades_per_match
    → IsLedger c m
    → IsLedger c (execute_fill m o front q d i)
unfolding execute_fill
execute_fill-IsLedger c m o front q d i room v =
    IsLedger-snoc c m _ _ room v refl refl refl refl refl

after_fill-counter : (e : Engine) (o : ℕ) → (after_fill e o).trade_id_counter ≡ e.trade_id_counter
unfolding after_fill retire requeue
after_fill-counter e o = elim (Bool-cases (remaining_quantity (e.store o) == 0)) [
  | inl h ↦ rw h refl
  | inr h ↦
      rw h
        (elim (Bool-cases
          (remaining_visible (e.store o) == 0 && Book.is_iceberg (e.store o).type)) [
            | inl k ↦ rw k refl
            | inr k ↦ rw k refl
          ])
]

-- The ledger reads the result and the counter only.
pub IsLedger-same :
    (c : ℕ) (m m' : Matching)
    → m'.result.trades ≡ m.result.trades
    → m'.result.trade_count ≡ m.result.trade_count
    → m'.result.filled_quantity ≡ m.result.filled_quantity
    → m'.trade_id_counter ≡ m.trade_id_counter
    → IsLedger c m
    → IsLedger c m'
IsLedger-same c m m' trades count filled counter v = record {
  count = rw (trades, count) v.count;
  bound = rw count v.bound;
  sum = rw (trades, filled) v.sum;
  counter = rw (trades, counter) v.counter;
  ids = rw trades v.ids;
}

handle_self_trade-IsLedger :
    (c : ℕ) (m : Matching) (o front : ℕ) → IsLedger c m → IsLedger c (handle_self_trade m o front).0
unfolding handle_self_trade retire
handle_self_trade-IsLedger c m o front v = go m.stp_mode refl
  where
    go :
        (mode : SelfTradePreventionMode)
        → m.stp_mode ≡ mode
        → IsLedger c (handle_self_trade m o front).0
    go stp_none e = rw (e, handle_self_trade) v
    go cancel_newest e = rw (e, handle_self_trade) (IsLedger-same c m _ refl refl refl refl v)
    go cancel_oldest e = rw (e, handle_self_trade) (IsLedger-same c m _ refl refl refl refl v)
    go cancel_both e = rw (e, handle_self_trade) (IsLedger-same c m _ refl refl refl refl v)

match_front-IsLedger :
    (c : ℕ) (m : Matching) (o : ℕ) (d : Side) (i front : ℕ)
    → m.result.trade_count < max_trades_per_match
    → IsLedger c m
    → IsLedger c (match_front m o d i front).0
unfolding match_front
match_front-IsLedger c m o d i front room v =
    elim (Bool-cases (stp_enabled m.stp_mode && check_self_trade (m.store o) (m.store front))) [
      | inl h ↦ rw (h, match_front) (handle_self_trade-IsLedger c m o front v)
      | inr h ↦
          let m' = execute_fill m o front (fill_quantity m.store o front) d i in
          rw (h, match_front)
            (IsLedger-same c m' _ refl refl refl (after_fill-counter (m'.engine) front)
              (execute_fill-IsLedger c m o front (fill_quantity m.store o front) d i room v))
    ]

-- What holds of the result, if there is one.
abbrev pub OnSome {ℓ} : {A : Type ℓ} → (A → Type 0) → Option A → Type 0
OnSome P none = Unit
OnSome P (some a) = P a

level_next :
    (fuel c : ℕ) (o : ℕ) (d : Side) (i : ℕ) (r : Matching × Bool)
    → IsLedger c (r.0)
    → ((m' : Matching)
        → IsLedger c m'
        → OnSome (λ (r : Matching × Bool). IsLedger c (r.0)) (match_level fuel m' o d i))
    → OnSome
        (λ (r : Matching × Bool). IsLedger c (r.0))
        (elim (r.1) [ true ↦ some (r.0, true) | false ↦ match_level fuel r.0 o d i ])
level_next fuel c o d i (m', true) v ih = v
level_next fuel c o d i (m', false) v ih = ih m' v

match_level-IsLedger :
    (fuel c : ℕ) (m : Matching) (o : ℕ) (d : Side) (i : ℕ)
    → IsLedger c m
    → OnSome (λ (r : Matching × Bool). IsLedger c (r.0)) (match_level fuel m o d i)
unfolding match_level
match_level-IsLedger zero c m o d i v = tt
match_level-IsLedger (suc fuel) c m o d i v = elim (Bool-cases (wants_more m o)) [
  | inr done ↦ rw (done, match_level) v
  | inl more ↦ elim (Option-cases (levels m.book d i).head) [
    | inl nil ↦ rw (more, nil, match_level) v
    | inr (front, e) ↦
        let room : m.result.trade_count < max_trades_per_match = ground arith in
        rw (more, e, match_level)
          (level_next fuel c o d i (match_front m o d i front)
            (match_front-IsLedger c m o d i front room v)
            (λ m' v'. match_level-IsLedger fuel c m' o d i v'))
  ]
]

pub match_order-IsLedger :
    (fuel c : ℕ) (m : Matching) (o : ℕ) → IsLedger c m → OnSome (IsLedger c) (match_order fuel m o)
unfolding match_order
match_order-IsLedger zero c m o v = tt
match_order-IsLedger (suc fuel) c m o v = elim (Bool-cases (wants_more m o && crosses_best m o d)) [
  | inr done ↦ rw (done, match_order) v
  | inl go ↦
      order_next (match_level (suc fuel) m o d (best_idx m.book d)) refl go
        (match_level-IsLedger (suc fuel) c m o d (best_idx m.book d) v)
        (λ m' v'. match_order-IsLedger fuel c m' o v')
]
  where
    d : Side
    d = opposite (m.store o).side

    order_next :
        (x : Option (Matching × Bool))
        → match_level (suc fuel) m o d (best_idx m.book d) ≡ x
        → (wants_more m o && crosses_best m o d) ≡ true
        → OnSome (λ (r : Matching × Bool). IsLedger c (r.0)) x
        → ((m' : Matching) → IsLedger c m' → OnSome (IsLedger c) (match_order fuel m' o))
        → OnSome (IsLedger c) (match_order (suc fuel) m o)
    order_next none e go w ih = rw (go, e, match_order) tt
    order_next (some (m', true)) e go w ih = rw (go, e, match_order) w
    order_next (some (m', false)) e go w ih = rw (go, e, match_order) (ih m' w)
