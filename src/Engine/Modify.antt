-- ===== src/Engine/Modify.antt =====
-- `MatchingEngine::modify_order` ends, and keeps the engine's invariant.
use hft_orderbook_engine.Base.{
  ℕ, ◌+◌, ◌≤◌, ◌<◌, ◌^◌, ◌≡◌, ap, true, false, arith, ◌==◌, Bool-cases, Option-cases, inl, inr, has,
  erase, length, length-erase, some, Option, none,
}
use hft_orderbook_engine.Base.Int.{ℤ}
use hft_orderbook_engine.Core.{Side, Store, remaining_quantity}
use hft_orderbook_engine.OrderMap
use hft_orderbook_engine.Book
use hft_orderbook_engine.Book.{is_iceberg}
use hft_orderbook_engine.Book.Invariant.{IsSound}
use hft_orderbook_engine.Book.Operations.{rest}
use hft_orderbook_engine.Book.Remove.{sub_queues}
use hft_orderbook_engine.Book.Modify.{Amended, amendable, modify_order-Inv}
use hft_orderbook_engine.Book.Linked.{Linked-less}
use hft_orderbook_engine.Engine.{
  Engine, Matching, MatchResult, modified, rejected, max_trades_per_match,
}
use hft_orderbook_engine.Engine.Invariant.{
  Good, Tied, Steady, Held, resting_orders, resting_orders-set_queue,
}
use hft_orderbook_engine.Engine.Loop.{match_order-Good}
use hft_orderbook_engine.Engine.Settle.{Settled, rest-Settled, freed-Settled}
use hft_orderbook_engine.Engine.Submit.{
  settle_modify, match_order, modify_order, fresh_result, start,
}
use hft_orderbook_engine.Engine.Operations.{IsDisplayed, Kept-IsSound}

settle_modify-Settled :
    (m : Matching) {o : ℕ} (g : Good m.engine o)
    → IsSound (m.store o)
    → Settled g (settle_modify m o).0
unfolding settle_modify
settle_modify-Settled m {o} g sound = elim (Bool-cases (remaining_quantity (m.store o) == 0)) [
  | inl z ↦ rw (z, settle_modify) (freed-Settled g _)
  | inr z ↦ rw (z, settle_modify) (rest-Settled g _ modified sound)
]

-- `modify_order` with the book's answer.
abbrev pub resume :
    ℕ → Engine → Book.OrderBook × Store × Option Book.ModifyResult → Option (Engine × MatchResult)
resume fuel e (b, s, mr) =
    let e' = record e { book = b; store = s } in
    elim mr [
      | none ↦ some (e', fresh_result rejected 0)
      | some amendment ↦ elim (match_order fuel (start e' amendment.order) amendment.order) [
        | none ↦ none
        | some m ↦ some (settle_modify m amendment.order)
      ]
    ]

module _ (fuel : ℕ) (e : Engine) (id o : ℕ) (d : Side) (i : ℕ) (v : Steady e)
    (found : OrderMap.find e.book.order_map id ≡ some o) (there : has o (v.queues d i) ≡ true)
    (price : ℤ) (quantity timestamp : ℕ) (fits : quantity < 2 ^ 64) where
  abbrev amendment : Book.OrderBook × Store × Option Book.ModifyResult
  amendment = Book.modify_order e.book e.store id price quantity timestamp

  abbrev detached : Engine
  detached = record e { book = amendment.0; store = amendment.1 }

  module _ (a : Amended id o d i v.book found there price quantity timestamp fits amendment) where
    detached-Good : Good detached o
    detached-Good = record {
      queues = rest id o d i v.book found there;
      free = v.free;
      live = v.live;
      book = a.kept;
      pool = v.pool;
      owned = λ c j x h. v.owned c j x (sub_queues o d i v.book there c j x h);
      out = a.detached;
      alive = v.owned d i o there;
    }

    detached-Tied : Held v → Tied detached-Good
    unfolding detached-Good
    detached-Tied w = Linked-less (omega arith) (a.linked (length v.free + 1) w)

    fewer :
        resting_orders (rest id o d i v.book found there) detached.book.num_levels
        ≤ resting_orders v.queues e.book.num_levels
    fewer = rw (a.num) (
        omega (
          arith,
          resting_orders-set_queue v.queues d i (erase o (v.queues d i)) e.book.num_levels
              (v.book.placed d i o there).low,
          length-erase o (v.queues d i) there,
        ))

    shown : is_iceberg (e.store o).type ≡ false → IsDisplayed (detached.store o)
    shown plain = record {
      whole = omega (arith, a.displayed plain, a.new_quantity);
      part = omega (arith, a.sound.shown, a.sound.within);
      fits = omega (arith, a.new_quantity, fits);
    }

    ends :
        is_iceberg (e.store o).type ≡ false
        → max_trades_per_match + resting_orders v.queues e.book.num_levels < fuel
        → (r : Engine × MatchResult) × (modify_order fuel e id price quantity timestamp ≡ some r)
          × (v' : Steady r.0) × (Held v → Held v')
    unfolding modify_order detached-Good
    ends plain enough =
        let (m, run, g, k, l) =
          match_order-Good fuel (start detached o) o detached-Good (omega (arith, fewer, enough)) in
        let (v', held) = settle_modify-Settled m g (Kept-IsSound (shown plain) k) in
        (settle_modify m o, rw (a.reported, run, modify_order), v', λ w. held (l (detached-Tied w)))

  refused_run :
      amendment ≡ (e.book, e.store, none)
      → modify_order fuel e id price quantity timestamp ≡ some (e, fresh_result rejected 0)
  unfolding modify_order
  refused_run h = ap (resume fuel e) h

  -- In an engine whose invariant holds, modifying an order that the map finds and a queue holds, no
  -- iceberg, to a quantity of 64 bits, returns if the fuel is above the 64 trades and the resting
  -- orders, and keeps the engine's invariant; a modification that the book refuses changes nothing
  -- and is reported as rejected.
  pub modify_order-Steady :
      is_iceberg (e.store o).type ≡ false
      → max_trades_per_match + resting_orders v.queues e.book.num_levels < fuel
      → ((r : Engine × MatchResult) × (modify_order fuel e id price quantity timestamp ≡ some r)
          × (v' : Steady r.0) × (Held v → Held v'))
        × (amendable e.book (e.store o) price quantity ≡ false
            → modify_order fuel e id price quantity timestamp ≡ some (e, fresh_result rejected 0))
  modify_order-Steady plain enough =
      let laws = modify_order-Inv id o d i v.book found there price quantity timestamp fits in
      let refused =
        λ (h : amendable e.book (e.store o) price quantity ≡ false). refused_run (laws.1 h) in
      (
        elim (Bool-cases (amendable e.book (e.store o) price quantity)) [
          | inl h ↦ ends (laws.0 h) plain enough
          | inr h ↦ ((e, fresh_result rejected 0), refused h, v, λ w. w)
        ],
        refused,
      )

modify_unknown :
    (fuel : ℕ) (e : Engine) (id : ℕ) (price : ℤ) (quantity timestamp : ℕ)
    → OrderMap.find e.book.order_map id ≡ none
    → modify_order fuel e id price quantity timestamp ≡ some (e, fresh_result rejected 0)
unfolding modify_order Book.modify_order
modify_unknown fuel e id price quantity timestamp h =
    let same : Book.modify_order e.book e.store id price quantity timestamp
        ≡ (e.book, e.store, none) =
      rw (h, Book.modify_order) in
    ap (resume fuel e) same

-- In an engine whose invariant holds and whose map finds exactly the orders that rest, with fuel above
-- the 64 trades and the resting orders, modifying by any id that is not an iceberg's, to a quantity
-- of 64 bits, returns and keeps both properties; an id that the map does not find is reported as
-- rejected and changes nothing.
pub modify_order-Held :
    (fuel : ℕ) (e : Engine) (id : ℕ) (price : ℤ) (quantity timestamp : ℕ) (v : Steady e)
    → Held v
    → ((o : ℕ) → OrderMap.find e.book.order_map id ≡ some o → is_iceberg (e.store o).type ≡ false)
    → quantity < 2 ^ 64
    → max_trades_per_match + resting_orders v.queues e.book.num_levels < fuel
    → ((r : Engine × MatchResult) × (modify_order fuel e id price quantity timestamp ≡ some r)
        × (v' : Steady r.0) × Held v')
      × (OrderMap.find e.book.order_map id ≡ none
          → modify_order fuel e id price quantity timestamp ≡ some (e, fresh_result rejected 0))
modify_order-Held fuel e id price quantity timestamp v w plain fits enough =
    elim (Option-cases (OrderMap.find e.book.order_map id)) [
      | inl missing ↦
          let same = modify_unknown fuel e id price quantity timestamp missing in
          (((e, fresh_result rejected 0), same, v, w), λ h. same)
      | inr (o, found) ↦
          let (_, (d, i, there)) = w.ids.known id o found in
          let ((r, run, v', held), _) =
            modify_order-Steady fuel e id o d i v found there price quantity timestamp fits
              (plain o found) enough in
          ((r, run, v', held w), λ h. absurd (cc (h, found)))
    ]
