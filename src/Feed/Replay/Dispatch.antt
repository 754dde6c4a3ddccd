-- ===== src/Feed/Replay/Dispatch.antt =====
-- The `switch` of replay_engine.cpp returns, counts each record once, and keeps the engine in order.
use hft_orderbook_engine.Base.{
  ℕ, suc, ◌+◌, ◌%◌, ◌<◌, ◌&&◌, is_some, if◌then◌else◌, ◌^◌, ◌≡◌, refl, ap, Bool, true, false,
  Option, some, arith, add64, ◌>>=◌, Bool-cases, inl, inr, u64_mod,
}
use hft_orderbook_engine.OrderMap
use hft_orderbook_engine.Pool
use hft_orderbook_engine.Core.{Order}
use hft_orderbook_engine.Book.{is_iceberg}
use hft_orderbook_engine.Engine.{max_trades_per_match}
use hft_orderbook_engine.Engine.Invariant.{Steady, Held, resting_orders}
use hft_orderbook_engine.Engine.Operations.{IsDisplayed}
use hft_orderbook_engine.Gateway.{
  OrderGateway, GatewayResult, fresh, process_order, process_cancel, process_modify,
}
use hft_orderbook_engine.Gateway.Operations.{IsReady, valid, process_order-Steady}
use hft_orderbook_engine.Gateway.ById.{
  Cancelled-success, process_cancel-Cancelled, Modified, process_modify-Modified,
}
use hft_orderbook_engine.Feed.{
  L3EventType, add, cancel, modify, trade, invalid, L3Record, to_order_message, to_modify_message,
}
use hft_orderbook_engine.Feed.Replay.{
  ReplayStats, no_stats, count_order, count_cancel, count_modify, dispatch, dispatch_type, nobody,
  default_instrument_id,
}

-- Every message is counted by its kind, and every order message by its outcome; `n` messages are
-- not yet counted by their kind.
pub record IsTally (n : ℕ) (s : ReplayStats) : Type 0 where
  pub total :
      s.total_messages
      ≡ s.add_messages + s.cancel_messages + s.modify_messages + s.trade_messages + s.parse_errors
        + n
  pub adds : s.add_messages ≡ s.orders_accepted + s.orders_rejected
  pub cancels : s.cancel_messages ≡ s.orders_cancelled + s.cancel_failures
  pub modifies : s.modify_messages ≡ s.orders_modified + s.modify_failures
  pub fits : s.total_messages < u64_mod
  pub generated : s.trades_generated < u64_mod

-- By how much each counter rises for a message of a kind, with its outcome.
abbrev pub rises : L3EventType → Bool → ReplayStats
rises add true = record no_stats { add_messages = 1; orders_accepted = 1 }
rises add false = record no_stats { add_messages = 1; orders_rejected = 1 }
rises cancel true = record no_stats { cancel_messages = 1; orders_cancelled = 1 }
rises cancel false = record no_stats { cancel_messages = 1; cancel_failures = 1 }
rises modify true = record no_stats { modify_messages = 1; orders_modified = 1 }
rises modify false = record no_stats { modify_messages = 1; modify_failures = 1 }
rises trade ok = record no_stats { trade_messages = 1 }
rises invalid ok = record no_stats { parse_errors = 1 }

-- The counters of `s'` are those of `s`, each raised as in `k`, and the trades by `trades`.
pub record Raised (s k : ReplayStats) (trades : ℕ) (s' : ReplayStats) : Type 0 where
  pub total : s'.total_messages ≡ s.total_messages
  pub adds : s'.add_messages ≡ s.add_messages + k.add_messages
  pub cancels : s'.cancel_messages ≡ s.cancel_messages + k.cancel_messages
  pub modifies : s'.modify_messages ≡ s.modify_messages + k.modify_messages
  pub trades_seen : s'.trade_messages ≡ s.trade_messages + k.trade_messages
  pub errors : s'.parse_errors ≡ s.parse_errors + k.parse_errors
  pub accepted : s'.orders_accepted ≡ s.orders_accepted + k.orders_accepted
  pub rejected : s'.orders_rejected ≡ s.orders_rejected + k.orders_rejected
  pub cancelled : s'.orders_cancelled ≡ s.orders_cancelled + k.orders_cancelled
  pub cancel_failed : s'.cancel_failures ≡ s.cancel_failures + k.cancel_failures
  pub modified : s'.orders_modified ≡ s.orders_modified + k.orders_modified
  pub modify_failed : s'.modify_failures ≡ s.modify_failures + k.modify_failures
  pub generated : s'.trades_generated ≡ (s.trades_generated + trades) % u64_mod

-- A message of a kind, with its outcome and the trades that it made, is counted as such.
abbrev pub Counted : L3EventType → Bool → ℕ → ReplayStats → ReplayStats → Type 0
Counted type ok trades s s' = Raised s (rises type ok) (if ok then trades else 0) s'

-- Counters that are raised for one message are balanced.
tallied :
    (s s' : ReplayStats) (type : L3EventType) (ok : Bool) (trades : ℕ)
    → IsTally 1 s
    → Counted type ok trades s s'
    → IsTally 0 s'
tallied s s' add true trades t c = omega (arith, t, c)
tallied s s' add false trades t c = omega (arith, t, c)
tallied s s' cancel true trades t c = omega (arith, t, c)
tallied s s' cancel false trades t c = omega (arith, t, c)
tallied s s' modify true trades t c = omega (arith, t, c)
tallied s s' modify false trades t c = omega (arith, t, c)
tallied s s' trade true trades t c = omega (arith, t, c)
tallied s s' trade false trades t c = omega (arith, t, c)
tallied s s' invalid true trades t c = omega (arith, t, c)
tallied s s' invalid false trades t c = omega (arith, t, c)

module _ (s : ReplayStats) (t : IsTally 1 s) where
  count_order-Counted :
      (r : GatewayResult)
      → Counted add r.accepted r.trade_count s
          (count_order (record s { add_messages = add64 s.add_messages 1 }) r)
  count_order-Counted r = elim (Bool-cases r.accepted) [
    | inl p ↦ rw p (omega (arith, t))
    | inr p ↦ rw p (omega (arith, t))
  ]

  count_cancel-Counted :
      (ok : Bool)
      → Counted cancel ok 0 s
          (count_cancel (record s { cancel_messages = add64 s.cancel_messages 1 }) ok)
  count_cancel-Counted true = omega (arith, t)
  count_cancel-Counted false = omega (arith, t)

  count_modify-Counted :
      (r : GatewayResult)
      → Counted modify r.accepted r.trade_count s
          (count_modify (record s { modify_messages = add64 s.modify_messages 1 }) r)
  count_modify-Counted r = elim (Bool-cases r.accepted) [
    | inl p ↦ rw p (omega (arith, t))
    | inr p ↦ rw p (omega (arith, t))
  ]

module _ (n : ℕ) (g : OrderGateway) (s : ReplayStats) (r : L3Record) where
  abbrev order : Order
  order = (to_order_message r default_instrument_id).order

  -- The gateway's answer to the record, what decides it, and that the record is counted by it.
  abbrev pub Answered : L3EventType → OrderGateway → ReplayStats → Type 0
  Answered add g' s' =
      (a : GatewayResult) × (process_order nobody (suc n) g
          (to_order_message r default_instrument_id)
        ≡ some (g', a))
      × (a.accepted ≡ (valid order && is_some (Pool.allocate g.engine.pool).1))
      × Counted add a.accepted a.trade_count s s'
  Answered cancel g' s' =
      (ok : Bool) × (process_cancel nobody (suc n) g r.order_id ≡ some (g', ok))
      × (ok ≡ is_some (OrderMap.find g.engine.book.order_map r.order_id))
      × Counted cancel ok 0 s s'
  Answered modify g' s' =
      (a : GatewayResult) × (process_modify nobody (suc n) g
          (to_modify_message r default_instrument_id)
        ≡ some (g', a))
      × Modified nobody n g (to_modify_message r default_instrument_id).order (g', a)
      × Counted modify a.accepted a.trade_count s s'
  Answered trade g' s' = (g' ≡ g) × Counted trade true 0 s s'
  Answered invalid g' s' = (g' ≡ g) × Counted invalid true 0 s s'

  -- What a record leaves: the gateway's answer, counted, an engine in order, and balanced counters.
  pub record Dispatched (type : L3EventType) (x : OrderGateway × ReplayStats) : Type 0 where
    pub answered : Answered type x.0 x.1
    pub steady : Steady (x.0).engine
    pub held : Held steady
    pub tally : IsTally 0 x.1

  abbrev Returns : L3EventType → Option (OrderGateway × ReplayStats) → Type 0
  Returns type y = (x : OrderGateway × ReplayStats) × (y ≡ some x) × Dispatched type x

module _ (n : ℕ) (g : OrderGateway) (s : ReplayStats) (r : L3Record) (v : Steady g.engine)
    (w : Held v)
    (plain : (o : ℕ)
      → OrderMap.find g.engine.book.order_map r.order_id ≡ some o
      → is_iceberg (g.engine.store o).type ≡ false)
    (ready : IsReady g) (low : g.sequence_num + (max_trades_per_match + 1) < 2 ^ 64)
    (count : g.engine.trade_id_counter < u64_mod) (fits : r.quantity < 2 ^ 64)
    (enough : max_trades_per_match + resting_orders v.queues g.engine.book.num_levels < suc n)
    (t : IsTally 1 s) where
  by_type : (type : L3EventType) → Returns n g s r type (dispatch_type type (suc n) g s r)
  unfolding dispatch_type to_order_message to_modify_message
  by_type add =
      let msg = to_order_message r default_instrument_id in
      let shown : IsDisplayed (fresh msg.order) = record {
        whole = refl;
        part = omega arith;
        fits = fits;
      } in
      let (x, run, ok, v', held) =
        process_order-Steady nobody n g msg v ready low count shown enough in
      let c = count_order-Counted s t x.1 in
      (
        (x.0, count_order (record s { add_messages = add64 s.add_messages 1 }) x.1),
        ap
            (λ y. y >>= (λ (x : OrderGateway × GatewayResult).
              some (x.0, count_order (record s { add_messages = add64 s.add_messages 1 }) x.1)))
            run,
        record {
          answered = (x.1, run, ok, c);
          steady = v';
          held = held w;
          tally = tallied s _ add x.1.accepted x.1.trade_count t c;
        },
      )
  by_type cancel =
      let (x, run, answer) =
        process_cancel-Cancelled nobody n g r.order_id v w ready (omega (arith, low)) in
      let (ok, v', w') = Cancelled-success nobody n g v r.order_id w x answer in
      let c = count_cancel-Counted s t x.1 in
      (
        (x.0, count_cancel (record s { cancel_messages = add64 s.cancel_messages 1 }) x.1),
        ap
            (λ y. y >>= (λ (x : OrderGateway × Bool).
              some
                (x.0, count_cancel (record s { cancel_messages = add64 s.cancel_messages 1 }) x.1)))
            run,
        record {
          answered = (x.1, run, ok, c);
          steady = v';
          held = w';
          tally = tallied s _ cancel x.1 0 t c;
        },
      )
  by_type modify =
      let msg = to_modify_message r default_instrument_id in
      let (x, run, m) =
        process_modify-Modified nobody n g msg v w plain ready low count fits enough in
      let c = count_modify-Counted s t x.1 in
      (
        (x.0, count_modify (record s { modify_messages = add64 s.modify_messages 1 }) x.1),
        ap
            (λ y. y >>= (λ (x : OrderGateway × GatewayResult).
              some
                (x.0, count_modify (record s { modify_messages = add64 s.modify_messages 1 }) x.1)))
            run,
        record {
          answered = (x.1, run, m, c);
          steady = m.steady;
          held = m.held;
          tally = tallied s _ modify x.1.accepted x.1.trade_count t c;
        },
      )
  by_type trade =
      let c : Counted trade true 0 s (record s { trade_messages = add64 s.trade_messages 1 }) =
        omega (arith, t) in
      (
        (g, record s { trade_messages = add64 s.trade_messages 1 }),
        refl,
        record { answered = (refl, c); steady = v; held = w; tally = tallied s _ trade true 0 t c },
      )
  by_type invalid =
      let c : Counted invalid true 0 s (record s { parse_errors = add64 s.parse_errors 1 }) =
        omega (arith, t) in
      (
        (g, record s { parse_errors = add64 s.parse_errors 1 }),
        refl,
        record {
          answered = (refl, c);
          steady = v;
          held = w;
          tally = tallied s _ invalid true 0 t c;
        },
      )

  -- In an engine whose invariant holds and whose map finds exactly the orders that rest, with no
  -- event buffer, or one with room for an order's events, counters that are not about to wrap, and
  -- fuel above the 64 trades and the resting orders, dispatching a record of a 64-bit quantity,
  -- whose id is no iceberg's, returns and keeps both properties of the engine. An addition,
  -- cancellation or modification goes to the gateway, and exactly the counter of its kind and the
  -- one of the gateway's answer, success or failure, rise by one; the trades of an accepted order
  -- are added modulo 2^64. An addition is accepted exactly if it is valid and the pool has a slot,
  -- a cancellation succeeds exactly if the map finds its id, and a modification fails without a
  -- quantity, a positive price or an id that the map finds. A trade record only raises its counter,
  -- and an invalid one that of the errors. If all messages but this one were counted by their kind
  -- and outcome, all are afterwards.
  pub dispatch-Dispatched :
      (x : OrderGateway × ReplayStats) × (dispatch (suc n) g s r ≡ some x)
      × Dispatched n g s r r.event_type x
  unfolding dispatch
  dispatch-Dispatched = by_type r.event_type
