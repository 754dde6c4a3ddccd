-- ===== src/Gateway/ById.antt =====
-- `process_cancel` and `process_modify` of order_gateway.cpp return for every id, and keep the
-- engine's invariant and its map.
use hft_orderbook_engine.Base.{
  ℕ, suc, ◌+◌, ◌≤◌, ◌<◌, ◌^◌, ◌≡◌, refl, sym, ◌∙◌, ap, Bool, true, false, not, ◌&&◌, Option, none,
  some, length, arith, is_some, has, if◌then◌else◌, ◌==◌, ◌>>=◌, Bool-cases, Option-cases, inl, inr,
  subst, u64_mod,
}
use hft_orderbook_engine.Base.Int.{pos, leb_ℤ}
use hft_orderbook_engine.Core.{Side, Order}
use hft_orderbook_engine.Core
use hft_orderbook_engine.OrderMap
use hft_orderbook_engine.Book.{is_iceberg}
use hft_orderbook_engine.Transport
use hft_orderbook_engine.Transport.{EventType, EventData, OrderMessage}
use hft_orderbook_engine.Engine.{Engine, MatchResult, rejected, max_trades_per_match}
use hft_orderbook_engine.Engine.Invariant.{Steady, Held, resting_orders}
use hft_orderbook_engine.Engine.Ledger.{IsLedger, OnSome}
use hft_orderbook_engine.Engine.Operations.{
  Taken, CancelsById, unknown, removed, cancel_order-CancelsById,
}
use hft_orderbook_engine.Engine.Modify.{modify_order-Held}
use hft_orderbook_engine.Engine.Report.{modify_order-OnSome, answer}
use hft_orderbook_engine.Engine.Submit.{cancel_order, fresh_result}
use hft_orderbook_engine.Gateway.{
  OrderGateway, EventBuffer, GatewayResult, invalid_price, invalid_quantity, order_not_found,
  publish, reject, refusal, GatewayRejectReason, process_cancel, process_modify, answer_modify,
  order_event, is_rejected, acceptance,
}
use hft_orderbook_engine.Gateway.Operations.{
  IsReady, Published, publish-Published, reject-returns, accept-returns,
}

module _ (consume : EventBuffer → EventBuffer) (n : ℕ) where
  abbrev pub cancel_event : ℕ → EventType × EventData
  cancel_event order_id =
      order_event (Transport.order_cancelled, Core.cancelled) order_id 0 0 (pos 0) 0

  -- What a gateway makes of a cancellation by `order_id`: it fails and leaves the gateway as it was, or
  -- the engine has taken the order, one event is published, and nothing else of the gateway changes.
  pub data Cancelled (g : OrderGateway) (v : Steady g.engine) (order_id : ℕ)
      : OrderGateway × Bool → Type 0 where
    not_found :
        OrderMap.find g.engine.book.order_map order_id ≡ none → Cancelled g v order_id (g, false)
    withdrawn :
        {g' : OrderGateway} (o : ℕ) (d : Side) (i : ℕ)
        → OrderMap.find g.engine.book.order_map order_id ≡ some o
        → has o (v.queues d i) ≡ true
        → (t : Taken v o d i g'.engine) → Held t.steady
        → Published (record g { engine = g'.engine }) (cancel_event order_id) g'
        → Cancelled g v order_id (g', true)

  -- Success, and the two properties of the engine.
  pub Cancelled-success :
      (g : OrderGateway) (v : Steady g.engine) (order_id : ℕ)
      → Held v
      → (r : OrderGateway × Bool) → Cancelled g v order_id r
      → (r.1 ≡ is_some (OrderMap.find g.engine.book.order_map order_id))
        × (v' : Steady (r.0).engine) × Held v'
  Cancelled-success g v order_id w r (not_found e) = (sym (ap is_some e), v, w)
  Cancelled-success g v order_id w r (withdrawn o d i e there t held p) =
      (sym (ap is_some e), t.steady, held)

  -- `process_cancel` with the engine's answer.
  abbrev finish : OrderGateway → ℕ → Engine × Bool → Option (OrderGateway × Bool)
  finish g order_id (e, success) =
      let g' = record g { engine = e } in
      if not success then some (g', false) else do
        g'' ← elim g.event_buffer [
          | none ↦ some g'
          | some _ ↦ publish consume (suc n) g' (cancel_event order_id)
        ]
        some (g'', true)

  finished :
      (g : OrderGateway) (order_id : ℕ) (v : Steady g.engine)
      → IsReady g
      → g.sequence_num + 1 < 2 ^ 64
      → (x : Engine × Bool) → CancelsById v order_id x
      → (r : OrderGateway × Bool) × (finish g order_id x ≡ some r) × Cancelled g v order_id r
  finished g order_id v ready low x (unknown e) = ((g, false), refl, not_found e)
  finished g order_id v ready low x (removed {e'} o d i e there t held) =
      let (g', run, same, p) =
        publish-Published consume n (record g { engine = e' }) (cancel_event order_id) ready low in
      let (t', held') = subst (λ y. (t : Taken v o d i y) × Held t.steady) (sym same) (t, held) in
      let p' =
        subst (λ y. Published (record g { engine = y }) (cancel_event order_id) g') (sym same) p in
      (
        (g', true),
        ap (λ y. y >>= (λ (g'' : OrderGateway). some (g'', true))) run,
        withdrawn o d i e there t' held' p',
      )

  -- With no event buffer, or one with room, in an engine whose invariant holds and whose map finds
  -- exactly the orders that rest, a cancellation by any id returns. If the map does not find the id it
  -- fails and the gateway is as it was. Else it succeeds: the order of that id, and no other, is out
  -- of its queue and is cancelled, its slot is the next free one of the pool, one event for it is
  -- behind the contents of the buffer, if there is one, with the next sequence number, and both
  -- properties of the engine still hold; of the orders only links and status have changed, and of the
  -- gateway nothing else.
  pub process_cancel-Cancelled :
      (g : OrderGateway) (order_id : ℕ) (v : Steady g.engine)
      → Held v
      → IsReady g
      → g.sequence_num + 1 < 2 ^ 64
      → (r : OrderGateway × Bool) × (process_cancel consume (suc n) g order_id ≡ some r)
        × Cancelled g v order_id r
  unfolding process_cancel
  process_cancel-Cancelled g order_id v w ready low =
      finished g order_id v ready low (cancel_order g.engine order_id)
        (cancel_order-CancelsById g.engine order_id v w)

  -- A quantity and a positive price.
  abbrev pub has_terms : Order → Bool
  has_terms src = not (src.quantity == 0) && not (leb_ℤ src.price (pos 0))

  -- What a gateway answers to a modification with the terms of `src`.
  pub record Modified (g : OrderGateway) (src : Order) (r : OrderGateway × GatewayResult)
      : Type 0 where
    pub steady : Steady (r.0).engine
    pub held : Held steady
    pub refused :
        (has_terms src && is_some (OrderMap.find g.engine.book.order_map src.order_id)) ≡ false
        → ((r.1).accepted ≡ false) × ((r.0).engine ≡ g.engine)

  abbrev Returns : OrderGateway → Order → Option (OrderGateway × GatewayResult) → Type 0
  Returns g src x = (r : OrderGateway × GatewayResult) × (x ≡ some r) × Modified g src r

  turned_away :
      (g h : OrderGateway) (src : Order) (reason : GatewayRejectReason) (v : Steady h.engine)
      → Held v
      → IsReady h
      → h.sequence_num + 1 < 2 ^ 64
      → ((has_terms src && is_some (OrderMap.find g.engine.book.order_map src.order_id)) ≡ false
          → h.engine ≡ g.engine)
      → Returns g src (reject consume (suc n) h src reason)
  turned_away g h src reason v w ready low unchanged =
      let (g', run, same) = reject-returns consume n h src reason ready low in
      let (v', w') = subst (λ e. (v : Steady e) × Held v) (sym same) (v, w) in
      (
        (g', refusal reason),
        run,
        record {
          steady = v';
          held = w';
          refused = λ bad_terms. (refl, same ∙ unchanged bad_terms);
        },
      )

  -- The engine's answer to a modification with good terms.
  answered :
      (g : OrderGateway) (src : Order) (x : Engine × MatchResult) (v : Steady x.0)
      → Held v
      → IsReady g
      → g.sequence_num + (max_trades_per_match + 1) < 2 ^ 64
      → length x.1.trades ≤ max_trades_per_match
      → (OrderMap.find g.engine.book.order_map src.order_id ≡ none
          → (x.0 ≡ g.engine) × (is_rejected x.1.status ≡ true))
      → has_terms src ≡ true
      → Returns g src (answer_modify consume (suc n) (record g { engine = x.0 }) x.1 src)
  unfolding answer_modify
  answered g src x v w ready low few refusing good =
      let h = record g { engine = x.0 } in
      let missing =
        λ (bad_terms : (has_terms src
              && is_some (OrderMap.find g.engine.book.order_map src.order_id))
            ≡ false).
          refusing (missed bad_terms) in
      elim (Bool-cases (is_rejected x.1.status)) [
        | inl p ↦
            rw (p, answer_modify)
              (turned_away g h src order_not_found v w ready (omega (arith, low))
                (λ bad_terms. (missing bad_terms).0))
        | inr p ↦
            let (g', run, same) = accept-returns consume n h x.1 src ready few low in
            let (v', w') = subst (λ e. (v : Steady e) × Held v) (sym same) (v, w) in
            (
              (g', acceptance x.1),
              rw (p, answer_modify) run,
              record {
                steady = v';
                held = w';
                refused = λ bad_terms. absurd (cc (p, (missing bad_terms).1));
              },
            )
      ]
    where
      missed :
          (has_terms src && is_some (OrderMap.find g.engine.book.order_map src.order_id)) ≡ false
          → OrderMap.find g.engine.book.order_map src.order_id ≡ none
      missed bad_terms = elim (Option-cases (OrderMap.find g.engine.book.order_map src.order_id)) [
        | inl e ↦ e
        | inr (o, e) ↦ absurd (cc (bad_terms, ap (λ t. t && true) good, ap is_some e))
      ]

  -- With no event buffer, or one with room for an order's events, counters that are not about to
  -- wrap, fuel above the 64 trades and the resting orders, in an engine whose invariant holds and
  -- whose map finds exactly the orders that rest, a modification by any id that is not an iceberg's,
  -- to a quantity of 64 bits, returns and keeps both. It is refused, and the engine left as it was,
  -- if the quantity is 0, the price is not positive, or the map does not find the id.
  pub process_modify-Modified :
      (g : OrderGateway) (msg : OrderMessage) (v : Steady g.engine)
      → Held v
      → ((o : ℕ)
          → OrderMap.find g.engine.book.order_map msg.order.order_id ≡ some o
          → is_iceberg (g.engine.store o).type ≡ false)
      → IsReady g
      → g.sequence_num + (max_trades_per_match + 1) < 2 ^ 64
      → g.engine.trade_id_counter < u64_mod
      → msg.order.quantity < 2 ^ 64
      → max_trades_per_match + resting_orders v.queues g.engine.book.num_levels < suc n
      → (r : OrderGateway × GatewayResult) × (process_modify consume (suc n) g msg ≡ some r)
        × Modified g msg.order r
  unfolding process_modify
  process_modify-Modified g msg v w plain ready low count fits enough =
      let src = msg.order in
      elim (Bool-cases (src.quantity == 0)) [
        | inl z ↦
            rw (z, process_modify)
              (turned_away g g src invalid_quantity v w ready (omega (arith, low))
                (λ bad_terms. refl))
        | inr nz ↦ elim (Bool-cases (leb_ℤ src.price (pos 0))) [
          | inl bad ↦
              rw (nz, bad, process_modify)
                (turned_away g g src invalid_price v w ready (omega (arith, low))
                  (λ bad_terms. refl))
          | inr good ↦
              let ((x, run, v', w'), refusing) =
                modify_order-Held (suc n) g.engine src.order_id src.price src.quantity src.timestamp
                  v w plain fits enough in
              let ledger =
                subst
                  (OnSome
                    (λ (r : Engine × MatchResult). IsLedger g.engine.trade_id_counter (answer r)))
                  run
                  (modify_order-OnSome (suc n) g.engine src.order_id src.price src.quantity
                    src.timestamp count) in
              let (r, ends, law) =
                answered g src x v' w' ready low (omega (arith, ledger.count, ledger.bound))
                  (λ h. same_answer x (sym run ∙ refusing h)) (terms nz good) in
              (
                r,
                rw (nz, good, process_modify)
                    (ap
                        (λ y. y >>= (λ y.
                          answer_modify consume (suc n) (record g { engine = y.0 }) y.1 src))
                        run
                      ∙ ends),
                law,
              )
        ]
      ]
    where
      terms :
          (msg.order.quantity == 0) ≡ false
          → leb_ℤ msg.order.price (pos 0) ≡ false
          → has_terms msg.order ≡ true
      terms nz good = rw (nz, good) refl

      same_answer :
          (x : Engine × MatchResult)
          → some x ≡ some (g.engine, fresh_result rejected 0)
          → (x.0 ≡ g.engine) × (is_rejected x.1.status ≡ true)
      same_answer x e =
          let same : x ≡ (g.engine, fresh_result rejected 0) = cc e in
          (
            ap (λ (y : Engine × MatchResult). y.0) same,
            ap (λ (y : Engine × MatchResult). is_rejected y.1.status) same,
          )
