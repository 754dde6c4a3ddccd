-- ===== src/Gateway/Operations.antt =====
-- `process_order` returns, keeps the engine's invariant, and accepts exactly the valid orders that
-- the pool has room for.
use hft_orderbook_engine.Base.{
  ℕ, suc, ◌+◌, ◌≤◌, ◌<◌, ◌^◌, ◌≡◌, ◌⊎◌, refl, sym, ◌∙◌, ap, Bool, true, false, not, ◌&&◌, ◌||◌,
  Option, none, some, Ptr, List, [], ◌∷◌, length, arith, has, update, update_self, is_some, ◌==◌,
  ◌>>=◌, Bool-cases, Option-cases, inl, inr, subst, u64_mod, add64,
}
use hft_orderbook_engine.Base.Int.{pos, leb_ℤ}
use hft_orderbook_engine.Core.{Side, Order}
use hft_orderbook_engine.Core
use hft_orderbook_engine.Pool
use hft_orderbook_engine.Pool.{MemoryPool}
use hft_orderbook_engine.Pool.FreeList.{IsPool, allocate-cons, allocate-nil}
use hft_orderbook_engine.Book.Operations.{Inv-update}
use hft_orderbook_engine.Book.Linked.{Linked-less, Linked-update}
use hft_orderbook_engine.Transport
use hft_orderbook_engine.Transport.{EventType, EventData, OrderMessage}
use hft_orderbook_engine.Engine.{Engine, MatchResult, is_market, max_trades_per_match}
use hft_orderbook_engine.Engine.Invariant.{Good, Tied, Steady, Held, resting_orders}
use hft_orderbook_engine.Engine.Ledger.{IsLedger, OnSome}
use hft_orderbook_engine.Engine.Operations.{IsDisplayed, submit_order-Steady}
use hft_orderbook_engine.Engine.Report.{submit_order-OnSome, answer}
use hft_orderbook_engine.Engine.Submit.{submit_order}
use hft_orderbook_engine.Gateway.{
  OrderGateway, EventBuffer, GatewayResult, GatewayRejectReason, invalid_price, invalid_quantity,
  pool_exhausted, fresh, admit, reject, accept, publish_rejection, decompose_and_publish, publish,
  process_order, refusal, acceptance, publish_trades, status_event, order_event,
}
use hft_orderbook_engine.Gateway.Events.{
  HasRoom, Posted, decompose_and_publish-Posted, publish-Posted, HasRoom-less,
}

-- A slot of the pool that is taken for an order of any content is live and in no queue.
pub admit-Good :
    (e : Engine) (v : Steady e) (o : ℕ) (c : Order)
    → (Pool.allocate e.pool).1 ≡ some o
    → (g : Good (record e { store = update e.store o c; pool = (Pool.allocate e.pool).0 }) o)
      × (resting_orders g.queues e.book.num_levels ≡ resting_orders v.queues e.book.num_levels)
      × (Held v → Tied g)
admit-Good e v o c got = go v.free refl v.pool
  where
    go :
        (free : List ℕ)
        → length free ≡ length v.free
        → IsPool e.pool free v.live
        → (g : Good (record e { store = update e.store o c; pool = (Pool.allocate e.pool).0 }) o)
          × (resting_orders g.queues e.book.num_levels ≡ resting_orders v.queues e.book.num_levels)
          × (Held v → Tied g)
    go [] same_length p = absurd (cc (got, ap (λ (r : MemoryPool × Ptr). r.1) (allocate-nil p)))
    go (x ∷ free) same_length p =
        let (ptr, pool) = allocate-cons p in
        let same : x ≡ o = cc (got, ptr) in
        (
          record {
            queues = v.queues;
            free = free;
            live = o ∷ v.live;
            book = Inv-update o c v.book (out p same);
            pool = subst (λ y. IsPool (Pool.allocate e.pool).0 free (y ∷ v.live)) same pool;
            owned = λ d i y h. ground (arith, v.owned d i y h);
            out = out p same;
            alive = ground arith;
          },
          refl,
          λ w. Linked-less (omega (arith, same_length)) (Linked-update o c w (out p same)),
        )
      where
        out :
            IsPool e.pool (x ∷ free) v.live
            → x ≡ o
            → (d : Side) (i : ℕ) → has o (v.queues d i) ≡ false
        out p same d i = elim (Bool-cases (has o (v.queues d i))) [
          | inl h ↦
              let first : has x (x ∷ free) ≡ true = ground arith in
              absurd (cc (v.owned d i o h, p.apart x first, ap (λ y. has y v.live) same))
          | inr h ↦ h
        ]

-- Room for the events of one order, if there is an event buffer.
abbrev pub IsReady : OrderGateway → Type 0
IsReady g =
    (g.event_buffer ≡ none)
    ⊎ ((b : EventBuffer) × (g.event_buffer ≡ some b) × HasRoom b (max_trades_per_match + 1))

abbrev rejection : Order → EventType × EventData
rejection src =
    order_event (Transport.order_rejected, Core.rejected) src.order_id 0 src.quantity src.price
      src.timestamp

-- A quantity and, unless it is a market order, a positive price.
abbrev pub valid : Order → Bool
valid src = not (src.quantity == 0) && (is_market src.type || not (leb_ℤ src.price (pos 0)))

-- The gateway `g` has put one event behind the contents of its buffer, if it has one, and changed
-- nothing but its sequence number.
abbrev pub Published : OrderGateway → EventType × EventData → OrderGateway → Type 0
Published g event g' =
    ((g.event_buffer ≡ none) × (g' ≡ g))
    ⊎ ((b : EventBuffer) × (g.event_buffer ≡ some b) × Posted g b (event ∷ []) (some g'))

module _ (consume : EventBuffer → EventBuffer) (n : ℕ) where
  pub decompose-returns :
      (g : OrderGateway) (r : MatchResult) (copy : Order)
      → IsReady g
      → length r.trades ≤ max_trades_per_match
      → g.sequence_num + (max_trades_per_match + 1) < 2 ^ 64
      → (g' : OrderGateway) × (decompose_and_publish consume (suc n) g r copy ≡ some g')
        × (g'.engine ≡ g.engine)
  unfolding decompose_and_publish
  decompose-returns g r copy (inl missing) few low =
      let run =
        ap
          (λ (o : Option EventBuffer). elim o [
            | none ↦ some g
            | some _ ↦ do
              g' ← publish_trades consume (suc n) g r.trades
              publish consume (suc n) g' (status_event r copy)
          ])
          missing in
      (g, run, refl)
  decompose-returns g r copy (inr (b, here, room)) few low =
      let less =
        HasRoom-less b (length r.trades + 1) (max_trades_per_match + 1) room (omega (arith, few)) in
      let p =
        decompose_and_publish-Posted consume n g b r copy here less (omega (arith, few, low)) in
      (_, p.returned, refl)

  -- Publishing one event, if there is a buffer.
  pub publish-Published :
      (g : OrderGateway) (event : EventType × EventData)
      → IsReady g
      → g.sequence_num + 1 < 2 ^ 64
      → (g' : OrderGateway) × ((elim g.event_buffer [
        | none ↦ some g
        | some _ ↦ publish consume (suc n) g event
      ])
          ≡ some g')
        × (g'.engine ≡ g.engine)
        × Published g event g'
  publish-Published g event (inl missing) low =
      let run =
        ap
          (λ (o : Option EventBuffer). elim o [
            | none ↦ some g
            | some _ ↦ publish consume (suc n) g event
          ])
          missing in
      (g, run, refl, inl (missing, refl))
  publish-Published g event (inr (b, here, room)) low =
      let less = HasRoom-less b 1 (max_trades_per_match + 1) room (omega arith) in
      let p = publish-Posted consume n g b event here less low in
      let run =
        ap
          (λ (o : Option EventBuffer). elim o [
            | none ↦ some g
            | some _ ↦ publish consume (suc n) g event
          ])
          here in
      (_, run ∙ p.returned, refl, inr (b, here, subst (Posted g b (event ∷ [])) p.returned p))

  pub reject-returns :
      (g : OrderGateway) (src : Order) (reason : GatewayRejectReason)
      → IsReady g
      → g.sequence_num + 1 < 2 ^ 64
      → (g' : OrderGateway) × (reject consume (suc n) g src reason ≡ some (g', refusal reason))
        × (g'.engine ≡ g.engine)
  unfolding reject publish_rejection
  reject-returns g src reason ready low =
      let counted = record g { orders_rejected = add64 g.orders_rejected 1 } in
      let (g', run, same, _) = publish-Published counted (rejection src) ready low in
      (g', ap (λ x. x >>= (λ g'. some (g', refusal reason))) run, same)

  pub accept-returns :
      (g : OrderGateway) (r : MatchResult) (copy : Order)
      → IsReady g
      → length r.trades ≤ max_trades_per_match
      → g.sequence_num + (max_trades_per_match + 1) < 2 ^ 64
      → (g' : OrderGateway) × (accept consume (suc n) g r copy ≡ some (g', acceptance r))
        × (g'.engine ≡ g.engine)
  unfolding accept
  accept-returns g r copy ready few low =
      let (g', run, same) = decompose-returns g r copy ready few low in
      (
        record g' { orders_processed = add64 g'.orders_processed 1 },
        ap
            (λ x. x >>= (λ (g' : OrderGateway).
              some (record g' { orders_processed = add64 g'.orders_processed 1 }, acceptance r)))
            run,
        same,
      )

  -- An answer that says `accepted`, leaves the engine steady, and the map as it should be if it was.
  abbrev pub Answers :
      {e : Engine} → Steady e → Bool → Option (OrderGateway × GatewayResult) → Type 0
  Answers v ok o =
      (r : OrderGateway × GatewayResult) × (o ≡ some r)
      × ((r.1).accepted ≡ ok)
      × (v' : Steady (r.0).engine) × (Held v → Held v')

  pub refused :
      (g : OrderGateway) (src : Order) (reason : GatewayRejectReason) (v : Steady g.engine)
      → IsReady g
      → g.sequence_num + 1 < 2 ^ 64
      → Answers v false (reject consume (suc n) g src reason)
  refused g src reason v ready low =
      let (g', run, same) = reject-returns g src reason ready low in
      let (v', held) = subst (λ e. (v' : Steady e) × (Held v → Held v')) (sym same) (v, λ w. w) in
      ((g', refusal reason), run, refl, v', held)

  submitted :
      (g : OrderGateway) (src : Order) (o : ℕ) (v : Steady g.engine)
      → (Pool.allocate g.engine.pool).1 ≡ some o
      → IsReady g
      → g.sequence_num + (max_trades_per_match + 1) < 2 ^ 64
      → g.engine.trade_id_counter < u64_mod
      → IsDisplayed (fresh src)
      → max_trades_per_match + resting_orders v.queues g.engine.book.num_levels < suc n
      → Answers v true (
          submit_order (suc n) (admit g src o) o
          >>= (λ x. accept consume (suc n) (record g { engine = x.0 }) x.1 (fresh src)))
  submitted g src o v got ready low count shown enough =
      let (good, rounds_left, tied) = admit-Good g.engine v o (fresh src) got in
      let displayed : IsDisplayed ((admit g src o).store o) =
        subst IsDisplayed (sym (update_self g.engine.store o (fresh src))) shown in
      let (r, run, steady, kept) =
        submit_order-Steady (suc n) (admit g src o) o good displayed
          (omega (arith, rounds_left, enough)) in
      let ledger =
        subst (OnSome (λ (r : Engine × MatchResult). IsLedger g.engine.trade_id_counter (answer r)))
          run (submit_order-OnSome (suc n) (admit g src o) o count) in
      let (g', accepted, same) =
        accept-returns (record g { engine = r.0 }) r.1 (fresh src) ready
          (omega (arith, ledger.count, ledger.bound)) low in
      let (v', held) =
        subst (λ e. (v' : Steady e) × (Held v → Held v')) (sym same) (steady, λ w. kept (tied w)) in
      (
        (g', acceptance r.1),
        ap (λ x. x >>= (λ x. accept consume (suc n) (record g { engine = x.0 }) x.1 (fresh src)))
              run
            ∙ accepted,
        refl,
        v',
        held,
      )

  -- With no event buffer, or one with room for an order's events, counters that are not about to
  -- wrap and fuel above the 64 trades and the resting orders, processing an order that shows all of
  -- its quantity returns, and keeps the engine's invariant and, if it holds, that the order map finds
  -- exactly the orders that rest and has more slots left than the pool. It accepts exactly an order with a
  -- quantity and, unless it is a market order, a positive price, if the pool has a free slot.
  pub process_order-Steady :
      (g : OrderGateway) (msg : OrderMessage) (v : Steady g.engine)
      → IsReady g
      → g.sequence_num + (max_trades_per_match + 1) < 2 ^ 64
      → g.engine.trade_id_counter < u64_mod
      → IsDisplayed (fresh msg.order)
      → max_trades_per_match + resting_orders v.queues g.engine.book.num_levels < suc n
      → Answers v
          (valid msg.order && is_some (Pool.allocate g.engine.pool).1)
          (process_order consume (suc n) g msg)
  unfolding process_order
  process_order-Steady g msg v ready low count shown enough =
      let refusal_of =
        λ (reason : GatewayRejectReason). refused g msg.order reason v ready (omega (arith, low)) in
      elim (Bool-cases (msg.order.quantity == 0)) [
        | inl z ↦ rw (z, process_order) (refusal_of invalid_quantity)
        | inr nz ↦
            elim (Bool-cases (is_market msg.order.type || not (leb_ℤ msg.order.price (pos 0)))) [
              | inr bad ↦
                  let test : (not (is_market msg.order.type) && leb_ℤ msg.order.price (pos 0))
                      ≡ true =
                    ground arith in
                  rw (nz, bad, test, process_order) (refusal_of invalid_price)
              | inl good ↦
                  let test : (not (is_market msg.order.type) && leb_ℤ msg.order.price (pos 0))
                      ≡ false =
                    ground arith in
                  elim (Option-cases (Pool.allocate g.engine.pool).1) [
                    | inl nil ↦ rw (nz, good, test, nil, process_order) (refusal_of pool_exhausted)
                    | inr (o, got) ↦
                        rw (nz, good, test, got, process_order)
                          (submitted g msg.order o v got ready low count shown enough)
                  ]
            ]
      ]
