-- ===== src/Book/ById.antt =====
-- `cancel_order` of order_book.cpp on a book whose order map finds exactly the orders that rest.
use hft_orderbook_engine.Base.{
  ℕ, ◌≡◌, sym, subst, ap, true, false, Option, none, some, ◌==◌, ==_iff, Bool-cases, Option-cases,
  inl, inr, has, erase,
}
use hft_orderbook_engine.Core.{Side, Store, cancelled}
use hft_orderbook_engine.OrderMap
use hft_orderbook_engine.OrderMap.{FlatOrderMap, find, empty_key}
use hft_orderbook_engine.Book.{OrderBook, remove_order, cancel_order}
use hft_orderbook_engine.Book.Invariant.{Inv, Queues, set_queue}
use hft_orderbook_engine.Book.Frame.{core-set_status}
use hft_orderbook_engine.Book.Remove.{remove_order-remove_at}
use hft_orderbook_engine.Book.Operations.{cancel_order-Inv}
use hft_orderbook_engine.Book.Ids.{Ids, Ids-frame, remove_at-Ids}

-- What a cancellation by id makes of a book: nothing, where no order that rests has the id, and else
-- a book without that order, which has been cancelled.
pub data Cancels (b : OrderBook) (s : Store) (q : Queues) (id : ℕ)
    : OrderBook × Store × Option ℕ → Type 0 where
  unknown :
      ((d : Side) (i o : ℕ) → has o (q d i) ≡ true → ((s o).order_id == id) ≡ false)
      → Cancels b s q id (b, s, none)
  removed :
      {b' : OrderBook} {t : Store} (o : ℕ) (d : Side) (i : ℕ)
      → has o (q d i) ≡ true
      → (s o).order_id ≡ id
      → (t o).status ≡ cancelled
      → Inv b' t (set_queue q d i (erase o (q d i)))
      → Ids b' t (set_queue q d i (erase o (q d i)))
      → Cancels b s q id (b', t, some o)

module _ {b : OrderBook} {s : Store} {q : Queues} (v : Inv b s q) (w : Ids b s q) (id : ℕ) where
  cancel_unknown : OrderMap.find b.order_map id ≡ none → Cancels b s q id (cancel_order b s id)
  unfolding cancel_order
  cancel_unknown e =
      rw (e, cancel_order)
        (unknown λ d i o h. elim (Bool-cases ((s o).order_id == id)) [
          | inr p ↦ p
          | inl p ↦
              absurd
                (cc (e, w.resting d i o h, ap (find b.order_map) ((==_iff (s o).order_id id).0 p)))
        ])

  cancel_ids :
      (o : ℕ) (d : Side) (i : ℕ)
      → OrderMap.find b.order_map id ≡ some o
      → has o (q d i) ≡ true
      → Ids (cancel_order b s id).0 (cancel_order b s id).1 (set_queue q d i (erase o (q d i)))
  unfolding cancel_order
  cancel_ids o d i e h =
      let left : Ids (remove_order b s o).0 (remove_order b s o).1
          (set_queue q d i (erase o (q d i))) =
        rw (remove_order-remove_at o d i v h) (remove_at-Ids o d i v w h) in
      rw (e, cancel_order) (Ids-frame (core-set_status (remove_order b s o).1 o cancelled) left)

  cancel_known :
      (o : ℕ) → OrderMap.find b.order_map id ≡ some o → Cancels b s q id (cancel_order b s id)
  cancel_known o e =
      let (named, (d, i, h)) = w.known id o e in
      let (reported, status, inv, _) = cancel_order-Inv id o d i v e h in
      subst (λ x. Cancels b s q id ((cancel_order b s id).0, (cancel_order b s id).1, x))
        (sym reported) (removed o d i h named status inv (cancel_ids o d i e h))

  -- In a book whose invariant holds and whose map finds the orders that rest, cancelling by any id
  -- does what it should: it changes nothing if no order has the id, and else takes that order, and no
  -- other, out of its queue and out of the map.
  pub cancel_order-Cancels : Cancels b s q id (cancel_order b s id)
  cancel_order-Cancels = elim (Option-cases (OrderMap.find b.order_map id)) [
    | inl e ↦ cancel_unknown e
    | inr (o, e) ↦ cancel_known o e
  ]
