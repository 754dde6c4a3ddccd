-- ===== src/Book/Operations.antt =====
-- The public operations of order_book.cpp: what `add_order`, `cancel_order` and `modify_order` do
-- on every branch, and that each keeps the invariant.
use hft_orderbook_engine.Base.{
  ℕ, ◌≡◌, refl, true, false, ◌&&◌, some, [], ◌∷◌, ◌++◌, Bool-cases, inl, inr, arith, update, has,
  erase, has_apart,
}
use hft_orderbook_engine.Core.{Side, buy, sell, Order, cancelled, Store}
use hft_orderbook_engine.OrderMap
use hft_orderbook_engine.OrderMap.{FlatOrderMap}
use hft_orderbook_engine.Book.{
  OrderBook, price_to_index, is_valid_price, place, add_order, remove_order, cancel_order,
}
use hft_orderbook_engine.Book.Invariant.{Inv, IsSound, Queues, set_queue, Represents-frame}
use hft_orderbook_engine.Book.Frame.{core}
use hft_orderbook_engine.Book.Grid.{index-lt}
use hft_orderbook_engine.Book.Place.{place_at-Inv, place_at-core, grid}
use hft_orderbook_engine.Book.Remove.{remove_at-Inv, remove_at-gone, remove_order-remove_at}

-- An order in no queue may change.
pub Inv-frame :
    {b : OrderBook} {s : Store} {q : Queues} (t : Store)
    → Inv b s q
    → ((e : Side) (i x : ℕ) → has x (q e i) ≡ true → t x ≡ s x)
    → Inv b t q
Inv-frame {b} {s} {q} t v same = record {
  grid = v.grid;
  repr = λ e i. Represents-frame (same e i) (v.repr e i);
  placed = λ e i x h. rw (same e i x h) (v.placed e i x h);
  best = v.best;
}

pub Inv-update :
    {b : OrderBook} {s : Store} {q : Queues} (o : ℕ) (c : Order)
    → Inv b s q
    → ((e : Side) (i : ℕ) → has o (q e i) ≡ false)
    → Inv b (update s o c) q
Inv-update {s} {q} o c v out =
    Inv-frame (update s o c) v
      (λ e i x h. let ne = has_apart x o (q e i) h (out e i) in ground arith)

-- The order map takes no part in the invariant.
pub Inv-order_map :
    {b : OrderBook} {s : Store} {q : Queues} (map : FlatOrderMap)
    → Inv b s q
    → Inv (record b { order_map = map }) s q
unfolding price_to_index
Inv-order_map {b} {s} {q} map v = record {
  grid = record {
    tick = v.grid.tick;
    range = v.grid.range;
    count = v.grid.count;
    fits = v.grid.fits;
  };
  repr = elim [ buy ↦ v.repr buy | sell ↦ v.repr sell ];
  placed = λ e i x h.
      let p = v.placed e i x h in
      record { side = p.side; index = p.index; low = p.low; sound = p.sound };
  best = elim [ buy ↦ v.best buy | sell ↦ v.best sell ];
}

-- The book after the map took the order.
abbrev mapped : OrderBook → Store → ℕ → OrderBook
mapped b s o = record b { order_map = (OrderMap.insert b.order_map (s o).order_id o).0 }

pub place-Inv :
    {b : OrderBook} {s : Store} {q : Queues} (o : ℕ)
    → Inv b s q
    → ((e : Side) (i : ℕ) → has o (q e i) ≡ false)
    → IsSound (s o)
    → is_valid_price b (s o).price ≡ true
    → let i = price_to_index b (s o).price in
      Inv (place b s o).0 (place b s o).1 (set_queue q (s o).side i (q (s o).side i ++ o ∷ []))
unfolding place
place-Inv {b} {s} o v out sound valid =
    place_at-Inv o (s o).side (price_to_index b (s o).price) v out (record {
      side = refl;
      index = refl;
      low = index-lt b v.grid (s o).price valid;
      sound = sound;
    })

module _ {b : OrderBook} {s : Store} {q : Queues} (o : ℕ) (v : Inv b s q)
    (out : (e : Side) (i : ℕ) → has o (q e i) ≡ false) (sound : IsSound (s o)) where
  -- The level of an order.
  abbrev idx : ℕ
  idx = price_to_index b (s o).price

  accepted_iff :
      (add_order b s o).2
      ≡ (is_valid_price b (s o).price && (OrderMap.insert b.order_map (s o).order_id o).1)
  unfolding add_order
  accepted_iff = ground arith

  add_order-refused :
      (add_order b s o).2 ≡ false → ((add_order b s o).0 ≡ b) × ((add_order b s o).1 ≡ s)
  unfolding add_order
  add_order-refused h = (ground arith, ground arith)

  add_order-placed :
      (add_order b s o).2 ≡ true
      → Inv
          (add_order b s o).0
          (add_order b s o).1
          (set_queue q (s o).side idx (q (s o).side idx ++ o ∷ []))
  unfolding add_order
  add_order-placed h = elim (Bool-cases (is_valid_price b (s o).price)) [
    | inl valid ↦ elim (Bool-cases (OrderMap.insert b.order_map (s o).order_id o).1) [
      | inl new ↦ rw (valid, new, add_order) (placed valid)
      | inr old ↦ absurd (cc (accepted_iff, valid, old, h))
    ]
    | inr invalid ↦ absurd (cc (accepted_iff, invalid, h))
  ]
    where
      placed :
          is_valid_price b (s o).price ≡ true
          → Inv
              (place (mapped b s o) s o).0
              (place (mapped b s o) s o).1
              (set_queue q (s o).side idx (q (s o).side idx ++ o ∷ []))
      placed valid =
          unfold price_to_index is_valid_price in place-Inv o (Inv-order_map _ v) out sound valid

  pub add_order-num : (add_order b s o).0.num_levels ≡ b.num_levels
  unfolding add_order place
  add_order-num = elim (Bool-cases (is_valid_price b (s o).price)) [
    | inl valid ↦ elim (Bool-cases (OrderMap.insert b.order_map (s o).order_id o).1) [
      | inl new ↦
          rw (valid, new, add_order)
            (grid o (s o).side (price_to_index (mapped b s o) (s o).price) (Inv-order_map _ v)
              out).num
      | inr old ↦ rw (valid, old, add_order) refl
    ]
    | inr invalid ↦ rw (invalid, add_order) refl
  ]

  pub add_order-core : (x : ℕ) → core ((add_order b s o).1 x) ≡ core (s x)
  unfolding add_order place
  add_order-core x = elim (Bool-cases (is_valid_price b (s o).price)) [
    | inl valid ↦ elim (Bool-cases (OrderMap.insert b.order_map (s o).order_id o).1) [
      | inl new ↦
          rw (valid, new, add_order)
            (place_at-core o (s o).side (price_to_index (mapped b s o) (s o).price)
              (Inv-order_map _ v) out x)
      | inr old ↦ rw (valid, old, add_order) refl
    ]
    | inr invalid ↦ rw (invalid, add_order) refl
  ]

  -- For a sound order that is in no queue of a book whose invariant holds, `add_order` succeeds
  -- exactly on a valid price and an id that the map takes. Then the order is the last of its level's
  -- queue and the invariant holds; else nothing changes.
  pub add_order-Inv :
      ((add_order b s o).2
        ≡ (is_valid_price b (s o).price && (OrderMap.insert b.order_map (s o).order_id o).1))
      × ((add_order b s o).2 ≡ true
          → Inv
              (add_order b s o).0
              (add_order b s o).1
              (set_queue q (s o).side idx (q (s o).side idx ++ o ∷ [])))
      × ((add_order b s o).2 ≡ false → ((add_order b s o).0 ≡ b) × ((add_order b s o).1 ≡ s))
  add_order-Inv = (accepted_iff, add_order-placed, add_order-refused)

module _ {b : OrderBook} {s : Store} {q : Queues} (id o : ℕ) (d : Side) (i : ℕ) (v : Inv b s q)
    (found : OrderMap.find b.order_map id ≡ some o) (there : has o (q d i) ≡ true) where
  -- The queues without the order.
  abbrev pub rest : Queues
  rest = set_queue q d i (erase o (q d i))

  pub removed-Inv : Inv (remove_order b s o).0 (remove_order b s o).1 rest
  removed-Inv = rw (remove_order-remove_at o d i v there) (remove_at-Inv o d i v there)

  -- In a book whose invariant holds, cancelling an order that the map finds and a queue holds returns
  -- it with status cancelled, out of every queue, the others in their order, and keeps the invariant.
  pub cancel_order-Inv :
      ((cancel_order b s id).2 ≡ some o)
      × (((cancel_order b s id).1 o).status ≡ cancelled)
      × Inv (cancel_order b s id).0 (cancel_order b s id).1 rest
      × ((e : Side) (j : ℕ) → has o (rest e j) ≡ false)
  unfolding cancel_order
  cancel_order-Inv =
      rw (found, cancel_order)
        (
          refl,
          ground arith,
          Inv-update o _ removed-Inv (remove_at-gone o d i v there),
          remove_at-gone o d i v there,
        )
