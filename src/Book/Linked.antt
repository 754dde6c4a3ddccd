-- ===== src/Book/Linked.antt =====
-- A book whose order map finds exactly the orders that rest and has room for more: what each
-- operation of order_book.cpp makes of it.
use hft_orderbook_engine.Base.{
  ℕ, ◌+◌, ◌≤◌, ◌<◌, ◌≡◌, refl, sym, subst, ◌∙◌, ap, Bool, true, false, ◌&&◌, some, [], ◌∷◌, ◌++◌,
  ◌==◌, arith, Bool-cases, Option-cases, inl, inr, has, has_apart, erase, update,
}
use hft_orderbook_engine.Core.{Side, buy, sell, Order, Store}
use hft_orderbook_engine.OrderMap
use hft_orderbook_engine.OrderMap.{FlatOrderMap, find, empty_key}
use hft_orderbook_engine.OrderMap.Erase.{erase-find}
use hft_orderbook_engine.OrderMap.Grow.{insert-IsMap}
use hft_orderbook_engine.Level.{PriceLevel}
use hft_orderbook_engine.Book.{
  OrderBook, price_to_index, remove_order, cancel_order, add_order, is_valid_price, set_level,
}
use hft_orderbook_engine.Book.Invariant.{Inv, IsSound, Queues, set_queue}
use hft_orderbook_engine.Book.Remove.{remove_order-remove_at, remove_at-gone}
use hft_orderbook_engine.Book.Operations.{add_order-Inv}
use hft_orderbook_engine.Book.Ids
use hft_orderbook_engine.Book.Ids.{Ids, Rests, remove_at-Ids}
use hft_orderbook_engine.Book.AddById
use hft_orderbook_engine.Book.AddById.{added-Ids}

-- The map finds exactly the orders that rest, and has more than `n` slots left.
pub record Linked (b : OrderBook) (s : Store) (q : Queues) (n : ℕ) : Type 0 where
  pub ids : Ids b s q
  pub room : b.order_map.size + n < b.order_map.capacity

pub Linked-less :
    {b : OrderBook} {s : Store} {q : Queues} {n k : ℕ} → k ≤ n → Linked b s q n → Linked b s q k
Linked-less le w = record { ids = w.ids; room = omega (arith, le, w.room) }

-- Only the order map of the book matters.
pub Linked-map :
    {b c : OrderBook} {s : Store} {q : Queues} {n : ℕ}
    → c.order_map ≡ b.order_map
    → Linked b s q n
    → Linked c s q n
Linked-map {b} {c} {s} {q} {n} same w = record {
  ids = record {
    map = subst (λ m. OrderMap.Table.IsMap m) (sym same) w.ids.map;
    resting = λ d i o h. ap (λ m. find m (s o).order_id) same ∙ w.ids.resting d i o h;
    known = λ id o e. w.ids.known id o (sym (ap (λ m. find m id) same) ∙ e);
  };
  room = subst (λ (m : FlatOrderMap). m.size + n < m.capacity) (sym same) w.room;
}

-- Of the orders that rest only the ids matter.
pub Linked-ids :
    {b : OrderBook} {s t : Store} {q : Queues} {n : ℕ}
    → ((d : Side) (i x : ℕ) → has x (q d i) ≡ true → (t x).order_id ≡ (s x).order_id)
    → Linked b s q n
    → Linked b t q n
Linked-ids {b} {s} {t} same w = record {
  ids = record {
    map = w.ids.map;
    resting = λ d i o h. ap (find b.order_map) (same d i o h) ∙ w.ids.resting d i o h;
    known =
        λ id o e. let (named, (d, i, h)) = w.ids.known id o e in (same d i o h ∙ named, (d, i, h));
  };
  room = w.room;
}

pub Linked-update :
    {b : OrderBook} {s : Store} {q : Queues} {n : ℕ} (o : ℕ) (c : Order)
    → Linked b s q n
    → ((e : Side) (i : ℕ) → has o (q e i) ≡ false)
    → Linked b (update s o c) q n
Linked-update {s = s} {q} o c w out =
    Linked-ids (λ e i x h. let ne = has_apart x o (q e i) h (out e i) in ground arith) w

pub Linked-set_level :
    {b : OrderBook} {s : Store} {q : Queues} {n : ℕ} (d : Side) (i : ℕ) (l : PriceLevel)
    → Linked b s q n
    → Linked (set_level b d i l) s q n
Linked-set_level buy i l w = Linked-map refl w
Linked-set_level sell i l w = Linked-map refl w

-- A removal leaves one more slot of the map.
pub remove_order-Linked :
    {b : OrderBook} {s : Store} {q : Queues} {n : ℕ} (o : ℕ) (d : Side) (i : ℕ) (v : Inv b s q)
    → has o (q d i) ≡ true
    → Linked b s q n
    → Linked
        (remove_order b s o).0
        (remove_order b s o).1
        (set_queue q d i (erase o (q d i)))
        (n + 1)
remove_order-Linked {b} {s} {q} {n} o d i v h w =
    let (_, _, capacity, size, _, _) =
      erase-find b.order_map w.ids.map (s o).order_id o (w.ids.resting d i o h) in
    rw (remove_order-remove_at o d i v h) (record {
      ids = remove_at-Ids o d i v w.ids h;
      room =
          subst (λ (m : FlatOrderMap). m.size + (n + 1) < m.capacity)
            (sym (Ids.new_map o d i v w.ids h)) (omega (arith, capacity, size, w.room));
    })

-- An addition takes a slot of the map, unless it fails.
pub add_order-Linked :
    {b : OrderBook} {s : Store} {q : Queues} {n : ℕ} (o : ℕ) (v : Inv b s q)
    (out : (e : Side) (i : ℕ) → has o (q e i) ≡ false)
    → IsSound (s o)
    → Linked b s q (n + 1)
    → (add_order b s o).2 ≡ true
    → Linked
        (add_order b s o).0
        (add_order b s o).1
        (set_queue q
          (s o).side
          (price_to_index b (s o).price)
          (q (s o).side (price_to_index b (s o).price) ++ o ∷ []))
        n
add_order-Linked {b} {s} {q} {n} o v out sound w taken =
    elim (Bool-cases ((s o).order_id == empty_key)) [
      | inl z ↦ absurd (cc (took, insert_fails z))
      | inr z ↦ elim (Option-cases (find b.order_map (s o).order_id)) [
        | inl free ↦
            let (_, _, capacity, size, _, _) =
              insert-IsMap b.order_map w.ids.map (s o).order_id o free z room in
            record {
              ids = added-Ids o v w.ids out sound room valid z free;
              room =
                  subst (λ (m : FlatOrderMap). m.size + n < m.capacity)
                    (sym (AddById.new_map o v w.ids out sound room valid z free))
                    (omega (arith, capacity, size, w.room));
            }
        | inr (x, e) ↦ absurd (cc (took, insert_twice x e))
      ]
    ]
  where
    room : b.order_map.size + 1 < b.order_map.capacity
    room = omega (arith, w.room)

    both : (is_valid_price b (s o).price && (OrderMap.insert b.order_map (s o).order_id o).1) ≡ true
    both = sym (add_order-Inv o v out sound).0 ∙ taken

    valid : is_valid_price b (s o).price ≡ true
    valid = ground (arith, both)

    took : (OrderMap.insert b.order_map (s o).order_id o).1 ≡ true
    took = ground (arith, both)

    insert_fails :
        ((s o).order_id == empty_key) ≡ true
        → (OrderMap.insert b.order_map (s o).order_id o).1 ≡ false
    insert_fails z =
        ap (λ (r : FlatOrderMap × Bool). r.1)
          ((OrderMap.Insert.insert-find b.order_map (s o).order_id o).1 z)

    insert_twice :
        (x : ℕ)
        → find b.order_map (s o).order_id ≡ some x
        → (OrderMap.insert b.order_map (s o).order_id o).1 ≡ false
    insert_twice x e =
        ap (λ (r : FlatOrderMap × Bool). r.1)
          ((OrderMap.Insert.insert-find b.order_map (s o).order_id o).2 x e)

pub cancel_order-Linked :
    {b : OrderBook} {s : Store} {q : Queues} {n : ℕ} (id o : ℕ) (d : Side) (i : ℕ) (v : Inv b s q)
    → find b.order_map id ≡ some o
    → has o (q d i) ≡ true
    → Linked b s q n
    → Linked
        (cancel_order b s id).0
        (cancel_order b s id).1
        (set_queue q d i (erase o (q d i)))
        (n + 1)
unfolding cancel_order
cancel_order-Linked {b} {s} id o d i v e h w =
    rw (e, cancel_order)
      (Linked-update o _ (remove_order-Linked o d i v h w) (remove_at-gone o d i v h))
