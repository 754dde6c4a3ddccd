-- ===== src/Book/AddById.antt =====
-- `add_order` of order_book.cpp on a book whose order map finds exactly the orders that rest.
use hft_orderbook_engine.Base.{
  ℕ, ◌+◌, ◌<◌, ◌≡◌, refl, sym, subst, ◌∙◌, ap, Bool, true, false, not, ◌&&◌, Option, none, some, [],
  ◌∷◌, ◌++◌, ◌==◌, arith, ==_iff, Bool-cases, Option-cases, inl, inr, has, has-append,
}
use hft_orderbook_engine.Core.{Side, buy, sell, Order, Store}
use hft_orderbook_engine.OrderMap
use hft_orderbook_engine.OrderMap.{FlatOrderMap, find, empty_key}
use hft_orderbook_engine.OrderMap.Table.{IsMap}
use hft_orderbook_engine.OrderMap.Grow.{insert-IsMap}
use hft_orderbook_engine.OrderMap.Insert.{insert-find}
use hft_orderbook_engine.Book.{
  OrderBook, price_to_index, place_at, place, add_order, is_valid_price,
}
use hft_orderbook_engine.Book.Invariant.{
  Inv, IsSound, Queues, set_queue, same_place, same_place-eq, same_place_self,
}
use hft_orderbook_engine.Book.Operations.{add_order-Inv, add_order-core}
use hft_orderbook_engine.Book.Ids.{Ids, order_map-raise_best}

abbrev pub is_none : Option ℕ → Bool
is_none none = true
is_none (some x) = false

order_map-place : (b : OrderBook) (s : Store) (o : ℕ) → (place b s o).0.order_map ≡ b.order_map
unfolding place place_at
order_map-place b s o = by_side (s o).side
  where
    by_side :
        (d : Side) → (place_at b s o d (price_to_index b (s o).price)).0.order_map ≡ b.order_map
    by_side buy = order_map-raise_best _ buy (price_to_index b (s o).price)
    by_side sell = order_map-raise_best _ sell (price_to_index b (s o).price)

module _ {b : OrderBook} {s : Store} {q : Queues} (o : ℕ) (v : Inv b s q) (w : Ids b s q)
    (out : (e : Side) (i : ℕ) → has o (q e i) ≡ false) (sound : IsSound (s o))
    (room : b.order_map.size + 1 < b.order_map.capacity) where
  abbrev pub key : ℕ
  key = (s o).order_id

  abbrev pub idx : ℕ
  idx = price_to_index b (s o).price

  -- The queues with the order at the end of its own.
  abbrev pub queues : Queues
  queues = set_queue q (s o).side idx (q (s o).side idx ++ o ∷ [])

  -- An id that is not 0 and that no resting order has.
  abbrev pub is_new : Bool
  is_new = not (key == empty_key) && is_none (find b.order_map key)

  abbrev pub inserted : FlatOrderMap × Bool
  inserted = OrderMap.insert b.order_map key o

  same_id : (x : ℕ) → ((add_order b s o).1 x).order_id ≡ (s x).order_id
  same_id x = ap (λ (y : Order). y.order_id) (add_order-core o v out sound x)

  refused_by_map : is_new ≡ false → inserted ≡ (b.order_map, false)
  refused_by_map old = elim (Bool-cases (key == empty_key)) [
    | inl z ↦ (insert-find b.order_map key o).1 z
    | inr z ↦ elim (Option-cases (find b.order_map key)) [
      | inl free ↦ absurd (cc (old, new free z))
      | inr (x, e) ↦ (insert-find b.order_map key o).2 x e
    ]
  ]
    where
      new : find b.order_map key ≡ none → (key == empty_key) ≡ false → is_new ≡ true
      new free z = rw (z, free) refl

  -- The order at its place, and every other where it was.
  in_queues :
      (e : Side) (j x : ℕ) → has x (queues e j) ≡ true → (x == o) ≡ false → has x (q e j) ≡ true
  in_queues e j x h ne = elim (Bool-cases (same_place (s o).side idx e j)) [
    | inl p ↦
        let (pe, pi) = same_place-eq (s o).side idx e j p in
        let there : has x (q (s o).side idx) ≡ true =
          ground (arith, h, p, ne, has-append x (q (s o).side idx) (o ∷ [])) in
        ap (λ f. has x (f j)) (ap q pe) ∙ ap (λ n. has x (q (s o).side n)) pi ∙ there
    | inr p ↦ ground (arith, h, p)
  ]

  still_in : (e : Side) (j x : ℕ) → has x (q e j) ≡ true → has x (queues e j) ≡ true
  still_in e j x h = elim (Bool-cases (same_place (s o).side idx e j)) [
    | inl p ↦
        let (pe, pi) = same_place-eq (s o).side idx e j p in
        let there : has x (q (s o).side idx) ≡ true =
          ap (λ f. has x (f idx)) (ap q (sym pe)) ∙ ap (λ n. has x (q e n)) (sym pi) ∙ h in
        rw p (has-append x (q (s o).side idx) (o ∷ []) ∙ rw there refl)
    | inr p ↦ rw p h
  ]

  here : has o (queues (s o).side idx) ≡ true
  here =
      let self : (o == o) ≡ true = (==_iff o o).1 refl in
      rw (same_place_self (s o).side idx)
        (has-append o (q (s o).side idx) (o ∷ []) ∙ rw (out (s o).side idx, self) refl)

  module _ (valid : is_valid_price b (s o).price ≡ true) (real : (key == empty_key) ≡ false)
      (free : find b.order_map key ≡ none) where
    taken : inserted.1 ≡ true
    taken = (insert-IsMap b.order_map w.map key o free real room).0

    pub new_map : (add_order b s o).0.order_map ≡ inserted.0
    unfolding add_order
    new_map =
        rw (valid, taken, add_order) (order_map-place (record b { order_map = inserted.0 }) s o)

    accepted : (add_order b s o).2 ≡ true
    unfolding add_order
    accepted = rw (valid, taken, add_order) refl

    -- Another order of the old queues has another id.
    other_id : (e : Side) (j x : ℕ) → has x (q e j) ≡ true → ((s x).order_id == key) ≡ false
    other_id e j x h = elim (Bool-cases ((s x).order_id == key)) [
      | inr p ↦ p
      | inl p ↦
          absurd
            (cc (free, w.resting e j x h, ap (find b.order_map) ((==_iff (s x).order_id key).0 p)))
    ]

    pub added-Ids : Ids (add_order b s o).0 (add_order b s o).1 queues
    added-Ids =
        let (_, map, _, _, new, old) = insert-IsMap b.order_map w.map key o free real room in
        record {
          map = subst IsMap (sym new_map) map;
          resting = λ e j x h.
              ap (λ m. find m ((add_order b s o).1 x).order_id) new_map
              ∙ ap (find inserted.0) (same_id x)
              ∙ elim (Bool-cases (x == o)) [
                | inl p ↦
                    let at = (==_iff x o).0 p in
                    ap (λ z. find inserted.0 (s z).order_id) at ∙ new ∙ ap some (sym at)
                | inr p ↦
                    let was = in_queues e j x h p in
                    old (s x).order_id (other_id e j x was) ∙ w.resting e j x was
              ];
          known = λ id x found.
              let found' : find inserted.0 id ≡ some x =
                sym (ap (λ m. find m id) new_map) ∙ found in
              elim (Bool-cases (id == key)) [
                | inl p ↦
                    let at = (==_iff id key).0 p in
                    let same : some x ≡ some o = sym found' ∙ ap (find inserted.0) at ∙ new in
                    let who : x ≡ o = cc same in
                    (
                      same_id x ∙ ap (λ z. (s z).order_id) who ∙ sym at,
                      ((s o).side, idx, ap (λ z. has z (queues (s o).side idx)) who ∙ here),
                    )
                | inr p ↦
                    let (named, (e, j, h)) = w.known id x (sym (old id p) ∙ found') in
                    (same_id x ∙ named, (e, j, still_in e j x h))
              ];
        }

  -- What `add_order` makes of a book: nothing, or a book with the order at the end of its queue.
  pub data Adds : OrderBook × Store × Bool → Type 0 where
    refused : (is_valid_price b (s o).price && is_new) ≡ false → Adds (b, s, false)
    added :
        {b' : OrderBook} {t : Store}
        → (is_valid_price b (s o).price && is_new) ≡ true
        → Inv b' t queues
        → Ids b' t queues
        → b'.order_map.size ≡ b.order_map.size + 1
        → Adds (b', t, true)

  turned_down :
      (add_order b s o) ≡ (b, s, false)
      → (is_valid_price b (s o).price && is_new) ≡ false
      → Adds (add_order b s o)
  turned_down e old = subst Adds (sym e) (refused old)

  taken_in :
      is_valid_price b (s o).price ≡ true
      → (key == empty_key) ≡ false
      → find b.order_map key ≡ none
      → Adds (add_order b s o)
  taken_in valid real free =
      let yes = accepted valid real free in
      let new : (is_valid_price b (s o).price && is_new) ≡ true = rw (valid, real, free) refl in
      let (_, _, _, size, _, _) = insert-IsMap b.order_map w.map key o free real room in
      subst (λ x. Adds ((add_order b s o).0, (add_order b s o).1, x)) (sym yes)
        (added new ((add_order-Inv o v out sound).1 yes) (added-Ids valid real free)
          (ap (λ (m : FlatOrderMap). m.size) (new_map valid real free) ∙ size))

  -- A book whose invariant holds and whose map, which has room, finds exactly the orders that rest,
  -- takes in a new order exactly if its price is valid, its id is not 0, and no order that rests has
  -- its id; then the order is last in its queue, the map finds it as well, and both properties of the
  -- book still hold. Else nothing changes.
  pub add_order-Adds : Adds (add_order b s o)
  unfolding add_order
  add_order-Adds = elim (Bool-cases (is_valid_price b (s o).price)) [
    | inr e ↦ turned_down (rw (e, add_order) refl) (rw e refl)
    | inl e ↦ elim (Bool-cases is_new) [
      | inr old ↦ turned_down (rw (e, refused_by_map old, add_order) refl) (rw (e, old) refl)
      | inl new ↦ elim (Bool-cases (key == empty_key)) [
        | inl z ↦ absurd (cc (new, is_new_zero z))
        | inr z ↦ elim (Option-cases (find b.order_map key)) [
          | inl free ↦ taken_in e z free
          | inr (x, f) ↦ absurd (cc (new, is_new_found x z f))
        ]
      ]
    ]
  ]
    where
      is_new_zero : (key == empty_key) ≡ true → is_new ≡ false
      is_new_zero z = rw z refl

      is_new_found :
          (x : ℕ) → (key == empty_key) ≡ false → find b.order_map key ≡ some x → is_new ≡ false
      is_new_found x z f = rw (z, f) refl
