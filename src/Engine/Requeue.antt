-- ===== src/Engine/Requeue.antt =====
-- An iceberg order whose window is used up goes to the back of its level with a new window.
use hft_orderbook_engine.Base.{
  ℕ, ◌+◌, length, ◌<◌, ◌≡◌, refl, sym, ◌∙◌, ap, true, false, [], ◌∷◌, ◌++◌, ◌&&◌, ◌⊎◌, arith, ◌==◌,
  ==_iff, Bool, Bool-cases, inl, inr, update_self, has, has-append, length-append, subst,
}
use hft_orderbook_engine.Core.{Side, Order, Store}
use mathlib.Core.Path.{subst₂}
use hft_orderbook_engine.OrderMap
use hft_orderbook_engine.Book
use hft_orderbook_engine.Book.{OrderBook, price_to_index}
use hft_orderbook_engine.Book.Invariant.{Inv, IsSound, Queues, set_queue, same_place, same_place-eq}
use hft_orderbook_engine.Book.Grid.{index-lt}
use hft_orderbook_engine.Book.Frame.{core, IsSound-frame}
use hft_orderbook_engine.Book.Operations.{Inv-update, add_order-Inv, add_order-num, add_order-core}
use hft_orderbook_engine.Book.Linked.{Linked, Linked-less, Linked-update, add_order-Linked}
use hft_orderbook_engine.Engine.{Engine, replenish_iceberg, requeue}
use hft_orderbook_engine.Engine.Invariant.{
  Good, Tied, Drops, resting_orders, resting_orders-set_queue, front_ne, rest, removed-book,
  rest-gone, rest-sub, rest-out, removed-num, removed-core, removed-Linked, resting_orders-rest,
}

replenish-IsSound : (s : Store) (o : ℕ) → IsSound (s o) → IsSound (replenish_iceberg s o o)
unfolding replenish_iceberg
replenish-IsSound s o h =
    subst IsSound (sym (update_self s o _))
      (record { shown = ground arith; within = ground arith; fits = h.fits })

module _ {e : Engine} {o : ℕ} (g : Good e o) (front : ℕ) (d : Side) (i : ℕ)
    (there : has front (g.queues d i) ≡ true) where
  abbrev b : OrderBook
  b = (Book.remove_order e.book e.store front).0

  abbrev s : Store
  s = (Book.remove_order e.book e.store front).1

  abbrev t : Store
  t = replenish_iceberg s front

  abbrev q : Queues
  q = rest g front d i there

  same-core : core (s front) ≡ core (e.store front)
  same-core = removed-core g front d i there front

  t-Inv : Inv b t q
  unfolding replenish_iceberg
  t-Inv = Inv-update front _ (removed-book g front d i there) (rest-gone g front d i there)

  t-IsSound : IsSound (t front)
  t-IsSound =
      replenish-IsSound s front (IsSound-frame same-core (g.book.placed d i front there).sound)

  t-side : (t front).side ≡ d
  unfolding replenish_iceberg
  t-side =
      ground (arith, ap (λ (x : Order). x.side) same-core, (g.book.placed d i front there).side)

  abbrev added : OrderBook × Store × Bool
  added = Book.add_order b t front

  abbrev idx : ℕ
  idx = price_to_index b (t front).price

  abbrev q' : Queues
  q' = set_queue q (t front).side idx (q (t front).side idx ++ front ∷ [])

  laws :
      (added.2 ≡ (
        Book.is_valid_price b (t front).price
        && (OrderMap.insert b.order_map (t front).order_id front).1))
      × (added.2 ≡ true → Inv added.0 added.1 q')
      × (added.2 ≡ false → (added.0 ≡ b) × (added.1 ≡ t))
  laws = add_order-Inv front t-Inv (rest-gone g front d i there) t-IsSound

  q'-sub : (c : Side) (j x : ℕ) → has x (q' c j) ≡ true → (has x (q c j) ≡ true) ⊎ (x ≡ front)
  q'-sub c j x h = elim (Bool-cases (same_place (t front).side idx c j)) [
    | inl p ↦
        let (pc, pj) = same_place-eq (t front).side idx c j p in
        rw (pc, pj) (ground (arith, has-append x (q (t front).side idx) (front ∷ [])))
    | inr p ↦ inl (ground arith)
  ]

  q'-out : (c : Side) (j : ℕ) → has o (q' c j) ≡ false
  q'-out c j = elim (Bool-cases (has o (q' c j))) [
    | inl h ↦ elim (q'-sub c j o h) [
      | inl k ↦ absurd (cc (k, rest-out g front d i there c j))
      | inr k ↦ absurd (cc (front_ne g front d i there, (==_iff o front).1 k))
    ]
    | inr h ↦ h
  ]

  alive_front : has front g.live ≡ true
  alive_front = g.owned d i front there

  added-Good : added.2 ≡ true → Good (requeue e front) o
  unfolding requeue
  added-Good h = record {
    queues = q';
    free = g.free;
    live = g.live;
    book = laws.1 h;
    pool = g.pool;
    owned = λ c j x k. elim (q'-sub c j x k) [
      | inl m ↦ g.owned c j x (rest-sub g front d i there c j x m)
      | inr m ↦ rw m alive_front
    ];
    out = q'-out;
    alive = g.alive;
  }

  refused-Good : added.2 ≡ false → Good (requeue e front) o
  unfolding requeue
  refused-Good h = record {
    queues = q;
    free = g.free;
    live = g.live;
    book = let (eb, et) = laws.2 h in subst₂ (λ c u. Inv c u q) (sym eb) (sym et) t-Inv;
    pool = g.pool;
    owned = λ c j x k. g.owned c j x (rest-sub g front d i there c j x k);
    out = rest-out g front d i there;
    alive = g.alive;
  }

  t-Linked : Tied g → Linked b t q (length g.free + 2 + 1)
  unfolding replenish_iceberg
  t-Linked w =
      Linked-update front _ (removed-Linked g front d i there w) (rest-gone g front d i there)

  added-Tied : (h : added.2 ≡ true) → Tied g → Tied (added-Good h)
  unfolding requeue added-Good
  added-Tied h w =
      add_order-Linked front t-Inv (rest-gone g front d i there) t-IsSound (t-Linked w) h

  refused-Tied : (h : added.2 ≡ false) → Tied g → Tied (refused-Good h)
  unfolding requeue refused-Good
  refused-Tied h w =
      let (eb, et) = laws.2 h in
      subst₂ (λ c u. Linked c u q (length g.free + 2)) (sym eb) (sym et)
        (Linked-less (omega arith) (t-Linked w))

  same-num : (requeue e front).book.num_levels ≡ e.book.num_levels
  unfolding requeue
  same-num =
      add_order-num front t-Inv (rest-gone g front d i there) t-IsSound
      ∙ removed-num g front d i there

  q'-resting_orders :
      added.2 ≡ true
      → resting_orders q' e.book.num_levels ≡ resting_orders g.queues e.book.num_levels
  q'-resting_orders h =
      let valid : Book.is_valid_price b (t front).price ≡ true = ground (arith, laws.0) in
      let low : idx < e.book.num_levels =
        rw (removed-num g front d i there) at (index-lt b t-Inv.grid (t front).price valid) in
      let grown = resting_orders-set_queue q d idx (q d idx ++ front ∷ []) e.book.num_levels low in
      rw t-side (
        omega (
          arith,
          grown,
          length-append (q d idx) (front ∷ []),
          resting_orders-rest g front d i there,
        ))

  kept-core : core ((requeue e front).store o) ≡ core (e.store o)
  unfolding requeue replenish_iceberg
  kept-core =
      let ne : (front == o) ≡ false = ground (arith, front_ne g front d i there) in
      let same : t o ≡ s o = rw (ne, replenish_iceberg) refl in
      add_order-core front t-Inv (rest-gone g front d i there) t-IsSound o
      ∙ ap core same
      ∙ removed-core g front d i there o

  -- Requeueing keeps the invariant, and the number of resting orders does not rise.
  pub requeue-Drops : Drops g (requeue e front) 0
  unfolding added-Good refused-Good
  requeue-Drops = elim (Bool-cases added.2) [
    | inl h ↦ (added-Good h, same-num, omega (arith, q'-resting_orders h), kept-core, added-Tied h)
    | inr h ↦ (
      refused-Good h,
      same-num,
      omega (arith, resting_orders-rest g front d i there),
      kept-core,
      refused-Tied h,
    )
  ]
