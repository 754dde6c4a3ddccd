-- ===== src/Book/Place.antt =====
-- `OrderBook::add_order` behind its guards keeps the invariant and appends to one queue.
use hft_orderbook_engine.Base.{
  has_apart, ℕ, ◌<◌, ◌^◌, ◌≡◌, ap, ◌≢◌, ◌⊎◌, true, false, List, [], ◌∷◌, ◌++◌, Bool-cases, inl, inr,
  arith, has, has-append, if◌then◌else◌, ◌∙◌, add64,
}
use hft_orderbook_engine.Base.Int.{ℤ}
use hft_orderbook_engine.Core.{Side, buy, sell, Order, accepted, new, Store}
use hft_orderbook_engine.Level
use hft_orderbook_engine.Level.{PriceLevel}
use hft_orderbook_engine.Level.Add.{add_order-Represents, add_order-SameData, add_order-SameOutside}
use hft_orderbook_engine.Level.Chain.{Represents}
use hft_orderbook_engine.Book.{
  OrderBook, levels, set_level, best_idx, raise_best, set_status, place_at,
}
use hft_orderbook_engine.Book.Invariant.{
  IsPlaced, Inv, Queues, set_queue, same_place, same_place-eq, levels-set_level, one_place,
  Represents-frame, IsBest,
}
use hft_orderbook_engine.Book.Best.{best_idx-raise_best, raised-IsBest}
use hft_orderbook_engine.Book.Frame.{
  SameGrid, SameGrid-IsGrid, core, IsPlaced-frame, core-set_status, Represents-set_status,
  levels-raise_best, SameGrid-raise_best,
}

-- Writing a level's price is none to its queue.
pub Represents-price :
    {s : Store} {l : PriceLevel} {xs : List ℕ} (p : ℤ)
    → Represents s l xs
    → Represents s (record l { price = p }) xs
Represents-price p r = record {
  head = r.head;
  tail = r.tail;
  chain = r.chain;
  distinct = r.distinct;
  quantity = r.quantity;
  count = r.count;
}

append-ne-nil : (xs : List ℕ) (o : ℕ) → xs ++ o ∷ [] ≢ []
append-ne-nil [] o e = cc
append-ne-nil (x ∷ xs) o e = cc

SameGrid-counted :
    (b : OrderBook) (d : Side) (i : ℕ) (l : PriceLevel) (n : ℕ)
    → SameGrid b (raise_best (record (set_level b d i l) { order_count = n }) d i)
SameGrid-counted b d i l n =
    go d (SameGrid-raise_best (record (set_level b d i l) { order_count = n }) d i)
  where
    go :
        (e : Side)
        → SameGrid
            (record (set_level b e i l) { order_count = n })
            (raise_best (record (set_level b e i l) { order_count = n }) e i)
        → SameGrid b (raise_best (record (set_level b e i l) { order_count = n }) e i)
    go buy g = record { num = g.num; min = g.min; max = g.max; tick = g.tick }
    go sell g = record { num = g.num; min = g.min; max = g.max; tick = g.tick }

abbrev counted : OrderBook → Side → ℕ → PriceLevel → ℕ → OrderBook
counted b d i l n = record (set_level b d i l) { order_count = n }

raise_best_bid : (b : OrderBook) (i : ℕ) → (raise_best b buy i).best_ask_idx ≡ b.best_ask_idx
unfolding raise_best
raise_best_bid b i = ground arith

raise_best_ask : (b : OrderBook) (i : ℕ) → (raise_best b sell i).best_bid_idx ≡ b.best_bid_idx
unfolding raise_best
raise_best_ask b i = ground arith

module _ (b : OrderBook) (idx : ℕ) (l : PriceLevel) (n : ℕ) (q : Queues) (xs : List ℕ)
    (lt : idx < b.num_levels) (ne : xs ≢ []) (fits : b.num_levels < 2 ^ 64)
    (best : (e : Side) → IsBest e (best_idx b e) b.num_levels (q e)) where
  IsBest-step :
      (d e : Side)
      → IsBest e
          (best_idx (raise_best (counted b d idx l n) d idx) e)
          b.num_levels
          (set_queue q d idx xs e)
  IsBest-step buy buy =
      rw (best_idx-raise_best (counted b buy idx l n) buy idx)
        (raised-IsBest buy b.num_levels (q buy) idx xs lt ne b.best_bid_idx fits (best buy))
  IsBest-step buy sell = rw (raise_best_bid (counted b buy idx l n) idx) (best sell)
  IsBest-step sell buy = rw (raise_best_ask (counted b sell idx l n) idx) (best buy)
  IsBest-step sell sell =
      rw (best_idx-raise_best (counted b sell idx l n) sell idx)
        (raised-IsBest sell b.num_levels (q sell) idx xs lt ne b.best_ask_idx fits (best sell))

module _ {b : OrderBook} {s : Store} {q : Queues} (o : ℕ) (d : Side) (idx : ℕ) (v : Inv b s q)
    (out : (e : Side) (i : ℕ) → has o (q e i) ≡ false) where
  abbrev queues : Queues
  queues = set_queue q d idx (q d idx ++ o ∷ [])

  abbrev level : PriceLevel
  level = record (levels b d idx) { price = (s o).price }

  old : Represents s level (q d idx)
  old = Represents-price (s o).price (v.repr d idx)

  abbrev new_level : PriceLevel
  new_level = (Level.add_order level s o).0

  abbrev mid_store : Store
  mid_store = (Level.add_order level s o).1

  new_levels :
      (e : Side) (i : ℕ)
      → levels (place_at b s o d idx).0 e i
        ≡ (if same_place d idx e i then new_level else levels b e i)
  unfolding place_at
  new_levels e i =
      ap (λ f. f i)
        (levels-raise_best
          (record (set_level b d idx new_level) { order_count = add64 b.order_count 1 }) d idx e)
      ∙ by_side e
    where
      by_side :
          (c : Side)
          → levels
              (record (set_level b d idx new_level) { order_count = add64 b.order_count 1 })
              c
              i
            ≡ (if same_place d idx c i then new_level else levels b c i)
      by_side buy = levels-set_level b d idx new_level buy i
      by_side sell = levels-set_level b d idx new_level sell i

  new_store : Store
  new_store = set_status mid_store o accepted

  outside :
      (e : Side) (i x : ℕ) → same_place d idx e i ≡ false → has x (q e i) ≡ true → mid_store x ≡ s x
  outside e i x apart h = add_order-SameOutside o old x (both (Bool-cases (has x (q d idx))))
    where
      both : (has x (q d idx) ≡ true) ⊎ (has x (q d idx) ≡ false) → has x (o ∷ q d idx) ≡ false
      both (inl k) = absurd (cc (one_place v d idx e i x k h, apart))
      both (inr k) = let ne = has_apart x o (q e i) h (out e i) in ground arith

  new_repr :
      (e : Side) (i : ℕ)
      → Represents new_store (if same_place d idx e i then new_level else levels b e i) (queues e i)
  unfolding new_store
  new_repr e i = elim (Bool-cases (same_place d idx e i)) [
    | inl p ↦ rw p (Represents-set_status o accepted (add_order-Represents o old (out d idx)))
    | inr p ↦ rw p (
        Represents-set_status o accepted (Represents-frame (λ x h. outside e i x p h) (v.repr e i)))
  ]

  new_core : (x : ℕ) → core (new_store x) ≡ core (s x)
  unfolding new_store
  new_core x =
      core-set_status mid_store o accepted x
      ∙ ap (λ (p : Order). record p { status = new }) (add_order-SameData o old x)

  pub grid : SameGrid b (place_at b s o d idx).0
  unfolding place_at
  grid = SameGrid-counted b d idx new_level (add64 b.order_count 1)

  new-IsPlaced :
      IsPlaced b (s o) d idx
      → (e : Side) (i x : ℕ) → has x (queues e i) ≡ true
      → IsPlaced (place_at b s o d idx).0 (new_store x) e i
  new-IsPlaced here e i x h =
      IsPlaced-frame grid (new_core x) (go (Bool-cases (same_place d idx e i)))
    where
      there : same_place d idx e i ≡ true → (has x (q d idx) ≡ true) ⊎ (x ≡ o)
      there p = ground (arith, has-append x (q d idx) (o ∷ []))

      go : (same_place d idx e i ≡ true) ⊎ (same_place d idx e i ≡ false) → IsPlaced b (s x) e i
      go (inl p) =
          let (pe, pi) = same_place-eq d idx e i p in
          rw (pe, pi) (elim (there p) [ inl k ↦ v.placed d idx x k | inr k ↦ rw k here ])
      go (inr p) = v.placed e i x (ground arith)

  new-IsBest :
      idx < b.num_levels
      → (e : Side)
      → IsBest e
          (best_idx (place_at b s o d idx).0 e)
          (place_at b s o d idx).0.num_levels
          (queues e)
  new-IsBest lt e = rw grid.num (
      unfold place_at in
      IsBest-step b idx new_level (add64 b.order_count 1) q (q d idx ++ o ∷ []) lt
        (append-ne-nil (q d idx) o) v.grid.fits v.best d e)

  pub place_at-core : (x : ℕ) → core ((place_at b s o d idx).1 x) ≡ core (s x)
  unfolding new_store place_at
  place_at-core x = new_core x

  -- Placing an order appends it to the queue of its level, and keeps the invariant.
  pub place_at-Inv :
      IsPlaced b (s o) d idx → Inv (place_at b s o d idx).0 (place_at b s o d idx).1 queues
  unfolding new_store
  place_at-Inv here = record {
    grid = SameGrid-IsGrid grid v.grid;
    repr = λ e i. rw (new_levels e i) (unfold place_at in new_repr e i);
    placed = λ e i x h. unfold place_at in new-IsPlaced here e i x h;
    best = new-IsBest here.low;
  }
