-- ===== src/Book/Remove.antt =====
-- `OrderBook::remove_order` keeps the invariant and takes the order out of its queue.
use hft_orderbook_engine.Base.{
  ℕ, ◌≡◌, ap, ◌≢◌, true, false, List, [], ◌∷◌, Bool-cases, inl, inr, arith, has, erase,
  has-erase_self, has-erase_sub, if◌then◌else◌, ◌∙◌, sub64,
}
use mathlib.Core.Path.{ap₂}
use hft_orderbook_engine.Core.{Side, Order, new, Store}
use hft_orderbook_engine.Level
use hft_orderbook_engine.Level.{PriceLevel}
use hft_orderbook_engine.Level.Remove.{
  remove_order-erase, remove_order-SameData_mem, remove_order-SameOutside_mem,
}
use hft_orderbook_engine.Level.Chain.{Represents}
use hft_orderbook_engine.OrderMap
use hft_orderbook_engine.OrderMap.{FlatOrderMap}
use hft_orderbook_engine.Book.{OrderBook, levels, remove_at, remove_order}
use hft_orderbook_engine.Book.Invariant.{
  Inv, Queues, set_queue, same_place, same_place-eq, one_place, Represents-frame,
}
use hft_orderbook_engine.Book.Removal.{
  written, levels-update_best, levels-written, SameGrid-fixed, IsBest-step,
}
use hft_orderbook_engine.Book.Frame.{SameGrid, SameGrid-IsGrid, core, IsPlaced-frame}

has-ne-nil : (a : ℕ) (xs : List ℕ) → has a xs ≡ true → xs ≢ []
has-ne-nil a [] h e = cc
has-ne-nil a (x ∷ xs) h e = cc

module _ {b : OrderBook} {s : Store} {q : Queues} (o : ℕ) (d : Side) (idx : ℕ) (v : Inv b s q)
    (h : has o (q d idx) ≡ true) where
  abbrev queues : Queues
  queues = set_queue q d idx (erase o (q d idx))

  abbrev new_level : PriceLevel
  new_level = (Level.remove_order (levels b d idx) s o).0

  abbrev t : Store
  t = (Level.remove_order (levels b d idx) s o).1

  abbrev map : FlatOrderMap
  map = (OrderMap.erase b.order_map (t o).order_id).0

  new_levels :
      (e : Side) (i : ℕ)
      → levels (remove_at b s o d idx).0 e i
        ≡ (if same_place d idx e i then new_level else levels b e i)
  unfolding remove_at
  new_levels e i =
      ap (λ f. f i)
        (levels-update_best (written b d idx new_level map (sub64 b.order_count 1)) d idx new_level
          e)
      ∙ levels-written b d idx new_level map (sub64 b.order_count 1) e i

  new_repr :
      (e : Side) (i : ℕ)
      → Represents t (if same_place d idx e i then new_level else levels b e i) (queues e i)
  new_repr e i = elim (Bool-cases (same_place d idx e i)) [
    | inl p ↦ rw p (remove_order-erase o (v.repr d idx) h)
    | inr p ↦ rw p (
        Represents-frame
          (λ x k. remove_order-SameOutside_mem o (v.repr d idx) h x (apart e i x p k)) (v.repr e i))
  ]
    where
      apart :
          (e : Side) (i x : ℕ)
          → same_place d idx e i ≡ false
          → has x (q e i) ≡ true
          → has x (q d idx) ≡ false
      apart e i x p k = elim (Bool-cases (has x (q d idx))) [
        | inl m ↦ absurd (cc (one_place v d idx e i x m k, p))
        | inr m ↦ m
      ]

  grid : SameGrid b (remove_at b s o d idx).0
  unfolding remove_at
  grid = SameGrid-fixed b d idx new_level map (sub64 b.order_count 1)

  new_core : (x : ℕ) → core (t x) ≡ core (s x)
  new_core x =
      ap (λ (p : Order). record p { status = new }) (remove_order-SameData_mem o (v.repr d idx) h x)

  pub sub_queues : (e : Side) (i x : ℕ) → has x (queues e i) ≡ true → has x (q e i) ≡ true
  sub_queues e i x k = elim (Bool-cases (same_place d idx e i)) [
    | inl p ↦
        let (pe, pi) = same_place-eq d idx e i p in
        rw (pe, pi) (has-erase_sub o x (q d idx) (ground arith))
    | inr p ↦ ground arith
  ]

  -- Removing an order from the level whose queue it is in takes it out of that queue, and keeps the
  -- book's invariant.
  pub remove_at-Inv : Inv (remove_at b s o d idx).0 (remove_at b s o d idx).1 queues
  remove_at-Inv = record {
    grid = SameGrid-IsGrid grid v.grid;
    repr = λ e i. rw (new_levels e i) (unfold remove_at in new_repr e i);
    placed = λ e i x k.
        unfold remove_at in IsPlaced-frame grid (new_core x) (v.placed e i x (sub_queues e i x k));
    best = λ e. rw grid.num (
        unfold remove_at in
        IsBest-step b t idx new_level map (sub64 b.order_count 1) q (erase o (q d idx))
          (remove_order-erase o (v.repr d idx) h) v.best d
          (λ c i.
            rw (levels-written b d idx new_level map (sub64 b.order_count 1) c i) (new_repr c i))
          (has-ne-nil o (q d idx) h) (v.placed d idx o h).low e);
  }

  -- The order is in no queue any more.
  pub remove_at-gone : (e : Side) (i : ℕ) → has o (queues e i) ≡ false
  remove_at-gone e i = elim (Bool-cases (same_place d idx e i)) [
    | inl p ↦ rw p (has-erase_self o (q d idx) (v.repr d idx).distinct)
    | inr p ↦ rw p (elim (Bool-cases (has o (q e i))) [
      | inl m ↦ absurd (cc (one_place v d idx e i o h m, p))
      | inr m ↦ m
    ])
  ]

  pub remove_at-core : (x : ℕ) → core ((remove_at b s o d idx).1 x) ≡ core (s x)
  unfolding remove_at
  remove_at-core x = new_core x

  pub remove_at-SameGrid : SameGrid b (remove_at b s o d idx).0
  remove_at-SameGrid = grid

  -- The order stands where its own price and side say.
  pub remove_order-remove_at : remove_order b s o ≡ remove_at b s o d idx
  unfolding remove_order
  remove_order-remove_at = let p = v.placed d idx o h in ap₂ (remove_at b s o) p.side p.index
