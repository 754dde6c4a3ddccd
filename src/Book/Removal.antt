-- ===== src/Book/Removal.antt =====
-- `OrderBook::remove_order` keeps the invariant and takes the order out of its queue.
use hft_orderbook_engine.Base.{
  ℕ, ◌<◌, subst, ◌≡◌, ◌≢◌, List, [], Bool-cases, inl, inr, arith, update, if◌then◌else◌,
}
use hft_orderbook_engine.Core.{Side, buy, sell, Store}
use hft_orderbook_engine.Level
use hft_orderbook_engine.Level.{PriceLevel}
use hft_orderbook_engine.Level.Chain.{Represents}
use hft_orderbook_engine.OrderMap.{FlatOrderMap}
use hft_orderbook_engine.Book.{
  OrderBook, levels, set_level, best_idx, update_best_after_remove, update_best_bid_after_remove,
  update_best_ask_after_remove,
}
use hft_orderbook_engine.Book.Invariant.{
  Queues, set_queue, same_place, levels-set_level, IsBest, empty-nil, empty-cons,
}
use hft_orderbook_engine.Book.Best.{kept-IsBest}
use hft_orderbook_engine.Book.Emptied.{bid_emptied, ask_emptied}
use hft_orderbook_engine.Book.Frame.{SameGrid}

-- The book after the level and the map are written, before the best index is.
abbrev pub written : OrderBook → Side → ℕ → PriceLevel → FlatOrderMap → ℕ → OrderBook
written b d i l map n = record (set_level b d i l) { order_map = map; order_count = n }

abbrev pub fixed : OrderBook → Side → ℕ → PriceLevel → OrderBook
fixed b d i l = if Level.empty l then update_best_after_remove b d i else b

pub levels-update_best :
    (b : OrderBook) (d : Side) (i : ℕ) (l : PriceLevel) (e : Side)
    → levels (fixed b d i l) e ≡ levels b e
unfolding update_best_after_remove update_best_bid_after_remove update_best_ask_after_remove
levels-update_best b buy i l buy = ground arith
levels-update_best b buy i l sell = ground arith
levels-update_best b sell i l buy = ground arith
levels-update_best b sell i l sell = ground arith

pub levels-written :
    (b : OrderBook) (d : Side) (i : ℕ) (l : PriceLevel) (map : FlatOrderMap) (n : ℕ) (e : Side)
    (j : ℕ)
    → levels (written b d i l map n) e j ≡ (if same_place d i e j then l else levels b e j)
levels-written b d i l map n buy j = levels-set_level b d i l buy j
levels-written b d i l map n sell j = levels-set_level b d i l sell j

pub SameGrid-fixed :
    (b : OrderBook) (d : Side) (i : ℕ) (l : PriceLevel) (map : FlatOrderMap) (n : ℕ)
    → SameGrid b (fixed (written b d i l map n) d i l)
unfolding update_best_after_remove update_best_bid_after_remove update_best_ask_after_remove
SameGrid-fixed b buy i l map n = record {
  num = ground arith;
  min = ground arith;
  max = ground arith;
  tick = ground arith;
}
SameGrid-fixed b sell i l map n = record {
  num = ground arith;
  min = ground arith;
  max = ground arith;
  tick = ground arith;
}

-- The other side's best index is left alone.
fixed_other_ask :
    (b : OrderBook) (i : ℕ) (l : PriceLevel) → (fixed b buy i l).best_ask_idx ≡ b.best_ask_idx
unfolding update_best_after_remove update_best_bid_after_remove
fixed_other_ask b i l = ground arith

fixed_other_bid :
    (b : OrderBook) (i : ℕ) (l : PriceLevel) → (fixed b sell i l).best_bid_idx ≡ b.best_bid_idx
unfolding update_best_after_remove update_best_ask_after_remove
fixed_other_bid b i l = ground arith

module _ (b : OrderBook) (t : Store) (idx : ℕ) (l : PriceLevel) (map : FlatOrderMap) (n : ℕ)
    (q : Queues) (xs : List ℕ) (new_rep : Represents t l xs)
    (best : (e : Side) → IsBest e (best_idx b e) b.num_levels (q e)) where
  abbrev pub Repr : Side → Type 0
  Repr d =
      (e : Side) (i : ℕ)
      → Represents t (levels (written b d idx l map n) e i) (set_queue q d idx xs e i)

  fixed_bid :
      Repr buy
      → q buy idx ≢ []
      → idx < b.num_levels
      → IsBest buy
          (fixed (written b buy idx l map n) buy idx l).best_bid_idx
          b.num_levels
          (update (q buy) idx xs)
  fixed_bid repr there low = elim (Bool-cases (Level.empty l)) [
    | inl e ↦
        let nil = empty-nil new_rep e in
        rw (e, nil)
          (bid_emptied (written b buy idx l map n) t (q buy) idx there low
            (λ i.
              subst (λ ys. Represents t (update b.bid_levels idx l i) (update (q buy) idx ys i)) nil
                (repr buy i))
            (best buy))
    | inr e ↦ rw e (
        kept-IsBest buy b.best_bid_idx b.num_levels (q buy) idx xs (empty-cons new_rep e) there
          (best buy))
  ]

  fixed_ask :
      Repr sell
      → q sell idx ≢ []
      → idx < b.num_levels
      → IsBest sell
          (fixed (written b sell idx l map n) sell idx l).best_ask_idx
          b.num_levels
          (update (q sell) idx xs)
  fixed_ask repr there low = elim (Bool-cases (Level.empty l)) [
    | inl e ↦
        let nil = empty-nil new_rep e in
        rw (e, nil)
          (ask_emptied (written b sell idx l map n) t (q sell) idx there low
            (λ i.
              subst (λ ys. Represents t (update b.ask_levels idx l i) (update (q sell) idx ys i))
                nil (repr sell i))
            (best sell))
    | inr e ↦ rw e (
        kept-IsBest sell b.best_ask_idx b.num_levels (q sell) idx xs (empty-cons new_rep e) there
          (best sell))
  ]

  pub IsBest-step :
      (d : Side)
      → Repr d
      → q d idx ≢ []
      → idx < b.num_levels
      → (e : Side)
      → IsBest e
          (best_idx (fixed (written b d idx l map n) d idx l) e)
          b.num_levels
          (set_queue q d idx xs e)
  IsBest-step buy repr there low buy = fixed_bid repr there low
  IsBest-step buy repr there low sell =
      rw (fixed_other_ask (written b buy idx l map n) idx l) (best sell)
  IsBest-step sell repr there low buy =
      rw (fixed_other_bid (written b sell idx l map n) idx l) (best buy)
  IsBest-step sell repr there low sell = fixed_ask repr there low
