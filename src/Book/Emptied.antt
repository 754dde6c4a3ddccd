-- ===== src/Book/Emptied.antt =====
-- The best index after a level lost its last order.
use hft_orderbook_engine.Base.{
  ℕ, suc, ◌+◌, ◌-◌, ◌<◌, ◌≡◌, ◌≢◌, true, List, [], ◌==◌, ==_iff, Bool-cases, inl, inr, arith,
  update, lt→ltb,
}
use hft_orderbook_engine.Core.{Side, buy, sell, Store}
use hft_orderbook_engine.Level.Chain.{Represents}
use hft_orderbook_engine.Book.{
  OrderBook, update_best_after_remove, update_best_bid_after_remove, update_best_ask_after_remove,
}
use hft_orderbook_engine.Book.Invariant.{IsBest, better}
use hft_orderbook_engine.Book.Best.{scan_down-IsBest, scan_up-IsBest, emptied-IsBest}

-- The index of a best queue that is there lies below `n`, and better ones have no queue.
best_there :
    (d : Side) (idx n : ℕ) (q : ℕ → List ℕ)
    → q idx ≢ []
    → idx < n
    → IsBest d idx n q
    → (i : ℕ) → i < n
    → better d i idx ≡ true
    → q i ≡ []
best_there d idx n q there low (inl (e, none_there)) i h g = none_there i h
best_there d idx n q there low (inr (_, _, none_better)) i h g = none_better i h g

module _ (b : OrderBook) (t : Store) (q : ℕ → List ℕ) (idx : ℕ) (there : q idx ≢ [])
    (low : idx < b.num_levels) where
  pub bid_emptied :
      ((i : ℕ) → Represents t (b.bid_levels i) (update q idx [] i))
      → IsBest buy b.best_bid_idx b.num_levels q
      → IsBest buy (update_best_after_remove b buy idx).best_bid_idx b.num_levels (update q idx [])
  unfolding update_best_after_remove update_best_bid_after_remove
  bid_emptied repr best = elim (Bool-cases (idx == b.best_bid_idx)) [
    | inl e ↦
        let none_better =
          best_there buy idx b.num_levels q there low (rw ((==_iff idx b.best_bid_idx).0 e) best) in
        rw e (
          scan_down-IsBest t b.bid_levels b.num_levels (update q idx []) repr idx (omega arith)
            (λ i h g. elim (Bool-cases (idx == i)) [
              | inl p ↦ rw p
              | inr p ↦ rw p (none_better i g (ground arith))
            ]))
    | inr e ↦ rw e (emptied-IsBest buy b.best_bid_idx b.num_levels q idx [] e best)
  ]

  pub ask_emptied :
      ((i : ℕ) → Represents t (b.ask_levels i) (update q idx [] i))
      → IsBest sell b.best_ask_idx b.num_levels q
      → IsBest sell
          (update_best_after_remove b sell idx).best_ask_idx
          b.num_levels
          (update q idx [])
  unfolding update_best_after_remove update_best_ask_after_remove
  ask_emptied repr best = elim (Bool-cases (idx == b.best_ask_idx)) [
    | inl e ↦
        let none_better =
          best_there sell idx b.num_levels q there low
            (rw ((==_iff idx b.best_ask_idx).0 e) best) in
        rw e (
          scan_up-IsBest t b.ask_levels b.num_levels (update q idx []) repr (b.num_levels - suc idx)
            (idx + 1) (omega arith)
            (λ i h. elim (Bool-cases (idx == i)) [
              | inl p ↦ rw p
              | inr p ↦ rw p (none_better i (omega arith) (lt→ltb i idx (ground arith)))
            ]))
    | inr e ↦ rw e (emptied-IsBest sell b.best_ask_idx b.num_levels q idx [] e best)
  ]
