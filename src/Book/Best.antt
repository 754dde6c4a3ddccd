-- ===== src/Book/Best.antt =====
-- The best index: `raise_best` after an order came, and the two scans after a level was emptied.
use hft_orderbook_engine.Base.{
  ℕ, zero, suc, ◌+◌, ◌^◌, ◌≤◌, ◌<◌, ◌≡◌, refl, sym, ◌∙◌, ap, ◌≢◌, true, false, ◌||◌, List, [],
  arith, ◌==◌, ==_iff, if◌then◌else◌, Bool-cases, inl, inr, update,
}
use hft_orderbook_engine.Core.{Side, buy, sell, Store}
use hft_orderbook_engine.Level
use hft_orderbook_engine.Level.{PriceLevel}
use hft_orderbook_engine.Level.Chain.{Represents}
use hft_orderbook_engine.Book.{OrderBook, best_idx, invalid_index, raise_best, scan_down, scan_up}
use hft_orderbook_engine.Book.Invariant.{IsBest, better, empty-nil, empty-cons}

abbrev raised : Side → ℕ → ℕ → ℕ
raised d idx best = if best == invalid_index || better d idx best then idx else best

pub best_idx-raise_best :
    (b : OrderBook) (d : Side) (idx : ℕ)
    → best_idx (raise_best b d idx) d ≡ raised d idx (best_idx b d)
unfolding raise_best
best_idx-raise_best b buy idx = ground arith
best_idx-raise_best b sell idx = ground arith

better_trans :
    (d : Side) (i j k : ℕ) → better d i j ≡ true → better d j k ≡ true → better d i k ≡ true
better_trans buy i j k h g = ground arith
better_trans sell i j k h g = ground arith

better_irrefl : (d : Side) (i : ℕ) → better d i i ≡ false
better_irrefl buy i = ground arith
better_irrefl sell i = ground arith

-- Two indices are equal, or one is better.
better_connex : (d : Side) (i j : ℕ) → (i == j) ≡ false → better d i j ≡ false → better d j i ≡ true
better_connex buy i j h g = ground arith
better_connex sell i j h g = ground arith

module _ (d : Side) (n : ℕ) (q : ℕ → List ℕ) (idx : ℕ) (xs : List ℕ) (lt : idx < n)
    (ne : xs ≢ []) where
  -- The queue of a better index is put there.
  raised_new :
      (best : ℕ)
      → ((i : ℕ) → i < n → better d i idx ≡ true → q i ≡ [])
      → IsBest d idx n (update q idx xs)
  raised_new best none_better = inr (
    lt,
    (λ e. ne (ground arith)),
    λ i h g.
        let apart : (idx == i) ≡ false = ground (arith, better_irrefl d idx) in
        ground (arith, none_better i h g),
  )

  raised_old :
      (best : ℕ)
      → best < n
      → q best ≢ []
      → ((i : ℕ) → i < n → better d i best ≡ true → q i ≡ [])
      → better d idx best ≡ false
      → IsBest d best n (update q idx xs)
  raised_old best low there none_better worse = inr (
    low,
    (λ e. elim (Bool-cases (idx == best)) [
      | inl p ↦ ne (ground arith)
      | inr p ↦ there (ground arith)
    ]),
    λ i h g. elim (Bool-cases (idx == i)) [
      | inl p ↦ absurd (cc (ap (λ k. better d k best) ((==_iff idx i).0 p), g, worse))
      | inr p ↦ ground (arith, none_better i h g)
    ],
  )

  -- An order that comes to level `idx` makes it the best one where it is better.
  pub raised-IsBest :
      (best : ℕ) → n < 2 ^ 64 → IsBest d best n q → IsBest d (raised d idx best) n (update q idx xs)
  raised-IsBest best fits (inl (e, none_there)) =
      let p : (best == invalid_index) ≡ true = ground arith in
      rw p (raised_new best (λ i h g. none_there i h))
  raised-IsBest best fits (inr (low, there, none_better)) =
      let p : (best == invalid_index) ≡ false = ground arith in
      elim (Bool-cases (better d idx best)) [
        | inl g ↦
            rw (p, g) (raised_new best (λ i h k. none_better i h (better_trans d i idx best k g)))
        | inr g ↦ rw (p, g) (raised_old best low there none_better g)
      ]

module _ (s : Store) (l : ℕ → PriceLevel) (n : ℕ) (q : ℕ → List ℕ)
    (repr : (i : ℕ) → Represents s (l i) (q i)) where
  -- The scan downwards from an empty top finds the best bid.
  pub scan_down-IsBest :
      (k : ℕ) → k ≤ n → ((i : ℕ) → k ≤ i → i < n → q i ≡ []) → IsBest buy (scan_down l k) n q
  unfolding scan_down
  scan_down-IsBest zero low none_above = inl (refl, λ i h. none_above i (omega arith) h)
  scan_down-IsBest (suc k) low none_above = elim (Bool-cases (Level.empty (l k))) [
    | inl e ↦ rw e (
        scan_down-IsBest k (omega arith) (λ i h g. elim (Bool-cases (k == i)) [
          | inl p ↦ ap q (sym ((==_iff k i).0 p)) ∙ empty-nil (repr k) e
          | inr p ↦ none_above i (ground arith) g
        ]))
    | inr e ↦ rw e (inr (low, empty-cons (repr k) e, λ i h g. none_above i (ground arith) h))
  ]

  -- The scan upwards from an empty bottom finds the best ask.
  pub scan_up-IsBest :
      (rounds i : ℕ)
      → i + rounds ≡ n
      → ((j : ℕ) → j < i → q j ≡ [])
      → IsBest sell (scan_up l rounds i) n q
  unfolding scan_up
  scan_up-IsBest zero i e none_below = inl (refl, λ j h. none_below j (omega arith))
  scan_up-IsBest (suc rounds) i e none_below = elim (Bool-cases (Level.empty (l i))) [
    | inl m ↦ rw m (
        scan_up-IsBest rounds (i + 1) (omega arith) (λ j h. elim (Bool-cases (i == j)) [
          | inl p ↦ ap q (sym ((==_iff i j).0 p)) ∙ empty-nil (repr i) m
          | inr p ↦ none_below j (ground arith)
        ]))
    | inr m ↦ rw m (inr (omega arith, empty-cons (repr i) m, λ j h g. none_below j (ground arith)))
  ]

module _ (d : Side) (best n : ℕ) (q : ℕ → List ℕ) (idx : ℕ) (xs : List ℕ) where
  -- A queue that shrinks and does not become empty leaves the best index.
  pub kept-IsBest : xs ≢ [] → q idx ≢ [] → IsBest d best n q → IsBest d best n (update q idx xs)
  kept-IsBest ne was (inl (e, none_there)) = inl (
    e,
    λ i h. elim (Bool-cases (idx == i)) [
      | inl p ↦ absurd (was (ap q ((==_iff idx i).0 p) ∙ none_there i h))
      | inr p ↦ rw p (none_there i h)
    ],
  )
  kept-IsBest ne was (inr (low, there, none_better)) = inr (
    low,
    (λ e. elim (Bool-cases (idx == best)) [
      | inl p ↦ ne (ground arith)
      | inr p ↦ there (ground arith)
    ]),
    λ i h g. elim (Bool-cases (idx == i)) [
      | inl p ↦ absurd (was (ap q ((==_iff idx i).0 p) ∙ none_better i h g))
      | inr p ↦ rw p (none_better i h g)
    ],
  )

  -- A level that is not the best may become empty.
  pub emptied-IsBest : (idx == best) ≡ false → IsBest d best n q → IsBest d best n (update q idx [])
  emptied-IsBest ne (inl (e, none_there)) =
      inl (e, λ i h. elim (Bool-cases (idx == i)) [ inl p ↦ rw p | inr p ↦ rw p (none_there i h) ])
  emptied-IsBest ne (inr (low, there, none_better)) = inr (
    low,
    rw ne there,
    λ i h g. elim (Bool-cases (idx == i)) [ inl p ↦ rw p | inr p ↦ rw p (none_better i h g) ],
  )
