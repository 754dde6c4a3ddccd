-- ===== src/Engine/Loop.antt =====
-- The two matching loops end, and keep the invariant.
use hft_orderbook_engine.Base.{
  ℕ, suc, zero, ◌≤◌, ◌<◌, ◌≡◌, refl, sym, ◌∙◌, true, false, List, [], ◌∷◌, arith, Bool, ◌&&◌, ◌⊎◌,
  ◌≢◌, Bool-cases, Option-cases, inl, inr, has, head_or, none, some, Option,
}
use hft_orderbook_engine.Core.{Side}
use hft_orderbook_engine.Book.{levels, best_idx}
use hft_orderbook_engine.Book.Invariant.{IsBest}
use hft_orderbook_engine.Book.Query.{best_level}
use hft_orderbook_engine.Engine.{
  Matching, match_front, match_level, wants_more, max_trades_per_match, opposite,
}
use hft_orderbook_engine.Engine.Invariant.{Good, Tied}
use hft_orderbook_engine.Engine.Round.{
  measure, Advances, Kept, Kept-core, Kept-trans, match_front-Advances,
}
use hft_orderbook_engine.Engine.Submit.{match_order, crosses_best}

head-mem : (x : ℕ) (xs : List ℕ) → head_or xs none ≡ some x → has x xs ≡ true
head-mem x [] e = cc
head-mem x (y ∷ ys) e = ground arith

front-mem :
    (m : Matching) {o : ℕ} (g : Good m.engine o) (d : Side) (i front : ℕ)
    → (levels m.book d i).head ≡ some front
    → has front (g.queues d i) ≡ true
front-mem m g d i front e = head-mem front (g.queues d i) (sym (g.book.repr d i).head ∙ e)

-- What a run of the inner loop gives.
abbrev Ends : {o : ℕ} → (m : Matching) → Good m.engine o → Side → ℕ → Matching × Bool → Type 0
Ends {o} m g d i (m', stop) =
    (g' : Good m'.engine o) × (m'.book.num_levels ≡ m.book.num_levels)
    × (measure m' g' ≤ measure m g)
    × Kept (m.store o) (m'.store o)
    × (Tied g → Tied g')
    × (wants_more m o ≡ true
        → (levels m.book d i).head ≢ none
        → (stop ≡ true) ⊎ (measure m' g' < measure m g))

room_of :
    (m : Matching) (o : ℕ) → wants_more m o ≡ true → m.result.trade_count < max_trades_per_match
room_of m o h = ground arith

abbrev onward : ℕ → Matching × Bool → ℕ → Side → ℕ → Option (Matching × Bool)
onward fuel r o d i = elim (r.1) [ true ↦ some (r.0, true) | false ↦ match_level fuel r.0 o d i ]

-- The loop goes on after a round.
onward-Ends :
    (fuel : ℕ) (m : Matching) (o : ℕ) (d : Side) (i : ℕ) (g : Good m.engine o)
    → measure m g < suc fuel
    → ((m' : Matching) (g' : Good m'.engine o)
        → measure m' g' < fuel
        → (r : Matching × Bool) × (match_level fuel m' o d i ≡ some r) × Ends m' g' d i r)
    → (r : Matching × Bool) → Advances m g r
    → (r' : Matching × Bool) × (onward fuel r o d i ≡ some r') × Ends m g d i r'
onward-Ends fuel m o d i g low ih (m', true) (g', n, le, alt, k, l) =
    ((m', true), refl, (g', n, le, k, l, λ w h. inl refl))
onward-Ends fuel m o d i g low ih (m', false) (g', n, le, inl stopped, k, l) = cc
onward-Ends fuel m o d i g low ih (m', false) (g', n, le, inr lt, k, l) =
    let (r, e, ends) = ih m' g' (omega arith) in
    let (g'', n', le', k', l', _) = ends in
    (
      r,
      e,
      (
        g'',
        n' ∙ n,
        omega (arith, le', lt),
        Kept-trans k k',
        λ w. l' (l w),
        λ w h. inr (omega (arith, le', lt)),
      ),
    )

-- With fuel above the measure the inner loop ends in a good state, with fewer rounds left if it
-- could start.
match_level-Ends :
    (fuel : ℕ) (m : Matching) (o : ℕ) (d : Side) (i : ℕ) (g : Good m.engine o)
    → measure m g < fuel
    → (r : Matching × Bool) × (match_level fuel m o d i ≡ some r) × Ends m g d i r
unfolding match_level
match_level-Ends zero m o d i g low = absurd (omega arith)
match_level-Ends (suc fuel) m o d i g low = elim (Bool-cases (wants_more m o)) [
  | inr done ↦ (
    (m, false),
    rw (done, match_level),
    (g, refl, omega arith, Kept-core refl, λ w. w, λ w h. absurd (cc (w, done))),
  )
  | inl more ↦ elim (Option-cases (levels m.book d i).head) [
    | inl nil ↦ (
      (m, false),
      rw (more, nil, match_level),
      (g, refl, omega arith, Kept-core refl, λ w. w, λ w h. absurd (h nil)),
    )
    | inr (front, e) ↦
        let step =
          match_front-Advances m g front d i (front-mem m g d i front e) (room_of m o more) in
        let (r, run, ends) =
          onward-Ends fuel m o d i g low (λ m' g' h. match_level-Ends fuel m' o d i g' h)
            (match_front m o d i front) step in
        (r, (rw (more, e, match_level)) ∙ run, ends)
  ]
]

-- A level that the order crosses is not empty, so the inner loop can start.
crossed-head :
    (m : Matching) {o : ℕ} (g : Good m.engine o) (d : Side)
    → crosses_best m o d ≡ true
    → (levels m.book d (best_idx m.book d)).head ≢ none
unfolding crosses_best best_level
crossed-head m {o} g d h e = by_best (g.book.best d)
  where
    i : ℕ
    i = best_idx m.book d

    by_best : IsBest d i m.book.num_levels (g.queues d) → ⊥
    by_best (inl (invalid, _)) = ground arith
    by_best (inr (_, there, _)) = there (no_head (g.queues d i) (sym (g.book.repr d i).head ∙ e))
      where
        no_head : (xs : List ℕ) → head_or xs none ≡ none → xs ≡ []
        no_head [] p = refl
        no_head (x ∷ xs) p = cc

abbrev outward : ℕ → Matching × Bool → ℕ → Option Matching
outward fuel (m', true) o = some m'
outward fuel (m', false) o = match_order fuel m' o

-- The outer loop goes on after a run of the inner one.
outer-Good :
    (fuel : ℕ) (m : Matching) (o : ℕ) (d : Side) (i : ℕ) (g : Good m.engine o)
    → measure m g < suc fuel
    → wants_more m o ≡ true
    → (levels m.book d i).head ≢ none
    → ((m' : Matching) (g' : Good m'.engine o)
        → measure m' g' < fuel
        → (m'' : Matching) × (match_order fuel m' o ≡ some m'')
          × (g'' : Good m''.engine o) × Kept (m'.store o) (m''.store o)
          × (Tied g' → Tied g''))
    → (r : Matching × Bool) → Ends m g d i r
    → (m' : Matching) × (outward fuel r o ≡ some m')
      × (g' : Good m'.engine o) × Kept (m.store o) (m'.store o)
      × (Tied g → Tied g')
outer-Good fuel m o d i g low more there ih (m', true) (g', n, le, k, l, alt) = (m', refl, g', k, l)
outer-Good fuel m o d i g low more there ih (m', false) (g', n, le, k, l, alt) =
    elim (alt more there) [
      | inl stopped ↦ cc
      | inr lt ↦
          let (m'', e, g'', k', l') = ih m' g' (omega arith) in
          (m'', e, g'', Kept-trans k k', λ w. l' (l w))
    ]

-- From a good state, with fuel above the measure (the trades and the resting orders that are left),
-- the match ends in a good state, and keeps the terms of the incoming order. If the order map finds
-- exactly the orders that rest, and has more slots left than the pool, it does so afterwards.
pub match_order-Good :
    (fuel : ℕ) (m : Matching) (o : ℕ) (g : Good m.engine o)
    → measure m g < fuel
    → (m' : Matching) × (match_order fuel m o ≡ some m')
      × (g' : Good m'.engine o) × Kept (m.store o) (m'.store o)
      × (Tied g → Tied g')
unfolding match_order
match_order-Good zero m o g low = absurd (omega arith)
match_order-Good (suc fuel) m o g low = elim (Bool-cases (wants_more m o && crosses_best m o d)) [
  | inr done ↦ (m, rw (done, match_order), g, Kept-core refl, λ w. w)
  | inl go ↦
      let (r, run, ends) = match_level-Ends (suc fuel) m o d (best_idx m.book d) g low in
      let more : wants_more m o ≡ true = ground arith in
      let crossed : crosses_best m o d ≡ true = ground arith in
      let (m', e, g', k, l) =
        outer-Good fuel m o d (best_idx m.book d) g low more (crossed-head m g d crossed)
          (λ m' g' h. match_order-Good fuel m' o g' h) r ends in
      (m', joined go r run ∙ e, g', k, l)
]
  where
    d : Side
    d = opposite (m.store o).side

    joined :
        (wants_more m o && crosses_best m o d) ≡ true
        → (r : Matching × Bool) → match_level (suc fuel) m o d (best_idx m.book d) ≡ some r
        → match_order (suc fuel) m o ≡ outward fuel r o
    joined go (m', true) run = rw (go, run, match_order)
    joined go (m', false) run = rw (go, run, match_order)
