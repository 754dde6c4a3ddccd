-- ===== src/OrderMap/Grow.antt =====
-- `insert` of flat_order_map.h, on a map with room, adds one key and keeps the others.
use hft_orderbook_engine.Base.{
  ℕ, zero, suc, ◌+◌, ◌<◌, ◌≤◌, ◌≡◌, refl, sym, subst, ◌∙◌, ap, true, false, none, some, update,
  update_self, add64, ◌==◌, ltb, arith, ==_iff, Bool-cases, inl, inr,
}
use hft_orderbook_engine.OrderMap.{
  FlatOrderMap, Entry, vacant, empty_key, probe_from, probe, home, find, insert,
}
use hft_orderbook_engine.OrderMap.Ring.{dist, after, next_slot-after, home_lt}
use hft_orderbook_engine.OrderMap.Count.{full_slots, weight, full_below-update, some_blank}
use hft_orderbook_engine.OrderMap.Insert.{is_empty, step_vacant, step_next}
use hft_orderbook_engine.OrderMap.Table.{
  key_at, behind, IsTable, IsMap, dist_lt, dist_self, dist_inj, after_lt, dist_after, dist_lt_of_ne,
  find-stored, find-same,
}

-- The entry of the key is written into slot `s`.
abbrev grown : FlatOrderMap → ℕ → ℕ → ℕ → FlatOrderMap
grown m s key value = record m {
  entries = update m.entries s (record { key = key; value = some value });
  size = add64 m.size 1;
}

module _ (m : FlatOrderMap) (v : IsMap m) (key : ℕ) (free : find m key ≡ none) where
  abbrev c : ℕ
  c = m.capacity

  -- The key stands nowhere.
  absent : (s : ℕ) → s < c → is_empty m s ≡ false → (key_at m s == key) ≡ false
  absent s low full = elim (Bool-cases (key_at m s == key)) [
    | inr e ↦ e
    | inl e ↦
        let (x, value) = v.valued s low full in
        let found = find-stored m v.table s low full ∙ value in
        absurd (cc (free, found, ap (find m) ((==_iff (key_at m s) key).0 e)))
  ]

  -- From the home of the key up to slot `i`, no slot is empty.
  abbrev Passed : ℕ → Type 0
  Passed i = (x : ℕ) → x < c → dist c (home m key) x < dist c (home m key) i → is_empty m x ≡ false

  -- Where the probe of the key ends.
  record Ends (rounds i : ℕ) : Type 0 where
    slot : ℕ
    low : slot < c
    vacancy : is_empty m slot ≡ true
    passed : Passed slot
    run : probe_from m key rounds i ≡ vacant slot

  probe_from-Ends :
      (rounds i : ℕ)
      → i < c
      → dist c (home m key) i ≤ dist c (home m key) v.table.gap
      → dist c (home m key) v.table.gap < dist c (home m key) i + rounds
      → Passed i
      → Ends rounds i
  probe_from-Ends zero i hi le lt passed = absurd (omega arith)
  probe_from-Ends (suc rounds) i hi le lt passed = elim (Bool-cases (is_empty m i)) [
    | inl e ↦ record {
      slot = i;
      low = hi;
      vacancy = e;
      passed = passed;
      run = step_vacant m key rounds i e;
    }
    | inr e ↦
        let h = home m key in
        let hh = home_lt m v.table.ring key in
        let g = v.table.gap in
        let ne : (g == i) ≡ false = gap_apart i e in
        let less = dist_lt_of_ne c h i g hh hi v.table.gap_low le ne in
        let onward = dist_after c h i g hh hi v.table.gap_low less in
        let r =
          probe_from-Ends rounds (after c i) (after_lt c i hi) (omega (arith, onward, less))
            (omega (arith, onward, lt)) (passed_on i hi e passed onward) in
        record {
          slot = r.slot;
          low = r.low;
          vacancy = r.vacancy;
          passed = r.passed;
          run =
              step_next m key rounds i e (absent i hi e)
              ∙ ap (probe_from m key rounds) (next_slot-after m v.table.ring i hi)
              ∙ r.run;
        }
  ]
    where
      gap_apart : (i : ℕ) → is_empty m i ≡ false → (v.table.gap == i) ≡ false
      gap_apart i e = elim (Bool-cases (v.table.gap == i)) [
        | inr q ↦ q
        | inl q ↦ absurd (cc (e, v.table.gap_empty, ap (is_empty m) ((==_iff v.table.gap i).0 q)))
      ]

      passed_on :
          (i : ℕ)
          → i < c
          → is_empty m i ≡ false
          → Passed i
          → dist c (home m key) (after c i) ≡ dist c (home m key) i + 1
          → Passed (after c i)
      passed_on i hi e passed onward x hx lt =
          let h = home m key in
          let hh = home_lt m v.table.ring key in
          elim (Bool-cases (ltb (dist c h x) (dist c h i))) [
            | inl near ↦ passed x hx (ground (arith, near))
            | inr far ↦
                let at : x ≡ i = dist_inj c h x i hh hx hi (ground (arith, far, lt, onward)) in
                ap (is_empty m) at ∙ e
          ]

  ends : Ends c (home m key)
  ends =
      let h = home m key in
      let hh = home_lt m v.table.ring key in
      let start = dist_self c h in
      probe_from-Ends c h hh (omega (arith, start))
        (omega (arith, start, dist_lt c h v.table.gap hh v.table.gap_low))
        (λ x hx lt. absurd (omega (arith, start, lt)))

  module _ (value : ℕ) (real : (key == empty_key) ≡ false) (room : m.size + 1 < c) where
    abbrev s : ℕ
    s = ends.slot

    abbrev m' : FlatOrderMap
    m' = grown m s key value

    run_insert : insert m key value ≡ (m', true)
    unfolding insert probe
    run_insert = rw (real, ends.run, insert) refl

    at_slot : m'.entries s ≡ record { key = key; value = some value }
    at_slot = update_self m.entries s (record { key = key; value = some value })

    elsewhere : (x : ℕ) → (x == s) ≡ false → m'.entries x ≡ m.entries x
    elsewhere x ne = let ne' : (s == x) ≡ false = ground (arith, ne) in rw ne' refl

    -- A full slot is not the one that is written.
    full_apart : (x : ℕ) → is_empty m x ≡ false → (x == s) ≡ false
    full_apart x full = elim (Bool-cases (x == s)) [
      | inr e ↦ e
      | inl e ↦ absurd (cc (full, ends.vacancy, ap (is_empty m) ((==_iff x s).0 e)))
    ]

    still_full : (x : ℕ) → is_empty m x ≡ false → is_empty m' x ≡ false
    still_full x full =
        ap (λ (e : Entry). e.key == empty_key) (elsewhere x (full_apart x full)) ∙ full

    was_full : (x : ℕ) → (x == s) ≡ false → is_empty m' x ≡ false → is_empty m x ≡ false
    was_full x ne full = sym (ap (λ (e : Entry). e.key == empty_key) (elsewhere x ne)) ∙ full

    key_else : (x : ℕ) → (x == s) ≡ false → key_at m' x ≡ key_at m x
    key_else x ne = ap (λ (e : Entry). e.key) (elsewhere x ne)

    key_here : key_at m' s ≡ key
    key_here = ap (λ (e : Entry). e.key) at_slot

    more : full_slots m' ≡ full_slots m + 1
    more =
        let out : weight (m.entries s) ≡ 0 = rw ends.vacancy refl in
        let in' : weight (record { key = key; value = some value }) ≡ 1 = rw real refl in
        omega (
          arith,
          out,
          in',
          full_below-update m.entries s (record { key = key; value = some value }) c ends.low,
        )

    -- A slot with the key is the one that is written.
    only : (x : ℕ) → x < c → is_empty m' x ≡ false → key_at m' x ≡ key → x ≡ s
    only x hx full e = elim (Bool-cases (x == s)) [
      | inl q ↦ (==_iff x s).0 q
      | inr q ↦
          let k = sym (key_else x q) ∙ e in
          absurd (cc (absent x hx (was_full x q full), (==_iff (key_at m x) key).1 k))
    ]

    grown_unique :
        (x y : ℕ) → x < c → y < c → is_empty m' x ≡ false → key_at m' x ≡ key_at m' y → x ≡ y
    grown_unique x y hx hy full e =
        let full_y : is_empty m' y ≡ false = sym (ap (λ k. k == empty_key) e) ∙ full in
        elim (Bool-cases (x == s)) [
          | inl q ↦
              let at = (==_iff x s).0 q in
              at ∙ sym (only y hy full_y (sym e ∙ ap (key_at m') at ∙ key_here))
          | inr q ↦ elim (Bool-cases (y == s)) [
            | inl p ↦
                let at = (==_iff y s).0 p in
                only x hx full (e ∙ ap (key_at m') at ∙ key_here) ∙ sym at
            | inr p ↦
                v.table.unique x y hx hy (was_full x q full) (sym (key_else x q) ∙ e ∙ key_else y p)
          ]
        ]

    grown-chains :
        (y x : ℕ)
        → y < c
        → x < c
        → is_empty m' y ≡ false
        → behind m' y x < behind m' y y
        → is_empty m' x ≡ false
    grown-chains y x hy hx full lt = elim (Bool-cases (y == s)) [
      | inl q ↦
          let at = (==_iff y s).0 q in
          let lt' : dist c (home m key) x < dist c (home m key) s =
            subst (λ k. dist c (home m k) x < dist c (home m k) s) key_here
              (subst (λ z. behind m' z x < behind m' z z) at lt) in
          still_full x (ends.passed x hx lt')
      | inr q ↦
          let lt' : behind m y x < behind m y y =
            subst (λ k. dist c (home m k) x < dist c (home m k) y) (key_else y q) lt in
          still_full x (v.table.chains y x hy hx (was_full y q full) lt')
    ]

    grown-IsTable : IsTable m'
    grown-IsTable =
        let full : full_slots m' < c = omega (arith, more, v.counted, room) in
        let (g, low, empty) = some_blank m'.entries c full in
        record {
          ring = record {
            exponent = v.table.ring.exponent;
            power = v.table.ring.power;
            mask = v.table.ring.mask;
            others = v.table.ring.others;
            divides = v.table.ring.divides;
            proper = v.table.ring.proper;
            large = v.table.ring.large;
          };
          chains = grown-chains;
          unique = grown_unique;
          gap = g;
          gap_low = low;
          gap_empty = empty;
        }

    grown-IsMap : IsMap m'
    grown-IsMap = record {
      table = grown-IsTable;
      counted = omega (arith, more, v.counted, room, v.table.ring.proper);
      valued = λ x hx full. elim (Bool-cases (x == s)) [
        | inl q ↦ (
          value,
          ap (λ z. (m'.entries z).value) ((==_iff x s).0 q) ∙ ap (λ (e : Entry). e.value) at_slot,
        )
        | inr q ↦
            let (y, at) = v.valued x hx (was_full x q full) in
            (y, ap (λ (e : Entry). e.value) (elsewhere x q) ∙ at)
      ];
    }

    found_new : find m' key ≡ some value
    found_new =
        ap (find m') (sym key_here)
        ∙ find-stored m' grown-IsTable s ends.low (ap (λ k. k == empty_key) key_here ∙ real)
        ∙ ap (λ (e : Entry). e.value) at_slot

    found_old : (k : ℕ) → (k == key) ≡ false → find m' k ≡ find m k
    found_old k other =
        find-same m m' v.table grown-IsTable k
          (λ x low full at. (x, low, elsewhere x (full_apart x full)))
          (λ x low full at. let ne = slot_other k x other at in (x, low, sym (elsewhere x ne)))
      where
        slot_other : (k x : ℕ) → (k == key) ≡ false → key_at m' x ≡ k → (x == s) ≡ false
        slot_other k x other at = elim (Bool-cases (x == s)) [
          | inr q ↦ q
          | inl q ↦
              let same : k ≡ key = sym at ∙ ap (key_at m') ((==_iff x s).0 q) ∙ key_here in
              absurd (cc (other, (==_iff k key).1 same))
        ]

-- On a map with two empty slots or more, inserting a key that is neither 0 nor found succeeds, and
-- leaves a map of the same capacity with one entry more, in which the key has the value and every
-- other key is found, or not, as before.
pub insert-IsMap :
    (m : FlatOrderMap) (v : IsMap m) (key value : ℕ)
    → find m key ≡ none
    → (key == empty_key) ≡ false
    → m.size + 1 < m.capacity
    → ((insert m key value).1 ≡ true)
      × IsMap (insert m key value).0
      × ((insert m key value).0.capacity ≡ m.capacity)
      × ((insert m key value).0.size ≡ m.size + 1)
      × (find (insert m key value).0 key ≡ some value)
      × ((k : ℕ) → (k == key) ≡ false → find (insert m key value).0 k ≡ find m k)
insert-IsMap m v key value free real room = rw (run_insert m v key free value real room) (
  refl,
  grown-IsMap m v key free value real room,
  refl,
  omega (arith, room, v.table.ring.proper),
  found_new m v key free value real room,
  found_old m v key free value real room,
)
