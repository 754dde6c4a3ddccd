-- ===== src/OrderMap/Table.antt =====
-- When the slots of the order map are a table: from the home of each key on, up to its slot, no slot
-- is empty, no key stands twice, and there is an empty slot. Then `find` of flat_order_map.h finds
-- exactly the keys that the table holds.
use hft_orderbook_engine.Base.{
  ℕ, zero, suc, ◌+◌, ◌≤◌, ◌<◌, ◌≡◌, refl, sym, ◌∙◌, ap, true, false, none, some, ◌==◌, arith,
  ==_iff, Bool-cases, Option-cases, inl, inr,
}
use hft_orderbook_engine.OrderMap.{
  FlatOrderMap, Entry, present, empty_key, probe_from, probe, next_slot, home, find,
}
use hft_orderbook_engine.OrderMap.Ring.{dist, after, IsRing, next_slot-after, home_lt}
use hft_orderbook_engine.OrderMap.Count.{IsCounted}
use hft_orderbook_engine.OrderMap.Insert.{
  is_empty, step_vacant, step_present, step_next, find_present, found-present,
}

-- Of the slots other than the gap `i`, none is cut off from its home, and no key stands twice.
abbrev pub key_at : FlatOrderMap → ℕ → ℕ
key_at m s = (m.entries s).key

-- How far slot `x` lies behind the home of the key at slot `s`.
abbrev pub behind : FlatOrderMap → ℕ → ℕ → ℕ
behind m s x = dist m.capacity (home m (key_at m s)) x

pub record IsTable (m : FlatOrderMap) : Type 0 where
  pub ring : IsRing m
  pub chains :
      (s x : ℕ)
      → s < m.capacity
      → x < m.capacity
      → is_empty m s ≡ false
      → behind m s x < behind m s s
      → is_empty m x ≡ false
  pub unique :
      (s t : ℕ)
      → s < m.capacity
      → t < m.capacity
      → is_empty m s ≡ false
      → key_at m s ≡ key_at m t
      → s ≡ t
  pub gap : ℕ
  pub gap_low : gap < m.capacity
  pub gap_empty : is_empty m gap ≡ true

module _ (c : ℕ) where
  pub dist_lt : (a b : ℕ) → a < c → b < c → dist c a b < c
  dist_lt a b ha hb = ground arith

  pub dist_self : (a : ℕ) → dist c a a ≡ 0
  dist_self a = ground arith

  pub dist_inj : (h a b : ℕ) → h < c → a < c → b < c → dist c h a ≡ dist c h b → a ≡ b
  dist_inj h a b hh ha hb e = ground arith

  pub after_lt : (i : ℕ) → i < c → after c i < c
  after_lt i h = ground arith

  pub dist_lt_of_ne :
      (h i s : ℕ)
      → h < c
      → i < c
      → s < c
      → dist c h i ≤ dist c h s
      → (s == i) ≡ false
      → dist c h i < dist c h s
  dist_lt_of_ne h i s hh hi hs le ne = ground arith

  pub dist_after :
      (h i s : ℕ)
      → h < c
      → i < c
      → s < c
      → dist c h i < dist c h s
      → dist c h (after c i) ≡ dist c h i + 1
  dist_after h i s hh hi hs lt = ground arith

key_apart : (m : FlatOrderMap) (s i : ℕ) → (key_at m i == key_at m s) ≡ false → (s == i) ≡ false
key_apart m s i other = elim (Bool-cases (s == i)) [
  | inl e ↦ absurd (
      cc (
        other,
        (==_iff (key_at m s) (key_at m s)).1 refl,
        ap (λ z. key_at m z == key_at m s) ((==_iff s i).0 e),
      ))
  | inr e ↦ e
]

module _ (m : FlatOrderMap) (v : IsTable m) where
  module _ (s : ℕ) (low : s < m.capacity) (full : is_empty m s ≡ false) where
    probe_from-stored :
        (rounds i : ℕ)
        → i < m.capacity
        → behind m s i ≤ behind m s s
        → behind m s s < behind m s i + rounds
        → probe_from m (key_at m s) rounds i ≡ present s
    probe_from-stored zero i hi le lt = absurd (omega arith)
    probe_from-stored (suc rounds) i hi le lt =
        let k = key_at m s in
        let hh = home_lt m v.ring k in
        elim (Bool-cases (key_at m i == k)) [
          | inl same ↦
              let at : s ≡ i = v.unique s i low hi full (sym ((==_iff (key_at m i) k).0 same)) in
              ap (probe_from m k (suc rounds)) (sym at)
              ∙ step_present m k rounds s full ((==_iff k k).1 refl)
          | inr other ↦
              let ne : (s == i) ≡ false = key_apart m s i other in
              let less : behind m s i < behind m s s =
                dist_lt_of_ne m.capacity (home m k) i s hh hi low le ne in
              let onward : behind m s (after m.capacity i) ≡ behind m s i + 1 =
                dist_after m.capacity (home m k) i s hh hi low less in
              step_next m k rounds i (v.chains s i low hi full less) other
              ∙ ap (probe_from m k rounds) (next_slot-after m v.ring i hi)
              ∙ probe_from-stored rounds (after m.capacity i) (after_lt m.capacity i hi)
                  (omega (arith, onward, less)) (omega (arith, onward, lt))
        ]

    -- What stands in a slot is found.
    pub find-stored : find m (key_at m s) ≡ (m.entries s).value
    unfolding probe
    find-stored =
        let k = key_at m s in
        let hh = home_lt m v.ring k in
        let start = dist_self m.capacity (home m k) in
        find_present m k s full (
          probe_from-stored m.capacity (home m k) hh (omega (arith, start))
            (omega (arith, start, dist_lt m.capacity (home m k) s hh low)))

  module _ (k : ℕ) (absent : (s : ℕ) → s < m.capacity → (key_at m s == k) ≡ false) where
    probe_from-absent : (rounds i p : ℕ) → i < m.capacity → probe_from m k rounds i ≡ present p → ⊥
    unfolding probe_from
    probe_from-absent zero i p h e = cc
    probe_from-absent (suc rounds) i p h e = elim (Bool-cases (is_empty m i)) [
      | inl z ↦ cc (step_vacant m k rounds i z, e)
      | inr z ↦
          let next = next_slot-after m v.ring i h in
          probe_from-absent rounds (next_slot m i) p (omega (arith, next, after_lt m.capacity i h))
            (sym (step_next m k rounds i z (absent i h)) ∙ e)
    ]

    -- What stands in no slot is not found.
    pub find-absent : find m k ≡ none
    unfolding probe
    find-absent = elim (Option-cases (find m k)) [
      | inl e ↦ e
      | inr (x, e) ↦
          let (_, (p, at, _)) = found-present m k x e in
          absurd (probe_from-absent m.capacity (home m k) p (home_lt m v.ring k) at)
    ]

-- A table whose size is the number of its full slots, each of which has a value.
pub record IsMap (m : FlatOrderMap) : Type 0 where
  pub table : IsTable m
  pub counted : IsCounted m
  pub valued :
      (s : ℕ) → s < m.capacity → is_empty m s ≡ false → (x : ℕ) × ((m.entries s).value ≡ some x)

-- Where a key that is found stands.
pub record Stands (m : FlatOrderMap) (k v : ℕ) : Type 0 where
  pub slot : ℕ
  pub low : slot < m.capacity
  pub real : (k == empty_key) ≡ false
  pub key : key_at m slot ≡ k
  pub value : (m.entries slot).value ≡ some v
  pub at : probe m k ≡ present slot

probe_from-low :
    (m : FlatOrderMap) (r : IsRing m) (k rounds i p : ℕ)
    → i < m.capacity
    → probe_from m k rounds i ≡ present p
    → (p < m.capacity) × (key_at m p ≡ k)
unfolding probe_from
probe_from-low m r k zero i p h e = cc
probe_from-low m r k (suc rounds) i p h e = elim (Bool-cases (is_empty m i)) [
  | inl z ↦ absurd (cc (step_vacant m k rounds i z, e))
  | inr z ↦ elim (Bool-cases (key_at m i == k)) [
    | inl q ↦
        let at : i ≡ p = cc (step_present m k rounds i z q, e) in
        (omega (arith, h, at), ap (key_at m) (sym at) ∙ (==_iff (key_at m i) k).0 q)
    | inr q ↦
        let next = next_slot-after m r i h in
        probe_from-low m r k rounds (next_slot m i) p (omega (arith, next, after_lt m.capacity i h))
          (sym (step_next m k rounds i z q) ∙ e)
  ]
]

pub found-Stands : (m : FlatOrderMap) → IsRing m → (k v : ℕ) → find m k ≡ some v → Stands m k v
unfolding probe
found-Stands m r k v e =
    let (real, (p, at, value)) = found-present m k v e in
    let (low, key) = probe_from-low m r k m.capacity (home m k) p (home_lt m r k) at in
    record { slot = p; low = low; real = real; key = key; value = value; at = at }

-- An entry that stands in some slot.
abbrev pub Stored : FlatOrderMap → Entry → Type 0
Stored m e = (s : ℕ) × (s < m.capacity) × (m.entries s ≡ e)

-- The entries of a key also stand in the other table.
abbrev pub Carries : FlatOrderMap → FlatOrderMap → ℕ → Type 0
Carries m m' k =
    (s : ℕ) → s < m.capacity → is_empty m s ≡ false → key_at m s ≡ k → Stored m' (m.entries s)

find-carried :
    (m m' : FlatOrderMap)
    → IsTable m
    → IsTable m'
    → (k y : ℕ) → Carries m m' k
    → find m k ≡ some y
    → find m' k ≡ some y
find-carried m m' v v' k y carries e =
    let before = found-Stands m v.ring k y e in
    let full : is_empty m before.slot ≡ false = ap (λ z. z == empty_key) before.key ∙ before.real in
    let (t, ht, at) = carries before.slot before.low full before.key in
    let key_t : key_at m' t ≡ k = ap (λ (z : Entry). z.key) at ∙ before.key in
    ap (find m') (sym key_t)
    ∙ find-stored m' v' t ht (ap (λ z. z == empty_key) key_t ∙ before.real)
    ∙ ap (λ (z : Entry). z.value) at
    ∙ before.value

-- Tables that hold the same entries of a key find the same.
pub find-same :
    (m m' : FlatOrderMap)
    → IsTable m
    → IsTable m'
    → (k : ℕ) → Carries m m' k
    → Carries m' m k
    → find m' k ≡ find m k
find-same m m' v v' k there back = elim (Option-cases (find m' k)) [
  | inr (y, e) ↦ e ∙ sym (find-carried m' m v' v k y back e)
  | inl e ↦ elim (Option-cases (find m k)) [
    | inl f ↦ e ∙ sym f
    | inr (y, f) ↦ absurd (cc (e, find-carried m m' v v' k y there f))
  ]
]
