-- ===== src/OrderMap/Shift.antt =====
-- The backward-shift loop of `erase` in flat_order_map.h: it closes the gap, so that no entry is cut
-- off from its home.
use hft_orderbook_engine.Base.{
  ℕ, suc, ◌+◌, ◌≤◌, ◌<◌, ◌≡◌, refl, sym, subst, ◌∙◌, ap, true, false, update_self, none, ◌==◌, leb,
  leb→le, arith, ==_iff, Bool-cases, inl, inr,
}
use hft_orderbook_engine.OrderMap.{FlatOrderMap, Entry, empty_key, home, clear_slot}
use hft_orderbook_engine.OrderMap.Ring.{dist, after, IsRing, home_lt}
use hft_orderbook_engine.OrderMap.Insert.{is_empty}
use hft_orderbook_engine.OrderMap.Count.{full_slots, weight, full_below-update}
use hft_orderbook_engine.OrderMap.Table.{
  key_at, behind, IsTable, after_lt, dist_after, dist_lt_of_ne, Stored,
}

module _ (c : ℕ) where
  pub dist_before :
      (j e : ℕ) → j < c → e < c → (j == e) ≡ false → dist c j e ≡ suc (dist c (after c j) e)
  dist_before j e hj he ne = ground arith

  pub dist_ne : (h a b : ℕ) → dist c h a < dist c h b → (a == b) ≡ false
  dist_ne h a b lt = ground arith

  -- On the way from `h` over `i` to `s`, what is nearer behind `i` than `s` is nearer behind `h`.
  dist_through :
      (h i x s : ℕ)
      → h < c
      → i < c
      → x < c
      → s < c
      → dist c h i < dist c h s
      → dist c i x < dist c i s
      → dist c h x < dist c h s
  dist_through h i x s hh hi hx hs a b = ground arith

-- The table while slot `i` is a gap that still holds its old entry, and the slots up to `j` are
-- known not to need it.
pub record Holed (m : FlatOrderMap) (i j : ℕ) : Type 0 where
  pub ring : IsRing m
  pub hole_low : i < m.capacity
  pub last_low : j < m.capacity
  pub hole_full : is_empty m i ≡ false
  pub last_full : is_empty m j ≡ false
  pub chains :
      (s x : ℕ)
      → s < m.capacity
      → x < m.capacity
      → (s == i) ≡ false
      → is_empty m s ≡ false
      → behind m s x < behind m s s
      → is_empty m x ≡ false
  pub unique :
      (s t : ℕ)
      → s < m.capacity
      → t < m.capacity
      → (s == i) ≡ false
      → (t == i) ≡ false
      → is_empty m s ≡ false
      → key_at m s ≡ key_at m t
      → s ≡ t
  pub past :
      (s : ℕ)
      → s < m.capacity
      → (s == i) ≡ false
      → is_empty m s ≡ false
      → dist m.capacity i s ≤ dist m.capacity i j
      → behind m s s ≤ behind m s i
  pub gap : ℕ
  pub gap_low : gap < m.capacity
  pub gap_empty : is_empty m gap ≡ true

-- An entry that stands in a slot other than the gap.
abbrev pub Live : FlatOrderMap → ℕ → Entry → Type 0
Live m i e = (s : ℕ) × (s < m.capacity) × ((s == i) ≡ false) × (m.entries s ≡ e)

-- The result of closing the gap at `i`: a table with the live entries.
pub record IsClosed (m : FlatOrderMap) (i : ℕ) (m' : FlatOrderMap) : Type 0 where
  pub table : IsTable m'
  pub same_capacity : m'.capacity ≡ m.capacity
  pub same_size : m'.size ≡ m.size
  pub fewer : full_slots m' + 1 ≡ full_slots m
  pub kept : (e : Entry) → (e.key == empty_key) ≡ false → Live m i e → Stored m' e
  pub known : (e : Entry) → (e.key == empty_key) ≡ false → Stored m' e → Live m i e

module _ (m : FlatOrderMap) (i j : ℕ) (h : Holed m i j) where
  abbrev c : ℕ
  c = m.capacity

  abbrev j' : ℕ
  j' = after c j

  j'_lt : j' < c
  j'_lt = after_lt c j h.last_low

  cleared-other : (x : ℕ) → (x == i) ≡ false → (clear_slot m i).entries x ≡ m.entries x
  cleared-other x ne = let ne' : (i == x) ≡ false = ground arith in rw ne' refl

  -- Where the next slot is empty, no entry needs the gap.
  cut :
      is_empty m j' ≡ true
      → (s : ℕ) → s < c
      → (s == i) ≡ false
      → is_empty m s ≡ false
      → behind m s i < behind m s s
      → ⊥
  cut free s hs ne full thru =
      let hh = home_lt m h.ring (key_at m s) in
      elim (Bool-cases (leb (dist c i s) (dist c i j))) [
        | inl near ↦ omega (arith, h.past s hs ne full (leb→le _ _ near), thru)
        | inr far ↦
            let beyond : dist c i j < dist c i s = ground (arith, far) in
            let onward = dist_after c i j s h.hole_low h.last_low hs beyond in
            elim (Bool-cases (s == j')) [
              | inl e ↦ cc (free, full, ap (is_empty m) ((==_iff s j').0 e))
              | inr e ↦
                  let short : dist c i j' < dist c i s =
                    dist_lt_of_ne c i j' s h.hole_low j'_lt hs (omega (arith, onward, beyond)) e in
                  let between =
                    dist_through c (home m (key_at m s)) i j' s hh h.hole_low j'_lt hs thru short in
                  cc (free, h.chains s j' hs j'_lt ne full between)
            ]
      ]

  full_apart : (s : ℕ) → is_empty (clear_slot m i) s ≡ false → (s == i) ≡ false
  full_apart s full = elim (Bool-cases (s == i)) [
    | inr e ↦ e
    | inl e ↦ absurd (
        cc (
          full,
          ap (is_empty (clear_slot m i)) ((==_iff s i).0 e),
          ap (λ (x : Entry). x.key == empty_key)
              (update_self m.entries i (record { key = empty_key; value = none })),
        ))
  ]

  cleared_full : (s : ℕ) → (s == i) ≡ false → is_empty (clear_slot m i) s ≡ is_empty m s
  cleared_full s ne = ap (λ (x : Entry). x.key == empty_key) (cleared-other s ne)

  cleared_key : (s : ℕ) → (s == i) ≡ false → key_at (clear_slot m i) s ≡ key_at m s
  cleared_key s ne = ap (λ (x : Entry). x.key) (cleared-other s ne)

  cleared-IsTable : is_empty m j' ≡ true → IsTable (clear_slot m i)
  cleared-IsTable free = record {
    ring = record {
      exponent = h.ring.exponent;
      power = h.ring.power;
      mask = h.ring.mask;
      others = h.ring.others;
      divides = h.ring.divides;
      proper = h.ring.proper;
      large = h.ring.large;
    };
    chains = λ s x hs hx full lt.
        let ne = full_apart s full in
        let was = sym (cleared_full s ne) ∙ full in
        let lt' : behind m s x < behind m s s =
          subst (λ k. dist c (home m k) x < dist c (home m k) s) (cleared_key s ne) lt in
        elim (Bool-cases (x == i)) [
          | inl e ↦
              let thru = subst (λ z. behind m s z < behind m s s) ((==_iff x i).0 e) lt' in
              absurd (cut free s hs ne was thru)
          | inr e ↦ cleared_full x e ∙ h.chains s x hs hx ne was lt'
        ];
    unique = λ s t hs ht full same.
        let ns = full_apart s full in
        let nt = full_apart t (sym (ap (λ k. k == empty_key) same) ∙ full) in
        h.unique s t hs ht ns nt (sym (cleared_full s ns) ∙ full)
          (sym (cleared_key s ns) ∙ same ∙ cleared_key t nt);
    gap = i;
    gap_low = h.hole_low;
    gap_empty =
        ap (λ (x : Entry). x.key == empty_key)
          (update_self m.entries i (record { key = empty_key; value = none }));
  }

  pub cleared-IsClosed : is_empty m j' ≡ true → IsClosed m i (clear_slot m i)
  cleared-IsClosed free = record {
    table = cleared-IsTable free;
    same_capacity = refl;
    same_size = refl;
    fewer =
        let one : weight (m.entries i) ≡ 1 = rw h.hole_full refl in
        omega (
          arith,
          one,
          full_below-update m.entries i (record { key = empty_key; value = none }) c h.hole_low,
        );
    kept = λ e real (s, low, ne, at). (s, low, cleared-other s ne ∙ at);
    known = λ e real (s, low, at).
        let ne = full_apart s (ap (λ (x : Entry). x.key == empty_key) at ∙ real) in
        (s, low, ne, sym (cleared-other s ne) ∙ at);
  }
