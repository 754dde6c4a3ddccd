-- ===== src/OrderMap/Count.antt =====
-- How many slots of the order map are full, and that a write changes the count by one at most.
use hft_orderbook_engine.Base.{
  ℕ, zero, suc, ◌+◌, ◌≤◌, ◌<◌, ◌≡◌, refl, ap, Bool, true, false, update, ◌==◌, if◌then◌else◌, arith,
  ==_iff, Bool-cases, inl, inr,
}
use hft_orderbook_engine.OrderMap.{FlatOrderMap, Entry, empty_key}

abbrev pub is_blank : Entry → Bool
is_blank e = e.key == empty_key

abbrev pub weight : Entry → ℕ
weight e = if is_blank e then 0 else 1

-- The full slots below `n`.
abbrev pub full_below : (ℕ → Entry) → ℕ → ℕ
full_below f zero = 0
full_below f (suc n) = weight (f n) + full_below f n

abbrev pub full_slots : FlatOrderMap → ℕ
full_slots m = full_below m.entries m.capacity

full_below-above :
    (f : ℕ → Entry) (s : ℕ) (e : Entry) (n : ℕ)
    → n ≤ s
    → full_below (update f s e) n ≡ full_below f n
full_below-above f s e zero h = refl
full_below-above f s e (suc n) h =
    let other : (s == n) ≡ false = ground arith in
    rw (other, full_below-above f s e n (omega arith)) refl

-- A write below `n` exchanges the weight of a slot.
pub full_below-update :
    (f : ℕ → Entry) (s : ℕ) (e : Entry) (n : ℕ)
    → s < n
    → full_below (update f s e) n + weight (f s) ≡ full_below f n + weight e
full_below-update f s e zero h = absurd (omega arith)
full_below-update f s e (suc n) h = elim (Bool-cases (s == n)) [
  | inl q ↦
      let at : s ≡ n = (==_iff s n).0 q in
      let below = full_below-above f s e n (omega (arith, at)) in
      let same : weight (f s) ≡ weight (f n) = ap (λ z. weight (f z)) at in
      rw q (omega (arith, below, same))
  | inr q ↦ let low : s < n = ground arith in rw q (omega (arith, full_below-update f s e n low))
]

-- Where not all slots are full, one is empty.
pub some_blank :
    (f : ℕ → Entry) (n : ℕ) → full_below f n < n → (s : ℕ) × (s < n) × (is_blank (f s) ≡ true)
some_blank f zero h = absurd (omega arith)
some_blank f (suc n) h = elim (Bool-cases (is_blank (f n))) [
  | inl e ↦ (n, omega arith, e)
  | inr e ↦
      let one : weight (f n) ≡ 1 = rw e refl in
      let (s, low, free) = some_blank f n (omega (arith, h, one)) in (s, omega (arith, low), free)
]

pub full_below-le : (f : ℕ → Entry) (n : ℕ) → full_below f n ≤ n
full_below-le f zero = omega arith
full_below-le f (suc n) = elim (Bool-cases (is_blank (f n))) [
  | inl e ↦ rw e (omega (arith, full_below-le f n))
  | inr e ↦ rw e (omega (arith, full_below-le f n))
]

-- The size that the map keeps is the number of its full slots.
abbrev pub IsCounted : FlatOrderMap → Type 0
IsCounted m = m.size ≡ full_slots m
