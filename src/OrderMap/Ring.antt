-- ===== src/OrderMap/Ring.antt =====
-- Distances along the ring of slots of the order map, as flat_order_map.h computes them with its
-- mask.
use native.Mathlib.Nat.{add-mul-mod_self_right, mod-eq_of_lt, mod-lt, add-mod_right, zero-mod}
use hft_orderbook_engine.Base.{
  ℕ, ◌+◌, ◌-◌, ◌*◌, ◌%◌, ◌^◌, ◌≤◌, ◌<◌, ◌≡◌, refl, ◌∙◌, ap, ◌==◌, ltb, leb, if◌then◌else◌, arith,
  u64_mod, add64, sub64, bit_and_mask, Bool-cases, inl, inr, ==_iff, leb→le,
}
use hft_orderbook_engine.OrderMap.{FlatOrderMap, masked, next_slot, should_shift, hash, home}

-- How far slot `b` lies behind slot `a` on a ring of `c` slots.
abbrev pub dist : ℕ → ℕ → ℕ → ℕ
dist c a b = if leb a b then b - a else b + c - a

abbrev pub after : ℕ → ℕ → ℕ
after c i = if i + 1 == c then 0 else i + 1

-- A power of two of slots, fewer than a word counts, and its mask.
pub record IsRing (m : FlatOrderMap) : Type 0 where
  pub exponent : ℕ
  pub power : m.capacity ≡ 2 ^ exponent
  pub mask : m.capacity_mask ≡ 2 ^ exponent - 1
  pub others : ℕ
  pub divides : others * m.capacity + m.capacity ≡ u64_mod
  pub proper : m.capacity < u64_mod
  pub large : 1 < m.capacity

module _ (m : FlatOrderMap) (r : IsRing m) where
  masked-mod : (i : ℕ) → masked m i ≡ i % m.capacity
  masked-mod i = rw (r.mask, r.power) (bit_and_mask r.exponent i)

  pub next_slot-after : (i : ℕ) → i < m.capacity → next_slot m i ≡ after m.capacity i
  next_slot-after i h =
      let small : add64 i 1 ≡ i + 1 = omega (arith, r.proper) in
      masked-mod (add64 i 1)
      ∙ ap (λ n. n % m.capacity) small
      ∙ elim (Bool-cases (i + 1 == m.capacity)) [
        | inl e ↦
            let at : i + 1 ≡ m.capacity = (==_iff _ _).0 e in
            let self : m.capacity % m.capacity ≡ 0 =
              ap (λ n. n % m.capacity) (omega arith)
              ∙ add-mod_right 0 m.capacity
              ∙ zero-mod m.capacity in
            rw e (ap (λ n. n % m.capacity) at ∙ self)
        | inr e ↦ let low : i + 1 < m.capacity = ground arith in rw e (mod-eq_of_lt low)
      ]

  pub masked-dist :
      (a b : ℕ) → a < m.capacity → b < m.capacity → masked m (sub64 b a) ≡ dist m.capacity a b
  masked-dist a b ha hb = masked-mod (sub64 b a) ∙ elim (Bool-cases (leb a b)) [
    | inl e ↦
        let le : a ≤ b = leb→le a b e in
        let near : sub64 b a ≡ b - a = omega (arith, r.proper) in
        let low : b - a < m.capacity = omega arith in
        rw e (ap (λ n. n % m.capacity) near ∙ mod-eq_of_lt low)
    | inr e ↦
        let lt : b < a = ground arith in
        let far : sub64 b a ≡ b + m.capacity - a + r.others * m.capacity =
          omega (arith, r.proper, r.divides) in
        let low : b + m.capacity - a < m.capacity = omega arith in
        rw e (
          ap (λ n. n % m.capacity) far
          ∙ add-mul-mod_self_right (b + m.capacity - a) r.others m.capacity
          ∙ mod-eq_of_lt low)
  ]

  pub home_lt : (key : ℕ) → home m key < m.capacity
  home_lt key = rw (masked-mod (hash key)) (mod-lt (hash key) (omega (arith, r.large)))

  pub should_shift-dist :
      (i j k : ℕ)
      → i < m.capacity
      → j < m.capacity
      → k < m.capacity
      → should_shift m i j k ≡ ltb (dist m.capacity k i) (dist m.capacity k j)
  unfolding should_shift
  should_shift-dist i j k hi hj hk = rw (masked-dist k i hk hi, masked-dist k j hk hj) refl
