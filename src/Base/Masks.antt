-- ===== src/Base/Masks.antt =====
-- Indices into a power of two of slots: a mask of ones is a remainder, and a window of consecutive
-- indices no longer than the ring meets no slot twice.
use Prim.Native.Nat.{
  ℕ, zero, suc, ◌+◌, ◌*◌, ◌-◌, ◌/◌, ◌%◌, ◌^◌, ◌≤◌, ◌<◌, min, bit_and, digits, bit_and-bitwise,
}
use mathlib.Core.Path.{◌≡◌, refl, sym, ◌∙◌, ap}
use mathlib.Core.Logic.{◌≢◌, inl, inr}
use native.Mathlib.Nat.{
  add-mul-mod_self_right, mod-eq_of_lt, mod-lt, mod-one, mod-add-mod, mod-add-div, mod-eq-sub-mod,
  zero-mod,
}
use hft_orderbook_engine.Base.Tests.{Bool-cases, ltb, ltb→lt}
use native.Mathlib.Omega.{arith}

-- The lowest binary digit of a remainder is the number's.
mod_double : (a m : ℕ) → 0 < m → a % (m * 2) ≡ a / 2 % m * 2 + a % 2
mod_double a m pos =
    let whole : a ≡ a / 2 % m * 2 + a % 2 + a / 2 / m * (m * 2) =
      grind (arith, mod-add-div (a / 2) m) in
    let small : a / 2 % m * 2 + a % 2 < m * 2 = omega (arith, mod-lt (a / 2) pos) in
    ap (λ n. n % (m * 2)) whole
    ∙ add-mul-mod_self_right (a / 2 % m * 2 + a % 2) (a / 2 / m) (m * 2)
    ∙ mod-eq_of_lt small

power_pos : (k : ℕ) → 0 < 2 ^ k
power_pos zero = omega arith
power_pos (suc k) = omega (arith, power_pos k)

abbrev common : ℕ → ℕ → ℕ → ℕ
common = digits (λ b. zero) min

common_nothing : (n a : ℕ) → common n a 0 ≡ 0
common_nothing zero a = refl
common_nothing (suc n) zero = refl
common_nothing (suc n) (suc a) = omega (arith, common_nothing n (suc a / 2))

common_ones : (k n a : ℕ) → a ≤ n → common n a (2 ^ k - 1) ≡ a % 2 ^ k
common_ones zero n a h = common_nothing n a ∙ sym (mod-one a)
common_ones (suc k) zero zero h = sym (zero-mod (2 ^ suc k))
common_ones (suc k) zero (suc a) h = absurd (omega arith)
common_ones (suc k) (suc n) zero h = sym (zero-mod (2 ^ suc k))
common_ones (suc k) (suc n) (suc a) h =
    let rest : common n (suc a / 2) (2 ^ k - 1) ≡ suc a / 2 % 2 ^ k =
      common_ones k n (suc a / 2) (omega arith) in
    let half : (2 ^ suc k - 1) / 2 ≡ 2 ^ k - 1 = omega (arith, power_pos k) in
    let odd : (2 ^ suc k - 1) % 2 ≡ 1 = omega (arith, power_pos k) in
    let whole : common n (suc a / 2) (2 ^ k - 1) * 2 + min (suc a % 2) 1 ≡ suc a % (2 ^ k * 2) =
      omega (arith, rest, mod_double (suc a) (2 ^ k) (power_pos k)) in
    let double : 2 ^ suc k ≡ 2 ^ k * 2 = omega arith in rw (half, odd, double) whole

-- `a & (2^k - 1)` is the remainder by `2^k`.
pub bit_and_mask : (k a : ℕ) → bit_and a (2 ^ k - 1) ≡ a % 2 ^ k
bit_and_mask k a = bit_and-bitwise a (2 ^ k - 1) ∙ common_ones k a a (omega arith)

-- Indices less than a ring apart have different slots.
pub mod_apart : (c i d : ℕ) → 0 < d → d < c → (i + d) % c ≢ i % c
mod_apart c i d pos low e =
    let within : i % c < c = mod-lt i (omega arith) in
    let same : (i % c + d) % c ≡ i % c = mod-add-mod i c d ∙ e in
    elim (Bool-cases (ltb (i % c + d) c)) [
      | inl h ↦ let k = ltb→lt (i % c + d) c h in omega (arith, same, mod-eq_of_lt k)
      | inr h ↦
          let le : c ≤ i % c + d = ground (arith) in
          let k : i % c + d - c < c = omega arith in
          omega (arith, same, mod-eq-sub-mod le, mod-eq_of_lt k)
    ]
