-- ===== src/Feed/Decimal.antt =====
-- `std::to_string` of a natural number, padding with zeros, and `parse_quantity`, which reads what is
-- printed.
use hft_orderbook_engine.Base.{
  ℕ, zero, suc, ◌+◌, ◌-◌, ◌*◌, ◌/◌, ◌%◌, ◌≤◌, ◌<◌, ◌≡◌, refl, ◌∙◌, true, [], ◌∷◌, ◌++◌, ltb, arith,
  if◌then◌else◌, u64_mod, Bool-cases, inl, inr, ltb→lt, lt→ltb, none, some, ap, has, false, length,
  length-append,
}
use hft_orderbook_engine.Feed.{
  Bytes, is_digit, all_digits, digits_from, fraction_from, quantity_from, parse_quantity,
}

-- The decimal digits of a number, on fuel.
abbrev pub print_from : ℕ → ℕ → Bytes
print_from zero n = []
print_from (suc fuel) n =
    if ltb n 10 then (0x30 + n) ∷ [] else print_from fuel (n / 10) ++ (0x30 + n % 10) ∷ []

abbrev pub print : ℕ → Bytes
print n = print_from (suc n) n

quantity_from-snoc :
    (n : ℕ) (cs : Bytes) (d : ℕ)
    → d < 10
    → all_digits cs ≡ true
    → quantity_from n (cs ++ (0x30 + d) ∷ []) ≡ (quantity_from n cs * 10 + d) % u64_mod
unfolding quantity_from
quantity_from-snoc n [] d h k =
    let digit : is_digit (0x30 + d) ≡ true = ground arith in rw digit (omega arith)
quantity_from-snoc n (c ∷ cs) d h k =
    let digit : is_digit c ≡ true = ground arith in
    rw digit (quantity_from-snoc ((n * 10 + (c - 0x30)) % u64_mod) cs d h (ground arith))

all_digits-append :
    (cs ds : Bytes) → all_digits cs ≡ true → all_digits ds ≡ true → all_digits (cs ++ ds) ≡ true
all_digits-append [] ds h k = k
all_digits-append (c ∷ cs) ds h k = ground (arith, all_digits-append cs ds)

print_from-all_digits : (fuel n : ℕ) → all_digits (print_from fuel n) ≡ true
print_from-all_digits zero n = refl
print_from-all_digits (suc fuel) n = elim (Bool-cases (ltb n 10)) [
  | inl h ↦ rw h (ground (arith, ltb→lt n 10 h))
  | inr h ↦ rw h (
      all_digits-append (print_from fuel (n / 10)) ((0x30 + n % 10) ∷ [])
        (print_from-all_digits fuel (n / 10)) (ground arith))
]

print_from-read : (fuel n : ℕ) → n < fuel → n < u64_mod → quantity_from 0 (print_from fuel n) ≡ n
unfolding quantity_from
print_from-read zero n low fits = absurd (omega arith)
print_from-read (suc fuel) n low fits = elim (Bool-cases (ltb n 10)) [
  | inl h ↦ let small = ltb→lt n 10 h in rw h (quantity_from-snoc 0 [] n small refl ∙ omega arith)
  | inr h ↦
      let large : 10 ≤ n = ground arith in
      let rest = print_from-read fuel (n / 10) (omega arith) (omega arith) in
      rw h (
        quantity_from-snoc 0 (print_from fuel (n / 10)) (n % 10) (omega arith)
          (print_from-all_digits fuel (n / 10))
        ∙ omega (arith, rest))
]

-- The quantity printed in decimal digits is read back.
pub parse_quantity-print : (n : ℕ) → n < u64_mod → parse_quantity (print n) ≡ n
unfolding parse_quantity
parse_quantity-print n fits = print_from-read (suc n) n (omega arith) fits

-- `while (size < w) insert('0')`, with the zeros that are left.
abbrev pub pad_from : ℕ → Bytes → Bytes
pad_from zero s = s
pad_from (suc k) s = pad_from k (0x30 ∷ s)

abbrev pub pad : ℕ → Bytes → Bytes
pad w s = pad_from (w - length s) s

digits_from-append :
    (n m : ℕ) (cs ds : Bytes)
    → digits_from n cs ≡ some m
    → digits_from n (cs ++ ds) ≡ digits_from m ds
unfolding digits_from
digits_from-append n m [] ds h = ground arith
digits_from-append n m (c ∷ cs) ds h =
    ground (arith, digits_from-append (n * 10 + (c - 0x30)) m cs ds)

print_from-digits : (fuel n : ℕ) → n < fuel → digits_from 0 (print_from fuel n) ≡ some n
unfolding digits_from
print_from-digits zero n low = absurd (omega arith)
print_from-digits (suc fuel) n low = elim (Bool-cases (ltb n 10)) [
  | inl h ↦ rw h (ground (arith, ltb→lt n 10 h))
  | inr h ↦
      let large : 10 ≤ n = ground arith in
      rw h (
        digits_from-append 0 (n / 10) (print_from fuel (n / 10)) ((0x30 + n % 10) ∷ [])
          (print_from-digits fuel (n / 10) (omega arith))
        ∙ ground arith)
]

pub digits_from-print : (n : ℕ) → digits_from 0 (print n) ≡ some n
digits_from-print n = print_from-digits (suc n) n (omega arith)

pub print-all_digits : (n : ℕ) → all_digits (print n) ≡ true
print-all_digits n = print_from-all_digits (suc n) n

pub digits_from-pad_from : (k : ℕ) (s : Bytes) → digits_from 0 (pad_from k s) ≡ digits_from 0 s
unfolding digits_from
digits_from-pad_from zero s = refl
digits_from-pad_from (suc k) s = digits_from-pad_from k (0x30 ∷ s)

pub all_digits-pad_from :
    (k : ℕ) (s : Bytes) → all_digits s ≡ true → all_digits (pad_from k s) ≡ true
all_digits-pad_from zero s h = h
all_digits-pad_from (suc k) s h = all_digits-pad_from k (0x30 ∷ s) h

length-pad_from : (k : ℕ) (s : Bytes) → length (pad_from k s) ≡ k + length s
length-pad_from zero s = omega arith
length-pad_from (suc k) s = omega (arith, length-pad_from k (0x30 ∷ s))

pub length-pad : (w : ℕ) (s : Bytes) → length s ≤ w → length (pad w s) ≡ w
length-pad w s h = omega (arith, length-pad_from (w - length s) s)

-- The powers of ten, as factors.
abbrev pub tens : ℕ → ℕ
tens zero = 1
tens (suc k) = 10 * tens k

length-print_from : (k fuel n : ℕ) → n < tens (suc k) → length (print_from fuel n) ≤ suc k
length-print_from k zero n h = omega arith
length-print_from zero (suc fuel) n h = rw (lt→ltb n 10 (omega arith)) (omega arith)
length-print_from (suc k) (suc fuel) n h = elim (Bool-cases (ltb n 10)) [
  | inl e ↦ rw e (omega arith)
  | inr e ↦ rw e (
      omega (
        arith,
        length-print_from k fuel (n / 10) (omega arith),
        length-append (print_from fuel (n / 10)) ((0x30 + n % 10) ∷ []),
      ))
]

-- A number below 10^(k + 1) has at most k + 1 digits.
pub length-print : (k n : ℕ) → n < tens (suc k) → length (print n) ≤ suc k
length-print k n h = length-print_from k (suc n) n h

-- Exactly as many digits as are left are read as a number.
pub fraction_from-all : (n : ℕ) (cs : Bytes) → fraction_from (length cs) n cs ≡ digits_from n cs
unfolding digits_from fraction_from
fraction_from-all n [] = refl
fraction_from-all n (c ∷ cs) =
    ap (λ x. if is_digit c then x else none) (fraction_from-all (n * 10 + (c - 0x30)) cs)

-- A printed number starts with a digit.
pub record Printed (s : Bytes) : Type 0 where
  pub lead : ℕ
  pub others : Bytes
  pub made : s ≡ lead ∷ others
  pub digit : is_digit lead ≡ true

print_from-Printed : (fuel n : ℕ) → Printed (print_from (suc fuel) n)
print_from-Printed zero n = elim (Bool-cases (ltb n 10)) [
  | inl e ↦ record {
    lead = 0x30 + n;
    others = [];
    made = rw e refl;
    digit = ground (arith, ltb→lt n 10 e);
  }
  | inr e ↦ record { lead = 0x30 + n % 10; others = []; made = rw e refl; digit = ground arith }
]
print_from-Printed (suc fuel) n = elim (Bool-cases (ltb n 10)) [
  | inl e ↦ record {
    lead = 0x30 + n;
    others = [];
    made = rw e refl;
    digit = ground (arith, ltb→lt n 10 e);
  }
  | inr e ↦
      let p = print_from-Printed fuel (n / 10) in
      record {
        lead = p.lead;
        others = p.others ++ (0x30 + n % 10) ∷ [];
        made = rw e (ap (λ s. s ++ (0x30 + n % 10) ∷ []) p.made);
        digit = p.digit;
      }
]

pub print-Printed : (n : ℕ) → Printed (print n)
print-Printed n = print_from-Printed n n

pub all_digits-has :
    (x : ℕ) (cs : Bytes) → is_digit x ≡ false → all_digits cs ≡ true → has x cs ≡ false
all_digits-has x [] d h = refl
all_digits-has x (c ∷ cs) d h = ground (arith, all_digits-has x cs)

pub has-print : (x n : ℕ) → is_digit x ≡ false → has x (print n) ≡ false
has-print x n d = all_digits-has x (print n) d (print-all_digits n)
