-- ===== src/Feed/Fix/Sum.antt =====
-- What `FixParser::validate_checksum` of fix_parser.cpp has tested.
use mathlib.Core.List.{append_assoc}
use hft_orderbook_engine.Base.{
  ℕ, ◌+◌, ◌%◌, ◌≡◌, refl, sym, ◌∙◌, ap, Bool, true, false, some, [], ◌∷◌, ◌++◌, ◌==◌, length,
  length-append, has, arith, Bool-cases, Option-cases, inl, inr, u32_mod,
}
use hft_orderbook_engine.Base.Int.{pos}
use hft_orderbook_engine.Feed.{Bytes, digits_from}
use hft_orderbook_engine.Feed.Lines.{is_empty}
use hft_orderbook_engine.Feed.Text.{starts_with, find, take, drop, take_until}
use hft_orderbook_engine.Feed.Fix.Parser.{
  tag_10, parse_int, int_of, sum_from, compute_checksum, is_sum, checksum_at, detect_delimiter,
  validate_checksum,
}
use hft_orderbook_engine.Feed.Fix.Frame.{take-append, drop-append}

-- The sum of the bytes.
abbrev pub total : Bytes → ℕ
total [] = 0
total (c ∷ cs) = c + total cs

abbrev pub starts_or_ends : ℕ → Bytes → Bool
starts_or_ends delim [] = true
starts_or_ends delim (c ∷ cs) = c == delim

-- Behind the first delimiter that "10=" follows, up to the next delimiter or the end, stands in decimal
-- digits the sum modulo 256 of the bytes up to and with that first delimiter.
pub record HasRightSum (delim : ℕ) (raw : Bytes) : Type 0 where
  pub before : Bytes
  pub text : Bytes
  pub rest : Bytes
  pub bytes : raw ≡ before ++ (delim ∷ (tag_10 ++ (text ++ rest)))
  pub first : find (delim ∷ tag_10) raw ≡ some (length before)
  pub field : has delim text ≡ false
  pub end : starts_or_ends delim rest ≡ true
  pub given : is_empty text ≡ false
  pub right : digits_from 0 text ≡ some (total (before ++ delim ∷ []) % 256)

starts_with-split : (p text : Bytes) → starts_with p text ≡ true → text ≡ p ++ drop (length p) text
starts_with-split [] text h = refl
starts_with-split (p ∷ ps) [] h = cc
starts_with-split (p ∷ ps) (c ∷ cs) h =
    let same : c ≡ p = ground (arith, h) in
    let more : starts_with ps cs ≡ true = ground (arith, h) in
    ap (λ x. x ∷ cs) same ∙ ap (λ xs. p ∷ xs) (starts_with-split ps cs more)

-- A pattern stands where it is found.
find-split :
    (p text : Bytes) (at : ℕ)
    → find p text ≡ some at
    → (before after : Bytes) × (text ≡ before ++ (p ++ after)) × (length before ≡ at)
find-split p [] at h = cc
find-split p (c ∷ cs) at h = elim (Bool-cases (starts_with p (c ∷ cs))) [
  | inl here ↦
      let zero_at : 0 ≡ at = cc (h, here) in
      ([], drop (length p) (c ∷ cs), starts_with-split p (c ∷ cs) here, zero_at)
  | inr other ↦ elim (Option-cases (find p cs)) [
    | inl none_at ↦ absurd (cc (h, other, none_at))
    | inr (k, found) ↦
        let (before, after, split, long) = find-split p cs k found in
        let at_k : 1 + k ≡ at = cc (h, other, found) in
        (c ∷ before, after, ap (λ xs. c ∷ xs) split, omega (arith, long, at_k))
  ]
]

take_until-split :
    (c : ℕ) (text : Bytes)
    → (rest : Bytes) × (text ≡ take_until c text ++ rest)
      × (has c (take_until c text) ≡ false)
      × (starts_or_ends c rest ≡ true)
take_until-split c [] = ([], refl, refl, refl)
take_until-split c (b ∷ bs) = elim (Bool-cases (b == c)) [
  | inl e ↦ rw e (b ∷ bs, refl, refl, e)
  | inr e ↦
      let (rest, split, free, ends) = take_until-split c bs in
      let apart : (c == b) ≡ false = ground (arith, e) in
      rw e (rest, ap (λ xs. b ∷ xs) split, rw apart free, ends)
]

sum_from-total : (n : ℕ) (bytes : Bytes) → sum_from n bytes % 256 ≡ (n + total bytes) % 256
sum_from-total n [] = omega arith
sum_from-total n (c ∷ cs) = omega (arith, sum_from-total ((n + c) % u32_mod) cs)

compute_checksum-total : (bytes : Bytes) → compute_checksum bytes ≡ total bytes % 256
unfolding compute_checksum
compute_checksum-total bytes = sum_from-total 0 bytes ∙ omega arith

is_sum-digits :
    (text : Bytes) (sum : ℕ)
    → is_sum (parse_int text) sum ≡ true
    → (is_empty text ≡ false) × (digits_from 0 text ≡ some sum)
unfolding parse_int
is_sum-digits [] sum h = cc
is_sum-digits (c ∷ cs) sum h = elim (Option-cases (digits_from 0 (c ∷ cs))) [
  | inl none_read ↦ absurd (cc (h, none_read))
  | inr (n, read) ↦
      let test : is_sum (pos n) sum ≡ true = ap (λ o. is_sum (int_of o) sum) (sym read) ∙ h in
      (refl, read ∙ ap some (ground (arith, test)))
]

module _ (delim : ℕ) (raw : Bytes) where
  -- The test at the place where tag 10 is found.
  checksum_at-HasRightSum :
      (at : ℕ)
      → find (delim ∷ tag_10) raw ≡ some at
      → checksum_at delim raw (some at) ≡ true
      → HasRightSum delim raw
  checksum_at-HasRightSum at found h =
      let (before, after, split, long) = find-split (delim ∷ tag_10) raw at found in
      let (rest, more, free, ends) = take_until-split delim after in
      let upto : raw ≡ (before ++ delim ∷ []) ++ (tag_10 ++ after) =
        split ∙ sym (append_assoc before (delim ∷ []) (tag_10 ++ after)) in
      let head_length : at + 1 ≡ length (before ++ delim ∷ []) =
        omega (arith, long, length-append before (delim ∷ [])) in
      let head : take (at + 1) raw ≡ before ++ delim ∷ [] =
        ap (λ n. take n raw) head_length
        ∙ ap (take (length (before ++ delim ∷ []))) upto
        ∙ take-append (before ++ delim ∷ []) (tag_10 ++ after) in
      let whole : raw ≡ (before ++ (delim ∷ tag_10)) ++ after =
        split ∙ sym (append_assoc before (delim ∷ tag_10) after) in
      let tail_length : at + 4 ≡ length (before ++ (delim ∷ tag_10)) =
        omega (arith, long, length-append before (delim ∷ tag_10)) in
      let tail : drop (at + 4) raw ≡ after =
        ap (λ n. drop n raw) tail_length
        ∙ ap (drop (length (before ++ (delim ∷ tag_10)))) whole
        ∙ drop-append (before ++ (delim ∷ tag_10)) after in
      let test : is_sum (parse_int (take_until delim after))
            (compute_checksum (before ++ delim ∷ []))
          ≡ true =
        ap (λ t. is_sum (parse_int (take_until delim t)) (compute_checksum (before ++ delim ∷ [])))
          (sym tail)
        ∙ ap (λ t. is_sum (parse_int (take_until delim (drop (at + 4) raw))) (compute_checksum t))
            (sym head)
        ∙ h in
      let (given, digits) =
        is_sum-digits (take_until delim after) (compute_checksum (before ++ delim ∷ [])) test in
      record {
        before = before;
        text = take_until delim after;
        rest = rest;
        bytes = split ∙ ap (λ t. before ++ (delim ∷ (tag_10 ++ t))) more;
        first = found ∙ ap some (sym long);
        field = free;
        end = ends;
        given = given;
        right = digits ∙ ap some (compute_checksum-total (before ++ delim ∷ []));
      }

  checksum_at_found :
      checksum_at delim raw (find (delim ∷ tag_10) raw) ≡ true → HasRightSum delim raw
  checksum_at_found h = elim (Option-cases (find (delim ∷ tag_10) raw)) [
    | inl missing ↦ absurd (cc (h, ap (checksum_at delim raw) missing))
    | inr (at, found) ↦
        checksum_at-HasRightSum at found (ap (checksum_at delim raw) (sym found) ∙ h)
  ]

-- A checksum that is accepted is right.
pub validate_checksum-HasRightSum :
    (raw : Bytes) → validate_checksum raw ≡ true → HasRightSum (detect_delimiter raw) raw
unfolding validate_checksum
validate_checksum-HasRightSum raw h = checksum_at_found (detect_delimiter raw) raw h
