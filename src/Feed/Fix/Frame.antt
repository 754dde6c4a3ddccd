-- ===== src/Feed/Fix/Frame.antt =====
-- The checksum and the body length of a message, as `wrap_message` of fix_serializer.cpp writes them
-- and as fix_parser.cpp looks for them.
use mathlib.Core.List.{append_assoc, append-nil}
use hft_orderbook_engine.Base.{
  ℕ, zero, suc, ◌+◌, ◌-◌, ◌≤◌, ◌≡◌, refl, sym, ◌∙◌, ap, true, false, Option, none, some, List, [],
  ◌∷◌, ◌++◌, ◌==◌, length, length-append, has, arith,
}
use hft_orderbook_engine.Base.Int.{pos}
use hft_orderbook_engine.Feed.{Bytes, is_digit}
use hft_orderbook_engine.Feed.Decimal.{
  print, pad, pad_from, digits_from-print, digits_from-pad_from, all_digits-has,
  all_digits-pad_from, print-all_digits,
}
use hft_orderbook_engine.Feed.Lines.{is_empty}
use hft_orderbook_engine.Feed.Lines.Print.{is_empty-print}
use hft_orderbook_engine.Feed.Text.{shifted, find, find_from, take, drop, take_until}
use hft_orderbook_engine.Feed.Fix.Parser.{
  tag_9, tag_10, parse_int, int_of, compute_checksum, checksum_at, body_end, actual_body_length,
  detect_delimiter, validate_checksum,
}
use hft_orderbook_engine.Feed.Fix.Serializer.{encode, begin_string, checksum_text}
use hft_orderbook_engine.Feed.Fix.Tags.{
  AreFields, parse_int-digits, has-field, encode-cons, encode-field,
}

shifted_add : (k m : ℕ) (o : Option ℕ) → shifted k (shifted m o) ≡ shifted (k + m) o
shifted_add k m none = refl
shifted_add k m (some n) = ground arith

shifted_zero : (o : Option ℕ) → shifted 0 o ≡ o
shifted_zero none = refl
shifted_zero (some n) = ground arith

-- A pattern that starts with the delimiter does not start in a field.
pub find-skip :
    (delim : ℕ) (p f rest : Bytes)
    → has delim f ≡ false
    → find (delim ∷ p) (f ++ rest) ≡ shifted (length f) (find (delim ∷ p) rest)
find-skip delim p [] rest h = sym (shifted_zero (find (delim ∷ p) rest))
find-skip delim p (c ∷ f) rest h =
    let other : (delim == c) ≡ false = ground arith in
    rw (other, find-skip delim p f rest (ground arith))
      (shifted_add 1 (length f) (find (delim ∷ p) rest)
        ∙ ap (λ k. shifted k (find (delim ∷ p) rest)) (omega arith))

pub take-append : (xs ys : Bytes) → take (length xs) (xs ++ ys) ≡ xs
take-append [] ys = refl
take-append (x ∷ xs) ys = ap (λ z. x ∷ z) (take-append xs ys)

pub drop-append : (xs ys : Bytes) → drop (length xs) (xs ++ ys) ≡ ys
drop-append [] ys = refl
drop-append (x ∷ xs) ys = drop-append xs ys

take_until-field : (c : ℕ) (f rest : Bytes) → has c f ≡ false → take_until c (f ++ (c ∷ rest)) ≡ f
take_until-field c [] rest h = let self : (c == c) ≡ true = ground arith in rw self refl
take_until-field c (b ∷ f) rest h =
    let other : (b == c) ≡ false = ground arith in
    rw (other, take_until-field c f rest (ground arith)) refl

is_empty-pad_from : (k : ℕ) (s : Bytes) → is_empty s ≡ false → is_empty (pad_from k s) ≡ false
is_empty-pad_from zero s h = h
is_empty-pad_from (suc k) s h = is_empty-pad_from k (b'0' ∷ s) refl

pub parse_int-pad : (w n : ℕ) → parse_int (pad w (print n)) ≡ pos n
parse_int-pad w n =
    parse_int-digits (pad w (print n))
      (is_empty-pad_from (w - length (print n)) (print n) (is_empty-print n))
    ∙ ap int_of (digits_from-pad_from (w - length (print n)) (print n) ∙ digits_from-print n)

pub compute_checksum_le : (bytes : Bytes) → compute_checksum bytes ≤ 255
unfolding compute_checksum
compute_checksum_le bytes = omega arith

pub has-checksum_text :
    (delim : ℕ) (bytes : Bytes) → is_digit delim ≡ false → has delim (checksum_text bytes) ≡ false
has-checksum_text delim bytes plain =
    let n = compute_checksum bytes in
    all_digits-has delim (checksum_text bytes) plain
      (all_digits-pad_from (3 - length (print n)) (print n) (print-all_digits n))

suc_add : (a k : ℕ) → suc a + k ≡ suc (a + k)
suc_add a k = omega arith

drop-add : (k : ℕ) (xs ys : Bytes) → drop (length xs + k) (xs ++ ys) ≡ drop k ys
drop-add k [] ys = ap (λ n. drop n ys) (omega arith)
drop-add k (x ∷ xs) ys =
    ap (λ n. drop n (x ∷ (xs ++ ys))) (suc_add (length xs) k) ∙ drop-add k xs ys

-- Where tag 10 stands behind `pre`, the text behind it is the checksum of `pre`.
checksum_at-written :
    (delim : ℕ) (pre : Bytes) (at : ℕ)
    → is_digit delim ≡ false
    → at + 1 ≡ length pre
    → checksum_at delim (pre ++ (tag_10 ++ (checksum_text pre ++ (delim ∷ [])))) (some at) ≡ true
checksum_at-written delim pre at plain e =
    let raw : Bytes = pre ++ (tag_10 ++ (checksum_text pre ++ (delim ∷ []))) in
    let before : take (at + 1) raw ≡ pre = ap (λ n. take n raw) e ∙ take-append pre _ in
    let behind : drop (at + 4) raw ≡ checksum_text pre ++ (delim ∷ []) =
      ap (λ n. drop n raw) (omega (arith, e)) ∙ drop-add 3 pre _ in
    let text : take_until delim (drop (at + 4) raw) ≡ checksum_text pre =
      ap (take_until delim) behind
      ∙ take_until-field delim (checksum_text pre) [] (has-checksum_text delim pre plain) in
    let number : parse_int (take_until delim (drop (at + 4) raw)) ≡ pos (compute_checksum pre) =
      ap parse_int text ∙ parse_int-pad 3 (compute_checksum pre) in
    rw (number, before) (ground (arith, compute_checksum_le pre))

actual_body_length-steps :
    (delim : ℕ) (raw : Bytes) (nine before start last : ℕ)
    → find tag_9 raw ≡ some nine
    → find_from (delim ∷ []) nine raw ≡ some before
    → before + 1 ≡ start
    → find_from (delim ∷ tag_10) start raw ≡ some last
    → actual_body_length delim raw ≡ some (last + 1 - start)
unfolding actual_body_length
actual_body_length-steps delim raw nine before start last e1 e2 e e3 =
    let ends : body_end delim raw (before + 1) ≡ some last =
      ap (body_end delim raw) e ∙ rw (e3, body_end) refl in
    rw (e1, e2, ends) (ap (λ s. some (last + 1 - s)) e)

module _ (delim : ℕ) (plain : is_digit delim ≡ false) (apart : (delim == b'=') ≡ false) where
  length-encode :
      (tag : ℕ) (value : Bytes) (fs : List (ℕ × Bytes))
      → length (encode delim ((tag, value) ∷ fs))
        ≡ length (print tag ++ (b'=' ∷ value)) + suc (length (encode delim fs))
  length-encode tag value fs =
      ap length (sym (append_assoc (print tag) (b'=' ∷ value) (delim ∷ encode delim fs)))
      ∙ length-append (print tag ++ (b'=' ∷ value)) (delim ∷ encode delim fs)

  -- The fields, from the delimiter before them on, hold no tag 10; the first one is behind them.
  find-encode :
      (fs : List (ℕ × Bytes)) (rest : Bytes)
      → AreFields delim fs
      → find (delim ∷ tag_10) (delim ∷ (encode delim fs ++ (tag_10 ++ rest)))
        ≡ some (length (encode delim fs))
  find-encode [] rest h = let self : (delim == delim) ≡ true = ground arith in rw self refl
  find-encode ((tag, value) ∷ fs) rest (small, free, not_10, more) =
      let f : Bytes = print tag ++ (b'=' ∷ value) in
      let tail : Bytes = encode delim fs ++ (tag_10 ++ rest) in
      let word : Bytes = print tag ++ (b'=' ∷ (value ++ (delim ∷ tail))) in
      let self : (delim == delim) ≡ true = ground arith in
      let here : find (delim ∷ tag_10) (delim ∷ word) ≡ shifted 1 (find (delim ∷ tag_10) word) =
        rw (self, not_10 (value ++ (delim ∷ tail))) refl in
      ap (λ x. find (delim ∷ tag_10) (delim ∷ x)) (encode-cons delim tag value fs (tag_10 ++ rest))
      ∙ here
      ∙ ap (shifted 1) (
          ap (find (delim ∷ tag_10)) (sym (append_assoc (print tag) (b'=' ∷ value) (delim ∷ tail)))
          ∙ find-skip delim tag_10 f (delim ∷ tail) (has-field delim plain apart tag value free)
          ∙ ap (shifted (length f)) (find-encode fs rest more))
      ∙ ap some (omega (arith, length-encode tag value fs))

  -- The delimiter before tag 10 is the last byte of the fields.
  pub find-fields :
      (tag : ℕ) (value : Bytes) (fs : List (ℕ × Bytes)) (rest : Bytes)
      → AreFields delim ((tag, value) ∷ fs)
      → find (delim ∷ tag_10) (encode delim ((tag, value) ∷ fs) ++ (tag_10 ++ rest))
        ≡ some (length (encode delim ((tag, value) ∷ fs)) - 1)
  find-fields tag value fs rest (small, free, not_10, more) =
      let f : Bytes = print tag ++ (b'=' ∷ value) in
      ap (find (delim ∷ tag_10)) (encode-field delim tag value fs (tag_10 ++ rest))
      ∙ find-skip delim tag_10 f (delim ∷ (encode delim fs ++ (tag_10 ++ rest)))
          (has-field delim plain apart tag value free)
      ∙ ap (shifted (length f)) (find-encode fs rest more)
      ∙ ap some (omega (arith, length-encode tag value fs))

  -- The checksum that is written is accepted.
  pub validate_checksum-fields :
      (tag : ℕ) (value : Bytes) (fs : List (ℕ × Bytes)) (pre : Bytes)
      → AreFields delim ((tag, value) ∷ fs)
      → pre ≡ encode delim ((tag, value) ∷ fs)
      → detect_delimiter (pre ++ (tag_10 ++ (checksum_text pre ++ (delim ∷ [])))) ≡ delim
      → validate_checksum (pre ++ (tag_10 ++ (checksum_text pre ++ (delim ∷ [])))) ≡ true
  unfolding validate_checksum
  validate_checksum-fields tag value fs pre h e d =
      let tail : Bytes = tag_10 ++ (checksum_text pre ++ (delim ∷ [])) in
      let found : find (delim ∷ tag_10) (pre ++ tail) ≡ some (length pre - 1) =
        ap (λ p. find (delim ∷ tag_10) (p ++ tail)) e
        ∙ find-fields tag value fs (checksum_text pre ++ (delim ∷ [])) h
        ∙ ap (λ p. some (length p - 1)) (sym e) in
      ap (λ k. checksum_at k (pre ++ tail) (find (k ∷ tag_10) (pre ++ tail))) d
      ∙ ap (checksum_at delim (pre ++ tail)) found
      ∙ checksum_at-written delim pre (length pre - 1) plain
          (omega (arith, ap length e, length-encode tag value fs))

  -- A message that starts with the two fields before the body.
  find-tag_9 :
      (value tail : Bytes)
      → find tag_9 (encode delim ((8, begin_string) ∷ (9, value) ∷ []) ++ tail) ≡ some 10
  find-tag_9 value tail = let nine : (b'9' == delim) ≡ false = ground arith in rw nine refl

  find_from-value :
      (value tail : Bytes)
      → has delim value ≡ false
      → find_from (delim ∷ []) 10 (encode delim ((8, begin_string) ∷ (9, value) ∷ []) ++ tail)
        ≡ some (12 + length value)
  find_from-value value tail free =
      let self : (delim == delim) ≡ true = ground arith in
      let nine : Bytes = b'9' ∷ b'=' ∷ value in
      let at_once : find (delim ∷ []) (delim ∷ tail) ≡ some 0 = rw self refl in
      ap (λ x. shifted 10 (find (delim ∷ []) (b'9' ∷ b'=' ∷ x)))
        (append_assoc value (delim ∷ []) tail)
      ∙ ap (shifted 10) (
          find-skip delim [] nine (delim ∷ tail) (has-field delim plain apart 9 value free)
          ∙ ap (shifted (length nine)) at_once)
      ∙ ap some (omega arith)

  -- The length of the body is found: it is what lies between the end of tag 9 and tag 10.
  pub actual_body_length-prefix :
      (value : Bytes) (tag : ℕ) (first : Bytes) (fs : List (ℕ × Bytes)) (rest : Bytes)
      → has delim value ≡ false
      → AreFields delim ((tag, first) ∷ fs)
      → actual_body_length delim (
          encode delim ((8, begin_string) ∷ (9, value) ∷ [])
          ++ (encode delim ((tag, first) ∷ fs) ++ (tag_10 ++ rest)))
        ≡ some (length (encode delim ((tag, first) ∷ fs)))
  unfolding actual_body_length
  actual_body_length-prefix value tag first fs rest free h =
      let body : Bytes = encode delim ((tag, first) ∷ fs) in
      let tail : Bytes = body ++ (tag_10 ++ rest) in
      let pre : Bytes = encode delim ((8, begin_string) ∷ (9, value) ∷ []) in
      let nine : Bytes = b'9' ∷ b'=' ∷ value in
      let start = length pre in
      let long : length pre ≡ 13 + length value =
        omega (arith, ap length (sym (append-nil pre)), length-append value (delim ∷ [])) in
      let ends : find_from (delim ∷ tag_10) start (pre ++ tail) ≡ some (start + (length body - 1)) =
        ap (λ x. shifted start (find (delim ∷ tag_10) x)) (drop-append pre tail)
        ∙ ap (shifted start) (find-fields tag first fs rest h) in
      actual_body_length-steps delim (pre ++ tail) 10 (start - 1) start (start + (length body - 1))
        (find-tag_9 value tail) (find_from-value value tail free ∙ ap some (omega (arith, long)))
        (omega (arith, long)) ends
      ∙ ap some (omega (arith, long, length-encode tag first fs))
