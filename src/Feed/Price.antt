-- ===== src/Feed/Price.antt =====
-- feed/fix_serializer.cpp: `format_price`, which `parse_price` of feed/l3_feed_parser.cpp reads back.
use hft_orderbook_engine.Base.{
  ℕ, zero, suc, ◌-◌, ◌/◌, ◌%◌, ◌<◌, ◌≡◌, refl, sym, ◌∙◌, ap, true, false, some, [], ◌∷◌, ◌++◌, ◌==◌,
  arith, length, has, has-append,
}
use hft_orderbook_engine.Base.Int.{ℤ, pos, negsuc, ◌-ℤ◌}
use hft_orderbook_engine.Feed.{
  Bytes, price_scale, is_digit, all_digits, split_point, digits_from, fraction_from, combine,
  parse_unsigned, or_zero, parse_price,
}
use hft_orderbook_engine.Feed.Decimal.{
  print, pad, digits_from-print, digits_from-pad_from, print-all_digits, length-pad, length-print,
  fraction_from-all, Printed, print-Printed, has-print, all_digits-has, all_digits-pad_from,
}

-- The number without its sign, with eight decimals.
unfoldable pub format_unsigned : ℕ → Bytes
format_unsigned n = print (n / price_scale) ++ (b'.' ∷ pad 8 (print (n % price_scale)))

-- The price is an unbounded integer; in the source the negation of INT64_MIN overflows.
unfoldable pub format_price : ℤ → Bytes
unfolding format_unsigned
format_price (pos zero) = b'0' ∷ b'.' ∷ b'0' ∷ b'0' ∷ b'0' ∷ b'0' ∷ b'0' ∷ b'0' ∷ b'0' ∷ b'0' ∷ []
format_price (pos (suc n)) = format_unsigned (suc n)
format_price (negsuc n) = b'-' ∷ format_unsigned (suc n)

split_point-digits :
    (cs ds : Bytes) → all_digits cs ≡ true → split_point (cs ++ b'.' ∷ ds) ≡ (cs, some ds)
split_point-digits [] ds h = refl
split_point-digits (c ∷ cs) ds h =
    let other : (c == 0x2E) ≡ false = ground arith in
    rw (other, split_point-digits cs ds (ground arith)) refl

fraction_from-pad : (f : ℕ) → f < price_scale → fraction_from 8 0 (pad 8 (print f)) ≡ some f
fraction_from-pad f h =
    let eight = length-pad 8 (print f) (length-print 7 f h) in
    ap (λ w. fraction_from w 0 (pad 8 (print f))) (sym eight)
    ∙ fraction_from-all 0 (pad 8 (print f))
    ∙ digits_from-pad_from (8 - length (print f)) (print f)
    ∙ digits_from-print f

parse_unsigned-cons :
    (s ds : Bytes) (p : Printed s)
    → all_digits s ≡ true
    → parse_unsigned (s ++ b'.' ∷ ds) ≡ combine (digits_from 0 s) (fraction_from 8 0 ds)
unfolding parse_unsigned
parse_unsigned-cons [] ds p h = absurd (cc p.made)
parse_unsigned-cons (c ∷ cs) ds p h = rw (split_point-digits (c ∷ cs) ds h) refl

pub parse_unsigned-format : (n : ℕ) → parse_unsigned (format_unsigned n) ≡ some n
unfolding format_unsigned
parse_unsigned-format n =
    parse_unsigned-cons (print (n / price_scale)) _ (print-Printed (n / price_scale))
      (print-all_digits (n / price_scale))
    ∙ rw (digits_from-print (n / price_scale), fraction_from-pad (n % price_scale) (omega arith))
        (ground arith)

-- A number that starts with a digit has no sign.
parse_price-Printed :
    (s ds : Bytes) (p : Printed s)
    → parse_price (s ++ ds) ≡ pos (or_zero (parse_unsigned (s ++ ds)))
unfolding parse_price
parse_price-Printed [] ds p = absurd (cc p.made)
parse_price-Printed (c ∷ cs) ds p =
    let digit : is_digit c ≡ true = ground (arith, p.made, p.digit) in
    let minus : (c == 0x2D) ≡ false = ground arith in
    let plus : (c == 0x2B) ≡ false = ground arith in rw (minus, plus) refl

-- A price that is printed with its eight decimals is read back, whatever its sign.
pub parse_price-format_price : (p : ℤ) → parse_price (format_price p) ≡ p
unfolding format_price
parse_price-format_price (pos zero) =
    unfold parse_price parse_unsigned digits_from fraction_from in refl
parse_price-format_price (pos (suc n)) =
    unfold format_unsigned in
    parse_price-Printed (print (suc n / price_scale)) _ (print-Printed (suc n / price_scale))
    ∙ ap (λ x. pos (or_zero x)) (parse_unsigned-format (suc n))
parse_price-format_price (negsuc n) =
    unfold parse_price ◌-ℤ◌ in rw (parse_unsigned-format (suc n)) (ground arith)

module _ (x : ℕ) (digit : is_digit x ≡ false) (point : (x == b'.') ≡ false) where
  has-format_unsigned : (n : ℕ) → has x (format_unsigned n) ≡ false
  unfolding format_unsigned
  has-format_unsigned n =
      let whole = has-print x (n / price_scale) digit in
      let padded = all_digits-has x (pad 8 (print (n % price_scale))) digit (
        all_digits-pad_from (8 - length (print (n % price_scale))) (print (n % price_scale))
          (print-all_digits (n % price_scale))) in
      has-append x (print (n / price_scale)) _ ∙ rw (whole, point, padded) refl

  -- A printed price has only digits, a point and a sign.
  pub has-format_price : (p : ℤ) → (x == b'-') ≡ false → has x (format_price p) ≡ false
  unfolding format_price
  has-format_price (pos zero) h =
      let zero : (x == b'0') ≡ false = ground arith in rw (zero, point) refl
  has-format_price (pos (suc n)) h = has-format_unsigned (suc n)
  has-format_price (negsuc n) h = rw (h, has-format_unsigned (suc n)) refl
