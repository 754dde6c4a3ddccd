-- ===== src/Feed/Lines/Print.antt =====
-- A line of the L3 file as a writer prints it, and its way back through `parse_line`.
use hft_orderbook_engine.Base.{
  ℕ, zero, suc, ◌+◌, ◌-◌, ◌*◌, ◌%◌, ◌/◌, ◌<◌, ◌≡◌, refl, ◌∙◌, ap, true, false, none, some, List, [],
  ◌∷◌, ◌++◌, ◌==◌, u64_mod, has, arith,
}
use hft_orderbook_engine.Base.Int.{ℤ, pos, negsuc}
use hft_orderbook_engine.Core.{Side, buy, sell}
use hft_orderbook_engine.Feed.{
  Bytes, L3EventType, add, cancel, trade, modify, invalid, L3Record, comma, parse_side,
  parse_quantity, quantity_from, is_digit, all_digits, price_scale,
}
use hft_orderbook_engine.Feed.Csv.{join_csv}
use hft_orderbook_engine.Feed.Decimal.{
  print, print-all_digits, print-Printed, Printed, parse_quantity-print,
}
use hft_orderbook_engine.Feed.Price.{format_price, format_unsigned}
use hft_orderbook_engine.Feed.Lines.{is_empty, number_from, is_zero_ℤ}

abbrev pub side_text : Side → Bytes
side_text buy = b'B' ∷ b'U' ∷ b'Y' ∷ []
side_text sell = b'S' ∷ b'E' ∷ b'L' ∷ b'L' ∷ []

-- The columns after the time.
abbrev pub columns : L3Record → L3EventType → List Bytes
columns r add =
    (b'A' ∷ b'D' ∷ b'D' ∷ [])
    ∷ print r.order_id
    ∷ side_text r.side
    ∷ format_price r.price
    ∷ print r.quantity
    ∷ []
columns r modify =
    (b'M' ∷ b'O' ∷ b'D' ∷ b'I' ∷ b'F' ∷ b'Y' ∷ [])
    ∷ print r.order_id
    ∷ side_text r.side
    ∷ format_price r.price
    ∷ print r.quantity
    ∷ []
columns r cancel =
    (b'C' ∷ b'A' ∷ b'N' ∷ b'C' ∷ b'E' ∷ b'L' ∷ []) ∷ print r.order_id ∷ [] ∷ [] ∷ [] ∷ []
columns r trade =
    (b'T' ∷ b'R' ∷ b'A' ∷ b'D' ∷ b'E' ∷ [])
    ∷ []
    ∷ side_text r.side
    ∷ format_price r.price
    ∷ print r.quantity
    ∷ []
columns r invalid = []

-- The line of a record below a symbol column, unless the symbol is empty.
abbrev pub line_with : Bytes → L3Record → Bytes
line_with [] r = join_csv (print r.timestamp) (columns r r.event_type)
line_with symbol r = join_csv symbol (print r.timestamp ∷ columns r r.event_type)

abbrev pub line_of : L3Record → Bytes
line_of r = line_with r.symbol r

number_from-quantity_from :
    (n : ℕ) (cs : Bytes) → all_digits cs ≡ true → number_from n cs ≡ (quantity_from n cs, true)
unfolding number_from quantity_from
number_from-quantity_from n [] h = refl
number_from-quantity_from n (c ∷ cs) h =
    let digit : is_digit c ≡ true = ground arith in
    rw digit (number_from-quantity_from ((n * 10 + (c - 0x30)) % u64_mod) cs (ground arith))

read_quantity_text : (n : ℕ) → n < u64_mod → quantity_from 0 (print n) ≡ n
unfolding parse_quantity
read_quantity_text n h = parse_quantity-print n h

pub number_from-print : (n : ℕ) → n < u64_mod → number_from 0 (print n) ≡ (n, true)
number_from-print n h =
    number_from-quantity_from 0 (print n) (print-all_digits n)
    ∙ ap (λ x. (x, true)) (read_quantity_text n h)

is_empty-Printed : (s : Bytes) → Printed s → is_empty s ≡ false
is_empty-Printed [] p = absurd (cc p.made)
is_empty-Printed (c ∷ cs) p = refl

pub is_empty-print : (n : ℕ) → is_empty (print n) ≡ false
is_empty-print n = is_empty-Printed (print n) (print-Printed n)

-- The records that a writer may print: what their columns leave out has its default.
abbrev pub Columns : L3Record → L3EventType → Type 0
Columns r add =
    (r.order_id < u64_mod)
    × (is_zero_ℤ r.price ≡ false)
    × (r.quantity < u64_mod)
    × ((r.quantity == 0) ≡ false)
Columns r modify =
    (r.order_id < u64_mod)
    × (is_zero_ℤ r.price ≡ false)
    × (r.quantity < u64_mod)
    × ((r.quantity == 0) ≡ false)
Columns r cancel = (r.order_id < u64_mod) × (r.side ≡ buy) × (r.price ≡ pos 0) × (r.quantity ≡ 0)
Columns r trade = (r.order_id ≡ 0) × (r.quantity < u64_mod)
Columns r invalid = ⊥

abbrev pub IsSymbol : Bytes → Type 0
IsSymbol [] = Unit
IsSymbol (c ∷ cs) = (is_digit c ≡ false) × (has comma (c ∷ cs) ≡ false)

pub record IsWritten (r : L3Record) : Type 0 where
  pub time : r.timestamp < u64_mod
  pub columns : Columns r r.event_type
  pub symbol : IsSymbol r.symbol
  pub valid : r.valid ≡ true
  pub error : r.error ≡ none

pub parse_side-side_text : (d : Side) → parse_side (side_text d) ≡ some d
unfolding parse_side
parse_side-side_text buy = refl
parse_side-side_text sell = refl

pub is_empty-side_text : (d : Side) → is_empty (side_text d) ≡ false
is_empty-side_text buy = refl
is_empty-side_text sell = refl

is_empty_append : (s t : Bytes) → is_empty s ≡ false → is_empty (s ++ t) ≡ false
is_empty_append [] t h = absurd (cc)
is_empty_append (c ∷ s) t h = refl

pub is_empty-format_price : (p : ℤ) → is_empty (format_price p) ≡ false
unfolding format_price format_unsigned
is_empty-format_price (pos zero) = refl
is_empty-format_price (pos (suc n)) =
    is_empty_append (print (suc n / price_scale)) _ (is_empty-print (suc n / price_scale))
is_empty-format_price (negsuc n) = refl
