-- ===== src/Feed/Lines.antt =====
-- feed/l3_feed_parser.cpp: a line of the file as a record, and the stream of records. The file is
-- the list of its lines, as `std::getline` cuts them.
pub mod Print
pub mod RoundTrip
pub mod Sound
use hft_orderbook_engine.Base.{
  ℕ, zero, suc, ◌+◌, ◌-◌, ◌*◌, ◌%◌, ◌^◌, Bool, true, false, not, ◌&&◌, ◌||◌, Option, none, some,
  List, [], ◌∷◌, ◌==◌, ltb, leb, if◌then◌else◌, u64_mod, add64, length,
}
use hft_orderbook_engine.Base.Int.{ℤ, pos, negsuc}
use hft_orderbook_engine.Core.{Side, buy, sell}
use hft_orderbook_engine.Feed.{
  Bytes, L3EventType, add, cancel, trade, modify, invalid, L3Error, too_few_fields, empty_timestamp,
  invalid_timestamp, missing_event_type, invalid_order_id, requires_fields, requires_order_id,
  invalid_event_type, invalid_side, invalid_price, invalid_quantity, L3Record, split_csv,
  parse_event_type, parse_side, parse_price, parse_quantity, is_digit,
}

abbrev pub is_empty : Bytes → Bool
is_empty [] = true
is_empty (c ∷ cs) = false

-- A field by its number; the code looks only at fields that are there.
abbrev pub field : List Bytes → ℕ → Bytes
field [] i = []
field (f ∷ fs) zero = f
field (f ∷ fs) (suc i) = field fs i

abbrev pub blank : L3Record
blank = record {
  timestamp = 0;
  event_type = add;
  order_id = 0;
  side = buy;
  price = pos 0;
  quantity = 0;
  symbol = [];
  valid = false;
  error = none;
}

abbrev pub failed : L3Record → L3Error → L3Record
failed r e = record r { error = some e }

-- A number of 64 bits, digit by digit: what is read, and whether all bytes were digits.
unfoldable pub number_from : ℕ → Bytes → ℕ × Bool
number_from n [] = (n, true)
number_from n (c ∷ cs) =
    let rest = number_from ((n * 10 + (c - 0x30)) % u64_mod) cs in
    if is_digit c then rest else (n, false)

abbrev pub is_zero_ℤ : ℤ → Bool
is_zero_ℤ (pos n) = n == 0
is_zero_ℤ (negsuc n) = false

-- Is the text "0"?
abbrev pub is_zero_text : Bytes → Bool
is_zero_text (c ∷ []) = c == 0x30
is_zero_text _ = false

unfoldable pub read_order_id :
    L3EventType → List Bytes → ℕ → L3Record → (L3Record → L3Record) → L3Record
read_order_id type fields offset r next =
    let id = field fields (offset + 2) in
    let (n, digits) = number_from 0 id in
    if is_empty id
    then failed (record r { order_id = 0 }) (requires_order_id type)
    else if digits
    then next (record r { order_id = n })
    else failed (record r { order_id = n }) invalid_order_id

unfoldable pub read_quantity : List Bytes → ℕ → L3Record → L3Record
read_quantity fields offset r =
    let qty = field fields (offset + 5) in
    let r' = record r { quantity = parse_quantity qty } in
    if parse_quantity qty == 0 then failed r' (invalid_quantity qty) else record r' { valid = true }

unfoldable pub read_price : List Bytes → ℕ → L3Record → L3Record
read_price fields offset r =
    let px = field fields (offset + 4) in
    let r' = record r { price = parse_price px } in
    if is_zero_ℤ (parse_price px) && not (is_empty px) && not (is_zero_text px)
    then failed r' (invalid_price px)
    else read_quantity fields offset r'

-- The fields of an ADD and of a MODIFY after the order id.
unfoldable pub read_terms : List Bytes → ℕ → L3Record → L3Record
read_terms fields offset r =
    let text = field fields (offset + 3) in
    elim (parse_side text) [
      | none ↦ failed (record r { side = buy }) (invalid_side text)
      | some side ↦ read_price fields offset (record r { side = side })
    ]

abbrev pub side_or_buy : Option Side → Side
side_or_buy none = buy
side_or_buy (some side) = side

-- The fields of a TRADE may be empty.
unfoldable pub read_trade : List Bytes → ℕ → L3Record → L3Record
read_trade fields offset r =
    let text = field fields (offset + 3) in
    let px = field fields (offset + 4) in
    let qty = field fields (offset + 5) in
    record r {
      side = if is_empty text then r.side else side_or_buy (parse_side text);
      price = if is_empty px then r.price else parse_price px;
      quantity = if is_empty qty then r.quantity else parse_quantity qty;
      valid = true;
    }

unfoldable pub read_event : L3EventType → List Bytes → ℕ → L3Record → L3Record
read_event invalid fields offset r = failed r (invalid_event_type (field fields 1))
read_event cancel fields offset r =
    if ltb (length fields) (offset + 3)
    then failed r (requires_fields cancel)
    else read_order_id cancel fields offset r (λ r'. record r' { valid = true })
read_event trade fields offset r =
    if ltb (length fields) (offset + 6)
    then failed r (requires_fields trade)
    else read_trade fields offset r
read_event type fields offset r =
    if ltb (length fields) (offset + 6)
    then failed r (requires_fields type)
    else read_order_id type fields offset r (read_terms fields offset)

unfoldable pub read_record : List Bytes → ℕ → L3Record → L3Record
read_record fields offset r =
    let ts = field fields offset in
    let (n, digits) = number_from 0 ts in
    let type = parse_event_type (field fields (offset + 1)) in
    if leb (length fields) offset || is_empty ts
    then failed r empty_timestamp
    else if not digits
    then failed (record r { timestamp = n }) invalid_timestamp
    else if leb (length fields) (offset + 1)
    then failed (record r { timestamp = n }) missing_event_type
    else read_event type fields offset (record r { timestamp = n; event_type = type })

abbrev pub starts_with_symbol : Bytes → Bool
starts_with_symbol [] = false
starts_with_symbol (c ∷ cs) = not (is_digit c)

-- The parser's flag `has_symbol_column`, before and after, with the record that the line gives.
unfoldable pub parse_line : Bool → Bytes → Bool × L3Record
parse_line has_symbol line =
    let fields = split_csv line in
    if ltb (length fields) 2
    then (has_symbol, failed blank too_few_fields)
    else if has_symbol || (leb 7 (length fields) && starts_with_symbol (field fields 0))
    then (true, read_record fields 1 (record blank { symbol = field fields 0 }))
    else (has_symbol, read_record fields 0 blank)

-- `std::tolower` in the C locale.
abbrev pub to_lower : ℕ → ℕ
to_lower c = if leb 0x41 c && leb c 0x5A then c + 0x20 else c

abbrev pub reads_lower : Bytes → Bytes → Bool
reads_lower [] [] = true
reads_lower (c ∷ cs) (w ∷ ws) = (to_lower c == w) && reads_lower cs ws
reads_lower _ _ = false

abbrev pub timestamp_word : Bytes
timestamp_word = b't' ∷ b'i' ∷ b'm' ∷ b'e' ∷ b's' ∷ b't' ∷ b'a' ∷ b'm' ∷ b'p' ∷ []

abbrev pub symbol_word : Bytes
symbol_word = b's' ∷ b'y' ∷ b'm' ∷ b'b' ∷ b'o' ∷ b'l' ∷ []

unfoldable pub is_header : Bytes → Bool
is_header line =
    let first = field (split_csv line) 0 in
    not (ltb (length line) 4) && (reads_lower first timestamp_word || reads_lower first symbol_word)

abbrev pub is_blank : ℕ → Bool
is_blank c = (c == 0x0D) || ((c == 0x0A) || (c == 0x20))

-- The line without its trailing blanks.
abbrev pub trim_end : Bytes → Bytes
trim_end [] = []
trim_end (c ∷ cs) = let rest = trim_end cs in if is_empty rest && is_blank c then [] else c ∷ rest

pub record L3FeedParser : Type 0 where
  pub file : List Bytes
  pub unread : List Bytes
  pub lines_read : ℕ
  pub parse_errors : ℕ
  pub has_symbol_column : Bool

unfoldable pub open_file : List Bytes → L3FeedParser
open_file lines = record {
  file = lines;
  unread = lines;
  lines_read = 0;
  parse_errors = 0;
  has_symbol_column = false;
}

unfoldable pub reset : L3FeedParser → L3FeedParser
reset p = open_file p.file

-- A line that is not skipped: the record, and the count of errors.
unfoldable pub deliver : L3FeedParser → Bytes → L3FeedParser × L3Record
deliver p line =
    let (has_symbol, r) = parse_line p.has_symbol_column line in
    (
      record p {
        has_symbol_column = has_symbol;
        parse_errors = if r.valid then p.parse_errors else add64 p.parse_errors 1;
      },
      r,
    )

-- Lines up to the next record, with what is unread.
unfoldable pub next_from : L3FeedParser → List Bytes → L3FeedParser × Option L3Record
next_from p [] = (record p { unread = [] }, none)
next_from p (l ∷ ls) =
    let p' = record p { unread = ls; lines_read = add64 p.lines_read 1 } in
    let line = trim_end l in
    let (p'', r) = deliver p' line in
    if is_empty line || is_header line then next_from p' ls else (p'', some r)

unfoldable pub next : L3FeedParser → L3FeedParser × Option L3Record
next p = next_from p p.unread
