-- ===== src/Feed.antt =====
-- feed/l3_feed_parser.h and l3_feed_parser.cpp: the parsing utilities. A string is the list of its
-- bytes.
pub mod Csv
pub mod Decimal
pub mod Price
pub mod Lines
pub mod Text
pub mod Fix
pub mod Replay
pub mod MultiReplay
use hft_orderbook_engine.Base.{
  ℕ, zero, suc, ◌+◌, ◌-◌, ◌*◌, ◌%◌, ◌^◌, Bool, true, false, ◌&&◌, Option, none, some, List, [], ◌∷◌,
  ◌++◌, ◌==◌, leb, if◌then◌else◌, u64_mod,
}
use hft_orderbook_engine.Base.Int.{ℤ, pos, ◌-ℤ◌}
use hft_orderbook_engine.Core.{Side, buy, sell, Order, limit, tif_gtc, new}
use hft_orderbook_engine.Transport.{MessageType, OrderMessage}
use hft_orderbook_engine.Transport

abbrev pub Bytes : Type 0
Bytes = List ℕ

pub data L3EventType : Type 0 where
  add cancel trade modify invalid : L3EventType

-- What the error text of a record says; the type or the field is a part of some texts.
pub data L3Error : Type 0 where
  too_few_fields empty_timestamp invalid_timestamp missing_event_type invalid_order_id : L3Error
  requires_fields requires_order_id : L3EventType → L3Error
  invalid_event_type invalid_side invalid_price invalid_quantity : Bytes → L3Error

pub record L3Record : Type 0 where
  pub timestamp : ℕ
  pub event_type : L3EventType
  pub order_id : ℕ
  pub side : Side
  pub price : ℤ
  pub quantity : ℕ
  pub symbol : Bytes
  pub valid : Bool
  pub error : Option L3Error

abbrev pub comma : ℕ
comma = 0x2C

-- The fields of a line, with the bytes of the field that is being read.
unfoldable pub split_from : Bytes → Bytes → List Bytes
split_from field [] = field ∷ []
split_from field (c ∷ cs) =
    let rest = split_from [] cs in
    let longer = split_from (field ++ c ∷ []) cs in if c == comma then field ∷ rest else longer

unfoldable pub split_csv : Bytes → List Bytes
split_csv line = split_from [] line

-- `std::toupper` in the C locale.
abbrev pub to_upper : ℕ → ℕ
to_upper c = if leb 0x61 c && leb c 0x7A then c - 0x20 else c

abbrev pub reads : Bytes → Bytes → Bool
reads [] [] = true
reads (c ∷ cs) (w ∷ ws) = (to_upper c == w) && reads cs ws
reads _ _ = false

unfoldable pub parse_event_type : Bytes → L3EventType
parse_event_type str =
    if reads str (0x41 ∷ 0x44 ∷ 0x44 ∷ [])
    then add
    else if reads str (0x43 ∷ 0x41 ∷ 0x4E ∷ 0x43 ∷ 0x45 ∷ 0x4C ∷ [])
    then cancel
    else if reads str (0x4D ∷ 0x4F ∷ 0x44 ∷ 0x49 ∷ 0x46 ∷ 0x59 ∷ [])
    then modify
    else if reads str (0x54 ∷ 0x52 ∷ 0x41 ∷ 0x44 ∷ 0x45 ∷ [])
    then trade
    else invalid

-- `none` is a failure, where the source clears `ok`.
unfoldable pub parse_side : Bytes → Option Side
parse_side str =
    if reads str (0x42 ∷ 0x55 ∷ 0x59 ∷ [])
    then some buy
    else if reads str (0x53 ∷ 0x45 ∷ 0x4C ∷ 0x4C ∷ [])
    then some sell
    else none

abbrev pub is_digit : ℕ → Bool
is_digit c = leb 0x30 c && leb c 0x39

abbrev pub price_scale : ℕ
price_scale = 10 ^ 8

-- A digit string after the number `n`; no overflow of the `int64_t` is modelled.
unfoldable pub digits_from : ℕ → Bytes → Option ℕ
digits_from n [] = some n
digits_from n (c ∷ cs) =
    let rest = digits_from (n * 10 + (c - 0x30)) cs in if is_digit c then rest else none

abbrev pub all_digits : Bytes → Bool
all_digits [] = true
all_digits (c ∷ cs) = is_digit c && all_digits cs

-- The fraction, with the decimals that are left: it is padded with zeros, and further digits are
-- ignored.
unfoldable pub fraction_from : ℕ → ℕ → Bytes → Option ℕ
fraction_from zero n cs = if all_digits cs then some n else none
fraction_from (suc left) n [] = fraction_from left (n * 10) []
fraction_from (suc left) n (c ∷ cs) =
    let rest = fraction_from left (n * 10 + (c - 0x30)) cs in if is_digit c then rest else none

-- The bytes before the first point, and those after it.
abbrev pub split_point : Bytes → Bytes × Option Bytes
split_point [] = ([], none)
split_point (c ∷ cs) =
    if c == 0x2E then ([], some cs) else (c ∷ (split_point cs).0, (split_point cs).1)

abbrev pub combine : Option ℕ → Option ℕ → Option ℕ
combine none f = none
combine (some i) none = none
combine (some i) (some f) = some (i * price_scale + f)

unfoldable pub parse_unsigned : Bytes → Option ℕ
parse_unsigned [] = none
parse_unsigned (c ∷ cs) =
    let (whole, fraction) = split_point (c ∷ cs) in
    combine (digits_from 0 whole) (elim fraction [ none ↦ some 0 | some ds ↦ fraction_from 8 0 ds ])

abbrev pub or_zero : Option ℕ → ℕ
or_zero none = 0
or_zero (some n) = n

unfoldable pub parse_price : Bytes → ℤ
parse_price [] = pos 0
parse_price (c ∷ cs) =
    if c == 0x2D
    then pos 0 -ℤ pos (or_zero (parse_unsigned cs))
    else pos (or_zero (parse_unsigned (if c == 0x2B then cs else c ∷ cs)))

unfoldable pub quantity_from : ℕ → Bytes → ℕ
quantity_from n [] = n
quantity_from n (c ∷ cs) =
    let rest = quantity_from ((n * 10 + (c - 0x30)) % u64_mod) cs in if is_digit c then rest else 0

unfoldable pub parse_quantity : Bytes → ℕ
parse_quantity str = quantity_from 0 str

abbrev pub message_of : MessageType → L3Record → ℕ → OrderMessage
message_of type r instrument_id = record {
  type = type;
  instrument_id = instrument_id;
  order = record {
    order_id = r.order_id;
    participant_id = 0;
    instrument_id = instrument_id;
    side = r.side;
    type = limit;
    time_in_force = tif_gtc;
    status = new;
    price = r.price;
    quantity = r.quantity;
    visible_quantity = r.quantity;
    iceberg_slice_qty = 0;
    filled_quantity = 0;
    timestamp = r.timestamp;
    next = none;
    prev = none;
  };
}

unfoldable pub to_order_message : L3Record → ℕ → OrderMessage
to_order_message r instrument_id = message_of Transport.add r instrument_id

unfoldable pub to_modify_message : L3Record → ℕ → OrderMessage
to_modify_message r instrument_id = message_of Transport.modify r instrument_id
