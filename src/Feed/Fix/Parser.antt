-- ===== src/Feed/Fix/Parser.antt =====
-- feed/fix_parser.cpp: a FIX message, tag=value pairs between delimiters, as a FixMessage, and that
-- as an OrderMessage.
use Prim.Native.Nat.{bit_xor}
use hft_orderbook_engine.Base.{
  ℕ, suc, ◌+◌, ◌-◌, ◌*◌, ◌%◌, Bool, true, false, not, ◌&&◌, ◌||◌, Option, none, some, [], ◌∷◌, ◌++◌,
  map, ◌==◌, ltb, leb, if◌then◌else◌, u64_mod, u32_mod, update, has, ◌>>=◌,
}
use hft_orderbook_engine.Base.Int.{ℤ, pos, negsuc}
use hft_orderbook_engine.Core.{
  Side, buy, sell, OrderType, limit, market, ioc, fok, TimeInForce, tif_gtc, tif_ioc, tif_fok,
  tif_day, new,
}
use hft_orderbook_engine.Transport
use hft_orderbook_engine.Transport.{MessageType, OrderMessage}
use hft_orderbook_engine.Feed.{Bytes, digits_from, parse_price, parse_quantity}
use hft_orderbook_engine.Feed.Lines.{is_empty}
use hft_orderbook_engine.Feed.Text.{find, find_from, take, drop, take_until}
use hft_orderbook_engine.Feed.Fix.{
  FixError, empty_message, missing_msg_type, checksum_mismatch, invalid_msg_type,
  unsupported_msg_type, missing_field, body_length_mismatch, FixMessage, blank, soh, pipe, failed,
}

abbrev pub detect_delimiter : Bytes → ℕ
detect_delimiter raw = if has soh raw then soh else pipe

abbrev pub int_of : Option ℕ → ℤ
int_of none = negsuc 0
int_of (some n) = pos n

-- -1 on failure. The number is unbounded: no overflow of the `int`, in a tag number, a body length or
-- a declared checksum, is modelled.
unfoldable pub parse_int : Bytes → ℤ
parse_int [] = negsuc 0
parse_int (c ∷ cs) = int_of (digits_from 0 (c ∷ cs))

-- The array of values by tag; a tag that is not there has the empty value.
abbrev pub Tags : Type 0
Tags = ℕ → Bytes

abbrev pub no_tags : Tags
no_tags k = []

-- The bytes before the first '=', and those after it.
abbrev pub split_equals : Bytes → Bytes × Option Bytes
split_equals [] = ([], none)
split_equals (c ∷ cs) =
    if c == b'=' then ([], some cs) else (c ∷ (split_equals cs).0, (split_equals cs).1)

abbrev pub primary_size : ℕ
primary_size = 201

abbrev pub store_tag : ℤ → Bytes → Tags → Tags
store_tag (pos k) value tags = if ltb k primary_size then update tags k value else tags
store_tag (negsuc _) value tags = tags

abbrev pub set_value : Bytes → Option Bytes → Tags → Tags
set_value name none tags = tags
set_value name (some value) tags =
    if is_empty name then tags else store_tag (parse_int name) value tags

-- One field of the message: one without '=', a tag or a number for it is skipped.
unfoldable pub set_tag : Bytes → Tags → Tags
set_tag text tags = let (name, value) = split_equals text in set_value name value tags

-- The fields up to the end, with the bytes of the field that is being read.
unfoldable pub read_tags : ℕ → Bytes → Bytes → Tags → Tags
read_tags delim text [] tags = set_tag text tags
read_tags delim text (c ∷ cs) tags =
    let next = read_tags delim [] cs (set_tag text tags) in
    let longer = read_tags delim (text ++ c ∷ []) cs tags in if c == delim then next else longer

abbrev pub or_keep : Bytes → Bytes → Bytes
or_keep value old = if is_empty value then old else value

abbrev pub or_char : Bytes → ℕ → ℕ
or_char (c ∷ []) old = c
or_char _ old = old

-- Tags 8, 9 and 10.
unfoldable pub read_envelope : Tags → FixMessage
read_envelope tags = record blank {
  begin_string = or_keep (tags 8) blank.begin_string;
  body_length = if is_empty (tags 9) then blank.body_length else parse_int (tags 9);
  checksum = or_keep (tags 10) blank.checksum;
}

unfoldable pub read_fields : Tags → FixMessage → FixMessage
read_fields tags msg = record msg {
  sender_comp_id = or_keep (tags 49) msg.sender_comp_id;
  target_comp_id = or_keep (tags 56) msg.target_comp_id;
  cl_ord_id = or_keep (tags 11) msg.cl_ord_id;
  orig_cl_ord_id = or_keep (tags 41) msg.orig_cl_ord_id;
  symbol = or_keep (tags 55) msg.symbol;
  fix_side = or_char (tags 54) msg.fix_side;
  fix_ord_type = or_char (tags 40) msg.fix_ord_type;
  fix_tif = or_char (tags 59) msg.fix_tif;
  price = if is_empty (tags 44) then msg.price else parse_price (tags 44);
  quantity = if is_empty (tags 38) then msg.quantity else parse_quantity (tags 38);
  transact_time = or_keep (tags 60) msg.transact_time;
}

abbrev pub is_zero_ℤ : ℤ → Bool
is_zero_ℤ (pos n) = n == 0
is_zero_ℤ (negsuc n) = false

-- The first required field that is missing, by the type of the message.
unfoldable pub missing : FixMessage → Option FixError
missing m =
    let t = m.msg_type in
    if t == b'D'
    then if is_empty m.cl_ord_id
      then some (missing_field t 11)
      else if m.fix_side == 0
      then some (missing_field t 54)
      else if m.fix_ord_type == 0
      then some (missing_field t 40)
      else if m.quantity == 0
      then some (missing_field t 38)
      else if is_empty m.symbol
      then some (missing_field t 55)
      else if m.fix_ord_type == b'2' && is_zero_ℤ m.price
      then some (missing_field t 44)
      else none
    else if t == b'F'
    then if is_empty m.cl_ord_id
      then some (missing_field t 11)
      else if is_empty m.orig_cl_ord_id
      then some (missing_field t 41)
      else if is_empty m.symbol
      then some (missing_field t 55)
      else none
    else if t == b'G'
    then if is_empty m.cl_ord_id
      then some (missing_field t 11)
      else if is_empty m.orig_cl_ord_id
      then some (missing_field t 41)
      else if m.fix_side == 0
      then some (missing_field t 54)
      else if is_empty m.symbol
      then some (missing_field t 55)
      else if m.fix_ord_type == 0
      then some (missing_field t 40)
      else if m.quantity == 0
      then some (missing_field t 38)
      else none
    else none

abbrev pub sum_from : ℕ → Bytes → ℕ
sum_from sum [] = sum
sum_from sum (c ∷ cs) = sum_from ((sum + c) % u32_mod) cs

unfoldable pub compute_checksum : Bytes → ℕ
compute_checksum bytes = sum_from 0 bytes % 256

abbrev pub tag_10 : Bytes
tag_10 = b'1' ∷ b'0' ∷ b'=' ∷ []

abbrev pub tag_9 : Bytes
tag_9 = b'9' ∷ b'=' ∷ []

abbrev pub is_sum : ℤ → ℕ → Bool
is_sum (pos declared) sum = leb declared 255 && sum == declared
is_sum (negsuc _) sum = false

-- `none` is a message with no tag 10 behind a delimiter.
abbrev pub checksum_at : ℕ → Bytes → Option ℕ → Bool
checksum_at delim raw none = false
checksum_at delim raw (some at) =
    is_sum (parse_int (take_until delim (drop (at + 4) raw))) (compute_checksum (take (at + 1) raw))

unfoldable pub validate_checksum : Bytes → Bool
validate_checksum raw =
    let delim = detect_delimiter raw in checksum_at delim raw (find (delim ∷ tag_10) raw)

-- The last byte of the body, the delimiter before tag 10.
abbrev pub body_end : ℕ → Bytes → ℕ → Option ℕ
body_end delim raw start = elim (find_from (delim ∷ tag_10) start raw) [
  | some at ↦ some at
  | none ↦ do bare ← find_from tag_10 start raw; some (bare - 1)
]

-- `none` where the ends of the body are not found: then the length is not checked.
unfoldable pub actual_body_length : ℕ → Bytes → Option ℕ
actual_body_length delim raw = do
  tag9 ← find tag_9 raw
  before ← find_from (delim ∷ []) tag9 raw
  last ← body_end delim raw (before + 1)
  some (last + 1 - (before + 1))

abbrev pub check_length : FixMessage → ℤ → Option ℕ → FixMessage
check_length msg (pos (suc declared)) (some actual) =
    if actual == suc declared
    then record msg { valid = true }
    else failed msg (body_length_mismatch msg.body_length actual)
check_length msg _ _ = record msg { valid = true }

unfoldable pub check_body : ℕ → Bytes → FixMessage → FixMessage
check_body delim raw msg =
    if not (is_empty msg.checksum) && not (validate_checksum raw)
    then failed msg checksum_mismatch
    else check_length msg msg.body_length (actual_body_length delim raw)

abbrev pub or_failed : FixMessage → Option FixError → FixMessage → FixMessage
or_failed msg (some e) next = failed msg e
or_failed msg none next = next

abbrev pub is_supported : ℕ → Bool
is_supported t = t == b'D' || (t == b'F' || (t == b'G' || t == b'8'))

unfoldable pub read_message : ℕ → Bytes → Tags → FixMessage → Bytes → FixMessage
read_message delim raw tags msg [] = failed msg missing_msg_type
read_message delim raw tags msg (t ∷ []) =
    let typed = record msg { msg_type = t } in
    let full = read_fields tags typed in
    if is_supported t
    then or_failed full (missing full) (check_body delim raw full)
    else failed typed (unsupported_msg_type t)
read_message delim raw tags msg value = failed msg (invalid_msg_type value)

unfoldable pub parse : Bytes → FixMessage
parse [] = failed blank empty_message
parse (c ∷ cs) =
    let raw = c ∷ cs in
    let delim = detect_delimiter raw in
    let tags = read_tags delim [] raw no_tags in
    read_message delim raw tags (read_envelope tags) (tags 35)

-- FNV-1a over the bytes.
abbrev pub hash_from : ℕ → Bytes → ℕ
hash_from hash [] = hash
hash_from hash (c ∷ cs) = hash_from ((bit_xor hash c * 1099511628211) % u64_mod) cs

unfoldable pub cl_ord_id_to_order_id : Bytes → ℕ
cl_ord_id_to_order_id id = hash_from 14695981039346656037 id

unfoldable pub parse_side : ℕ → Side
parse_side c = if c == b'2' then sell else buy

unfoldable pub parse_ord_type : ℕ → OrderType
parse_ord_type c = if c == b'1' then market else limit

unfoldable pub parse_tif : ℕ → TimeInForce
parse_tif c =
    if c == b'0'
    then tif_day
    else if c == b'3'
    then tif_ioc
    else if c == b'4'
    then tif_fok
    else tif_gtc

unfoldable pub pipe_to_soh : Bytes → Bytes
pipe_to_soh msg = map (λ c. if c == pipe then soh else c) msg

abbrev pub message_type : ℕ → MessageType
message_type t =
    if t == b'F' then Transport.cancel else if t == b'G' then Transport.modify else Transport.add

-- A cancel and a replace name the original order, if they can.
unfoldable pub order_id_of : FixMessage → ℕ
order_id_of m =
    let names_original = m.msg_type == b'F' || m.msg_type == b'G' in
    if names_original && not (is_empty m.orig_cl_ord_id)
    then cl_ord_id_to_order_id m.orig_cl_ord_id
    else if not (is_empty m.cl_ord_id)
    then cl_ord_id_to_order_id m.cl_ord_id
    else 0

-- IOC and FOK override the order type.
unfoldable pub order_type_of : FixMessage → OrderType
order_type_of m =
    if m.fix_tif == b'3'
    then ioc
    else if m.fix_tif == b'4'
    then fok
    else if m.fix_ord_type == 0
    then limit
    else parse_ord_type m.fix_ord_type

unfoldable pub to_order_message : FixMessage → ℕ → OrderMessage
to_order_message m id = record {
  type = message_type m.msg_type;
  instrument_id = id;
  order = record {
    order_id = order_id_of m;
    participant_id = 0;
    instrument_id = id;
    side = if m.fix_side == 0 then buy else parse_side m.fix_side;
    type = order_type_of m;
    time_in_force = if m.fix_tif == 0 then tif_gtc else parse_tif m.fix_tif;
    status = new;
    price = m.price;
    quantity = m.quantity;
    visible_quantity = m.quantity;
    iceberg_slice_qty = 0;
    filled_quantity = 0;
    timestamp = 0;
    next = none;
    prev = none;
  };
}
