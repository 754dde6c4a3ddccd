-- ===== src/Feed/Fix/Serializer.antt =====
-- feed/fix_serializer.cpp: an event of the engine as a FIX execution report. The result is `none`
-- where the source reads the member of the event's union that was not written.
use hft_orderbook_engine.Base.{ℕ, Option, none, some, List, [], ◌∷◌, ◌++◌, add64, length, ◌>>=◌}
use hft_orderbook_engine.Core.{Side, buy, sell, Trade}
use hft_orderbook_engine.Transport.{
  EventType, trade, order_accepted, order_cancelled, order_rejected, order_filled,
  order_partial_fill, order_modified, OrderEventData, EventData, of_trade, of_order, EventMessage,
}
use hft_orderbook_engine.Feed.{Bytes}
use hft_orderbook_engine.Feed.Decimal.{print, pad}
use hft_orderbook_engine.Feed.Price.{format_price}
use hft_orderbook_engine.Feed.Fix.{soh, pipe}
use hft_orderbook_engine.Feed.Fix.Parser.{compute_checksum, tag_10}

unfoldable pub to_fix_side : Side → ℕ
to_fix_side buy = b'1'
to_fix_side sell = b'2'

unfoldable pub to_fix_exec_type : EventType → ℕ
to_fix_exec_type order_accepted = b'0'
to_fix_exec_type order_partial_fill = b'1'
to_fix_exec_type order_filled = b'2'
to_fix_exec_type trade = b'2'
to_fix_exec_type order_cancelled = b'4'
to_fix_exec_type order_rejected = b'8'
to_fix_exec_type order_modified = b'5'

unfoldable pub to_fix_ord_status : EventType → ℕ
to_fix_ord_status order_accepted = b'0'
to_fix_ord_status order_partial_fill = b'1'
to_fix_ord_status order_filled = b'2'
to_fix_ord_status trade = b'2'
to_fix_ord_status order_cancelled = b'4'
to_fix_ord_status order_rejected = b'8'
to_fix_ord_status order_modified = b'5'

-- Fields one after another, each with its tag and with the delimiter behind it.
abbrev pub encode : ℕ → List (ℕ × Bytes) → Bytes
encode delim [] = []
encode delim ((tag, value) ∷ fs) = print tag ++ (b'=' ∷ (value ++ (delim ∷ encode delim fs)))

abbrev pub exec_prefix : Bytes
exec_prefix = b'E' ∷ b'X' ∷ b'E' ∷ b'C' ∷ b'-' ∷ []

-- The fields that every report starts with, and then others.
abbrev pub headed : Bytes → Bytes → List (ℕ × Bytes) → List (ℕ × Bytes)
headed sender target rest = (35, b'8' ∷ []) ∷ (49, sender) ∷ (56, target) ∷ rest

unfoldable pub trade_fields : EventType → Trade → Bytes → List (ℕ × Bytes)
trade_fields type t symbol =
    (37, print t.buy_order_id)
    ∷ (11, print t.sell_order_id)
    ∷ (17, exec_prefix ++ print t.trade_id)
    ∷ (150, to_fix_exec_type type ∷ [])
    ∷ (39, to_fix_ord_status type ∷ [])
    ∷ (55, symbol)
    ∷ (54, to_fix_side buy ∷ [])
    ∷ (44, format_price t.price)
    ∷ (32, print t.quantity)
    ∷ (31, format_price t.price)
    ∷ (14, print t.quantity)
    ∷ (151, b'0' ∷ [])
    ∷ (60, print t.timestamp)
    ∷ []

unfoldable pub order_fields : EventType → ℕ → OrderEventData → Bytes → List (ℕ × Bytes)
order_fields type sequence_num e symbol =
    (37, print e.order_id)
    ∷ (11, print e.order_id)
    ∷ (17, exec_prefix ++ print sequence_num)
    ∷ (150, to_fix_exec_type type ∷ [])
    ∷ (39, to_fix_ord_status type ∷ [])
    ∷ (55, symbol)
    ∷ (54, b'1' ∷ [])
    ∷ (44, format_price e.price)
    ∷ (38, print (add64 e.filled_quantity e.remaining_quantity))
    ∷ (14, print e.filled_quantity)
    ∷ (151, print e.remaining_quantity)
    ∷ (60, print e.timestamp)
    ∷ []

abbrev pub event_fields : EventType → ℕ → EventData → Bytes → Option (List (ℕ × Bytes))
event_fields trade sequence_num (of_trade t) symbol = some (trade_fields trade t symbol)
event_fields trade sequence_num (of_order e) symbol = none
event_fields type sequence_num (of_trade t) symbol = none
event_fields type sequence_num (of_order e) symbol = some (order_fields type sequence_num e symbol)

unfoldable pub build_body : EventMessage → Bytes → Bytes → Bytes → ℕ → Option Bytes
build_body event symbol sender target delim = do
  fields ← event_fields event.type event.sequence_num event.payload symbol
  some (encode delim (headed sender target fields))

abbrev pub begin_string : Bytes
begin_string = b'F' ∷ b'I' ∷ b'X' ∷ b'.' ∷ b'4' ∷ b'.' ∷ b'2' ∷ []

-- The fields before the body.
abbrev pub prefix : Bytes → ℕ → Bytes
prefix body delim = encode delim ((8, begin_string) ∷ (9, print (length body)) ∷ [])

abbrev pub checksum_text : Bytes → Bytes
checksum_text bytes = pad 3 (print (compute_checksum bytes))

unfoldable pub wrap_message : Bytes → ℕ → Bytes
wrap_message body delim =
    let pre_checksum = prefix body delim ++ body in
    pre_checksum ++ (tag_10 ++ (checksum_text pre_checksum ++ (delim ∷ [])))

unfoldable pub to_execution_report : EventMessage → Bytes → Bytes → Bytes → Option Bytes
to_execution_report event symbol sender target = do
  body ← build_body event symbol sender target soh
  some (wrap_message body soh)

unfoldable pub to_execution_report_pretty : EventMessage → Bytes → Bytes → Bytes → Option Bytes
to_execution_report_pretty event symbol sender target = do
  body ← build_body event symbol sender target pipe
  some (wrap_message body pipe)
