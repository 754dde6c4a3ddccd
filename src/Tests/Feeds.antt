-- ===== src/Tests/Feeds.antt =====
-- The parsing utilities, lines and FIX messages at concrete strings.
use hft_orderbook_engine.Base.{◌≡◌, refl, [], ◌∷◌, ◌++◌, arith, some, none, true, false}
use hft_orderbook_engine.Base.Int.{pos, negsuc}
use hft_orderbook_engine.Core.{sell}
use hft_orderbook_engine.Transport.{EventMessage, trade, of_trade}
use hft_orderbook_engine.Feed.{
  Bytes, L3Record, add, requires_fields, split_csv, split_from, parse_quantity, parse_price,
  parse_event_type, digits_from,
}
use hft_orderbook_engine.Feed.Csv.{join_csv, split_csv-join_csv}
use hft_orderbook_engine.Feed.Decimal.{print, parse_quantity-print}
use hft_orderbook_engine.Feed.Price.{format_price, parse_price-format_price}
use hft_orderbook_engine.Feed.Lines.{parse_line, read_record, read_event, number_from}
use hft_orderbook_engine.Feed.Lines.Print.{line_of}
use hft_orderbook_engine.Feed.Lines.RoundTrip.{parse_line-line_of}
use hft_orderbook_engine.Feed.Lines.Sound.{IsSound, parse_line-IsSound}
use hft_orderbook_engine.Feed.Fix
use hft_orderbook_engine.Feed.Fix.{missing_field}
use hft_orderbook_engine.Feed.Fix.Parser.{
  parse, read_tags, set_tag, parse_int, read_message, read_envelope, read_fields, missing,
  check_body, validate_checksum, compute_checksum, actual_body_length,
}
use hft_orderbook_engine.Feed.Fix.Sound.{parse-IsSound}

split_csv-join_csv_example :
    split_csv (join_csv (49 ∷ 50 ∷ []) ([] ∷ (65 ∷ []) ∷ [])) ≡ (49 ∷ 50 ∷ []) ∷ [] ∷ (65 ∷ []) ∷ []
split_csv-join_csv_example =
    split_csv-join_csv (49 ∷ 50 ∷ []) ([] ∷ (65 ∷ []) ∷ []) (refl, (refl, (refl, tt)))

parse_quantity-print_example : parse_quantity (print 1250) ≡ 1250
parse_quantity-print_example = parse_quantity-print 1250 (omega arith)

parse_price-format_price_example : parse_price (format_price (negsuc 4199999)) ≡ negsuc 4199999
parse_price-format_price_example = parse_price-format_price (negsuc 4199999)

abbrev written_add : L3Record
written_add = record {
  timestamp = 1250;
  event_type = add;
  order_id = 7;
  side = sell;
  price = pos 4200000000000;
  quantity = 30;
  symbol = b'B' ∷ b'T' ∷ b'C' ∷ [];
  valid = true;
  error = none;
}

parse_line-line_of_example : parse_line false (line_of written_add) ≡ (true, written_add)
parse_line-line_of_example = parse_line-line_of written_add (record {
  time = omega arith;
  columns = (omega arith, refl, omega arith, refl);
  symbol = (refl, refl);
  valid = refl;
  error = refl;
})

-- "5,ADD,7": too few fields for an ADD.
abbrev short_line : Bytes
short_line = b'5' ∷ b',' ∷ b'A' ∷ b'D' ∷ b'D' ∷ b',' ∷ b'7' ∷ []

parse_line-IsSound_example : IsSound (parse_line false short_line).1
parse_line-IsSound_example = parse_line-IsSound false short_line

short_line_refused : (parse_line false short_line).1.error ≡ some (requires_fields add)
unfolding parse_line read_record read_event number_from parse_event_type split_csv split_from
short_line_refused = refl

-- "35=D|11=A": a new order without a side.
abbrev short_message : Bytes
short_message = b'3' ∷ b'5' ∷ b'=' ∷ b'D' ∷ b'|' ∷ b'1' ∷ b'1' ∷ b'=' ∷ b'A' ∷ []

-- "35=8|10=089": a report with its checksum.
abbrev summed_message : Bytes
summed_message = b'3' ∷ b'5' ∷ b'=' ∷ b'8' ∷ b'|' ∷ b'1' ∷ b'0' ∷ b'=' ∷ b'0' ∷ b'8' ∷ b'9' ∷ []

parse-IsSound_example : Fix.Sound.IsSound summed_message (parse summed_message)
parse-IsSound_example = parse-IsSound summed_message

summed_message_read : (parse summed_message).valid ≡ true
unfolding parse read_tags set_tag parse_int digits_from read_message read_envelope read_fields
    missing check_body validate_checksum compute_checksum actual_body_length
summed_message_read = refl

-- "35=8|10=089|10=999": the first checksum is tested, and the last one kept.
abbrev twice_summed : Bytes
twice_summed = summed_message ++ (b'|' ∷ b'1' ∷ b'0' ∷ b'=' ∷ b'9' ∷ b'9' ∷ b'9' ∷ [])

twice_summed_read :
    ((parse twice_summed).valid ≡ true) × ((parse twice_summed).checksum ≡ b'9' ∷ b'9' ∷ b'9' ∷ [])
unfolding parse read_tags set_tag parse_int digits_from read_message read_envelope read_fields
    missing check_body validate_checksum compute_checksum actual_body_length
twice_summed_read = (refl, refl)

short_message_refused : (parse short_message).error ≡ some (missing_field b'D' 54)
unfolding parse read_tags set_tag parse_int digits_from read_message read_envelope read_fields
    missing
short_message_refused = refl

abbrev fill_event : EventMessage
fill_event = record {
  type = trade;
  instrument_id = 0;
  sequence_num = 9;
  payload = of_trade (record {
    trade_id = 1;
    buy_order_id = 2;
    sell_order_id = 3;
    price = pos 4200000000000;
    quantity = 30;
    timestamp = 1250;
  });
}
