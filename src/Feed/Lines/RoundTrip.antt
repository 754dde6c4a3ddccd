-- ===== src/Feed/Lines/RoundTrip.antt =====
-- `parse_line` of l3_feed_parser.cpp reads back the line of every record that can be written.
use hft_orderbook_engine.Base.{
  ℕ, ◌+◌, ◌<◌, ◌≡◌, refl, sym, ◌∙◌, ap, true, false, not, List, [], ◌∷◌, ◌==◌, ltb, leb, u64_mod,
  has, arith, length,
}
use hft_orderbook_engine.Base.Int.{ℤ}
use hft_orderbook_engine.Core.{Side, buy, sell}
use hft_orderbook_engine.Feed.{
  Bytes, L3EventType, add, cancel, trade, modify, invalid, L3Record, comma, split_csv,
  parse_event_type,
}
use hft_orderbook_engine.Feed.Csv.{NoCommas, split_csv-join_csv}
use hft_orderbook_engine.Feed.Decimal.{print, parse_quantity-print, has-print}
use hft_orderbook_engine.Feed.Price.{format_price, parse_price-format_price, has-format_price}
use hft_orderbook_engine.Feed.Lines.{
  is_empty, field, blank, is_zero_ℤ, read_order_id, read_quantity, read_price, read_terms,
  read_trade, read_event, read_record, starts_with_symbol, parse_line,
}
use hft_orderbook_engine.Feed.Lines.Print.{
  side_text, columns, line_with, line_of, Columns, IsSymbol, IsWritten, number_from-print,
  is_empty-print, parse_side-side_text, is_empty-side_text, is_empty-format_price,
}

module _ (fields : List Bytes) (offset : ℕ) (r : L3Record) where
  read_order_id-print :
      (type : L3EventType) (next : L3Record → L3Record) (id : ℕ)
      → field fields (offset + 2) ≡ print id
      → id < u64_mod
      → read_order_id type fields offset r next ≡ next (record r { order_id = id })
  unfolding read_order_id
  read_order_id-print type next id e h = rw (e, number_from-print id h, is_empty-print id) refl

  read_terms-print :
      (side : Side) (price : ℤ) (quantity : ℕ)
      → field fields (offset + 3) ≡ side_text side
      → field fields (offset + 4) ≡ format_price price
      → field fields (offset + 5) ≡ print quantity
      → is_zero_ℤ price ≡ false
      → quantity < u64_mod
      → (quantity == 0) ≡ false
      → read_terms fields offset r
        ≡ record r { side = side; price = price; quantity = quantity; valid = true }
  unfolding read_terms read_price read_quantity
  read_terms-print side price quantity es ep eq nz h ne =
      rw (es, parse_side-side_text side, read_terms)
        (rw (ep, parse_price-format_price price, nz, eq, parse_quantity-print quantity h, ne) refl)

  read_trade-print :
      (side : Side) (price : ℤ) (quantity : ℕ)
      → field fields (offset + 3) ≡ side_text side
      → field fields (offset + 4) ≡ format_price price
      → field fields (offset + 5) ≡ print quantity
      → quantity < u64_mod
      → read_trade fields offset r
        ≡ record r { side = side; price = price; quantity = quantity; valid = true }
  unfolding read_trade
  read_trade-print side price quantity es ep eq h =
      rw
        (
          es,
          is_empty-side_text side,
          parse_side-side_text side,
          ep,
          is_empty-format_price price,
          parse_price-format_price price,
          eq,
          is_empty-print quantity,
          parse_quantity-print quantity h,
        )
        refl

  read_record-print :
      (type : L3EventType) (time : ℕ)
      → field fields offset ≡ print time
      → parse_event_type (field fields (offset + 1)) ≡ type
      → leb (length fields) offset ≡ false
      → leb (length fields) (offset + 1) ≡ false
      → time < u64_mod
      → read_record fields offset r
        ≡ read_event type fields offset (record r { timestamp = time; event_type = type })
  unfolding read_record
  read_record-print type time et ey l0 l1 h =
      rw (l0, et, is_empty-print time, number_from-print time h, l1, ey) refl

-- The line of a written record reads as its fields, on top of a blank record with its symbol.
module _ (r b : L3Record) (fields : List Bytes) (offset : ℕ)
    (long : ltb (length fields) (offset + 6) ≡ false) where
  read_event-add :
      field fields (offset + 2) ≡ print r.order_id
      → field fields (offset + 3) ≡ side_text r.side
      → field fields (offset + 4) ≡ format_price r.price
      → field fields (offset + 5) ≡ print r.quantity
      → Columns r add
      → read_event add fields offset b ≡ record b {
        order_id = r.order_id;
        side = r.side;
        price = r.price;
        quantity = r.quantity;
        valid = true;
      }
  unfolding read_event
  read_event-add ei es ep eq (id, nz, q, ne) = rw long (
      read_order_id-print fields offset b add (read_terms fields offset) r.order_id ei id
      ∙ read_terms-print fields offset (record b { order_id = r.order_id }) r.side r.price
          r.quantity es ep eq nz q ne)

  read_event-modify :
      field fields (offset + 2) ≡ print r.order_id
      → field fields (offset + 3) ≡ side_text r.side
      → field fields (offset + 4) ≡ format_price r.price
      → field fields (offset + 5) ≡ print r.quantity
      → Columns r modify
      → read_event modify fields offset b ≡ record b {
        order_id = r.order_id;
        side = r.side;
        price = r.price;
        quantity = r.quantity;
        valid = true;
      }
  unfolding read_event
  read_event-modify ei es ep eq (id, nz, q, ne) = rw long (
      read_order_id-print fields offset b modify (read_terms fields offset) r.order_id ei id
      ∙ read_terms-print fields offset (record b { order_id = r.order_id }) r.side r.price
          r.quantity es ep eq nz q ne)

  read_event-cancel :
      ltb (length fields) (offset + 3) ≡ false
      → field fields (offset + 2) ≡ print r.order_id
      → Columns r cancel
      → read_event cancel fields offset b ≡ record b { order_id = r.order_id; valid = true }
  unfolding read_event
  read_event-cancel short ei (id, _, _, _) = rw short (
      read_order_id-print fields offset b cancel (λ r'. record r' { valid = true }) r.order_id ei
        id)

  read_event-trade :
      field fields (offset + 3) ≡ side_text r.side
      → field fields (offset + 4) ≡ format_price r.price
      → field fields (offset + 5) ≡ print r.quantity
      → Columns r trade
      → read_event trade fields offset b
        ≡ record b { side = r.side; price = r.price; quantity = r.quantity; valid = true }
  unfolding read_event
  read_event-trade es ep eq (_, q) =
      rw long (read_trade-print fields offset b r.side r.price r.quantity es ep eq q)

-- From `offset` on, the fields of the line are these six.
abbrev Shows : List Bytes → ℕ → List Bytes → Type 0
Shows fields offset texts =
    (field fields offset ≡ field texts 0)
    × (field fields (offset + 1) ≡ field texts 1)
    × (field fields (offset + 2) ≡ field texts 2)
    × (field fields (offset + 3) ≡ field texts 3)
    × (field fields (offset + 4) ≡ field texts 4)
    × (field fields (offset + 5) ≡ field texts 5)
    × (length fields ≡ offset + 6)

-- The record that the fields stand for, on top of a blank one with its symbol.
read_record-columns :
    (r : L3Record) (v : IsWritten r) (type : L3EventType)
    → r.event_type ≡ type
    → Columns r type
    → (fields : List Bytes) (offset : ℕ) → Shows fields offset (print r.timestamp ∷ columns r type)
    → read_record fields offset (record blank { symbol = r.symbol }) ≡ r
unfolding parse_event_type
read_record-columns r v add e c fields offset (et, ey, ei, es, ep, eq, el) =
    let b = record blank { symbol = r.symbol; timestamp = r.timestamp; event_type = add } in
    read_record-print fields offset (record blank { symbol = r.symbol }) add r.timestamp et
      (ap parse_event_type ey) (ground arith) (ground arith) v.time
    ∙ read_event-add r b fields offset (ground arith) ei es ep eq c
    ∙ ground (arith, v.valid, v.error)
read_record-columns r v modify e c fields offset (et, ey, ei, es, ep, eq, el) =
    let b = record blank { symbol = r.symbol; timestamp = r.timestamp; event_type = modify } in
    read_record-print fields offset (record blank { symbol = r.symbol }) modify r.timestamp et
      (ap parse_event_type ey) (ground arith) (ground arith) v.time
    ∙ read_event-modify r b fields offset (ground arith) ei es ep eq c
    ∙ ground (arith, v.valid, v.error)
read_record-columns r v cancel e c fields offset (et, ey, ei, es, ep, eq, el) =
    let b = record blank { symbol = r.symbol; timestamp = r.timestamp; event_type = cancel } in
    read_record-print fields offset (record blank { symbol = r.symbol }) cancel r.timestamp et
      (ap parse_event_type ey) (ground arith) (ground arith) v.time
    ∙ read_event-cancel r b fields offset (ground arith) (ground arith) ei c
    ∙ ground (arith, v.valid, v.error)
read_record-columns r v trade e c fields offset (et, ey, ei, es, ep, eq, el) =
    let b = record blank { symbol = r.symbol; timestamp = r.timestamp; event_type = trade } in
    read_record-print fields offset (record blank { symbol = r.symbol }) trade r.timestamp et
      (ap parse_event_type ey) (ground arith) (ground arith) v.time
    ∙ read_event-trade r b fields offset (ground arith) es ep eq c
    ∙ ground (arith, v.valid, v.error)
read_record-columns r v invalid e c fields offset shows = absurd c

has-side_text : (d : Side) → has comma (side_text d) ≡ false
has-side_text buy = refl
has-side_text sell = refl

has-printed : (n : ℕ) → has comma (print n) ≡ false
has-printed n = has-print comma n refl

-- Every column is free of commas.
columns-NoCommas : (r : L3Record) (type : L3EventType) → NoCommas (columns r type)
columns-NoCommas r add = (
  refl,
  (
    has-printed r.order_id,
    (
      has-side_text r.side,
      (has-format_price comma refl refl r.price refl, (has-printed r.quantity, tt)),
    ),
  ),
)
columns-NoCommas r modify = (
  refl,
  (
    has-printed r.order_id,
    (
      has-side_text r.side,
      (has-format_price comma refl refl r.price refl, (has-printed r.quantity, tt)),
    ),
  ),
)
columns-NoCommas r cancel = (refl, (has-printed r.order_id, (refl, (refl, (refl, tt)))))
columns-NoCommas r trade = (
  refl,
  (
    refl,
    (
      has-side_text r.side,
      (has-format_price comma refl refl r.price refl, (has-printed r.quantity, tt)),
    ),
  ),
)
columns-NoCommas r invalid = tt

length-columns : (r : L3Record) (type : L3EventType) → Columns r type → length (columns r type) ≡ 5
length-columns r add c = refl
length-columns r modify c = refl
length-columns r cancel c = refl
length-columns r trade c = refl
length-columns r invalid c = absurd c

parse_line-six :
    (line : Bytes) (fields : List Bytes)
    → split_csv line ≡ fields
    → length fields ≡ 6
    → parse_line false line ≡ (false, read_record fields 0 blank)
unfolding parse_line
parse_line-six line fields e six = rw (e, six) refl

parse_line-seven :
    (line symbol : Bytes) (fields : List Bytes)
    → split_csv line ≡ symbol ∷ fields
    → length fields ≡ 6
    → starts_with_symbol symbol ≡ true
    → parse_line false line
      ≡ (true, read_record (symbol ∷ fields) 1 (record blank { symbol = symbol }))
unfolding parse_line
parse_line-seven line symbol fields e six start = rw (e, six, start) refl

parse_line-line_with :
    (r : L3Record) (v : IsWritten r) (symbol : Bytes)
    → r.symbol ≡ symbol
    → IsSymbol symbol
    → parse_line false (line_with symbol r) ≡ (not (is_empty symbol), r)
parse_line-line_with r v [] e ok =
    let rest = columns r r.event_type in
    let six : length (print r.timestamp ∷ rest) ≡ 6 =
      omega (arith, length-columns r r.event_type v.columns) in
    let free : NoCommas (print r.timestamp ∷ rest) =
      (has-printed r.timestamp, columns-NoCommas r r.event_type) in
    parse_line-six (line_with [] r) (print r.timestamp ∷ rest)
      (split_csv-join_csv (print r.timestamp) rest free) six
    ∙ ap (λ x. (false, x))
        (ap (λ s. read_record (print r.timestamp ∷ rest) 0 (record blank { symbol = s })) (sym e)
          ∙ read_record-columns r v r.event_type refl v.columns (print r.timestamp ∷ rest) 0
              (refl, refl, refl, refl, refl, refl, six))
parse_line-line_with r v (c ∷ cs) e ok =
    let rest = columns r r.event_type in
    let six : length (print r.timestamp ∷ rest) ≡ 6 =
      omega (arith, length-columns r r.event_type v.columns) in
    let free : NoCommas ((c ∷ cs) ∷ print r.timestamp ∷ rest) =
      (ok.1, (has-printed r.timestamp, columns-NoCommas r r.event_type)) in
    parse_line-seven (line_with (c ∷ cs) r) (c ∷ cs) (print r.timestamp ∷ rest)
      (split_csv-join_csv (c ∷ cs) (print r.timestamp ∷ rest) free) six (rw ok.0 refl)
    ∙ ap (λ x. (true, x))
        (ap (λ s. read_record ((c ∷ cs) ∷ print r.timestamp ∷ rest) 1 (record blank { symbol = s }))
            (sym e)
          ∙ read_record-columns r v r.event_type refl v.columns
              ((c ∷ cs) ∷ print r.timestamp ∷ rest) 1
              (refl, refl, refl, refl, refl, refl, omega (arith, six)))

-- A record whose columns fit their types, with a valid price and quantity where it is an ADD or a
-- MODIFY and with defaults where its line has no column, is read back from its line; the symbol
-- column is detected exactly if the record has a symbol, which is free of commas and does not start
-- with a digit.
pub parse_line-line_of :
    (r : L3Record) → IsWritten r → parse_line false (line_of r) ≡ (not (is_empty r.symbol), r)
parse_line-line_of r v = parse_line-line_with r v r.symbol refl v.symbol
