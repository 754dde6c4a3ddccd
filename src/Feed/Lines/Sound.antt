-- ===== src/Feed/Lines/Sound.antt =====
-- What the records that `parse_line` of l3_feed_parser.cpp returns have in common.
use hft_orderbook_engine.Base.{
  ℕ, ◌+◌, ◌≡◌, refl, Bool, true, false, not, ◌&&◌, Option, none, some, List, ◌==◌, arith,
  Bool-cases, inl, inr, Option-cases, ◌||◌, ltb, leb, length,
}
use hft_orderbook_engine.Feed.{
  Bytes, L3EventType, add, cancel, trade, modify, invalid, L3Record, L3Error, split_csv,
  parse_event_type, parse_side, parse_price, parse_quantity, invalid_quantity, invalid_price,
  invalid_side, invalid_order_id, requires_order_id, requires_fields, invalid_event_type,
  too_few_fields, empty_timestamp, invalid_timestamp, missing_event_type,
}
use hft_orderbook_engine.Core.{buy}
use hft_orderbook_engine.Feed.Lines.{
  is_empty, field, blank, failed, number_from, is_zero_ℤ, is_zero_text, read_order_id,
  read_quantity, read_price, read_terms, read_trade, read_event, read_record, parse_line,
  starts_with_symbol,
}

abbrev pub has_error : Option L3Error → Bool
has_error none = false
has_error (some e) = true

-- An order has a quantity, and a record is of one of the four types.
abbrev pub usable : L3EventType → ℕ → Bool
usable add quantity = not (quantity == 0)
usable modify quantity = not (quantity == 0)
usable invalid quantity = false
usable _ quantity = true

-- A record is valid or has an error, and a valid one can be used.
pub record IsSound (r : L3Record) : Type 0 where
  pub exact : has_error r.error ≡ not r.valid
  pub usable_lem : (r.valid && not (usable r.event_type r.quantity)) ≡ false

-- A record before its end is read.
abbrev Fresh : L3Record → Type 0
Fresh r = (r.valid ≡ false) × (r.error ≡ none)

failed-IsSound : (r : L3Record) (e : L3Error) → r.valid ≡ false → IsSound (failed r e)
failed-IsSound r e h = record { exact = ground arith; usable_lem = ground arith }

abbrev IsOrder : L3EventType → Type 0
IsOrder type = ((q : ℕ) → usable type q ≡ not (q == 0))

module _ (fields : List Bytes) (offset : ℕ) where
  read_quantity-IsSound :
      (r : L3Record) → Fresh r → IsOrder r.event_type → IsSound (read_quantity fields offset r)
  unfolding read_quantity
  read_quantity-IsSound r (v, e) t =
      let qty = field fields (offset + 5) in
      elim (Bool-cases (parse_quantity qty == 0)) [
        | inl z ↦
            rw z
              (failed-IsSound (record r { quantity = parse_quantity qty }) (invalid_quantity qty) v)
        | inr z ↦
            rw z (record { exact = rw e refl; usable_lem = rw (t (parse_quantity qty), z) refl })
      ]

  read_price-IsSound :
      (r : L3Record) → Fresh r → IsOrder r.event_type → IsSound (read_price fields offset r)
  unfolding read_price
  read_price-IsSound r f t =
      let px = field fields (offset + 4) in
      elim (Bool-cases (is_zero_ℤ (parse_price px) && not (is_empty px) && not (is_zero_text px))) [
        | inl z ↦ rw z (failed-IsSound (record r { price = parse_price px }) (invalid_price px) f.0)
        | inr z ↦ rw z (read_quantity-IsSound (record r { price = parse_price px }) f t)
      ]

  read_terms-IsSound :
      (r : L3Record) → Fresh r → IsOrder r.event_type → IsSound (read_terms fields offset r)
  unfolding read_terms
  read_terms-IsSound r f t = elim (Option-cases (parse_side (field fields (offset + 3)))) [
    | inl z ↦
        rw (z, read_terms)
          (failed-IsSound (record r { side = buy }) (invalid_side (field fields (offset + 3))) f.0)
    | inr (side, z) ↦ rw (z, read_terms) (read_price-IsSound (record r { side = side }) f t)
  ]

  read_order_id-IsSound :
      (type : L3EventType) (next : L3Record → L3Record) (r : L3Record)
      → Fresh r
      → ((n : ℕ) → IsSound (next (record r { order_id = n })))
      → IsSound (read_order_id type fields offset r next)
  unfolding read_order_id
  read_order_id-IsSound type next r f h =
      let id = field fields (offset + 2) in
      elim (Bool-cases (is_empty id)) [
        | inl z ↦ rw z (failed-IsSound (record r { order_id = 0 }) (requires_order_id type) f.0)
        | inr z ↦ elim (Bool-cases (number_from 0 id).1) [
          | inl d ↦ rw (z, d) (h (number_from 0 id).0)
          | inr d ↦
              rw (z, d)
                (failed-IsSound (record r { order_id = (number_from 0 id).0 }) invalid_order_id f.0)
        ]
      ]

  read_trade-IsSound :
      (r : L3Record) → r.error ≡ none → r.event_type ≡ trade → IsSound (read_trade fields offset r)
  unfolding read_trade
  read_trade-IsSound r e t = record { exact = rw e refl; usable_lem = rw t refl }

  read_event-IsSound :
      (type : L3EventType) (r : L3Record)
      → Fresh r
      → r.event_type ≡ type
      → IsSound (read_event type fields offset r)
  unfolding read_event
  read_event-IsSound add r f e = elim (Bool-cases (ltb (length fields) (offset + 6))) [
    | inl z ↦ rw z (failed-IsSound r (requires_fields add) f.0)
    | inr z ↦ rw z (
        read_order_id-IsSound add (read_terms fields offset) r f
          (λ n. read_terms-IsSound (record r { order_id = n }) f (λ q. rw e refl)))
  ]
  read_event-IsSound modify r f e = elim (Bool-cases (ltb (length fields) (offset + 6))) [
    | inl z ↦ rw z (failed-IsSound r (requires_fields modify) f.0)
    | inr z ↦ rw z (
        read_order_id-IsSound modify (read_terms fields offset) r f
          (λ n. read_terms-IsSound (record r { order_id = n }) f (λ q. rw e refl)))
  ]
  read_event-IsSound cancel r f e = elim (Bool-cases (ltb (length fields) (offset + 3))) [
    | inl z ↦ rw z (failed-IsSound r (requires_fields cancel) f.0)
    | inr z ↦ rw z (
        read_order_id-IsSound cancel (λ r'. record r' { valid = true }) r f
          (λ n. record { exact = rw f.1 refl; usable_lem = rw e refl }))
  ]
  read_event-IsSound trade r f e = elim (Bool-cases (ltb (length fields) (offset + 6))) [
    | inl z ↦ rw z (failed-IsSound r (requires_fields trade) f.0)
    | inr z ↦ rw z (read_trade-IsSound r f.1 e)
  ]
  read_event-IsSound invalid r f e = failed-IsSound r (invalid_event_type (field fields 1)) f.0

  read_record-IsSound : (r : L3Record) → Fresh r → IsSound (read_record fields offset r)
  unfolding read_record
  read_record-IsSound r f =
      let ts = field fields offset in
      let n = number_from 0 ts in
      let type = parse_event_type (field fields (offset + 1)) in
      let timed = record r { timestamp = n.0 } in
      elim (Bool-cases (leb (length fields) offset || is_empty ts)) [
        | inl z ↦ rw z (failed-IsSound r empty_timestamp f.0)
        | inr z ↦ elim (Bool-cases n.1) [
          | inr d ↦ rw (z, d) (failed-IsSound timed invalid_timestamp f.0)
          | inl d ↦ elim (Bool-cases (leb (length fields) (offset + 1))) [
            | inl y ↦ rw (z, d, y) (failed-IsSound timed missing_event_type f.0)
            | inr y ↦
                rw (z, d, y) (read_event-IsSound type (record timed { event_type = type }) f refl)
          ]
        ]
      ]

-- Whatever the line, the record is valid exactly if it has no error, and a valid one has one of the
-- four types and, for an ADD and a MODIFY, a quantity that is not zero.
pub parse_line-IsSound : (has_symbol : Bool) (line : Bytes) → IsSound (parse_line has_symbol line).1
unfolding parse_line
parse_line-IsSound has_symbol line =
    let fields = split_csv line in
    elim (Bool-cases (ltb (length fields) 2)) [
      | inl z ↦ rw z (failed-IsSound blank too_few_fields refl)
      | inr z ↦
          elim (Bool-cases
            (has_symbol || (leb 7 (length fields) && starts_with_symbol (field fields 0)))) [
              | inl s ↦
                  rw (z, s)
                    (read_record-IsSound fields 1 (record blank { symbol = field fields 0 })
                      (refl, refl))
              | inr s ↦ rw (z, s) (read_record-IsSound fields 0 blank (refl, refl))
            ]
    ]
