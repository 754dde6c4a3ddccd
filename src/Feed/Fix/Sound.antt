-- ===== src/Feed/Fix/Sound.antt =====
-- What the messages that `FixParser::parse` returns have in common.
use hft_orderbook_engine.Base.{
  ℕ, suc, zero, ◌≡◌, ◌⊎◌, refl, Bool, true, false, not, ◌&&◌, ◌||◌, Option, none, some, [], ◌∷◌,
  ◌==◌, arith, Bool-cases, Option-cases, inl, inr, ==_iff,
}
use hft_orderbook_engine.Base.Int.{ℤ, pos, negsuc}
use hft_orderbook_engine.Feed.{Bytes}
use hft_orderbook_engine.Feed.Lines.{is_empty}
use hft_orderbook_engine.Feed.Fix.{
  FixError, FixMessage, blank, failed, empty_message, missing_msg_type, checksum_mismatch,
  invalid_msg_type, unsupported_msg_type, body_length_mismatch,
}
use hft_orderbook_engine.Feed.Fix.Sum.{HasRightSum, validate_checksum-HasRightSum}
use hft_orderbook_engine.Feed.Fix.Parser.{
  is_zero_ℤ, is_supported, missing, check_length, check_body, read_message, read_fields,
  read_envelope, validate_checksum, parse, Tags, actual_body_length, detect_delimiter, read_tags,
  no_tags,
}

abbrev pub has_error : Option FixError → Bool
has_error none = false
has_error (some e) = true

-- The fields that a message of each type cannot do without.
abbrev pub new_order_complete : FixMessage → Bool
new_order_complete m =
    not (is_empty m.cl_ord_id)
    && not (is_empty m.symbol)
    && not (m.fix_side == 0)
    && not (m.fix_ord_type == 0)
    && not (m.quantity == 0)
    && (not (m.fix_ord_type == b'2') || not (is_zero_ℤ m.price))

abbrev pub cancel_complete : FixMessage → Bool
cancel_complete m =
    not (is_empty m.cl_ord_id) && not (is_empty m.orig_cl_ord_id) && not (is_empty m.symbol)

abbrev pub replace_complete : FixMessage → Bool
replace_complete m =
    cancel_complete m && not (m.fix_side == 0) && not (m.fix_ord_type == 0) && not (m.quantity == 0)

abbrev pub is_complete : FixMessage → Bool
is_complete m =
    (m.msg_type == b'D' && new_order_complete m)
    || (m.msg_type == b'F' && cancel_complete m)
    || (m.msg_type == b'G' && replace_complete m)
    || m.msg_type == b'8'

-- A message is valid or has an error; a valid one has the fields of its type, and if it has a
-- checksum, the bytes have a right one.
pub record IsSound (raw : Bytes) (m : FixMessage) : Type 0 where
  pub exact : has_error m.error ≡ not m.valid
  pub complete : (m.valid && not (is_complete m)) ≡ false
  pub checked :
      ((m.valid && not (is_empty m.checksum)) ≡ false) ⊎ HasRightSum (detect_delimiter raw) raw

complete_new : (m : FixMessage) → m.msg_type ≡ b'D' → missing m ≡ none → new_order_complete m ≡ true
unfolding missing
complete_new m t h = ground arith

complete_cancel : (m : FixMessage) → m.msg_type ≡ b'F' → missing m ≡ none → cancel_complete m ≡ true
unfolding missing
complete_cancel m t h = ground arith

complete_replace :
    (m : FixMessage) → m.msg_type ≡ b'G' → missing m ≡ none → replace_complete m ≡ true
unfolding missing
complete_replace m t h = ground arith

complete_all :
    (m : FixMessage) → is_supported m.msg_type ≡ true → missing m ≡ none → is_complete m ≡ true
complete_all m s h = elim (Bool-cases (m.msg_type == b'D')) [
  | inl d ↦ rw (d, complete_new m ((==_iff _ _).0 d) h) refl
  | inr d ↦ elim (Bool-cases (m.msg_type == b'F')) [
    | inl f ↦ rw (d, f, complete_cancel m ((==_iff _ _).0 f) h) refl
    | inr f ↦ elim (Bool-cases (m.msg_type == b'G')) [
      | inl g ↦ rw (d, f, g, complete_replace m ((==_iff _ _).0 g) h) refl
      | inr g ↦ ground (arith, s, d, f, g)
    ]
  ]
]

module _ (raw : Bytes) where
  failed-IsSound : (m : FixMessage) (e : FixError) → m.valid ≡ false → IsSound raw (failed m e)
  failed-IsSound m e h = record {
    exact = ground arith;
    complete = ground arith;
    checked = inl (rw h refl);
  }

  accepted-IsSound :
      (m : FixMessage)
      → m.error ≡ none
      → is_complete m ≡ true
      → (not (is_empty m.checksum) && not (validate_checksum raw)) ≡ false
      → IsSound raw (record m { valid = true })
  accepted-IsSound m e c s = record {
    exact = rw e refl;
    complete = rw c refl;
    checked = elim (Bool-cases (is_empty m.checksum)) [
      | inl none_given ↦ inl (rw none_given refl)
      | inr given ↦
          let passed : validate_checksum raw ≡ true = ground (arith, s, given) in
          inr (validate_checksum-HasRightSum raw passed)
    ];
  }

  check_length-IsSound :
      (m : FixMessage) (declared : ℤ) (actual : Option ℕ)
      → m.valid ≡ false
      → IsSound raw (record m { valid = true })
      → IsSound raw (check_length m declared actual)
  check_length-IsSound m (pos (suc n)) (some actual) v ok = elim (Bool-cases (actual == suc n)) [
    | inl e ↦ rw e ok
    | inr e ↦ rw e (failed-IsSound m (body_length_mismatch m.body_length actual) v)
  ]
  check_length-IsSound m (pos (suc n)) none v ok = ok
  check_length-IsSound m (pos zero) actual v ok = ok
  check_length-IsSound m (negsuc n) actual v ok = ok

  check_body-IsSound :
      (delim : ℕ) (m : FixMessage)
      → m.valid ≡ false
      → m.error ≡ none
      → is_complete m ≡ true
      → IsSound raw (check_body delim raw m)
  unfolding check_body
  check_body-IsSound delim m v e c =
      elim (Bool-cases (not (is_empty m.checksum) && not (validate_checksum raw))) [
        | inl b ↦ rw b (failed-IsSound m checksum_mismatch v)
        | inr b ↦ rw b (
            check_length-IsSound m m.body_length (actual_body_length delim raw) v
              (accepted-IsSound m e c b))
      ]

  read_message-IsSound :
      (delim : ℕ) (tags : Tags) (m : FixMessage) (type : Bytes)
      → m.valid ≡ false
      → m.error ≡ none
      → IsSound raw (read_message delim raw tags m type)
  unfolding read_message read_fields
  read_message-IsSound delim tags m [] v e = failed-IsSound m missing_msg_type v
  read_message-IsSound delim tags m (t ∷ u ∷ rest) v e =
      failed-IsSound m (invalid_msg_type (t ∷ u ∷ rest)) v
  read_message-IsSound delim tags m (t ∷ []) v e =
      let typed : FixMessage = record m { msg_type = t } in
      let full : FixMessage = read_fields tags typed in
      elim (Bool-cases (is_supported t)) [
        | inr s ↦ rw s (failed-IsSound typed (unsupported_msg_type t) v)
        | inl s ↦ elim (Option-cases (missing full)) [
          | inr (x, lacks) ↦ rw (s, lacks) (failed-IsSound full x v)
          | inl lacks ↦
              rw (s, lacks) (check_body-IsSound delim full v e (complete_all full s lacks))
        ]
      ]

-- Whatever the bytes, as long as no number of tags, of body length and of checksum overflows an int,
-- the message is valid exactly if it has no error. A valid message has one of the four types and the
-- fields that its type cannot do without. If it has a checksum, the bytes have a tag 10 behind a
-- delimiter, and what stands behind the first such tag, up to the next delimiter or the end, is in
-- decimal digits the sum modulo 256 of the bytes before the tag. If there are several, the message's
-- checksum is the last one, which may be another text.
pub parse-IsSound : (raw : Bytes) → IsSound raw (parse raw)
unfolding parse read_envelope
parse-IsSound [] = failed-IsSound [] blank empty_message refl
parse-IsSound (c ∷ cs) =
    let raw : Bytes = c ∷ cs in
    let delim = detect_delimiter raw in
    let tags = read_tags delim [] raw no_tags in
    read_message-IsSound raw delim tags (read_envelope tags) (tags 35) refl refl
