-- ===== src/Feed/Fix/RoundTrip.antt =====
-- `FixParser::parse` accepts what `wrap_message` of fix_serializer.cpp makes of a body of fields.
use mathlib.Core.List.{append_assoc}
use hft_orderbook_engine.Base.{
  ℕ, ◌≡◌, refl, ◌∙◌, ap, Bool, true, false, not, ◌&&◌, some, List, [], ◌∷◌, ◌++◌, ◌==◌, length,
  arith, update, ==_iff,
}
use hft_orderbook_engine.Base.Int.{pos}
use hft_orderbook_engine.Feed.{Bytes}
use hft_orderbook_engine.Feed.Decimal.{print, has-print}
use hft_orderbook_engine.Feed.Lines.{is_empty}
use hft_orderbook_engine.Feed.Lines.Print.{is_empty-print}
use hft_orderbook_engine.Feed.Fix.{FixMessage, soh}
use hft_orderbook_engine.Feed.Fix.Parser.{
  Tags, no_tags, tag_10, parse, read_tags, set_tag, read_envelope, read_fields, missing, check_body,
  validate_checksum, actual_body_length, read_message,
}
use hft_orderbook_engine.Feed.Fix.Serializer.{
  encode, begin_string, prefix, checksum_text, wrap_message,
}
use hft_orderbook_engine.Feed.Fix.Tags.{
  AreFields, store_all, parse_int-print, read_tags-encode, read_tags-field,
}
use hft_orderbook_engine.Feed.Fix.Frame.{
  has-checksum_text, validate_checksum-fields, actual_body_length-prefix,
}

andb_false : (b : Bool) → b && false ≡ false
andb_false true = refl
andb_false false = refl

-- The message of a body, all of its bytes.
module _ (fs : List (ℕ × Bytes)) (first : Bytes) (h : AreFields soh ((35, first) ∷ fs)) where
  abbrev pub body : Bytes
  body = encode soh ((35, first) ∷ fs)

  abbrev pub sum_text : Bytes
  sum_text = checksum_text (prefix body soh ++ body)

  -- All fields of the message but the checksum.
  abbrev pub all : List (ℕ × Bytes)
  all = (8, begin_string) ∷ (9, print (length body)) ∷ (35, first) ∷ fs

  all-AreFields : AreFields soh all
  all-AreFields = (
    omega arith,
    refl,
    (λ rest. refl),
    (omega arith, has-print soh (length body) refl, (λ rest. refl), h),
  )

  whole : prefix body soh ++ body ≡ encode soh all
  whole =
      ap (λ x. b'8' ∷ b'=' ∷ (begin_string ++ (soh ∷ b'9' ∷ b'=' ∷ x)))
        (append_assoc (print (length body)) (soh ∷ []) body)

  wrapped-validate_checksum : validate_checksum (wrap_message body soh) ≡ true
  unfolding wrap_message
  wrapped-validate_checksum =
      validate_checksum-fields soh refl refl 8 begin_string
        ((9, print (length body)) ∷ (35, first) ∷ fs) (prefix body soh ++ body) all-AreFields whole
        refl

  wrapped-length : actual_body_length soh (wrap_message body soh) ≡ some (length body)
  unfolding wrap_message
  wrapped-length =
      ap (actual_body_length soh)
        (append_assoc (prefix body soh) body (tag_10 ++ (sum_text ++ (soh ∷ []))))
      ∙ actual_body_length-prefix soh refl refl (print (length body)) 35 first fs
          (sum_text ++ (soh ∷ [])) (has-print soh (length body) refl) h

  abbrev pub tags : Tags
  tags = update (store_all all no_tags) 10 sum_text

  -- The tags that the parser stores.
  pub wrapped-read_tags : read_tags soh [] (wrap_message body soh) no_tags ≡ tags
  unfolding wrap_message read_tags set_tag
  wrapped-read_tags =
      ap (λ p. read_tags soh [] (p ++ (tag_10 ++ (sum_text ++ (soh ∷ [])))) no_tags) whole
      ∙ read_tags-encode soh refl refl all (tag_10 ++ (sum_text ++ (soh ∷ []))) no_tags
          all-AreFields
      ∙ read_tags-field soh refl refl 10 sum_text [] (store_all all no_tags) (omega arith)
          (has-checksum_text soh (prefix body soh ++ body) refl)

  abbrev pub envelope : FixMessage
  envelope = record (read_envelope tags) { msg_type = b'8' }

  -- With the fields in place, both checks pass.
  wrapped-check_body :
      (m : FixMessage)
      → m.body_length ≡ pos (length body)
      → check_body soh (wrap_message body soh) m ≡ record m { valid = true }
  unfolding check_body
  wrapped-check_body m e =
      let same : (length body == length body) ≡ true = (==_iff _ _).1 refl in
      rw (wrapped-validate_checksum, andb_false (not (is_empty m.checksum)), e, wrapped-length)
        (rw same refl)

  pub wrapped-parse :
      tags 35 ≡ b'8' ∷ []
      → tags 9 ≡ print (length body)
      → parse (wrap_message body soh) ≡ record (read_fields tags envelope) { valid = true }
  unfolding parse wrap_message read_message read_fields read_envelope missing
  wrapped-parse e35 e9 =
      ap (λ (t : Tags). read_message soh (wrap_message body soh) t (read_envelope t) (t 35))
        wrapped-read_tags
      ∙ rw (e35, read_message)
          (wrapped-check_body (read_fields tags envelope)
            (rw (e9, is_empty-print (length body)) (parse_int-print (length body))))
