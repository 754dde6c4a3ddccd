-- ===== src/Feed/Fix/Tags.antt =====
-- The field loop of `FixParser::parse` reads back fields that are written one after another.
use mathlib.Core.List.{append_assoc, append-nil}
use hft_orderbook_engine.Base.{
  ℕ, ◌<◌, ◌≡◌, refl, sym, ◌∙◌, ap, true, false, some, List, [], ◌∷◌, ◌++◌, ◌==◌, update, has,
  has-append, arith, lt→ltb,
}
use hft_orderbook_engine.Base.Int.{pos}
use hft_orderbook_engine.Feed.{Bytes, is_digit, all_digits, digits_from}
use hft_orderbook_engine.Feed.Decimal.{print, print-all_digits, digits_from-print, has-print}
use hft_orderbook_engine.Feed.Lines.{is_empty}
use hft_orderbook_engine.Feed.Lines.Print.{is_empty-print}
use hft_orderbook_engine.Feed.Text.{starts_with}
use hft_orderbook_engine.Feed.Fix.Parser.{
  Tags, split_equals, set_tag, read_tags, parse_int, int_of, primary_size, tag_10,
}
use hft_orderbook_engine.Feed.Fix.Serializer.{encode}

-- The fields of a message before its checksum: values without the delimiter, and tags that the
-- parser keeps, none of them 10.
abbrev pub AreFields : ℕ → List (ℕ × Bytes) → Type 0
AreFields delim [] = Unit
AreFields delim ((tag, value) ∷ fs) =
    (tag < primary_size)
    × (has delim value ≡ false)
    × ((rest : Bytes) → starts_with tag_10 (print tag ++ (b'=' ∷ rest)) ≡ false)
    × AreFields delim fs

abbrev pub store_all : List (ℕ × Bytes) → Tags → Tags
store_all [] tags = tags
store_all ((tag, value) ∷ fs) tags = store_all fs (update tags tag value)

split_equals-digits :
    (cs v : Bytes) → all_digits cs ≡ true → split_equals (cs ++ (b'=' ∷ v)) ≡ (cs, some v)
split_equals-digits [] v h = refl
split_equals-digits (c ∷ cs) v h =
    let other : (c == b'=') ≡ false = ground arith in
    rw (other, split_equals-digits cs v (ground arith)) refl

pub parse_int-digits : (s : Bytes) → is_empty s ≡ false → parse_int s ≡ int_of (digits_from 0 s)
unfolding parse_int
parse_int-digits [] h = absurd (cc)
parse_int-digits (c ∷ cs) h = refl

pub parse_int-print : (n : ℕ) → parse_int (print n) ≡ pos n
parse_int-print n = parse_int-digits (print n) (is_empty-print n) ∙ ap int_of (digits_from-print n)

set_tag-field :
    (tag : ℕ) (value : Bytes) (tags : Tags)
    → tag < primary_size
    → set_tag (print tag ++ (b'=' ∷ value)) tags ≡ update tags tag value
unfolding set_tag
set_tag-field tag value tags h =
    rw
      (
        split_equals-digits (print tag) value (print-all_digits tag),
        is_empty-print tag,
        parse_int-print tag,
        lt→ltb tag primary_size h,
      )
      refl

read_tags-append :
    (delim : ℕ) (text f rest : Bytes) (tags : Tags)
    → has delim f ≡ false
    → read_tags delim text (f ++ rest) tags ≡ read_tags delim (text ++ f) rest tags
unfolding read_tags
read_tags-append delim text [] rest tags h =
    ap (λ x. read_tags delim x rest tags) (sym (append-nil text))
read_tags-append delim text (c ∷ f) rest tags h =
    let other : (c == delim) ≡ false = ground arith in
    rw other (
      read_tags-append delim (text ++ c ∷ []) f rest tags (ground arith)
      ∙ ap (λ x. read_tags delim x rest tags) (append_assoc text (c ∷ []) f))

-- The bytes of the first field, and those behind its delimiter.
pub encode-cons :
    (delim tag : ℕ) (value : Bytes) (fs : List (ℕ × Bytes)) (rest : Bytes)
    → encode delim ((tag, value) ∷ fs) ++ rest
      ≡ print tag ++ (b'=' ∷ (value ++ (delim ∷ (encode delim fs ++ rest))))
encode-cons delim tag value fs rest =
    append_assoc (print tag) (b'=' ∷ (value ++ (delim ∷ encode delim fs))) rest
    ∙ ap (λ x. print tag ++ (b'=' ∷ x)) (append_assoc value (delim ∷ encode delim fs) rest)

pub encode-field :
    (delim tag : ℕ) (value : Bytes) (fs : List (ℕ × Bytes)) (rest : Bytes)
    → encode delim ((tag, value) ∷ fs) ++ rest
      ≡ (print tag ++ (b'=' ∷ value)) ++ (delim ∷ (encode delim fs ++ rest))
encode-field delim tag value fs rest =
    encode-cons delim tag value fs rest
    ∙ sym (append_assoc (print tag) (b'=' ∷ value) (delim ∷ (encode delim fs ++ rest)))

pub encode-append :
    (delim : ℕ) (fs gs : List (ℕ × Bytes))
    → encode delim (fs ++ gs) ≡ encode delim fs ++ encode delim gs
encode-append delim [] gs = refl
encode-append delim ((tag, value) ∷ fs) gs =
    ap (λ x. print tag ++ (b'=' ∷ (value ++ (delim ∷ x)))) (encode-append delim fs gs)
    ∙ sym (encode-cons delim tag value fs (encode delim gs))

module _ (delim : ℕ) (plain : is_digit delim ≡ false) (apart : (delim == b'=') ≡ false) where
  pub has-field :
      (tag : ℕ) (value : Bytes)
      → has delim value ≡ false
      → has delim (print tag ++ (b'=' ∷ value)) ≡ false
  has-field tag value h =
      has-append delim (print tag) (b'=' ∷ value) ∙ rw (has-print delim tag plain, apart, h) refl

  pub read_tags-field :
      (tag : ℕ) (value rest : Bytes) (tags : Tags)
      → tag < primary_size
      → has delim value ≡ false
      → read_tags delim [] ((print tag ++ (b'=' ∷ value)) ++ (delim ∷ rest)) tags
        ≡ read_tags delim [] rest (update tags tag value)
  unfolding read_tags
  read_tags-field tag value rest tags small free =
      let self : (delim == delim) ≡ true = ground arith in
      read_tags-append delim [] (print tag ++ (b'=' ∷ value)) (delim ∷ rest) tags
        (has-field tag value free)
      ∙ rw self (ap (read_tags delim [] rest) (set_tag-field tag value tags small))

  -- The fields are stored one after another, and then the rest is read.
  pub read_tags-encode :
      (fs : List (ℕ × Bytes)) (rest : Bytes) (tags : Tags)
      → AreFields delim fs
      → read_tags delim [] (encode delim fs ++ rest) tags
        ≡ read_tags delim [] rest (store_all fs tags)
  read_tags-encode [] rest tags h = refl
  read_tags-encode ((tag, value) ∷ fs) rest tags (small, free, not_10, more) =
      ap (λ x. read_tags delim [] x tags) (encode-field delim tag value fs rest)
      ∙ read_tags-field tag value (encode delim fs ++ rest) tags small free
      ∙ read_tags-encode fs rest (update tags tag value) more
