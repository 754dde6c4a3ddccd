-- ===== src/Feed/Csv.antt =====
-- `split_csv` undoes joining fields with commas.
use mathlib.Core.List.{append_assoc, append-nil}
use hft_orderbook_engine.Base.{◌≡◌, sym, ◌∙◌, ap, false, List, [], ◌∷◌, ◌++◌, ◌==◌, has, arith}
use hft_orderbook_engine.Feed.{Bytes, comma, split_from, split_csv}

-- A field and then others, joined by commas.
abbrev pub join_csv : Bytes → List Bytes → Bytes
join_csv f [] = f
join_csv f (g ∷ gs) = f ++ comma ∷ join_csv g gs

abbrev pub NoCommas : List Bytes → Type 0
NoCommas [] = Unit
NoCommas (f ∷ fs) = (has comma f ≡ false) × NoCommas fs

-- Reading the bytes of a field adds them to it.
split_from-append :
    (field f rest : Bytes)
    → has comma f ≡ false
    → split_from field (f ++ rest) ≡ split_from (field ++ f) rest
unfolding split_from
split_from-append field [] rest h = ap (λ x. split_from x rest) (sym (append-nil field))
split_from-append field (c ∷ f) rest h =
    let other : (c == comma) ≡ false = ground arith in
    rw other (
      split_from-append (field ++ c ∷ []) f rest (ground arith)
      ∙ ap (λ x. split_from x rest) (append_assoc field (c ∷ []) f))

-- Splitting a line of joined fields, none of which has a comma, gives the fields.
pub split_csv-join_csv :
    (f : Bytes) (fs : List Bytes) → NoCommas (f ∷ fs) → split_csv (join_csv f fs) ≡ f ∷ fs
unfolding split_csv split_from
split_csv-join_csv f [] h = ap split_csv (sym (append-nil f)) ∙ split_from-append [] f [] h.0
split_csv-join_csv f (g ∷ gs) h =
    split_from-append [] f (comma ∷ join_csv g gs) h.0
    ∙ ap (λ x. f ∷ x) (split_csv-join_csv g gs h.1)
