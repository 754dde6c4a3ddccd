-- ===== src/Feed/Text.antt =====
-- The operations of `std::string` and `std::string_view` that the FIX code calls.
use hft_orderbook_engine.Base.{
  ℕ, zero, suc, ◌+◌, Bool, true, false, ◌&&◌, Option, none, some, [], ◌∷◌, ◌==◌, if◌then◌else◌,
}
use hft_orderbook_engine.Feed.{Bytes}

abbrev pub starts_with : Bytes → Bytes → Bool
starts_with [] text = true
starts_with (p ∷ ps) [] = false
starts_with (p ∷ ps) (c ∷ cs) = (p == c) && starts_with ps cs

abbrev pub shifted : ℕ → Option ℕ → Option ℕ
shifted k none = none
shifted k (some n) = some (k + n)

-- Where a pattern that is not empty starts for the first time.
abbrev pub find : Bytes → Bytes → Option ℕ
find pattern [] = none
find pattern (c ∷ cs) = if starts_with pattern (c ∷ cs) then some 0 else shifted 1 (find pattern cs)

abbrev pub take : ℕ → Bytes → Bytes
take zero text = []
take (suc n) [] = []
take (suc n) (c ∷ cs) = c ∷ take n cs

abbrev pub drop : ℕ → Bytes → Bytes
drop zero text = text
drop (suc n) [] = []
drop (suc n) (c ∷ cs) = drop n cs

abbrev pub find_from : Bytes → ℕ → Bytes → Option ℕ
find_from pattern start text = shifted start (find pattern (drop start text))

-- The bytes before the first `c`.
abbrev pub take_until : ℕ → Bytes → Bytes
take_until c [] = []
take_until c (b ∷ bs) = if b == c then [] else b ∷ take_until c bs
