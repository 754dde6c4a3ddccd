-- ===== src/OrderMap/Empty.antt =====
-- An order map of flat_order_map.h without entries: a cleared one, and a new one.
use hft_orderbook_engine.Base.{
  ℕ, zero, suc, ◌≡◌, refl, sym, true, false, none, ◌==◌, arith, Bool-cases, inl, inr,
}
use hft_orderbook_engine.OrderMap.{FlatOrderMap, Entry, empty_key, find, clear, make}
use hft_orderbook_engine.OrderMap.Ring.{IsRing}
use hft_orderbook_engine.OrderMap.Count.{full_below}
use hft_orderbook_engine.OrderMap.Table.{IsTable, IsMap, find-absent}

abbrev blank : Entry
blank = record { key = empty_key; value = none }

full_below-blank : (n : ℕ) → full_below (λ _. blank) n ≡ 0
full_below-blank zero = refl
full_below-blank (suc n) = omega (arith, full_below-blank n)

find_zero : (m : FlatOrderMap) (k : ℕ) → (k == empty_key) ≡ true → find m k ≡ none
unfolding find
find_zero m k e = rw e refl

module _ (m : FlatOrderMap) (r : IsRing m) where
  cleared-IsTable : IsTable (clear m)
  unfolding clear
  cleared-IsTable = record {
    ring = record {
      exponent = r.exponent;
      power = r.power;
      mask = r.mask;
      others = r.others;
      divides = r.divides;
      proper = r.proper;
      large = r.large;
    };
    chains = λ s x hs hx full lt. absurd (cc full);
    unique = λ s t hs ht full same. absurd (cc full);
    gap = 0;
    gap_low = omega (arith, r.large);
    gap_empty = refl;
  }

  pub clear-IsMap : IsMap (clear m)
  unfolding clear cleared-IsTable
  clear-IsMap = record {
    table = cleared-IsTable;
    counted = sym (full_below-blank m.capacity);
    valued = λ s low full. absurd (cc full);
  }

  pub clear-find : (k : ℕ) → find (clear m) k ≡ none
  unfolding clear
  clear-find k = elim (Bool-cases (k == empty_key)) [
    | inl e ↦ find_zero (clear m) k e
    | inr e ↦
        let apart : (empty_key == k) ≡ false = ground (arith, e) in
        find-absent (clear m) cleared-IsTable k (λ s low. apart)
  ]

-- The map that the constructor makes, whose capacity has the form of `IsRing`.
pub make-IsMap : (n : ℕ) → IsRing (make n) → IsMap (make n)
unfolding make clear
make-IsMap n r = clear-IsMap (make n) r

pub make-find : (n : ℕ) → IsRing (make n) → (k : ℕ) → find (make n) k ≡ none
unfolding make clear
make-find n r k = clear-find (make n) r k

pub make-size : (n : ℕ) → (make n).size ≡ 0
unfolding make
make-size n = refl
