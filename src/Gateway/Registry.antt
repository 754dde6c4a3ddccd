-- ===== src/Gateway/Registry.antt =====
-- gateway/instrument_registry.h and instrument_registry.cpp: instruments by id and by symbol.
pub mod Lookup
use hft_orderbook_engine.Base.{
  ℕ, zero, suc, Bool, true, false, ◌&&◌, Option, none, some, List, [], ◌∷◌, ◌++◌, length, is_some,
  ◌==◌, ◌>>=◌, if◌then◌else◌,
}
use hft_orderbook_engine.Base.Int.{ℤ}

-- A symbol is the list of its bytes.
abbrev pub Symbol : Type 0
Symbol = List ℕ

abbrev pub same_symbol : Symbol → Symbol → Bool
same_symbol [] [] = true
same_symbol (a ∷ as') (b ∷ bs) = (a == b) && same_symbol as' bs
same_symbol _ _ = false

pub record InstrumentConfig : Type 0 where
  pub instrument_id : ℕ
  pub symbol : Symbol
  pub min_price : ℤ
  pub max_price : ℤ
  pub tick_size : ℤ
  pub max_orders : ℕ

-- The hash maps are association lists.
pub record InstrumentRegistry : Type 0 where
  pub instruments : List InstrumentConfig
  pub id_to_index : List (ℕ × ℕ)
  pub symbol_to_index : List (Symbol × ℕ)

abbrev pub empty_registry : InstrumentRegistry
empty_registry = record { instruments = []; id_to_index = []; symbol_to_index = [] }

abbrev pub lookup {ℓ κ} : {K : Type ℓ} {V : Type κ} → (K → K → Bool) → K → List (K × V) → Option V
lookup eq k [] = none
lookup eq k ((k', v) ∷ rest) = if eq k k' then some v else lookup eq k rest

abbrev pub get_elem? {ℓ} : {A : Type ℓ} → List A → ℕ → Option A
get_elem? [] i = none
get_elem? (x ∷ xs) zero = some x
get_elem? (x ∷ xs) (suc i) = get_elem? xs i

unfoldable pub register_instrument :
    InstrumentRegistry → InstrumentConfig → InstrumentRegistry × Bool
register_instrument r config =
    if is_some (lookup ◌==◌ config.instrument_id r.id_to_index)
    then (r, false)
    else if is_some (lookup same_symbol config.symbol r.symbol_to_index)
    then (r, false)
    else let index = length r.instruments in
      (
        record {
          instruments = r.instruments ++ config ∷ [];
          id_to_index = (config.instrument_id, index) ∷ r.id_to_index;
          symbol_to_index = (config.symbol, index) ∷ r.symbol_to_index;
        },
        true,
      )

unfoldable pub find_by_id : InstrumentRegistry → ℕ → Option InstrumentConfig
find_by_id r id = lookup ◌==◌ id r.id_to_index >>= get_elem? r.instruments

unfoldable pub find_by_symbol : InstrumentRegistry → Symbol → Option InstrumentConfig
find_by_symbol r symbol = lookup same_symbol symbol r.symbol_to_index >>= get_elem? r.instruments

abbrev pub count : InstrumentRegistry → ℕ
count r = length r.instruments
