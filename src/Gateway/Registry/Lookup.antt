-- ===== src/Gateway/Registry/Lookup.antt =====
-- What is registered is found, and what was found stays.
use hft_orderbook_engine.Base.{
  ℕ, zero, suc, ◌≡◌, refl, sym, subst, ap, Bool, true, false, ◌&&◌, Option, none, some, List, [],
  ◌∷◌, ◌++◌, length, ◌==◌, ==_iff, ◌>>=◌, arith, Bool-cases, Option-cases, inl, inr,
}
use hft_orderbook_engine.Gateway.Registry.{
  Symbol, same_symbol, InstrumentConfig, InstrumentRegistry, lookup, get_elem?, register_instrument,
  find_by_id, find_by_symbol,
}

same_symbol_self : (s : Symbol) → same_symbol s s ≡ true
same_symbol_self [] = refl
same_symbol_self (c ∷ cs) = ground (arith, same_symbol_self cs)

get_elem?_last {ℓ} :
    {A : Type ℓ} (xs : List A) (x : A) → get_elem? (xs ++ x ∷ []) (length xs) ≡ some x
get_elem?_last [] x = refl
get_elem?_last (y ∷ ys) x = get_elem?_last ys x

get_elem?_kept {ℓ} :
    {A : Type ℓ} (xs : List A) (x y : A) (i : ℕ)
    → get_elem? xs i ≡ some y
    → get_elem? (xs ++ x ∷ []) i ≡ some y
get_elem?_kept [] x y i e = absurd cc
get_elem?_kept (z ∷ zs) x y zero e = e
get_elem?_kept (z ∷ zs) x y (suc i) e = get_elem?_kept zs x y i e

andb_false : (b : Bool) → b && false ≡ false
andb_false true = refl
andb_false false = refl

module _ (r : InstrumentRegistry) (config : InstrumentConfig) where
  -- The registry with the instrument added.
  abbrev grown : InstrumentRegistry
  grown = record {
    instruments = r.instruments ++ config ∷ [];
    id_to_index = (config.instrument_id, length r.instruments) ∷ r.id_to_index;
    symbol_to_index = (config.symbol, length r.instruments) ∷ r.symbol_to_index;
  }

  -- Both keys of the new instrument lead to it.
  abbrev pub Registered : InstrumentRegistry → Type 0
  Registered r' =
      (find_by_id r' config.instrument_id ≡ some config)
      × (find_by_symbol r' config.symbol ≡ some config)

  grown-Registered : Registered grown
  unfolding find_by_id find_by_symbol
  grown-Registered =
      let self : (config.instrument_id == config.instrument_id) ≡ true = (==_iff _ _).1 refl in
      (
        rw self (get_elem?_last r.instruments config),
        rw (same_symbol_self config.symbol) (get_elem?_last r.instruments config),
      )

  lost :
      (id : ℕ) (c : InstrumentConfig)
      → lookup ◌==◌ config.instrument_id r.id_to_index ≡ none
      → find_by_id r id ≡ some c
      → id == config.instrument_id ≡ false
  unfolding find_by_id
  lost id c free found = elim (Bool-cases (id == config.instrument_id)) [
    | inr e ↦ e
    | inl e ↦ absurd (
        cc (
          found,
          ap (λ k. lookup ◌==◌ k r.id_to_index >>= get_elem? r.instruments) ((==_iff _ _).0 e),
          ap (λ x. x >>= get_elem? r.instruments) free,
        ))
  ]

  grown-kept :
      (id : ℕ) (c : InstrumentConfig)
      → lookup ◌==◌ config.instrument_id r.id_to_index ≡ none
      → find_by_id r id ≡ some c
      → find_by_id grown id ≡ some c
  unfolding find_by_id
  grown-kept id c free found = elim (Bool-cases (id == config.instrument_id)) [
    | inl e ↦ absurd (cc (e, lost id c free found))
    | inr e ↦ rw e (kept (lookup ◌==◌ id r.id_to_index) found)
  ]
    where
      kept :
          (x : Option ℕ)
          → (x >>= get_elem? r.instruments) ≡ some c
          → (x >>= get_elem? (r.instruments ++ config ∷ [])) ≡ some c
      kept none e = absurd cc
      kept (some i) e = get_elem?_kept r.instruments config c i e

  known_id :
      (i : ℕ)
      → lookup ◌==◌ config.instrument_id r.id_to_index ≡ some i
      → register_instrument r config ≡ (r, false)
  unfolding register_instrument
  known_id i e = rw (e, register_instrument) refl

  known_symbol :
      (i : ℕ)
      → lookup ◌==◌ config.instrument_id r.id_to_index ≡ none
      → lookup same_symbol config.symbol r.symbol_to_index ≡ some i
      → register_instrument r config ≡ (r, false)
  unfolding register_instrument
  known_symbol i free e = rw (free, e, register_instrument) refl

  unknown :
      lookup ◌==◌ config.instrument_id r.id_to_index ≡ none
      → lookup same_symbol config.symbol r.symbol_to_index ≡ none
      → register_instrument r config ≡ (grown, true)
  unfolding register_instrument
  unknown free e = rw (free, e, register_instrument) refl

  -- A registration that succeeds is found by its id and by its symbol.
  pub register_instrument-find :
      (register_instrument r config).1 ≡ true → Registered (register_instrument r config).0
  register_instrument-find ok =
      elim (Option-cases (lookup ◌==◌ config.instrument_id r.id_to_index)) [
        | inr (i, e) ↦ absurd (cc (ok, ap (λ (x : InstrumentRegistry × Bool). x.1) (known_id i e)))
        | inl free ↦ elim (Option-cases (lookup same_symbol config.symbol r.symbol_to_index)) [
          | inr (i, e) ↦
              absurd (cc (ok, ap (λ (x : InstrumentRegistry × Bool). x.1) (known_symbol i free e)))
          | inl e ↦
              subst (λ (x : InstrumentRegistry × Bool). Registered x.0) (sym (unknown free e))
                grown-Registered
        ]
      ]

  -- What is found by its id is found the same after any registration, and a second registration
  -- under that id is refused.
  pub register_instrument-kept :
      (id : ℕ) (c : InstrumentConfig)
      → find_by_id r id ≡ some c
      → (find_by_id (register_instrument r config).0 id ≡ some c)
        × ((id == config.instrument_id) && (register_instrument r config).1 ≡ false)
  register_instrument-kept id c found =
      elim (Option-cases (lookup ◌==◌ config.instrument_id r.id_to_index)) [
        | inr (i, e) ↦ rw (known_id i e) (found, andb_false _)
        | inl free ↦ elim (Option-cases (lookup same_symbol config.symbol r.symbol_to_index)) [
          | inr (i, e) ↦ rw (known_symbol i free e) (found, andb_false _)
          | inl e ↦ rw (unknown free e) (grown-kept id c free found, rw (lost id c free found) refl)
        ]
      ]
