-- ===== src/Level/Frame.antt =====
-- What the list operations leave alone: the data of every order, and the links of other slots.
use hft_orderbook_engine.Base.{
  ℕ, ◌≡◌, refl, Bool-cases, false, none, some, List, arith, ◌==◌, ap, Ptr, has, inl, inr, update,
}
use hft_orderbook_engine.Core.{Order, Store, remaining_quantity}
use hft_orderbook_engine.Level.{set_next, set_prev, set_next_at, set_prev_at}

-- An order without its links.
abbrev pub unlinked : Order → Order
unlinked o = record o { next = none; prev = none }

-- The two stores differ in links only.
abbrev pub SameData : Store → Store → Type 0
SameData s t = (x : ℕ) → unlinked (t x) ≡ unlinked (s x)

-- The two stores agree on the slots outside `xs`.
abbrev pub SameOutside : Store → Store → List ℕ → Type 0
SameOutside s t xs = (x : ℕ) → has x xs ≡ false → t x ≡ s x

pub SameData-remaining :
    (s t : Store) → SameData s t → (x : ℕ) → remaining_quantity (t x) ≡ remaining_quantity (s x)
SameData-remaining s t h x = ap remaining_quantity (h x)

pub SameData-set_next : (s : Store) (o : ℕ) (p : Ptr) → SameData s (set_next s o p)
SameData-set_next s o p x = elim (Bool-cases (o == x)) [
  | inl e ↦ rw (e, update) (ap (λ y. unlinked (s y)) (ground arith))
  | inr e ↦ rw (e, update) refl
]

pub SameData-set_prev : (s : Store) (o : ℕ) (p : Ptr) → SameData s (set_prev s o p)
SameData-set_prev s o p x = elim (Bool-cases (o == x)) [
  | inl e ↦ rw (e, update) (ap (λ y. unlinked (s y)) (ground arith))
  | inr e ↦ rw (e, update) refl
]

pub SameData-set_next_at : (s : Store) (o p : Ptr) → SameData s (set_next_at s o p)
SameData-set_next_at s none p x = refl
SameData-set_next_at s (some o) p x = SameData-set_next s o p x

pub SameData-set_prev_at : (s : Store) (o p : Ptr) → SameData s (set_prev_at s o p)
SameData-set_prev_at s none p x = refl
SameData-set_prev_at s (some o) p x = SameData-set_prev s o p x
