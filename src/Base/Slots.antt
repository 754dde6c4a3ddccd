-- ===== src/Base/Slots.antt =====
-- Pointers into a slab of slots, and lists of slots.
use Prim.Native.Nat.{ℕ, suc, ◌+◌}
use mathlib.Core.Path.{◌≡◌, refl, ap}
use mathlib.Core.Logic.{inl, inr}
use mathlib.Core.Bool.{Bool, true, false, ◌||◌}
use mathlib.Core.Option.{Option, none, some}
use mathlib.Core.List.{List, [], ◌∷◌, ◌++◌}
use native.Mathlib.Omega.{arith}
use hft_orderbook_engine.Base.Tests.{◌==◌, ==_iff, if◌then◌else◌, Bool-cases}

-- A nullable pointer: the number of a slot, or `none` for `nullptr`.
abbrev pub Ptr : Type 0
Ptr = Option ℕ

abbrev pub update {ℓ} : {A : Type ℓ} → (ℕ → A) → ℕ → A → ℕ → A
update f p v q = if p == q then v else f q

pub update_self {ℓ} : {A : Type ℓ} (f : ℕ → A) (p : ℕ) (v : A) → update f p v p ≡ v
update_self f p v = rw ((==_iff p p).1 refl) refl

abbrev pub on_null {ℓ} : {A : Type ℓ} → Ptr → A → A → A
on_null none a b = a
on_null (some _) a b = b

abbrev pub length {ℓ} : {A : Type ℓ} → List A → ℕ
length [] = 0
length (x ∷ xs) = suc (length xs)

pub length-append {ℓ} : {A : Type ℓ} (xs ys : List A) → length (xs ++ ys) ≡ length xs + length ys
length-append [] ys = omega arith
length-append (x ∷ xs) ys = omega (arith, length-append xs ys)

abbrev pub has : ℕ → List ℕ → Bool
has a [] = false
has a (x ∷ xs) = (a == x) || has a xs

pub has-append : (a : ℕ) (xs ys : List ℕ) → has a (xs ++ ys) ≡ (has a xs || has a ys)
has-append a [] ys = refl
has-append a (x ∷ xs) ys = ground (arith, has-append a xs ys)

pub has_apart : (a b : ℕ) (xs : List ℕ) → has a xs ≡ true → has b xs ≡ false → (a == b) ≡ false
has_apart a b xs h k = elim (Bool-cases (a == b)) [
  | inl e ↦ absurd (cc (h, k, ap (λ z. has z xs) ((==_iff a b).0 e)))
  | inr e ↦ e
]

abbrev pub Distinct : List ℕ → Type 0
Distinct [] = Unit
Distinct (x ∷ xs) = (has x xs ≡ false) × Distinct xs

-- The first slot of a list, or what follows the list.
abbrev pub is_some {ℓ} : {A : Type ℓ} → Option A → Bool
is_some none = false
is_some (some _) = true

abbrev pub head_or : List ℕ → Ptr → Ptr
head_or [] q = q
head_or (x ∷ xs) q = some x

-- The last slot of a list, or what precedes the list.
abbrev pub last_or : Ptr → List ℕ → Ptr
last_or p [] = p
last_or p (x ∷ xs) = last_or (some x) xs

-- The list without the first occurrence of `a`.
abbrev pub erase : ℕ → List ℕ → List ℕ
erase a [] = []
erase a (x ∷ xs) = if a == x then xs else x ∷ erase a xs

pub split_at :
    (a : ℕ) (xs : List ℕ)
    → has a xs ≡ true
    → (pre : List ℕ) × (post : List ℕ) × (xs ≡ pre ++ a ∷ post) × (has a pre ≡ false)
split_at a [] h = cc
split_at a (x ∷ xs) h = elim (Bool-cases (a == x)) [
  | inl e ↦ ([], xs, ground arith, refl)
  | inr e ↦
      let (pre, post, p, out) = split_at a xs (ground arith) in
      (x ∷ pre, post, ap (◌∷◌ x) p, ground arith)
]

pub erase-middle :
    (a : ℕ) (pre post : List ℕ) → has a pre ≡ false → erase a (pre ++ a ∷ post) ≡ pre ++ post
erase-middle a [] post out = ground arith
erase-middle a (x ∷ pre) post out = ground (arith, erase-middle a pre post)

pub has-erase_ne : (a b : ℕ) (xs : List ℕ) → (b == a) ≡ false → has b (erase a xs) ≡ has b xs
has-erase_ne a b [] ne = refl
has-erase_ne a b (x ∷ xs) ne = ground (arith, has-erase_ne a b xs)

pub has-erase_self : (a : ℕ) (xs : List ℕ) → Distinct xs → has a (erase a xs) ≡ false
has-erase_self a [] d = refl
has-erase_self a (x ∷ xs) d = elim (Bool-cases (a == x)) [
  | inl e ↦ rw e (rw ((==_iff a x).0 e) d.0)
  | inr e ↦ ground (arith, has-erase_self a xs d.1)
]

pub has-erase_sub : (a b : ℕ) (xs : List ℕ) → has b (erase a xs) ≡ true → has b xs ≡ true
has-erase_sub a b [] h = h
has-erase_sub a b (x ∷ xs) h = ground (arith, has-erase_sub a b xs)

pub length-erase : (o : ℕ) (xs : List ℕ) → has o xs ≡ true → length (erase o xs) + 1 ≡ length xs
length-erase o [] h = cc
length-erase o (x ∷ xs) h = ground (arith, length-erase o xs)
