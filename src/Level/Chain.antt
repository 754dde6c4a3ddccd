-- ===== src/Level/Chain.antt =====
-- Doubly linked chains of slots, and a level that stands for a list of slots.
use hft_orderbook_engine.Base.{
  ℕ, ◌+◌, ◌%◌, ◌≡◌, refl, ◌∙◌, ==_iff, inl, inr, Bool-cases, has-append, has_apart, true, false,
  none, some, List, [], ◌∷◌, ◌++◌, arith, ◌==◌, Ptr, has, Distinct, head_or, last_or, length,
  u64_mod, u32_mod,
}
use mathlib.Core.Path.{ap₂}
use hft_orderbook_engine.Core.{Store, remaining_quantity}
use hft_orderbook_engine.Level.{PriceLevel, set_prev, set_next_at, set_prev_at}

-- From `p` on the left to `q` on the right the links lead through `xs`, both ways.
abbrev pub Chain : Store → Ptr → List ℕ → Ptr → Type 0
Chain s p [] q = Unit
Chain s p (x ∷ xs) q = ((s x).prev ≡ p) × ((s x).next ≡ head_or xs q) × Chain s (some x) xs q

abbrev pub total : Store → List ℕ → ℕ
total s [] = 0
total s (x ∷ xs) = remaining_quantity (s x) + total s xs

-- The level holds the orders of `xs`, oldest first.
pub record Represents (s : Store) (l : PriceLevel) (xs : List ℕ) : Type 0 where
  pub head : l.head ≡ head_or xs none
  pub tail : l.tail ≡ last_or none xs
  pub chain : Chain s none xs none
  pub distinct : Distinct xs
  pub quantity : l.total_quantity ≡ total s xs % u64_mod
  pub count : l.order_count ≡ length xs % u32_mod

-- Links are left alone on `xs`.
abbrev pub SameLinks : Store → Store → List ℕ → Type 0
SameLinks s t xs = (x : ℕ) → has x xs ≡ true → ((t x).prev ≡ (s x).prev) × ((t x).next ≡ (s x).next)

pub Chain-frame :
    (s t : Store) (p q : Ptr) (xs : List ℕ) → SameLinks s t xs → Chain s p xs q → Chain t p xs q
Chain-frame s t p q [] same c = tt
Chain-frame s t p q (x ∷ xs) same c =
    let here = same x (ground arith) in
    (here.0 ∙ c.0, here.1 ∙ c.1, Chain-frame s t (some x) q xs (λ y h. same y (ground arith)) c.2)

pub total-frame :
    (s t : Store) (xs : List ℕ)
    → ((x : ℕ) → has x xs ≡ true → remaining_quantity (t x) ≡ remaining_quantity (s x))
    → total t xs ≡ total s xs
total-frame s t [] same = refl
total-frame s t (x ∷ xs) same =
    ap₂ ◌+◌ (same x (ground arith)) (total-frame s t xs (λ y h. same y (ground arith)))

pub total-append : (s : Store) (xs ys : List ℕ) → total s (xs ++ ys) ≡ total s xs + total s ys
total-append s [] ys = omega arith
total-append s (x ∷ xs) ys = omega (arith, total-append s xs ys)

pub Chain-append :
    (s : Store) (p q : Ptr) (xs ys : List ℕ)
    → Chain s p xs (head_or ys q)
    → Chain s (last_or p xs) ys q
    → Chain s p (xs ++ ys) q
Chain-append s p q [] ys c d = d
Chain-append s p q (x ∷ []) ys c d = (c.0, c.1, d)
Chain-append s p q (x ∷ y ∷ xs) ys c d = (c.0, c.1, Chain-append s (some x) q (y ∷ xs) ys c.2 d)

pub Chain-left :
    (s : Store) (p q : Ptr) (xs ys : List ℕ) → Chain s p (xs ++ ys) q → Chain s p xs (head_or ys q)
Chain-left s p q [] ys c = tt
Chain-left s p q (x ∷ []) ys c = (c.0, c.1, tt)
Chain-left s p q (x ∷ y ∷ xs) ys c = (c.0, c.1, Chain-left s (some x) q (y ∷ xs) ys c.2)

pub Chain-right :
    (s : Store) (p q : Ptr) (xs ys : List ℕ) → Chain s p (xs ++ ys) q → Chain s (last_or p xs) ys q
Chain-right s p q [] ys c = c
Chain-right s p q (x ∷ xs) ys c = Chain-right s (some x) q xs ys c.2

pub head_or-append : (xs ys : List ℕ) (q : Ptr) → head_or (xs ++ ys) q ≡ head_or xs (head_or ys q)
head_or-append [] ys q = refl
head_or-append (x ∷ xs) ys q = refl

pub last_or-append : (p : Ptr) (xs ys : List ℕ) → last_or p (xs ++ ys) ≡ last_or (last_or p xs) ys
last_or-append p [] ys = refl
last_or-append p (x ∷ xs) ys = last_or-append (some x) xs ys

-- A non-empty list has a last slot, which is one of its own.
pub last : ℕ → List ℕ → ℕ
last x [] = x
last x (y ∷ ys) = last y ys

pub last_or-last : (x : ℕ) (ys : List ℕ) → last_or (some x) ys ≡ some (last x ys)
unfolding last
last_or-last x [] = refl
last_or-last x (y ∷ ys) = last_or-last y ys

pub has-last : (x : ℕ) (ys : List ℕ) → has (last x ys) (x ∷ ys) ≡ true
unfolding last
has-last x [] = ground arith
has-last x (y ∷ ys) = ground (arith, has-last y ys)

pub Distinct-left : (xs ys : List ℕ) → Distinct (xs ++ ys) → Distinct xs
Distinct-left [] ys d = tt
Distinct-left (x ∷ xs) ys d = (ground (arith, has-append x xs ys), Distinct-left xs ys d.1)

pub Distinct-right : (xs ys : List ℕ) → Distinct (xs ++ ys) → Distinct ys
Distinct-right [] ys d = d
Distinct-right (x ∷ xs) ys d = Distinct-right xs ys d.1

-- The halves of a list of distinct slots share none.
pub Distinct-apart :
    (a : ℕ) (xs ys : List ℕ) → Distinct (xs ++ ys) → has a xs ≡ true → has a ys ≡ false
Distinct-apart a [] ys d h = cc
Distinct-apart a (x ∷ xs) ys d h = elim (Bool-cases (a == x)) [
  | inl e ↦ rw ((==_iff a x).0 e) (ground (arith, has-append x xs ys))
  | inr e ↦ Distinct-apart a xs ys d.1 (ground arith)
]

pub Distinct-append :
    (xs ys : List ℕ)
    → Distinct xs
    → Distinct ys
    → ((a : ℕ) → has a xs ≡ true → has a ys ≡ false)
    → Distinct (xs ++ ys)
Distinct-append [] ys d e apart = e
Distinct-append (x ∷ xs) ys d e apart = (
  ground (arith, has-append x xs ys, apart x),
  Distinct-append xs ys d.1 e (λ a h. apart a (ground arith)),
)

-- A write of the last `next` moves the right end of the chain.
pub Chain-set_next_last :
    (s : Store) (p q r : Ptr) (xs : List ℕ)
    → Distinct xs
    → Chain s p xs q
    → Chain (set_next_at s (last_or none xs) r) p xs r
Chain-set_next_last s p q r [] d c = tt
Chain-set_next_last s p q r (x ∷ []) d c = (ground arith, ground arith, tt)
Chain-set_next_last s p q r (x ∷ y ∷ xs) d c =
    let l = last_or-last y xs in
    let ne = has_apart (last y xs) x (y ∷ xs) (has-last y xs) d.0 in
    let rest = Chain-set_next_last s (some x) q r (y ∷ xs) d.1 c.2 in
    rw l (ground arith, ground arith, rw l at rest)

-- A write of the first `prev` moves the left end of the chain.
pub Chain-set_prev_head :
    (s : Store) (p q r : Ptr) (xs : List ℕ)
    → Distinct xs
    → Chain s p xs q
    → Chain (set_prev_at s (head_or xs none) r) r xs q
Chain-set_prev_head s p q r [] d c = tt
Chain-set_prev_head s p q r (x ∷ xs) d c = (
  ground arith,
  ground arith,
  Chain-frame s (set_prev s x r) (some x) q xs (λ y h. (ground arith, ground arith)) c.2,
)
