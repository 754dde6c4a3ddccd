-- ===== src/Level/Remove.antt =====
-- `PriceLevel::remove_order` unlinks an order from any place of the queue.
use mathlib.Core.Path.{ap₂}
use hft_orderbook_engine.Base.{
  has_apart, ℕ, ◌+◌, ◌≡◌, refl, ◌∙◌, ap, Bool, true, false, none, some, List, [], ◌∷◌, ◌++◌, arith,
  ◌==◌, Ptr, has, has-append, Distinct, head_or, last_or, length-append, on_null, erase, split_at,
  erase-middle,
}
use hft_orderbook_engine.Core.{Order, Store, remaining_quantity}
use hft_orderbook_engine.Level.{
  PriceLevel, set_next, set_prev, set_next_at, set_prev_at, remove_order,
}
use hft_orderbook_engine.Level.Chain.{
  Chain, total, Represents, Chain-frame, Chain-append, Chain-left, Chain-right, Chain-set_next_last,
  Chain-set_prev_head, last, last_or-last, has-last, Distinct-append, Distinct-left, Distinct-right,
  Distinct-apart, total-append, total-frame, last_or-append,
}
use hft_orderbook_engine.Level.Frame.{
  SameData, SameOutside, SameData-remaining, SameData-set_next, SameData-set_prev,
  SameData-set_next_at, SameData-set_prev_at,
}

-- The store after an order between `p` and `n` is unlinked.
abbrev pub spliced : Store → Ptr → Ptr → ℕ → Store
spliced s p n o = set_next (set_prev (set_prev_at (set_next_at s p n) n p) o none) o none

abbrev at : Ptr → ℕ → Bool
at none x = false
at (some a) x = a == x

at-last_or : (x : ℕ) (xs : List ℕ) → has x xs ≡ false → at (last_or none xs) x ≡ false
at-last_or x [] h = refl
at-last_or x (y ∷ ys) h =
    rw (last_or-last y ys) (has_apart (last y ys) x (y ∷ ys) (has-last y ys) h)

at-head_or : (x : ℕ) (xs : List ℕ) → has x xs ≡ false → at (head_or xs none) x ≡ false
at-head_or x [] h = refl
at-head_or x (y ∷ ys) h = ground arith

set_next_at_other : (s : Store) (p r : Ptr) (x : ℕ) → at p x ≡ false → set_next_at s p r x ≡ s x
set_next_at_other s none r x h = refl
set_next_at_other s (some a) r x h = ground arith

set_prev_at_other : (s : Store) (p r : Ptr) (x : ℕ) → at p x ≡ false → set_prev_at s p r x ≡ s x
set_prev_at_other s none r x h = refl
set_prev_at_other s (some a) r x h = ground arith

pub SameData-spliced : (s : Store) (p n : Ptr) (o : ℕ) → SameData s (spliced s p n o)
SameData-spliced s p n o x =
    let t = set_next_at s p n in
    let u = set_prev_at t n p in
    SameData-set_next (set_prev u o none) o none x
    ∙ SameData-set_prev u o none x
    ∙ SameData-set_prev_at t n p x
    ∙ SameData-set_next_at s p n x

module _ (s : Store) (o : ℕ) (xs ys : List ℕ) (d : Distinct (xs ++ o ∷ ys)) where
  outer : (a : ℕ) → has a xs ≡ true → has a (o ∷ ys) ≡ false
  outer a h = Distinct-apart a xs (o ∷ ys) d h

  not-mem-left : (a : ℕ) → has a (o ∷ ys) ≡ true → has a xs ≡ false
  not-mem-left a h = ground (arith, outer a)

  abbrev p : Ptr
  p = last_or none xs

  abbrev n : Ptr
  n = head_or ys none

  spliced_other :
      (x : ℕ) → at p x ≡ false → at n x ≡ false → (x == o) ≡ false → spliced s p n o x ≡ s x
  spliced_other x h k e =
      let c = set_prev_at_other (set_next_at s p n) n p x k in
      let b = set_next_at_other s p n x h in ground arith

  abbrev t : Store
  t = set_next_at s p n

  abbrev u : Store
  u = set_prev_at t n p

  left-Chain : Chain s none (xs ++ o ∷ ys) none → Chain (spliced s p n o) none xs n
  left-Chain c =
      let cut =
        Chain-set_next_last s none (some o) n xs (Distinct-left xs (o ∷ ys) d)
          (Chain-left s none none xs (o ∷ ys) c) in
      Chain-frame t (spliced s p n o) none n xs
        (λ x h.
          let same = set_prev_at_other t n p x (at-head_or x ys (ground (arith, outer x))) in
          let ne = has_apart x o xs h (not-mem-left o (ground arith)) in
          (ground arith, ground arith))
        cut

  right-Chain : Chain s none (xs ++ o ∷ ys) none → Chain (spliced s p n o) p ys none
  right-Chain c =
      let dist = Distinct-right xs (o ∷ ys) d in
      let c' =
        Chain-frame s t (some o) none ys
          (λ x h.
            let same =
              set_next_at_other s p n x (at-last_or x xs (not-mem-left x (ground arith))) in
            (ground arith, ground arith))
          (Chain-right s none none xs (o ∷ ys) c).2 in
      Chain-frame u (spliced s p n o) p none ys
        (λ x h. let ne = has_apart x o ys h dist.0 in (ground arith, ground arith))
        (Chain-set_prev_head t (some o) none p ys dist.1 c')

  spliced-Chain : Chain s none (xs ++ o ∷ ys) none → Chain (spliced s p n o) none (xs ++ ys) none
  spliced-Chain c = Chain-append (spliced s p n o) none none xs ys (left-Chain c) (right-Chain c)

  rest-Distinct : Distinct (xs ++ ys)
  rest-Distinct =
      Distinct-append xs ys (Distinct-left xs (o ∷ ys) d) (Distinct-right xs (o ∷ ys) d).1
        (λ a h. ground (arith, outer a h))

  head_without : on_null p n (head_or (xs ++ o ∷ ys) none) ≡ head_or (xs ++ ys) none
  head_without = without xs
    where
      without :
          (zs : List ℕ)
          → on_null (last_or none zs) n (head_or (zs ++ o ∷ ys) none) ≡ head_or (zs ++ ys) none
      without [] = refl
      without (z ∷ zs) = rw (last_or-last z zs)

  tail_without : on_null n p (last_or none (xs ++ o ∷ ys)) ≡ last_or none (xs ++ ys)
  tail_without = rw (last_or-append none xs (o ∷ ys), last_or-append none xs ys) (without ys)
    where
      without : (zs : List ℕ) → on_null (head_or zs none) p (last_or (some o) zs) ≡ last_or p zs
      without [] = refl
      without (z ∷ zs) = refl

module _ {s : Store} {l : PriceLevel} (xs : List ℕ) (o : ℕ) (ys : List ℕ)
    (rep : Represents s l (xs ++ o ∷ ys)) where
  links : ((s o).prev ≡ last_or none xs) × ((s o).next ≡ head_or ys none)
  links = let c = Chain-right s none none xs (o ∷ ys) rep.chain in (c.0, c.1)

  removed_self : set_next_at s (s o).prev (s o).next o ≡ s o
  removed_self =
      set_next_at_other s (s o).prev (s o).next o
        (rw links.0 (at-last_or o xs (not-mem-left s o xs ys rep.distinct o (ground arith))))

  remove_order-spliced : (remove_order l s o).1 ≡ spliced s (last_or none xs) (head_or ys none) o
  unfolding remove_order
  remove_order-spliced =
      ap
        (λ (r : Order).
          set_next
            (set_prev (set_prev_at (set_next_at s (s o).prev (s o).next) r.next r.prev) o none) o
            none)
        removed_self
      ∙ ap₂ (λ q r. spliced s q r o) links.0 links.1

  -- Only the links of the level's own orders are written.
  pub remove_order-SameOutside : SameOutside s (remove_order l s o).1 (xs ++ o ∷ ys)
  remove_order-SameOutside x out = rw remove_order-spliced (
      spliced_other s o xs ys rep.distinct x
        (at-last_or x xs (ground (arith, has-append x xs (o ∷ ys))))
        (at-head_or x ys (ground (arith, has-append x xs (o ∷ ys))))
        (ground (arith, has-append x xs (o ∷ ys))))

  pub remove_order-SameData : SameData s (remove_order l s o).1
  remove_order-SameData =
      rw remove_order-spliced (SameData-spliced s (last_or none xs) (head_or ys none) o)

  remove_order-total :
      total (remove_order l s o).1 (xs ++ ys) + remaining_quantity (s o) ≡ total s (xs ++ o ∷ ys)
  remove_order-total =
      let kept =
        total-frame s (remove_order l s o).1 (xs ++ ys)
          (λ x h. SameData-remaining s (remove_order l s o).1 remove_order-SameData x) in
      omega (arith, kept, total-append s xs (o ∷ ys), total-append s xs ys)

  -- Removing an order from a level that stands for a queue with it leaves a level that stands for the
  -- queue without it, the others in their order.
  pub remove_order-Represents : Represents (remove_order l s o).1 (remove_order l s o).0 (xs ++ ys)
  remove_order-Represents = record {
    head =
        unfold remove_order in
        (ap₂ (λ q r. on_null q r l.head) links.0 links.1
          ∙ ap (on_null (last_or none xs) (head_or ys none)) rep.head
          ∙ head_without s o xs ys rep.distinct);
    tail =
        unfold remove_order in
        (ap (λ (r : Order). on_null r.next r.prev l.tail) removed_self
          ∙ ap₂ (λ q r. on_null r q l.tail) links.0 links.1
          ∙ ap (on_null (head_or ys none) (last_or none xs)) rep.tail
          ∙ tail_without s o xs ys rep.distinct);
    chain = rw remove_order-spliced (spliced-Chain s o xs ys rep.distinct rep.chain);
    distinct = rest-Distinct s o xs ys rep.distinct;
    quantity = unfold remove_order in omega (arith, remove_order-total, rep.quantity);
    count =
        unfold remove_order in
        omega (arith, length-append xs (o ∷ ys), length-append xs ys, rep.count);
  }

module _ {s : Store} {l : PriceLevel} {xs : List ℕ} (o : ℕ) (rep : Represents s l xs) where
  -- The same for an order that the queue holds somewhere.
  pub remove_order-erase :
      has o xs ≡ true → Represents (remove_order l s o).1 (remove_order l s o).0 (erase o xs)
  remove_order-erase h =
      let (pre, post, e, out) = split_at o xs h in
      rw (e, erase-middle o pre post out) (remove_order-Represents pre o post (rw e at rep))

  pub remove_order-SameData_mem : has o xs ≡ true → SameData s (remove_order l s o).1
  remove_order-SameData_mem h =
      let (pre, post, e, out) = split_at o xs h in remove_order-SameData pre o post (rw e at rep)

  pub remove_order-SameOutside_mem : has o xs ≡ true → SameOutside s (remove_order l s o).1 xs
  remove_order-SameOutside_mem h =
      let (pre, post, e, out) = split_at o xs h in
      rw e (remove_order-SameOutside pre o post (rw e at rep))
