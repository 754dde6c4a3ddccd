-- ===== src/Level/Add.antt =====
-- `PriceLevel::add_order` appends to the queue.
use hft_orderbook_engine.Base.{
  has_apart, ℕ, ◌+◌, add64, ◌≡◌, refl, sym, ◌∙◌, ap, false, none, some, List, [], ◌∷◌, ◌++◌, arith,
  ◌==◌, Ptr, has, Distinct, head_or, last_or, length-append, on_null,
}
use mathlib.Core.Path.{ap₂}
use hft_orderbook_engine.Core.{Store, remaining_quantity}
use hft_orderbook_engine.Level.{PriceLevel, set_next, set_prev, set_next_at, add_order}
use hft_orderbook_engine.Level.Chain.{
  Chain, total, Represents, Chain-frame, Chain-append, Chain-set_next_last, last, last_or-last,
  has-last, Distinct-append, total-append, total-frame, last_or-append,
}
use hft_orderbook_engine.Level.Frame.{
  SameData, SameOutside, SameData-remaining, SameData-set_next, SameData-set_prev,
  SameData-set_next_at,
}

-- The store after `order` is linked behind `tail`.
abbrev pub linked : Store → Ptr → ℕ → Store
linked s tail o = set_next_at (set_prev (set_next s o none) o tail) tail (some o)

pub SameData-linked : (s : Store) (p : Ptr) (o : ℕ) → SameData s (linked s p o)
SameData-linked s p o x =
    SameData-set_next_at (set_prev (set_next s o none) o p) p (some o) x
    ∙ SameData-set_prev (set_next s o none) o p x
    ∙ SameData-set_next s o none x

module _ (s : Store) (o : ℕ) where
  linked-new :
      (xs : List ℕ)
      → has o xs ≡ false
      → Chain (linked s (last_or none xs) o) (last_or none xs) (o ∷ []) none
  linked-new [] out = (ground arith, ground arith, tt)
  linked-new (x ∷ xs) out =
      let apart = has_apart (last x xs) o (x ∷ xs) (has-last x xs) out in
      rw (last_or-last x xs) (ground arith, ground arith, tt)

  linked-Chain :
      (xs : List ℕ)
      → has o xs ≡ false
      → Distinct xs
      → Chain s none xs none
      → Chain (linked s (last_or none xs) o) none (xs ++ o ∷ []) none
  linked-Chain xs out d c =
      let p = last_or none xs in
      let t : Store = set_prev (set_next s o none) o p in
      let kept =
        Chain-frame s t none none xs
          (λ x h. let ne = has_apart x o xs h out in (ground arith, ground arith)) c in
      Chain-append (linked s p o) none none xs (o ∷ [])
        (Chain-set_next_last t none none (some o) xs d kept) (linked-new xs out)

  linked-SameOutside :
      (xs : List ℕ) (x : ℕ)
      → has x xs ≡ false
      → (x == o) ≡ false
      → linked s (last_or none xs) o x ≡ s x
  linked-SameOutside [] x out ne = ground arith
  linked-SameOutside (y ∷ ys) x out ne =
      let apart = has_apart (last y ys) x (y ∷ ys) (has-last y ys) out in
      rw (last_or-last y ys) (ground arith)

on_null-last :
    (o : ℕ) (xs : List ℕ)
    → on_null (last_or none xs) (some o) (head_or xs none) ≡ head_or (xs ++ o ∷ []) none
on_null-last o [] = refl
on_null-last o (x ∷ xs) = rw (last_or-last x xs)

module _ {s : Store} {l : PriceLevel} {xs : List ℕ} (o : ℕ) (rep : Represents s l xs) where
  add_order-linked : (add_order l s o).1 ≡ linked s (last_or none xs) o
  unfolding add_order
  add_order-linked = ap (λ p. linked s p o) rep.tail

  -- Only the links of the level's own orders and of the new order are written.
  pub add_order-SameOutside : SameOutside s (add_order l s o).1 (o ∷ xs)
  add_order-SameOutside x out =
      rw add_order-linked (linked-SameOutside s o xs x (ground arith) (ground arith))

  pub add_order-SameData : SameData s (add_order l s o).1
  unfolding add_order
  add_order-SameData = SameData-linked s l.tail o

  add_order-total : total (add_order l s o).1 (xs ++ o ∷ []) ≡ total s xs + remaining_quantity (s o)
  add_order-total =
      let kept =
        total-frame s (add_order l s o).1 (xs ++ o ∷ [])
          (λ x h. SameData-remaining s (add_order l s o).1 add_order-SameData x) in
      omega (arith, kept, total-append s xs (o ∷ []))

  pub add_order-quantity :
      (add_order l s o).0.total_quantity ≡ add64 l.total_quantity (remaining_quantity (s o))
  unfolding add_order
  add_order-quantity =
      ap (add64 l.total_quantity) (SameData-remaining s (add_order l s o).1 add_order-SameData o)

  -- Appending an order that is not among them to a level that stands for the orders `xs` gives a
  -- level that stands for `xs` and then the order.
  pub add_order-Represents :
      has o xs ≡ false → Represents (add_order l s o).1 (add_order l s o).0 (xs ++ o ∷ [])
  add_order-Represents out = record {
    head =
        unfold add_order in
        (ap₂ (λ p q. on_null p (some o) q) rep.tail rep.head ∙ on_null-last o xs);
    tail = unfold add_order in sym (last_or-append none xs (o ∷ []));
    chain = rw add_order-linked (linked-Chain s o xs out rep.distinct rep.chain);
    distinct =
        Distinct-append xs (o ∷ []) rep.distinct (refl, tt)
          (λ a h. let ne = has_apart a o xs h out in ground arith);
    quantity = rw add_order-total (omega (arith, add_order-quantity, rep.quantity));
    count = unfold add_order in omega (arith, length-append xs (o ∷ []), rep.count);
  }
