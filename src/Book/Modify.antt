-- ===== src/Book/Modify.antt =====
-- `OrderBook::modify_order`: detach an order and change its fields, or refuse.
use hft_orderbook_engine.Base.{
  ℕ, ◌+◌, ◌<◌, ◌^◌, ◌≡◌, refl, ap, sym, Bool, true, false, not, ◌&&◌, none, some, Option, arith,
  update_self, subst, has, leb,
}
use hft_orderbook_engine.Base.Int.{ℤ}
use hft_orderbook_engine.Core.{Side, Order, Store}
use hft_orderbook_engine.OrderMap
use hft_orderbook_engine.Book.{
  OrderBook, is_valid_price, remove_order, modify_order, amended, amended_visible, is_resting,
  is_iceberg, ModifyResult,
}
use hft_orderbook_engine.Book.Invariant.{Inv, IsSound, Queues}
use hft_orderbook_engine.Book.Frame.{core, IsSound-frame}
use hft_orderbook_engine.Book.Remove.{
  remove_at-gone, remove_order-remove_at, remove_at-core, remove_at-SameGrid,
}
use hft_orderbook_engine.Book.Operations.{Inv-update, rest, removed-Inv}
use hft_orderbook_engine.Book.Linked.{Linked, Linked-update, remove_order-Linked}

amended-IsSound :
    (p : Order) (price : ℤ) (quantity timestamp : ℕ)
    → IsSound p
    → p.filled_quantity < quantity
    → quantity < 2 ^ 64
    → IsSound (amended p price quantity timestamp)
unfolding amended amended_visible
amended-IsSound p price quantity timestamp s more fits = record {
  shown = ground arith;
  within = ground arith;
  fits = fits;
}

-- The guards of `modify_order` on an order that was found.
abbrev pub amendable : OrderBook → Order → ℤ → ℕ → Bool
amendable b o price quantity =
    is_resting o.status && not (leb quantity o.filled_quantity) && is_valid_price b price

module _ {b : OrderBook} {s : Store} {q : Queues} (id o : ℕ) (d : Side) (i : ℕ) (v : Inv b s q)
    (found : OrderMap.find b.order_map id ≡ some o) (there : has o (q d i) ≡ true) (price : ℤ)
    (quantity timestamp : ℕ) (fits : quantity < 2 ^ 64) where
  abbrev result : OrderBook × Store × Option ModifyResult
  result = modify_order b s id price quantity timestamp

  refused : amendable b (s o) price quantity ≡ false → result ≡ (b, s, none)
  unfolding modify_order
  refused h = rw (found, modify_order) (ground arith)

  kept-core : core ((remove_order b s o).1 o) ≡ core (s o)
  kept-core = rw (remove_order-remove_at o d i v there) (remove_at-core o d i v there o)

  kept-IsSound : IsSound ((remove_order b s o).1 o)
  kept-IsSound = IsSound-frame kept-core (v.placed d i o there).sound

  -- What an accepted modification gives: the order is detached, sound, and carries the new terms.
  pub record Amended (r : OrderBook × Store × Option ModifyResult) : Type 0 where
    pub reported :
        r.2 ≡ some (record { order = o; old_price = (s o).price; old_quantity = (s o).quantity })
    pub kept : Inv r.0 r.1 (rest id o d i v found there)
    pub detached : (e : Side) (j : ℕ) → has o (rest id o d i v found there e j) ≡ false
    pub new_price : (r.1 o).price ≡ price
    pub new_quantity : (r.1 o).quantity ≡ quantity
    pub new_timestamp : (r.1 o).timestamp ≡ timestamp
    pub same_filled : (r.1 o).filled_quantity ≡ (s o).filled_quantity
    pub displayed : is_iceberg (s o).type ≡ false → (r.1 o).visible_quantity ≡ quantity
    pub sound : IsSound (r.1 o)
    pub num : r.0.num_levels ≡ b.num_levels
    pub linked : (n : ℕ) → Linked b s q n → Linked r.0 r.1 (rest id o d i v found there) (n + 1)

  Amended-result : amendable b (s o) price quantity ≡ true → Amended result
  unfolding modify_order
  Amended-result h =
      let r : is_resting (s o).status ≡ true = ground arith in
      let m : leb quantity (s o).filled_quantity ≡ false = ground arith in
      let p : is_valid_price b price ≡ true = ground arith in
      let filled = ap (λ (x : Order). x.filled_quantity) kept-core in
      let type = ap (λ (x : Order). x.type) kept-core in
      rw (found, r, m, p, modify_order)
        (record {
          reported = refl;
          kept = Inv-update o _ (removed-Inv id o d i v found there) (remove_at-gone o d i v there);
          detached = remove_at-gone o d i v there;
          new_price = unfold amended in ground arith;
          new_quantity = unfold amended in ground arith;
          new_timestamp = unfold amended in ground arith;
          same_filled = unfold amended in ground (arith, filled);
          displayed = λ plain. unfold amended amended_visible in ground (arith, type);
          num = rw (remove_order-remove_at o d i v there) (remove_at-SameGrid o d i v there).num;
          linked = λ n w.
              Linked-update o _ (remove_order-Linked o d i v there w)
                (remove_at-gone o d i v there);
          sound = subst IsSound (sym (update_self (remove_order b s o).1 o _)) (
              amended-IsSound ((remove_order b s o).1 o) price quantity timestamp kept-IsSound
                (ground (arith, filled)) fits);
        })

  -- An order that the map finds and a queue holds, in a book whose invariant holds, is modified to a
  -- quantity of 64 bits exactly if it is resting, the new quantity exceeds what is filled, and the
  -- new price is valid: then it is detached with the new terms, the other orders keep their queues,
  -- the invariant holds, and the map still finds exactly the orders that rest if it did; else nothing changes.
  pub modify_order-Inv :
      (amendable b (s o) price quantity ≡ true
        → Amended (modify_order b s id price quantity timestamp))
      × (amendable b (s o) price quantity ≡ false
          → modify_order b s id price quantity timestamp ≡ (b, s, none))
  modify_order-Inv = (Amended-result, refused)
