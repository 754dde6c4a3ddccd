-- ===== src/Book/Ids.antt =====
-- The order map of order_book.h: it finds exactly the orders that rest in the queues, by their ids,
-- and `remove_order`, `cancel_order` and `add_order` keep it so.
use hft_orderbook_engine.Base.{
  ℕ, ◌≡◌, refl, sym, subst, ◌∙◌, ap, Bool, true, false, none, some, ◌==◌, if◌then◌else◌, arith,
  ==_iff, Bool-cases, inl, inr, has, has_apart, has-erase_ne, erase,
}
use hft_orderbook_engine.Core.{Side, buy, sell, Order, Store}
use hft_orderbook_engine.OrderMap
use hft_orderbook_engine.OrderMap.{FlatOrderMap, find, empty_key}
use hft_orderbook_engine.OrderMap.Table.{IsMap}
use hft_orderbook_engine.OrderMap.Erase.{erase-find}
use hft_orderbook_engine.Book.{
  OrderBook, update_best_after_remove, update_best_bid_after_remove, update_best_ask_after_remove,
  raise_best, remove_at,
}
use hft_orderbook_engine.Book.Invariant.{Inv, Queues, set_queue, same_place, same_place-eq}
use hft_orderbook_engine.Book.Frame.{core}
use hft_orderbook_engine.Book.Remove.{remove_at-gone, remove_at-core, sub_queues}

-- Order `o` rests in some queue.
abbrev pub Rests : Queues → ℕ → Type 0
Rests q o = (d : Side) × (i : ℕ) × (has o (q d i) ≡ true)

-- The map finds the orders that rest, each by its id, and no others.
pub record Ids (b : OrderBook) (s : Store) (q : Queues) : Type 0 where
  pub map : IsMap b.order_map
  pub resting :
      (d : Side) (i o : ℕ) → has o (q d i) ≡ true → find b.order_map (s o).order_id ≡ some o
  pub known : (id o : ℕ) → find b.order_map id ≡ some o → ((s o).order_id ≡ id) × Rests q o

pub Ids-frame :
    {b : OrderBook} {s t : Store} {q : Queues}
    → ((x : ℕ) → core (t x) ≡ core (s x))
    → Ids b s q
    → Ids b t q
Ids-frame {b} {s} {t} {q} same w = record {
  map = w.map;
  resting = λ d i o h.
      ap (find b.order_map) (ap (λ (x : Order). x.order_id) (same o)) ∙ w.resting d i o h;
  known = λ id o e.
      let (named, rests) = w.known id o e in
      (ap (λ (x : Order). x.order_id) (same o) ∙ named, rests);
}

order_map-update_best :
    (b : OrderBook) (d : Side) (i : ℕ) → (update_best_after_remove b d i).order_map ≡ b.order_map
unfolding update_best_after_remove update_best_bid_after_remove update_best_ask_after_remove
order_map-update_best b buy i = ground arith
order_map-update_best b sell i = ground arith

pub order_map-raise_best :
    (b : OrderBook) (d : Side) (i : ℕ) → (raise_best b d i).order_map ≡ b.order_map
unfolding raise_best
order_map-raise_best b buy i = ground arith
order_map-raise_best b sell i = ground arith

if_order_map :
    (t : Bool) (b c : OrderBook)
    → b.order_map ≡ c.order_map
    → (if t then b else c).order_map ≡ c.order_map
if_order_map true b c e = e
if_order_map false b c e = refl

pub order_map-remove_at :
    (b : OrderBook) (s : Store) (o : ℕ) (d : Side) (i : ℕ)
    → (remove_at b s o d i).0.order_map
      ≡ (OrderMap.erase b.order_map ((remove_at b s o d i).1 o).order_id).0
unfolding remove_at
order_map-remove_at b s o buy i = if_order_map _ _ _ (order_map-update_best _ buy i)
order_map-remove_at b s o sell i = if_order_map _ _ _ (order_map-update_best _ sell i)

module _ {b : OrderBook} {s : Store} {q : Queues} (o : ℕ) (d : Side) (i : ℕ) (v : Inv b s q)
    (w : Ids b s q) (h : has o (q d i) ≡ true) where
  abbrev pub key : ℕ
  key = (s o).order_id

  abbrev pub queues : Queues
  queues = set_queue q d i (erase o (q d i))

  same_id : (x : ℕ) → ((remove_at b s o d i).1 x).order_id ≡ (s x).order_id
  same_id x = ap (λ (y : Order). y.order_id) (remove_at-core o d i v h x)

  pub new_map : (remove_at b s o d i).0.order_map ≡ (OrderMap.erase b.order_map key).0
  new_map = order_map-remove_at b s o d i ∙ ap (λ k. (OrderMap.erase b.order_map k).0) (same_id o)

  -- Another order of the queues has another id.
  other_id :
      (x : ℕ) (e : Side) (j : ℕ)
      → has x (q e j) ≡ true
      → (x == o) ≡ false
      → ((s x).order_id == key) ≡ false
  other_id x e j k ne = elim (Bool-cases ((s x).order_id == key)) [
    | inr p ↦ p
    | inl p ↦
        let same = ap (find b.order_map) ((==_iff (s x).order_id key).0 p) in
        let twice : some x ≡ some o = sym (w.resting e j x k) ∙ same ∙ w.resting d i o h in
        let at : x ≡ o = cc twice in absurd (cc (ne, (==_iff x o).1 at))
  ]

  -- The other orders stay where they are.
  stays :
      (x : ℕ) (e : Side) (j : ℕ)
      → has x (q e j) ≡ true
      → (x == o) ≡ false
      → has x (queues e j) ≡ true
  stays x e j k ne = elim (Bool-cases (same_place d i e j)) [
    | inl p ↦
        let (pe, pi) = same_place-eq d i e j p in
        let there : has x (q d i) ≡ true =
          ap (λ f. has x (f i)) (ap q (sym pe)) ∙ ap (λ n. has x (q e n)) (sym pi) ∙ k in
        rw p (has-erase_ne o x (q d i) ne ∙ there)
    | inr p ↦ rw p k
  ]

  -- The map after a removal finds the orders that are left.
  pub remove_at-Ids : Ids (remove_at b s o d i).0 (remove_at b s o d i).1 queues
  remove_at-Ids =
      let (_, map, _, _, gone, rest) = erase-find b.order_map w.map key o (w.resting d i o h) in
      record {
        map = subst IsMap (sym new_map) map;
        resting = λ e j x k.
            let ne = has_apart x o (queues e j) k (remove_at-gone o d i v h e j) in
            let was = sub_queues o d i v h e j x k in
            ap (λ m. find m ((remove_at b s o d i).1 x).order_id) new_map
            ∙ ap (find (OrderMap.erase b.order_map key).0) (same_id x)
            ∙ rest (s x).order_id (other_id x e j was ne)
            ∙ w.resting e j x was;
        known = λ id x found.
            let found' = sym (ap (λ m. find m id) new_map) ∙ found in
            let other : (id == key) ≡ false = not_key id x gone found' in
            let (named, (e, j, k)) = w.known id x (sym (rest id other) ∙ found') in
            let ne = not_removed x id named other in (same_id x ∙ named, (e, j, stays x e j k ne));
      }
    where
      not_key :
          (id x : ℕ)
          → find (OrderMap.erase b.order_map key).0 key ≡ none
          → find (OrderMap.erase b.order_map key).0 id ≡ some x
          → (id == key) ≡ false
      not_key id x gone found = elim (Bool-cases (id == key)) [
        | inr p ↦ p
        | inl p ↦
            absurd
              (cc (gone, found, ap (find (OrderMap.erase b.order_map key).0) ((==_iff id key).0 p)))
      ]

      not_removed : (x id : ℕ) → (s x).order_id ≡ id → (id == key) ≡ false → (x == o) ≡ false
      not_removed x id named other = elim (Bool-cases (x == o)) [
        | inr p ↦ p
        | inl p ↦
            let at = (==_iff x o).0 p in
            let same : id ≡ key = sym named ∙ ap (λ z. (s z).order_id) at in
            absurd (cc (other, (==_iff id key).1 same))
      ]
