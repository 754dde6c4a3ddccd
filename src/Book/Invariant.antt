-- ===== src/Book/Invariant.antt =====
-- The invariant of the order book: each level stands for a queue of orders that belong there, and
-- the best indices are those of the best levels that are not empty.
use hft_orderbook_engine.Base.{
  ℕ, ◌+◌, ◌^◌, ◌≤◌, ◌<◌, ◌≡◌, refl, sym, ◌∙◌, ap, ◌≢◌, ◌⊎◌, Bool, true, false, none, List, [], ◌∷◌,
  arith, ◌==◌, ltb, if◌then◌else◌, has, head_or,
}
use hft_orderbook_engine.Base.Int.{pos_part, ◌-ℤ◌, ◌/ℤ◌, ◌≤ℤ◌}
use hft_orderbook_engine.Core.{Side, buy, sell, Order, Store, remaining_quantity}
use hft_orderbook_engine.Level
use hft_orderbook_engine.Level.{PriceLevel}
use hft_orderbook_engine.Level.Chain.{Represents, Chain-frame, total-frame}
use hft_orderbook_engine.Book.{
  OrderBook, levels, set_level, best_idx, invalid_index, price_to_index,
}

-- The orders of each level, oldest first.
abbrev pub Queues : Type 0
Queues = Side → ℕ → List ℕ

abbrev pub same_place : Side → ℕ → Side → ℕ → Bool
same_place buy i buy j = i == j
same_place buy i sell j = false
same_place sell i buy j = false
same_place sell i sell j = i == j

abbrev pub set_queue : Queues → Side → ℕ → List ℕ → Queues
set_queue q d i xs d' i' = if same_place d i d' i' then xs else q d' i'

pub same_place-eq :
    (d : Side) (i : ℕ) (d' : Side) (i' : ℕ) → same_place d i d' i' ≡ true → (d' ≡ d) × (i' ≡ i)
same_place-eq buy i buy j h = (refl, ground arith)
same_place-eq buy i sell j h = cc
same_place-eq sell i buy j h = cc
same_place-eq sell i sell j h = (refl, ground arith)

pub same_place_self : (d : Side) (i : ℕ) → same_place d i d i ≡ true
same_place_self buy i = ground arith
same_place_self sell i = ground arith

pub levels-set_level :
    (b : OrderBook) (d : Side) (i : ℕ) (l : PriceLevel) (d' : Side) (i' : ℕ)
    → levels (set_level b d i l) d' i' ≡ (if same_place d i d' i' then l else levels b d' i')
levels-set_level b buy i l buy j = refl
levels-set_level b buy i l sell j = refl
levels-set_level b sell i l buy j = refl
levels-set_level b sell i l sell j = refl

-- The quantities of an order are in their order, and fit a word.
pub record IsSound (o : Order) : Type 0 where
  pub shown : o.filled_quantity ≤ o.visible_quantity
  pub within : o.visible_quantity ≤ o.quantity
  pub fits : o.quantity < 2 ^ 64

-- Order `x` belongs to level `i` of side `d`.
pub record IsPlaced (b : OrderBook) (o : Order) (d : Side) (i : ℕ) : Type 0 where
  pub side : o.side ≡ d
  pub index : price_to_index b o.price ≡ i
  pub low : i < b.num_levels
  pub sound : IsSound o

abbrev pub better : Side → ℕ → ℕ → Bool
better buy i best = ltb best i
better sell i best = ltb i best

-- `best` is the best index below `n` with a queue, or invalid when there is none.
abbrev pub IsBest : Side → ℕ → ℕ → (ℕ → List ℕ) → Type 0
IsBest d best n q =
    ((best ≡ invalid_index) × ((i : ℕ) → i < n → q i ≡ []))
    ⊎ ((best < n) × (q best ≢ []) × ((i : ℕ) → i < n → better d i best ≡ true → q i ≡ []))

-- The price grid: a positive tick, and a level for each tick of the range.
pub record IsGrid (b : OrderBook) : Type 0 where
  pub tick : 0 < pos_part b.tick_size
  pub range : b.min_price ≤ℤ b.max_price
  pub count : b.num_levels ≡ pos_part ((b.max_price -ℤ b.min_price) /ℤ b.tick_size) + 1
  pub fits : b.num_levels < 2 ^ 64

pub record Inv (b : OrderBook) (s : Store) (q : Queues) : Type 0 where
  pub grid : IsGrid b
  pub repr : (d : Side) (i : ℕ) → Represents s (levels b d i) (q d i)
  pub placed : (d : Side) (i x : ℕ) → has x (q d i) ≡ true → IsPlaced b (s x) d i
  pub best : (d : Side) → IsBest d (best_idx b d) b.num_levels (q d)

-- An order stands in one queue at most.
pub one_place :
    {b : OrderBook} {s : Store} {q : Queues} (v : Inv b s q) (d : Side) (i : ℕ) (d' : Side)
    (i' x : ℕ)
    → has x (q d i) ≡ true
    → has x (q d' i') ≡ true
    → same_place d i d' i' ≡ true
one_place {b} {s} v d i d' i' x h h' = same (v.placed d i x h) (v.placed d' i' x h')
  where
    same : IsPlaced b (s x) d i → IsPlaced b (s x) d' i' → same_place d i d' i' ≡ true
    same p p' = rw (sym p.side ∙ p'.side, sym p.index ∙ p'.index) (same_place_self d' i')

-- A level is untouched where its orders are.
pub Represents-frame :
    {s t : Store} {l : PriceLevel} {xs : List ℕ}
    → ((x : ℕ) → has x xs ≡ true → t x ≡ s x)
    → Represents s l xs
    → Represents t l xs
Represents-frame {s} {t} {l} {xs} same r = record {
  head = r.head;
  tail = r.tail;
  chain =
      Chain-frame s t none none xs
        (λ x h. (ap (λ (o : Order). o.prev) (same x h), ap (λ (o : Order). o.next) (same x h)))
        r.chain;
  distinct = r.distinct;
  quantity = rw (total-frame s t xs (λ x h. ap remaining_quantity (same x h))) r.quantity;
  count = r.count;
}

pub empty-nil :
    {s : Store} {l : PriceLevel} {xs : List ℕ} → Represents s l xs → Level.empty l ≡ true → xs ≡ []
empty-nil {l} {xs} r h = go xs r.head
  where
    go : (ys : List ℕ) → l.head ≡ head_or ys none → ys ≡ []
    go [] e = refl
    go (y ∷ ys) e = ground arith

pub empty-cons :
    {s : Store} {l : PriceLevel} {xs : List ℕ} → Represents s l xs → Level.empty l ≡ false → xs ≢ []
empty-cons {l} {xs} r h e = ground (arith, ap (λ ys. head_or ys none) e, r.head)
