-- ===== src/Engine/Invariant.antt =====
-- The invariant of the engine while an order is matched: the book's invariant, the pool's, and
-- every resting order in a live slot.
use hft_orderbook_engine.Base.{
  ℕ, zero, suc, ◌+◌, ◌≤◌, ◌<◌, ◌≡◌, refl, sym, ◌∙◌, ap, true, false, List, ◌∷◌, arith, ◌==◌, ==_iff,
  Bool-cases, subst, inl, inr, update, has, erase, length, has_apart, has-erase_ne, length-erase,
}
use hft_orderbook_engine.Core.{Side, buy, sell, OrderStatus, Store}
use hft_orderbook_engine.Pool.FreeList.{IsPool, deallocate-IsPool}
use hft_orderbook_engine.Book
use hft_orderbook_engine.Book.{OrderBook, set_status}
use hft_orderbook_engine.Book.Invariant.{Inv, Queues, set_queue}
use hft_orderbook_engine.Book.Remove.{
  remove_at-Inv, remove_at-gone, remove_order-remove_at, remove_at-SameGrid, remove_at-core,
  sub_queues,
}
use hft_orderbook_engine.Book.Frame.{core, core-set_status}
use hft_orderbook_engine.Book.Operations.{Inv-update}
use hft_orderbook_engine.Book.Linked.{Linked, remove_order-Linked, Linked-update}
use hft_orderbook_engine.Engine.{Engine, retire}

-- The queues and the slots that a state stands for, with `o` live and in no queue.
pub record Good (e : Engine) (o : ℕ) : Type 0 where
  pub queues : Queues
  pub free : List ℕ
  pub live : List ℕ
  pub book : Inv e.book e.store queues
  pub pool : IsPool e.pool free live
  pub owned : (d : Side) (i x : ℕ) → has x (queues d i) ≡ true → has x live ≡ true
  pub out : (d : Side) (i : ℕ) → has o (queues d i) ≡ false
  pub alive : has o live ≡ true

-- The invariant of the engine between two operations.
pub record Steady (e : Engine) : Type 0 where
  pub queues : Queues
  pub free : List ℕ
  pub live : List ℕ
  pub book : Inv e.book e.store queues
  pub pool : IsPool e.pool free live
  pub owned : (d : Side) (i x : ℕ) → has x (queues d i) ≡ true → has x live ≡ true

-- Between two operations the map finds exactly the orders that rest, and has more slots left than
-- the pool.
abbrev pub Held : {e : Engine} → Steady e → Type 0
Held {e} v = Linked e.book e.store v.queues (length v.free + 1)

-- The same while an order is in hand, for which there is a slot as well.
abbrev pub Tied : {e : Engine} {o : ℕ} → Good e o → Type 0
Tied {e} g = Linked e.book e.store g.queues (length g.free + 2)

-- The number of orders in the first `n` queues.
abbrev pub population : (ℕ → List ℕ) → ℕ → ℕ
population q zero = 0
population q (suc n) = length (q n) + population q n

population_above :
    (q : ℕ → List ℕ) (i : ℕ) (xs : List ℕ) (n : ℕ)
    → n ≤ i
    → population (update q i xs) n ≡ population q n
population_above q i xs zero h = refl
population_above q i xs (suc n) h =
    let ne : (i == n) ≡ false = ground arith in
    rw ne (ap (λ k. length (q n) + k) (population_above q i xs n (omega arith)))

population-update :
    (q : ℕ → List ℕ) (i : ℕ) (xs : List ℕ) (n : ℕ)
    → i < n
    → population (update q i xs) n + length (q i) ≡ population q n + length xs
population-update q i xs zero h = absurd (omega arith)
population-update q i xs (suc n) h = elim (Bool-cases (i == n)) [
  | inl e ↦ let p = sym ((==_iff i n).0 e) in rw e (rw p (omega (arith, population_above q i xs i)))
  | inr e ↦ rw e (omega (arith, population-update q i xs n (ground arith)))
]

-- The orders in the first `n` queues of both sides.
abbrev pub resting_orders : Queues → ℕ → ℕ
resting_orders q n = population (q buy) n + population (q sell) n

-- A queue that changes changes their number by the difference.
pub resting_orders-set_queue :
    (q : Queues) (d : Side) (i : ℕ) (xs : List ℕ) (n : ℕ)
    → i < n
    → resting_orders (set_queue q d i xs) n + length (q d i) ≡ resting_orders q n + length xs
resting_orders-set_queue q buy i xs n h = omega (arith, population-update (q buy) i xs n h)
resting_orders-set_queue q sell i xs n h = omega (arith, population-update (q sell) i xs n h)

-- The state `e'` is good again, at least `k` orders have left the book, and of `o` nothing but
-- links and status has changed. The map still finds the orders that rest.
abbrev pub Drops : {e : Engine} {o : ℕ} → Good e o → Engine → ℕ → Type 0
Drops {e} {o} g e' k =
    (g' : Good e' o) × (e'.book.num_levels ≡ e.book.num_levels)
    × (resting_orders g'.queues e.book.num_levels + k ≤ resting_orders g.queues e.book.num_levels)
    × (core (e'.store o) ≡ core (e.store o))
    × (Tied g → Tied g')

module _ {e : Engine} {o : ℕ} (g : Good e o) (front : ℕ) (d : Side) (i : ℕ)
    (there : has front (g.queues d i) ≡ true) where
  pub front_ne : (o == front) ≡ false
  front_ne = elim (Bool-cases (o == front)) [
    | inl p ↦ absurd (cc (g.out d i, there, ap (λ x. has x (g.queues d i)) ((==_iff o front).0 p)))
    | inr p ↦ p
  ]

  pub rest : Queues
  rest = set_queue g.queues d i (erase front (g.queues d i))

  pub removed-book :
      Inv (Book.remove_order e.book e.store front).0 (Book.remove_order e.book e.store front).1 rest
  unfolding rest
  removed-book =
      rw (remove_order-remove_at front d i g.book there) (remove_at-Inv front d i g.book there)

  pub rest-gone : (c : Side) (j : ℕ) → has front (rest c j) ≡ false
  unfolding rest
  rest-gone = remove_at-gone front d i g.book there

  pub rest-sub : (c : Side) (j x : ℕ) → has x (rest c j) ≡ true → has x (g.queues c j) ≡ true
  unfolding rest
  rest-sub = sub_queues front d i g.book there

  pub rest-out : (c : Side) (j : ℕ) → has o (rest c j) ≡ false
  rest-out c j = elim (Bool-cases (has o (rest c j))) [
    | inl h ↦ absurd (cc (rest-sub c j o h, g.out c j))
    | inr h ↦ h
  ]

  pub removed-num : (Book.remove_order e.book e.store front).0.num_levels ≡ e.book.num_levels
  removed-num =
      rw (remove_order-remove_at front d i g.book there)
        (remove_at-SameGrid front d i g.book there).num

  -- A resting order that is retired leaves its queue and its slot.
  pub retire-Good : (st : OrderStatus) → Good (retire e front st) o
  unfolding retire
  retire-Good st = record {
    queues = rest;
    free = front ∷ g.free;
    live = erase front g.live;
    book = Inv-update front _ removed-book rest-gone;
    pool = deallocate-IsPool front g.pool (g.owned d i front there);
    owned = λ c j x h.
        let ne = has_apart x front (rest c j) h (rest-gone c j) in
        rw (has-erase_ne front x g.live ne) (g.owned c j x (rest-sub c j x h));
    out = rest-out;
    alive = rw (has-erase_ne front o g.live front_ne) g.alive;
  }

  pub resting_orders-rest :
      resting_orders rest e.book.num_levels + 1 ≡ resting_orders g.queues e.book.num_levels
  unfolding rest
  resting_orders-rest = omega (
    arith,
    resting_orders-set_queue g.queues d i (erase front (g.queues d i)) e.book.num_levels
        (g.book.placed d i front there).low,
    length-erase front (g.queues d i) there,
  )

  pub removed-core :
      (x : ℕ) → core ((Book.remove_order e.book e.store front).1 x) ≡ core (e.store x)
  removed-core x =
      ap (λ (r : OrderBook × Store). core (r.1 x)) (remove_order-remove_at front d i g.book there)
      ∙ remove_at-core front d i g.book there x

  pub removed-Linked :
      Tied g
      → Linked
          (Book.remove_order e.book e.store front).0
          (Book.remove_order e.book e.store front).1
          rest
          (length g.free + 2 + 1)
  unfolding rest
  removed-Linked w = remove_order-Linked front d i g.book there w

  retire-Tied : (st : OrderStatus) → Tied g → Tied (retire-Good st)
  unfolding retire retire-Good
  retire-Tied st w =
      subst (Linked (Book.remove_order e.book e.store front).0 _ rest) (omega arith)
        (Linked-update front _ (removed-Linked w) rest-gone)

  pub retire-Drops : (st : OrderStatus) → Drops g (retire e front st) 1
  unfolding retire-Good retire
  retire-Drops st = (
    retire-Good st,
    removed-num,
    omega (arith, resting_orders-rest),
    core-set_status (Book.remove_order e.book e.store front).1 front st o ∙ removed-core o,
    retire-Tied st,
  )
