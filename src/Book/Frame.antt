-- ===== src/Book/Frame.antt =====
-- What the book's operations leave alone: the grid, and of each order all but links and status.
use hft_orderbook_engine.Base.{
  ℕ, ◌≡◌, refl, ap, none, List, ◌==◌, ==_iff, Bool-cases, inl, inr, arith, update, sym, ◌∙◌,
}
use hft_orderbook_engine.Base.Int.{ℤ}
use hft_orderbook_engine.Core.{Side, buy, sell, Order, OrderStatus, new, Store, remaining_quantity}
use hft_orderbook_engine.Level.{PriceLevel}
use hft_orderbook_engine.Level.Chain.{Represents, Chain-frame, total-frame}
use hft_orderbook_engine.Level.Frame.{unlinked}
use hft_orderbook_engine.Book.{OrderBook, levels, price_to_index, raise_best, set_status}
use hft_orderbook_engine.Book.Invariant.{IsGrid, IsPlaced, IsSound}

pub record SameGrid (b c : OrderBook) : Type 0 where
  pub num : c.num_levels ≡ b.num_levels
  pub min : c.min_price ≡ b.min_price
  pub max : c.max_price ≡ b.max_price
  pub tick : c.tick_size ≡ b.tick_size

pub SameGrid-IsGrid : {b c : OrderBook} → SameGrid b c → IsGrid b → IsGrid c
SameGrid-IsGrid e g = record {
  tick = rw e.tick g.tick;
  range = rw (e.min, e.max) g.range;
  count = rw (e.num, e.max, e.min, e.tick) g.count;
  fits = rw e.num g.fits;
}

pub SameGrid-index :
    {b c : OrderBook} → SameGrid b c → (p : ℤ) → price_to_index c p ≡ price_to_index b p
unfolding price_to_index
SameGrid-index e p = rw (e.min, e.tick)

-- An order without its links and its status.
abbrev pub core : Order → Order
core o = record (unlinked o) { status = new }

pub IsPlaced-frame :
    {b c : OrderBook} {o p : Order} {d : Side} {i : ℕ}
    → SameGrid b c
    → core p ≡ core o
    → IsPlaced b o d i
    → IsPlaced c p d i
IsPlaced-frame {b} {c} {o} {p} e same h = record {
  side = ap (λ (x : Order). x.side) same ∙ h.side;
  index = SameGrid-index e p.price ∙ ap (λ (x : Order). price_to_index b x.price) same ∙ h.index;
  low = rw e.num h.low;
  sound = ground arith;
}

pub IsSound-frame : {o p : Order} → core p ≡ core o → IsSound o → IsSound p
IsSound-frame {o} {p} same h = ground arith

pub core-set_status :
    (s : Store) (o : ℕ) (st : OrderStatus) (x : ℕ) → core (set_status s o st x) ≡ core (s x)
core-set_status s o st x = elim (Bool-cases (o == x)) [
  | inl e ↦ rw (e, update) (ap (λ y. core (s y)) ((==_iff o x).0 e))
  | inr e ↦ rw (e, update) refl
]

-- A change of status is none to the levels.
pub Represents-set_status :
    {s : Store} {l : PriceLevel} {xs : List ℕ} (o : ℕ) (st : OrderStatus)
    → Represents s l xs
    → Represents (set_status s o st) l xs
Represents-set_status {s} {l} {xs} o st r = record {
  head = r.head;
  tail = r.tail;
  chain = Chain-frame s (set_status s o st) none none xs (λ x h. (links x).0) r.chain;
  distinct = r.distinct;
  quantity = rw (total-frame s (set_status s o st) xs (λ x h. (links x).1)) r.quantity;
  count = r.count;
}
  where
    links :
        (x : ℕ)
        → (((set_status s o st x).prev ≡ (s x).prev) × ((set_status s o st x).next ≡ (s x).next))
          × (remaining_quantity (set_status s o st x) ≡ remaining_quantity (s x))
    links x = elim (Bool-cases (o == x)) [
      | inl e ↦ let p = sym ((==_iff o x).0 e) in rw (e, update, p) ((refl, refl), refl)
      | inr e ↦ rw (e, update) ((refl, refl), refl)
    ]

pub levels-raise_best :
    (b : OrderBook) (d : Side) (i : ℕ) (d' : Side) → levels (raise_best b d i) d' ≡ levels b d'
unfolding raise_best
levels-raise_best b buy i buy = ground arith
levels-raise_best b buy i sell = ground arith
levels-raise_best b sell i buy = ground arith
levels-raise_best b sell i sell = ground arith

pub SameGrid-raise_best : (b : OrderBook) (d : Side) (i : ℕ) → SameGrid b (raise_best b d i)
unfolding raise_best
SameGrid-raise_best b buy i = record {
  num = ground arith;
  min = ground arith;
  max = ground arith;
  tick = ground arith;
}
SameGrid-raise_best b sell i = record {
  num = ground arith;
  min = ground arith;
  max = ground arith;
  tick = ground arith;
}
