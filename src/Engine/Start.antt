-- ===== src/Engine/Start.antt =====
-- A new engine on a new book and a new pool.
use mathlib.Core.Path.{ap₂}
use hft_orderbook_engine.Base.{ℕ, ◌+◌, ◌/◌, ◌^◌, ◌<◌, ◌≡◌, refl, sym, ◌∙◌, ap, [], arith, inl}
use hft_orderbook_engine.Base.Int.{ℤ, pos, pos_part, ◌-ℤ◌, ◌/ℤ◌, ◌≤ℤ◌, to_size}
use hft_orderbook_engine.Core.{Side, buy, sell, Store}
use hft_orderbook_engine.Pool
use hft_orderbook_engine.Pool.FreeList.{make-IsPool, range, length-range}
use hft_orderbook_engine.Book
use hft_orderbook_engine.Book.{OrderBook, levels}
use hft_orderbook_engine.Book.Invariant.{Inv, IsGrid, Queues}
use hft_orderbook_engine.Book.Grid.{offset, pos_tick}
use hft_orderbook_engine.Level.Chain.{Represents}
use hft_orderbook_engine.Engine.{SelfTradePreventionMode}
use hft_orderbook_engine.OrderMap
use hft_orderbook_engine.OrderMap.Ring.{IsRing}
use hft_orderbook_engine.OrderMap.Empty.{make-IsMap, make-find, make-size}
use hft_orderbook_engine.Engine.Invariant.{Steady, Held}
use hft_orderbook_engine.Engine.Submit

abbrev pub no_queues : Queues
no_queues d i = []

module _ (min max tick : ℤ) (max_orders : ℕ) (pos_tick_size : 0 < pos_part tick)
    (range : min ≤ℤ max) (small : pos_part ((max -ℤ min) /ℤ tick) + 1 < 2 ^ 64) where
  abbrev book : OrderBook
  book = Book.make min max tick max_orders

  levels_count : book.num_levels ≡ pos_part ((max -ℤ min) /ℤ tick) + 1
  unfolding Book.make ◌/ℤ◌
  levels_count =
      let (a, ea) = offset min max range in
      let (t, et, positive) = pos_tick tick pos_tick_size in
      let whole : (max -ℤ min) /ℤ tick ≡ pos (a / t) = ap₂ ◌/ℤ◌ ea et in
      let low : pos_part ((max -ℤ min) /ℤ tick) ≡ a / t = ap pos_part whole in
      let size : to_size ((max -ℤ min) /ℤ tick) ≡ pos_part ((max -ℤ min) /ℤ tick) =
        ap to_size whole ∙ omega (arith, low, small) in
      omega (arith, size, small)

  nothing-Represents : (s : Store) (d : Side) (i : ℕ) → Represents s (levels book d i) []
  unfolding Book.make
  nothing-Represents s buy i = record {
    head = refl;
    tail = refl;
    chain = tt;
    distinct = tt;
    quantity = refl;
    count = refl;
  }
  nothing-Represents s sell i = record {
    head = refl;
    tail = refl;
    chain = tt;
    distinct = tt;
    quantity = refl;
    count = refl;
  }

  -- A new book with a positive tick, a range in order and fewer than 2^64 levels satisfies the
  -- book's invariant, with every queue empty.
  pub make-Inv : (s : Store) → Inv (Book.make min max tick max_orders) s no_queues
  unfolding Book.make
  make-Inv s = record {
    grid = record {
      tick = pos_tick_size;
      range = range;
      count = levels_count;
      fits = omega (arith, levels_count, small);
    };
    repr = nothing-Represents s;
    placed = λ d i x h. cc;
    best = λ d. best_of d;
  }
    where
      best_of :
          (d : Side) → Book.Invariant.IsBest d (Book.best_idx book d) book.num_levels (no_queues d)
      best_of buy = inl (refl, λ i h. refl)
      best_of sell = inl (refl, λ i h. refl)

  made-Steady :
      (capacity : ℕ) (s : Store) (stp : SelfTradePreventionMode)
      → capacity < 2 ^ 64
      → Steady (Submit.make (Book.make min max tick max_orders) s (Pool.make capacity) stp)
  unfolding Submit.make
  made-Steady capacity s stp fits = record {
    queues = no_queues;
    free = Pool.FreeList.range 0 capacity;
    live = [];
    book = make-Inv s;
    pool = make-IsPool capacity fits;
    owned = λ d i x h. cc;
  }

  -- With a positive tick, a price range that is not empty, and fewer than 2^64 levels and pool slots,
  -- a new engine on a new book and a new pool satisfies the engine's invariant.
  pub make-Steady :
      (capacity : ℕ) (s : Store) (stp : SelfTradePreventionMode)
      → capacity < 2 ^ 64
      → Steady (Submit.make (Book.make min max tick max_orders) s (Pool.make capacity) stp)
  make-Steady = made-Steady

  -- With these conditions, and an order map whose slots are a power of two and at least two more than
  -- those of the pool, the map of a new engine finds exactly the orders that rest, that is, none.
  pub make-Held :
      (capacity : ℕ) (s : Store) (stp : SelfTradePreventionMode)
      → capacity < 2 ^ 64
      → IsRing (OrderMap.make max_orders)
      → capacity + 1 < (OrderMap.make max_orders).capacity
      → (v : Steady (Submit.make (Book.make min max tick max_orders) s (Pool.make capacity) stp))
        × Held v
  unfolding Submit.make made-Steady Book.make
  make-Held capacity s stp fits ring room = (
    made-Steady capacity s stp fits,
    record {
      ids = record {
        map = make-IsMap max_orders ring;
        resting = λ d i o h. absurd (cc h);
        known = λ id o e. absurd (cc (sym (make-find max_orders ring id), e));
      };
      room = omega (arith, room, make-size max_orders, length-range 0 capacity);
    },
  )
