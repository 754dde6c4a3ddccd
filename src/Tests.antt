-- ===== src/Tests.antt =====
-- Concrete orders, books and engines, and the theorems at them.
mod Levels
mod Books
mod Engines
mod Gateways
mod Transports
mod Feeds
mod Maps
use hft_orderbook_engine.Base.{
  ℕ, ◌+◌, ◌<◌, ◌≡◌, refl, ap, Bool, true, false, Option, none, some, List, [], ◌∷◌, ◌++◌, arith,
  has, ◌==◌, if◌then◌else◌, update, inl, inr, Bool-cases,
}
use hft_orderbook_engine.Base.Int.{ℤ, pos, ◌+ℤ◌, ◌-ℤ◌, ◌/ℤ◌, ◌%ℤ◌}
use hft_orderbook_engine.Core.{Side, buy, sell, Order, OrderType, limit, Store, tif_gtc, new}
use hft_orderbook_engine.Level
use hft_orderbook_engine.Pool
use hft_orderbook_engine.Pool.FreeList.{IsPool, make-IsPool, allocate-cons}
use hft_orderbook_engine.OrderMap
use hft_orderbook_engine.Book
use hft_orderbook_engine.Book.{OrderBook, price_to_index}
use hft_orderbook_engine.Book.Invariant.{Inv, IsSound, Queues, set_queue, same_place}
use hft_orderbook_engine.Book.Operations.{add_order-Inv}
use hft_orderbook_engine.Engine.{Engine, stp_none, cancel_oldest}
use hft_orderbook_engine.Engine.Invariant.{Steady, resting_orders}
use hft_orderbook_engine.Engine.Start.{no_queues, make-Inv, make-Steady}
use hft_orderbook_engine.Engine.Submit
use hft_orderbook_engine.Engine.Operations.{IsDisplayed}

abbrev pub order : ℕ → ℕ → Side → ℕ → ℕ → Order
order id participant side price quantity = record {
  order_id = id;
  participant_id = participant;
  instrument_id = 0;
  side = side;
  type = limit;
  time_in_force = tif_gtc;
  status = new;
  price = pos price;
  quantity = quantity;
  visible_quantity = quantity;
  iceberg_slice_qty = 0;
  filled_quantity = 0;
  timestamp = 100 + id;
  next = none;
  prev = none;
}

-- A bid, an ask and another bid at the same price.
abbrev pub store : Store
store x =
    if x == 0 then order 1 7 buy 3 10 else if x == 1 then order 3 9 sell 3 12 else order 2 8 buy 3 5

abbrev pub book : OrderBook
book = Book.make (pos 0) (pos 4) (pos 1) 4

pub book-Inv : Inv book store no_queues
unfolding ◌-ℤ◌ ◌/ℤ◌
book-Inv = make-Inv (pos 0) (pos 4) (pos 1) 4 (omega arith) (omega arith) (omega arith) store

-- The first bid rests.
abbrev pub one : OrderBook × Store × Bool
one = Book.add_order book store 0

abbrev pub one_queues : Queues
one_queues = set_queue no_queues buy 3 (0 ∷ [])

pub one-added : one.2 ≡ true
unfolding Book.add_order Book.is_valid_price ◌-ℤ◌ ◌/ℤ◌ ◌%ℤ◌ Book.make OrderMap.make OrderMap.insert
    OrderMap.probe OrderMap.probe_from OrderMap.hash OrderMap.next_power_of_2
one-added = refl

pub bid-IsSound : IsSound (store 0)
bid-IsSound = record { shown = omega arith; within = omega arith; fits = omega arith }

pub one-Inv : Inv one.0 one.1 one_queues
unfolding price_to_index Book.make ◌-ℤ◌ ◌/ℤ◌
one-Inv = (add_order-Inv 0 book-Inv (λ d i. refl) bid-IsSound).1 one-added

pub one-found : OrderMap.find one.0.order_map 1 ≡ some 0
unfolding Book.add_order Book.place Book.place_at Book.raise_best Level.add_order
    Book.is_valid_price Book.price_to_index ◌-ℤ◌ ◌/ℤ◌ ◌%ℤ◌ Book.make OrderMap.make OrderMap.insert
    OrderMap.find OrderMap.probe OrderMap.probe_from OrderMap.hash OrderMap.next_power_of_2
one-found = refl

-- A new engine, and the engine in which the first bid rests.
abbrev pub fresh_engine : Engine
fresh_engine = Submit.make book store (Pool.make 4) cancel_oldest

pub fresh_engine-Steady : Steady fresh_engine
unfolding ◌-ℤ◌ ◌/ℤ◌
fresh_engine-Steady =
    make-Steady (pos 0) (pos 4) (pos 1) 4 (omega arith) (omega arith) (omega arith) 4 store
      cancel_oldest (omega arith)

abbrev pub one_engine : Engine
one_engine = record {
  book = one.0;
  store = one.1;
  pool = (Pool.allocate (Pool.make 4)).0;
  stp_mode = stp_none;
  trade_id_counter = 0;
}

pub one_owned : (d : Side) (i x : ℕ) → has x (one_queues d i) ≡ true → has x (0 ∷ []) ≡ true
one_owned buy i x h = elim (Bool-cases (3 == i)) [ inl e ↦ ground arith | inr e ↦ ground arith ]
one_owned sell i x h = cc

unfoldable pub one_engine-Steady : Steady one_engine
one_engine-Steady = record {
  queues = one_queues;
  free = 1 ∷ 2 ∷ 3 ∷ [];
  live = 0 ∷ [];
  book = one-Inv;
  pool = (allocate-cons (make-IsPool 4 (omega arith))).1;
  owned = one_owned;
}

pub order-IsDisplayed : IsDisplayed (store 1)
order-IsDisplayed = record { whole = refl; part = omega arith; fits = omega arith }

pub book_levels : one.0.num_levels ≡ 5
unfolding Book.add_order Book.place Book.place_at Book.raise_best Level.add_order
    Book.is_valid_price Book.price_to_index ◌-ℤ◌ ◌/ℤ◌ ◌%ℤ◌ Book.make OrderMap.make OrderMap.insert
    OrderMap.probe OrderMap.probe_from OrderMap.hash OrderMap.next_power_of_2
book_levels = refl

pub resting_one : resting_orders one_queues one.0.num_levels ≡ 1
resting_one = ap (resting_orders one_queues) book_levels

pub bid_plain : Book.is_iceberg (one_engine.store 0).type ≡ false
unfolding Book.add_order Book.place Book.place_at Book.raise_best Level.add_order
    Book.is_valid_price Book.price_to_index ◌-ℤ◌ ◌/ℤ◌ ◌%ℤ◌ Book.make OrderMap.make OrderMap.insert
    OrderMap.probe OrderMap.probe_from OrderMap.hash OrderMap.next_power_of_2
bid_plain = refl
