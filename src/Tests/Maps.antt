-- ===== src/Tests/Maps.antt =====
-- The order map, and the book's operations by id, at a concrete map and book.
use hft_orderbook_engine.Base.{
  ℕ, ◌+◌, ◌<◌, ◌≡◌, refl, sym, Bool, true, false, none, some, arith, ◌==◌,
}
use hft_orderbook_engine.Base.Int.{pos, ◌-ℤ◌, ◌/ℤ◌, ◌%ℤ◌}
use hft_orderbook_engine.OrderMap
use hft_orderbook_engine.OrderMap.{FlatOrderMap, empty_key}
use hft_orderbook_engine.OrderMap.Ring.{IsRing}
use hft_orderbook_engine.OrderMap.Table.{IsMap}
use hft_orderbook_engine.OrderMap.Empty.{make-IsMap, make-find}
use hft_orderbook_engine.OrderMap.Grow.{insert-IsMap}
use hft_orderbook_engine.OrderMap.Erase.{erase-find}
use hft_orderbook_engine.Book
use hft_orderbook_engine.Book.Ids.{Ids}
use hft_orderbook_engine.Book.ById.{Cancels, cancel_order-Cancels}
use hft_orderbook_engine.Book.AddById.{Adds, added-Ids, add_order-Adds}
use hft_orderbook_engine.Level
use hft_orderbook_engine.Pool
use hft_orderbook_engine.Engine.{stp_none}
use hft_orderbook_engine.Engine.Invariant.{Steady, Held}
use hft_orderbook_engine.Engine.Submit
use hft_orderbook_engine.Engine.Start.{no_queues, make-Held}
use hft_orderbook_engine.Tests.{
  store, book, book-Inv, one, one_queues, one-Inv, bid-IsSound, one_engine-Steady,
}

abbrev sixteen : FlatOrderMap
sixteen = OrderMap.make 4

sixteen-IsRing : IsRing (OrderMap.make 4)
unfolding OrderMap.make OrderMap.next_power_of_2
sixteen-IsRing = record {
  exponent = 4;
  power = refl;
  mask = refl;
  others = 1152921504606846975;
  divides = refl;
  proper = omega arith;
  large = omega arith;
}

sixteen-IsMap : IsMap sixteen
sixteen-IsMap = make-IsMap 4 sixteen-IsRing

sixteen_room : sixteen.size + 1 < sixteen.capacity
unfolding OrderMap.make OrderMap.next_power_of_2
sixteen_room = omega arith

abbrev with_five : FlatOrderMap × Bool
with_five = OrderMap.insert sixteen 5 2

insert-IsMap_example :
    (with_five.1 ≡ true)
    × IsMap with_five.0
    × (with_five.0.capacity ≡ sixteen.capacity)
    × (with_five.0.size ≡ sixteen.size + 1)
    × (OrderMap.find with_five.0 5 ≡ some 2)
    × ((k : ℕ) → (k == 5) ≡ false → OrderMap.find with_five.0 k ≡ OrderMap.find sixteen k)
insert-IsMap_example =
    insert-IsMap sixteen sixteen-IsMap 5 2 (make-find 4 sixteen-IsRing 5) refl sixteen_room

five-IsMap : IsMap with_five.0
five-IsMap =
    (insert-IsMap sixteen sixteen-IsMap 5 2 (make-find 4 sixteen-IsRing 5) refl sixteen_room).1

five-found : OrderMap.find with_five.0 5 ≡ some 2
five-found =
    (insert-IsMap sixteen sixteen-IsMap 5 2 (make-find 4 sixteen-IsRing 5) refl sixteen_room).4

abbrev without_five : FlatOrderMap × Bool
without_five = OrderMap.erase with_five.0 5

erase-find_example :
    (without_five.1 ≡ true)
    × IsMap without_five.0
    × (without_five.0.capacity ≡ with_five.0.capacity)
    × (without_five.0.size + 1 ≡ with_five.0.size)
    × (OrderMap.find without_five.0 5 ≡ none)
    × ((k : ℕ) → (k == 5) ≡ false → OrderMap.find without_five.0 k ≡ OrderMap.find with_five.0 k)
erase-find_example = erase-find with_five.0 five-IsMap 5 2 five-found

book-Ids : Ids book store no_queues
unfolding Book.make
book-Ids = record {
  map = sixteen-IsMap;
  resting = λ d i o h. absurd (cc h);
  known = λ id o found. absurd (cc (sym (make-find 4 sixteen-IsRing id), found));
}

book_room : book.order_map.size + 1 < book.order_map.capacity
unfolding Book.make OrderMap.make OrderMap.next_power_of_2
book_room = omega arith

add_order-Adds_example : Adds 0 book-Inv book-Ids (λ d i. refl) bid-IsSound book_room one
add_order-Adds_example = add_order-Adds 0 book-Inv book-Ids (λ d i. refl) bid-IsSound book_room

three-valid : Book.is_valid_price book (store 0).price ≡ true
unfolding Book.is_valid_price ◌-ℤ◌ ◌%ℤ◌ Book.make
three-valid = refl

one-Ids : Ids one.0 one.1 one_queues
unfolding Book.price_to_index Book.make ◌-ℤ◌ ◌/ℤ◌
one-Ids =
    added-Ids 0 book-Inv book-Ids (λ d i. refl) bid-IsSound book_room three-valid refl
      (make-find 4 sixteen-IsRing 1)

cancel_order-Cancels_example : Cancels one.0 one.1 one_queues 1 (Book.cancel_order one.0 one.1 1)
cancel_order-Cancels_example = cancel_order-Cancels one-Inv one-Ids 1

one_room : one.0.order_map.size + 4 < one.0.order_map.capacity
unfolding Book.add_order Book.place Book.place_at Book.raise_best Level.add_order
    Book.is_valid_price Book.price_to_index ◌-ℤ◌ ◌/ℤ◌ ◌%ℤ◌ Book.make OrderMap.make OrderMap.insert
    OrderMap.probe OrderMap.probe_from OrderMap.hash OrderMap.next_power_of_2
one_room = omega arith

pub one_engine-Held : Held one_engine-Steady
unfolding one_engine-Steady
one_engine-Held = record { ids = one-Ids; room = one_room }

make_room : 4 + 1 < (OrderMap.make 4).capacity
unfolding OrderMap.make OrderMap.next_power_of_2
make_room = omega arith

make-Held_example :
    (v : Steady (Submit.make (Book.make (pos 0) (pos 4) (pos 1) 4) store (Pool.make 4) stp_none))
    × Held v
unfolding ◌-ℤ◌ ◌/ℤ◌
make-Held_example =
    make-Held (pos 0) (pos 4) (pos 1) 4 (omega arith) (omega arith) (omega arith) 4 store stp_none
      (omega arith) sixteen-IsRing make_room
