-- ===== src/Tests/Books.antt =====
-- The order book's operations at concrete books.
use hft_orderbook_engine.Base.{
  ℕ, ◌≡◌, refl, ◌&&◌, true, false, Option, none, some, [], ◌∷◌, ◌++◌, arith, has, erase,
}
use hft_orderbook_engine.Base.Int.{pos, ◌-ℤ◌, ◌/ℤ◌, ◌%ℤ◌}
use hft_orderbook_engine.Core.{Side, buy, Store, cancelled}
use hft_orderbook_engine.OrderMap
use hft_orderbook_engine.Book
use hft_orderbook_engine.Book.{OrderBook, price_to_index, index_to_price, is_valid_price, remove_at}
use hft_orderbook_engine.Book.Invariant.{Inv, set_queue}
use hft_orderbook_engine.Book.Grid.{index_to_price-price_to_index}
use hft_orderbook_engine.Book.Operations.{add_order-Inv, cancel_order-Inv, rest}
use hft_orderbook_engine.Book.Remove.{remove_at-Inv}
use hft_orderbook_engine.Book.Modify.{Amended, amendable, modify_order-Inv}
use hft_orderbook_engine.Engine.Start.{no_queues, make-Inv}
use hft_orderbook_engine.Tests.{
  store, book, book-Inv, one, one_queues, one-Inv, one-found, bid-IsSound,
}

make-Inv_example : Inv (Book.make (pos 0) (pos 4) (pos 1) 4) store no_queues
unfolding ◌-ℤ◌ ◌/ℤ◌
make-Inv_example =
    make-Inv (pos 0) (pos 4) (pos 1) 4 (omega arith) (omega arith) (omega arith) store

three-valid : is_valid_price book (pos 3) ≡ true
unfolding is_valid_price ◌-ℤ◌ ◌%ℤ◌ Book.make
three-valid = refl

index_to_price-price_to_index_example : index_to_price book (price_to_index book (pos 3)) ≡ pos 3
index_to_price-price_to_index_example =
    index_to_price-price_to_index book book-Inv.grid (pos 3) three-valid

abbrev bid_index : ℕ
bid_index = price_to_index book (pos 3)

add_order-Inv_example :
    (one.2 ≡ (is_valid_price book (pos 3) && (OrderMap.insert book.order_map 1 0).1))
    × (one.2 ≡ true
        → Inv one.0 one.1 (set_queue no_queues buy bid_index (no_queues buy bid_index ++ 0 ∷ [])))
    × (one.2 ≡ false → (one.0 ≡ book) × (one.1 ≡ store))
add_order-Inv_example = add_order-Inv 0 book-Inv (λ d i. refl) bid-IsSound

abbrev removed : OrderBook × Store
removed = remove_at one.0 one.1 0 buy 3

remove_at-Inv_example :
    Inv removed.0 removed.1 (set_queue one_queues buy 3 (erase 0 (one_queues buy 3)))
remove_at-Inv_example = remove_at-Inv 0 buy 3 one-Inv refl

abbrev cancelled_book : OrderBook × Store × Option ℕ
cancelled_book = Book.cancel_order one.0 one.1 1

cancel_order-Inv_example :
    (cancelled_book.2 ≡ some 0)
    × ((cancelled_book.1 0).status ≡ cancelled)
    × Inv cancelled_book.0 cancelled_book.1 (rest 1 0 buy 3 one-Inv one-found refl)
    × ((e : Side) (j : ℕ) → has 0 (rest 1 0 buy 3 one-Inv one-found refl e j) ≡ false)
cancel_order-Inv_example = cancel_order-Inv 1 0 buy 3 one-Inv one-found refl

modify_order-Inv_example :
    (amendable one.0 (one.1 0) (pos 2) 20 ≡ true
      → Amended 1 0 buy 3 one-Inv one-found refl
          (pos 2)
          20
          200
          (omega arith)
          (Book.modify_order one.0 one.1 1 (pos 2) 20 200))
    × (amendable one.0 (one.1 0) (pos 2) 20 ≡ false
        → Book.modify_order one.0 one.1 1 (pos 2) 20 200 ≡ (one.0, one.1, none))
modify_order-Inv_example =
    modify_order-Inv 1 0 buy 3 one-Inv one-found refl (pos 2) 20 200 (omega arith)
