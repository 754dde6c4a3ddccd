-- ===== src/Tests/Levels.antt =====
-- Levels, pools and the order map at concrete values.
use hft_orderbook_engine.Base.{ℕ, ◌≡◌, refl, true, false, some, [], ◌∷◌, ◌++◌, arith, ◌==◌}
use hft_orderbook_engine.Core.{Store}
use hft_orderbook_engine.Level
use hft_orderbook_engine.Level.{PriceLevel}
use hft_orderbook_engine.Level.Chain.{Represents}
use hft_orderbook_engine.Level.Add.{add_order-Represents}
use hft_orderbook_engine.Level.Remove.{remove_order-Represents}
use hft_orderbook_engine.Pool
use hft_orderbook_engine.Pool.FreeList.{IsPool, make-IsPool, allocate-cons, deallocate-IsPool}
use hft_orderbook_engine.OrderMap
use hft_orderbook_engine.OrderMap.{FlatOrderMap}
use hft_orderbook_engine.OrderMap.Insert.{insert-find, Inserted}
use hft_orderbook_engine.Book.{empty_level}
use hft_orderbook_engine.Tests.{store}

nothing : Represents store empty_level []
nothing = record {
  head = refl;
  tail = refl;
  chain = tt;
  distinct = tt;
  quantity = refl;
  count = refl;
}

abbrev first : PriceLevel × Store
first = Level.add_order empty_level store 0

first-Represents : Represents first.1 first.0 (0 ∷ [])
first-Represents = add_order-Represents 0 nothing refl

abbrev second : PriceLevel × Store
second = Level.add_order first.0 first.1 1

second-Represents : Represents second.1 second.0 (0 ∷ 1 ∷ [])
second-Represents = add_order-Represents 1 first-Represents refl

add_order-Represents_example : Represents second.1 second.0 ((0 ∷ []) ++ 1 ∷ [])
add_order-Represents_example = add_order-Represents 1 first-Represents refl

remove_order-Represents_example :
    Represents
      (Level.remove_order second.0 second.1 0).1
      (Level.remove_order second.0 second.1 0).0
      ([] ++ 1 ∷ [])
remove_order-Represents_example = remove_order-Represents [] 0 (1 ∷ []) second-Represents

slots-IsPool : IsPool (Pool.make 3) (0 ∷ 1 ∷ 2 ∷ []) []
slots-IsPool = make-IsPool 3 (omega arith)

make-IsPool_example : IsPool (Pool.make 3) (0 ∷ 1 ∷ 2 ∷ []) []
make-IsPool_example = make-IsPool 3 (omega arith)

allocate-cons_example :
    ((Pool.allocate (Pool.make 3)).1 ≡ some 0)
    × IsPool (Pool.allocate (Pool.make 3)).0 (1 ∷ 2 ∷ []) (0 ∷ [])
allocate-cons_example = allocate-cons slots-IsPool

taken-IsPool : IsPool (Pool.allocate (Pool.make 3)).0 (1 ∷ 2 ∷ []) (0 ∷ [])
taken-IsPool = (allocate-cons slots-IsPool).1

deallocate-IsPool_example :
    IsPool (Pool.deallocate (Pool.allocate (Pool.make 3)).0 0) (0 ∷ 1 ∷ 2 ∷ []) []
deallocate-IsPool_example = deallocate-IsPool 0 taken-IsPool refl

insert-find_example :
    ((OrderMap.insert (OrderMap.make 4) 17 2).1 ≡ true
      → Inserted (OrderMap.make 4) 17 2 (OrderMap.insert (OrderMap.make 4) 17 2).0)
    × ((17 == 0) ≡ true → OrderMap.insert (OrderMap.make 4) 17 2 ≡ (OrderMap.make 4, false))
    × ((v : ℕ)
        → OrderMap.find (OrderMap.make 4) 17 ≡ some v
        → OrderMap.insert (OrderMap.make 4) 17 2 ≡ (OrderMap.make 4, false))
insert-find_example = insert-find (OrderMap.make 4) 17 2
