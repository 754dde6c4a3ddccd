-- ===== src/Pool.antt =====
-- orderbook/memory_pool.h: a slab of slots with an intrusive free list.
pub mod FreeList
use hft_orderbook_engine.Base.{
  ℕ, zero, suc, Bool, true, false, none, some, Ptr, update, on_null, ◌==◌, ltb, if◌then◌else◌, ◌&&◌,
  add64, sub64, leb,
}

-- `next_free` is the `FreeNode` overlay of each slot; slots are numbered from the storage's start.
pub record MemoryPool : Type 0 where
  pub capacity : ℕ
  pub free_list : Ptr
  pub next_free : ℕ → Ptr
  pub allocated_count : ℕ
  pub high_water_mark : ℕ

-- The constructor's loop, from the last slot to slot 0.
unfoldable pub build_free_list : ℕ → MemoryPool → MemoryPool
build_free_list zero p = p
build_free_list (suc i) p =
    build_free_list i
      (record p { next_free = update p.next_free i p.free_list; free_list = some i })

unfoldable pub make : ℕ → MemoryPool
make capacity = build_free_list capacity (record {
  capacity = capacity;
  free_list = none;
  next_free = λ _. none;
  allocated_count = 0;
  high_water_mark = 0;
})

unfoldable pub raise_mark : MemoryPool → MemoryPool
raise_mark p =
    if ltb p.high_water_mark p.allocated_count
    then record p { high_water_mark = p.allocated_count }
    else p

unfoldable pub allocate : MemoryPool → MemoryPool × Ptr
allocate p = elim p.free_list [
  | none ↦ (p, none)
  | some node ↦ (
    raise_mark
        (record p { free_list = p.next_free node; allocated_count = add64 p.allocated_count 1 }),
    some node,
  )
]

unfoldable pub deallocate : MemoryPool → ℕ → MemoryPool
deallocate p node = record p {
  next_free = update p.next_free node p.free_list;
  free_list = some node;
  allocated_count = sub64 p.allocated_count 1;
}

unfoldable pub full : MemoryPool → Bool
full p = on_null p.free_list true false

unfoldable pub empty : MemoryPool → Bool
empty p = p.allocated_count == 0

-- Addresses are `start + slot * size`, so the range test is one on the slot.
unfoldable pub owns : MemoryPool → ℕ → Bool
owns p slot = ltb slot p.capacity
