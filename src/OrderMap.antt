-- ===== src/OrderMap.antt =====
-- orderbook/flat_order_map.h: an open-addressing table from order ids to slots.
pub mod Ring
pub mod Insert
pub mod Table
pub mod Count
pub mod Shift
pub mod Close
pub mod Erase
pub mod Grow
pub mod Empty
use Prim.Native.Nat.{bit_and, bit_or}
use hft_orderbook_engine.Base.{
  ℕ, zero, suc, ◌+◌, ◌-◌, ◌*◌, ◌/◌, ◌%◌, ◌^◌, Bool, true, false, Option, none, some, Ptr, update,
  ◌==◌, ltb, if◌then◌else◌, u64_mod, add64, sub64,
}

abbrev pub empty_key : ℕ
empty_key = 0

pub record Entry : Type 0 where
  pub key : ℕ
  pub value : Ptr

pub record FlatOrderMap : Type 0 where
  pub entries : ℕ → Entry
  pub capacity : ℕ
  pub capacity_mask : ℕ
  pub size : ℕ

-- Fibonacci hashing.
unfoldable pub hash : ℕ → ℕ
hash key = (key * 11400714819323198485) % u64_mod

abbrev pub or_shift : ℕ → ℕ → ℕ
or_shift v k = bit_or v (v / 2 ^ k)

unfoldable pub next_power_of_2 : ℕ → ℕ
next_power_of_2 v =
    add64
      (or_shift (or_shift (or_shift (or_shift (or_shift (or_shift (sub64 v 1) 1) 2) 4) 8) 16) 32) 1

unfoldable pub make : ℕ → FlatOrderMap
make min_capacity =
    let desired = if ltb min_capacity 8 then 16 else (min_capacity * 2) % u64_mod in
    let capacity = next_power_of_2 desired in
    record {
      entries = λ _. record { key = empty_key; value = none };
      capacity = capacity;
      capacity_mask = sub64 capacity 1;
      size = 0;
    }

-- `i & capacity_mask_`
abbrev pub masked : FlatOrderMap → ℕ → ℕ
masked m i = bit_and i m.capacity_mask

abbrev pub home : FlatOrderMap → ℕ → ℕ
home m key = masked m (hash key)

abbrev pub next_slot : FlatOrderMap → ℕ → ℕ
next_slot m i = masked m (add64 i 1)

-- Where the probe of a key ends: at an empty slot, or at the key's own.
pub data Probe : Type 0 where
  vacant : ℕ → Probe
  present : ℕ → Probe
  exhausted : Probe

-- The probe loop from slot `i`. On `capacity` rounds it is exhausted only if every slot holds
-- another key, and there the loop of the source does not end.
unfoldable pub probe_from : FlatOrderMap → ℕ → ℕ → ℕ → Probe
probe_from m key zero i = exhausted
probe_from m key (suc rounds) i =
    let rest = probe_from m key rounds (next_slot m i) in
    if (m.entries i).key == empty_key
    then vacant i
    else if (m.entries i).key == key
    then present i
    else rest

unfoldable pub probe : FlatOrderMap → ℕ → Probe
probe m key = probe_from m key m.capacity (home m key)

unfoldable pub insert : FlatOrderMap → ℕ → ℕ → FlatOrderMap × Bool
insert m key value = if key == empty_key then (m, false) else elim (probe m key) [
  | vacant i ↦ (
    record m {
      entries = update m.entries i (record { key = key; value = some value });
      size = add64 m.size 1;
    },
    true,
  )
  | present i ↦ (m, false)
  | exhausted ↦ (m, false)
]

-- Should the entry at `j`, whose home is `k`, move into the gap at `i`?
unfoldable pub should_shift : FlatOrderMap → ℕ → ℕ → ℕ → Bool
should_shift m i j k = ltb (masked m (sub64 i k)) (masked m (sub64 j k))

abbrev pub clear_slot : FlatOrderMap → ℕ → FlatOrderMap
clear_slot m i = record m {
  entries = update m.entries i (record { key = empty_key; value = none });
}

-- The backward-shift loop: `i` is the gap, `j` the slot looked at last.
unfoldable pub shift_from : FlatOrderMap → ℕ → ℕ → ℕ → FlatOrderMap
shift_from m zero i j = clear_slot m i
shift_from m (suc rounds) i j =
    let j' = next_slot m j in
    let k = home m (m.entries j').key in
    let moved =
      shift_from (record m { entries = update m.entries i (m.entries j') }) rounds j' j' in
    let kept = shift_from m rounds i j' in
    if (m.entries j').key == empty_key
    then clear_slot m i
    else if should_shift m i j' k
    then moved
    else kept

unfoldable pub erase : FlatOrderMap → ℕ → FlatOrderMap × Bool
erase m key = if key == empty_key then (m, false) else elim (probe m key) [
  | vacant i ↦ (m, false)
  | present i ↦ (shift_from (record m { size = sub64 m.size 1 }) m.capacity i i, true)
  | exhausted ↦ (m, false)
]

unfoldable pub find : FlatOrderMap → ℕ → Ptr
find m key =
    if key == empty_key
    then none
    else elim (probe m key) [ vacant i ↦ none | present i ↦ (m.entries i).value | exhausted ↦ none ]

unfoldable pub clear : FlatOrderMap → FlatOrderMap
clear m = record m { entries = λ _. record { key = empty_key; value = none }; size = 0 }
