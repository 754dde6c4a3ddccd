-- ===== src/Book.antt =====
-- orderbook/order_book.h and order_book.cpp: price levels in two arrays indexed by tick.
pub mod Query
pub mod Ids
pub mod ById
pub mod AddById
pub mod Linked
pub mod Invariant
pub mod Best
pub mod Modify
pub mod Operations
pub mod Remove
pub mod Removal
pub mod Emptied
pub mod Place
pub mod Frame
pub mod Grid
use hft_orderbook_engine.Base.{
  ℕ, zero, suc, ◌+◌, ◌-◌, ◌^◌, min, Bool, true, false, not, ◌&&◌, ◌||◌, Option, none, some, Ptr,
  List, [], ◌∷◌, update, ◌==◌, ltb, leb, if◌then◌else◌, add64, sub64,
}
use hft_orderbook_engine.Base.Int.{
  ℤ, pos, negsuc, ◌+ℤ◌, ◌-ℤ◌, ◌*ℤ◌, ◌/ℤ◌, ◌%ℤ◌, leb_ℤ, ltb_ℤ, eqb_ℤ, to_size,
}
use hft_orderbook_engine.Core.{
  Side, buy, sell, accepted, partial_fill, cancelled, iceberg, Order, OrderStatus, OrderType, Store,
}
use hft_orderbook_engine.Level
use hft_orderbook_engine.Level.{PriceLevel}
use hft_orderbook_engine.OrderMap
use hft_orderbook_engine.OrderMap.{FlatOrderMap}

-- `SIZE_MAX`
abbrev pub invalid_index : ℕ
invalid_index = 2 ^ 64 - 1

pub record OrderBook : Type 0 where
  pub bid_levels : ℕ → PriceLevel
  pub ask_levels : ℕ → PriceLevel
  pub num_levels : ℕ
  pub min_price : ℤ
  pub max_price : ℤ
  pub tick_size : ℤ
  pub best_bid_idx : ℕ
  pub best_ask_idx : ℕ
  pub order_map : FlatOrderMap
  pub order_count : ℕ

abbrev pub empty_level : PriceLevel
empty_level = record {
  price = pos 0;
  total_quantity = 0;
  order_count = 0;
  head = none;
  tail = none;
}

unfoldable pub make : (min_price max_price tick_size : ℤ) → (max_orders : ℕ) → OrderBook
make min_price max_price tick_size max_orders = record {
  bid_levels = λ _. empty_level;
  ask_levels = λ _. empty_level;
  num_levels = add64 (to_size ((max_price -ℤ min_price) /ℤ tick_size)) 1;
  min_price = min_price;
  max_price = max_price;
  tick_size = tick_size;
  best_bid_idx = invalid_index;
  best_ask_idx = invalid_index;
  order_map = OrderMap.make max_orders;
  order_count = 0;
}

-- The array of a side, and a write to one of its levels.
abbrev pub levels : OrderBook → Side → ℕ → PriceLevel
levels b buy = b.bid_levels
levels b sell = b.ask_levels

abbrev pub set_level : OrderBook → Side → ℕ → PriceLevel → OrderBook
set_level b buy i l = record b { bid_levels = update b.bid_levels i l }
set_level b sell i l = record b { ask_levels = update b.ask_levels i l }

abbrev pub best_idx : OrderBook → Side → ℕ
best_idx b buy = b.best_bid_idx
best_idx b sell = b.best_ask_idx

-- Price indexing.
unfoldable pub price_to_index : OrderBook → ℤ → ℕ
price_to_index b price = to_size ((price -ℤ b.min_price) /ℤ b.tick_size)

unfoldable pub index_to_price : OrderBook → ℕ → ℤ
index_to_price b index = b.min_price +ℤ pos index *ℤ b.tick_size

unfoldable pub is_valid_price : OrderBook → ℤ → Bool
is_valid_price b price =
    leb_ℤ b.min_price price
    && leb_ℤ price b.max_price
    && eqb_ℤ ((price -ℤ b.min_price) %ℤ b.tick_size) (pos 0)

-- The best index after an order came to level `idx` of a side.
unfoldable pub raise_best : OrderBook → Side → ℕ → OrderBook
raise_best b buy idx =
    if b.best_bid_idx == invalid_index || ltb b.best_bid_idx idx
    then record b { best_bid_idx = idx }
    else b
raise_best b sell idx =
    if b.best_ask_idx == invalid_index || ltb idx b.best_ask_idx
    then record b { best_ask_idx = idx }
    else b

abbrev pub set_status : Store → ℕ → OrderStatus → Store
set_status s o st = update s o (record (s o) { status = st })

-- The part of `add_order` behind its two guards, at level `idx` of `side`.
unfoldable pub place_at : OrderBook → Store → ℕ → Side → ℕ → OrderBook × Store
place_at b s o side idx =
    let (l, t) = Level.add_order (record (levels b side idx) { price = (s o).price }) s o in
    (
      raise_best (record (set_level b side idx l) { order_count = add64 b.order_count 1 }) side idx,
      set_status t o accepted,
    )

unfoldable pub place : OrderBook → Store → ℕ → OrderBook × Store
place b s o = place_at b s o (s o).side (price_to_index b (s o).price)

unfoldable pub add_order : OrderBook → Store → ℕ → OrderBook × Store × Bool
add_order b s o =
    if not (is_valid_price b (s o).price)
    then (b, s, false)
    else let (map, inserted) = OrderMap.insert b.order_map (s o).order_id o in
      if not inserted
      then (b, s, false)
      else let (b', t) = place (record b { order_map = map }) s o in (b', t, true)

-- `for (i = k - 1;; --i)`: the highest level below `k` that holds orders.
unfoldable pub scan_down : (ℕ → PriceLevel) → ℕ → ℕ
scan_down l zero = invalid_index
scan_down l (suc i) = if not (Level.empty (l i)) then i else scan_down l i

-- `for (; i < num_levels_; ++i)`, with the rounds that are left.
unfoldable pub scan_up : (ℕ → PriceLevel) → ℕ → ℕ → ℕ
scan_up l zero i = invalid_index
scan_up l (suc rounds) i = if not (Level.empty (l i)) then i else scan_up l rounds (i + 1)

unfoldable pub update_best_bid_after_remove : OrderBook → ℕ → OrderBook
update_best_bid_after_remove b emptied = record b { best_bid_idx = scan_down b.bid_levels emptied }

unfoldable pub update_best_ask_after_remove : OrderBook → ℕ → OrderBook
update_best_ask_after_remove b emptied = record b {
  best_ask_idx = scan_up b.ask_levels (b.num_levels - suc emptied) (emptied + 1);
}

unfoldable pub update_best_after_remove : OrderBook → Side → ℕ → OrderBook
update_best_after_remove b buy idx =
    if idx == b.best_bid_idx then update_best_bid_after_remove b idx else b
update_best_after_remove b sell idx =
    if idx == b.best_ask_idx then update_best_ask_after_remove b idx else b

-- `remove_order` of an order that stands at level `idx` of `side`.
unfoldable pub remove_at : OrderBook → Store → ℕ → Side → ℕ → OrderBook × Store
remove_at b s o side idx =
    let (l, t) = Level.remove_order (levels b side idx) s o in
    let (map, _) = OrderMap.erase b.order_map (t o).order_id in
    let b' = record (set_level b side idx l) {
      order_map = map;
      order_count = sub64 b.order_count 1;
    } in
    (if Level.empty l then update_best_after_remove b' side idx else b', t)

unfoldable pub remove_order : OrderBook → Store → ℕ → OrderBook × Store
remove_order b s o = remove_at b s o (s o).side (price_to_index b (s o).price)

-- The result is the cancelled order.
unfoldable pub cancel_order : OrderBook → Store → ℕ → OrderBook × Store × Ptr
cancel_order b s id = elim (OrderMap.find b.order_map id) [
  | none ↦ (b, s, none)
  | some o ↦ let (b', t) = remove_order b s o in (b', set_status t o cancelled, some o)
]

abbrev pub is_resting : OrderStatus → Bool
is_resting accepted = true
is_resting partial_fill = true
is_resting _ = false

abbrev pub is_iceberg : OrderType → Bool
is_iceberg iceberg = true
is_iceberg _ = false

-- The visible window after a modification.
unfoldable pub amended_visible : Order → ℕ → ℕ
amended_visible o new_quantity =
    if is_iceberg o.type && ltb 0 o.iceberg_slice_qty
    then add64 o.filled_quantity (min o.iceberg_slice_qty (sub64 new_quantity o.filled_quantity))
    else new_quantity

unfoldable pub amended : Order → ℤ → ℕ → ℕ → Order
amended o new_price new_quantity new_timestamp = record o {
  price = new_price;
  quantity = new_quantity;
  timestamp = new_timestamp;
  visible_quantity = amended_visible o new_quantity;
  next = none;
  prev = none;
}

pub record ModifyResult : Type 0 where
  pub order : ℕ
  pub old_price : ℤ
  pub old_quantity : ℕ

-- `none` is a refusal.
unfoldable pub modify_order :
    OrderBook → Store → ℕ → ℤ → ℕ → ℕ → OrderBook × Store × Option ModifyResult
modify_order b s id new_price new_quantity new_timestamp = elim (OrderMap.find b.order_map id) [
  | none ↦ (b, s, none)
  | some o ↦
      if not (is_resting (s o).status)
      then (b, s, none)
      else if leb new_quantity (s o).filled_quantity
      then (b, s, none)
      else if not (is_valid_price b new_price)
      then (b, s, none)
      else let (b', t) = remove_order b s o in
        (
          b',
          update t o (amended (t o) new_price new_quantity new_timestamp),
          some (record { order = o; old_price = (s o).price; old_quantity = (s o).quantity }),
        )
]
