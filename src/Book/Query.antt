-- ===== src/Book/Query.antt =====
-- The read-only operations of order_book.cpp: best levels, spread, mid price, available quantity
-- and depth.
use hft_orderbook_engine.Base.{
  ℕ, zero, suc, ◌+◌, ◌-◌, Bool, ◌||◌, Option, none, some, Ptr, List, [], ◌∷◌, ◌==◌, leb,
  if◌then◌else◌, add64,
}
use hft_orderbook_engine.Base.Int.{ℤ, pos, negsuc, ◌+ℤ◌, ◌-ℤ◌, ◌/ℤ◌, ltb_ℤ}
use hft_orderbook_engine.Core.{Side, buy, sell}
use hft_orderbook_engine.Level
use hft_orderbook_engine.Level.{PriceLevel}
use hft_orderbook_engine.OrderMap
use hft_orderbook_engine.Book.{OrderBook, invalid_index, levels, best_idx, price_to_index}

-- `best_bid` and `best_ask`, of which `best_bid_level` and `best_ask_level` are the mutable forms.
unfoldable pub best_level : OrderBook → Side → Option PriceLevel
best_level b side =
    if best_idx b side == invalid_index then none else some (levels b side (best_idx b side))

unfoldable pub one_sided : OrderBook → Bool
one_sided b = b.best_bid_idx == invalid_index || b.best_ask_idx == invalid_index

unfoldable pub spread : OrderBook → ℤ
spread b =
    if one_sided b
    then negsuc 0
    else (b.ask_levels b.best_ask_idx).price -ℤ (b.bid_levels b.best_bid_idx).price

unfoldable pub mid_price : OrderBook → ℤ
mid_price b =
    if one_sided b
    then pos 0
    else ((b.bid_levels b.best_bid_idx).price +ℤ (b.ask_levels b.best_ask_idx).price) /ℤ pos 2

unfoldable pub find_order : OrderBook → ℕ → Ptr
find_order b id = OrderMap.find b.order_map id

-- `for (; i <= max_idx && i < num_levels_; ++i)`, with the rounds up to `num_levels_`.
unfoldable pub sum_up : (ℕ → PriceLevel) → ℕ → ℕ → ℕ → ℕ → ℕ
sum_up l max_idx zero i acc = acc
sum_up l max_idx (suc rounds) i acc =
    let rest = sum_up l max_idx rounds (i + 1) (add64 acc (l i).total_quantity) in
    if leb i max_idx then rest else acc

-- `for (;; --i)`, ended by `i == min_idx || i == 0`.
unfoldable pub sum_down : (ℕ → PriceLevel) → ℕ → ℕ → ℕ → ℕ
sum_down l min_idx zero acc = add64 acc (l 0).total_quantity
sum_down l min_idx (suc i) acc =
    let total = add64 acc (l (suc i)).total_quantity in
    let rest = sum_down l min_idx i total in if suc i == min_idx then total else rest

-- The quantity on `side` at prices that a limit would cross.
unfoldable pub available_quantity : OrderBook → Side → ℤ → ℕ
available_quantity b sell limit_price =
    let max_idx =
      price_to_index b (if ltb_ℤ b.max_price limit_price then b.max_price else limit_price) in
    if b.best_ask_idx == invalid_index
    then 0
    else sum_up b.ask_levels max_idx (b.num_levels - b.best_ask_idx) b.best_ask_idx 0
available_quantity b buy limit_price =
    let min_idx =
      price_to_index b (if ltb_ℤ limit_price b.min_price then b.min_price else limit_price) in
    if b.best_bid_idx == invalid_index then 0 else sum_down b.bid_levels min_idx b.best_bid_idx 0

pub record DepthEntry : Type 0 where
  pub price : ℤ
  pub quantity : ℕ
  pub order_count : ℕ

abbrev pub depth_entry : PriceLevel → DepthEntry
depth_entry l = record { price = l.price; quantity = l.total_quantity; order_count = l.order_count }

-- The levels written to `out`, in order; `room` is `max_levels - count`, positive on entry.
unfoldable pub bid_depth_from : (ℕ → PriceLevel) → ℕ → ℕ → List DepthEntry
bid_depth_from l zero room = if Level.empty (l 0) then [] else depth_entry (l 0) ∷ []
bid_depth_from l (suc i) room =
    let skip = bid_depth_from l i room in
    let more = bid_depth_from l i (room - 1) in
    if Level.empty (l (suc i))
    then skip
    else if leb room 1
    then depth_entry (l (suc i)) ∷ []
    else depth_entry (l (suc i)) ∷ more

unfoldable pub ask_depth_from : (ℕ → PriceLevel) → ℕ → ℕ → ℕ → List DepthEntry
ask_depth_from l zero i room = []
ask_depth_from l (suc rounds) i room =
    let skip = ask_depth_from l rounds (i + 1) room in
    let more = ask_depth_from l rounds (i + 1) (room - 1) in
    if Level.empty (l i)
    then skip
    else if leb room 1
    then depth_entry (l i) ∷ []
    else depth_entry (l i) ∷ more

unfoldable pub get_bid_depth : OrderBook → ℕ → List DepthEntry
get_bid_depth b max_levels =
    let filled = bid_depth_from b.bid_levels b.best_bid_idx max_levels in
    if b.best_bid_idx == invalid_index || max_levels == 0 then [] else filled

unfoldable pub get_ask_depth : OrderBook → ℕ → List DepthEntry
get_ask_depth b max_levels =
    let filled =
      ask_depth_from b.ask_levels (b.num_levels - b.best_ask_idx) b.best_ask_idx max_levels in
    if b.best_ask_idx == invalid_index || max_levels == 0 then [] else filled
