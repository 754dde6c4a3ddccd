-- ===== src/Core.antt =====
-- Types of src/core: types.h, order.h, trade.h.
use hft_orderbook_engine.Base.{ℕ, Ptr, sub64}
use hft_orderbook_engine.Base.Int.{ℤ}

pub data Side : Type 0 where
  buy sell : Side

pub data OrderType : Type 0 where
  limit market ioc fok gtc iceberg : OrderType

pub data TimeInForce : Type 0 where
  tif_gtc tif_ioc tif_fok tif_day : TimeInForce

pub data OrderStatus : Type 0 where
  new accepted partial_fill filled cancelled rejected : OrderStatus

-- An order is a slot of the pool; `next` and `prev` link it into the queue of its price level.
pub record Order : Type 0 where
  pub order_id : ℕ
  pub participant_id : ℕ
  pub instrument_id : ℕ
  pub side : Side
  pub type : OrderType
  pub time_in_force : TimeInForce
  pub status : OrderStatus
  pub price : ℤ
  pub quantity : ℕ
  pub visible_quantity : ℕ
  pub iceberg_slice_qty : ℕ
  pub filled_quantity : ℕ
  pub timestamp : ℕ
  pub next : Ptr
  pub prev : Ptr

abbrev pub remaining_quantity : Order → ℕ
remaining_quantity o = sub64 o.quantity o.filled_quantity

abbrev pub remaining_visible : Order → ℕ
remaining_visible o = sub64 o.visible_quantity o.filled_quantity

pub record Trade : Type 0 where
  pub trade_id : ℕ
  pub buy_order_id : ℕ
  pub sell_order_id : ℕ
  pub price : ℤ
  pub quantity : ℕ
  pub timestamp : ℕ

-- The memory of the pool, read as orders.
abbrev pub Store : Type 0
Store = ℕ → Order
