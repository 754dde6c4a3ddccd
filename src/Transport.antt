-- ===== src/Transport.antt =====
-- transport/message.h: the messages that pass between threads.
pub mod Ring
pub mod Fifo
pub mod Interleaving
use hft_orderbook_engine.Base.{ℕ}
use hft_orderbook_engine.Base.Int.{ℤ}
use hft_orderbook_engine.Core.{Order, OrderStatus, Trade}

pub data MessageType : Type 0 where
  add cancel modify : MessageType

pub record OrderMessage : Type 0 where
  pub type : MessageType
  pub instrument_id : ℕ
  pub order : Order

pub data EventType : Type 0 where
  trade order_accepted order_cancelled order_rejected order_filled order_partial_fill
        order_modified :
      EventType

pub record OrderEventData : Type 0 where
  pub order_id : ℕ
  pub status : OrderStatus
  pub filled_quantity : ℕ
  pub remaining_quantity : ℕ
  pub price : ℤ
  pub timestamp : ℕ

-- The union, with the member that is written.
pub data EventData : Type 0 where
  of_trade : Trade → EventData
  of_order : OrderEventData → EventData

pub record EventMessage : Type 0 where
  pub type : EventType
  pub instrument_id : ℕ
  pub sequence_num : ℕ
  pub payload : EventData
