-- ===== src/Gateway.antt =====
-- gateway/order_gateway.h and order_gateway.cpp: validation in front of the engine, and events
-- behind it.
pub mod Events
pub mod Operations
pub mod ById
pub mod Publisher
pub mod Registry
pub mod Router
use hft_orderbook_engine.Base.{
  ℕ, zero, suc, ◌+◌, Bool, true, false, not, ◌&&◌, ◌||◌, Option, none, some, Ptr, List, [], ◌∷◌,
  update, ◌==◌, ◌>>=◌, if◌then◌else◌, add64,
}
use hft_orderbook_engine.Base.Int.{ℤ, pos, leb_ℤ}
use hft_orderbook_engine.Core.{Order, OrderStatus, Trade}
use hft_orderbook_engine.Core
use hft_orderbook_engine.Pool
use hft_orderbook_engine.Transport.{
  OrderMessage, EventType, order_accepted, order_cancelled, order_rejected, order_filled,
  order_partial_fill, order_modified, OrderEventData, EventData, of_trade, of_order, EventMessage,
}
use hft_orderbook_engine.Transport
use hft_orderbook_engine.Transport.Ring.{SpscRingBuffer, try_push}
use hft_orderbook_engine.Engine.{
  Engine, MatchResult, MatchStatus, filled, partial_fill, resting, cancelled, rejected,
  self_trade_prevented, modified, is_market,
}
use hft_orderbook_engine.Engine.Submit.{submit_order, cancel_order, modify_order}

pub data GatewayRejectReason : Type 0 where
  no_reason invalid_price invalid_quantity pool_exhausted order_not_found : GatewayRejectReason

pub record GatewayResult : Type 0 where
  pub accepted : Bool
  pub reject_reason : GatewayRejectReason
  pub match_status : MatchStatus
  pub trade_count : ℕ
  pub filled_quantity : ℕ
  pub remaining_quantity : ℕ

abbrev pub EventBuffer : Type 0
EventBuffer = SpscRingBuffer EventMessage

-- `event_buffer` is `none` for `nullptr`. The pool is the engine's.
pub record OrderGateway : Type 0 where
  pub engine : Engine
  pub event_buffer : Option EventBuffer
  pub instrument_id : ℕ
  pub sequence_num : ℕ
  pub orders_processed : ℕ
  pub orders_rejected : ℕ
  pub backpressure_count : ℕ

unfoldable pub make : Engine → Option EventBuffer → ℕ → OrderGateway
make engine event_buffer instrument_id = record {
  engine = engine;
  event_buffer = event_buffer;
  instrument_id = instrument_id;
  sequence_num = 0;
  orders_processed = 0;
  orders_rejected = 0;
  backpressure_count = 0;
}

abbrev pub refusal : GatewayRejectReason → GatewayResult
refusal reason = record {
  accepted = false;
  reject_reason = reason;
  match_status = rejected;
  trade_count = 0;
  filled_quantity = 0;
  remaining_quantity = 0;
}

abbrev pub acceptance : MatchResult → GatewayResult
acceptance r = record {
  accepted = true;
  reject_reason = no_reason;
  match_status = r.status;
  trade_count = r.trade_count;
  filled_quantity = r.filled_quantity;
  remaining_quantity = r.remaining_quantity;
}

-- The event type and the order status that report a match status.
abbrev pub reported : MatchStatus → EventType × OrderStatus
reported filled = (order_filled, Core.filled)
reported partial_fill = (order_partial_fill, Core.partial_fill)
reported resting = (order_accepted, Core.accepted)
reported cancelled = (order_cancelled, Core.cancelled)
reported rejected = (order_rejected, Core.rejected)
reported self_trade_prevented = (order_cancelled, Core.cancelled)
reported modified = (order_modified, Core.accepted)

abbrev pub order_event : EventType × OrderStatus → ℕ → ℕ → ℕ → ℤ → ℕ → EventType × EventData
order_event (type, status) order_id filled_quantity remaining_quantity price timestamp = (
  type,
  of_order (record {
    order_id = order_id;
    status = status;
    filled_quantity = filled_quantity;
    remaining_quantity = remaining_quantity;
    price = price;
    timestamp = timestamp;
  }),
)

abbrev pub status_event : MatchResult → Order → EventType × EventData
status_event r copy =
    order_event (reported r.status) copy.order_id r.filled_quantity r.remaining_quantity copy.price
      copy.timestamp

abbrev pub trade_event : Trade → EventType × EventData
trade_event t = (Transport.trade, of_trade t)

abbrev pub is_rejected : MatchStatus → Bool
is_rejected rejected = true
is_rejected _ = false

-- The order as it enters the engine.
abbrev pub fresh : Order → Order
fresh src = record src { status = Core.new; filled_quantity = 0; next = none; prev = none }

abbrev pub admit : OrderGateway → Order → ℕ → Engine
admit g src o = record (g.engine) {
  store = update g.engine.store o (fresh src);
  pool = (Pool.allocate g.engine.pool).0;
}

-- `consume` is what the consumer's thread does to the ring between two attempts of the spin loop.
-- On `fuel`, the loops return `none` when it runs out.
module _ (consume : EventBuffer → EventBuffer) (fuel : ℕ) where
  unfoldable pub spin : ℕ → OrderGateway → EventBuffer → EventMessage → Option OrderGateway
  spin zero g buffer event = none
  spin (suc n) g buffer event =
      let (buffer', pushed) = try_push buffer event in
      let retried =
        spin n (record g { backpressure_count = add64 g.backpressure_count 1 }) (consume buffer')
          event in
      if pushed then some (record g { event_buffer = some buffer' }) else retried

  unfoldable pub publish_event : OrderGateway → EventMessage → Option OrderGateway
  publish_event g event = elim g.event_buffer [
    | none ↦ some g
    | some buffer ↦ spin fuel g buffer event
  ]

  -- An event with the gateway's instrument and the next sequence number.
  unfoldable pub publish : OrderGateway → EventType × EventData → Option OrderGateway
  publish g (type, payload) =
      let n = add64 g.sequence_num 1 in
      publish_event (record g { sequence_num = n })
        (record {
          type = type;
          instrument_id = g.instrument_id;
          sequence_num = n;
          payload = payload;
        })

  unfoldable pub publish_trades : OrderGateway → List Trade → Option OrderGateway
  publish_trades g [] = some g
  publish_trades g (t ∷ ts) = do g' ← publish g (trade_event t); publish_trades g' ts

  unfoldable pub decompose_and_publish : OrderGateway → MatchResult → Order → Option OrderGateway
  decompose_and_publish g r copy = elim g.event_buffer [
    | none ↦ some g
    | some _ ↦ do g' ← publish_trades g r.trades; publish g' (status_event r copy)
  ]

  unfoldable pub publish_rejection : OrderGateway → Order → Option OrderGateway
  publish_rejection g src = elim g.event_buffer [
    | none ↦ some g
    | some _ ↦ publish g (
        order_event (order_rejected, Core.rejected) src.order_id 0 src.quantity src.price
          src.timestamp)
  ]

  unfoldable pub reject :
      OrderGateway → Order → GatewayRejectReason → Option (OrderGateway × GatewayResult)
  reject g src reason = do
    g' ← publish_rejection (record g { orders_rejected = add64 g.orders_rejected 1 }) src
    some (g', refusal reason)

  unfoldable pub accept : OrderGateway → MatchResult → Order → Option (OrderGateway × GatewayResult)
  accept g r copy = do
    g' ← decompose_and_publish g r copy
    some (record g' { orders_processed = add64 g'.orders_processed 1 }, acceptance r)

  unfoldable pub process_order : OrderGateway → OrderMessage → Option (OrderGateway × GatewayResult)
  process_order g msg =
      let src = msg.order in
      if src.quantity == 0
      then reject g src invalid_quantity
      else if not (is_market src.type) && leb_ℤ src.price (pos 0)
      then reject g src invalid_price
      else elim (Pool.allocate g.engine.pool).1 [
        | none ↦ reject g src pool_exhausted
        | some o ↦ do
          (e, r) ← submit_order fuel (admit g src o) o
          accept (record g { engine = e }) r (fresh src)
      ]

  -- The source's copy of the order has just the fields that the events show.
  unfoldable pub answer_modify :
      OrderGateway → MatchResult → Order → Option (OrderGateway × GatewayResult)
  answer_modify g r src =
      if is_rejected r.status then reject g src order_not_found else accept g r src

  unfoldable pub process_modify :
      OrderGateway → OrderMessage → Option (OrderGateway × GatewayResult)
  process_modify g msg =
      let src = msg.order in
      if src.quantity == 0
      then reject g src invalid_quantity
      else if leb_ℤ src.price (pos 0)
      then reject g src invalid_price
      else do
        (e, r) ← modify_order fuel g.engine src.order_id src.price src.quantity src.timestamp
        answer_modify (record g { engine = e }) r src

  unfoldable pub process_cancel : OrderGateway → ℕ → Option (OrderGateway × Bool)
  process_cancel g order_id =
      let (e, success) = cancel_order g.engine order_id in
      let g' = record g { engine = e } in
      if not success then some (g', false) else do
        g'' ← elim g.event_buffer [
          | none ↦ some g'
          | some _ ↦
              publish g' (order_event (order_cancelled, Core.cancelled) order_id 0 0 (pos 0) 0)
        ]
        some (g'', true)
