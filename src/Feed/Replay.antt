-- ===== src/Feed/Replay.antt =====
-- feed/replay_engine.h and replay_engine.cpp: the records of a file, played through the gateway of one
-- instrument. The clock, the messages on the error stream and the JSON report are left out.
pub mod Dispatch
use hft_orderbook_engine.Base.{
  ℕ, zero, suc, ◌+◌, ◌^◌, Bool, true, false, not, Option, none, some, List, [], ◌∷◌, ◌++◌, ◌>>=◌,
  if◌then◌else◌, add64,
}
use hft_orderbook_engine.Base.Int.{ℤ, pos}
use hft_orderbook_engine.Core.{Side, buy, sell, Store}
use hft_orderbook_engine.Pool
use hft_orderbook_engine.Level.{PriceLevel}
use hft_orderbook_engine.Book
use hft_orderbook_engine.Book.Query.{best_level, spread}
use hft_orderbook_engine.Engine.{stp_none}
use hft_orderbook_engine.Engine.Submit
use hft_orderbook_engine.Transport.{EventMessage}
use hft_orderbook_engine.Transport.Ring
use hft_orderbook_engine.Gateway
use hft_orderbook_engine.Gateway.{
  OrderGateway, EventBuffer, GatewayResult, process_order, process_cancel, process_modify,
}
use hft_orderbook_engine.Gateway.Publisher
use hft_orderbook_engine.Gateway.Publisher.{MarketDataPublisher, register_callback, poll}
use hft_orderbook_engine.Feed.{
  Bytes, L3EventType, add, cancel, modify, trade, invalid, L3Record, to_order_message,
  to_modify_message,
}
use hft_orderbook_engine.Feed.Lines.{L3FeedParser, open_file, next}

-- What decides how a replay runs; the paths, the speed and `verbose` do not.
pub record ReplayConfig : Type 0 where
  pub min_price : ℤ
  pub max_price : ℤ
  pub tick_size : ℤ
  pub max_orders : ℕ
  pub enable_publisher : Bool

-- The statistics without the two times.
pub record ReplayStats : Type 0 where
  pub total_messages : ℕ
  pub add_messages : ℕ
  pub cancel_messages : ℕ
  pub trade_messages : ℕ
  pub parse_errors : ℕ
  pub orders_accepted : ℕ
  pub orders_rejected : ℕ
  pub orders_cancelled : ℕ
  pub trades_generated : ℕ
  pub cancel_failures : ℕ
  pub modify_messages : ℕ
  pub orders_modified : ℕ
  pub modify_failures : ℕ
  pub final_best_bid : ℤ
  pub final_best_ask : ℤ
  pub final_spread : ℤ
  pub final_order_count : ℕ

abbrev pub no_stats : ReplayStats
no_stats = record {
  total_messages = 0;
  add_messages = 0;
  cancel_messages = 0;
  trade_messages = 0;
  parse_errors = 0;
  orders_accepted = 0;
  orders_rejected = 0;
  orders_cancelled = 0;
  trades_generated = 0;
  cancel_failures = 0;
  modify_messages = 0;
  orders_modified = 0;
  modify_failures = 0;
  final_best_bid = pos 0;
  final_best_ask = pos 0;
  final_spread = pos 0;
  final_order_count = 0;
}

abbrev pub default_instrument_id : ℕ
default_instrument_id = 0

-- What the counters say after the gateway's answer.
abbrev pub count_order : ReplayStats → GatewayResult → ReplayStats
count_order s r =
    if r.accepted
    then record s {
      orders_accepted = add64 s.orders_accepted 1;
      trades_generated = add64 s.trades_generated r.trade_count;
    }
    else record s { orders_rejected = add64 s.orders_rejected 1 }

abbrev pub count_cancel : ReplayStats → Bool → ReplayStats
count_cancel s success =
    if success
    then record s { orders_cancelled = add64 s.orders_cancelled 1 }
    else record s { cancel_failures = add64 s.cancel_failures 1 }

abbrev pub count_modify : ReplayStats → GatewayResult → ReplayStats
count_modify s r =
    if r.accepted
    then record s {
      orders_modified = add64 s.orders_modified 1;
      trades_generated = add64 s.trades_generated r.trade_count;
    }
    else record s { modify_failures = add64 s.modify_failures 1 }

-- The one thread of a replay: nobody else takes events out of the ring.
abbrev pub nobody : EventBuffer → EventBuffer
nobody b = b

-- The `switch` on the type of a record.
unfoldable pub dispatch_type :
    L3EventType → ℕ → OrderGateway → ReplayStats → L3Record → Option (OrderGateway × ReplayStats)
dispatch_type add fuel g s r = do
  (g', answer) ← process_order nobody fuel g (to_order_message r default_instrument_id)
  some (g', count_order (record s { add_messages = add64 s.add_messages 1 }) answer)
dispatch_type cancel fuel g s r = do
  (g', success) ← process_cancel nobody fuel g r.order_id
  some (g', count_cancel (record s { cancel_messages = add64 s.cancel_messages 1 }) success)
dispatch_type modify fuel g s r = do
  (g', answer) ← process_modify nobody fuel g (to_modify_message r default_instrument_id)
  some (g', count_modify (record s { modify_messages = add64 s.modify_messages 1 }) answer)
dispatch_type trade fuel g s r = some (g, record s { trade_messages = add64 s.trade_messages 1 })
dispatch_type invalid fuel g s r = some (g, record s { parse_errors = add64 s.parse_errors 1 })

unfoldable pub dispatch :
    ℕ → OrderGateway → ReplayStats → L3Record → Option (OrderGateway × ReplayStats)
dispatch fuel g s r = dispatch_type r.event_type fuel g s r

abbrev pub buffer_of : Bool → EventMessage → Option EventBuffer
buffer_of false blank = none
buffer_of true blank = some (Ring.make (2 ^ 16) (λ i. blank))

abbrev pub price_or_zero : Option PriceLevel → ℤ
price_or_zero none = pos 0
price_or_zero (some l) = l.price

-- The final state of the book.
unfoldable pub final_stats : L3FeedParser → Book.OrderBook → ReplayStats → ReplayStats
final_stats p b s = record s {
  parse_errors = p.parse_errors;
  final_order_count = b.order_count;
  final_best_bid = price_or_zero (best_level b buy);
  final_best_ask = price_or_zero (best_level b sell);
  final_spread = spread b;
}

-- The book, pool and engine are those of the gateway, and the publisher reads the gateway's buffer.
-- `client` is the state that the callbacks act on.
pub record ReplayEngine (A : Type 0) : Type 0 where
  pub gateway : OrderGateway
  pub publisher : Option (MarketDataPublisher A)
  pub callbacks : List (A → EventMessage → A)
  pub client : A

module _ {A : Type 0} where
  abbrev pub publisher_of : Option EventBuffer → Option (MarketDataPublisher A)
  publisher_of none = none
  publisher_of (some buffer) = some (Publisher.make buffer)

  -- `unset` and `blank` are what the new memory holds.
  unfoldable pub make : ReplayConfig → Store → EventMessage → A → ReplayEngine A
  make config unset blank client =
      let buffer = buffer_of config.enable_publisher blank in
      record {
        gateway =
            Gateway.make
              (Submit.make
                (Book.make config.min_price config.max_price config.tick_size config.max_orders)
                unset (Pool.make config.max_orders) stp_none)
              buffer default_instrument_id;
        publisher = publisher_of buffer;
        callbacks = [];
        client = client;
      }

  unfoldable pub register_event_callback : ReplayEngine A → (A → EventMessage → A) → ReplayEngine A
  register_event_callback r callback = record r { callbacks = r.callbacks ++ callback ∷ [] }

  abbrev pub subscribe : MarketDataPublisher A → List (A → EventMessage → A) → MarketDataPublisher A
  subscribe p [] = p
  subscribe p (callback ∷ rest) = subscribe (register_callback p callback) rest

  abbrev pub subscribed : ReplayEngine A → ReplayEngine A
  subscribed r = record r {
    publisher = elim r.publisher [ none ↦ none | some p ↦ some (subscribe p r.callbacks) ];
  }

  -- `if (publisher_) publisher_->poll();`
  unfoldable pub drain : ℕ → ReplayEngine A → Option (ReplayEngine A)
  drain fuel r = elim r.publisher [
    | none ↦ some r
    | some p ↦ elim r.gateway.event_buffer [
      | none ↦ some r
      | some buffer ↦ do
        (p', client, count) ← poll fuel (record p { buffer = buffer }) r.client
        some (record r {
          gateway = record (r.gateway) { event_buffer = some p'.buffer };
          publisher = some p';
          client = client;
        })
    ]
  ]

  -- The body of the loop.
  unfoldable pub handle :
      ℕ → ReplayEngine A → ReplayStats → L3Record → Option (ReplayEngine A × ReplayStats)
  handle fuel r s rec =
      let counted = record s { total_messages = add64 s.total_messages 1 } in
      if not rec.valid
      then some (r, record counted { parse_errors = add64 s.parse_errors 1 })
      else do
        (g, s') ← dispatch fuel r.gateway counted rec
        r' ← drain fuel (record r { gateway = g })
        some (r', s')

  -- The loop, in as many rounds as the file has records.
  unfoldable pub replay_from :
      ℕ
      → ℕ
      → L3FeedParser
      → ReplayEngine A
      → ReplayStats
      → Option (L3FeedParser × ReplayEngine A × ReplayStats)
  replay_from zero fuel p r s = none
  replay_from (suc rounds) fuel p r s =
      let (p', record_read) = next p in
      elim record_read [
        | none ↦ some (p', r, s)
        | some rec ↦ do (r', s') ← handle fuel r s rec; replay_from rounds fuel p' r' s'
      ]

  -- `file` is `none` where the file cannot be opened.
  unfoldable pub run :
      ℕ → ℕ → ReplayEngine A → Option (List Bytes) → Option (ReplayEngine A × ReplayStats)
  run rounds fuel r file = elim file [
    | none ↦ some (subscribed r, no_stats)
    | some lines ↦ do
      (p, r', s) ← replay_from rounds fuel (open_file lines) (subscribed r) no_stats
      r'' ← drain fuel r'
      some (r'', final_stats p r''.gateway.engine.book s)
  ]
