-- ===== src/Feed/MultiReplay.antt =====
-- feed/multi_instrument_replay_engine.h and multi_instrument_replay_engine.cpp: the records of a file,
-- each routed by its symbol. The clock, the messages on the error stream and the report are left out.
pub mod Run
use hft_orderbook_engine.Base.{
  ℕ, zero, suc, ◌+◌, Bool, not, ◌&&◌, Option, none, some, List, [], ◌∷◌, ◌++◌, ◌>>=◌, map, is_some,
  ◌==◌, if◌then◌else◌, add32, add64,
}
use hft_orderbook_engine.Base.Int.{ℤ, pos}
use hft_orderbook_engine.Core.{buy, sell, Store}
use hft_orderbook_engine.Book.Query.{best_level}
use hft_orderbook_engine.Transport.{EventMessage}
use hft_orderbook_engine.Gateway.{EventBuffer, GatewayResult}
use hft_orderbook_engine.Gateway.Publisher
use hft_orderbook_engine.Gateway.Publisher.{MarketDataPublisher, poll}
use hft_orderbook_engine.Gateway.Registry.{
  Symbol, InstrumentConfig, InstrumentRegistry, empty_registry, register_instrument, lookup,
  same_symbol, get_elem?,
}
use hft_orderbook_engine.Gateway.Registry
use hft_orderbook_engine.Gateway.Router
use hft_orderbook_engine.Gateway.Router.{
  InstrumentRouter, set_elem, route_order, route_cancel, route_modify, order_book,
}
use hft_orderbook_engine.Feed.{
  Bytes, L3EventType, add, cancel, modify, trade, invalid, L3Record, to_order_message,
  to_modify_message,
}
use hft_orderbook_engine.Feed.Lines.{L3FeedParser, open_file, reset, next, is_empty}
use hft_orderbook_engine.Feed.Replay.{nobody, default_instrument_id, price_or_zero, subscribe}

pub record MultiReplayConfig : Type 0 where
  pub instruments : List InstrumentConfig
  pub auto_discover : Bool
  pub default_min_price : ℤ
  pub default_max_price : ℤ
  pub default_tick_size : ℤ
  pub default_max_orders : ℕ

pub record PerInstrumentStats : Type 0 where
  pub instrument_id : ℕ
  pub symbol : Symbol
  pub add_messages : ℕ
  pub cancel_messages : ℕ
  pub modify_messages : ℕ
  pub trade_messages : ℕ
  pub orders_accepted : ℕ
  pub orders_rejected : ℕ
  pub orders_cancelled : ℕ
  pub cancel_failures : ℕ
  pub orders_modified : ℕ
  pub modify_failures : ℕ
  pub trades_generated : ℕ
  pub final_best_bid : ℤ
  pub final_best_ask : ℤ
  pub final_order_count : ℕ

pub record MultiReplayStats : Type 0 where
  pub total_messages : ℕ
  pub parse_errors : ℕ
  pub per_instrument : List PerInstrumentStats

abbrev pub no_stats : MultiReplayStats
no_stats = record { total_messages = 0; parse_errors = 0; per_instrument = [] }

abbrev pub stats_of : InstrumentConfig → PerInstrumentStats
stats_of cfg = record {
  instrument_id = cfg.instrument_id;
  symbol = cfg.symbol;
  add_messages = 0;
  cancel_messages = 0;
  modify_messages = 0;
  trade_messages = 0;
  orders_accepted = 0;
  orders_rejected = 0;
  orders_cancelled = 0;
  cancel_failures = 0;
  orders_modified = 0;
  modify_failures = 0;
  trades_generated = 0;
  final_best_bid = pos 0;
  final_best_ask = pos 0;
  final_order_count = 0;
}

-- `event_buffer` is the buffer until a router has it. The hash map is an association list, in which
-- an entry in front hides those behind it.
pub record MultiInstrumentReplayEngine (A : Type 0) : Type 0 where
  pub config : MultiReplayConfig
  pub registry : InstrumentRegistry
  pub event_buffer : Option EventBuffer
  pub router : Option InstrumentRouter
  pub publisher : Option (MarketDataPublisher A)
  pub callbacks : List (A → EventMessage → A)
  pub next_auto_id : ℕ
  pub auto_symbol_map : List (Symbol × ℕ)
  pub client : A

unfoldable pub register_all : InstrumentRegistry → List InstrumentConfig → InstrumentRegistry
register_all registry [] = registry
register_all registry (cfg ∷ rest) = register_all (register_instrument registry cfg).0 rest

-- `symbol_map` of `run`.
unfoldable pub symbols_from : List (Symbol × ℕ) → List InstrumentConfig → List (Symbol × ℕ)
symbols_from m [] = m
symbols_from m (cfg ∷ rest) = symbols_from ((cfg.symbol, cfg.instrument_id) ∷ m) rest

-- `id_to_stat_index` of `run`, with the number of the statistics so far.
unfoldable pub indices_from : List (ℕ × ℕ) → ℕ → List InstrumentConfig → List (ℕ × ℕ)
indices_from m idx [] = m
indices_from m idx (cfg ∷ rest) = indices_from ((cfg.instrument_id, idx) ∷ m) (idx + 1) rest

-- The instrument of a record: the default one if the record has no symbol.
unfoldable pub resolve : List (Symbol × ℕ) → L3Record → Option ℕ
resolve symbols r =
    if is_empty r.symbol then some default_instrument_id else lookup same_symbol r.symbol symbols

abbrev pub count_order : PerInstrumentStats → GatewayResult → PerInstrumentStats
count_order ps r =
    if r.accepted
    then record ps {
      orders_accepted = add64 ps.orders_accepted 1;
      trades_generated = add64 ps.trades_generated r.trade_count;
    }
    else record ps { orders_rejected = add64 ps.orders_rejected 1 }

abbrev pub count_cancel : PerInstrumentStats → Bool → PerInstrumentStats
count_cancel ps success =
    if success
    then record ps { orders_cancelled = add64 ps.orders_cancelled 1 }
    else record ps { cancel_failures = add64 ps.cancel_failures 1 }

abbrev pub count_modify : PerInstrumentStats → GatewayResult → PerInstrumentStats
count_modify ps r =
    if r.accepted
    then record ps {
      orders_modified = add64 ps.orders_modified 1;
      trades_generated = add64 ps.trades_generated r.trade_count;
    }
    else record ps { modify_failures = add64 ps.modify_failures 1 }

-- The `switch` on the type of a record, on the statistics of its instrument; the last number is what
-- is added to the parse errors.
unfoldable pub dispatch_type :
    L3EventType
    → ℕ
    → InstrumentRouter
    → PerInstrumentStats
    → ℕ
    → L3Record
    → Option (InstrumentRouter × PerInstrumentStats × ℕ)
dispatch_type add fuel router ps id r = do
  (router', answer) ← route_order nobody fuel router (to_order_message r id)
  some (router', count_order (record ps { add_messages = add64 ps.add_messages 1 }) answer, 0)
dispatch_type cancel fuel router ps id r = do
  (router', success) ← route_cancel nobody fuel router id r.order_id
  some (
    router',
    count_cancel (record ps { cancel_messages = add64 ps.cancel_messages 1 }) success,
    0,
  )
dispatch_type modify fuel router ps id r = do
  (router', answer) ← route_modify nobody fuel router (to_modify_message r id)
  some
      (router', count_modify (record ps { modify_messages = add64 ps.modify_messages 1 }) answer, 0)
dispatch_type trade fuel router ps id r =
    some (router, record ps { trade_messages = add64 ps.trade_messages 1 }, 0)
dispatch_type invalid fuel router ps id r = some (router, ps, 1)

-- The final state of the book of an instrument.
unfoldable pub final_of : InstrumentRouter → PerInstrumentStats → PerInstrumentStats
final_of router ps = elim (order_book router ps.instrument_id) [
  | none ↦ ps
  | some b ↦ record ps {
    final_order_count = b.order_count;
    final_best_bid = price_or_zero (best_level b buy);
    final_best_ask = price_or_zero (best_level b sell);
  }
]
