-- ===== src/Feed/MultiReplay/Run.antt =====
-- The two passes of multi_instrument_replay_engine.cpp over a file, and what stands around them.
use hft_orderbook_engine.Base.{
  ℕ, zero, suc, not, ◌&&◌, Option, none, some, List, [], ◌∷◌, ◌++◌, ◌>>=◌, map, is_some, ◌==◌,
  if◌then◌else◌, add32, add64,
}
use hft_orderbook_engine.Core.{Store}
use hft_orderbook_engine.Transport.{EventMessage}
use hft_orderbook_engine.Gateway.{EventBuffer}
use hft_orderbook_engine.Gateway.Publisher
use hft_orderbook_engine.Gateway.Publisher.{MarketDataPublisher, poll}
use hft_orderbook_engine.Gateway.Registry.{
  Symbol, InstrumentConfig, InstrumentRegistry, empty_registry, register_instrument, lookup,
  same_symbol, get_elem?,
}
use hft_orderbook_engine.Gateway.Registry
use hft_orderbook_engine.Gateway.Router
use hft_orderbook_engine.Gateway.Router.{
  InstrumentRouter, set_elem, route_order, route_cancel, route_modify, order_book,
}
use hft_orderbook_engine.Feed.{Bytes, L3Record}
use hft_orderbook_engine.Feed.Lines.{L3FeedParser, open_file, reset, next, is_empty}
use hft_orderbook_engine.Feed.Replay.{subscribe}
use hft_orderbook_engine.Feed.MultiReplay.{
  MultiReplayConfig, MultiReplayStats, no_stats, stats_of, MultiInstrumentReplayEngine,
  register_all, symbols_from, indices_from, resolve, dispatch_type, final_of,
}

module _ {A : Type 0} where
  -- `unset` is what the new pools' memory holds.
  unfoldable pub make : MultiReplayConfig → Store → EventBuffer → A → MultiInstrumentReplayEngine A
  make config unset buffer client =
      let registry = register_all empty_registry config.instruments in
      record {
        config = config;
        registry = registry;
        event_buffer = some buffer;
        router =
            if config.auto_discover then none else some (Router.make unset registry (some buffer));
        publisher = none;
        callbacks = [];
        next_auto_id = 0;
        auto_symbol_map = [];
        client = client;
      }

  unfoldable pub register_event_callback :
      MultiInstrumentReplayEngine A → (A → EventMessage → A) → MultiInstrumentReplayEngine A
  register_event_callback e callback = record e { callbacks = e.callbacks ++ callback ∷ [] }

  -- A symbol that the first pass meets for the first time.
  unfoldable pub discover_symbol :
      MultiInstrumentReplayEngine A → Symbol → MultiInstrumentReplayEngine A
  discover_symbol e symbol =
      let id = e.next_auto_id in
      let cfg : InstrumentConfig = record {
        instrument_id = id;
        symbol = symbol;
        min_price = e.config.default_min_price;
        max_price = e.config.default_max_price;
        tick_size = e.config.default_tick_size;
        max_orders = e.config.default_max_orders;
      } in
      record e {
        next_auto_id = add32 id 1;
        auto_symbol_map = (symbol, id) ∷ e.auto_symbol_map;
        registry = (register_instrument e.registry cfg).0;
      }

  unfoldable pub discover_record :
      MultiInstrumentReplayEngine A → L3Record → MultiInstrumentReplayEngine A
  discover_record e r =
      let is_new = not (is_some (lookup same_symbol r.symbol e.auto_symbol_map)) in
      if r.valid && (not (is_empty r.symbol) && is_new) then discover_symbol e r.symbol else e

  -- The first pass, in as many rounds as the file has records.
  unfoldable pub discover_from :
      ℕ
      → L3FeedParser
      → MultiInstrumentReplayEngine A
      → Option (L3FeedParser × MultiInstrumentReplayEngine A)
  discover_from zero p e = none
  discover_from (suc rounds) p e =
      let (p', record_read) = next p in
      elim record_read [
        | none ↦ some (p', e)
        | some r ↦ discover_from rounds p' (discover_record e r)
      ]

  -- `if (publisher_) publisher_->poll();`
  unfoldable pub drain :
      ℕ
      → MultiInstrumentReplayEngine A
      → InstrumentRouter
      → Option (MultiInstrumentReplayEngine A × InstrumentRouter)
  drain fuel e router = elim e.publisher [
    | none ↦ some (e, router)
    | some p ↦ elim router.event_buffer [
      | none ↦ some (e, router)
      | some buffer ↦ do
        (p', client, count) ← poll fuel (record p { buffer = buffer }) e.client
        some (
          record e { publisher = some p'; client = client },
          record router { event_buffer = some p'.buffer },
        )
    ]
  ]

  -- A record of the instrument `id`, whose statistics stand at `idx`.
  unfoldable pub play :
      ℕ
      → MultiInstrumentReplayEngine A
      → InstrumentRouter
      → MultiReplayStats
      → L3Record
      → ℕ
      → ℕ
      → Option (MultiInstrumentReplayEngine A × InstrumentRouter × MultiReplayStats)
  play fuel e router s r id idx = do
    ps ← get_elem? s.per_instrument idx
    (router', ps', errors) ← dispatch_type r.event_type fuel router ps id r
    (e', router'') ← drain fuel e router'
    some (
      e',
      router'',
      record s {
        per_instrument = set_elem s.per_instrument idx ps';
        parse_errors = add64 s.parse_errors errors;
      },
    )

  -- The body of the loop; `symbols` and `indices` are its maps.
  unfoldable pub handle :
      ℕ
      → List (Symbol × ℕ)
      → List (ℕ × ℕ)
      → MultiInstrumentReplayEngine A
      → InstrumentRouter
      → MultiReplayStats
      → L3Record
      → Option (MultiInstrumentReplayEngine A × InstrumentRouter × MultiReplayStats)
  handle fuel symbols indices e router s r =
      let counted = record s { total_messages = add64 s.total_messages 1 } in
      if not r.valid
      then some (e, router, record counted { parse_errors = add64 s.parse_errors 1 })
      else elim (resolve symbols r) [
        | none ↦ some (e, router, counted)
        | some id ↦ elim (lookup ◌==◌ id indices) [
          | none ↦ some (e, router, counted)
          | some idx ↦ play fuel e router counted r id idx
        ]
      ]

  -- The second pass, in as many rounds as the file has records.
  unfoldable pub replay_from :
      ℕ
      → ℕ
      → List (Symbol × ℕ)
      → List (ℕ × ℕ)
      → L3FeedParser
      → MultiInstrumentReplayEngine A
      → InstrumentRouter
      → MultiReplayStats
      → Option (L3FeedParser × MultiInstrumentReplayEngine A × InstrumentRouter × MultiReplayStats)
  replay_from zero fuel symbols indices p e router s = none
  replay_from (suc rounds) fuel symbols indices p e router s =
      let (p', record_read) = next p in
      elim record_read [
        | none ↦ some (p', e, router, s)
        | some r ↦ do
          (e', router', s') ← handle fuel symbols indices e router s r
          replay_from rounds fuel symbols indices p' e' router' s'
      ]

  -- `run` from where there is a router on.
  unfoldable pub run_routed :
      ℕ
      → ℕ
      → MultiInstrumentReplayEngine A
      → InstrumentRouter
      → EventBuffer
      → L3FeedParser
      → Option (MultiInstrumentReplayEngine A × MultiReplayStats)
  run_routed rounds fuel e router buffer p = do
    let instruments = e.registry.instruments
    let subscribed = record e { publisher = some (subscribe (Publisher.make buffer) e.callbacks) }
    (p', e', router', s) ←
        replay_from rounds fuel (symbols_from [] instruments) (indices_from [] 0 instruments) p
          subscribed router (record no_stats { per_instrument = map stats_of instruments })
    (e'', router'') ← drain fuel e' router'
    some (
      record e'' { router = some router'' },
      record s {
        parse_errors = p'.parse_errors;
        per_instrument = map (final_of router'') s.per_instrument;
      },
    )

  -- The first pass, and the router for the instruments that it finds.
  unfoldable pub run_discovering :
      ℕ
      → ℕ
      → Store
      → MultiInstrumentReplayEngine A
      → EventBuffer
      → List Bytes
      → Option (MultiInstrumentReplayEngine A × MultiReplayStats)
  run_discovering rounds fuel unset e buffer lines = do
    (p, e') ← discover_from rounds (open_file lines) e
    let router = Router.make unset e'.registry (some buffer)
    let routed = run_routed rounds fuel e' router buffer (reset p)
    if Registry.count e'.registry == 0 then some (e', no_stats) else routed

  -- `file` is `none` where the file cannot be opened. Without a router, which is there unless
  -- `auto_discover` is set, the source would follow a null pointer.
  unfoldable pub run :
      ℕ
      → ℕ
      → Store
      → MultiInstrumentReplayEngine A
      → Option (List Bytes)
      → Option (MultiInstrumentReplayEngine A × MultiReplayStats)
  run rounds fuel unset e file = elim file [
    | none ↦ some (e, no_stats)
    | some lines ↦ elim e.router [
      | none ↦ do
        buffer ← e.event_buffer
        if e.config.auto_discover then run_discovering rounds fuel unset e buffer lines else none
      | some router ↦ do
        buffer ← router.event_buffer
        run_routed rounds fuel e router buffer (open_file lines)
    ]
  ]
