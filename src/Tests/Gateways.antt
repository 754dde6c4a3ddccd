-- ===== src/Tests/Gateways.antt =====
-- The gateway, the publisher and a replay at concrete values.
use hft_orderbook_engine.Base.{ℕ, ◌+◌, ◌^◌, refl, true, none, some, [], ◌∷◌, ◌++◌, map, arith, inl}
use hft_orderbook_engine.Pool
use hft_orderbook_engine.Transport
use hft_orderbook_engine.Transport.{EventMessage, OrderMessage, of_order}
use hft_orderbook_engine.Transport.Ring
use hft_orderbook_engine.Transport.Fifo.{IsRing, contents}
use hft_orderbook_engine.Engine.Invariant.{Steady, Held}
use hft_orderbook_engine.Engine.{MatchResult, filled}
use hft_orderbook_engine.Engine.Operations.{IsDisplayed}
use hft_orderbook_engine.Gateway
use hft_orderbook_engine.Gateway.{
  OrderGateway, EventBuffer, GatewayResult, trade_event, status_event, decompose_and_publish,
  process_order, fresh,
}
use hft_orderbook_engine.Gateway.Events.{HasRoom, Posted, decompose_and_publish-Posted}
use hft_orderbook_engine.Gateway.Operations.{Answers, process_order-Steady}
use hft_orderbook_engine.Gateway.Publisher
use hft_orderbook_engine.Gateway.Publisher.{MarketDataPublisher, Drains, poll, poll-Drains}
use hft_orderbook_engine.Base.Int.{pos}
use hft_orderbook_engine.Base.{Bool, subst, ◌≡◌, ◌==◌, ◌&&◌, false}
use hft_orderbook_engine.Gateway.Registry.{
  InstrumentConfig, InstrumentRegistry, empty_registry, register_instrument, find_by_id,
}
use hft_orderbook_engine.Gateway.Registry.Lookup.{
  Registered, register_instrument-find, register_instrument-kept,
}
use hft_orderbook_engine.OrderMap
use hft_orderbook_engine.Book
use hft_orderbook_engine.Core.{buy}
use hft_orderbook_engine.Gateway.{process_cancel, process_modify}
use hft_orderbook_engine.Gateway.ById.{
  Cancelled, process_cancel-Cancelled, Modified, process_modify-Modified,
}
use hft_orderbook_engine.Tests.{
  store, order, one_engine, one_engine-Steady, resting_one, one-found, bid_plain,
}
use hft_orderbook_engine.Feed
use hft_orderbook_engine.Feed.{L3Record}
use hft_orderbook_engine.Feed.Replay.{ReplayStats, no_stats, dispatch}
use hft_orderbook_engine.Feed.Replay.Dispatch.{IsTally, Dispatched, dispatch-Dispatched}
use hft_orderbook_engine.Tests.Maps.{one_engine-Held}

abbrev idle_consumer : EventBuffer → EventBuffer
idle_consumer b = b

abbrev blank_event : EventMessage
blank_event = record {
  type = Transport.order_accepted;
  instrument_id = 0;
  sequence_num = 0;
  payload = Transport.of_trade (record {
    trade_id = 0;
    buy_order_id = 0;
    sell_order_id = 0;
    price = (store 0).price;
    quantity = 0;
    timestamp = 0;
  });
}

abbrev buffer : EventBuffer
buffer = Ring.make (2 ^ 3) (λ i. blank_event)

buffer-IsRing : IsRing buffer
unfolding Ring.make
buffer-IsRing = record {
  bits = 3;
  power = refl;
  order = omega arith;
  room = omega arith;
  fits = omega arith;
}

abbrev gateway : OrderGateway
gateway = Gateway.make one_engine (some buffer) 0

abbrev one_trade : MatchResult
one_trade = record {
  status = filled;
  trade_count = 1;
  filled_quantity = 5;
  remaining_quantity = 0;
  trades =
      record {
        trade_id = 1;
        buy_order_id = 1;
        sell_order_id = 3;
        price = (store 0).price;
        quantity = 5;
        timestamp = 100;
      }
      ∷ [];
}

room : HasRoom buffer 2
unfolding Ring.make
room = record { ring = buffer-IsRing; room = omega arith; fits = omega arith }

decompose_and_publish-Posted_example :
    Posted gateway buffer
      (map trade_event one_trade.trades ++ status_event one_trade (store 1) ∷ [])
      (decompose_and_publish idle_consumer 1 gateway one_trade (store 1))
unfolding Gateway.make
decompose_and_publish-Posted_example =
    decompose_and_publish-Posted idle_consumer 0 gateway buffer one_trade (store 1) refl room
      (omega arith)

abbrev silent : OrderGateway
silent = Gateway.make one_engine none 0

abbrev message : OrderMessage
message = record { type = Transport.add; instrument_id = 0; order = store 1 }

message-IsDisplayed : IsDisplayed (fresh message.order)
message-IsDisplayed = record { whole = refl; part = omega arith; fits = omega arith }

process_order-Steady_example :
    Answers idle_consumer 99 one_engine-Steady true (process_order idle_consumer 100 silent message)
unfolding Gateway.make Pool.make Pool.build_free_list Pool.allocate Pool.raise_mark
    one_engine-Steady
process_order-Steady_example =
    process_order-Steady idle_consumer 99 silent message one_engine-Steady (inl refl) (omega arith)
      (omega arith) message-IsDisplayed (omega (arith, resting_one))

-- Two events wait, and the one callback counts them.
abbrev waiting : EventBuffer
waiting = record buffer { head = 2 }

waiting-IsRing : IsRing waiting
unfolding Ring.make
waiting-IsRing = record {
  bits = 3;
  power = refl;
  order = omega arith;
  room = omega arith;
  fits = omega arith;
}

abbrev publisher : MarketDataPublisher ℕ
publisher = Publisher.register_callback (Publisher.make waiting) (λ seen event. seen + 1)

poll-Drains_example : Drains publisher 0 0 (contents publisher.buffer) (poll 10 publisher 0)
unfolding Publisher.make Publisher.register_callback Ring.make
poll-Drains_example = poll-Drains 10 publisher 0 waiting-IsRing (omega arith) (omega arith)

abbrev instrument : ℕ → ℕ → InstrumentConfig
instrument id letter = record {
  instrument_id = id;
  symbol = letter ∷ 85 ∷ [];
  min_price = pos 1;
  max_price = pos 100;
  tick_size = pos 1;
  max_orders = 10;
}

abbrev one_instrument : InstrumentRegistry
one_instrument = (register_instrument empty_registry (instrument 3 65)).0

register_instrument-find_example :
    Registered one_instrument
      (instrument 4 66)
      (register_instrument one_instrument (instrument 4 66)).0
unfolding register_instrument
register_instrument-find_example = register_instrument-find one_instrument (instrument 4 66) refl

register_instrument-kept_example :
    (find_by_id (register_instrument one_instrument (instrument 3 67)).0 3 ≡ some (instrument 3 65))
    × ((3 == 3) && (register_instrument one_instrument (instrument 3 67)).1 ≡ false)
unfolding register_instrument find_by_id
register_instrument-kept_example =
    register_instrument-kept one_instrument (instrument 3 67) 3 (instrument 3 65) refl

unfoldable silent-Steady : Steady silent.engine
unfolding Gateway.make
silent-Steady = one_engine-Steady

silent-Held : Held silent-Steady
unfolding Gateway.make silent-Steady one_engine-Steady
silent-Held = one_engine-Held

process_cancel-Cancelled_example :
    (r : OrderGateway × Bool) × (process_cancel idle_consumer 100 silent 1 ≡ some r)
    × Cancelled idle_consumer 99 silent silent-Steady 1 r
unfolding Gateway.make
process_cancel-Cancelled_example =
    process_cancel-Cancelled idle_consumer 99 silent 1 silent-Steady silent-Held (inl refl)
      (omega arith)

-- The bid that rests is to be of 20 at the price 2.
abbrev amendment : OrderMessage
amendment = record { type = Transport.modify; instrument_id = 0; order = order 1 7 buy 2 20 }

plain :
    (o : ℕ)
    → OrderMap.find silent.engine.book.order_map 1 ≡ some o
    → Book.is_iceberg (silent.engine.store o).type ≡ false
unfolding Gateway.make
plain o e =
    let at : 0 ≡ o = cc (one-found, e) in
    subst (λ x. Book.is_iceberg (one_engine.store x).type ≡ false) at bid_plain

process_modify-Modified_example :
    (r : OrderGateway × GatewayResult) × (process_modify idle_consumer 100 silent amendment
      ≡ some r)
    × Modified idle_consumer 99 silent amendment.order r
unfolding Gateway.make one_engine-Steady
process_modify-Modified_example =
    process_modify-Modified idle_consumer 99 silent amendment one_engine-Steady one_engine-Held
      plain (inl refl) (omega arith) (omega arith) (omega arith) (omega (arith, resting_one))

-- The same modification as a record of a file, which is the first.
abbrev amending : L3Record
amending = record {
  timestamp = 200;
  event_type = Feed.modify;
  order_id = 1;
  side = buy;
  price = pos 2;
  quantity = 20;
  symbol = [];
  valid = true;
  error = none;
}

abbrev first : ReplayStats
first = record no_stats { total_messages = 1 }

first-IsTally : IsTally 1 first
first-IsTally = record {
  total = refl;
  adds = refl;
  cancels = refl;
  modifies = refl;
  fits = omega arith;
  generated = omega arith;
}

dispatch-Dispatched_example :
    (x : OrderGateway × ReplayStats) × (dispatch 100 silent first amending ≡ some x)
    × Dispatched 99 silent first amending amending.event_type x
unfolding Gateway.make one_engine-Steady
dispatch-Dispatched_example =
    dispatch-Dispatched 99 silent first amending one_engine-Steady one_engine-Held plain (inl refl)
      (omega arith) (omega arith) (omega arith) (omega (arith, resting_one)) first-IsTally
