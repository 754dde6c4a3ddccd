-- ===== src/Lib.antt =====
-- The order path of the hft-orderbook-engine: orders enter a gateway, are matched against an order
-- book by an engine, rest in price levels in slots of a memory pool, and leave as events through a
-- ring buffer between two threads.
--
-- Files and the code they model (paths from the repository's root):
--
-- Base, Base/...: shared names, Boolean tests, machine words with wrap-around (add64, sub64, add32),
--   integers for prices, pointers as optional slot numbers and stores as functions, lists of slots,
--   masks as remainders.
-- Core: src/core/types.h, order.h, trade.h. An Order* is the number of a slot of the pool, and the
--   memory behind it is a Store, a function from slots to orders, so that aliasing is as in the source.
-- Level: PriceLevel of src/core/price_level.h, add_order and remove_order on the links of the store.
--   Level/Chain says when a level represents a list of slots; Level/Frame, Level/Add and Level/Remove
--   prove the two operations.
-- Pool: MemoryPool of src/orderbook/memory_pool.h; Pool/FreeList has the free list's invariant.
-- OrderMap: FlatOrderMap of src/orderbook/flat_order_map.h, with linear probing and the
--   backward-shift erase; OrderMap/Insert relates insert and find. OrderMap/Ring measures distances
--   along the ring of slots, Count the full slots, Table says when the slots are a table in which find
--   finds what stands there; Shift and Close follow the gap of an erasure; Grow, Erase and Empty are
--   about insert, erase and clear.
-- Book: OrderBook of src/orderbook/order_book.h and order_book.cpp; Book/Query has its queries. The
--   parts of an operation are definitions of their own (place_at is what add_order does behind its
--   guards, scan_down and scan_up are the loops of update_best_bid_after_remove and
--   update_best_ask_after_remove). Book/Invariant states the invariant, Best, Emptied, Grid, Frame,
--   Place, Removal and Remove prove its parts, Operations and Modify the operations. Book/Ids relates
--   the map from ids to the queues, Book/ById and Book/AddById are cancellation and addition by id,
--   and Book/Linked is what the engine uses of them.
-- Engine: src/matching/match_result.h, matching_engine.h and matching_engine.cpp; match_level is the
--   inner loop of match_order, match_front a round of it. Engine/Submit has the outer loop and the
--   public operations. Engine/Invariant states the invariant, Fill, Requeue, Round, Loop and Settle
--   carry it through a match, Operations and Modify through the public operations; Ledger and Report
--   are about the result; Start is about a new engine.
-- Transport: src/transport/message.h. Transport/Ring is SPSCRingBuffer of
--   src/transport/spsc_ring_buffer.h, Fifo the queue it stands for, Interleaving its two operations
--   cut at their accesses to shared memory.
-- Gateway: OrderGateway of src/gateway/order_gateway.h and order_gateway.cpp; Gateway/Events and
--   Gateway/Operations are about its events and process_order, Gateway/ById about process_cancel and
--   process_modify. Gateway/Publisher, Gateway/Registry and Gateway/Router are MarketDataPublisher,
--   InstrumentRegistry and InstrumentRouter.
-- Feed: the static parsing utilities of src/feed/l3_feed_parser.cpp; Feed/Csv, Feed/Decimal and
--   Feed/Price are about them. Feed/Lines is the parser of lines and the stream of records, with a
--   printer (Print), the round trip (RoundTrip) and what a valid record says of its line (Sound).
--   Feed/Text has texts as lists of bytes.
-- Feed/Fix: src/feed/fix_message.h. Feed/Fix/Parser is src/feed/fix_parser.cpp, Feed/Fix/Serializer
--   src/feed/fix_serializer.cpp; Tags, Frame, RoundTrip, Fields, Expected and Report are about the
--   parser on what the serializer writes, Sum about the checksum that it accepts, Sound about the
--   messages that it accepts.
-- Feed/Replay: ReplayEngine of src/feed/replay_engine.h and replay_engine.cpp, with the gateway's buffer
--   as the one that the publisher reads; Feed/Replay/Dispatch is about the switch on a record.
-- Feed/MultiReplay: MultiInstrumentReplayEngine of src/feed/multi_instrument_replay_engine.h and
--   multi_instrument_replay_engine.cpp, whose router has the event buffer; Feed/MultiReplay/Run
--   has its passes over a file.
-- Tests: concrete orders, books, engines and rings, and each theorem at one of them.
--
-- How the parts interact: the gateway allocates a slot of the pool, writes the order into the store and
-- calls the engine; the engine calls the book and gives slots back to the pool; the book keeps its
-- levels, its map from ids to slots and its best indices; the gateway pushes the events of the result
-- into the ring, and the publisher pops them. The router lends its one event buffer to the gateway of
-- an instrument.
--
-- Numbers and loops: quantities, ids and indices are natural numbers below 2^64 with the wrap-around
-- of uint64_t written out, counts in levels and results with that of uint32_t. Prices are integers,
-- whose overflow is not modelled, nor is that of the negation of the least price when one is
-- printed. The matching loops run on fuel and return none when it runs out: each round makes a trade
-- (at most 64) or takes a resting order out of the book, so that fuel above 64 plus the number of
-- resting orders is enough, as the theorems say. The probe loops of the map run for as many rounds
-- as the map has slots, after which the loops of the source would go round forever. The spin loop of
-- publish_event has the other thread's work as a parameter, and fuel. A callback is a function on
-- the client's state.
--
-- The interleavings take the acquire and release operations at their word: a thread that reads an
-- index sees what was written before the index was. A file is the list of its lines. Tag numbers,
-- body lengths and declared checksums of FIX messages are unbounded integers: the overflow of the
-- int of parse_int is not modelled. A report on an event whose union holds another member is none.
-- Two properties of an engine are kept apart: its invariant (Steady) says nothing of the order map;
-- Held says that the map finds exactly the orders that rest and has more slots left than the pool.
--
-- Not modelled: memory allocation and destructors, MarketDataPublisher::run (a loop over a flag that
-- another thread clears), reading of files, the reports of a replay, analytics in floating point,
-- clocks, latency statistics, the command line.
mod Base
pub mod Core
pub mod Level
pub mod Pool
pub mod OrderMap
pub mod Book
pub mod Engine
pub mod Transport
pub mod Gateway
pub mod Feed
pub mod Tests
