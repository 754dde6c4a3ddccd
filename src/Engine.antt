-- ===== src/Engine.antt =====
-- matching/match_result.h, matching_engine.h and matching_engine.cpp.
pub mod Submit
pub mod Modify
pub mod Operations
pub mod Settle
pub mod Loop
pub mod Start
pub mod Ledger
pub mod Report
pub mod Round
pub mod Fill
pub mod Requeue
pub mod Invariant
use hft_orderbook_engine.Base.{
  ℕ, zero, suc, ◌+◌, ◌-◌, min, Bool, true, false, not, ◌&&◌, ◌||◌, Option, none, some, Ptr, List,
  [], ◌∷◌, ◌++◌, update, ◌==◌, ltb, leb, if◌then◌else◌, add64, sub64, add32,
}
use hft_orderbook_engine.Base.Int.{ℤ, leb_ℤ}
use hft_orderbook_engine.Core.{
  Side, buy, sell, Order, OrderStatus, OrderType, Store, Trade, remaining_quantity,
  remaining_visible,
}
use hft_orderbook_engine.Core
use hft_orderbook_engine.Level
use hft_orderbook_engine.Level.{PriceLevel}
use hft_orderbook_engine.Pool
use hft_orderbook_engine.Pool.{MemoryPool}
use hft_orderbook_engine.Book
use hft_orderbook_engine.Book.{OrderBook, levels, set_level, set_status, best_idx, invalid_index}
use hft_orderbook_engine.Book.Query.{available_quantity}

pub data SelfTradePreventionMode : Type 0 where
  stp_none cancel_newest cancel_oldest cancel_both : SelfTradePreventionMode

pub data MatchStatus : Type 0 where
  filled partial_fill resting cancelled rejected self_trade_prevented modified : MatchStatus

abbrev pub max_trades_per_match : ℕ
max_trades_per_match = 64

-- `trades` holds the first `trade_count` entries of the source's array.
pub record MatchResult : Type 0 where
  pub status : MatchStatus
  pub trade_count : ℕ
  pub filled_quantity : ℕ
  pub remaining_quantity : ℕ
  pub trades : List Trade

-- The engine with the book, the pool and the orders' memory that it refers to.
pub record Engine : Type 0 where
  pub book : OrderBook
  pub store : Store
  pub pool : MemoryPool
  pub stp_mode : SelfTradePreventionMode
  pub trade_id_counter : ℕ

-- The state during a match: the engine and the result under construction.
pub record Matching : Type 0 where
  pub engine : Engine
  pub open engine use *
  pub result : MatchResult

abbrev pub opposite : Side → Side
opposite buy = sell
opposite sell = buy

abbrev pub is_market : OrderType → Bool
is_market Core.market = true
is_market _ = false

abbrev pub is_ioc : OrderType → Bool
is_ioc Core.ioc = true
is_ioc _ = false

abbrev pub is_fok : OrderType → Bool
is_fok Core.fok = true
is_fok _ = false

abbrev pub is_buy : Side → Bool
is_buy buy = true
is_buy sell = false

abbrev pub by_remaining : ℕ → OrderStatus
by_remaining zero = Core.filled
by_remaining (suc n) = Core.partial_fill

unfoldable pub price_crosses : Order → PriceLevel → Bool
price_crosses o l =
    if is_market o.type
    then true
    else if is_buy o.side
    then leb_ℤ l.price o.price
    else leb_ℤ o.price l.price

-- Taking the visible part of the resting order: the two quantities and statuses.
abbrev pub take_fill : Store → ℕ → ℕ → Store
take_fill s o fill_qty =
    update s o (record (s o) { filled_quantity = add64 (s o).filled_quantity fill_qty })

abbrev pub mark_fill : Store → ℕ → Store
mark_fill s o = set_status s o (by_remaining (remaining_quantity (s o)))

abbrev pub trade_of : Order → Order → ℕ → ℕ → Trade
trade_of aggressive passive fill_qty trade_id = record {
  trade_id = trade_id;
  buy_order_id = if is_buy aggressive.side then aggressive.order_id else passive.order_id;
  sell_order_id = if is_buy aggressive.side then passive.order_id else aggressive.order_id;
  price = passive.price;
  quantity = fill_qty;
  timestamp = aggressive.timestamp;
}

-- `level` is the level `idx` of `side`.
unfoldable pub execute_fill : Matching → ℕ → ℕ → ℕ → Side → ℕ → Matching
execute_fill m aggressive passive fill_qty side idx =
    let level = levels m.book side idx in
    let book =
      set_level m.book side idx
        (record level { total_quantity = sub64 level.total_quantity fill_qty }) in
    let filled = take_fill (take_fill m.store aggressive fill_qty) passive fill_qty in
    let s = mark_fill (mark_fill filled aggressive) passive in
    let id = add64 m.trade_id_counter 1 in
    record {
      engine = record (m.engine) { book = book; store = s; trade_id_counter = id };
      result = record (m.result) {
        trades = m.result.trades ++ trade_of (s aggressive) (s passive) fill_qty id ∷ [];
        trade_count = add32 m.result.trade_count 1;
        filled_quantity = add64 m.result.filled_quantity fill_qty;
      };
    }

-- `book_.remove_order(o); o->status = st; pool_.deallocate(o);`
unfoldable pub retire : Engine → ℕ → OrderStatus → Engine
retire e o st =
    let (b, s) = Book.remove_order e.book e.store o in
    record e { book = b; store = set_status s o st; pool = Pool.deallocate e.pool o }

-- `o->status = st; pool_.deallocate(o);`
abbrev pub release : Engine → ℕ → OrderStatus → Engine
release e o st = record e { store = set_status e.store o st; pool = Pool.deallocate e.pool o }

abbrev pub prevented : Matching → ℕ → Matching
prevented m aggressive = record {
  engine = record (m.engine) { store = set_status m.store aggressive Core.cancelled };
  result = record (m.result) {
    status = self_trade_prevented;
    remaining_quantity = remaining_quantity (m.store aggressive);
  };
}

-- The flag says whether matching stops.
unfoldable pub handle_self_trade : Matching → ℕ → ℕ → Matching × Bool
handle_self_trade m aggressive passive = elim m.stp_mode [
  | cancel_newest ↦ (prevented m aggressive, true)
  | cancel_oldest ↦ (record m { engine = retire m.engine passive Core.cancelled }, false)
  | cancel_both ↦
      (prevented (record m { engine = retire m.engine passive Core.cancelled }) aggressive, true)
  | stp_none ↦ (m, false)
]

unfoldable pub replenish_iceberg : Store → ℕ → Store
replenish_iceberg s o =
    let new_visible = min (s o).iceberg_slice_qty (remaining_quantity (s o)) in
    update s o (record (s o) { visible_quantity = add64 (s o).filled_quantity new_visible })

-- Remove, replenish, re-add at the back of the level.
unfoldable pub requeue : Engine → ℕ → Engine
requeue e o =
    let (b, s) = Book.remove_order e.book e.store o in
    let (b', s', _) = Book.add_order b (replenish_iceberg s o) o in
    record e { book = b'; store = s' }

-- What happens to the passive order after a fill.
unfoldable pub after_fill : Engine → ℕ → Engine
after_fill e o =
    if remaining_quantity (e.store o) == 0
    then retire e o Core.filled
    else if remaining_visible (e.store o) == 0 && Book.is_iceberg (e.store o).type
    then requeue e o
    else e

abbrev pub stp_enabled : SelfTradePreventionMode → Bool
stp_enabled stp_none = false
stp_enabled _ = true

unfoldable pub check_self_trade : Order → Order → Bool
check_self_trade a r = a.participant_id == r.participant_id

abbrev pub fill_quantity : Store → ℕ → ℕ → ℕ
fill_quantity s aggressive passive =
    min (remaining_quantity (s aggressive)) (remaining_visible (s passive))

-- One round of the inner loop, against the front order of a level.
unfoldable pub match_front : Matching → ℕ → Side → ℕ → ℕ → Matching × Bool
match_front m o side idx front =
    if stp_enabled m.stp_mode && check_self_trade (m.store o) (m.store front)
    then handle_self_trade m o front
    else let m' = execute_fill m o front (fill_quantity m.store o front) side idx in
      (record m' { engine = after_fill (m'.engine) front }, false)

abbrev pub wants_more : Matching → ℕ → Bool
wants_more m o =
    ltb 0 (remaining_quantity (m.store o)) && ltb m.result.trade_count max_trades_per_match

-- The inner loop, at level `idx` of `side`. `none` means that the fuel ran out; the flag says that
-- the whole match is over.
unfoldable pub match_level : ℕ → Matching → ℕ → Side → ℕ → Option (Matching × Bool)
match_level zero m o side idx = none
match_level (suc fuel) m o side idx =
    if wants_more m o
    then elim (levels m.book side idx).head [
      | none ↦ some (m, false)
      | some front ↦
          let (m', stop) = match_front m o side idx front in
          elim stop [ true ↦ some (m', true) | false ↦ match_level fuel m' o side idx ]
    ]
    else some (m, false)
