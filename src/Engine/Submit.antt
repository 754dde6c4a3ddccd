-- ===== src/Engine/Submit.antt =====
-- The public operations of matching_engine.cpp: submit, cancel and modify, and the outer loop.
use hft_orderbook_engine.Base.{
  ℕ, zero, suc, Bool, true, false, not, ◌&&◌, ◌||◌, Option, none, some, [], if◌then◌else◌, ltb, leb,
  ◌==◌,
}
use hft_orderbook_engine.Base.Int.{ℤ}
use hft_orderbook_engine.Core.{Order, Store, Side, remaining_quantity}
use hft_orderbook_engine.Core
use hft_orderbook_engine.Pool
use hft_orderbook_engine.Pool.{MemoryPool}
use hft_orderbook_engine.Book
use hft_orderbook_engine.Book.{OrderBook, levels, set_status, best_idx, invalid_index, ModifyResult}
use hft_orderbook_engine.Book.Query.{available_quantity, best_level}
use hft_orderbook_engine.Engine.{
  Engine, Matching, MatchResult, MatchStatus, SelfTradePreventionMode, filled, partial_fill,
  resting, cancelled, rejected, self_trade_prevented, modified, opposite, is_market, is_ioc, is_fok,
  price_crosses, release, wants_more, match_level,
}

unfoldable pub make : OrderBook → Store → MemoryPool → SelfTradePreventionMode → Engine
make book store pool stp = record {
  book = book;
  store = store;
  pool = pool;
  stp_mode = stp;
  trade_id_counter = 0;
}

-- Does the best level of the other side exist, and does the order cross it?
unfoldable pub crosses_best : Matching → ℕ → Side → Bool
crosses_best m o side = elim (best_level m.book side) [
  | none ↦ false
  | some level ↦ price_crosses (m.store o) level
]

-- The outer loop; `none` means that the fuel ran out.
unfoldable pub match_order : ℕ → Matching → ℕ → Option Matching
match_order zero m o = none
match_order (suc fuel) m o =
    let side = opposite (m.store o).side in
    if wants_more m o && crosses_best m o side
    then elim (match_level (suc fuel) m o side (best_idx m.book side)) [
      | none ↦ none
      | some (m', true) ↦ some m'
      | some (m', false) ↦ match_order fuel m' o
    ]
    else some m

unfoldable pub check_fok_feasibility : OrderBook → Order → Bool
check_fok_feasibility b o = leb o.quantity (available_quantity b (opposite o.side) o.price)

abbrev pub fresh_result : MatchStatus → ℕ → MatchResult
fresh_result status remaining = record {
  status = status;
  trade_count = 0;
  filled_quantity = 0;
  remaining_quantity = remaining;
  trades = [];
}

abbrev pub is_prevented : MatchStatus → Bool
is_prevented self_trade_prevented = true
is_prevented _ = false

-- `result.status = st; order->status = os; pool_.deallocate(order);`
abbrev finish : Engine → MatchResult → ℕ → MatchStatus → Core.OrderStatus → Engine × MatchResult
finish e r o st os = (release e o os, record r { status = st })

-- Rest the remainder on the book; a match that filled nothing has status `st`.
unfoldable pub rest : Engine → MatchResult → ℕ → MatchStatus → Engine × MatchResult
rest e r o st =
    let filled_some = ltb 0 r.filled_quantity in
    let s = if filled_some then set_status e.store o Core.partial_fill else e.store in
    let (b, s', _) = Book.add_order e.book s o in
    (
      record e { book = b; store = s' },
      record r { status = if filled_some then partial_fill else st },
    )

-- What `submit_order` does after the matching loop.
unfoldable pub settle : Matching → ℕ → Engine × MatchResult
settle m o =
    let remaining = remaining_quantity (m.store o) in
    let r = record (m.result) { remaining_quantity = remaining } in
    let e = m.engine in
    if is_prevented r.status
    then (record e { pool = Pool.deallocate e.pool o }, r)
    else if remaining == 0
    then finish e r o filled Core.filled
    else if is_market (m.store o).type || is_ioc (m.store o).type
    then finish e r o cancelled Core.cancelled
    else if is_fok (m.store o).type
    then finish e r o rejected Core.rejected
    else rest e r o resting

-- The two checks before the matching loop.
unfoldable pub admissible : Engine → ℕ → Bool
admissible e o =
    (is_market (e.store o).type || Book.is_valid_price e.book (e.store o).price)
    && (not (is_fok (e.store o).type) || check_fok_feasibility e.book (e.store o))

abbrev pub start : Engine → ℕ → Matching
start e o = record { engine = e; result = fresh_result rejected (remaining_quantity (e.store o)) }

unfoldable pub submit_order : ℕ → Engine → ℕ → Option (Engine × MatchResult)
submit_order fuel e o =
    if admissible e o
    then elim (match_order fuel (start e o) o) [ none ↦ none | some m ↦ some (settle m o) ]
    else some (release e o Core.rejected, (start e o).result)

unfoldable pub cancel_order : Engine → ℕ → Engine × Bool
cancel_order e id =
    let (b, s, cancelled_order) = Book.cancel_order e.book e.store id in
    let e' = record e { book = b; store = s } in
    elim cancelled_order [
      | none ↦ (e', false)
      | some o ↦ (record e' { pool = Pool.deallocate e.pool o }, true)
    ]

-- What `modify_order` does after the matching loop. It does not look at the status that the loop
-- left.
unfoldable pub settle_modify : Matching → ℕ → Engine × MatchResult
settle_modify m o =
    let remaining = remaining_quantity (m.store o) in
    let r = record (m.result) { remaining_quantity = remaining } in
    if remaining == 0
    then finish (m.engine) r o filled Core.filled
    else rest (m.engine) r o modified

unfoldable pub modify_order : ℕ → Engine → ℕ → ℤ → ℕ → ℕ → Option (Engine × MatchResult)
modify_order fuel e id new_price new_quantity new_timestamp =
    let (b, s, mr) = Book.modify_order e.book e.store id new_price new_quantity new_timestamp in
    let e' = record e { book = b; store = s } in
    elim mr [
      | none ↦ some (e', fresh_result rejected 0)
      | some amendment ↦ elim (match_order fuel (start e' amendment.order) amendment.order) [
        | none ↦ none
        | some m ↦ some (settle_modify m amendment.order)
      ]
    ]
