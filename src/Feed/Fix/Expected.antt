-- ===== src/Feed/Fix/Expected.antt =====
-- What the tags and the fields of an execution report of fix_serializer.cpp say of its event.
use hft_orderbook_engine.Base.{ℕ, ◌≡◌, refl, some, [], ◌∷◌, ◌++◌, add64}
use hft_orderbook_engine.Base.Int.{ℤ}
use hft_orderbook_engine.Core.{Trade}
use hft_orderbook_engine.Transport.{
  EventType, trade, order_accepted, order_cancelled, order_rejected, order_filled,
  order_partial_fill, order_modified, OrderEventData, EventData, of_trade, of_order,
}
use hft_orderbook_engine.Feed.{Bytes, digits_from, parse_price}
use hft_orderbook_engine.Feed.Decimal.{print}
use hft_orderbook_engine.Feed.Fix.Parser.{Tags}
use hft_orderbook_engine.Feed.Fix.Serializer.{exec_prefix, to_fix_exec_type, to_fix_ord_status}

-- What the report's fields say of the event.
abbrev pub cl_ord_id_of : EventData → Bytes
cl_ord_id_of (of_trade t) = print t.sell_order_id
cl_ord_id_of (of_order e) = print e.order_id

abbrev pub price_of : EventData → ℤ
price_of (of_trade t) = t.price
price_of (of_order e) = e.price

-- What the parser takes from tag 38, which the report of a trade does not have: see tag 32.
abbrev pub quantity_of : EventData → ℕ
quantity_of (of_trade t) = 0
quantity_of (of_order e) = add64 e.filled_quantity e.remaining_quantity

abbrev pub time_of : EventData → ℕ
time_of (of_trade t) = t.timestamp
time_of (of_order e) = e.timestamp

-- The member of the union that is written is the one that the type announces.
abbrev pub Announces : EventType → EventData → Type 0
Announces trade (of_trade t) = Unit
Announces trade (of_order e) = ⊥
Announces type (of_trade t) = ⊥
Announces type (of_order e) = Unit

-- The tags of a trade: the two orders, the execution, the last and the total quantity, the price and
-- what is left.
pub record TradeTags (t : Trade) (k : Tags) : Type 0 where
  pub order_id : digits_from 0 (k 37) ≡ some t.buy_order_id
  pub cl_ord_id : digits_from 0 (k 11) ≡ some t.sell_order_id
  pub exec_id : k 17 ≡ exec_prefix ++ print t.trade_id
  pub exec_type : k 150 ≡ b'2' ∷ []
  pub ord_status : k 39 ≡ b'2' ∷ []
  pub last_quantity : digits_from 0 (k 32) ≡ some t.quantity
  pub last_price : parse_price (k 31) ≡ t.price
  pub total_quantity : digits_from 0 (k 14) ≡ some t.quantity
  pub left : k 151 ≡ b'0' ∷ []

-- The codes of an event in tags 150 and 39, by the tables of FIX 4.2.
abbrev pub code_of : EventType → ℕ
code_of order_accepted = b'0'
code_of order_partial_fill = b'1'
code_of order_filled = b'2'
code_of trade = b'2'
code_of order_cancelled = b'4'
code_of order_modified = b'5'
code_of order_rejected = b'8'

-- The tags of an event of an order: the order, the event's number, its codes, the quantity, what is
-- filled and what is left.
pub record OrderTags (type : EventType) (n : ℕ) (e : OrderEventData) (k : Tags) : Type 0 where
  pub order_id : digits_from 0 (k 37) ≡ some e.order_id
  pub cl_ord_id : digits_from 0 (k 11) ≡ some e.order_id
  pub exec_id : k 17 ≡ exec_prefix ++ print n
  pub exec_type : k 150 ≡ code_of type ∷ []
  pub ord_status : k 39 ≡ code_of type ∷ []
  pub whole : digits_from 0 (k 38) ≡ some (add64 e.filled_quantity e.remaining_quantity)
  pub total_quantity : digits_from 0 (k 14) ≡ some e.filled_quantity
  pub left : digits_from 0 (k 151) ≡ some e.remaining_quantity

abbrev pub TagsOf : EventType → ℕ → EventData → Tags → Type 0
TagsOf type n (of_trade t) k = TradeTags t k
TagsOf type n (of_order e) k = OrderTags type n e k

pub to_fix_exec_type-code : (t : EventType) → to_fix_exec_type t ≡ code_of t
unfolding to_fix_exec_type
to_fix_exec_type-code trade = refl
to_fix_exec_type-code order_accepted = refl
to_fix_exec_type-code order_cancelled = refl
to_fix_exec_type-code order_rejected = refl
to_fix_exec_type-code order_filled = refl
to_fix_exec_type-code order_partial_fill = refl
to_fix_exec_type-code order_modified = refl

pub to_fix_ord_status-code : (t : EventType) → to_fix_ord_status t ≡ code_of t
unfolding to_fix_ord_status
to_fix_ord_status-code trade = refl
to_fix_ord_status-code order_accepted = refl
to_fix_ord_status-code order_cancelled = refl
to_fix_ord_status-code order_rejected = refl
to_fix_ord_status-code order_filled = refl
to_fix_ord_status-code order_partial_fill = refl
to_fix_ord_status-code order_modified = refl
