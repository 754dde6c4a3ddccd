-- ===== src/Level.antt =====
-- core/price_level.h: the orders of one price, a doubly linked list through the slots of the pool.
pub mod Chain
pub mod Frame
pub mod Add
pub mod Remove
use hft_orderbook_engine.Base.{
  ℕ, Bool, true, false, none, some, Ptr, update, on_null, add64, sub64, add32, sub32,
}
use hft_orderbook_engine.Base.Int.{ℤ}
use hft_orderbook_engine.Core.{Store, remaining_quantity}

pub record PriceLevel : Type 0 where
  pub price : ℤ
  pub total_quantity : ℕ
  pub order_count : ℕ
  pub head : Ptr
  pub tail : Ptr

abbrev pub set_next : Store → ℕ → Ptr → Store
set_next s o p = update s o (record (s o) { next = p })

abbrev pub set_prev : Store → ℕ → Ptr → Store
set_prev s o p = update s o (record (s o) { prev = p })

-- `if (a) a->next = p;`
abbrev pub set_next_at : Store → Ptr → Ptr → Store
set_next_at s none p = s
set_next_at s (some a) p = set_next s a p

-- `if (a) a->prev = p;`
abbrev pub set_prev_at : Store → Ptr → Ptr → Store
set_prev_at s none p = s
set_prev_at s (some a) p = set_prev s a p

unfoldable pub add_order : PriceLevel → Store → ℕ → PriceLevel × Store
add_order l s o =
    let s1 = set_prev (set_next s o none) o l.tail in
    let s2 = set_next_at s1 l.tail (some o) in
    (
      record l {
        total_quantity = add64 l.total_quantity (remaining_quantity (s2 o));
        order_count = add32 l.order_count 1;
        head = on_null l.tail (some o) l.head;
        tail = some o;
      },
      s2,
    )

unfoldable pub remove_order : PriceLevel → Store → ℕ → PriceLevel × Store
remove_order l s o =
    let s1 = set_next_at s (s o).prev (s o).next in
    let s2 = set_prev_at s1 (s1 o).next (s1 o).prev in
    (
      record l {
        total_quantity = sub64 l.total_quantity (remaining_quantity (s o));
        order_count = sub32 l.order_count 1;
        head = on_null (s o).prev (s o).next l.head;
        tail = on_null (s1 o).next (s1 o).prev l.tail;
      },
      set_next (set_prev s2 o none) o none,
    )

abbrev pub front : PriceLevel → Ptr
front l = l.head

abbrev pub empty : PriceLevel → Bool
empty l = on_null l.head true false
