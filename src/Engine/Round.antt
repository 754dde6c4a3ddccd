-- ===== src/Engine/Round.antt =====
-- One round of the inner matching loop keeps the invariant and makes progress.
use hft_orderbook_engine.Base.{
  ℕ, ◌+◌, ◌-◌, ◌≤◌, ◌<◌, ◌≡◌, refl, ◌∙◌, ap, true, false, arith, ◌==◌, Bool, ◌&&◌, ◌⊎◌, Bool-cases,
  inl, inr, has, ◌^◌,
}
use hft_orderbook_engine.Core.{
  Side, buy, sell, Order, OrderStatus, Store, remaining_quantity, remaining_visible,
}
use hft_orderbook_engine.Core
use hft_orderbook_engine.Level.{PriceLevel}
use hft_orderbook_engine.Book
use hft_orderbook_engine.Book.{OrderBook, levels, set_level, set_status, price_to_index}
use hft_orderbook_engine.Book.Invariant.{Inv}
use hft_orderbook_engine.Book.Frame.{core, core-set_status}
use hft_orderbook_engine.Book.Operations.{Inv-update}
use hft_orderbook_engine.Book.Linked.{Linked-ids, Linked-update, Linked-set_level}
use hft_orderbook_engine.Engine.{
  Engine, Matching, SelfTradePreventionMode, stp_none, cancel_newest, cancel_oldest, cancel_both,
  take_fill, mark_fill, by_remaining, fill_quantity, execute_fill, after_fill, retire, prevented,
  handle_self_trade, match_front, stp_enabled, check_self_trade, max_trades_per_match,
}
use hft_orderbook_engine.Engine.Invariant.{
  Good, Tied, Drops, resting_orders, front_ne, retire-Drops,
}
use hft_orderbook_engine.Engine.Requeue.{requeue-Drops}
use hft_orderbook_engine.Engine.Fill.{
  take_fill_other, take_fill_self, take_fill-Inv, set_status-Inv,
}

-- The rounds that are left: trades and resting orders.
abbrev pub measure : {o : ℕ} → (m : Matching) → Good m.engine o → ℕ
measure m g =
    max_trades_per_match - m.result.trade_count + resting_orders g.queues m.book.num_levels

weaken : {e : Engine} {o : ℕ} (g : Good e o) (e' : Engine) → Drops g e' 1 → Drops g e' 0
weaken g e' (g', n, p, c, l) = (g', n, omega (arith, p), c, l)

-- What becomes of the resting order after a fill adds no order to the book.
after_fill-Drops :
    {e : Engine} {o : ℕ} (g : Good e o) (front : ℕ) (d : Side) (i : ℕ)
    → has front (g.queues d i) ≡ true
    → Drops g (after_fill e front) 0
unfolding after_fill
after_fill-Drops {e} g front d i there =
    elim (Bool-cases (remaining_quantity (e.store front) == 0)) [
      | inl h ↦
          rw h (weaken g (retire e front Core.filled) (retire-Drops g front d i there Core.filled))
      | inr h ↦
          rw h
            (elim (Bool-cases
              (remaining_visible (e.store front) == 0 && Book.is_iceberg (e.store front).type)) [
                | inl k ↦ rw k (requeue-Drops g front d i there)
                | inr k ↦ rw k (g, refl, omega arith, refl, λ w. w)
              ])
    ]

-- What a match keeps of its own order: its terms; and what is filled grows within the quantity.
pub record Kept (p p' : Order) : Type 0 where
  pub quantity : p'.quantity ≡ p.quantity
  pub visible : p'.visible_quantity ≡ p.visible_quantity
  pub price : p'.price ≡ p.price
  pub side : p'.side ≡ p.side
  pub type : p'.type ≡ p.type
  pub order_id : p'.order_id ≡ p.order_id
  pub filled :
      p.filled_quantity ≤ p.quantity
      → p.quantity < 2 ^ 64
      → (p.filled_quantity ≤ p'.filled_quantity) × (p'.filled_quantity ≤ p'.quantity)

pub Kept-core : {p p' : Order} → core p' ≡ core p → Kept p p'
Kept-core {p} {p'} same = record {
  quantity = ap (λ (x : Order). x.quantity) same;
  visible = ap (λ (x : Order). x.visible_quantity) same;
  price = ap (λ (x : Order). x.price) same;
  side = ap (λ (x : Order). x.side) same;
  type = ap (λ (x : Order). x.type) same;
  order_id = ap (λ (x : Order). x.order_id) same;
  filled = λ h k.
      omega
        (arith, ap (λ (x : Order). x.quantity) same, ap (λ (x : Order). x.filled_quantity) same);
}

pub Kept-trans : {p q r : Order} → Kept p q → Kept q r → Kept p r
Kept-trans k l = record {
  quantity = l.quantity ∙ k.quantity;
  visible = l.visible ∙ k.visible;
  price = l.price ∙ k.price;
  side = l.side ∙ k.side;
  type = l.type ∙ k.type;
  order_id = l.order_id ∙ k.order_id;
  filled = λ h w.
      let a = k.filled h w in
      let b = l.filled a.1 (omega (arith, k.quantity)) in omega (arith, a, b);
}

module _ (m : Matching) {o : ℕ} (g : Good m.engine o) (front : ℕ) (d : Side) (i : ℕ)
    (there : has front (g.queues d i) ≡ true) where
  abbrev x : ℕ
  x = fill_quantity m.store o front

  apart : (o == front) ≡ false
  apart = front_ne g front d i there

  taken : Store
  taken = take_fill (take_fill m.store o x) front x

  first-Inv : Inv m.book (take_fill m.store o x) g.queues
  first-Inv = Inv-update o _ g.book g.out

  small : x ≤ remaining_visible (take_fill m.store o x front)
  small = rw (take_fill_other m.store o x front apart) (omega arith)

  filled-Inv : Inv (execute_fill m o front x d i).book (execute_fill m o front x d i).store g.queues
  unfolding execute_fill
  filled-Inv =
      set_status-Inv front _ (set_status-Inv o _ (take_fill-Inv front x d i first-Inv there small))

  -- The aggressive order is filled by at most what remains of it.
  own_fill : Kept (m.store o) (take_fill m.store o x o)
  own_fill = rw (take_fill_self m.store o x) (record {
    quantity = refl;
    visible = refl;
    price = refl;
    side = refl;
    type = refl;
    order_id = refl;
    filled = λ h k. (omega arith, omega arith);
  })

  pub fill-Kept : Kept (m.store o) ((execute_fill m o front x d i).store o)
  unfolding execute_fill taken
  fill-Kept =
      let ne : (front == o) ≡ false = ground (arith, apart) in
      let marked = mark_fill taken o in
      Kept-trans own_fill (
        Kept-core (
          core-set_status marked front (by_remaining (remaining_quantity (marked front))) o
          ∙ core-set_status taken o (by_remaining (remaining_quantity (taken o))) o
          ∙ ap core (take_fill_other (take_fill m.store o x) front x o ne)))

  fill-num : (execute_fill m o front x d i).book.num_levels ≡ m.book.num_levels
  unfolding execute_fill
  fill-num = num_same d _
    where
      num_same :
          (c : Side) (l : PriceLevel) → (set_level m.book c i l).num_levels ≡ m.book.num_levels
      num_same buy l = refl
      num_same sell l = refl

  fill-count :
      m.result.trade_count < max_trades_per_match
      → (execute_fill m o front x d i).result.trade_count ≡ m.result.trade_count + 1
  unfolding execute_fill
  fill-count room = omega arith

  filled-Good : Good (execute_fill m o front x d i).engine o
  filled-Good = record {
    queues = g.queues;
    free = g.free;
    live = g.live;
    book = filled-Inv;
    pool = unfold execute_fill in g.pool;
    owned = g.owned;
    out = g.out;
    alive = g.alive;
  }

  filled-Tied : Tied g → Tied filled-Good
  unfolding filled-Good execute_fill
  filled-Tied w = Linked-set_level d i _ (Linked-ids (λ c j y h. same_id y) w)
    where
      same_id : (y : ℕ) → ((execute_fill m o front x d i).store y).order_id ≡ (m.store y).order_id
      same_id y = ground arith

-- A round against `front` gives a good state. It stops the match, or leaves fewer rounds.
abbrev pub Advances : {o : ℕ} → (m : Matching) → Good m.engine o → Matching × Bool → Type 0
Advances {o} m g (m', stop) =
    (g' : Good m'.engine o) × (m'.book.num_levels ≡ m.book.num_levels)
    × (measure m' g' ≤ measure m g)
    × ((stop ≡ true) ⊎ (measure m' g' < measure m g))
    × Kept (m.store o) (m'.store o)
    × (Tied g → Tied g')

prevented-Good : (m : Matching) {o : ℕ} → Good m.engine o → Good (prevented m o).engine o
prevented-Good m {o} g = record {
  queues = g.queues;
  free = g.free;
  live = g.live;
  book = Inv-update o _ g.book g.out;
  pool = g.pool;
  owned = g.owned;
  out = g.out;
  alive = g.alive;
}

prevented-Tied : (m : Matching) {o : ℕ} (g : Good m.engine o) → Tied g → Tied (prevented-Good m g)
unfolding prevented-Good
prevented-Tied m {o} g w = Linked-update o _ w g.out

module _ (m : Matching) {o : ℕ} (g : Good m.engine o) (front : ℕ) (d : Side) (i : ℕ)
    (there : has front (g.queues d i) ≡ true) where
  abbrev retired : Matching
  retired = record m { engine = retire m.engine front Core.cancelled }

  stp-Advances :
      (mode : SelfTradePreventionMode)
      → m.stp_mode ≡ mode
      → stp_enabled mode ≡ true
      → Advances m g (handle_self_trade m o front)
  unfolding handle_self_trade prevented-Good
  stp-Advances stp_none e h = cc
  stp-Advances cancel_newest e h =
      rw (e, handle_self_trade)
        (
          prevented-Good m g,
          refl,
          omega arith,
          inl refl,
          Kept-core (core-set_status m.store o Core.cancelled o),
          prevented-Tied m g,
        )
  stp-Advances cancel_oldest e h =
      let (g', n, p, c, l) = retire-Drops g front d i there Core.cancelled in
      rw (e, handle_self_trade)
        (g', n, rw n (omega (arith, p)), inr (rw n (omega (arith, p))), Kept-core c, l)
  stp-Advances cancel_both e h =
      let (g', n, p, c, l) = retire-Drops g front d i there Core.cancelled in
      rw (e, handle_self_trade)
        (
          prevented-Good retired g',
          n,
          rw n (omega (arith, p)),
          inl refl,
          Kept-core (core-set_status retired.store o Core.cancelled o ∙ c),
          λ w. prevented-Tied retired g' (l w),
        )

  abbrev fill : Matching
  fill = execute_fill m o front (fill_quantity m.store o front) d i

  abbrev m' : Matching
  m' = record fill { engine = after_fill (fill.engine) front }

  fill-Advances : m.result.trade_count < max_trades_per_match → Advances m g (m', false)
  unfolding filled-Good
  fill-Advances room =
      let (g', n, p, c, l) = after_fill-Drops (filled-Good m g front d i there) front d i there in
      let count = fill-count m g front d i there room in
      let num = fill-num m g front d i there in
      let fewer : measure {o = o} m' g' < measure m g =
        rw (n, num, count) (omega (arith, rw num at p)) in
      (
        g',
        n ∙ num,
        omega (arith, fewer),
        inr fewer,
        Kept-trans (fill-Kept m g front d i there) (Kept-core c),
        λ w. l (filled-Tied m g front d i there w),
      )

  -- Every round makes progress and keeps the invariant.
  pub match_front-Advances :
      m.result.trade_count < max_trades_per_match → Advances m g (match_front m o d i front)
  unfolding match_front
  match_front-Advances room =
      elim (Bool-cases (stp_enabled m.stp_mode && check_self_trade (m.store o) (m.store front))) [
        | inl p ↦ rw (p, match_front) (stp-Advances m.stp_mode refl (ground arith))
        | inr p ↦ rw (p, match_front) (fill-Advances room)
      ]
