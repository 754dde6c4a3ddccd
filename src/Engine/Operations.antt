-- ===== src/Engine/Operations.antt =====
-- `submit_order`, `cancel_order` and `modify_order` end, and keep the engine's invariant.
use hft_orderbook_engine.Base.{
  ℕ, ◌+◌, ◌≤◌, ◌<◌, ◌^◌, ◌≡◌, refl, sym, ap, subst, ◌∙◌, Bool, true, false, Ptr, none, Option-cases,
  ◌∷◌, arith, Bool-cases, inl, inr, has, erase, has-erase_ne, has_apart, some,
}
use hft_orderbook_engine.Core.{Side, Order, Store, remaining_quantity}
use hft_orderbook_engine.Core
use hft_orderbook_engine.Pool
use hft_orderbook_engine.Pool.FreeList.{deallocate-IsPool}
use hft_orderbook_engine.OrderMap
use hft_orderbook_engine.Book.Invariant.{IsSound, set_queue}
use hft_orderbook_engine.Book.Operations.{cancel_order-Inv, rest}
use hft_orderbook_engine.Book
use hft_orderbook_engine.Book.Remove.{sub_queues, remove_order-remove_at, remove_at-core}
use hft_orderbook_engine.Book.Frame.{core, core-set_status}
use hft_orderbook_engine.Book.Linked.{Linked-less, cancel_order-Linked}
use hft_orderbook_engine.Engine.{Engine, MatchResult, max_trades_per_match, release}
use hft_orderbook_engine.Engine.Invariant.{Good, Tied, Steady, Held, resting_orders}
use hft_orderbook_engine.Engine.Round.{Kept}
use hft_orderbook_engine.Engine.Loop.{match_order-Good}
use hft_orderbook_engine.Engine.Settle.{settle-Settled, freed-Settled}
use hft_orderbook_engine.Engine.Submit.{settle, submit_order, cancel_order, start, admissible}

-- An order that shows all of its quantity, as every order but an iceberg does.
pub record IsDisplayed (p : Order) : Type 0 where
  pub whole : p.visible_quantity ≡ p.quantity
  pub part : p.filled_quantity ≤ p.quantity
  pub fits : p.quantity < 2 ^ 64

pub Kept-IsSound : {p p' : Order} → IsDisplayed p → Kept p p' → IsSound p'
Kept-IsSound d k =
    let f = k.filled d.part d.fits in
    record {
      shown = omega (arith, f, k.visible, k.quantity, d.whole);
      within = omega (arith, k.visible, k.quantity, d.whole);
      fits = omega (arith, k.quantity, d.fits);
    }

-- The rounds that a match in this state can take.
abbrev pub rounds : {e : Engine} {o : ℕ} → Good e o → ℕ
rounds {e} g = max_trades_per_match + resting_orders g.queues e.book.num_levels

-- In an engine whose invariant holds, apart from an order that is in hand and in no queue, with fuel
-- above the 64 trades and the resting orders, submitting an order that shows all of its quantity
-- returns, and leaves the book, the pool and the ownership of slots in order. If the order map finds
-- exactly the orders that rest, and has more slots left than the pool, it does so afterwards.
pub submit_order-Steady :
    (fuel : ℕ) (e : Engine) (o : ℕ) (g : Good e o)
    → IsDisplayed (e.store o)
    → rounds g < fuel
    → (r : Engine × MatchResult) × (submit_order fuel e o ≡ some r)
      × (v : Steady r.0) × (Tied g → Held v)
unfolding submit_order
submit_order-Steady fuel e o g shown enough = elim (Bool-cases (admissible e o)) [
  | inl p ↦
      let (m, run, g', k, l) = match_order-Good fuel (start e o) o g (omega arith) in
      let (v, held) = settle-Settled m g' (Kept-IsSound shown k) in
      (settle m o, rw (p, run, submit_order), v, λ w. held (l w))
  | inr p ↦
      let (v, held) = freed-Settled g (record (e.store o) { status = Core.rejected }) in
      ((release e o Core.rejected, (start e o).result), rw (p, submit_order), v, held)
]

-- What the cancellation of order `o` of queue `i` of side `d` makes of an engine: the queue without the
-- order, whose slot is the first free one of the pool and no longer live; the order is cancelled, and
-- of all orders only links and status have changed.
pub record Taken {e : Engine} (v : Steady e) (o : ℕ) (d : Side) (i : ℕ) (e' : Engine) : Type 0 where
  pub steady : Steady e'
  pub queues :
      (c : Side) (j : ℕ) → steady.queues c j ≡ set_queue v.queues d i (erase o (v.queues d i)) c j
  pub free : steady.free ≡ o ∷ v.free
  pub live : steady.live ≡ erase o v.live
  pub status : (e'.store o).status ≡ Core.cancelled
  pub orders : (x : ℕ) → core (e'.store x) ≡ core (e.store x)
  pub counter : e'.trade_id_counter ≡ e.trade_id_counter
  pub mode : e'.stp_mode ≡ e.stp_mode
  pub held : Held v → Held steady

cancelled_core :
    (e : Engine) (id o : ℕ) (d : Side) (i : ℕ) (v : Steady e)
    → OrderMap.find e.book.order_map id ≡ some o
    → has o (v.queues d i) ≡ true
    → (x : ℕ) → core ((Book.cancel_order e.book e.store id).1 x) ≡ core (e.store x)
unfolding Book.cancel_order
cancelled_core e id o d i v found there x =
    rw (found, Book.cancel_order)
      (core-set_status (Book.remove_order e.book e.store o).1 o Core.cancelled x
        ∙ ap (λ (r : Book.OrderBook × Store). core (r.1 x))
            (remove_order-remove_at o d i v.book there)
        ∙ remove_at-core o d i v.book there x)

-- In an engine whose invariant holds, cancelling an order that the map finds and a queue holds
-- reports success, takes the order and no other out of its queue, marks it as cancelled, gives its
-- slot back to the pool, as the next one to be handed out, and keeps the invariant; and if the map
-- finds exactly the orders that rest, it does so afterwards.
pub cancel_order-Steady :
    (e : Engine) (id o : ℕ) (d : Side) (i : ℕ) (v : Steady e)
    → OrderMap.find e.book.order_map id ≡ some o
    → has o (v.queues d i) ≡ true
    → ((cancel_order e id).1 ≡ true) × Taken v o d i (cancel_order e id).0
unfolding cancel_order
cancel_order-Steady e id o d i v found there =
    let (reported, status, kept, gone) = cancel_order-Inv id o d i v.book found there in
    let orders = cancelled_core e id o d i v found there in
    rw (reported, cancel_order)
      (
        refl,
        record {
          steady = record {
            queues = rest id o d i v.book found there;
            free = o ∷ v.free;
            live = erase o v.live;
            book = kept;
            pool = deallocate-IsPool o v.pool (v.owned d i o there);
            owned = λ c j x h.
                let ne = has_apart x o (rest id o d i v.book found there c j) h (gone c j) in
                rw (has-erase_ne o x v.live ne)
                  (v.owned c j x (sub_queues o d i v.book there c j x h));
          };
          queues = λ c j. refl;
          free = refl;
          live = refl;
          status = status;
          orders = orders;
          counter = refl;
          mode = refl;
          held = λ w. Linked-less (omega arith) (cancel_order-Linked id o d i v.book found there w);
        },
      )

-- `cancel_order` with the book's answer.
abbrev answer : Engine → Book.OrderBook × Store × Ptr → Engine × Bool
answer e (b, s, cancelled_order) =
    let e' = record e { book = b; store = s } in
    elim cancelled_order [
      | none ↦ (e', false)
      | some o ↦ (record e' { pool = Pool.deallocate e.pool o }, true)
    ]

cancel_unknown :
    (e : Engine) (id : ℕ)
    → OrderMap.find e.book.order_map id ≡ none
    → cancel_order e id ≡ (e, false)
unfolding cancel_order Book.cancel_order
cancel_unknown e id h =
    let same : Book.cancel_order e.book e.store id ≡ (e.book, e.store, none) =
      rw (h, Book.cancel_order) in
    ap (answer e) same

-- An id that no resting order has, or one that an order of a queue has.
pub data CancelsById {e : Engine} (v : Steady e) (id : ℕ) : Engine × Bool → Type 0 where
  unknown : OrderMap.find e.book.order_map id ≡ none → CancelsById v id (e, false)
  removed :
      {e' : Engine} (o : ℕ) (d : Side) (i : ℕ)
      → OrderMap.find e.book.order_map id ≡ some o
      → has o (v.queues d i) ≡ true
      → (t : Taken v o d i e') → Held t.steady
      → CancelsById v id (e', true)

-- In an engine whose invariant holds and whose map finds exactly the orders that rest, cancelling by
-- any id takes the order of that id, or changes nothing.
pub cancel_order-CancelsById :
    (e : Engine) (id : ℕ) (v : Steady e) → Held v → CancelsById v id (cancel_order e id)
cancel_order-CancelsById e id v w = elim (Option-cases (OrderMap.find e.book.order_map id)) [
  | inl missing ↦ subst (CancelsById v id) (sym (cancel_unknown e id missing)) (unknown missing)
  | inr (o, found) ↦
      let (_, (d, i, there)) = w.ids.known id o found in
      let (success, t) = cancel_order-Steady e id o d i v found there in
      subst (λ ok. CancelsById v id ((cancel_order e id).0, ok)) (sym success)
        (removed o d i found there t (t.held w))
]
