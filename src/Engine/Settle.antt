-- ===== src/Engine/Settle.antt =====
-- What follows the matching loop keeps the invariant, on every branch.
use hft_orderbook_engine.Base.{
  ℕ, ◌+◌, length, ◌≡◌, sym, true, [], ◌∷◌, ◌++◌, arith, ◌==◌, Bool, ◌||◌, ◌⊎◌, Bool-cases, inl, inr,
  has, has-append, has_apart, erase, has-erase_ne, if◌then◌else◌, ltb, update,
}
use mathlib.Core.Path.{subst₂}
use hft_orderbook_engine.Core.{Side, Order, OrderStatus, Store, remaining_quantity}
use hft_orderbook_engine.Core
use hft_orderbook_engine.Pool
use hft_orderbook_engine.Pool.FreeList.{deallocate-IsPool}
use hft_orderbook_engine.Book
use hft_orderbook_engine.Book.{OrderBook, set_status, price_to_index}
use hft_orderbook_engine.Book.Invariant.{Inv, IsSound, Queues, set_queue, same_place}
use hft_orderbook_engine.Book.Frame.{core-set_status, IsSound-frame}
use hft_orderbook_engine.Book.Operations.{Inv-update, add_order-Inv}
use hft_orderbook_engine.Book.Linked.{Linked, Linked-less, Linked-update, add_order-Linked}
use hft_orderbook_engine.Engine.{
  Engine, Matching, MatchResult, MatchStatus, resting, is_market, is_ioc, is_fok,
}
use hft_orderbook_engine.Engine.Invariant.{Good, Tied, Steady, Held}
use hft_orderbook_engine.Engine.Submit.{settle, rest, is_prevented}

-- The state after an operation is steady, and the map still finds exactly the orders that rest.
abbrev pub Settled : {e : Engine} {o : ℕ} → Good e o → Engine → Type 0
Settled g e' = (v : Steady e') × (Tied g → Held v)

-- The slot of an order that is in no queue is given back.
freed :
    {e : Engine} {o : ℕ} (g : Good e o) (t : Store)
    → Inv e.book t g.queues
    → (Tied g → Linked e.book t g.queues (length g.free + 2))
    → Settled g (record e { store = t; pool = Pool.deallocate e.pool o })
freed {e} {o} g t v link = (
  record {
    queues = g.queues;
    free = o ∷ g.free;
    live = erase o g.live;
    book = v;
    pool = deallocate-IsPool o g.pool g.alive;
    owned = λ d i x h.
        let ne = has_apart x o (g.queues d i) h (g.out d i) in
        rw (has-erase_ne o x g.live ne) (g.owned d i x h);
  },
  λ w. Linked-less (omega arith) (link w),
)

-- Its bytes may be any.
pub freed-Settled :
    {e : Engine} {o : ℕ} (g : Good e o) (c : Order)
    → Settled g (record e { store = update e.store o c; pool = Pool.deallocate e.pool o })
freed-Settled {e} {o} g c =
    freed g (update e.store o c) (Inv-update o c g.book g.out) (λ w. Linked-update o c w g.out)

dropped-Settled :
    {e : Engine} {o : ℕ} (g : Good e o) → Settled g (record e { pool = Pool.deallocate e.pool o })
dropped-Settled {e} g = freed g e.store g.book (λ w. w)

module _ {e : Engine} {o : ℕ} (g : Good e o) (r : MatchResult) (st : MatchStatus)
    (sound : IsSound (e.store o)) where
  abbrev s : Store
  s = if ltb 0 r.filled_quantity then set_status e.store o Core.partial_fill else e.store

  s-Inv : Inv e.book s g.queues
  s-Inv = elim (Bool-cases (ltb 0 r.filled_quantity)) [
    | inl p ↦ rw p (Inv-update o _ g.book g.out)
    | inr p ↦ rw p g.book
  ]

  s-Linked : Tied g → Linked e.book s g.queues (length g.free + 2)
  s-Linked w = elim (Bool-cases (ltb 0 r.filled_quantity)) [
    | inl p ↦ rw p (Linked-update o _ w g.out)
    | inr p ↦ rw p w
  ]

  s-IsSound : IsSound (s o)
  s-IsSound = elim (Bool-cases (ltb 0 r.filled_quantity)) [
    | inl p ↦ rw p (IsSound-frame (core-set_status e.store o Core.partial_fill o) sound)
    | inr p ↦ rw p sound
  ]

  abbrev added : OrderBook × Store × Bool
  added = Book.add_order e.book s o

  abbrev idx : ℕ
  idx = price_to_index e.book (s o).price

  abbrev q' : Queues
  q' = set_queue g.queues (s o).side idx (g.queues (s o).side idx ++ o ∷ [])

  q'-owned : (c : Side) (j x : ℕ) → has x (q' c j) ≡ true → has x g.live ≡ true
  q'-owned c j x h = elim (Bool-cases (same_place (s o).side idx c j)) [
    | inl p ↦ elim (there p) [ inl k ↦ g.owned (s o).side idx x k | inr k ↦ rw k g.alive ]
    | inr p ↦ g.owned c j x (ground arith)
  ]
    where
      there :
          same_place (s o).side idx c j ≡ true → (has x (g.queues (s o).side idx) ≡ true) ⊎ (x ≡ o)
      there p = ground (arith, has-append x (g.queues (s o).side idx) (o ∷ []))

  -- A remainder that rests, or that the book refuses, leaves a steady state.
  pub rest-Settled : Settled g (rest e r o st).0
  unfolding rest
  rest-Settled =
      let laws = add_order-Inv o s-Inv g.out s-IsSound in
      elim (Bool-cases added.2) [
        | inl h ↦ (
          record {
            queues = q';
            free = g.free;
            live = g.live;
            book = laws.1 h;
            pool = g.pool;
            owned = q'-owned;
          },
          λ w.
              add_order-Linked {n = length g.free + 1} o s-Inv g.out s-IsSound
                (Linked-less (omega arith) (s-Linked w)) h,
        )
        | inr h ↦
            let (eb, et) = laws.2 h in
            (
              record {
                queues = g.queues;
                free = g.free;
                live = g.live;
                book = subst₂ (λ c u. Inv c u g.queues) (sym eb) (sym et) s-Inv;
                pool = g.pool;
                owned = g.owned;
              },
              λ w.
                  subst₂ (λ c u. Linked c u g.queues (length g.free + 1)) (sym eb) (sym et)
                    (Linked-less (omega arith) (s-Linked w)),
            )
      ]

pub settle-Settled :
    (m : Matching) {o : ℕ} (g : Good m.engine o) → IsSound (m.store o) → Settled g (settle m o).0
unfolding settle
settle-Settled m {o} g sound = elim (Bool-cases (is_prevented m.result.status)) [
  | inl p ↦ rw (p, settle) (dropped-Settled g)
  | inr p ↦ elim (Bool-cases (remaining_quantity (m.store o) == 0)) [
    | inl z ↦ rw (p, z, settle) (freed-Settled g _)
    | inr z ↦ elim (Bool-cases (is_market (m.store o).type || is_ioc (m.store o).type)) [
      | inl k ↦ rw (p, z, k, settle) (freed-Settled g _)
      | inr k ↦ elim (Bool-cases (is_fok (m.store o).type)) [
        | inl f ↦ rw (p, z, k, f, settle) (freed-Settled g _)
        | inr f ↦ rw (p, z, k, f, settle) (rest-Settled g _ resting sound)
      ]
    ]
  ]
]
