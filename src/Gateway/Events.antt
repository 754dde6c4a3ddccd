-- ===== src/Gateway/Events.antt =====
-- What `decompose_and_publish` and `publish_rejection` put into the event buffer.
use mathlib.Core.List.{append_assoc, append-nil}
use hft_orderbook_engine.Base.{
  ℕ, suc, ◌+◌, ◌≤◌, ◌<◌, ◌^◌, ◌≡◌, refl, sym, subst, ◌∙◌, ap, true, Option, none, some, List, [],
  ◌∷◌, ◌++◌, map, length, length-append, arith, add64, ◌>>=◌, lt→ltb,
}
use hft_orderbook_engine.Core.{Order, Trade}
use hft_orderbook_engine.Transport.{EventMessage, EventType, EventData}
use hft_orderbook_engine.Transport.Ring.{try_push}
use hft_orderbook_engine.Transport.Fifo.{IsRing, contents, try_push-contents, try_push-head}
use hft_orderbook_engine.Engine.{MatchResult}
use hft_orderbook_engine.Gateway.{
  OrderGateway, EventBuffer, trade_event, status_event, spin, publish, publish_event,
  publish_trades, decompose_and_publish,
}

-- Events with consecutive sequence numbers after `n`.
abbrev pub numbered : ℕ → ℕ → List (EventType × EventData) → List EventMessage
numbered instrument n [] = []
numbered instrument n (e ∷ rest) =
    record { type = e.0; instrument_id = instrument; sequence_num = n + 1; payload = e.1 }
    ∷ numbered instrument (n + 1) rest

numbered-append :
    (instrument n : ℕ) (es fs : List (EventType × EventData))
    → numbered instrument n (es ++ fs)
      ≡ numbered instrument n es ++ numbered instrument (n + length es) fs
numbered-append instrument n [] fs =
    let e : n ≡ n + 0 = omega arith in ap (λ m. numbered instrument m fs) e
numbered-append instrument n (x ∷ es) fs =
    let e : n + 1 + length es ≡ n + suc (length es) = omega arith in
    let rest =
      numbered-append instrument (n + 1) es fs
      ∙ ap (λ m. numbered instrument (n + 1) es ++ numbered instrument m fs) e in
    ap (λ xs. numbered instrument n (x ∷ []) ++ xs) rest

length-numbered :
    (instrument n : ℕ) (es : List (EventType × EventData))
    → length (numbered instrument n es) ≡ length es
length-numbered instrument n [] = refl
length-numbered instrument n (x ∷ es) = omega (arith, length-numbered instrument (n + 1) es)

length-map {ℓ κ} :
    {A : Type ℓ} {B : Type κ} (f : A → B) (xs : List A) → length (map f xs) ≡ length xs
length-map f [] = refl
length-map f (x ∷ xs) = omega (arith, length-map f xs)

-- Room in the ring for `k` more items, and no wrap of its indices.
pub record HasRoom (b : EventBuffer) (k : ℕ) : Type 0 where
  pub ring : IsRing b
  pub room : length (contents b) + k ≤ b.capacity
  pub fits : b.head + k < 2 ^ 64

-- The gateway `g` has put `es` behind the contents of `b`, and changed nothing but its sequence
-- number.
pub record Posted (g : OrderGateway) (b : EventBuffer) (es : List (EventType × EventData))
    (o : Option OrderGateway) : Type 0 where
  pub buffer : EventBuffer
  pub returned :
      o ≡ some (record g { sequence_num = g.sequence_num + length es; event_buffer = some buffer })
  pub ring : IsRing buffer
  pub queue : contents buffer ≡ contents b ++ numbered g.instrument_id g.sequence_num es
  pub head : buffer.head ≡ b.head + length es
  pub capacity : buffer.capacity ≡ b.capacity

try_push_room :
    (b : EventBuffer) (event : EventMessage)
    → HasRoom b 1
    → (b' : EventBuffer) × (try_push b event ≡ (b', true))
      × IsRing b'
      × (contents b' ≡ contents b ++ event ∷ [])
      × (b'.head ≡ b.head + 1)
      × (b'.capacity ≡ b.capacity)
unfolding try_push
try_push_room b event h =
    let (ring, test, queue) = try_push-contents b h.ring event h.fits in
    let pushed : (try_push b event).1 ≡ true =
      test ∙ lt→ltb (length (contents b)) b.capacity (omega (arith, h.room)) in
    let (head, capacity) = try_push-head b h.ring event pushed in
    (
      (try_push b event).0,
      ap (λ ok. ((try_push b event).0, ok)) pushed,
      ring,
      queue ∙ rw pushed,
      omega (arith, head, h.fits),
      capacity,
    )

-- The gateway after `k` events, with buffer `b`.
abbrev pub after : OrderGateway → ℕ → EventBuffer → OrderGateway
after g k b = record g { sequence_num = g.sequence_num + k; event_buffer = some b }

-- What is posted in two parts.
Posted-then :
    (g : OrderGateway) (b : EventBuffer) (es fs : List (EventType × EventData))
    (o : Option OrderGateway) (more : OrderGateway → Option OrderGateway) (p : Posted g b es o)
    → Posted (after g (length es) p.buffer) p.buffer fs (more (after g (length es) p.buffer))
    → Posted g b (es ++ fs) (o >>= more)
Posted-then g b es fs o more p q =
    let count = length-append es fs in
    record {
      buffer = q.buffer;
      returned =
          ap (λ r. r >>= more) p.returned
          ∙ q.returned
          ∙ ap (λ n. some (record g { sequence_num = n; event_buffer = some q.buffer }))
              (omega (arith, count));
      ring = q.ring;
      queue =
          q.queue
          ∙ ap (λ xs. xs ++ numbered g.instrument_id (g.sequence_num + length es) fs) p.queue
          ∙ append_assoc (contents b) _ _
          ∙ ap (λ xs. contents b ++ xs)
              (sym (numbered-append g.instrument_id g.sequence_num es fs));
      head = omega (arith, q.head, p.head, count);
      capacity = q.capacity ∙ p.capacity;
    }

pub HasRoom-less : (b : EventBuffer) (k m : ℕ) → HasRoom b m → k ≤ m → HasRoom b k
HasRoom-less b k m h le = record {
  ring = h.ring;
  room = omega (arith, h.room, le);
  fits = omega (arith, h.fits, le);
}

-- The room that is left.
HasRoom-after :
    (g : OrderGateway) (b : EventBuffer) (es : List (EventType × EventData))
    (o : Option OrderGateway) (k : ℕ)
    → HasRoom b (length es + k)
    → (p : Posted g b es o) → HasRoom p.buffer k
HasRoom-after g b es o k h p =
    let count = length-append (contents b) (numbered g.instrument_id g.sequence_num es) in
    record {
      ring = p.ring;
      room = omega (
        arith,
        h.room,
        ap length p.queue,
        count,
        length-numbered g.instrument_id g.sequence_num es,
        p.capacity,
      );
      fits = omega (arith, h.fits, p.head);
    }

module _ (consume : EventBuffer → EventBuffer) (n : ℕ) where
  publish_run :
      (g : OrderGateway) (b b' : EventBuffer) (e : EventType × EventData)
      → g.sequence_num + 1 < 2 ^ 64
      → try_push b (record {
        type = e.0;
        instrument_id = g.instrument_id;
        sequence_num = g.sequence_num + 1;
        payload = e.1;
      })
        ≡ (b', true)
      → publish consume (suc n) (record g { event_buffer = some b }) e ≡ some (after g 1 b')
  unfolding publish publish_event spin
  publish_run g b b' e low push =
      let number : add64 g.sequence_num 1 ≡ g.sequence_num + 1 = omega (arith, low) in
      rw (number, push) refl

  pub publish-Posted :
      (g : OrderGateway) (b : EventBuffer) (e : EventType × EventData)
      → g.event_buffer ≡ some b
      → HasRoom b 1
      → g.sequence_num + 1 < 2 ^ 64
      → Posted g b (e ∷ []) (publish consume (suc n) g e)
  publish-Posted g b e here h low =
      let (b', push, ring, queue, head, capacity) = try_push_room b _ h in
      record {
        buffer = b';
        returned =
            ap (λ o. publish consume (suc n) (record g { event_buffer = o }) e) here
            ∙ publish_run g b b' e low push;
        ring = ring;
        queue = queue;
        head = head;
        capacity = capacity;
      }

  publish_trades-Posted :
      (ts : List Trade) (g : OrderGateway) (b : EventBuffer)
      → g.event_buffer ≡ some b
      → HasRoom b (length ts)
      → g.sequence_num + length ts < 2 ^ 64
      → Posted g b (map trade_event ts) (publish_trades consume (suc n) g ts)
  unfolding publish_trades
  publish_trades-Posted [] g b here h low = record {
    buffer = b;
    returned =
        ap (λ o. some (record g { event_buffer = o })) here
        ∙ ap (λ m. some (record g { sequence_num = m; event_buffer = some b })) (omega arith);
    ring = h.ring;
    queue = sym (append-nil (contents b));
    head = omega arith;
    capacity = refl;
  }
  publish_trades-Posted (t ∷ ts) g b here h low =
      let first =
        publish-Posted g b (trade_event t) here (HasRoom-less b 1 (length (t ∷ ts)) h (omega arith))
          (omega (arith, low)) in
      let rest =
        publish_trades-Posted ts (after g 1 first.buffer) first.buffer refl
          (HasRoom-after g b (trade_event t ∷ []) _ (length ts)
            (HasRoom-less b (1 + length ts) (length (t ∷ ts)) h (omega arith)) first)
          (omega (arith, low)) in
      Posted-then g b (trade_event t ∷ []) (map trade_event ts)
        (publish consume (suc n) g (trade_event t)) (λ g'. publish_trades consume (suc n) g' ts)
        first rest

  -- A gateway whose event buffer has room, and whose sequence number is not about to wrap, publishes
  -- a result as its trades in their order and then one event for the order, with consecutive sequence
  -- numbers, behind what the buffer holds; it does not wait, and nothing else of it changes.
  pub decompose_and_publish-Posted :
      (g : OrderGateway) (b : EventBuffer) (r : MatchResult) (copy : Order)
      → g.event_buffer ≡ some b
      → HasRoom b (length r.trades + 1)
      → g.sequence_num + (length r.trades + 1) < 2 ^ 64
      → Posted g b
          (map trade_event r.trades ++ status_event r copy ∷ [])
          (decompose_and_publish consume (suc n) g r copy)
  unfolding decompose_and_publish
  decompose_and_publish-Posted g b r copy here h low =
      let count = length-map trade_event r.trades in
      let trades =
        publish_trades-Posted r.trades g b here
          (HasRoom-less b (length r.trades) (length r.trades + 1) h (omega arith))
          (omega (arith, low)) in
      let room : HasRoom b (length (map trade_event r.trades) + 1) =
        HasRoom-less b (length (map trade_event r.trades) + 1) (length r.trades + 1) h
          (omega (arith, count)) in
      let status =
        publish-Posted (after g (length (map trade_event r.trades)) trades.buffer) trades.buffer
          (status_event r copy) refl (HasRoom-after g b (map trade_event r.trades) _ 1 room trades)
          (omega (arith, low, count)) in
      let run =
        ap
          (λ (o : Option EventBuffer). elim o [
            | none ↦ some g
            | some _ ↦
                publish_trades consume (suc n) g r.trades
                >>= (λ g'. publish consume (suc n) g' (status_event r copy))
          ])
          here in
      subst (Posted g b (map trade_event r.trades ++ status_event r copy ∷ [])) (sym run) (
        Posted-then g b (map trade_event r.trades) (status_event r copy ∷ [])
          (publish_trades consume (suc n) g r.trades)
          (λ g'. publish consume (suc n) g' (status_event r copy)) trades status)
