-- ===== src/Gateway/Publisher.antt =====
-- gateway/market_data_publisher.h and market_data_publisher.cpp: the consumer of the events.
use hft_orderbook_engine.Base.{
  ℕ, zero, suc, ◌+◌, ◌%◌, ◌<◌, ◌≡◌, refl, sym, subst, ap, Bool, false, Option, none, some, List, [],
  ◌∷◌, ◌++◌, add64, length, arith, u64_mod,
}
use hft_orderbook_engine.Transport.{EventMessage}
use hft_orderbook_engine.Transport.Ring.{try_pop}
use hft_orderbook_engine.Transport.Fifo.{IsRing, contents, try_pop-contents}
use hft_orderbook_engine.Gateway.{EventBuffer}

-- A callback is code of the client, and acts on the client's state `A`.
pub record MarketDataPublisher (A : Type 0) : Type 0 where
  pub buffer : EventBuffer
  pub callbacks : List (A → EventMessage → A)
  pub running : Bool
  pub events_processed : ℕ
  pub last_sequence_num : ℕ

-- The sequence number that is the last seen after some events.
abbrev pub last_number : ℕ → List EventMessage → ℕ
last_number n [] = n
last_number n (event ∷ events) = last_number event.sequence_num events

-- The queue that the answer of `try_pop` says there was.
abbrev popped_events : EventBuffer × Option EventMessage → List EventMessage
popped_events (b, none) = []
popped_events (b, some event) = event ∷ contents b

popped :
    (b : EventBuffer) (ans : EventBuffer × Option EventMessage)
    → IsRing (ans.0)
      × (contents b ≡ (elim ans.1 [ none ↦ [] | some item ↦ item ∷ contents (ans.0) ]))
    → IsRing (ans.0) × (contents b ≡ popped_events ans)
popped b (b', none) h = h
popped b (b', some event) h = h

module _ {A : Type 0} where
  unfoldable pub make : EventBuffer → MarketDataPublisher A
  make buffer = record {
    buffer = buffer;
    callbacks = [];
    running = false;
    events_processed = 0;
    last_sequence_num = 0;
  }

  unfoldable pub register_callback :
      MarketDataPublisher A → (A → EventMessage → A) → MarketDataPublisher A
  register_callback p callback = record p { callbacks = p.callbacks ++ callback ∷ [] }

  abbrev pub invoke : List (A → EventMessage → A) → A → EventMessage → A
  invoke [] a event = a
  invoke (cb ∷ cbs) a event = invoke cbs (cb a event) event

  abbrev pub processed : MarketDataPublisher A → EventBuffer → EventMessage → MarketDataPublisher A
  processed p buffer event = record p {
    buffer = buffer;
    last_sequence_num = event.sequence_num;
    events_processed = add64 p.events_processed 1;
  }

  -- The loop, with the count so far. It returns `none` when the fuel runs out.
  unfoldable pub poll_from :
      ℕ → MarketDataPublisher A → A → ℕ → Option (MarketDataPublisher A × A × ℕ)
  poll_from zero p a count = none
  poll_from (suc fuel) p a count =
      let (buffer', popped) = try_pop p.buffer in
      elim popped [
        | none ↦ some (p, a, count)
        | some event ↦
            poll_from fuel (processed p buffer' event) (invoke p.callbacks a event) (add64 count 1)
      ]

  unfoldable pub poll : ℕ → MarketDataPublisher A → A → Option (MarketDataPublisher A × A × ℕ)
  poll fuel p a = poll_from fuel p a 0

  unfoldable pub stop : MarketDataPublisher A → MarketDataPublisher A
  stop p = record p { running = false }

  -- Every event shown to every callback, in order.
  abbrev pub shown : List (A → EventMessage → A) → A → List EventMessage → A
  shown cbs a [] = a
  shown cbs a (event ∷ events) = shown cbs (invoke cbs a event) events

  -- What polling a queue of events leaves.
  pub record Drained (p : MarketDataPublisher A) (a : A) (count : ℕ) (events : List EventMessage)
      (r : MarketDataPublisher A × A × ℕ) : Type 0 where
    pub drained : contents (r.0).buffer ≡ []
    pub sound : IsRing (r.0).buffer
    pub seen : r.1 ≡ shown p.callbacks a events
    pub counted : r.2 ≡ (count + length events) % u64_mod
    pub total : (r.0).events_processed ≡ (p.events_processed + length events) % u64_mod
    pub last : (r.0).last_sequence_num ≡ last_number p.last_sequence_num events
    pub same : (r.0).callbacks ≡ p.callbacks

  -- What polling does once it has an answer of `try_pop`.
  abbrev resume :
      ℕ
      → MarketDataPublisher A
      → A
      → ℕ
      → EventBuffer × Option EventMessage
      → Option (MarketDataPublisher A × A × ℕ)
  resume fuel p a count (b, popped) = elim popped [
    | none ↦ some (p, a, count)
    | some event ↦ poll_from fuel (processed p b event) (invoke p.callbacks a event) (add64 count 1)
  ]

  abbrev pub Drains :
      MarketDataPublisher A
      → A
      → ℕ
      → List EventMessage
      → Option (MarketDataPublisher A × A × ℕ)
      → Type 0
  Drains p a count events o =
      (r : MarketDataPublisher A × A × ℕ) × (o ≡ some r) × Drained p a count events r

  resume-Drains :
      (fuel : ℕ) (p : MarketDataPublisher A) (a : A) (count : ℕ)
      → IsRing p.buffer
      → count < u64_mod
      → p.events_processed < u64_mod
      → (ans : EventBuffer × Option EventMessage) → IsRing (ans.0)
      → contents p.buffer ≡ popped_events ans
      → ((p' : MarketDataPublisher A) (a' : A) (count' : ℕ)
          → IsRing p'.buffer
          → length (contents p'.buffer) < length (popped_events ans)
          → count' < u64_mod
          → p'.events_processed < u64_mod
          → Drains p' a' count' (contents p'.buffer) (poll_from fuel p' a' count'))
      → Drains p a count (popped_events ans) (resume fuel p a count ans)
  resume-Drains fuel p a count v c t (b, none) w e ih = (
    (p, a, count),
    refl,
    record {
      drained = e;
      sound = v;
      seen = refl;
      counted = omega (arith, c);
      total = omega (arith, t);
      last = refl;
      same = refl;
    },
  )
  resume-Drains fuel p a count v c t (b, some event) w e ih =
      let (r, run, d) =
        ih (processed p b event) (invoke p.callbacks a event) (add64 count 1) w (omega arith)
          (omega arith) (omega arith) in
      (
        r,
        run,
        record {
          drained = d.drained;
          sound = d.sound;
          seen = d.seen;
          counted = omega (arith, d.counted);
          total = omega (arith, d.total);
          last = d.last;
          same = d.same;
        },
      )

  poll_from-Drains :
      (fuel : ℕ) (p : MarketDataPublisher A) (a : A) (count : ℕ)
      → IsRing p.buffer
      → length (contents p.buffer) < fuel
      → count < u64_mod
      → p.events_processed < u64_mod
      → Drains p a count (contents p.buffer) (poll_from fuel p a count)
  unfolding poll_from
  poll_from-Drains zero p a count v low c t = absurd (omega arith)
  poll_from-Drains (suc fuel) p a count v low c t =
      let (w, e) = popped p.buffer (try_pop p.buffer) (try_pop-contents p.buffer v) in
      subst (λ events. Drains p a count events (resume fuel p a count (try_pop p.buffer))) (sym e)
        (resume-Drains fuel p a count v c t (try_pop p.buffer) w e (λ p' a' count' v' shorter c' t'.
          poll_from-Drains fuel p' a' count' v' (omega (arith, shorter, low, ap length e)) c' t'))

  -- On a well-formed ring, polling returns if the fuel is above the number of events in it. It shows
  -- each of them to every callback, oldest first, counts them modulo 2^64, keeps the last one's
  -- sequence number, and leaves the ring empty.
  pub poll-Drains :
      (fuel : ℕ) (p : MarketDataPublisher A) (a : A)
      → IsRing p.buffer
      → length (contents p.buffer) < fuel
      → p.events_processed < u64_mod
      → Drains p a 0 (contents p.buffer) (poll fuel p a)
  unfolding poll
  poll-Drains fuel p a v low t = poll_from-Drains fuel p a 0 v low (omega arith) t
