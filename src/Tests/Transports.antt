-- ===== src/Tests/Transports.antt =====
-- The ring buffer, the publisher and the interleavings at concrete values.
use hft_orderbook_engine.Base.{
  ℕ, ◌^◌, ◌≤◌, ◌≡◌, refl, Bool, none, some, [], ◌∷◌, ◌++◌, arith, length, ltb, update,
  if◌then◌else◌,
}
use hft_orderbook_engine.Transport.Ring.{SpscRingBuffer, try_push, try_pop}
use hft_orderbook_engine.Transport.Ring
use hft_orderbook_engine.Transport.Fifo.{IsRing, contents, try_push-contents, try_pop-contents}
use hft_orderbook_engine.Transport.Interleaving
use hft_orderbook_engine.Transport.Interleaving.{
  Threads, Step, Reach, here, next, started, push_load, push_copy, push_publish, pop_load, pop_copy,
  idle, interleaving-log,
}

abbrev ring : SpscRingBuffer ℕ
ring = Ring.make (2 ^ 2) (λ i. 0)

ring-IsRing : IsRing ring
unfolding Ring.make
ring-IsRing = record {
  bits = 2;
  power = refl;
  order = omega arith;
  room = omega arith;
  fits = omega arith;
}

abbrev pushed : SpscRingBuffer ℕ × Bool
pushed = try_push ring 7

try_push-contents_example :
    IsRing pushed.0
    × (pushed.1 ≡ ltb (length (contents ring)) ring.capacity)
    × (contents pushed.0 ≡ (if pushed.1 then contents ring ++ 7 ∷ [] else contents ring))
unfolding Ring.make
try_push-contents_example = try_push-contents ring ring-IsRing 7 (omega arith)

try_pop-contents_example :
    IsRing (try_pop pushed.0).0
    × (contents pushed.0 ≡ (elim (try_pop pushed.0).1 [
      | none ↦ []
      | some item ↦ item ∷ contents (try_pop pushed.0).0
    ]))
try_pop-contents_example = try_pop-contents pushed.0 try_push-contents_example.0

abbrev s0 : Threads ℕ
s0 = started ring

abbrev loaded : Threads ℕ
loaded = record s0 { producer = Interleaving.admitted 7 }

abbrev written : Threads ℕ
written = record loaded {
  ring = record (loaded.ring) { buffer = update loaded.ring.buffer (Ring.slot 4 0) 7 };
  producer = Interleaving.stored 7;
}

-- The producer has pushed 7.
abbrev sent : Threads ℕ
sent = record written { ring = record (written.ring) { head = 1 }; producer = idle; sent = 7 ∷ [] }

-- The consumer has found it and copied it, and not yet released its slot.
abbrev taken : Threads ℕ
taken = record sent { consumer = Interleaving.copied 7 }

run : Reach s0 taken
unfolding Ring.make
run =
    next
      (next
        (next (next (next here (push_load 7 refl refl)) (push_copy 7 refl)) (push_publish 7 refl))
        (pop_load refl refl))
      (pop_copy refl)

interleaving-log_example :
    (taken.received ++ contents taken.ring ≡ taken.sent)
    × (length (contents taken.ring) ≤ taken.ring.capacity)
interleaving-log_example = interleaving-log 2 (λ i. 0) taken run (omega arith)
