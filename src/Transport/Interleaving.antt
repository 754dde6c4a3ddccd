-- ===== src/Transport/Interleaving.antt =====
-- transport/spsc_ring_buffer.h between two threads: `try_push` and `try_pop` cut at their accesses
-- to shared memory. A release store is seen with the writes before it, as the step order has it.
use mathlib.Core.List.{append_assoc}
use hft_orderbook_engine.Base.{
  ℕ, ◌+◌, ◌-◌, ◌^◌, ◌≤◌, ◌<◌, ◌≡◌, refl, sym, ◌∙◌, ap, Bool, true, false, List, [], ◌∷◌, ◌++◌,
  update, update_self, length, length-append, leb, arith, add64, sub64, ◌==◌,
}
use hft_orderbook_engine.Transport.Ring.{SpscRingBuffer, slot, make}
use hft_orderbook_engine.Transport.Fifo.{
  items, contents, IsRing, items_more, items-pop, length-items, items-update, slot_apart, room_lt,
}

-- Where the producer stands in `try_push`, and the consumer in `try_pop`.
pub data Producer {ℓ} (T : Type ℓ) : Type ℓ where
  idle : Producer T
  admitted : T → Producer T
  stored : T → Producer T

pub data Consumer {ℓ} (T : Type ℓ) : Type ℓ where
  waiting : Consumer T
  found : Consumer T
  copied : T → Consumer T

-- `sent` and `received` record what went in and came out.
pub record Threads {ℓ} (T : Type ℓ) : Type ℓ where
  pub ring : SpscRingBuffer T
  pub producer : Producer T
  pub consumer : Consumer T
  pub sent : List T
  pub received : List T

abbrev pub started {ℓ} : {T : Type ℓ} → SpscRingBuffer T → Threads T
started r = record { ring = r; producer = idle; consumer = waiting; sent = []; received = [] }

pub data Step {ℓ} {T : Type ℓ} (s : Threads T) : Threads T → Type ℓ where
  push_load :
      (item : T)
      → s.producer ≡ idle
      → leb s.ring.capacity (sub64 s.ring.head s.ring.tail) ≡ false
      → Step s (record s { producer = admitted item })
  push_copy :
      (item : T)
      → s.producer ≡ admitted item
      → Step s (record s {
        ring = record (s.ring) {
          buffer = update s.ring.buffer (slot s.ring.capacity s.ring.head) item;
        };
        producer = stored item;
      })
  push_publish :
      (item : T)
      → s.producer ≡ stored item
      → Step s (record s {
        ring = record (s.ring) { head = add64 s.ring.head 1 };
        producer = idle;
        sent = s.sent ++ item ∷ [];
      })
  pop_load :
      s.consumer ≡ waiting
      → leb s.ring.head s.ring.tail ≡ false
      → Step s (record s { consumer = found })
  pop_copy :
      s.consumer ≡ found
      → Step s (record s { consumer = copied (s.ring.buffer (slot s.ring.capacity s.ring.tail)) })
  pop_release :
      (item : T)
      → s.consumer ≡ copied item
      → Step s (record s {
        ring = record (s.ring) { tail = add64 s.ring.tail 1 };
        consumer = waiting;
        received = s.received ++ item ∷ [];
      })

pub data Reach {ℓ} {T : Type ℓ} (s : Threads T) : Threads T → Type ℓ where
  here : Reach s s
  next : {t u : Threads T} → Reach s t → Step t u → Reach s u

abbrev active {ℓ} : {T : Type ℓ} → Producer T → Bool
active idle = false
active _ = true

abbrev busy {ℓ} : {T : Type ℓ} → Consumer T → Bool
busy waiting = false
busy _ = true

-- Everything sent has been received or is in the ring, in order; a producer past its check has room
-- and a consumer past its check has an item.
pub record IsOrdered {ℓ} {T : Type ℓ} (s : Threads T) : Type ℓ where
  pub ring : IsRing s.ring
  pub log : s.received ++ contents s.ring ≡ s.sent
  pub count : s.ring.head ≡ length s.sent
  pub space : active s.producer ≡ true → s.ring.head < s.ring.tail + s.ring.capacity
  pub item : busy s.consumer ≡ true → s.ring.tail < s.ring.head
  pub written :
      (x : T) → s.producer ≡ stored x → s.ring.buffer (slot s.ring.capacity s.ring.head) ≡ x
  pub read : (x : T) → s.consumer ≡ copied x → s.ring.buffer (slot s.ring.capacity s.ring.tail) ≡ x

module _ {ℓ} {T : Type ℓ} where
  -- The slots at the two ends differ while there is an item and room.
  ends_apart :
      (r : SpscRingBuffer T)
      → IsRing r
      → r.tail < r.head
      → r.head < r.tail + r.capacity
      → (slot r.capacity r.head == slot r.capacity r.tail) ≡ false
  ends_apart r v item space =
      let last : r.head ≡ r.tail + (r.head - r.tail) = omega (arith, item) in
      ap (λ j. slot r.capacity j == slot r.capacity r.tail) last
      ∙ rw (v.power) (
          slot_apart v.bits r.tail (r.head - r.tail) (omega (arith, item))
            (omega (arith, item, space, v.power)))

  next_index :
      {s : Threads T} (x : T)
      → IsOrdered s
      → length (s.sent ++ x ∷ []) < 2 ^ 64
      → add64 s.ring.head 1 ≡ s.ring.head + 1
  next_index {s} x v low = omega (arith, v.count, length-append s.sent (x ∷ []))

  published :
      {s : Threads T} (x : T) (v : IsOrdered s)
      → length (s.sent ++ x ∷ []) < 2 ^ 64
      → s.ring.buffer (slot s.ring.capacity s.ring.head) ≡ x
      → s.received ++ contents (record (s.ring) { head = add64 s.ring.head 1 }) ≡ s.sent ++ x ∷ []
  published {s} x v low e =
      rw
        (
          next_index x v low,
          items_more s.ring.buffer s.ring.capacity s.ring.tail s.ring.head v.ring.order,
          e,
        )
        (sym (append_assoc s.received (contents s.ring) (x ∷ [])) ∙ ap (λ xs. xs ++ x ∷ []) v.log)

  released :
      {s : Threads T} (x : T) (v : IsOrdered s)
      → s.ring.tail < s.ring.head
      → s.ring.buffer (slot s.ring.capacity s.ring.tail) ≡ x
      → (s.received ++ x ∷ []) ++ contents (record (s.ring) { tail = add64 s.ring.tail 1 }) ≡ s.sent
  released {s} x v item e =
      let after : add64 s.ring.tail 1 ≡ s.ring.tail + 1 = omega (arith, item, v.ring.fits) in
      let rest =
        items s.ring.buffer s.ring.capacity (s.ring.tail + 1) (s.ring.head - (s.ring.tail + 1)) in
      let pop = items-pop s.ring.buffer s.ring.capacity s.ring.tail s.ring.head item in
      rw after (
        append_assoc s.received (x ∷ []) rest
        ∙ ap (λ xs. s.received ++ xs) (ap (λ y. y ∷ rest) (sym e) ∙ sym pop)
        ∙ v.log)

  Step-IsOrdered : {s t : Threads T} → Step s t → length t.sent < 2 ^ 64 → IsOrdered s → IsOrdered t
  Step-IsOrdered {s} (push_load x p room) low v = record {
    ring = v.ring;
    log = v.log;
    count = v.count;
    space = λ a. room_lt s.ring v.ring room;
    item = v.item;
    written = λ y e. cc;
    read = v.read;
  }
  Step-IsOrdered {s} (push_copy x p) low v = record {
    ring = record {
      bits = v.ring.bits;
      power = v.ring.power;
      order = v.ring.order;
      room = v.ring.room;
      fits = v.ring.fits;
    };
    log =
        ap (λ xs. s.received ++ xs) (items-update s.ring x v.ring (v.space (ap active p))) ∙ v.log;
    count = v.count;
    space = λ a. v.space (ap active p);
    item = v.item;
    written = λ y e. update_self s.ring.buffer (slot s.ring.capacity s.ring.head) x ∙ cc;
    read = λ y e.
        rw (ends_apart s.ring v.ring (v.item (ap busy e)) (v.space (ap active p))) (v.read y e);
  }
  Step-IsOrdered {s} (push_publish x p) low v = record {
    ring = record {
      bits = v.ring.bits;
      power = v.ring.power;
      order = omega (arith, v.ring.order, next_index x v low);
      room = omega (arith, v.space (ap active p), next_index x v low);
      fits = omega arith;
    };
    log = published x v low (v.written x p);
    count = omega (arith, next_index x v low, v.count, length-append s.sent (x ∷ []));
    space = λ a. cc;
    item = λ a. omega (arith, v.item a, next_index x v low);
    written = λ y e. cc;
    read = v.read;
  }
  Step-IsOrdered {s} (pop_load p some_left) low v = record {
    ring = v.ring;
    log = v.log;
    count = v.count;
    space = v.space;
    item = λ a. ground arith;
    written = v.written;
    read = λ y e. cc;
  }
  Step-IsOrdered {s} (pop_copy p) low v = record {
    ring = v.ring;
    log = v.log;
    count = v.count;
    space = v.space;
    item = λ a. v.item (ap busy p);
    written = v.written;
    read = λ y e. cc;
  }
  Step-IsOrdered {s} (pop_release x p) low v = record {
    ring = record {
      bits = v.ring.bits;
      power = v.ring.power;
      order = omega (arith, v.item (ap busy p));
      room = omega (arith, v.ring.room, v.item (ap busy p), v.ring.fits);
      fits = v.ring.fits;
    };
    log = released x v (v.item (ap busy p)) (v.read x p);
    count = v.count;
    space = λ a. omega (arith, v.space a, v.item (ap busy p), v.ring.fits);
    item = λ a. cc;
    written = v.written;
    read = λ y e. cc;
  }

  Step-sent : {s t : Threads T} → Step s t → length s.sent ≤ length t.sent
  Step-sent (push_load x p room) = omega arith
  Step-sent (push_copy x p) = omega arith
  Step-sent {s} (push_publish x p) = omega (arith, length-append s.sent (x ∷ []))
  Step-sent (pop_load p h) = omega arith
  Step-sent (pop_copy p) = omega arith
  Step-sent (pop_release x p) = omega arith

  started-IsOrdered : (k : ℕ) (unset : ℕ → T) → IsOrdered (started (make (2 ^ k) unset))
  unfolding make
  started-IsOrdered k unset = record {
    ring = record {
      bits = k;
      power = refl;
      order = omega arith;
      room = omega arith;
      fits = omega arith;
    };
    log = refl;
    count = refl;
    space = λ a. cc;
    item = λ a. cc;
    written = λ y e. cc;
    read = λ y e. cc;
  }

  Reach-IsOrdered :
      {s t : Threads T} → Reach s t → length t.sent < 2 ^ 64 → IsOrdered s → IsOrdered t
  Reach-IsOrdered here low v = v
  Reach-IsOrdered (next r st) low v =
      Step-IsOrdered st low (Reach-IsOrdered r (omega (arith, Step-sent st, low)) v)

  -- In every interleaving of a producer and a consumer that starts from a ring of 2^k slots and sends
  -- fewer than 2^64 items, what was received and then what the ring holds is what was sent: no item
  -- is lost, doubled, reordered or overwritten. The ring never holds more than its capacity.
  pub interleaving-log :
      (k : ℕ) (unset : ℕ → T) (t : Threads T)
      → Reach (started (make (2 ^ k) unset)) t
      → length t.sent < 2 ^ 64
      → (t.received ++ contents t.ring ≡ t.sent) × (length (contents t.ring) ≤ t.ring.capacity)
  interleaving-log k unset t reach low =
      let v = Reach-IsOrdered reach low (started-IsOrdered k unset) in
      let count =
        length-items t.ring.buffer t.ring.capacity t.ring.tail (t.ring.head - t.ring.tail) in
      (v.log, omega (arith, count, v.ring.room, v.ring.order))
