-- ===== src/Transport/Fifo.antt =====
-- The ring buffer implements a bounded queue.
use hft_orderbook_engine.Base.{
  ℕ, zero, suc, ◌+◌, ◌-◌, ◌^◌, ◌≤◌, ◌<◌, ◌≡◌, refl, sym, ◌∙◌, ap, ◌==◌, ==_iff, true, false, Option,
  none, some, List, [], ◌∷◌, ◌++◌, Bool-cases, inl, inr, update, update_self, length, leb, ltb,
  arith, bit_and_mask, mod_apart, if◌then◌else◌, add64, sub64, subst,
}
use hft_orderbook_engine.Transport.Ring.{SpscRingBuffer, slot, try_push, try_pop}

-- The `n` items from index `i` on, in a ring of `c` slots.
abbrev pub items {ℓ} : {T : Type ℓ} → (ℕ → T) → ℕ → ℕ → ℕ → List T
items f c i zero = []
items f c i (suc n) = f (slot c i) ∷ items f c (i + 1) n

-- The queue that a ring holds, oldest first.
abbrev pub contents {ℓ} : {T : Type ℓ} → SpscRingBuffer T → List T
contents r = items r.buffer r.capacity r.tail (r.head - r.tail)

-- A power of two of slots, no more items than slots, and indices that have not wrapped.
pub record IsRing {ℓ} {T : Type ℓ} (r : SpscRingBuffer T) : Type 0 where
  pub bits : ℕ
  pub power : r.capacity ≡ 2 ^ bits
  pub order : r.tail ≤ r.head
  pub room : r.head ≤ r.tail + r.capacity
  pub fits : r.head < 2 ^ 64

-- The slot of a later index is another one.
pub slot_apart : (k i d : ℕ) → 0 < d → d < 2 ^ k → (slot (2 ^ k) (i + d) == slot (2 ^ k) i) ≡ false
slot_apart k i d pos low = elim (Bool-cases (slot (2 ^ k) (i + d) == slot (2 ^ k) i)) [
  | inl e ↦ absurd (
      mod_apart (2 ^ k) i d pos low
        (sym (bit_and_mask k (i + d)) ∙ (==_iff _ _).0 e ∙ bit_and_mask k i))
  | inr e ↦ e
]

-- A write at the index behind the items leaves them.
items_other {ℓ} :
    {T : Type ℓ} (f : ℕ → T) (x : T) (k i n h : ℕ)
    → h ≡ i + n
    → n < 2 ^ k
    → items (update f (slot (2 ^ k) h) x) (2 ^ k) i n ≡ items f (2 ^ k) i n
items_other f x k i zero h e low = refl
items_other f x k i (suc n) h e low =
    let rest = items_other f x k (i + 1) n h (omega (arith, e)) (omega arith) in
    let apart : (slot (2 ^ k) h == slot (2 ^ k) i) ≡ false =
      ap (λ j. slot (2 ^ k) j == slot (2 ^ k) i) e ∙ slot_apart k i (suc n) (omega arith) low in
    rw apart (ap (λ xs. f (slot (2 ^ k) i) ∷ xs) rest)

items-snoc {ℓ} :
    {T : Type ℓ} (f : ℕ → T) (c i n h : ℕ)
    → h ≡ i + n
    → items f c i (suc n) ≡ items f c i n ++ f (slot c h) ∷ []
items-snoc f c i zero h e = let here : h ≡ i = omega (arith, e) in rw here
items-snoc f c i (suc n) h e =
    ap (λ xs. f (slot c i) ∷ xs) (items-snoc f c (i + 1) n h (omega (arith, e)))

pub length-items {ℓ} : {T : Type ℓ} (f : ℕ → T) (c i n : ℕ) → length (items f c i n) ≡ n
length-items f c i zero = refl
length-items f c i (suc n) = omega (arith, length-items f c (i + 1) n)

-- One more index puts what its slot holds at the back.
pub items_more {ℓ} :
    {T : Type ℓ} (f : ℕ → T) (c t h : ℕ)
    → t ≤ h
    → items f c t (h + 1 - t) ≡ items f c t (h - t) ++ f (slot c h) ∷ []
items_more f c t h le =
    let more : h + 1 - t ≡ suc (h - t) = omega (arith, le) in
    ap (items f c t) more ∙ items-snoc f c t (h - t) h (omega (arith, le))

pub items-pop {ℓ} :
    {T : Type ℓ} (f : ℕ → T) (c t h : ℕ)
    → t < h
    → items f c t (h - t) ≡ f (slot c t) ∷ items f c (t + 1) (h - (t + 1))
items-pop f c t h low = let more : h - t ≡ suc (h - (t + 1)) = omega arith in ap (items f c t) more

-- A slot that is about to be written holds no item.
pub items-update {ℓ} :
    {T : Type ℓ} (r : SpscRingBuffer T) (x : T)
    → IsRing r
    → r.head < r.tail + r.capacity
    → items (update r.buffer (slot r.capacity r.head) x) r.capacity r.tail (r.head - r.tail)
      ≡ contents r
items-update r x v space = rw (v.power) (
    items_other r.buffer x v.bits r.tail (r.head - r.tail) r.head (omega (arith, v.order))
      (omega (arith, space, v.power, v.order)))

-- Full, as `try_push` tests it.
pub room_lt {ℓ} :
    {T : Type ℓ} (r : SpscRingBuffer T)
    → IsRing r
    → leb r.capacity (sub64 r.head r.tail) ≡ false
    → r.head < r.tail + r.capacity
room_lt r v h =
    let used : sub64 r.head r.tail ≡ r.head - r.tail = omega (arith, v.order, v.fits) in
    ground (arith, used, ap (leb r.capacity) (sym used) ∙ h)

module _ {ℓ} {T : Type ℓ} (r : SpscRingBuffer T) (v : IsRing r) where
  pub try_push-head :
      (item : T)
      → (try_push r item).1 ≡ true
      → ((try_push r item).0.head ≡ add64 r.head 1) × ((try_push r item).0.capacity ≡ r.capacity)
  unfolding try_push
  try_push-head item pushed = elim (Bool-cases (leb r.capacity (sub64 r.head r.tail))) [
    | inl full ↦ absurd (cc (full, pushed))
    | inr room ↦ rw (room, try_push) (refl, refl)
  ]

  abbrev Popped : SpscRingBuffer T × Option T → Type ℓ
  Popped (r', popped) =
      IsRing r' × (contents r ≡ (elim popped [ none ↦ [] | some item ↦ item ∷ contents r' ]))

  count : length (contents r) ≡ r.head - r.tail
  count = length-items r.buffer r.capacity r.tail (r.head - r.tail)

  -- On a well-formed ring whose index `head` is not about to wrap, a push keeps the ring well formed
  -- and succeeds exactly if the queue is shorter than the capacity. It then puts the item at the
  -- back, and else leaves the queue.
  pub try_push-contents :
      (item : T)
      → r.head + 1 < 2 ^ 64
      → IsRing (try_push r item).0
        × ((try_push r item).1 ≡ ltb (length (contents r)) r.capacity)
        × (contents (try_push r item).0
            ≡ (if (try_push r item).1 then contents r ++ item ∷ [] else contents r))
  unfolding try_push
  try_push-contents item low =
      let used : sub64 r.head r.tail ≡ r.head - r.tail = omega (arith, v.order, v.fits) in
      let next : add64 r.head 1 ≡ r.head + 1 = omega arith in
      elim (Bool-cases (leb r.capacity (r.head - r.tail))) [
        | inl full ↦ rw (used, full, try_push) (v, ground (arith, count), refl)
        | inr room ↦
            let space : r.head - r.tail < r.capacity = ground arith in
            rw (used, room, next, try_push)
              (
                record {
                  bits = v.bits;
                  power = v.power;
                  order = omega (arith, v.order);
                  room = omega (arith, space);
                  fits = low;
                },
                ground (arith, count, space),
                items_more (update r.buffer (slot r.capacity r.head) item) r.capacity r.tail r.head
                      v.order
                    ∙ rw (
                      items-update r item v (omega (arith, space)),
                      update_self r.buffer (slot r.capacity r.head) item,
                    ),
              )
      ]

  -- On a well-formed ring, a pop takes the oldest item, or fails on an empty queue, and keeps the
  -- ring well formed.
  pub try_pop-contents :
      IsRing (try_pop r).0
      × (contents r
          ≡ (elim (try_pop r).1 [ none ↦ [] | some item ↦ item ∷ contents (try_pop r).0 ]))
  unfolding try_pop
  try_pop-contents = elim (Bool-cases (leb r.head r.tail)) [
    | inl none_left ↦
        let same : r.head - r.tail ≡ 0 = ground arith in rw (none_left, same, try_pop) (v, refl)
    | inr some_left ↦
        let low : r.tail < r.head = ground arith in
        let next : add64 r.tail 1 ≡ r.tail + 1 = omega (arith, low, v.fits) in
        let run : try_pop r
            ≡ (record r { tail = r.tail + 1 }, some (r.buffer (slot r.capacity r.tail))) =
          rw (some_left, next, try_pop) in
        subst Popped (sym run) (
          record {
            bits = v.bits;
            power = v.power;
            order = omega (arith, low);
            room = omega (arith, v.room);
            fits = v.fits;
          },
          items-pop r.buffer r.capacity r.tail r.head low,
        )
  ]
