-- ===== src/Transport/Ring.antt =====
-- transport/spsc_ring_buffer.h: the ring buffer, its operations run whole.
use Prim.Native.Nat.{bit_and}
use hft_orderbook_engine.Base.{
  ℕ, ◌-◌, Bool, true, false, Option, none, some, update, if◌then◌else◌, leb, ◌==◌, add64, sub64,
}

-- `capacity` is the template's parameter. The indices are `size_t`.
pub record SpscRingBuffer {ℓ} (T : Type ℓ) : Type ℓ where
  pub capacity : ℕ
  pub head : ℕ
  pub tail : ℕ
  pub buffer : ℕ → T

-- `unset` is what the buffer's memory holds.
unfoldable pub make {ℓ} : {T : Type ℓ} → ℕ → (ℕ → T) → SpscRingBuffer T
make capacity unset = record { capacity = capacity; head = 0; tail = 0; buffer = unset }

-- `i & kMask`
abbrev pub slot : ℕ → ℕ → ℕ
slot capacity i = bit_and i (capacity - 1)

unfoldable pub try_push {ℓ} : {T : Type ℓ} → SpscRingBuffer T → T → SpscRingBuffer T × Bool
try_push r item = if leb r.capacity (sub64 r.head r.tail) then (r, false) else (
  record r { buffer = update r.buffer (slot r.capacity r.head) item; head = add64 r.head 1 },
  true,
)

unfoldable pub try_pop {ℓ} : {T : Type ℓ} → SpscRingBuffer T → SpscRingBuffer T × Option T
try_pop r =
    if leb r.head r.tail
    then (r, none)
    else (record r { tail = add64 r.tail 1 }, some (r.buffer (slot r.capacity r.tail)))

unfoldable pub size {ℓ} : {T : Type ℓ} → SpscRingBuffer T → ℕ
size r = sub64 r.head r.tail

abbrev pub empty {ℓ} : {T : Type ℓ} → SpscRingBuffer T → Bool
empty r = size r == 0

abbrev pub full {ℓ} : {T : Type ℓ} → SpscRingBuffer T → Bool
full r = leb r.capacity (size r)
