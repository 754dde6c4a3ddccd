-- ===== src/OrderMap/Erase.antt =====
-- `erase` of flat_order_map.h, with its backward shift, removes one key and no other.
use hft_orderbook_engine.Base.{
  ℕ, ◌+◌, ◌<◌, ◌≤◌, ◌≡◌, refl, sym, ◌∙◌, ap, true, false, none, some, sub64, ◌==◌, arith, ==_iff,
  Bool-cases, inl, inr,
}
use hft_orderbook_engine.OrderMap.{FlatOrderMap, Entry, empty_key, shift_from, find, erase}
use hft_orderbook_engine.OrderMap.Count.{full_slots, full_below-le}
use hft_orderbook_engine.OrderMap.Insert.{is_empty}
use hft_orderbook_engine.OrderMap.Table.{
  key_at, IsTable, IsMap, find-same, dist_lt, dist_self, dist_inj, find-absent, Stands,
  found-Stands,
}
use hft_orderbook_engine.OrderMap.Shift.{Holed, IsClosed}
use hft_orderbook_engine.OrderMap.Close.{shift_from-IsClosed}

-- A smaller count of entries.
abbrev counted : FlatOrderMap → FlatOrderMap
counted m = record m { size = sub64 m.size 1 }

module _ (m : FlatOrderMap) (v : IsTable m) where
  start-Holed : (i : ℕ) → i < m.capacity → is_empty m i ≡ false → Holed (counted m) i i
  start-Holed i low full = record {
    ring = record {
      exponent = v.ring.exponent;
      power = v.ring.power;
      mask = v.ring.mask;
      others = v.ring.others;
      divides = v.ring.divides;
      proper = v.ring.proper;
      large = v.ring.large;
    };
    hole_low = low;
    last_low = low;
    hole_full = full;
    last_full = full;
    chains = λ s x hs hx ne fs lt. v.chains s x hs hx fs lt;
    unique = λ s t hs ht ns nt fs same. v.unique s t hs ht fs same;
    past = λ s hs ne fs le.
        let at : s ≡ i =
          dist_inj m.capacity i s i low hs low (omega (arith, le, dist_self m.capacity i)) in
        absurd (cc (ne, (==_iff s i).1 at));
    gap = v.gap;
    gap_low = v.gap_low;
    gap_empty = v.gap_empty;
  }

  closed :
      (i : ℕ)
      → i < m.capacity
      → is_empty m i ≡ false
      → IsClosed (counted m) i (shift_from (counted m) m.capacity i i)
  unfolding start-Holed
  closed i low full =
      shift_from-IsClosed m.capacity (counted m) i i (start-Holed i low full)
        (dist_lt m.capacity i v.gap low v.gap_low)

  module _ (key x : ℕ) (found : find m key ≡ some x) where
    abbrev st : Stands m key x
    st = found-Stands m v.ring key x found

    st_full : is_empty m st.slot ≡ false
    st_full = ap (λ k. k == empty_key) st.key ∙ st.real

    slot_apart : (k s : ℕ) → (k == key) ≡ false → key_at m s ≡ k → (s == st.slot) ≡ false
    slot_apart k s other at = elim (Bool-cases (s == st.slot)) [
      | inr q ↦ q
      | inl q ↦
          let same : k ≡ key = sym at ∙ ap (key_at m) ((==_iff s st.slot).0 q) ∙ st.key in
          absurd (cc (other, (==_iff k key).1 same))
    ]

    abbrev result : FlatOrderMap
    result = shift_from (counted m) m.capacity st.slot st.slot

    abbrev shut : IsClosed (counted m) st.slot result
    shut = closed st.slot st.low st_full

    run : erase m key ≡ (result, true)
    unfolding erase
    run = rw (st.real, st.at, erase) refl

    -- The key stands nowhere any more.
    gone : (s : ℕ) → s < result.capacity → (key_at result s == key) ≡ false
    gone s low = elim (Bool-cases (key_at result s == key)) [
      | inr e ↦ e
      | inl e ↦
          let same : key_at result s ≡ key = (==_iff (key_at result s) key).0 e in
          let real = ap (λ k. k == empty_key) same ∙ st.real in
          let (t, ht, ne, at) = shut.known (result.entries s) real (s, low, refl) in
          let key_t : key_at m t ≡ key = ap (λ (y : Entry). y.key) at ∙ same in
          let full_t : is_empty m t ≡ false = ap (λ k. k == empty_key) key_t ∙ st.real in
          let double : t ≡ st.slot = v.unique t st.slot ht st.low full_t (key_t ∙ sym st.key) in
          absurd (cc (ne, (==_iff t st.slot).1 double))
    ]

    -- The entries of the other keys are the same.
    others : (k : ℕ) → (k == key) ≡ false → find result k ≡ find m k
    others k other =
        find-same m result v shut.table k
          (λ s low full at. shut.kept (m.entries s) full (s, low, slot_apart k s other at, refl))
          (λ s low full at.
            let (t, ht, _, same) = shut.known (result.entries s) full (s, low, refl) in
            (t, ht, same))

-- Erasing a key that the map holds succeeds, and leaves a map of the same capacity, with one entry less, in which the key
-- is not found, and every other key is found, or not, as before.
pub erase-find :
    (m : FlatOrderMap) (v : IsMap m) (key x : ℕ)
    → find m key ≡ some x
    → ((erase m key).1 ≡ true)
      × IsMap (erase m key).0
      × ((erase m key).0.capacity ≡ m.capacity)
      × ((erase m key).0.size + 1 ≡ m.size)
      × (find (erase m key).0 key ≡ none)
      × ((k : ℕ) → (k == key) ≡ false → find (erase m key).0 k ≡ find m k)
erase-find m v key x found =
    let t = v.table in
    let r = result m t key x found in
    let closed = shut m t key x found in
    let less : full_slots m ≤ m.capacity = full_below-le m.entries m.capacity in
    rw (run m t key x found) (
      refl,
      record {
        table = closed.table;
        counted = closed.same_size ∙ omega (arith, v.counted, closed.fewer, less, t.ring.proper);
        valued = λ s low full.
            let (u, hu, _, same) = closed.known (r.entries s) full (s, low, refl) in
            let (y, at) = v.valued u hu (ap (λ (z : Entry). z.key == empty_key) same ∙ full) in
            (y, sym (ap (λ (z : Entry). z.value) same) ∙ at);
      },
      closed.same_capacity,
      omega (arith, closed.same_size, v.counted, closed.fewer, less, t.ring.proper),
      find-absent r closed.table key (gone m t key x found),
      others m t key x found,
    )
