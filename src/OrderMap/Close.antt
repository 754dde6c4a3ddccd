-- ===== src/OrderMap/Close.antt =====
-- The rounds of the backward-shift loop of `erase` in flat_order_map.h: each keeps the entries, and
-- the loop closes the gap within as many rounds as there are slots.
use hft_orderbook_engine.Base.{
  ℕ, zero, suc, ◌≤◌, ◌<◌, ◌≡◌, refl, sym, subst, ◌∙◌, ap, true, false, update, update_self, ◌==◌,
  ltb, leb, ltb→lt, leb→le, if◌then◌else◌, arith, ==_iff, Bool-cases, inl, inr,
}
use hft_orderbook_engine.OrderMap.{
  FlatOrderMap, Entry, empty_key, next_slot, home, should_shift, clear_slot, shift_from,
}
use hft_orderbook_engine.OrderMap.Ring.{dist, after, next_slot-after, home_lt, should_shift-dist}
use hft_orderbook_engine.OrderMap.Insert.{is_empty}
use hft_orderbook_engine.OrderMap.Count.{weight, full_below-update}
use hft_orderbook_engine.OrderMap.Table.{key_at, behind, dist_self, dist_inj, after_lt, dist_after}
use hft_orderbook_engine.OrderMap.Shift.{
  Holed, Live, IsClosed, dist_before, dist_ne, cleared-IsClosed,
}

-- The entry at `j` is copied into the gap at `i`.
abbrev pub moved : FlatOrderMap → ℕ → ℕ → FlatOrderMap
moved m i j = record m { entries = update m.entries i (m.entries j) }

module _ (m : FlatOrderMap) (i j : ℕ) (h : Holed m i j) where
  abbrev c : ℕ
  c = m.capacity

  abbrev j' : ℕ
  j' = after c j

  j'_lt : j' < c
  j'_lt = after_lt c j h.last_low

  gap_apart : (h.gap == i) ≡ false
  gap_apart = elim (Bool-cases (h.gap == i)) [
    | inr e ↦ e
    | inl e ↦ absurd (cc (h.hole_full, h.gap_empty, ap (is_empty m) ((==_iff h.gap i).0 e)))
  ]

  last_apart : (j == h.gap) ≡ false
  last_apart = elim (Bool-cases (j == h.gap)) [
    | inr e ↦ e
    | inl e ↦ absurd (cc (h.last_full, h.gap_empty, ap (is_empty m) ((==_iff j h.gap).0 e)))
  ]

  -- An entry that would not come nearer to its home than it may is passed over.
  kept-Holed : is_empty m j' ≡ false → ltb (behind m j' i) (behind m j' j') ≡ false → Holed m i j'
  kept-Holed full stays = record {
    ring = h.ring;
    hole_low = h.hole_low;
    last_low = j'_lt;
    hole_full = h.hole_full;
    last_full = full;
    chains = h.chains;
    unique = h.unique;
    past = λ s hs ne fs le. elim (Bool-cases (leb (dist c i s) (dist c i j))) [
      | inl near ↦ h.past s hs ne fs (leb→le _ _ near)
      | inr far ↦
          let beyond : dist c i j < dist c i s = ground (arith, far) in
          let onward = dist_after c i j s h.hole_low h.last_low hs beyond in
          let at : s ≡ j' =
            dist_inj c i s j' h.hole_low hs j'_lt (omega (arith, onward, beyond, le)) in
          subst (λ z. behind m z z ≤ behind m z i) (sym at) (ground (arith, stays))
    ];
    gap = h.gap;
    gap_low = h.gap_low;
    gap_empty = h.gap_empty;
  }

  module _ (full : is_empty m j' ≡ false) (ne : (i == j') ≡ false) where
    at_gap : (moved m i j').entries i ≡ m.entries j'
    at_gap = update_self m.entries i (m.entries j')

    elsewhere : (x : ℕ) → (x == i) ≡ false → (moved m i j').entries x ≡ m.entries x
    elsewhere x nx = let nx' : (i == x) ≡ false = ground arith in rw nx' refl

    moved_full : (x : ℕ) → is_empty m x ≡ false → is_empty (moved m i j') x ≡ false
    moved_full x fx = elim (Bool-cases (x == i)) [
      | inl e ↦
          ap (is_empty (moved m i j')) ((==_iff x i).0 e)
          ∙ ap (λ (y : Entry). y.key == empty_key) at_gap
          ∙ full
      | inr e ↦ ap (λ (y : Entry). y.key == empty_key) (elsewhere x e) ∙ fx
    ]

    ne_sym : (j' == i) ≡ false
    ne_sym = ground (arith, ne)

    -- Where the entry of slot `s` stood before, which is not the gap.
    abbrev origin : ℕ → ℕ
    origin s = if s == i then j' else s

    origin_entry : (s : ℕ) → (moved m i j').entries s ≡ m.entries (origin s)
    origin_entry s = elim (Bool-cases (s == i)) [
      | inl e ↦ rw e (ap (moved m i j').entries ((==_iff s i).0 e) ∙ at_gap)
      | inr e ↦ rw e (elsewhere s e)
    ]

    origin_apart : (s : ℕ) → (origin s == i) ≡ false
    origin_apart s = elim (Bool-cases (s == i)) [ inl e ↦ rw e ne_sym | inr e ↦ rw e e ]

    origin_lt : (s : ℕ) → s < c → origin s < c
    origin_lt s hs = elim (Bool-cases (s == i)) [ inl e ↦ rw e j'_lt | inr e ↦ rw e hs ]

    origin_inj : (s t : ℕ) → (s == j') ≡ false → (t == j') ≡ false → origin s ≡ origin t → s ≡ t
    origin_inj s t ns nt e = ground (arith, e, ns, nt)

  -- An entry that comes nearer to its home by moving into the gap leaves a gap behind.
  module _ (full : is_empty m j' ≡ false) (nearer : behind m j' i < behind m j' j')
      (ne : (i == j') ≡ false) where
    behind-origin :
        (s : ℕ) → behind m (origin full ne s) s ≤ behind m (origin full ne s) (origin full ne s)
    behind-origin s = elim (Bool-cases (s == i)) [
      | inl e ↦
          let at = (==_iff s i).0 e in
          rw e (subst (λ z. behind m j' z ≤ behind m j' j') (sym at) (omega (arith, nearer)))
      | inr e ↦ rw e (omega arith)
    ]

    key_origin : (s : ℕ) → key_at (moved m i j') s ≡ key_at m (origin full ne s)
    key_origin s = ap (λ (y : Entry). y.key) (origin_entry full ne s)

    full-origin :
        (s : ℕ) → is_empty (moved m i j') s ≡ false → is_empty m (origin full ne s) ≡ false
    full-origin s fs = sym (ap (λ k. k == empty_key) (key_origin s)) ∙ fs

    moved-Holed : Holed (moved m i j') j' j'
    moved-Holed = record {
      ring = record {
        exponent = h.ring.exponent;
        power = h.ring.power;
        mask = h.ring.mask;
        others = h.ring.others;
        divides = h.ring.divides;
        proper = h.ring.proper;
        large = h.ring.large;
      };
      hole_low = j'_lt;
      last_low = j'_lt;
      hole_full = moved_full full ne j' full;
      last_full = moved_full full ne j' full;
      chains = λ s x hs hx ns fs lt.
          let o = origin full ne s in
          let lt' : dist c (home m (key_at m o)) x < dist c (home m (key_at m o)) s =
            subst (λ k. dist c (home m k) x < dist c (home m k) s) (key_origin s) lt in
          moved_full full ne x (
            h.chains o x (origin_lt full ne s hs) hx (origin_apart full ne s) (full-origin s fs)
              (omega (arith, lt', behind-origin s)));
      unique = λ s t hs ht ns nt fs same. origin_inj full ne s t ns nt (
          h.unique (origin full ne s) (origin full ne t) (origin_lt full ne s hs)
            (origin_lt full ne t ht) (origin_apart full ne s) (origin_apart full ne t)
            (full-origin s fs) (sym (key_origin s) ∙ same ∙ key_origin t));
      past = λ s hs ns fs le.
          let at : s ≡ j' = dist_inj c j' s j' j'_lt hs j'_lt (omega (arith, le, dist_self c j')) in
          absurd (cc (ns, (==_iff s j').1 at));
      gap = h.gap;
      gap_low = h.gap_low;
      gap_empty =
          ap (λ (y : Entry). y.key == empty_key) (elsewhere full ne h.gap gap_apart) ∙ h.gap_empty;
    }

    moved-kept : (e : Entry) → Live m i e → Live (moved m i j') j' e
    moved-kept e (s, hs, ns, at) = elim (Bool-cases (s == j')) [
      | inl q ↦ (i, h.hole_low, ne, at_gap full ne ∙ sym (ap m.entries ((==_iff s j').0 q)) ∙ at)
      | inr q ↦ (s, hs, q, elsewhere full ne s ns ∙ at)
    ]

    moved-known : (e : Entry) → Live (moved m i j') j' e → Live m i e
    moved-known e (s, hs, ns, at) = (
      origin full ne s,
      origin_lt full ne s hs,
      origin_apart full ne s,
      sym (origin_entry full ne s) ∙ at,
    )

    after_move : (m' : FlatOrderMap) → IsClosed (moved m i j') j' m' → IsClosed m i m'
    after_move m' r = record {
      table = r.table;
      same_capacity = r.same_capacity;
      same_size = r.same_size;
      fewer =
          let out : weight (m.entries i) ≡ 1 = rw h.hole_full refl in
          let in' : weight (m.entries j') ≡ 1 = rw full refl in
          omega
            (arith, out, in', full_below-update m.entries i (m.entries j') c h.hole_low, r.fewer);
      kept = λ e real l. r.kept e real (moved-kept e l);
      known = λ e real st. moved-known e (r.known e real st);
    }

module _ (m : FlatOrderMap) (rounds i j j' : ℕ) (next : next_slot m j ≡ j') where
  shift_stop : is_empty m j' ≡ true → shift_from m (suc rounds) i j ≡ clear_slot m i
  unfolding shift_from
  shift_stop free = rw (next, free) refl

  shift_move :
      is_empty m j' ≡ false
      → should_shift m i j' (home m (key_at m j')) ≡ true
      → shift_from m (suc rounds) i j ≡ shift_from (moved m i j') rounds j' j'
  unfolding shift_from
  shift_move full shifts = rw (next, full, shifts) refl

  shift_keep :
      is_empty m j' ≡ false
      → should_shift m i j' (home m (key_at m j')) ≡ false
      → shift_from m (suc rounds) i j ≡ shift_from m rounds i j'
  unfolding shift_from
  shift_keep full stays = rw (next, full, stays) refl

-- The gap is closed, whatever the rounds, if they are more than the way to the next empty slot.
pub shift_from-IsClosed :
    (rounds : ℕ) (m : FlatOrderMap) (i j : ℕ) (h : Holed m i j)
    → dist m.capacity j h.gap < rounds
    → IsClosed m i (shift_from m rounds i j)
unfolding moved-Holed kept-Holed
shift_from-IsClosed zero m i j h lt = absurd (omega arith)
shift_from-IsClosed (suc rounds) m i j h lt =
    let c = m.capacity in
    let j' = after c j in
    let next = next_slot-after m h.ring j h.last_low in
    let less = dist_before c j h.gap h.last_low h.gap_low (last_apart m i j h) in
    let low = after_lt c j h.last_low in
    let k = home m (key_at m j') in
    let test = should_shift-dist m h.ring i j' k h.hole_low low (home_lt m h.ring (key_at m j')) in
    elim (Bool-cases (is_empty m j')) [
      | inl free ↦
          subst (IsClosed m i) (sym (shift_stop m rounds i j j' next free))
            (cleared-IsClosed m i j h free)
      | inr full ↦ elim (Bool-cases (ltb (behind m j' i) (behind m j' j'))) [
        | inl shifts ↦
            let nearer = ltb→lt (behind m j' i) (behind m j' j') shifts in
            let ne = dist_ne c k i j' nearer in
            subst (IsClosed m i) (sym (shift_move m rounds i j j' next full (test ∙ shifts))) (
              after_move m i j h full nearer ne (shift_from (moved m i j') rounds j' j') (
                shift_from-IsClosed rounds (moved m i j') j' j' (moved-Holed m i j h full nearer ne)
                  (omega (arith, less, lt))))
        | inr stays ↦
            subst (IsClosed m i) (sym (shift_keep m rounds i j j' next full (test ∙ stays))) (
              shift_from-IsClosed rounds m i j' (kept-Holed m i j h full stays)
                (omega (arith, less, lt)))
      ]
    ]
