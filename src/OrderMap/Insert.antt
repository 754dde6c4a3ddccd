-- ===== src/OrderMap/Insert.antt =====
-- `insert` and `find` of the order map agree.
use hft_orderbook_engine.Base.{
  ℕ, zero, suc, ◌≡◌, refl, sym, subst, ◌∙◌, ap, Bool, true, false, none, some, update, update_self,
  ◌==◌, ==_iff, add64, Bool-cases, inl, inr,
}
use hft_orderbook_engine.OrderMap.{
  FlatOrderMap, Entry, Probe, vacant, present, exhausted, empty_key, probe_from, probe, next_slot,
  home, insert, find,
}

abbrev pub is_empty : FlatOrderMap → ℕ → Bool
is_empty m i = (m.entries i).key == empty_key

module _ (m : FlatOrderMap) (key rounds i : ℕ) where
  pub step_vacant : is_empty m i ≡ true → probe_from m key (suc rounds) i ≡ vacant i
  unfolding probe_from
  step_vacant h = rw h

  pub step_present :
      is_empty m i ≡ false
      → ((m.entries i).key == key) ≡ true
      → probe_from m key (suc rounds) i ≡ present i
  unfolding probe_from
  step_present h k = rw (h, k)

  pub step_next :
      is_empty m i ≡ false
      → ((m.entries i).key == key) ≡ false
      → probe_from m key (suc rounds) i ≡ probe_from m key rounds (next_slot m i)
  unfolding probe_from
  step_next h k = rw (h, k)

-- What the slots hold where a probe ends.
abbrev Ended : FlatOrderMap → ℕ → Probe → Type 0
Ended m key (vacant s) = is_empty m s ≡ true
Ended m key (present p) = (is_empty m p ≡ false) × ((m.entries p).key ≡ key)
Ended m key exhausted = Unit

probe_from-Ended : (m : FlatOrderMap) (key rounds i : ℕ) → Ended m key (probe_from m key rounds i)
unfolding probe_from
probe_from-Ended m key zero i = tt
probe_from-Ended m key (suc rounds) i = elim (Bool-cases (is_empty m i)) [
  | inl h ↦ subst (Ended m key) (sym (step_vacant m key rounds i h)) h
  | inr h ↦ elim (Bool-cases ((m.entries i).key == key)) [
    | inl k ↦ subst (Ended m key) (sym (step_present m key rounds i h k)) (h, (==_iff _ key).0 k)
    | inr k ↦
        subst (Ended m key) (sym (step_next m key rounds i h k))
          (probe_from-Ended m key rounds (next_slot m i))
  ]
]

-- The map with an entry written into slot `s`.
abbrev written : FlatOrderMap → ℕ → ℕ → ℕ → FlatOrderMap
written m s key value = record m {
  entries = update m.entries s (record { key = key; value = some value });
  size = add64 m.size 1;
}

module _ (m : FlatOrderMap) (s key value : ℕ) (free : is_empty m s ≡ true) where
  other : (p : ℕ) → is_empty m p ≡ false → (written m s key value).entries p ≡ m.entries p
  other p h = elim (Bool-cases (s == p)) [
    | inl e ↦ absurd (cc (h, free, ap (is_empty m) ((==_iff s p).0 e)))
    | inr e ↦ rw e
  ]

  -- A key whose probe ends at its entry is still found there.
  keep :
      (k rounds i p : ℕ)
      → probe_from m k rounds i ≡ present p
      → probe_from (written m s key value) k rounds i ≡ present p
  unfolding probe_from
  keep k zero i p e = cc
  keep k (suc rounds) i p e = elim (Bool-cases (is_empty m i)) [
    | inl h ↦ absurd (cc (step_vacant m k rounds i h, e))
    | inr h ↦
        let same = other i h in
        let full : is_empty (written m s key value) i ≡ false =
          ap (λ (x : Entry). x.key == empty_key) same ∙ h in
        elim (Bool-cases ((m.entries i).key == k)) [
          | inl q ↦
              let hit = ap (λ (x : Entry). x.key == k) same ∙ q in
              step_present (written m s key value) k rounds i full hit
              ∙ sym (step_present m k rounds i h q)
              ∙ e
          | inr q ↦
              let miss = ap (λ (x : Entry). x.key == k) same ∙ q in
              step_next (written m s key value) k rounds i full miss
              ∙ keep k rounds (next_slot m i) p (sym (step_next m k rounds i h q) ∙ e)
        ]
  ]

  -- The key that was written is found where its probe ended.
  hit :
      (key == empty_key) ≡ false
      → (rounds i : ℕ) → probe_from m key rounds i ≡ vacant s
      → probe_from (written m s key value) key rounds i ≡ present s
  unfolding probe_from
  hit real zero i e = cc
  hit real (suc rounds) i e = elim (Bool-cases (is_empty m i)) [
    | inl h ↦
        let at : i ≡ s = cc (step_vacant m key rounds i h, e) in
        let slot = update_self m.entries s (record { key = key; value = some value }) in
        let full = ap (λ (x : Entry). x.key == empty_key) slot ∙ real in
        let self = ap (λ (x : Entry). x.key == key) slot ∙ (==_iff key key).1 refl in
        ap (probe_from (written m s key value) key (suc rounds)) at
        ∙ step_present (written m s key value) key rounds s full self
    | inr h ↦
        let same = other i h in
        let full : is_empty (written m s key value) i ≡ false =
          ap (λ (x : Entry). x.key == empty_key) same ∙ h in
        elim (Bool-cases ((m.entries i).key == key)) [
          | inl q ↦ absurd (cc (step_present m key rounds i h q, e))
          | inr q ↦
              let miss = ap (λ (x : Entry). x.key == key) same ∙ q in
              step_next (written m s key value) key rounds i full miss
              ∙ hit real rounds (next_slot m i) (sym (step_next m key rounds i h q) ∙ e)
        ]
  ]

pub find_present :
    (m : FlatOrderMap) (k p : ℕ)
    → (k == empty_key) ≡ false
    → probe m k ≡ present p
    → find m k ≡ (m.entries p).value
unfolding find
find_present m k p real e = rw (real, e, find)

-- Where a key that is found has its entry.
pub found-present :
    (m : FlatOrderMap) (k v : ℕ)
    → find m k ≡ some v
    → ((k == empty_key) ≡ false)
      × ((p : ℕ) × (probe m k ≡ present p) × ((m.entries p).value ≡ some v))
unfolding find
found-present m k v f = elim (Bool-cases (k == empty_key)) [
  | inl h ↦ absurd (cc (f, nothing h))
  | inr h ↦ (h, at (probe m k) refl h)
]
  where
    nothing : (k == empty_key) ≡ true → find m k ≡ none
    nothing h = rw (h, find)

    at :
        (x : Probe)
        → probe m k ≡ x
        → (k == empty_key) ≡ false
        → (p : ℕ) × (probe m k ≡ present p) × ((m.entries p).value ≡ some v)
    at (present p) e h = (p, e, sym (find_present m k p h e) ∙ f)
    at (vacant s) e h = absurd (cc (f, lost))
      where
        lost : find m k ≡ none
        lost = rw (h, e, find)
    at exhausted e h = absurd (cc (f, lost))
      where
        lost : find m k ≡ none
        lost = rw (h, e, find)

module _ (m : FlatOrderMap) (key value : ℕ) where
  -- What an insertion promises.
  abbrev pub Inserted : FlatOrderMap → Type 0
  Inserted m' = (find m' key ≡ some value) × ((k v : ℕ) → find m k ≡ some v → find m' k ≡ some v)

  written-Inserted :
      (s : ℕ)
      → probe m key ≡ vacant s
      → (key == empty_key) ≡ false
      → Inserted (written m s key value)
  unfolding probe
  written-Inserted s e real =
      let free : is_empty m s ≡ true =
        subst (Ended m key) e (probe_from-Ended m key m.capacity (home m key)) in
      let slot = update_self m.entries s (record { key = key; value = some value }) in
      (
        find_present (written m s key value) key s real
              (hit m s key value free real m.capacity (home m key) e)
            ∙ ap (λ (x : Entry). x.value) slot,
        λ k v f.
            let (there, (p, q, at)) = found-present m k v f in
            let (full, _) = subst (Ended m k) q (probe_from-Ended m k m.capacity (home m k)) in
            find_present (written m s key value) k p there
              (keep m s key value free k m.capacity (home m k) p q)
            ∙ ap (λ (x : Entry). x.value) (other m s key value free p full)
            ∙ at,
      )

  -- An insertion that succeeds maps the key to the value, and every key that was found is still
  -- found with its value. It fails on the key 0, and on a key that is found.
  pub insert-find :
      ((insert m key value).1 ≡ true → Inserted (insert m key value).0)
      × ((key == empty_key) ≡ true → insert m key value ≡ (m, false))
      × ((v : ℕ) → find m key ≡ some v → insert m key value ≡ (m, false))
  unfolding insert
  insert-find = (
    λ ok. elim (Bool-cases (key == empty_key)) [
      | inl h ↦ absurd (cc (ok, ap (λ (r : FlatOrderMap × Bool). r.1) (reserved h)))
      | inr h ↦ by_probe (probe m key) refl h ok
    ],
    reserved,
    λ v f. let (h, (p, e, _)) = found-present m key v f in duplicate h p e,
  )
    where
      reserved : (key == empty_key) ≡ true → insert m key value ≡ (m, false)
      reserved h = rw (h, insert) refl

      duplicate :
          (key == empty_key) ≡ false
          → (p : ℕ) → probe m key ≡ present p
          → insert m key value ≡ (m, false)
      duplicate h p e = rw (h, e, insert) refl

      by_probe :
          (x : Probe)
          → probe m key ≡ x
          → (key == empty_key) ≡ false
          → (insert m key value).1 ≡ true
          → Inserted (insert m key value).0
      by_probe (vacant s) e real ok = subst Inserted (sym run) (written-Inserted s e real)
        where
          run : (insert m key value).0 ≡ written m s key value
          run = rw (real, e, insert) refl
      by_probe (present p) e real ok =
          absurd (cc (ok, ap (λ (r : FlatOrderMap × Bool). r.1) (duplicate real p e)))
      by_probe exhausted e real ok = absurd (cc (ok, full))
        where
          full : (insert m key value).1 ≡ false
          full = rw (real, e, insert) refl
