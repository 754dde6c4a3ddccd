-- ===== src/Pool/FreeList.antt =====
-- The slab of memory_pool.h splits into free and live slots: each slot is handed out once at a
-- time, and comes back.
use hft_orderbook_engine.Base.{
  ℕ, zero, suc, ◌+◌, ◌^◌, ◌≤◌, ◌<◌, ◌≡◌, refl, ◌∙◌, ap, ◌⊎◌, add64, true, false, none, some, List,
  [], ◌∷◌, ◌==◌, ==_iff, Bool-cases, inl, inr, arith, Ptr, update, has, erase, length, Distinct,
  head_or, has_apart, has-erase_self, has-erase_sub, length-erase,
}
use Prim.Native.Nat.{max}
use hft_orderbook_engine.Pool.{MemoryPool, build_free_list, make, raise_mark, allocate, deallocate}

-- The free list from `p` leads through `xs`.
abbrev pub Links : (ℕ → Ptr) → List ℕ → Type 0
Links next [] = Unit
Links next (x ∷ xs) = (next x ≡ head_or xs none) × Links next xs

pub record IsPool (p : MemoryPool) (free live : List ℕ) : Type 0 where
  pub head : p.free_list ≡ head_or free none
  pub links : Links p.next_free free
  pub free_distinct : Distinct free
  pub live_distinct : Distinct live
  pub apart : (x : ℕ) → has x free ≡ true → has x live ≡ false
  pub inside : (x : ℕ) → has x free ≡ true → x < p.capacity
  pub live_inside : (x : ℕ) → has x live ≡ true → x < p.capacity
  pub whole : length free + length live ≡ p.capacity
  pub count : p.allocated_count ≡ length live
  pub mark : (p.allocated_count ≤ p.high_water_mark) × (p.high_water_mark ≤ p.capacity)
  pub fits : p.capacity < 2 ^ 64

Links-update :
    (next : ℕ → Ptr) (o : ℕ) (r : Ptr) (xs : List ℕ)
    → has o xs ≡ false
    → Links next xs
    → Links (update next o r) xs
Links-update next o r [] out l = tt
Links-update next o r (x ∷ xs) out l = (ground arith, Links-update next o r xs (ground arith) l.1)

has-erase_le : (a b : ℕ) (xs : List ℕ) → has b xs ≡ false → has b (erase a xs) ≡ false
has-erase_le a b [] h = h
has-erase_le a b (x ∷ xs) h = ground (arith, has-erase_le a b xs)

Distinct-erase : (o : ℕ) (xs : List ℕ) → Distinct xs → Distinct (erase o xs)
Distinct-erase o [] d = tt
Distinct-erase o (x ∷ xs) d = elim (Bool-cases (o == x)) [
  | inl e ↦ rw e d.1
  | inr e ↦ rw e (has-erase_le o x xs d.0, Distinct-erase o xs d.1)
]

raise_mark-parts :
    (p : MemoryPool)
    → ((raise_mark p).free_list ≡ p.free_list)
      × ((raise_mark p).next_free ≡ p.next_free)
      × ((raise_mark p).capacity ≡ p.capacity)
      × ((raise_mark p).allocated_count ≡ p.allocated_count)
      × ((raise_mark p).high_water_mark ≡ max p.high_water_mark p.allocated_count)
unfolding raise_mark
raise_mark-parts p = (ground arith, ground arith, ground arith, ground arith, ground arith)

module _ {p : MemoryPool} {x : ℕ} {free live : List ℕ} (v : IsPool p (x ∷ free) live) where
  taken : MemoryPool
  taken = record p { free_list = p.next_free x; allocated_count = add64 p.allocated_count 1 }

  taken-IsPool : IsPool (raise_mark taken) free (x ∷ live)
  unfolding taken
  taken-IsPool =
      let (list, next, cap, count, mark) = raise_mark-parts taken in
      record {
        head = list ∙ v.links.0;
        links = rw next v.links.1;
        free_distinct = v.free_distinct.1;
        live_distinct = (v.apart x (ground arith), v.live_distinct);
        apart = λ y h.
            let ne = has_apart y x free h v.free_distinct.0 in
            ground (arith, v.apart y (ground arith));
        inside = λ y h. rw cap (v.inside y (ground arith));
        live_inside = λ y h. rw cap (elim (Bool-cases (y == x)) [
          | inl e ↦ rw ((==_iff y x).0 e) (v.inside x (ground arith))
          | inr e ↦ v.live_inside y (ground arith)
        ]);
        whole = omega (arith, v.whole, cap);
        count = omega (arith, count, v.count, v.whole, v.fits);
        mark = rw (count, mark, cap) (omega (arith, v.mark, v.count, v.whole, v.fits));
        fits = rw cap v.fits;
      }

  -- In a pool whose free list and live slots are in order, `allocate` hands out the first free slot,
  -- which becomes live, and keeps the pool in order.
  pub allocate-cons : ((allocate p).1 ≡ some x) × IsPool (allocate p).0 free (x ∷ live)
  unfolding allocate taken
  allocate-cons = rw v.head (refl, taken-IsPool)

-- With no free slot, `allocate` gives a null pointer and leaves the pool.
pub allocate-nil : {p : MemoryPool} {live : List ℕ} → IsPool p [] live → allocate p ≡ (p, none)
unfolding allocate
allocate-nil v = rw v.head

-- In a pool whose free list and live slots are in order, a live slot that is given back becomes the
-- first free one, and the pool stays in order.
pub deallocate-IsPool :
    {p : MemoryPool} {free live : List ℕ} (o : ℕ)
    → IsPool p free live
    → has o live ≡ true
    → IsPool (deallocate p o) (o ∷ free) (erase o live)
unfolding deallocate
deallocate-IsPool {p} {free} {live} o v h =
    let out = not_free (Bool-cases (has o free)) in
    record {
      head = refl;
      links = (ground (arith, v.head), Links-update p.next_free o p.free_list free out v.links);
      free_distinct = (out, v.free_distinct);
      live_distinct = Distinct-erase o live v.live_distinct;
      apart = λ y k. elim (Bool-cases (y == o)) [
        | inl e ↦ rw ((==_iff y o).0 e) (has-erase_self o live v.live_distinct)
        | inr e ↦ has-erase_le o y live (v.apart y (ground arith))
      ];
      inside = λ y k. elim (Bool-cases (y == o)) [
        | inl e ↦ rw ((==_iff y o).0 e) (v.live_inside o h)
        | inr e ↦ v.inside y (ground arith)
      ];
      live_inside = λ y k. v.live_inside y (has-erase_sub o y live k);
      whole = omega (arith, v.whole, length-erase o live h);
      count = omega (arith, v.count, length-erase o live h, v.whole, v.fits);
      mark = omega (arith, v.mark, v.count, length-erase o live h, v.whole, v.fits);
      fits = v.fits;
    }
  where
    not_free : (has o free ≡ true) ⊎ (has o free ≡ false) → has o free ≡ false
    not_free (inl k) = absurd (cc (v.apart o k, h))
    not_free (inr k) = k

-- The slots from `i` on, in order.
abbrev pub range : ℕ → ℕ → List ℕ
range i zero = []
range i (suc n) = i ∷ range (suc i) n

has-range_below : (x i n : ℕ) → x < i → has x (range i n) ≡ false
has-range_below x i zero h = refl
has-range_below x i (suc n) h = ground (arith, has-range_below x (suc i) n (omega arith))

has-range_above : (x i n : ℕ) → has x (range i n) ≡ true → x < i + n
has-range_above x i zero h = cc
has-range_above x i (suc n) h = elim (Bool-cases (x == i)) [
  | inl e ↦ ground arith
  | inr e ↦ omega (arith, has-range_above x (suc i) n (ground arith))
]

Distinct-range : (i n : ℕ) → Distinct (range i n)
Distinct-range i zero = tt
Distinct-range i (suc n) = (has-range_below i (suc i) n (omega arith), Distinct-range (suc i) n)

pub length-range : (i n : ℕ) → length (range i n) ≡ n
length-range i zero = refl
length-range i (suc n) = ap suc (length-range (suc i) n)

build-Links :
    (i n : ℕ) (p : MemoryPool)
    → p.free_list ≡ head_or (range i n) none
    → Links p.next_free (range i n)
    → ((build_free_list i p).free_list ≡ head_or (range 0 (n + i)) none)
      × Links (build_free_list i p).next_free (range 0 (n + i))
unfolding build_free_list
build-Links zero n p e l = let z : n + 0 ≡ n = omega arith in rw z (e, l)
build-Links (suc i) n p e l =
    let z : n + suc i ≡ suc n + i = omega arith in
    rw z (
      build-Links i (suc n)
        (record p { next_free = update p.next_free i p.free_list; free_list = some i }) refl
        (
          ground (arith, e),
          Links-update p.next_free i p.free_list (range (suc i) n)
              (has-range_below i (suc i) n (omega arith)) l,
        ))

build-parts :
    (i : ℕ) (p : MemoryPool)
    → ((build_free_list i p).capacity ≡ p.capacity)
      × ((build_free_list i p).allocated_count ≡ p.allocated_count)
      × ((build_free_list i p).high_water_mark ≡ p.high_water_mark)
unfolding build_free_list
build-parts zero p = (refl, refl, refl)
build-parts (suc i) p = build-parts i _

-- A new pool of fewer than 2^64 slots has every slot free, in order from slot 0.
pub make-IsPool : (capacity : ℕ) → capacity < 2 ^ 64 → IsPool (make capacity) (range 0 capacity) []
unfolding make
make-IsPool capacity fits =
    let blank : MemoryPool = record {
      capacity = capacity;
      free_list = none;
      next_free = λ _. none;
      allocated_count = 0;
      high_water_mark = 0;
    } in
    let (cap, count, mark) = build-parts capacity blank in
    let (list, links) = build-Links capacity 0 blank refl tt in
    let z : 0 + capacity ≡ capacity = omega arith in
    record {
      head = list ∙ ap (λ k. head_or (range 0 k) none) z;
      links = rw z at links;
      free_distinct = Distinct-range 0 capacity;
      live_distinct = tt;
      apart = λ x h. refl;
      inside = λ x h. rw cap (omega (arith, has-range_above x 0 capacity h));
      live_inside = λ x h. cc;
      whole = omega (arith, length-range 0 capacity, cap);
      count = count;
      mark = rw (count, mark, cap) (omega arith);
      fits = rw cap fits;
    }
