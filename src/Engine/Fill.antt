-- ===== src/Engine/Fill.antt =====
-- A fill keeps the engine's invariant: the level's total falls by what the resting order loses.
use hft_orderbook_engine.Base.{
  ℕ, ◌+◌, ◌≤◌, ◌≡◌, refl, sym, ◌∙◌, ap, true, false, List, [], ◌∷◌, arith, ◌==◌, ==_iff, Bool-cases,
  inl, inr, update_self, has, has_apart, subst, add64, sub64, none, Distinct,
}
use hft_orderbook_engine.Core.{
  Side, buy, sell, OrderStatus, Store, remaining_quantity, remaining_visible,
}
use hft_orderbook_engine.Level.{PriceLevel}
use hft_orderbook_engine.Level.Chain.{Represents, Chain-frame, total, total-frame}
use hft_orderbook_engine.Book
use hft_orderbook_engine.Book.{OrderBook, levels, set_level, set_status, price_to_index}
use hft_orderbook_engine.Book.Invariant.{
  Inv, IsSound, IsPlaced, Queues, same_place, same_place-eq, levels-set_level, one_place,
  Represents-frame,
}
use hft_orderbook_engine.Book.Frame.{
  SameGrid, SameGrid-IsGrid, SameGrid-index, IsPlaced-frame, core-set_status, Represents-set_status,
}
use hft_orderbook_engine.Engine.{take_fill}

module _ (s : Store) (o x : ℕ) where
  pub take_fill_other : (y : ℕ) → (o == y) ≡ false → take_fill s o x y ≡ s y
  take_fill_other y ne = ground arith

  pub take_fill_self :
      take_fill s o x o ≡ record (s o) { filled_quantity = add64 (s o).filled_quantity x }
  take_fill_self = update_self s o _

  remaining_fill :
      IsSound (s o)
      → x ≤ remaining_visible (s o)
      → remaining_quantity (take_fill s o x o) + x ≡ remaining_quantity (s o)
  remaining_fill sound small = rw take_fill_self (omega arith)

  fill-IsSound : IsSound (s o) → x ≤ remaining_visible (s o) → IsSound (take_fill s o x o)
  fill-IsSound sound small =
      subst IsSound (sym take_fill_self)
        (record { shown = omega arith; within = sound.within; fits = sound.fits })

  -- The sum over a queue falls by the fill.
  total-take_fill :
      (xs : List ℕ)
      → Distinct xs
      → has o xs ≡ true
      → IsSound (s o)
      → x ≤ remaining_visible (s o)
      → total (take_fill s o x) xs + x ≡ total s xs
  total-take_fill [] d h sound small = cc
  total-take_fill (y ∷ ys) d h sound small = elim (Bool-cases (o == y)) [
    | inl e ↦
        let p = sym ((==_iff o y).0 e) in
        rw p (
          omega (
            arith,
            remaining_fill sound small,
            total-frame s (take_fill s o x) ys (λ z k.
                let ne = has_apart z y ys k d.0 in
                ap remaining_quantity (take_fill_other z (ground arith))),
          ))
    | inr e ↦ omega (
      arith,
      ap remaining_quantity (take_fill_other y e),
      total-take_fill ys d.1 (ground arith) sound small,
    )
  ]

module _ {b : OrderBook} {s : Store} {q : Queues} (o x : ℕ) (d : Side) (i : ℕ) (v : Inv b s q)
    (there : has o (q d i) ≡ true) (small : x ≤ remaining_visible (s o)) where
  abbrev level : PriceLevel
  level = record (levels b d i) { total_quantity = sub64 (levels b d i).total_quantity x }

  abbrev b' : OrderBook
  b' = set_level b d i level

  abbrev t : Store
  t = take_fill s o x

  sound : IsSound (s o)
  sound = (v.placed d i o there).sound

  links : (y : ℕ) → ((t y).prev ≡ (s y).prev) × ((t y).next ≡ (s y).next)
  links y = elim (Bool-cases (o == y)) [
    | inl e ↦ let p = sym ((==_iff o y).0 e) in rw p (rw (take_fill_self s o x) (refl, refl))
    | inr e ↦ rw (take_fill_other s o x y e) (refl, refl)
  ]

  filled-Represents : Represents t level (q d i)
  filled-Represents =
      let r = v.repr d i in
      record {
        head = r.head;
        tail = r.tail;
        chain = Chain-frame s t none none (q d i) (λ y h. links y) r.chain;
        distinct = r.distinct;
        quantity =
            omega (arith, r.quantity, total-take_fill s o x (q d i) r.distinct there sound small);
        count = r.count;
      }

  filled-repr : (c : Side) (j : ℕ) → Represents t (levels b' c j) (q c j)
  filled-repr c j = rw (levels-set_level b d i level c j) (elim (Bool-cases (same_place d i c j)) [
    | inl p ↦ let (pc, pj) = same_place-eq d i c j p in rw p (rw (pc, pj) filled-Represents)
    | inr p ↦
        rw p (Represents-frame (λ y h. take_fill_other s o x y (apart c j y p h)) (v.repr c j))
  ])
    where
      apart :
          (c : Side) (j y : ℕ)
          → same_place d i c j ≡ false
          → has y (q c j) ≡ true
          → (o == y) ≡ false
      apart c j y p h = elim (Bool-cases (o == y)) [
        | inl e ↦ absurd (cc (one_place v d i c j o there (rw ((==_iff o y).0 e) h), p))
        | inr e ↦ e
      ]

  fill-SameGrid : SameGrid b b'
  fill-SameGrid = by_side d level
    where
      by_side : (c : Side) (l : PriceLevel) → SameGrid b (set_level b c i l)
      by_side buy l = record { num = refl; min = refl; max = refl; tick = refl }
      by_side sell l = record { num = refl; min = refl; max = refl; tick = refl }

  best_same :
      (c e : Side) (l : PriceLevel) → Book.best_idx (set_level b c i l) e ≡ Book.best_idx b e
  best_same buy buy l = refl
  best_same buy sell l = refl
  best_same sell buy l = refl
  best_same sell sell l = refl

  terms : (y : ℕ) → ((t y).side ≡ (s y).side) × ((t y).price ≡ (s y).price)
  terms y = elim (Bool-cases (o == y)) [
    | inl e ↦ let p = sym ((==_iff o y).0 e) in rw p (rw (take_fill_self s o x) (refl, refl))
    | inr e ↦ rw (take_fill_other s o x y e) (refl, refl)
  ]

  still-IsSound : (y : ℕ) → IsSound (s y) → IsSound (t y)
  still-IsSound y k = elim (Bool-cases (o == y)) [
    | inl e ↦ subst (λ z. IsSound (t z)) ((==_iff o y).0 e) (fill-IsSound s o x sound small)
    | inr e ↦ rw (take_fill_other s o x y e) k
  ]

  filled-IsPlaced : (c : Side) (j y : ℕ) → IsPlaced b (s y) c j → IsPlaced b' (t y) c j
  filled-IsPlaced c j y p = record {
    side = (terms y).0 ∙ p.side;
    index = SameGrid-index fill-SameGrid (t y).price ∙ ap (price_to_index b) (terms y).1 ∙ p.index;
    low = rw (fill-SameGrid.num) p.low;
    sound = still-IsSound y p.sound;
  }

  -- Taking `x` from an order and from the total of its level keeps the book's invariant.
  pub take_fill-Inv : Inv b' t q
  take_fill-Inv = record {
    grid = SameGrid-IsGrid fill-SameGrid v.grid;
    repr = filled-repr;
    placed = λ c j y h. filled-IsPlaced c j y (v.placed c j y h);
    best = λ e. rw (best_same d e level, fill-SameGrid.num) (v.best e);
  }

-- A change of status keeps the book's invariant.
pub set_status-Inv :
    {b : OrderBook} {s : Store} {q : Queues} (o : ℕ) (st : OrderStatus)
    → Inv b s q
    → Inv b (set_status s o st) q
set_status-Inv {s} o st v = record {
  grid = v.grid;
  repr = λ e i. Represents-set_status o st (v.repr e i);
  placed = λ e i x h.
      IsPlaced-frame (record { num = refl; min = refl; max = refl; tick = refl })
        (core-set_status s o st x) (v.placed e i x h);
  best = v.best;
}
