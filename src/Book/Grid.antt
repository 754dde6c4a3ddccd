-- ===== src/Book/Grid.antt =====
-- Prices and level indices: a valid price has a level, and no wrap-around takes place.
use mathlib.Core.Path.{ap₂}
use hft_orderbook_engine.Base.{
  ℕ, ◌+◌, ◌*◌, ◌/◌, ◌%◌, ◌^◌, ◌≤◌, ◌<◌, ◌≡◌, refl, sym, ◌∙◌, ap, true, arith,
}
use hft_orderbook_engine.Base.Int.{
  ℤ, pos, negsuc, pos_part, neg_part, ◌+ℤ◌, ◌-ℤ◌, ◌*ℤ◌, ◌/ℤ◌, ◌%ℤ◌, ◌≤ℤ◌, eqb_ℤ, to_size, -ℤ_parts,
  +ℤ_parts, eq_of_parts,
}
use hft_orderbook_engine.Book.{OrderBook, price_to_index, index_to_price, is_valid_price}
use hft_orderbook_engine.Book.Invariant.{IsGrid}

div_mono : (a c t : ℕ) → a ≤ c → a / t ≤ c / t
div_mono a c t h = grind arith

-- The distance of a price from the lowest one, in units of the price.
pub offset : (lo p : ℤ) → lo ≤ℤ p → (a : ℕ) × (p -ℤ lo ≡ pos a)
unfolding ◌-ℤ◌
offset lo p h = (pos_part (p -ℤ lo), ground arith)

pub pos_tick : (t : ℤ) → 0 < pos_part t → (k : ℕ) × (t ≡ pos k) × (0 < k)
pos_tick (pos k) h = (k, refl, h)
pos_tick (negsuc k) h = absurd (omega arith)

valid_parts :
    (b : OrderBook) (p : ℤ)
    → is_valid_price b p ≡ true
    → (b.min_price ≤ℤ p)
      × (p ≤ℤ b.max_price)
      × (eqb_ℤ ((p -ℤ b.min_price) %ℤ b.tick_size) (pos 0) ≡ true)
unfolding is_valid_price
valid_parts b p h = ground arith

aligned_mod : (a t : ℕ) → eqb_ℤ (pos a %ℤ pos t) (pos 0) ≡ true → a % t ≡ 0
unfolding ◌%ℤ◌
aligned_mod a t h = ground arith

times_div : (a t : ℕ) → a % t ≡ 0 → pos (a / t) *ℤ pos t ≡ pos a
unfolding ◌*ℤ◌
times_div a t h = let e : a / t * t ≡ a = grind arith in ground arith

add_offset : (lo p : ℤ) (a : ℕ) → p -ℤ lo ≡ pos a → lo +ℤ pos a ≡ p
add_offset lo p a h =
    eq_of_parts _ _
      (omega (arith, -ℤ_parts p lo, +ℤ_parts lo (pos a), ap pos_part h, ap neg_part h))

-- What a valid price comes to: its distance is a whole number of ticks, inside the range.
record Steps (b : OrderBook) (p : ℤ) : Type 0 where
  tick : ℕ
  dist : ℕ
  span : ℕ
  tick_pos : 0 < tick
  tick_eq : b.tick_size ≡ pos tick
  dist_eq : p -ℤ b.min_price ≡ pos dist
  span_eq : b.max_price -ℤ b.min_price ≡ pos span
  inside : dist ≤ span
  aligned : dist % tick ≡ 0

module _ (b : OrderBook) (g : IsGrid b) (p : ℤ) (valid : is_valid_price b p ≡ true) where
  steps : Steps b p
  steps =
      let (low, high, aligned) = valid_parts b p valid in
      let (a, ea) = offset b.min_price p low in
      let (c, ec) = offset b.min_price b.max_price g.range in
      let (t, et, tpos) = pos_tick b.tick_size g.tick in
      record {
        tick = t;
        dist = a;
        span = c;
        tick_pos = tpos;
        tick_eq = et;
        dist_eq = ea;
        span_eq = ec;
        inside = omega (
          arith,
          -ℤ_parts p b.min_price,
          -ℤ_parts b.max_price b.min_price,
          ap pos_part ea,
          ap neg_part ea,
          ap pos_part ec,
          ap neg_part ec,
        );
        aligned = aligned_mod a t (ap₂ (λ x y. eqb_ℤ (x %ℤ y) (pos 0)) (sym ea) (sym et) ∙ aligned);
      }

  index_steps : price_to_index b p ≡ (steps.dist / steps.tick) % 2 ^ 64
  unfolding price_to_index ◌/ℤ◌
  index_steps = ap₂ (λ x y. to_size (x /ℤ y)) steps.dist_eq steps.tick_eq

  num_steps : b.num_levels ≡ steps.span / steps.tick + 1
  unfolding ◌/ℤ◌
  num_steps = g.count ∙ ap₂ (λ x y. pos_part (x /ℤ y) + 1) steps.span_eq steps.tick_eq

  -- A valid price has a level.
  pub index-lt : price_to_index b p < b.num_levels
  index-lt = omega (
    arith,
    index_steps,
    num_steps,
    g.fits,
    div_mono steps.dist steps.span steps.tick steps.inside,
  )

  -- In a book with a well-formed price grid, a valid price is the price of its level: nothing is lost
  -- by indexing.
  pub index_to_price-price_to_index : index_to_price b (price_to_index b p) ≡ p
  unfolding index_to_price
  index_to_price-price_to_index =
      let small : steps.dist / steps.tick < 2 ^ 64 =
        omega (arith, num_steps, g.fits, div_mono steps.dist steps.span steps.tick steps.inside) in
      let idx : price_to_index b p ≡ steps.dist / steps.tick = omega (arith, index_steps) in
      ap₂ (λ i t. b.min_price +ℤ pos i *ℤ t) idx steps.tick_eq
      ∙ ap (λ x. b.min_price +ℤ x) (times_div steps.dist steps.tick steps.aligned)
      ∙ add_offset b.min_price p steps.dist steps.dist_eq
