-- ===== src/Nanopb/Decoder/Allocate/Bounds.antt =====
-- `allocate_field` multiplies only what a size_t holds: it refuses exactly the products that it does
-- not hold, though it divides only where a factor has more than half of its bits.
use teta.Prelude.{
  ℕ, ◌-◌, ◌*◌, ◌/◌, ◌^◌, ◌≤◌, ◌<◌, ◌≡◌, ◌≢◌, refl, sym, ◌∙◌, arith, Bool, true, false, ◌||◌, ltb,
  leb, ◌==◌, ltb→ge, ltb→lt, lt→ltb, ge→ltb, leb→gt, Bool-cases, inl, inr,
}
use mathlib.Core.Path.{subst}
use native.Mathlib.Nat.{mul_comm, le-div_iff_mul-le, mod-eq_of_lt, div-lt_iff_lt-mul, mul-le-mul}
use teta.Nanopb.Action.{size_too_large}
use teta.Nanopb.Memory.{read_pointer}
use teta.Nanopb.Machine.{Machine, Placement, fail, pb_realloc}
use teta.Nanopb.Decoder.Allocate.{size_max, check_limit, is_too_large, assigned, allocate_field}

not_more :
    (data_size array_size : ℕ)
    → 0 < array_size
    → data_size ≤ size_max / array_size
    → array_size * data_size ≤ size_max
not_more data_size array_size positive h =
    let least = (le-div_iff_mul-le {k = array_size} {x = data_size} {y = size_max} positive).0 h in
    subst (λ (n : ℕ). n ≤ size_max) (mul_comm data_size array_size) least

-- The division compares the product with the largest size.
divided :
    (data_size array_size : ℕ)
    → array_size ≢ 0
    → ltb (size_max / array_size) data_size ≡ ltb size_max (array_size * data_size)
divided data_size array_size nonzero =
    let positive : 0 < array_size = omega arith in
    let exact = div-lt_iff_lt-mul {k = array_size} {x = size_max} {y = data_size} positive in
    elim (Bool-cases (ltb (size_max / array_size) data_size)) [
      | inl over ↦
          let more : size_max < data_size * array_size = exact.0 (ltb→lt _ _ over) in
          over
          ∙ sym (lt→ltb _ _ (subst (λ (n : ℕ). size_max < n) (mul_comm data_size array_size) more))
      | inr under ↦
          under ∙ sym (ge→ltb _ _ (not_more data_size array_size positive (ltb→ge _ _ under)))
    ]

product_small :
    (data_size array_size : ℕ)
    → leb check_limit data_size || leb check_limit array_size ≡ false
    → array_size * data_size ≤ size_max
product_small data_size array_size low =
    let (d, a) = both_small (leb check_limit data_size) (leb check_limit array_size) low in
    let small_array : array_size < 2 ^ 32 = leb→gt check_limit array_size a in
    let small_data : data_size < 2 ^ 32 = leb→gt check_limit data_size d in
    let bound : array_size * data_size ≤ (2 ^ 32 - 1) * (2 ^ 32 - 1) =
      mul-le-mul {n₁ = array_size} {m₁ = data_size} {n₂ = 2 ^ 32 - 1} {m₂ = 2 ^ 32 - 1}
        (omega arith) (omega arith) in
    omega arith
  where
    both_small : (x y : Bool) → x || y ≡ false → (x ≡ false) × (y ≡ false)
    both_small true y e = ground arith
    both_small false y e = (refl, e)

-- The checks refuse exactly the products above SIZE_MAX.
pub is_too_large-exact :
    (data_size array_size : ℕ)
    → array_size ≢ 0
    → is_too_large data_size array_size ≡ ltb size_max (array_size * data_size)
unfolding is_too_large
is_too_large-exact data_size array_size nonzero =
    elim (Bool-cases (leb check_limit data_size || leb check_limit array_size)) [
      | inl big ↦ rw big (divided data_size array_size nonzero)
      | inr low ↦ rw low (sym (ge→ltb _ _ (product_small data_size array_size low)))
    ]

nonzero :
    (data_size array_size : ℕ)
    → data_size ≢ 0
    → array_size ≢ 0
    → data_size == 0 || array_size == 0 ≡ false
nonzero data_size array_size some_data some_entries = ground arith

-- `allocate_field` refuses a product of the sizes that a size_t does not hold, with the machine
-- otherwise as it was.
pub allocate_field-refuses :
    (place : Placement) (p_data data_size array_size : ℕ) (w : Machine)
    → data_size ≢ 0
    → array_size ≢ 0
    → 2 ^ 64 ≤ array_size * data_size
    → allocate_field place p_data data_size array_size w ≡ fail size_too_large w
unfolding allocate_field
allocate_field-refuses place p_data data_size array_size w some_data some_entries big =
    rw
      (
        nonzero data_size array_size some_data some_entries,
        is_too_large-exact data_size array_size some_entries,
        lt→ltb size_max (array_size * data_size) (omega arith),
      )
      refl

-- Every other product of nonzero sizes is what `allocate_field` asks the allocator for: it did not
-- wrap.
pub allocate_field-asks :
    (place : Placement) (p_data data_size array_size : ℕ) (w : Machine)
    → data_size ≢ 0
    → array_size ≢ 0
    → array_size * data_size < 2 ^ 64
    → allocate_field place p_data data_size array_size w
      ≡ assigned p_data (pb_realloc place (read_pointer w.mem p_data) (array_size * data_size) w)
unfolding allocate_field
allocate_field-asks place p_data data_size array_size w some_data some_entries small =
    rw
      (
        nonzero data_size array_size some_data some_entries,
        is_too_large-exact data_size array_size some_entries,
        ge→ltb size_max (array_size * data_size) (omega arith),
        mod-eq_of_lt small,
      )
      refl
