-- ===== src/Nanopb/Fields/Search.antt =====
-- The searches for a field, `pb_field_iter_find` of pb_common.c among them, which go once around the
-- descriptor.
use teta.Prelude.{ℕ, zero, suc, ◌+◌, ◌≤◌, ◌<◌, ◌≡◌, refl, ap, arith, ◌⊎◌, inl, inr}
use teta.Prelude.{Bool, true, false, List, length, ◌==◌, if◌then◌else◌, Bool-cases}
use mathlib.Core.Path.{ap₂, subst⁻¹}
use native.Mathlib.Decide.{dec_lt}
use teta.Nanopb.Fields.{
  Field, field_at, Iter, current, pb_field_iter_next, is_wanted, find_loop, pb_field_iter_find,
}
use teta.Nanopb.Fields.Walk.{
  count_fields, count-le-length, walk, walk_shape, current-walk, next_inside, next_last, eq_of_test,
  ne_of_test, ne_test,
}

-- A search for a field that passes a test, from the iterator on and back to the field at `start`.
unfoldable pub search : (Field → Bool) → ℕ → ℕ → Iter → Iter × Bool
search wanted zero start iter = (iter, false)
search wanted (suc fuel) start iter =
    let next = (pb_field_iter_next iter).0 in
    let again = search wanted fuel start next in
    if wanted (current iter)
    then (iter, true)
    else if next.pos == start
    then (next, false)
    else again

-- A round of a search, by the rest of it.
abbrev pub round : (Field → Bool) → ℕ → Iter → Iter × Bool → Iter × Bool
round wanted start iter again =
    let next = (pb_field_iter_next iter).0 in
    if wanted (current iter)
    then (iter, true)
    else if next.pos == start
    then (next, false)
    else again

find_loop-search :
    (tag fuel start : ℕ) (iter : Iter)
    → find_loop fuel start tag iter ≡ search (is_wanted tag) fuel start iter
unfolding find_loop search
find_loop-search tag zero start iter = refl
find_loop-search tag (suc fuel) start iter =
    ap (round (is_wanted tag) start iter)
      (find_loop-search tag fuel start (pb_field_iter_next iter).0)

module _ (fields : List Field) (dest : ℕ) where
  -- The verdict of a search that began at index `start`.
  abbrev pub IsFound : (Field → Bool) → ℕ → Iter × Bool → Type 0
  IsFound wanted start r =
      ((j : ℕ) × (j < count_fields fields)
        × (wanted (field_at fields j) ≡ true)
        × (r ≡ (walk fields dest j, true)))
      ⊎ (((j : ℕ) → j < count_fields fields → wanted (field_at fields j) ≡ false)
          × (r ≡ (walk fields dest start, false)))

  module _ (wanted : Field → Bool) (start : ℕ) (inside : start < count_fields fields) where
    wanted_at : (k : ℕ) → wanted (current (walk fields dest k)) ≡ wanted (field_at fields k)
    wanted_at k = ap (wanted) (current-walk fields dest k)

    find_here :
        (fuel k : ℕ)
        → wanted (field_at fields k) ≡ true
        → search wanted (suc fuel) start (walk fields dest k) ≡ (walk fields dest k, true)
    unfolding search
    find_here fuel k here = rw (wanted_at k, here)

    find_on :
        (fuel k n : ℕ) (b : Bool)
        → wanted (field_at fields k) ≡ false
        → pb_field_iter_next (walk fields dest k) ≡ (walk fields dest n, b)
        → search wanted (suc fuel) start (walk fields dest k) ≡ (
            if n == start
            then (walk fields dest n, false)
            else search wanted fuel start (walk fields dest n))
    unfolding search
    find_on fuel k n b other e =
        rw (wanted_at k, other, e)
          (ap
            (λ (p : ℕ).
              if p == start
              then (walk fields dest n, false)
              else search wanted fuel start (walk fields dest n))
            (walk_shape fields dest n).1)

    -- Behind the end of the array: what stood before `k` and from `start` on was not wanted.
    after_wrap :
        (fuel k : ℕ)
        → k < start
        → start ≤ k + fuel
        → ((j : ℕ)
            → (j < k) ⊎ (start ≤ j)
            → j < count_fields fields
            → wanted (field_at fields j) ≡ false)
        → IsFound wanted start (search wanted fuel start (walk fields dest k))
    after_wrap zero k lt room seen = absurd (omega arith)
    after_wrap (suc fuel) k lt room seen = elim (Bool-cases (wanted (field_at fields k))) [
      | inl here ↦ inl (k, omega arith, here, find_here fuel k here)
      | inr other ↦
          rw (find_on fuel k (suc k) true other (next_inside fields dest k (omega arith)))
            (elim (Bool-cases (suc k == start)) [
              | inl done ↦ rw done (
                  inr (
                    all_seen other done,
                    ap (λ (n : ℕ). (walk fields dest n, false)) (eq_of_test (suc k) start done),
                  ))
              | inr on ↦ rw on (
                  after_wrap fuel (suc k) (ne_of_test (suc k) start on lt) (omega arith)
                    (seen_more other))
            ])
    ]
      where
        seen_more :
            wanted (field_at fields k) ≡ false
            → (j : ℕ) → (j < suc k) ⊎ (start ≤ j)
            → j < count_fields fields
            → wanted (field_at fields j) ≡ false
        seen_more other j h inside' = ground (arith, seen j)

        all_seen :
            wanted (field_at fields k) ≡ false
            → (suc k == start) ≡ true
            → (j : ℕ) → j < count_fields fields
            → wanted (field_at fields j) ≡ false
        all_seen other done j inside' = ground (arith, seen_more other j)

    -- Before the end of the array: what stood from `start` to `k` was not wanted.
    before_wrap :
        (fuel k : ℕ)
        → start ≤ k
        → k < count_fields fields
        → count_fields fields + start ≤ k + fuel
        → ((j : ℕ) → start ≤ j → j < k → wanted (field_at fields j) ≡ false)
        → IsFound wanted start (search wanted fuel start (walk fields dest k))
    before_wrap zero k le lt room seen = absurd (omega arith)
    before_wrap (suc fuel) k le lt room seen = elim (Bool-cases (wanted (field_at fields k))) [
      | inl here ↦ inl (k, lt, here, find_here fuel k here)
      | inr other ↦ elim (dec_lt (suc k) (count_fields fields)) [
        | yes more ↦
            rw
              (
                find_on fuel k (suc k) true other (next_inside fields dest k more),
                ne_test (suc k) start (omega arith),
              )
              (before_wrap fuel (suc k) (omega arith) more (omega arith) (seen_more other))
        | no end ↦
            rw (find_on fuel k 0 false other (next_last fields dest k (omega arith)))
              (elim (Bool-cases (0 == start)) [
                | inl done ↦ rw done (
                    inr (
                      (λ j h. seen_rest other end j (ground arith) h),
                      ap (λ (n : ℕ). (walk fields dest n, false)) (eq_of_test 0 start done),
                    ))
                | inr on ↦ rw on (
                    after_wrap fuel 0 (ground arith) (omega arith)
                      (λ j h. seen_rest other end j (ground arith)))
              ])
      ]
    ]
      where
        seen_more :
            wanted (field_at fields k) ≡ false
            → (j : ℕ) → start ≤ j
            → j < suc k
            → wanted (field_at fields j) ≡ false
        seen_more other j low high = ground (arith, seen j)

        seen_rest :
            wanted (field_at fields k) ≡ false
            → ¬ (suc k < count_fields fields)
            → (j : ℕ) → start ≤ j
            → j < count_fields fields
            → wanted (field_at fields j) ≡ false
        seen_rest other end j low high = seen_more other j low (omega arith)

    -- A search for one turn through the array.
    pub search-IsFound : IsFound wanted start (
        search wanted
          (length (walk fields dest start).start + 1)
          (walk fields dest start).pos
          (walk fields dest start))
    search-IsFound =
        subst⁻¹ (IsFound wanted start)
          (ap₂ (λ (n p : ℕ). search wanted n p (walk fields dest start)) starts
            (walk_shape fields dest start).1)
          (before_wrap (length fields + 1) start (omega arith) inside
            (omega (arith, count-le-length fields)) (λ j low high. absurd (omega arith)))
      where
        starts : length (walk fields dest start).start + 1 ≡ length fields + 1
        starts = ap (λ (fs : List Field). length fs + 1) (walk_shape fields dest start).0

  -- From any field of the descriptor the search ends; it stands at a field of the tag that is no
  -- extension, or back at the start if the descriptor has none.
  pub pb_field_iter_find-IsFound :
      (tag start : ℕ)
      → start < count_fields fields
      → IsFound (is_wanted tag) start (pb_field_iter_find (walk fields dest start) tag)
  unfolding pb_field_iter_find
  pb_field_iter_find-IsFound tag start inside =
      subst⁻¹ (IsFound (is_wanted tag) start)
        (find_loop-search tag (length (walk fields dest start).start + 1)
          (walk fields dest start).pos (walk fields dest start))
        (search-IsFound (is_wanted tag) start inside)
