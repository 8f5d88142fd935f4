-- ===== src/Nanopb/Decoder/Required/Count.antt =====
-- The number of required fields that `pb_decode_noinit` finds behind its loop, and the whole check.
use teta.Prelude.{
  ℕ, zero, suc, ◌+◌, ◌-◌, ◌^◌, ◌≤◌, ◌<◌, ◌≡◌, refl, sym, ap, ◌∙◌, arith, true, false, ◌==◌,
  if◌then◌else◌, ltb, List, length, All, inl, inr, Bool-cases, u32,
}
use mathlib.Core.Path.{ap₂}
use native.Mathlib.Nat.{mod-eq_of_lt}
use teta.Nanopb.Fields.{
  Field, field_at, Iter, current, iter_at_begin, advanced, htype, htype_required,
}
use teta.Nanopb.Fields.Walk.{
  count_fields, count-le-length, tag_before, walk, walk_shape, current-walk,
  pb_field_iter_next-walk,
}
use teta.Nanopb.Decoder.Required.{
  pb_max_required_fields, seek_end, required_count, all_seen, all_required_seen,
}
use teta.Prelude.{below}
use teta.Nanopb.Decoder.Required.Words.{marked, is_in}
use teta.Nanopb.Decoder.Required.Seen.{all_seen-below}

-- The number of required fields among the first `n`.
unfoldable pub required_among : List Field → ℕ → ℕ
required_among fields zero = 0
required_among fields (suc n) =
    let rest = required_among fields n in
    if htype (field_at fields n) == htype_required then rest + 1 else rest

-- The required fields that the decoder keeps account of.
abbrev bounded : ℕ → ℕ
bounded n = if ltb pb_max_required_fields n then pb_max_required_fields else n

abbrev pub accounted : List Field → ℕ
accounted fields = bounded (required_among fields (count_fields fields))

accounted-bound : (fields : List Field) → accounted fields ≤ pb_max_required_fields
accounted-bound fields = ground arith

required_among-bound : (fields : List Field) (n : ℕ) → required_among fields n ≤ n
unfolding required_among
required_among-bound fields zero = omega arith
required_among-bound fields (suc n) = ground (arith, required_among-bound fields n)

index_advanced :
    (iter : Iter)
    → (advanced iter).required_field_index ≡ (
        if htype (current iter) == htype_required
        then u32 (iter.required_field_index + 1)
        else iter.required_field_index)
unfolding advanced
index_advanced iter = ground arith

is_same : (a b : ℕ) → a ≡ b → (a == b) ≡ true
is_same a b e = ground arith

is_other : (a b : ℕ) → a < b → (a == b) ≡ false
is_other a b h = ground arith

module _ (fields : List Field) (dest : ℕ) where
  index-walk :
      (i : ℕ) → i < 2 ^ 32 → (walk fields dest i).required_field_index ≡ required_among fields i
  unfolding walk iter_at_begin required_among
  index-walk zero h = refl
  index-walk (suc i) h =
      index_advanced (walk fields dest i)
      ∙ ap₂ (λ (f : Field) (n : ℕ). if htype f == htype_required then u32 (n + 1) else n)
          (current-walk fields dest i) (index-walk i (omega arith))
      ∙ ap
          (λ (n : ℕ).
            if htype (field_at fields i) == htype_required then n else required_among fields i)
          (mod-eq_of_lt (omega (arith, required_among-bound fields i)))

  seek_end-walk :
      (k rounds i : ℕ)
      → suc i + k ≡ count_fields fields
      → k < rounds
      → seek_end rounds (walk fields dest i) ≡ (walk fields dest (i + k), walk fields dest 0)
  unfolding seek_end
  seek_end-walk k zero i at enough = absurd (omega arith)
  seek_end-walk zero (suc rounds) i at enough =
      rw
        (
          pb_field_iter_next-walk fields dest i (omega arith),
          is_same (suc i) (count_fields fields) (omega arith),
        )
        (ap (λ (n : ℕ). (walk fields dest n, walk fields dest 0)) {x = i} {y = i + 0} (omega arith))
  seek_end-walk (suc k) (suc rounds) i at enough =
      rw
        (
          pb_field_iter_next-walk fields dest i (omega arith),
          is_other (suc i) (count_fields fields) (omega arith),
        )
        (seek_end-walk k rounds (suc i) (omega arith) (omega arith)
          ∙ ap (λ (n : ℕ). (walk fields dest n, walk fields dest 0)) {x = suc i + k} {y = i + suc k}
              (omega arith))

  -- The iterators of the last field and of the first one.
  count_at_end :
      (n : ℕ)
      → suc n ≡ count_fields fields
      → suc n < 2 ^ 32
      → required_count (walk fields dest n, walk fields dest 0) ≡ accounted fields
  unfolding required_count required_among
  count_at_end n last small =
      rw
        (
          current-walk fields dest n,
          current-walk fields dest 0,
          tag_before fields 0 (omega arith),
          index-walk n (omega arith),
          sym last,
        )
        (elim (Bool-cases (htype (field_at fields n) == htype_required)) [
          | inl counted ↦
              rw counted (ap bounded (mod-eq_of_lt (omega (arith, required_among-bound fields n))))
          | inr other ↦ rw other refl
        ])

  required_count-accounted :
      (i : ℕ)
      → i < count_fields fields
      → length fields < 2 ^ 32
      → required_count (seek_end (length (walk fields dest i).start + 1) (walk fields dest i))
        ≡ accounted fields
  required_count-accounted i h small =
      ap (λ (n : ℕ). required_count (seek_end (n + 1) (walk fields dest i)))
        (ap (λ (fs : List Field). length fs) (walk_shape fields dest i).0)
      ∙ ap required_count (
          seek_end-walk (count_fields fields - suc i) (length fields + 1) i (omega arith)
            (omega (arith, count-le-length fields)))
      ∙ count_at_end (i + (count_fields fields - suc i)) (omega arith)
          (omega (arith, count-le-length fields))

-- At any field of a descriptor of fewer than 2^32 entries, with indices below the number of its
-- required fields and below 64: the check behind the loop of `pb_decode_noinit` passes exactly if each
-- of its required fields, or each of the first 64, was marked.
pub all_required_seen-below :
    (fields : List Field) (dest i : ℕ) (indices : List ℕ)
    → i < count_fields fields
    → length fields < 2 ^ 32
    → All (λ k. k < accounted fields) indices
    → all_required_seen (walk fields dest i) (marked indices)
      ≡ below (accounted fields) (λ k. is_in k indices)
unfolding all_required_seen
all_required_seen-below fields dest i indices h small few =
    ap (λ (n : ℕ). all_seen n (marked indices)) (required_count-accounted fields dest i h small)
    ∙ all_seen-below (accounted fields) indices (accounted-bound fields) few
