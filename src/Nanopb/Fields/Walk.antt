-- ===== src/Nanopb/Fields/Walk.antt =====
-- The field iterator of pb_common.c against the plain list of the fields before the terminator.
use teta.Prelude.{ℕ, zero, suc, ◌+◌, ◌≤◌, ◌<◌, ◌≡◌, refl, ap, ◌∙◌, arith, inl, inr}
use teta.Prelude.{true, false, not, List, [], ◌∷◌, length, ◌==◌, if◌then◌else◌, Bool-cases}
use mathlib.Core.Path.{ap₂, subst}
use teta.Nanopb.Fields.{
  Field, field_at, Iter, current, iter_at_begin, pb_field_iter_begin, advanced, pb_field_iter_next,
}

-- The number of fields in front of the terminator.
unfoldable pub count_fields : List Field → ℕ
count_fields [] = 0
count_fields (f ∷ fs) = let rest = count_fields fs in if f.tag == 0 then 0 else suc rest

pub count-le-length : (fs : List Field) → count_fields fs ≤ length fs
unfolding count_fields
count-le-length [] = omega arith
count-le-length (f ∷ fs) = ground (arith, count-le-length fs)

pub tag_before :
    (fs : List Field) (i : ℕ) → i < count_fields fs → ((field_at fs i).tag == 0) ≡ false
unfolding count_fields
tag_before [] i h = absurd (omega arith)
tag_before (f ∷ fs) zero h = ground arith
tag_before (f ∷ fs) (suc i) h = ground (arith, tag_before fs i)

pub tag_end : (fs : List Field) → ((field_at fs (count_fields fs)).tag == 0) ≡ true
unfolding count_fields
tag_end [] = refl
tag_end (f ∷ fs) = elim (Bool-cases (f.tag == 0)) [
  | inl last ↦ rw last last
  | inr more ↦ rw more (tag_end fs)
]

pub eq_of_test : (a b : ℕ) → (a == b) ≡ true → a ≡ b
eq_of_test a b h = ground arith

pub ne_of_test : (a b : ℕ) → (a == b) ≡ false → a ≤ b → a < b
ne_of_test a b h le = ground arith

pub ne_test : (a b : ℕ) → b < a → (a == b) ≡ false
ne_test a b h = ground arith

module _ (fields : List Field) (dest : ℕ) where
  -- The iterator at each field, from the first one on.
  unfoldable pub walk : ℕ → Iter
  walk zero = iter_at_begin fields dest
  walk (suc i) = advanced (walk i)

  pub walk_shape :
      (i : ℕ) → ((walk i).start ≡ fields) × ((walk i).pos ≡ i) × ((walk i).dest_struct ≡ dest)
  unfolding walk iter_at_begin advanced
  walk_shape zero = (refl, refl, refl)
  walk_shape (suc i) = ground (arith, walk_shape i)

  pub current-walk : (i : ℕ) → current (walk i) ≡ field_at fields i
  current-walk i = ap₂ field_at (walk_shape i).0 (walk_shape i).1

  following : (i : ℕ) → field_at (walk i).start ((walk i).pos + 1) ≡ field_at fields (suc i)
  following i = ap₂ field_at (walk_shape i).0 (omega (arith, (walk_shape i).1))

  restart : (i : ℕ) → iter_at_begin (walk i).start (walk i).dest_struct ≡ walk 0
  unfolding walk
  restart i = ap₂ iter_at_begin (walk_shape i).0 (walk_shape i).2

  -- The iterator begins at the first field, and says whether there is one.
  pub pb_field_iter_begin-walk :
      pb_field_iter_begin fields dest ≡ (walk 0, not (count_fields fields == 0))
  unfolding pb_field_iter_begin walk
  pb_field_iter_begin-walk = elim (Bool-cases (count_fields fields == 0)) [
    | inl none_left ↦ rw (none_left, ends (eq_of_test _ _ none_left)) refl
    | inr some_left ↦ rw (some_left, tag_before fields 0 (ground arith)) refl
  ]
    where
      ends : count_fields fields ≡ 0 → ((field_at fields 0).tag == 0) ≡ true
      ends e = subst (λ (n : ℕ). ((field_at fields n).tag == 0) ≡ true) e (tag_end fields)

  pub next_inside :
      (i : ℕ) → suc i < count_fields fields → pb_field_iter_next (walk i) ≡ (walk (suc i), true)
  unfolding pb_field_iter_next walk
  next_inside i h =
      rw
        (
          ap (λ (f : Field). f.tag == 0) (current-walk i) ∙ tag_before fields i (omega arith),
          ap (λ (f : Field). f.tag == 0) (following i) ∙ tag_before fields (suc i) h,
        )
        refl

  pub next_last :
      (i : ℕ) → suc i ≡ count_fields fields → pb_field_iter_next (walk i) ≡ (walk 0, false)
  unfolding pb_field_iter_next
  next_last i h =
      rw
        (
          ap (λ (f : Field). f.tag == 0) (current-walk i) ∙ tag_before fields i (omega arith),
          ap (λ (f : Field). f.tag == 0) (following i) ∙ last_tag,
        )
        (ap (λ (x : Iter). (x, false)) (restart i))
    where
      last_tag : ((field_at fields (suc i)).tag == 0) ≡ true
      last_tag = rw h (tag_end fields)

  -- The iterator steps through the fields in order, and wraps at the last with the answer false.
  pub pb_field_iter_next-walk :
      (i : ℕ)
      → i < count_fields fields
      → pb_field_iter_next (walk i)
        ≡ (if suc i == count_fields fields then (walk 0, false) else (walk (suc i), true))
  pb_field_iter_next-walk i h = elim (Bool-cases (suc i == count_fields fields)) [
    | inl last ↦ rw last (next_last i (eq_of_test _ _ last))
    | inr more ↦ rw more (next_inside i (ne_of_test _ _ more h))
  ]
