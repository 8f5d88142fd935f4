-- ===== src/Nanopb/Encoder/Wire/Grows.antt =====
-- More fuel keeps what a description says: the parts that do not look at values.
use teta.Prelude.{
  ℕ, zero, suc, ◌≡◌, refl, arith, true, false, not, Bool, ◌&&◌, Option, none, some, List, length,
  ◌==◌, inl, inr, Bool-cases,
}
use mathlib.Core.Option
use mathlib.Core.Option.{some-injective, none-ne-some}
use mathlib.Core.Path.{subst⁻¹}
use teta.Nanopb.Ostream.Gives.{◌+++◌}
use teta.Nanopb.Memory.{Memory, offset}
use teta.Nanopb.Fields.{
  Field, Iter, current, pb_field_iter_begin, pb_field_iter_next, ltype, htype, atype,
  ltype_submessage, ltype_bytes, ltype_string, ltype_fixed_length_bytes, atype_static,
  atype_pointer, htype_required, htype_optional, htype_repeated, htype_oneof,
}
use teta.Nanopb.Encoder.Program.{Program}
use teta.Nanopb.Encoder.Defaults.{
  and_also, default_loop, default_value, pb_check_proto3_default_value,
}
use teta.Nanopb.Encoder.Fields.{implicit_has, has_field}
use teta.Nanopb.Encoder.Wire.{in_a_row, when}

-- What `r` says, `s` says too.
pub record Grows {A : Type 0} (r s : Option A) : Type 0 where
  pub keeps : (a : A) → r ≡ some a → s ≡ some a

pub Grows-refl : {A : Type 0} {r : Option A} → Grows r r
Grows-refl = record { keeps = λ a h. h }

pub Grows-none : {A : Type 0} {s : Option A} → Grows none s
Grows-none = record { keeps = λ a h. absurd (none-ne-some _ h) }

pub Grows-map :
    {A B : Type 0} (f : A → B) (r s : Option A)
    → Grows r s
    → Grows (Option.map f r) (Option.map f s)
Grows-map f none s g = Grows-none
Grows-map f (some a) s g =
    subst⁻¹ (λ x. Grows (some (f a)) (Option.map f x)) (g.keeps a refl) Grows-refl

pub Grows-joined :
    (r r' s s' : Option (List ℕ)) → Grows r r' → Grows s s' → Grows (r +++ s) (r' +++ s')
Grows-joined none r' s s' g h = Grows-none
Grows-joined (some bs) r' none s' g h = Grows-none
Grows-joined (some bs) r' (some cs) s' g h = rw (g.keeps bs refl, h.keeps cs refl) Grows-refl

Grows-and :
    (r r' s s' : Option Bool) → Grows r r' → Grows s s' → Grows (and_also r s) (and_also r' s')
Grows-and none r' s s' g h = Grows-none
Grows-and (some false) r' s s' g h = rw (g.keeps false refl) Grows-refl
Grows-and (some true) r' s s' g h = rw (g.keeps true refl) h

pub Grows-when :
    (b b' : Option Bool) (r r' : Option (List ℕ))
    → Grows b b'
    → Grows r r'
    → Grows (when b r) (when b' r')
Grows-when none b' r r' g h = Grows-none
Grows-when (some true) b' r r' g h = rw (g.keeps true refl) h
Grows-when (some false) b' r r' g h = rw (g.keeps false refl) Grows-refl

pub eq_of_test : (a b : ℕ) → (a == b) ≡ true → a ≡ b
eq_of_test a b h = ground arith

pub in_a_row-Grows :
    (step count p : ℕ) (f g : ℕ → Option (List ℕ))
    → ((q : ℕ) → Grows (f q) (g q))
    → Grows (in_a_row step count f p) (in_a_row step count g p)
unfolding in_a_row
in_a_row-Grows step zero p f g h = Grows-refl
in_a_row-Grows step (suc count) p f g h =
    Grows-joined (f p) (g p) _ _ (h p) (in_a_row-Grows step count (offset p step) f g h)

module _ (mem : Memory) (program : Program) where
  default_loop-Grows :
      (rounds : ℕ) (f g : Field → ℕ → Option Bool) (iter : Iter)
      → ((field : Field) (p : ℕ) → Grows (f field p) (g field p))
      → Grows (default_loop rounds f iter) (default_loop rounds g iter)
  unfolding default_loop
  default_loop-Grows zero f g iter h = Grows-none
  default_loop-Grows (suc rounds) f g iter h =
      Grows-and (f (current iter) iter.p_data) (g (current iter) iter.p_data) _ _
        (h (current iter) iter.p_data)
        (elim (Bool-cases (pb_field_iter_next iter).1) [
          | inl e ↦ rw e (default_loop-Grows rounds f g (pb_field_iter_next iter).0 h)
          | inr e ↦ rw e Grows-refl
        ])

  default_value-Grows :
      (f g : Field → ℕ → Option Bool) (field : Field) (p : ℕ)
      → ((field : Field) (p : ℕ) → Grows (f field p) (g field p))
      → Grows (default_value mem program f field p) (default_value mem program g field p)
  unfolding default_value
  default_value-Grows f g field p h = elim (Bool-cases (htype field == htype_required)) [
    | inl e ↦ rw e (Grows-refl)
    | inr e ↦ rw e (elim (Bool-cases (htype field == htype_repeated)) [
      | inl e ↦ rw e (Grows-refl)
      | inr e ↦ rw e (elim (Bool-cases (htype field == htype_oneof)) [
        | inl e ↦ rw e (Grows-refl)
        | inr e ↦
            rw e
              (elim (Bool-cases (htype field == htype_optional && not (field.size_offset == 0))) [
                | inl e ↦ rw e (Grows-refl)
                | inr e ↦
                    rw e
                      (elim (Bool-cases
                        (atype field == atype_static && ltype field == ltype_bytes)) [
                          | inl e ↦ rw e (Grows-refl)
                          | inr e ↦
                              rw e
                                (elim (Bool-cases
                                  (atype field == atype_static && ltype field == ltype_string)) [
                                    | inl e ↦ rw e (Grows-refl)
                                    | inr e ↦
                                        rw e
                                          (elim (Bool-cases (
                                            atype field == atype_static
                                            && ltype field == ltype_fixed_length_bytes)) [
                                              | inl e ↦ rw e (Grows-refl)
                                              | inr e ↦
                                                  rw e
                                                    (elim (Bool-cases (
                                                      atype field == atype_static
                                                      && ltype field == ltype_submessage)) [
                                                        | inl e ↦
                                                            rw e
                                                            (elim (Bool-cases
                                                            (pb_field_iter_begin
                                                            (program.descriptor field.ptr) p).1) [
                                                              | inl b ↦ rw b (
                                                                default_loop-Grows
                                                                (length
                                                                (program.descriptor field.ptr))
                                                                f g
                                                                (pb_field_iter_begin
                                                                (program.descriptor field.ptr) p).0
                                                                h)
                                                              | inr b ↦ rw b Grows-refl
                                                            ])
                                                        | inr e ↦ rw e (Grows-refl)
                                                      ])
                                            ])
                                  ])
                        ])
              ])
      ])
    ])
  ]

  check-Grows :
      (depth : ℕ) (field : Field) (p : ℕ)
      → Grows
          (pb_check_proto3_default_value mem program depth field p)
          (pb_check_proto3_default_value mem program (suc depth) field p)
  unfolding pb_check_proto3_default_value
  check-Grows zero field p = Grows-none
  check-Grows (suc depth) field p = default_value-Grows _ _ field p (check-Grows depth)

  pub has_field-Grows :
      (depth : ℕ) (field : Field) (p : ℕ)
      → Grows (has_field mem program depth field p) (has_field mem program (suc depth) field p)
  unfolding has_field implicit_has
  has_field-Grows depth field p = elim (Bool-cases (field.size_offset == 0)) [
    | inl e ↦ rw e (elim (Bool-cases (atype field == atype_pointer)) [
      | inl f ↦ rw f Grows-refl
      | inr f ↦ rw f (elim (Bool-cases (htype field == htype_optional)) [
        | inl g ↦ rw g (Grows-map not _ _ (check-Grows depth field p))
        | inr g ↦ rw g Grows-refl
      ])
    ])
    | inr e ↦ rw e Grows-refl
  ]
