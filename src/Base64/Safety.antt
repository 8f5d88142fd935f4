-- ===== src/Base64/Safety.antt =====
-- `f_b64_pton` stays inside its target.
use teta.Prelude.{
  ℕ, zero, suc, ◌+◌, ◌^◌, ◌≤◌, ◌<◌, ◌≡◌, refl, ap, ◌∙◌, arith, Bool, true, false, Option, none,
  some, List, [], ◌∷◌, length, drop, u32, ◌>>>◌, leb, leb→gt, ◌==◌, inl, inr, Bool-cases,
}
use mathlib.Core.Option
use teta.Base64.{
  base64_chars, strchr, isspace, pad64, put, State, state0, state1, state2, state3, Pton, or_into,
  write_digit, last_index, next_tarindex, digit_step, Ending, at_end, at_pad, refused, after_digit,
  after_strchr, pton_loop, after_loop, f_b64_pton, after_last_pad, second_pad, pad_in_state,
  end_in_state, skip_spaces, only_spaces, has_extra_bits,
}

put-spares : (n i v : ℕ) (xs : List ℕ) → i < n → drop n (put xs i v) ≡ drop n xs
put-spares zero i v xs h = absurd (omega arith)
put-spares (suc n) i v [] h = refl
put-spares (suc n) zero v (x ∷ xs) h = refl
put-spares (suc n) (suc i) v (x ∷ xs) h = put-spares n i v xs (omega arith)

write_digit-spares :
    (n : ℕ) (st : State) (i d : ℕ) (xs : List ℕ)
    → i + 1 < 2 ^ 32
    → last_index st i < n
    → drop n (write_digit st i d xs) ≡ drop n xs
write_digit-spares n state0 i d xs h inside = put-spares n i _ xs inside
write_digit-spares n state1 i d xs h inside =
    put-spares n (u32 (i + 1)) _ (or_into i (d >>> 4) xs) inside ∙ put-spares n i _ xs (omega arith)
write_digit-spares n state2 i d xs h inside =
    put-spares n (u32 (i + 1)) _ (or_into i (d >>> 2) xs) inside ∙ put-spares n i _ xs (omega arith)
write_digit-spares n state3 i d xs h inside = put-spares n i _ xs inside

next_tarindex-bound : (st : State) (i : ℕ) → i + 1 < 2 ^ 32 → next_tarindex st i ≤ i + 1
next_tarindex-bound state0 i h = omega arith
next_tarindex-bound state1 i h = omega arith
next_tarindex-bound state2 i h = omega arith
next_tarindex-bound state3 i h = omega arith

module _ (targsize : ℕ) where
  -- The part of the block that lies behind the target.
  abbrev pub outside : Option (List ℕ) → Option (List ℕ)
  outside t = Option.map (drop targsize) t

  abbrev Spares : Option (List ℕ) → Bool × Pton → ℕ → Type 0
  Spares before r i = (outside r.1.target ≡ outside before) × (r.1.tarindex ≤ i + 1)

  digit_step_at :
      (d : ℕ) (st : State) (i : ℕ) (t : Option (List ℕ))
      → i + 1 < 2 ^ 32
      → Spares t (digit_step targsize d (record { state = st; tarindex = i; target = t })) i
  unfolding digit_step
  digit_step_at d st i none h = (refl, next_tarindex-bound st i h)
  digit_step_at d st i (some xs) h = elim (Bool-cases (leb targsize (last_index st i))) [
    | inl e ↦ rw e (refl, omega arith)
    | inr e ↦ rw e (
      ap (λ (ys : List ℕ). some ys)
          (write_digit-spares targsize st i d xs h (leb→gt targsize (last_index st i) e)),
      next_tarindex-bound st i h,
    )
  ]

  digit_step-Spares :
      (d : ℕ) (s : Pton)
      → s.tarindex + 1 < 2 ^ 32
      → Spares s.target (digit_step targsize d s) s.tarindex
  digit_step-Spares d s h = digit_step_at d s.state s.tarindex s.target h

  abbrev left_by : Ending → Option (List ℕ)
  left_by (at_end s) = s.target
  left_by (at_pad src s) = s.target
  left_by (refused s) = s.target

  after_step :
      (before : Option (List ℕ)) (r : Bool × Pton) (i : ℕ) (loop : Pton → Ending)
      → Spares before r i
      → ((s : Pton) → s.tarindex ≤ i + 1 → outside (left_by (loop s)) ≡ outside s.target)
      → outside (left_by (after_digit r loop)) ≡ outside before
  after_step before (true, s) i loop (same, bound) rest = rest s bound ∙ same
  after_step before (false, s) i loop (same, bound) rest = same

  after_lookup :
      (found : Option ℕ) (s : Pton) (loop : Pton → Ending)
      → s.tarindex + 1 < 2 ^ 32
      → ((s' : Pton)
          → s'.tarindex ≤ s.tarindex + 1
          → outside (left_by (loop s')) ≡ outside s'.target)
      → outside (left_by (after_strchr found targsize s loop)) ≡ outside s.target
  after_lookup none s loop h rest = refl
  after_lookup (some d) s loop h rest =
      after_step s.target (digit_step targsize d s) s.tarindex loop (digit_step-Spares d s h) rest

  pton_loop-spares :
      (src : List ℕ) (s : Pton)
      → s.tarindex + length src < 2 ^ 32
      → outside (left_by (pton_loop src targsize s)) ≡ outside s.target
  unfolding pton_loop
  pton_loop-spares [] s h = refl
  pton_loop-spares (ch ∷ src) s h = elim (Bool-cases (ch == 0)) [
    | inl e ↦ rw e refl
    | inr e ↦ rw e (elim (Bool-cases (isspace ch)) [
      | inl f ↦ rw f (pton_loop-spares src s (omega arith))
      | inr f ↦ rw f (elim (Bool-cases (ch == pad64)) [
        | inl g ↦ rw g refl
        | inr g ↦ rw g (
            after_lookup (strchr base64_chars ch) s (pton_loop src targsize) (omega arith)
              (λ s' b. pton_loop-spares src s' (omega arith)))
      ])
    ])
  ]

  last_pad-target : (src : List ℕ) (s : Pton) → (after_last_pad src s).1 ≡ s.target
  unfolding after_last_pad
  last_pad-target src s = elim (Bool-cases (only_spaces src)) [
    | inl e ↦ rw e (elim (Bool-cases (has_extra_bits s.tarindex s.target)) [
      | inl f ↦ rw f refl
      | inr f ↦ rw f refl
    ])
    | inr e ↦ rw e refl
  ]

  second_pad-target : (src : List ℕ) (s : Pton) → (second_pad src s).1 ≡ s.target
  second_pad-target [] s = refl
  second_pad-target (ch ∷ src) s = elim (Bool-cases (ch == pad64)) [
    | inl e ↦ rw e (last_pad-target src s)
    | inr e ↦ rw e refl
  ]

  pad-target : (st : State) (src : List ℕ) (s : Pton) → (pad_in_state st src s).1 ≡ s.target
  pad-target state0 src s = refl
  pad-target state1 src s = refl
  pad-target state2 src s = second_pad-target (skip_spaces src) s
  pad-target state3 src s = last_pad-target src s

  end-target : (st : State) (s : Pton) → (end_in_state st s).1 ≡ s.target
  end-target state0 s = refl
  end-target state1 s = refl
  end-target state2 s = refl
  end-target state3 s = refl

  after_loop-target : (e : Ending) → (after_loop e).1 ≡ left_by e
  after_loop-target (at_end s) = end-target s.state s
  after_loop-target (at_pad src s) = pad-target s.state src s
  after_loop-target (refused s) = refl

-- Whatever string of fewer than 2 ^ 32 chars is read, valid or not, `f_b64_pton` leaves every byte of
-- the block from `targsize` on as it was.
pub f_b64_pton-spares :
    (src block : List ℕ) (targsize : ℕ)
    → length src < 2 ^ 32
    → outside targsize (f_b64_pton src (some block) targsize).1 ≡ some (drop targsize block)
unfolding f_b64_pton
f_b64_pton-spares src block targsize h =
    ap (outside targsize) (
      after_loop-target targsize
        (pton_loop src targsize (record { state = state0; tarindex = 0; target = some block })))
    ∙ pton_loop-spares targsize src (record { state = state0; tarindex = 0; target = some block })
        (omega arith)
