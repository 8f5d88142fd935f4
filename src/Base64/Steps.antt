-- ===== src/Base64/Steps.antt =====
-- The single digits that `f_b64_pton` reads, behind bytes that stand in the target already.
use teta.Prelude.{
  ℕ, suc, ◌+◌, ◌^◌, ◌<◌, ◌≡◌, refl, sym, ap, ◌∙◌, arith, true, false, Option, none, some, List, [],
  ◌∷◌, ◌++◌, length, bit_and, bit_or, u8, u32, ◌<<<◌, ◌>>>◌, leb,
}
use mathlib.Core.Option
use mathlib.Core.Path.{ap₂}
use teta.Base64.{
  at, put, State, state0, state1, state2, state3, Pton, or_into, next_state, write_digit,
  last_index, next_tarindex, digit_step, after_digit, pton_loop,
}
use teta.Base64.Rfc.{symbol}
use teta.Base64.Alphabet.{below_64-IsDigit}

put-append : (w xs : List ℕ) (k v : ℕ) → put (w ++ xs) (length w + k) v ≡ w ++ put xs k v
put-append [] xs k v = ap (λ (i : ℕ). put xs i v) (omega arith)
put-append (x ∷ w) xs k v =
    ap (λ (i : ℕ). put (x ∷ w ++ xs) i v) {y = suc (length w + k)} (omega arith)
    ∙ ap (λ ys. x ∷ ys) (put-append w xs k v)

pub at-append : (w xs : List ℕ) (k : ℕ) → at (w ++ xs) (length w + k) ≡ at xs k
at-append [] xs k = ap (at xs) (omega arith)
at-append (x ∷ w) xs k =
    ap (at (x ∷ w ++ xs)) {y = suc (length w + k)} (omega arith) ∙ at-append w xs k

or_into-append :
    (w xs : List ℕ) (k v : ℕ) → or_into (length w + k) v (w ++ xs) ≡ w ++ or_into k v xs
or_into-append w xs k v =
    ap (λ (b : ℕ). put (w ++ xs) (length w + k) (u8 (bit_or b v))) (at-append w xs k)
    ∙ put-append w xs k (u8 (bit_or (at xs k) v))

index_after : (n k : ℕ) → n + k + 1 < 2 ^ 32 → u32 (n + k + 1) ≡ n + u32 (k + 1)
index_after n k h = omega arith

-- The writes of a digit go behind `w`.
write_digit-append :
    (st : State) (w xs : List ℕ) (k d : ℕ)
    → length w + k + 1 < 2 ^ 32
    → write_digit st (length w + k) d (w ++ xs) ≡ w ++ write_digit st k d xs
write_digit-append state0 w xs k d h = put-append w xs k (u8 (d <<< 2))
write_digit-append state1 w xs k d h =
    ap₂ (λ (ys : List ℕ) (i : ℕ). put ys i (u8 (bit_and d 0x0f <<< 4)))
      (or_into-append w xs k (d >>> 4)) (index_after (length w) k h)
    ∙ put-append w (or_into k (d >>> 4) xs) (u32 (k + 1)) (u8 (bit_and d 0x0f <<< 4))
write_digit-append state2 w xs k d h =
    ap₂ (λ (ys : List ℕ) (i : ℕ). put ys i (u8 (bit_and d 0x03 <<< 6)))
      (or_into-append w xs k (d >>> 2)) (index_after (length w) k h)
    ∙ put-append w (or_into k (d >>> 2) xs) (u32 (k + 1)) (u8 (bit_and d 0x03 <<< 6))
write_digit-append state3 w xs k d h = or_into-append w xs k d

-- The variables in state `st`, with `k` bytes behind `w` and the block `w ++ xs`, if there is one.
abbrev pub seated : State → List ℕ → ℕ → Option (List ℕ) → Pton
seated st w k o = record {
  state = st;
  tarindex = length w + k;
  target = Option.map (λ xs. w ++ xs) o;
}

next_tarindex-seated :
    (st : State) (n k : ℕ) → n + k + 1 < 2 ^ 32 → next_tarindex st (n + k) ≡ n + next_tarindex st k
next_tarindex-seated state0 n k h = refl
next_tarindex-seated state1 n k h = index_after n k h
next_tarindex-seated state2 n k h = index_after n k h
next_tarindex-seated state3 n k h = index_after n k h

pub digit_step-seated :
    (targsize : ℕ) (st : State) (w : List ℕ) (k d : ℕ) (o : Option (List ℕ))
    → length w + k + 1 < 2 ^ 32
    → last_index st (length w + k) < targsize
    → digit_step targsize d (seated st w k o)
      ≡ (true, seated (next_state st) w (next_tarindex st k) (Option.map (write_digit st k d) o))
unfolding digit_step
digit_step-seated targsize st w k d none h fits =
    ap (λ (i : ℕ). (true, record { state = next_state st; tarindex = i; target = none }))
      (next_tarindex-seated st (length w) k h)
digit_step-seated targsize st w k d (some xs) h fits = rw inside (
    ap₂
      (λ (i : ℕ) (ys : List ℕ).
        (true, record { state = next_state st; tarindex = i; target = some ys }))
      (next_tarindex-seated st (length w) k h) (write_digit-append st w xs k d h))
  where
    inside : leb targsize (last_index st (length w + k)) ≡ false
    inside = ground arith

-- A digit of the alphabet is looked up and handled.
pub pton_loop-digit :
    (targsize d : ℕ) (src : List ℕ) (s : Pton)
    → d < 64
    → pton_loop (symbol d ∷ src) targsize s
      ≡ after_digit (digit_step targsize d s) (pton_loop src targsize)
unfolding pton_loop
pton_loop-digit targsize d src s h =
    let digit = below_64-IsDigit d h in
    rw (sym digit.symbolic, digit.no_end, digit.no_space, digit.no_pad, digit.found) refl
