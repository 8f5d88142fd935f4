-- ===== src/Base64/RoundTrip.antt =====
-- What `f_b64_ntop` has stored, `f_b64_pton` reads back.
use teta.Prelude.{
  ℕ, ◌+◌, ◌*◌, ◌/◌, ◌%◌, ◌^◌, ◌≤◌, ◌<◌, ◌≡◌, refl, sym, ap, ◌∙◌, arith, Option, none, some, List,
  [], ◌∷◌, ◌++◌, append_assoc, append-nil, All, length, length-append, drop, length-drop, IsByte,
}
use mathlib.Core.Option
use mathlib.Core.Path.{ap₂, subst, subst⁻¹}
use teta.Base64.{
  at, State, state0, state2, state3, Pton, at_end, at_pad, after_loop, pton_loop, f_b64_ntop,
  f_b64_pton, isspace, only_spaces, skip_spaces, after_last_pad,
}
use teta.Base64.Rfc.{base64}
use teta.Base64.Encode.{f_b64_ntop-base64}
use teta.Base64.Steps.{seated, at-append}
use teta.Base64.Decode.{
  Holds, two_written, three_written, three_bytes, two_bytes, one_byte, scan2, scan3, scan4,
}

-- The answer is the number of the bytes `all`, which stand at the front of the block, if there is one.
abbrev pub IsDecoded : Option (List ℕ) → List ℕ → Option ℕ × Option (List ℕ) → Type 0
IsDecoded none all r = r ≡ (some (length all), none)
IsDecoded (some block) all r = (rest : List ℕ) × (r ≡ (some (length all), some (all ++ rest)))

at_string_end : (targsize : ℕ) (s : Pton) → pton_loop (0 ∷ []) targsize s ≡ at_end s
unfolding pton_loop
at_string_end targsize s = refl

at_first_pad :
    (targsize : ℕ) (src : List ℕ) (s : Pton) → pton_loop (61 ∷ src) targsize s ≡ at_pad src s
unfolding pton_loop isspace
at_first_pad targsize src s = refl

later :
    (n : ℕ) (o : Option (List ℕ)) (all : List ℕ) (r : Option ℕ × Option (List ℕ))
    → IsDecoded (Option.map (drop n) o) all r
    → IsDecoded o all r
later n none all r h = h
later n (some xs) all r h = h

one_pad :
    (st : State) (w bs : List ℕ) (k : ℕ) (o : Option (List ℕ))
    → length bs ≡ k
    → IsDecoded o
        (w ++ bs)
        (after_last_pad (0 ∷ []) (seated st w k (Option.map (λ r. bs ++ 0 ∷ r) o)))
unfolding after_last_pad only_spaces
one_pad st w bs k none h = ap (λ (n : ℕ). (some n, none)) (omega (arith, length-append w bs))
one_pad st w bs k (some xs) h = rw zero_there (
  0 ∷ xs,
  ap₂ (λ (n : ℕ) (block : List ℕ). (some n, some block)) (omega (arith, length-append w bs))
      (sym (append_assoc w bs (0 ∷ xs))),
)
  where
    zero_there : at (w ++ (bs ++ 0 ∷ xs)) (length w + k) ≡ 0
    zero_there =
        at-append w (bs ++ 0 ∷ xs) k
        ∙ ap (at (bs ++ 0 ∷ xs)) {y = length bs + 0} (omega arith)
        ∙ at-append bs (0 ∷ xs) 0

two_pads :
    (w bs : List ℕ) (k : ℕ) (o : Option (List ℕ))
    → length bs ≡ k
    → IsDecoded o
        (w ++ bs)
        (after_loop (at_pad (61 ∷ 0 ∷ []) (seated state2 w k (Option.map (λ r. bs ++ 0 ∷ r) o))))
unfolding skip_spaces isspace
two_pads w bs k o h = one_pad state2 w bs k o h

no_pads :
    (w : List ℕ) (o : Option (List ℕ))
    → IsDecoded o (w ++ []) (after_loop (at_end (seated state0 w 0 o)))
no_pads w none = ap (λ (n : ℕ). (some n, none)) (omega (arith, length-append w []))
no_pads w (some xs) = (
  xs,
  ap₂ (λ (n : ℕ) (v : List ℕ). (some n, some (v ++ xs))) (omega (arith, length-append w []))
      (sym (append-nil w)),
)

drop-Holds : (n k : ℕ) (o : Option (List ℕ)) → Holds (n + k) o → Holds k (Option.map (drop n) o)
drop-Holds n k none h = tt
drop-Holds n k (some xs) h = omega (arith, length-drop n xs)

Holds-less : (n k : ℕ) (o : Option (List ℕ)) → n ≤ k → Holds k o → Holds n o
Holds-less n k none le h = tt
Holds-less n k (some xs) le h = omega arith

module _ (targsize : ℕ) where
  tail : List ℕ → List ℕ → Option (List ℕ) → Option ℕ × Option (List ℕ)
  tail src w o = after_loop (pton_loop src targsize (seated state0 w 0 o))

  last_one :
      (a : ℕ) (w : List ℕ) (o : Option (List ℕ))
      → IsByte a
      → length w + 1 < targsize
      → length w + 5 < 2 ^ 32
      → Holds 2 o
      → IsDecoded o (w ++ a ∷ []) (tail (base64 (a ∷ []) ++ 0 ∷ []) w o)
  unfolding base64 tail
  last_one a w o h fits small room =
      let e0 = a * 2 ^ 16 / 2 ^ 18 in
      let e1 = a * 2 ^ 16 / 2 ^ 12 % 64 in
      subst⁻¹ (λ l. IsDecoded o (w ++ a ∷ []) (after_loop l))
        (scan2 targsize w o e0 e1 (omega arith) (omega arith) (omega arith) fits (61 ∷ 61 ∷ 0 ∷ [])
          ∙ at_first_pad targsize (61 ∷ 0 ∷ []) (seated state2 w 1 (two_written o e0 e1))
          ∙ ap (λ t. at_pad (61 ∷ 0 ∷ []) (seated state2 w 1 t))
              (one_byte a 0 0 e0 e1 0 0 (omega arith) (omega arith) (omega arith) (omega arith) w
                (omega arith) (omega arith) (omega arith) refl o room))
        (later 2 o _ _ (two_pads w (a ∷ []) 1 (Option.map (drop 2) o) refl))

  last_two :
      (a b : ℕ) (w : List ℕ) (o : Option (List ℕ))
      → IsByte a
      → IsByte b
      → length w + 2 < targsize
      → length w + 6 < 2 ^ 32
      → Holds 3 o
      → IsDecoded o (w ++ a ∷ b ∷ []) (tail (base64 (a ∷ b ∷ []) ++ 0 ∷ []) w o)
  unfolding base64 tail
  last_two a b w o ha hb fits small room =
      let e0 = (a * 2 ^ 16 + b * 2 ^ 8) / 2 ^ 18 in
      let e1 = (a * 2 ^ 16 + b * 2 ^ 8) / 2 ^ 12 % 64 in
      let e2 = (a * 2 ^ 16 + b * 2 ^ 8) / 2 ^ 6 % 64 in
      subst⁻¹ (λ l. IsDecoded o (w ++ a ∷ b ∷ []) (after_loop l))
        (scan3 targsize w o e0 e1 (omega arith) (omega arith) (omega arith) (omega arith) e2
            (omega arith) fits (61 ∷ 0 ∷ [])
          ∙ at_first_pad targsize (0 ∷ []) (seated state3 w 2 (three_written o e0 e1 e2))
          ∙ ap (λ t. at_pad (0 ∷ []) (seated state3 w 2 t))
              (two_bytes a b 0 e0 e1 e2 0 (omega arith) (omega arith) (omega arith) (omega arith) w
                (omega arith) (omega arith) (omega arith) refl o room))
        (later 3 o _ _ (one_pad state3 w (a ∷ b ∷ []) 2 (Option.map (drop 3) o) refl))

  whole :
      (a b c : ℕ) (rest w : List ℕ) (o : Option (List ℕ))
      → IsByte a
      → IsByte b
      → IsByte c
      → length w + 2 < targsize
      → length w + 6 < 2 ^ 32
      → Holds 3 o
      → tail (base64 (a ∷ b ∷ c ∷ rest) ++ 0 ∷ []) w o
        ≡ tail (base64 rest ++ 0 ∷ []) (w ++ a ∷ b ∷ c ∷ []) (Option.map (drop 3) o)
  unfolding base64 tail
  whole a b c rest w o ha hb hc fits small room =
      let n = a * 2 ^ 16 + b * 2 ^ 8 + c in
      ap after_loop (
        scan4 targsize w o (n / 2 ^ 18) (n / 2 ^ 12 % 64) (omega arith) (omega arith) (omega arith)
          (omega arith) (n / 2 ^ 6 % 64) (omega arith) fits (n % 64) (omega arith)
          (base64 rest ++ 0 ∷ [])
        ∙ ap (pton_loop (base64 rest ++ 0 ∷ []) targsize) (
            three_bytes a b c (n / 2 ^ 18) (n / 2 ^ 12 % 64) (n / 2 ^ 6 % 64) (n % 64) (omega arith)
              (omega arith) (omega arith) (omega arith) w (omega arith) (omega arith) (omega arith)
              o room))

  pton_loop-base64 :
      (bs w : List ℕ) (o : Option (List ℕ))
      → All IsByte bs
      → length w + length bs < targsize
      → length w + length bs + 4 < 2 ^ 32
      → Holds (length bs + 1) o
      → IsDecoded o (w ++ bs) (tail (base64 bs ++ 0 ∷ []) w o)
  pton_loop-base64 [] w o h fits small room =
      unfold base64 tail in
      subst⁻¹ (λ l. IsDecoded o (w ++ []) (after_loop l))
        (at_string_end targsize (seated state0 w 0 o)) (no_pads w o)
  pton_loop-base64 (a ∷ []) w o (ha, h) fits small room = last_one a w o ha fits (omega arith) room
  pton_loop-base64 (a ∷ b ∷ []) w o (ha, (hb, h)) fits small room =
      last_two a b w o ha hb fits (omega arith) room
  pton_loop-base64 (a ∷ b ∷ c ∷ rest) w o (ha, (hb, (hc, h))) fits small room =
      subst⁻¹ (IsDecoded o (w ++ a ∷ b ∷ c ∷ rest))
        (whole a b c rest w o ha hb hc (omega arith) (omega arith)
          (Holds-less 3 _ o (omega arith) room))
        (later 3 o _ _ (
          subst
            (λ all.
              IsDecoded (Option.map (drop 3) o) all
                (tail (base64 rest ++ 0 ∷ []) (w ++ a ∷ b ∷ c ∷ []) (Option.map (drop 3) o)))
            (append_assoc w (a ∷ b ∷ c ∷ []) rest)
            (pton_loop-base64 rest (w ++ a ∷ b ∷ c ∷ []) (Option.map (drop 3) o) h
              (omega (arith, length-append w (a ∷ b ∷ c ∷ [])))
              (omega (arith, length-append w (a ∷ b ∷ c ∷ [])))
              (drop-Holds 3 (length rest + 1) o (Holds-less _ _ o (omega arith) room)))))

-- `f_b64_pton` reads back what `f_b64_ntop` has stored. It returns the number of the bytes, with or
-- without a target, and a target of more than `length bs` bytes holds them at its front. The bytes are
-- fewer than 2 ^ 32 - 4, and `f_b64_ntop` was given room for the digits and '\0'.
pub f_b64_round_trip :
    (bs block : List ℕ) (outsize targsize : ℕ)
    → All IsByte bs
    → length (base64 bs) < outsize
    → outsize + 4 < 2 ^ 64
    → length bs < targsize
    → targsize ≤ length block
    → length bs + 4 < 2 ^ 32
    → (f_b64_pton (f_b64_ntop bs outsize).1 none targsize ≡ (some (length bs), none))
      × ((rest : List ℕ) × (f_b64_pton (f_b64_ntop bs outsize).1 (some block) targsize
            ≡ (some (length bs), some (bs ++ rest))))
unfolding f_b64_pton
f_b64_round_trip bs block outsize targsize h room wide fits inside small =
    rw (f_b64_ntop-base64 outsize wide bs h room) (
      unfold tail in
      (
        pton_loop-base64 targsize bs [] none h (omega arith) (omega arith) tt,
        pton_loop-base64 targsize bs [] (some block) h (omega arith) (omega arith) (omega arith),
      ))
