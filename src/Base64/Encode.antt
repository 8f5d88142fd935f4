-- ===== src/Base64/Encode.antt =====
-- `f_b64_ntop` writes the base 64 of its bytes.
use teta.Prelude.{
  ℕ, ◌+◌, ◌*◌, ◌/◌, ◌%◌, ◌^◌, ◌≤◌, ◌<◌, ◌≡◌, refl, sym, ap, ◌∙◌, arith, false, ge→ltb, Option, none,
  some, List, [], ◌∷◌, ◌++◌, All, length, length-append, append-nil, append_assoc, IsByte, and_ones,
  u32, u64, ltb, inl, inr, Bool-cases, ltb→ge,
}
use teta.Base64.{
  base64_char, output0, output1, output2, output3, terminate, ntop_loop, f_b64_ntop, pad64,
}
use teta.Base64.Rfc.{symbol, base64, length-base64}
use teta.Base64.Alphabet.{below_64-IsDigit}

module _ (a b c : ℕ) (ha : IsByte a) (hb : IsByte b) (hc : IsByte c) where
  -- The digits are those of the number of 24 bits.
  pub output0-digit : output0 a ≡ (a * 2 ^ 16 + b * 2 ^ 8 + c) / 2 ^ 18
  output0-digit = omega arith

  pub output1-digit : output1 a b ≡ (a * 2 ^ 16 + b * 2 ^ 8 + c) / 2 ^ 12 % 64
  output1-digit = omega (arith, and_ones 2 a)

  pub output2-digit : output2 b c ≡ (a * 2 ^ 16 + b * 2 ^ 8 + c) / 2 ^ 6 % 64
  output2-digit = omega (arith, and_ones 4 b)

  pub output3-digit : output3 c ≡ (a * 2 ^ 16 + b * 2 ^ 8 + c) % 64
  output3-digit = omega (arith, and_ones 6 c)

pub char_of : (d e : ℕ) → d ≡ e → e < 64 → base64_char d ≡ symbol e
char_of d e h lt = ap base64_char h ∙ (below_64-IsDigit e lt).symbolic

quantum1 :
    (a : ℕ)
    → IsByte a
    → base64_char (output0 a) ∷ base64_char (output1 a 0) ∷ pad64 ∷ pad64 ∷ [] ≡ base64 (a ∷ [])
unfolding base64
quantum1 a ha =
    rw
      (
        char_of (output0 a) (a * 2 ^ 16 / 2 ^ 18) (omega arith) (omega arith),
        char_of (output1 a 0) (a * 2 ^ 16 / 2 ^ 12 % 64) (omega (arith, and_ones 2 a))
            (omega arith),
      )
      refl

quantum2 :
    (a b : ℕ)
    → IsByte a
    → IsByte b
    → base64_char (output0 a) ∷ base64_char (output1 a b) ∷ base64_char (output2 b 0) ∷ pad64 ∷ []
      ≡ base64 (a ∷ b ∷ [])
unfolding base64
quantum2 a b ha hb =
    rw
      (
        char_of (output0 a) ((a * 2 ^ 16 + b * 2 ^ 8) / 2 ^ 18) (omega arith) (omega arith),
        char_of (output1 a b) ((a * 2 ^ 16 + b * 2 ^ 8) / 2 ^ 12 % 64) (omega (arith, and_ones 2 a))
            (omega arith),
        char_of (output2 b 0) ((a * 2 ^ 16 + b * 2 ^ 8) / 2 ^ 6 % 64) (omega (arith, and_ones 4 b))
            (omega arith),
      )
      refl

quantum3 :
    (a b c : ℕ)
    → IsByte a
    → IsByte b
    → IsByte c
    → base64_char (output0 a)
        ∷ base64_char (output1 a b)
        ∷ base64_char (output2 b c)
        ∷ base64_char (output3 c)
        ∷ []
      ≡ base64 (a ∷ b ∷ c ∷ [])
unfolding base64
quantum3 a b c ha hb hc =
    rw
      (
        char_of (output0 a) _ (output0-digit a b c ha hb hc) (omega arith),
        char_of (output1 a b) _ (output1-digit a b c ha hb hc) (omega arith),
        char_of (output2 b c) _ (output2-digit a b c ha hb hc) (omega arith),
        char_of (output3 c) _ (output3-digit a b c ha hb hc) (omega arith),
      )
      refl

base64-append :
    (a b c : ℕ) (rest : List ℕ) → base64 (a ∷ b ∷ c ∷ rest) ≡ base64 (a ∷ b ∷ c ∷ []) ++ base64 rest
unfolding base64
base64-append a b c rest = refl

base64_nil : base64 [] ≡ []
unfolding base64
base64_nil = refl

-- The answer where there is room for `out` and '\0'.
abbrev stored : List ℕ → Option ℕ × List ℕ
stored out = (some (u32 (length out)), out ++ 0 ∷ [])

module _ (targsize : ℕ) (few : targsize + 4 < 2 ^ 64) where
  terminated : (out : List ℕ) → length out < targsize → terminate targsize out ≡ stored out
  unfolding terminate
  terminated out h = ground arith

  full : (out : List ℕ) → targsize ≤ length out → terminate targsize out ≡ (none, out)
  unfolding terminate
  full out h = ground arith

  room : (out : List ℕ) → length out + 4 ≤ targsize → ltb targsize (u64 (length out + 4)) ≡ false
  room out h = ge→ltb _ _ (omega arith)

  -- With room for the digits and '\0' behind `out`, the loop stores them.
  pub ntop_loop-base64 :
      (bs out : List ℕ)
      → All IsByte bs
      → length out + length (base64 bs) < targsize
      → ntop_loop bs targsize out ≡ stored (out ++ base64 bs)
  unfolding ntop_loop
  ntop_loop-base64 [] out h fits = rw (base64_nil, append-nil) (terminated out (omega arith))
  ntop_loop-base64 (a ∷ []) out (ha, h) fits =
      rw (room out (omega (arith, length-base64 (a ∷ []))), quantum1 a ha)
        (terminated _ (omega (arith, length-append out (base64 (a ∷ [])))))
  ntop_loop-base64 (a ∷ b ∷ []) out (ha, (hb, h)) fits =
      rw (room out (omega (arith, length-base64 (a ∷ b ∷ []))), quantum2 a b ha hb)
        (terminated _ (omega (arith, length-append out (base64 (a ∷ b ∷ [])))))
  ntop_loop-base64 (a ∷ b ∷ c ∷ rest) out (ha, (hb, (hc, h))) fits =
      rw (room out (omega (arith, length-base64 (a ∷ b ∷ c ∷ rest))), quantum3 a b c ha hb hc)
        (ntop_loop-base64 rest (out ++ base64 (a ∷ b ∷ c ∷ [])) h (
            omega (
              arith,
              length-append out (base64 (a ∷ b ∷ c ∷ [])),
              length-base64 rest,
              length-base64 (a ∷ b ∷ c ∷ []),
              length-base64 (a ∷ b ∷ c ∷ rest),
            ))
          ∙ ap stored
              (append_assoc out _ _ ∙ ap (λ xs. out ++ xs) (sym (base64-append a b c rest))))

  over :
      (out : List ℕ)
      → length out ≤ targsize
      → ltb targsize (u64 (length out + 4)) ≡ false
      → length out + 4 ≤ targsize
  over out small h = omega (arith, ltb→ge targsize (u64 (length out + 4)) h)

  -- What the loop leaves, whatever the bytes are: nothing behind `targsize`.
  abbrev IsRefused : Option ℕ × List ℕ → Type 0
  IsRefused r = (r.0 ≡ none) × (length r.1 ≤ targsize)

  four :
      (out q : List ℕ)
      → length q ≡ 4
      → targsize ≤ length out + 4
      → length out + 4 ≤ targsize
      → IsRefused (terminate targsize (out ++ q))
  four out q h wide inside =
      rw (full (out ++ q) (omega (arith, length-append out q)))
        (refl, omega (arith, length-append out q))

  pub ntop_loop-IsRefused :
      (bs out : List ℕ)
      → length out ≤ targsize
      → targsize ≤ length out + length (base64 bs)
      → IsRefused (ntop_loop bs targsize out)
  unfolding ntop_loop
  ntop_loop-IsRefused [] out small wide =
      rw (full out (omega (arith, length-base64 []))) (refl, small)
  ntop_loop-IsRefused (a ∷ []) out small wide =
      elim (Bool-cases (ltb targsize (u64 (length out + 4)))) [
        | inl e ↦ rw e (refl, small)
        | inr e ↦ rw e (four out _ refl (omega (arith, length-base64 (a ∷ []))) (over out small e))
      ]
  ntop_loop-IsRefused (a ∷ b ∷ []) out small wide =
      elim (Bool-cases (ltb targsize (u64 (length out + 4)))) [
        | inl e ↦ rw e (refl, small)
        | inr e ↦
            rw e (four out _ refl (omega (arith, length-base64 (a ∷ b ∷ []))) (over out small e))
      ]
  ntop_loop-IsRefused (a ∷ b ∷ c ∷ rest) out small wide =
      elim (Bool-cases (ltb targsize (u64 (length out + 4)))) [
        | inl e ↦ rw e (refl, small)
        | inr e ↦ rw e (
            ntop_loop-IsRefused rest _
              (omega (
                arith,
                over out small e,
                length-append out (
                    base64_char (output0 a)
                    ∷ base64_char (output1 a b)
                    ∷ base64_char (output2 b c)
                    ∷ base64_char (output3 c)
                    ∷ []),
              ))
              (omega (
                arith,
                over out small e,
                length-append out (
                    base64_char (output0 a)
                    ∷ base64_char (output1 a b)
                    ∷ base64_char (output2 b c)
                    ∷ base64_char (output3 c)
                    ∷ []),
                length-base64 rest,
                length-base64 (a ∷ b ∷ c ∷ rest),
              )))
      ]

  -- Where `targsize` is more than the digits, `f_b64_ntop` stores the base 64 of its bytes and '\0', and
  -- returns the number of the digits as an int; `targsize` is below 2 ^ 64 - 4.
  pub f_b64_ntop-base64 :
      (bs : List ℕ)
      → All IsByte bs
      → length (base64 bs) < targsize
      → f_b64_ntop bs targsize ≡ (some (u32 (length (base64 bs))), base64 bs ++ 0 ∷ [])
  unfolding f_b64_ntop
  f_b64_ntop-base64 bs h fits = ntop_loop-base64 bs [] h (omega arith)

  -- Where `targsize` is no more than the digits, `f_b64_ntop` returns -1 and has stored at most
  -- `targsize` bytes, whatever the bytes are.
  pub f_b64_ntop-refuses :
      (bs : List ℕ)
      → targsize ≤ length (base64 bs)
      → ((f_b64_ntop bs targsize).0 ≡ none) × (length (f_b64_ntop bs targsize).1 ≤ targsize)
  unfolding f_b64_ntop
  f_b64_ntop-refuses bs wide = ntop_loop-IsRefused bs [] (omega arith) (omega arith)
