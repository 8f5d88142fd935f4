-- ===== src/Nanopb/Decoder/Required/Seen.antt =====
-- The test of `fields_seen` at the end of `pb_decode_noinit` is the test that every required field was
-- marked.
use teta.Prelude.{
  ℕ, zero, suc, ◌+◌, ◌-◌, ◌*◌, ◌/◌, ◌%◌, ◌^◌, ◌≤◌, ◌<◌, ◌≡◌, refl, sym, ap, ◌∙◌, arith, Bool, true,
  false, ◌==◌, ◌||◌, ◌&&◌, ltb, ltb→lt, lt→ltb, bit_and, and_ones, List, [], ◌∷◌, All, inl, inr,
  Bool-cases, ◌⊎◌, ◌>>>◌,
}
use mathlib.Core.Path.{subst}
use native.Mathlib.Nat.{pow-suc, one-le-pow, div-eq_of_lt-le}
use teta.Nanopb.Decoder.Required.{pb_max_required_fields, word_at, whole_words, all_seen, allbits}
use teta.Prelude.{below}
use teta.Nanopb.Decoder.Required.Bits.{mask-below}
use teta.Nanopb.Decoder.Required.Words.{
  marked, is_in, low, high, marked-words, low-Shows, high-Shows, low-bound, high-bound,
}

power_product : (d r : ℕ) → 2 ^ r * 2 ^ d ≡ 2 ^ (r + d)
power_product zero r = omega (arith, ap (λ (n : ℕ). 2 ^ n) {x = r + 0} {y = r} (omega arith))
power_product (suc d) r =
    let next : r + suc d ≡ suc (r + d) = omega arith in
    grind (arith, pow-suc 2 d, pow-suc 2 (r + d), power_product d r, ap (λ (n : ℕ). 2 ^ n) next)

-- The mask of the remaining bits.
mask_value : (r : ℕ) → r ≤ 32 → allbits / 2 ^ (32 - r) ≡ 2 ^ r - 1
mask_value r h =
    quotient (2 ^ r) (2 ^ (32 - r)) (one-le-pow r 2 (omega arith))
      (one-le-pow (32 - r) 2 (omega arith)) (power_product (32 - r) r ∙ ap (λ (n : ℕ). 2 ^ n) split)
  where
    split : r + (32 - r) ≡ 32
    split = omega arith

    quotient : (p q : ℕ) → 1 ≤ p → 1 ≤ q → p * q ≡ 2 ^ 32 → allbits / q ≡ p - 1
    quotient zero q least some product = absurd (omega arith)
    quotient (suc p) q least some product = div-eq_of_lt-le q (grind arith) (grind arith)

below-same : (n : ℕ) (f g : ℕ → Bool) → ((k : ℕ) → k < n → f k ≡ g k) → below n f ≡ below n g
below-same zero f g h = refl
below-same (suc n) f g h =
    ap (λ (b : Bool). b && below n (λ k. f (suc k))) (h 0 (omega arith))
    ∙ ap (λ (b : Bool). g 0 && b)
        (below-same n (λ k. f (suc k)) (λ k. g (suc k)) (λ k lt. h (suc k) (omega arith)))

is_in-none :
    (k n : ℕ) (indices : List ℕ) → All (λ i. i < n) indices → n ≤ k → is_in k indices ≡ false
is_in-none k n [] all h = refl
is_in-none k n (i ∷ indices) (lt, all) h = ground (arith, is_in-none k n indices all h)

below-add : (m n : ℕ) (f : ℕ → Bool) → below (m + n) f ≡ (below m f && below n (λ k. f (m + k)))
below-add zero n f =
    ap (λ (c : ℕ). below c f) {x = 0 + n} {y = n} (omega arith)
    ∙ below-same n f (λ k. f (0 + k)) (λ k lt. ap f {x = k} {y = 0 + k} (omega arith))
below-add (suc m) n f =
    ap (λ (c : ℕ). below c f) {x = suc m + n} {y = suc (m + n)} (omega arith)
    ∙ ap (λ (b : Bool). f 0 && b) (below-add m n (λ k. f (suc k)))
    ∙ regroup (f 0) (below m (λ k. f (suc k))) (below n (λ k. f (suc (m + k))))
    ∙ ap (λ (b : Bool). (f 0 && below m (λ k. f (suc k))) && b)
        (below-same n (λ k. f (suc (m + k))) (λ k. f (suc m + k))
          (λ k lt. ap f {x = suc (m + k)} {y = suc m + k} (omega arith)))
  where
    regroup : (a b c : Bool) → (a && (b && c)) ≡ ((a && b) && c)
    regroup true b c = refl
    regroup false b c = refl

-- The test of the bits of a word that has none from `r` on.
remaining :
    (r w : ℕ) (g : ℕ → Bool)
    → r < 32
    → (w == 2 ^ r - 1) ≡ below r g
    → (r == 0 || w == allbits >>> (32 - r)) ≡ below r g
remaining zero w g h e = refl
remaining (suc r) w g h e =
    ap (λ (m : ℕ). suc r == 0 || w == m) (mask_value (suc r) (omega arith))
    ∙ not_zero (w == 2 ^ suc r - 1)
    ∙ e
  where
    not_zero : (b : Bool) → (suc r == 0 || b) ≡ b
    not_zero b = ground arith

and_true : (b : Bool) → (b && true) ≡ b
and_true true = refl
and_true false = refl

module _ (indices : List ℕ) (all : All (λ i. i < 64) indices) where
  abbrev required : ℕ → Bool
  required i = is_in i indices

  low_test :
      (r : ℕ)
      → r ≤ 32
      → ((k : ℕ) → r ≤ k → k < 32 → required k ≡ false)
      → (low indices == 2 ^ r - 1) ≡ below r required
  low_test r le off =
      mask-below 32 r (low indices) (λ k. ltb k 32 && required k) (low-bound indices) le
        (low-Shows indices) (λ k above. cut k above (Bool-cases (ltb k 32)))
      ∙ below-same r (λ k. ltb k 32 && required k) required
          (λ k lt. ap (λ (b : Bool). b && required k) (lt→ltb k 32 (omega arith)))
    where
      cut :
          (k : ℕ)
          → r ≤ k
          → (ltb k 32 ≡ true) ⊎ (ltb k 32 ≡ false)
          → (ltb k 32 && required k) ≡ false
      cut k above (inl lower) = rw lower (off k above (ltb→lt _ _ lower))
      cut k above (inr upper) = rw upper refl

  high_test :
      (r : ℕ)
      → r ≤ 32
      → ((k : ℕ) → r ≤ k → k < 32 → required (32 + k) ≡ false)
      → (high indices == 2 ^ r - 1) ≡ below r (λ k. required (32 + k))
  high_test r le off =
      mask-below 32 r (high indices) (λ k. ltb k 32 && required (32 + k)) (high-bound indices all)
        le (high-Shows indices all) (λ k above. cut k above (Bool-cases (ltb k 32)))
      ∙ below-same r (λ k. ltb k 32 && required (32 + k)) (λ k. required (32 + k))
          (λ k lt. ap (λ (b : Bool). b && required (32 + k)) (lt→ltb k 32 (omega arith)))
    where
      cut :
          (k : ℕ)
          → r ≤ k
          → (ltb k 32 ≡ true) ⊎ (ltb k 32 ≡ false)
          → (ltb k 32 && required (32 + k)) ≡ false
      cut k above (inl lower) = rw lower (off k above (ltb→lt _ _ lower))
      cut k above (inr upper) = rw upper refl

  abbrev words : List ℕ
  words = low indices ∷ high indices ∷ []

  -- The test by the number of whole words and of the remaining bits.
  abbrev tested : ℕ → ℕ → Bool
  tested q r = whole_words q 0 words && (r == 0 || word_at words q == allbits >>> (32 - r))

  none_above : (n : ℕ) → All (λ i. i < n) indices → (k : ℕ) → n ≤ k → required k ≡ false
  none_above n few k le = is_in-none k n indices few le

  tested-below :
      (q r : ℕ)
      → r < 32
      → 32 * q + r ≤ 64
      → All (λ i. i < 32 * q + r) indices
      → tested q r ≡ below (32 * q + r) required
  unfolding whole_words
  tested-below zero r lt le few =
      remaining r (low indices) required lt
        (low_test r (omega arith) (λ k le' h. none_above (32 * 0 + r) few k (omega arith)))
      ∙ ap (λ (n : ℕ). below n required) {x = r} {y = 32 * 0 + r} (omega arith)
  tested-below (suc zero) r lt le few =
      ap (λ (b : Bool). (b && true) && upper_test)
        (low_test 32 (omega arith) (λ k le' h. absurd (omega arith)))
      ∙ ap (λ (b : Bool). (below 32 required && true) && b)
          (remaining r (high indices) (λ k. required (32 + k)) lt
            (high_test r (omega arith)
              (λ k le' h. none_above (32 * 1 + r) few (32 + k) (omega arith))))
      ∙ ap (λ (b : Bool). b && below r (λ k. required (32 + k))) (and_true (below 32 required))
      ∙ sym (below-add 32 r required)
      ∙ ap (λ (n : ℕ). below n required) {x = 32 + r} {y = 32 * 1 + r} (omega arith)
    where
      upper_test : Bool
      upper_test = r == 0 || high indices == allbits >>> (32 - r)
  tested-below (suc (suc zero)) zero lt le few =
      ap (λ (b : Bool). (b && (high indices == allbits && true)) && true)
        (low_test 32 (omega arith) (λ k le' h. absurd (omega arith)))
      ∙ ap (λ (b : Bool). (below 32 required && (b && true)) && true)
          (high_test 32 (omega arith) (λ k le' h. absurd (omega arith)))
      ∙ and_true (below 32 required && (below 32 (λ k. required (32 + k)) && true))
      ∙ ap (λ (b : Bool). below 32 required && b) (and_true (below 32 (λ k. required (32 + k))))
      ∙ sym (below-add 32 32 required)
  tested-below (suc (suc zero)) (suc r) lt le few = absurd (omega arith)
  tested-below (suc (suc (suc q))) r lt le few = absurd (omega arith)

All-weaken :
    (m n : ℕ) (indices : List ℕ) → m ≤ n → All (λ i. i < m) indices → All (λ i. i < n) indices
All-weaken m n [] le all = all
All-weaken m n (i ∷ indices) le (h, all) = (omega arith, All-weaken m n indices le all)

-- For at most 64 required fields, the indices of which are below their number: the check of
-- `fields_seen` at the end of the message passes exactly if every required field was marked.
pub all_seen-below :
    (count : ℕ) (indices : List ℕ)
    → count ≤ pb_max_required_fields
    → All (λ i. i < count) indices
    → all_seen count (marked indices) ≡ below count (λ i. is_in i indices)
unfolding all_seen
all_seen-below count indices le few =
    ap (λ (ws : List ℕ). at (bit_and count 31) ws) (marked-words indices all)
    ∙ ap (λ (r : ℕ). at r (low indices ∷ high indices ∷ [])) (and_ones 5 count)
    ∙ tested-below indices all (count / 2 ^ 5) (count % 2 ^ 5) (omega arith) (omega arith)
        (subst (λ (n : ℕ). All (λ i. i < n) indices) split few)
    ∙ ap (λ (n : ℕ). below n (λ i. is_in i indices)) (sym split)
  where
    all : All (λ i. i < 64) indices
    all = All-weaken count 64 indices le few

    split : count ≡ 32 * (count / 2 ^ 5) + count % 2 ^ 5
    split = omega arith

    at : ℕ → List ℕ → Bool
    at r ws =
        whole_words (count >>> 5) 0 ws
        && (r == 0 || word_at ws (count >>> 5) == allbits >>> (32 - r))
