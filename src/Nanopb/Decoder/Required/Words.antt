-- ===== src/Nanopb/Decoder/Required/Words.antt =====
-- The two words of `fields_seen` once some required fields were marked.
use teta.Prelude.{
  ℕ, ◌+◌, ◌-◌, ◌*◌, ◌/◌, ◌%◌, ◌^◌, ◌≤◌, ◌<◌, ◌≡◌, refl, ap, ◌∙◌, arith, Bool, false, ◌==◌, ◌||◌,
  ◌&&◌, if◌then◌else◌, ltb, ltb→lt, ltb→ge, bit_or, bit_and, and_ones, List, [], ◌∷◌, All, inl, inr,
  Bool-cases, ◌<<<◌, u32,
}
use native.Mathlib.Nat.{mod-eq_of_lt, pow-le-pow_right}
use teta.Nanopb.Decoder.Required.{none_seen, or_word, mark_seen}
use teta.Nanopb.Decoder.Required.Bits.{one_if, bit-zero, bit-or_power, or_below, Shows}

-- `fields_seen` once the required fields of the indices were marked, the last one first.
unfoldable pub marked : List ℕ → List ℕ
marked [] = none_seen
marked (i ∷ indices) = mark_seen i (marked indices)

abbrev pub is_in : ℕ → List ℕ → Bool
is_in k [] = false
is_in k (i ∷ indices) = k == i || is_in k indices

-- The two words.
abbrev pub low : List ℕ → ℕ
low [] = 0
low (i ∷ indices) = let rest = low indices in if ltb i 32 then bit_or rest (2 ^ i) else rest

abbrev pub high : List ℕ → ℕ
high [] = 0
high (i ∷ indices) =
    let rest = high indices in if ltb i 32 then rest else bit_or rest (2 ^ (i - 32))

power_small : (j : ℕ) → j < 32 → 2 ^ j < 2 ^ 32
power_small j h =
    let most : 2 ^ j ≤ 2 ^ 31 =
      pow-le-pow_right {n = 2} (omega arith) {i = j} {j = 31} (omega arith) in
    omega arith

-- The bit of an index in its word.
mask_of : (i j : ℕ) → i % 2 ^ 5 ≡ j → j < 32 → u32 (1 <<< bit_and i 31) ≡ 2 ^ j
mask_of i j e h =
    ap (λ (n : ℕ). u32 (1 <<< n)) (and_ones 5 i ∙ e)
    ∙ ap u32 (one_times (2 ^ j))
    ∙ mod-eq_of_lt (power_small j h)
  where
    one_times : (n : ℕ) → 1 * n ≡ n
    one_times n = omega arith

mark_low : (i a b : ℕ) → i < 32 → mark_seen i (a ∷ b ∷ []) ≡ bit_or a (2 ^ i) ∷ b ∷ []
unfolding mark_seen
mark_low i a b h =
    let word : i / 2 ^ 5 ≡ 0 = omega arith in
    ap (λ (n : ℕ). or_word (a ∷ b ∷ []) n (u32 (1 <<< bit_and i 31))) word
    ∙ ap (λ (n : ℕ). bit_or a n ∷ b ∷ []) (mask_of i i (omega arith) h)

mark_high :
    (i a b : ℕ) → 32 ≤ i → i < 64 → mark_seen i (a ∷ b ∷ []) ≡ a ∷ bit_or b (2 ^ (i - 32)) ∷ []
unfolding mark_seen
mark_high i a b h h' =
    let word : i / 2 ^ 5 ≡ 1 = omega arith in
    ap (λ (n : ℕ). or_word (a ∷ b ∷ []) n (u32 (1 <<< bit_and i 31))) word
    ∙ ap (λ (n : ℕ). a ∷ bit_or b n ∷ []) (mask_of i (i - 32) (omega arith) (omega arith))

pub marked-words :
    (indices : List ℕ)
    → All (λ i. i < 64) indices
    → marked indices ≡ low indices ∷ high indices ∷ []
unfolding marked
marked-words [] all = refl
marked-words (i ∷ indices) (h, all) = elim (Bool-cases (ltb i 32)) [
  | inl lower ↦ rw lower (
      ap (mark_seen i) (marked-words indices all)
      ∙ mark_low i (low indices) (high indices) (ltb→lt _ _ lower))
  | inr upper ↦ rw upper (
      ap (mark_seen i) (marked-words indices all)
      ∙ mark_high i (low indices) (high indices) (ltb→ge _ _ upper) h)
]

pub low-Shows : (indices : List ℕ) → Shows (λ k. ltb k 32 && is_in k indices) (low indices)
low-Shows [] k = bit-zero k ∙ (ground arith)
low-Shows (i ∷ indices) k = elim (Bool-cases (ltb i 32)) [
  | inl lower ↦ rw lower (
      bit-or_power k i (low indices) (ltb k 32 && is_in k indices) (low-Shows indices k)
      ∙ ap one_if (ground arith))
  | inr upper ↦ rw upper (low-Shows indices k ∙ ap one_if (ground arith))
]

pub high-Shows :
    (indices : List ℕ)
    → All (λ i. i < 64) indices
    → Shows (λ k. ltb k 32 && is_in (32 + k) indices) (high indices)
high-Shows [] all k = bit-zero k ∙ (ground arith)
high-Shows (i ∷ indices) (h, all) k = elim (Bool-cases (ltb i 32)) [
  | inl lower ↦ rw lower (high-Shows indices all k ∙ ap one_if (ground arith))
  | inr upper ↦ rw upper (
      bit-or_power k (i - 32) (high indices) (ltb k 32 && is_in (32 + k) indices)
        (high-Shows indices all k)
      ∙ ap one_if (ground arith))
]

pub low-bound : (indices : List ℕ) → low indices < 2 ^ 32
low-bound [] = omega arith
low-bound (i ∷ indices) = elim (Bool-cases (ltb i 32)) [
  | inl lower ↦
      rw lower
        (or_below 32 (low indices) (2 ^ i) (low-bound indices) (power_small i (ltb→lt _ _ lower)))
  | inr upper ↦ rw upper (low-bound indices)
]

pub high-bound : (indices : List ℕ) → All (λ i. i < 64) indices → high indices < 2 ^ 32
high-bound [] all = omega arith
high-bound (i ∷ indices) (h, all) = elim (Bool-cases (ltb i 32)) [
  | inl lower ↦ rw lower (high-bound indices all)
  | inr upper ↦
      let least : 32 ≤ i = ltb→ge _ _ upper in
      rw upper (
        or_below 32 (high indices) (2 ^ (i - 32)) (high-bound indices all)
          (power_small (i - 32) (omega arith)))
]
