-- ===== src/Nanopb/Decoder/Required/Bits.antt =====
-- The bits of a word, and what `|` and a test against a mask of ones say of them.
use teta.Prelude.{
  below, ℕ, zero, suc, ◌-◌, ◌/◌, ◌%◌, ◌^◌, ◌≤◌, ◌<◌, ◌≡◌, refl, ap, ◌∙◌, arith, Bool, true, false,
  ◌==◌, ◌||◌, ◌&&◌, if◌then◌else◌, bit_or, or_halve,
}
use Prim.Native.Nat.{max}
use native.Mathlib.Nat.{pow-suc, one-le-pow}

abbrev pub bit : ℕ → ℕ → ℕ
bit zero a = a % 2
bit (suc k) a = bit k (a / 2)

abbrev pub one_if : Bool → ℕ
one_if b = if b then 1 else 0

pub bit-zero : (k : ℕ) → bit k 0 ≡ 0
bit-zero zero = refl
bit-zero (suc k) = bit-zero k

or_high : (a b : ℕ) → bit_or a b / 2 ≡ bit_or (a / 2) (b / 2)
or_high a b = omega (arith, or_halve a b)

pub bit-power : (k j : ℕ) → bit k (2 ^ j) ≡ one_if (k == j)
bit-power zero zero = refl
bit-power zero (suc j) = grind (arith, pow-suc 2 j)
bit-power (suc k) zero = bit-zero k ∙ grind arith
bit-power (suc k) (suc j) =
    let half : 2 ^ suc j / 2 ≡ 2 ^ j = omega (arith, pow-suc 2 j) in
    ap (bit k) half ∙ bit-power k j ∙ grind arith

bit-or : (k a b : ℕ) → bit k (bit_or a b) ≡ max (bit k a) (bit k b)
bit-or zero a b = omega (arith, or_halve a b)
bit-or (suc k) a b = ap (bit k) (or_high a b) ∙ bit-or k (a / 2) (b / 2)

max_one : (c b : Bool) → max (one_if b) (one_if c) ≡ one_if (c || b)
max_one true true = refl
max_one true false = refl
max_one false true = refl
max_one false false = refl

-- A bit of `a | 2 ^ j`.
pub bit-or_power :
    (k j a : ℕ) (b : Bool) → bit k a ≡ one_if b → bit k (bit_or a (2 ^ j)) ≡ one_if (k == j || b)
bit-or_power k j a b h =
    bit-or k a (2 ^ j)
    ∙ ap (λ (x : ℕ). max x (bit k (2 ^ j))) h
    ∙ ap (λ (y : ℕ). max (one_if b) y) (bit-power k j)
    ∙ max_one (k == j) b

-- `|` does not leave a width.
pub or_below : (m a b : ℕ) → a < 2 ^ m → b < 2 ^ m → bit_or a b < 2 ^ m
or_below zero a b h h' =
    let left : a ≡ 0 = omega arith in
    let right : b ≡ 0 = omega arith in
    let none_set : bit_or a b ≡ 0 =
      ap (λ (x : ℕ). bit_or x b) left ∙ ap (λ (y : ℕ). bit_or 0 y) right in
    omega arith
or_below (suc m) a b h h' =
    let half : bit_or (a / 2) (b / 2) < 2 ^ m =
      or_below m (a / 2) (b / 2) (omega (arith, pow-suc 2 m)) (omega (arith, pow-suc 2 m)) in
    omega (arith, or_halve a b, pow-suc 2 m)

-- The bits of `w` are what `f` says.
abbrev pub Shows : (ℕ → Bool) → ℕ → Type 0
Shows f w = (k : ℕ) → bit k w ≡ one_if (f k)

-- A word without bits from `r` on is the mask of `r` ones just where it has all bits below.
pub mask-below :
    (m r w : ℕ) (f : ℕ → Bool)
    → w < 2 ^ m
    → r ≤ m
    → Shows f w
    → ((k : ℕ) → r ≤ k → f k ≡ false)
    → (w == 2 ^ r - 1) ≡ below r f
mask-below zero zero w f small le shows off = grind arith
mask-below zero (suc r) w f small le shows off = absurd (omega arith)
mask-below (suc m) zero w f small le shows off =
    let even : w % 2 ≡ 0 = shows 0 ∙ ap one_if (off 0 (omega arith)) in
    let rest : w / 2 == 2 ^ 0 - 1 ≡ true =
      mask-below m 0 (w / 2) (λ k. f (suc k)) (omega (arith, pow-suc 2 m)) (omega arith)
        (λ k. shows (suc k)) (λ k le. off (suc k) (omega arith)) in
    grind arith
mask-below (suc m) (suc r) w f small le shows off =
    let rest : (w / 2 == 2 ^ r - 1) ≡ below r (λ k. f (suc k)) =
      mask-below m r (w / 2) (λ k. f (suc k)) (omega (arith, pow-suc 2 m)) (omega arith)
        (λ k. shows (suc k)) (λ k le. off (suc k) (omega arith)) in
    first_bit (f 0) (shows 0) ∙ ap (λ (b : Bool). f 0 && b) rest
  where
    first_bit : (b : Bool) → w % 2 ≡ one_if b → (w == 2 ^ suc r - 1) ≡ (b && w / 2 == 2 ^ r - 1)
    first_bit true h = ground (arith, pow-suc 2 r, one-le-pow r 2 (omega arith))
    first_bit false h = ground (arith, pow-suc 2 r, one-le-pow r 2 (omega arith))
