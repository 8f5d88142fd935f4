-- ===== src/Prelude/Bits.antt =====
-- Masks, shifts and casts of C on native numbers, and their meaning in arithmetic.
use Prim.Native.Nat.{
  ℕ, zero, suc, ◌+◌, ◌-◌, ◌*◌, ◌/◌, ◌%◌, ◌^◌, ◌≤◌, ◌<◌, min, max, bit_and, bit_or,
}
use Prim.Native.Nat.{digits, bit_and-bitwise, bit_or-bitwise}
use mathlib.Core.Path.{◌≡◌, refl, ap, ◌∙◌}
use native.Mathlib.Nat.{div-div-eq-div-mul}
use native.Mathlib.Nat.{
  pow-suc, one-le-pow, mul-add-mod_self_left, mod-eq_of_lt, mod-lt, div-add-mod,
}
use native.Mathlib.Omega.{arith}

abbrev pub u8 : ℕ → ℕ
u8 n = n % 2 ^ 8

abbrev pub u32 : ℕ → ℕ
u32 n = n % 2 ^ 32

abbrev pub u64 : ℕ → ℕ
u64 n = n % 2 ^ 64

-- `x >> k`, and `x << k` before the result is cut to its width.
infixl 75 ◌<<<◌ ◌>>>◌
abbrev pub ◌<<<◌ : ℕ → ℕ → ℕ
x <<< k = x * 2 ^ k

abbrev pub ◌>>>◌ : ℕ → ℕ → ℕ
x >>> k = x / 2 ^ k

abbrev pub IsByte : ℕ → Type 0
IsByte b = b < 256

abbrev pub IsU32 : ℕ → Type 0
IsU32 n = n < 2 ^ 32

abbrev pub IsU64 : ℕ → Type 0
IsU64 n = n < 2 ^ 64

-- The native operations stand for `digits` with the left operand as its own fuel.
module _ (z : ℕ → ℕ) (f : ℕ → ℕ → ℕ) where
  digits-extra : (k a b : ℕ) → a ≤ k → digits z f (suc k) a b ≡ digits z f k a b
  digits-extra zero zero b h = refl
  digits-extra zero (suc a) b h = absurd (omega arith)
  digits-extra (suc k) zero b h = refl
  digits-extra (suc k) (suc a) b h =
      ap (λ t. t * 2 + f (suc a % 2) (b % 2)) (digits-extra k (suc a / 2) (b / 2) (omega arith))

  digits-enough : (d k n a b : ℕ) → a ≤ k → n ≡ d + k → digits z f n a b ≡ digits z f k a b
  digits-enough zero k n a b h e = let same : n ≡ k = omega arith in ap (λ t. digits z f t a b) same
  digits-enough (suc d) k n a b h e =
      let same : n ≡ suc (d + k) = omega arith in
      ap (λ t. digits z f t a b) same
      ∙ digits-extra (d + k) a b (omega arith)
      ∙ digits-enough d k (d + k) a b h refl

  -- One digit: the fuel `a` is at least the half of `suc a`.
  digits-halve :
      (a b : ℕ)
      → digits z f (suc a) (suc a) b
        ≡ digits z f (suc a / 2) (suc a / 2) (b / 2) * 2 + f (suc a % 2) (b % 2)
  digits-halve a b =
      ap (λ t. t * 2 + f (suc a % 2) (b % 2))
        (digits-enough (a - suc a / 2) (suc a / 2) a (suc a / 2) (b / 2) (omega arith)
          (omega arith))

and_halve : (a b : ℕ) → bit_and a b ≡ bit_and (a / 2) (b / 2) * 2 + min (a % 2) (b % 2)
and_halve zero b = simp bit_and-bitwise (omega arith)
and_halve (suc a) b = simp bit_and-bitwise (digits-halve (λ y. zero) min a b)

pub or_halve : (a b : ℕ) → bit_or a b ≡ bit_or (a / 2) (b / 2) * 2 + max (a % 2) (b % 2)
or_halve zero b = simp bit_or-bitwise (omega arith)
or_halve (suc a) b = simp bit_or-bitwise (digits-halve (λ y. y) max a b)

-- The fuel bounds the left operand.
and_zero_below : (n a : ℕ) → a ≤ n → bit_and a 0 ≡ 0
and_zero_below zero zero h = refl
and_zero_below zero (suc a) h = absurd (omega arith)
and_zero_below (suc n) zero h = refl
and_zero_below (suc n) (suc a) h =
    omega (arith, and_halve (suc a) 0, and_zero_below n (suc a / 2) (omega arith))

or_zero_below : (n a : ℕ) → a ≤ n → bit_or a 0 ≡ a
or_zero_below zero zero h = refl
or_zero_below zero (suc a) h = absurd (omega arith)
or_zero_below (suc n) zero h = refl
or_zero_below (suc n) (suc a) h =
    omega (arith, or_halve (suc a) 0, or_zero_below n (suc a / 2) (omega arith))

double_shift : (q k : ℕ) → q * 2 ^ suc k ≡ 2 * (q * 2 ^ k)
double_shift q k = omega (arith, ap (λ (t : ℕ). q * t) (pow-suc 2 k))

-- `a` is `c` above a multiple of `m`.
mod_above : (m t c a : ℕ) → a ≡ m * t + c → c < m → a % m ≡ c
mod_above m t c a e h = ap (λ (x : ℕ). x % m) e ∙ mul-add-mod_self_left m t c ∙ mod-eq_of_lt h

mod_halve : (k a : ℕ) → a % 2 ^ suc k ≡ a / 2 % 2 ^ k * 2 + a % 2
mod_halve k a = mod_above (2 ^ suc k) (a / 2 / 2 ^ k) _ a split small
  where
    split : a ≡ 2 ^ suc k * (a / 2 / 2 ^ k) + (a / 2 % 2 ^ k * 2 + a % 2)
    split =
        omega
          (arith, div-add-mod (a / 2) (2 ^ k), ap (λ (t : ℕ). t * (a / 2 / 2 ^ k)) (pow-suc 2 k))

    small : a / 2 % 2 ^ k * 2 + a % 2 < 2 ^ suc k
    small = omega (arith, pow-suc 2 k, mod-lt (a / 2) (one-le-pow k 2 (omega arith)))

-- A mask of `k` ones is the remainder by `2 ^ k`.
pub and_ones : (k a : ℕ) → bit_and a (2 ^ k - 1) ≡ a % 2 ^ k
and_ones zero a = omega (arith, and_zero_below a a (omega arith))
and_ones (suc k) a =
    let full : 1 ≤ 2 ^ k = one-le-pow k 2 (omega arith) in
    let half_mask : (2 ^ suc k - 1) / 2 ≡ 2 ^ k - 1 = omega (arith, pow-suc 2 k) in
    omega (
      arith,
      and_halve a (2 ^ suc k - 1),
      pow-suc 2 k,
      ap (bit_and (a / 2)) half_mask,
      and_ones k (a / 2),
      mod_halve k a,
    )

-- A mask with `k` zeros below.
pub and_shifted : (k m a : ℕ) → bit_and a (m <<< k) ≡ bit_and (a / 2 ^ k) m * 2 ^ k
and_shifted zero m a = omega (arith, ap (bit_and a) bare, ap (λ (t : ℕ). bit_and t m) same)
  where
    bare : m * 2 ^ 0 ≡ m
    bare = omega arith

    same : a / 2 ^ 0 ≡ a
    same = omega arith
and_shifted (suc k) m a = omega (
  arith,
  and_halve a (m * 2 ^ suc k),
  double_shift m k,
  ap (bit_and (a / 2)) half,
  and_shifted k m (a / 2),
  ap (λ (t : ℕ). bit_and t m * 2 ^ k) deep,
  ap (λ (t : ℕ). bit_and (a / 2 ^ suc k) m * t) (pow-suc 2 k),
)
  where
    half : m * 2 ^ suc k / 2 ≡ m * 2 ^ k
    half = omega (arith, double_shift m k)

    twice : 2 * 2 ^ k ≡ 2 ^ suc k
    twice = omega (arith, pow-suc 2 k)

    deep : a / 2 / 2 ^ k ≡ a / 2 ^ suc k
    deep = div-div-eq-div-mul a 2 (2 ^ k) ∙ ap (λ (t : ℕ). a / t) twice

-- A mask of one bit.
pub and_bit : (k a : ℕ) → bit_and a (1 <<< k) ≡ a / 2 ^ k % 2 * 2 ^ k
and_bit k a = and_shifted k 1 a ∙ ap (λ (t : ℕ). t * 2 ^ k) (and_ones 1 (a / 2 ^ k))

-- `r | (q << k)` is a sum when `r` fits the low `k` bits.
pub or_shifted : (k r q : ℕ) → r < 2 ^ k → bit_or r (q <<< k) ≡ r + q * 2 ^ k
or_shifted zero zero q h =
    let same : bit_or 0 (q <<< 0) ≡ q <<< 0 = bit_or-bitwise 0 (q <<< 0) in omega arith
or_shifted zero (suc r) q h = absurd (omega arith)
or_shifted (suc k) r q h = omega (
  arith,
  or_halve r (q * 2 ^ suc k),
  double_shift q k,
  ap (λ (t : ℕ). bit_or (r / 2) t) half_shift,
  or_shifted k (r / 2) q (omega (arith, pow-suc 2 k)),
)
  where
    half_shift : q * 2 ^ suc k / 2 ≡ q * 2 ^ k
    half_shift = omega (arith, double_shift q k)

or_comm_below : (n a b : ℕ) → a ≤ n → b ≤ n → bit_or a b ≡ bit_or b a
or_comm_below zero zero zero h k = refl
or_comm_below zero zero (suc b) h k = absurd (omega arith)
or_comm_below zero (suc a) b h k = absurd (omega arith)
or_comm_below (suc n) a b h k =
    omega (
      arith,
      or_halve a b,
      or_halve b a,
      or_comm_below n (a / 2) (b / 2) (omega arith) (omega arith),
    )

pub or_comm : (a b : ℕ) → bit_or a b ≡ bit_or b a
or_comm a b = or_comm_below (a + b) a b (omega arith) (omega arith)
