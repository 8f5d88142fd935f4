-- ===== src/Nanopb/Memory/Stores.antt =====
-- Stores change the bytes that they name and no others, and what they store is read back. The bytes
-- end below the last address, so that no pointer wraps.
use teta.Prelude.{
  ℕ, zero, suc, ◌+◌, ◌/◌, ◌^◌, ◌*◌, ◌%◌, ◌≤◌, ◌<◌, ◌≡◌, refl, ap, ◌∙◌, arith, List, [], ◌∷◌, length,
  ◌⊎◌, inl, inr, u8,
}
use native.Mathlib.Nat.{
  mod-eq_of_lt, pow-suc, one-le-pow, mul-add-mod_self_left, div-add-mod, mod-lt,
}
use teta.Nanopb.Memory.{Memory, offset, read_uint, write_byte, write_uint, write_bytes, write_zeros}

-- The addresses outside of the `n` bytes from `p` on.
abbrev pub IsOutside : ℕ → ℕ → ℕ → Type 0
IsOutside p n q = (q < p) ⊎ (p + n ≤ q)

next_address : (p n : ℕ) → p + suc n < 2 ^ 64 → offset p 1 ≡ p + 1
next_address p n h = mod-eq_of_lt (omega arith)

IsOutside-next : (p n q : ℕ) → IsOutside p (suc n) q → IsOutside (p + 1) n q
IsOutside-next p n q (inl low) = inl (omega arith)
IsOutside-next p n q (inr high) = inr (omega arith)

write_byte-outside :
    (mem : Memory) (p n b q : ℕ) → IsOutside p (suc n) q → write_byte mem p b q ≡ mem q
write_byte-outside mem p n b q (inl low) = ground arith
write_byte-outside mem p n b q (inr high) = ground arith

pub write_uint-outside :
    (mem : Memory) (n p v q : ℕ) → p + n < 2 ^ 64 → IsOutside p n q → write_uint mem n p v q ≡ mem q
unfolding write_uint
write_uint-outside mem zero p v q h out = refl
write_uint-outside mem (suc n) p v q h out = rw (next_address p n h) (
    write_uint-outside (write_byte mem p (u8 v)) n (p + 1) (v / 256) q (omega arith)
      (IsOutside-next p n q out)
    ∙ write_byte-outside mem p n (u8 v) q out)

pub write_bytes-outside :
    (mem : Memory) (bs : List ℕ) (p q : ℕ)
    → p + length bs < 2 ^ 64
    → IsOutside p (length bs) q
    → write_bytes mem p bs q ≡ mem q
unfolding write_bytes
write_bytes-outside mem [] p q h out = refl
write_bytes-outside mem (b ∷ bs) p q h out = rw (next_address p (length bs) h) (
    write_bytes-outside (write_byte mem p b) bs (p + 1) q (omega arith)
      (IsOutside-next p (length bs) q out)
    ∙ write_byte-outside mem p (length bs) b q out)

pub write_zeros-outside :
    (mem : Memory) (n p q : ℕ) → p + n < 2 ^ 64 → IsOutside p n q → write_zeros mem p n q ≡ mem q
unfolding write_zeros
write_zeros-outside mem zero p q h out = refl
write_zeros-outside mem (suc n) p q h out = rw (next_address p n h) (
    write_zeros-outside (write_byte mem p 0) n (p + 1) q (omega arith) (IsOutside-next p n q out)
    ∙ write_byte-outside mem p n 0 q out)

-- The lowest byte of a store.
write_uint-first :
    (mem : Memory) (n p v : ℕ) → p + suc n < 2 ^ 64 → write_uint mem (suc n) p v p ≡ u8 v
unfolding write_uint
write_uint-first mem n p v h = rw (next_address p n h) (
    write_uint-outside (write_byte mem p (u8 v)) n (p + 1) (v / 256) p (omega arith)
      (inl (omega arith))
    ∙ written)
  where
    written : write_byte mem p (u8 v) p ≡ u8 v
    written = ground arith

write_uint-next :
    (mem : Memory) (n p v : ℕ)
    → p + suc n < 2 ^ 64
    → write_uint mem (suc n) p v ≡ write_uint (write_byte mem p (u8 v)) n (p + 1) (v / 256)
unfolding write_uint
write_uint-next mem n p v h =
    ap (λ (r : ℕ). write_uint (write_byte mem p (u8 v)) n r (v / 256)) (next_address p n h)

split_digit : (n v : ℕ) → v % 256 ^ suc n ≡ v / 256 % 256 ^ n * 256 + v % 256
split_digit n v =
    ap (λ (x : ℕ). x % 256 ^ suc n) split
    ∙ mul-add-mod_self_left (256 ^ suc n) (v / 256 / 256 ^ n) _
    ∙ mod-eq_of_lt small
  where
    split : v ≡ 256 ^ suc n * (v / 256 / 256 ^ n) + (v / 256 % 256 ^ n * 256 + v % 256)
    split = omega (
      arith,
      div-add-mod (v / 256) (256 ^ n),
      ap (λ (t : ℕ). t * (v / 256 / 256 ^ n)) (pow-suc 256 n),
    )

    small : v / 256 % 256 ^ n * 256 + v % 256 < 256 ^ suc n
    small = omega (arith, pow-suc 256 n, mod-lt (v / 256) (one-le-pow n 256 (omega arith)))

-- What `n` bytes store of a value, they give back.
pub read_uint-write_uint :
    (mem : Memory) (n p v : ℕ) → p + n < 2 ^ 64 → read_uint (write_uint mem n p v) n p ≡ v % 256 ^ n
unfolding read_uint
read_uint-write_uint mem zero p v h = omega arith
read_uint-write_uint mem (suc n) p v h = rw (next_address p n h) (
    let first : write_uint mem (suc n) p v p ≡ u8 v = write_uint-first mem n p v h in
    let rest : read_uint (write_uint mem (suc n) p v) n (p + 1) ≡ v / 256 % 256 ^ n =
      ap (λ (m : Memory). read_uint m n (p + 1)) (write_uint-next mem n p v h)
      ∙ read_uint-write_uint (write_byte mem p (u8 v)) n (p + 1) (v / 256) (omega arith) in
    omega (arith, split_digit n v))
