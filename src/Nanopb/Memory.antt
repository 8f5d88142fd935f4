-- ===== src/Nanopb/Memory.antt =====
-- The memory of the process as the library sees it on a 64-bit little-endian machine: what the
-- casts and dereferences of pb_encode.c and pb_decode.c read and write.
pub mod Stores
use teta.Prelude.{
  ℕ, zero, suc, ◌+◌, ◌-◌, ◌*◌, ◌/◌, ◌^◌, Bool, not, List, [], ◌∷◌, leb, ◌==◌, if◌then◌else◌,
}
use teta.Prelude.{u8, u64}

-- The byte at each address.
abbrev pub Memory : Type 0
Memory = ℕ → ℕ

-- `p + k`, and `p + k` for a pb_ssize_t `k` given by its bit pattern of 32 bits.
abbrev pub offset : ℕ → ℕ → ℕ
offset p k = u64 (p + k)

-- A value of `bits` bits as one of 64 bits, by its sign.
unfoldable pub sign_extend : ℕ → ℕ → ℕ
sign_extend bits v = if leb (2 ^ (bits - 1)) v then v + 2 ^ 64 - 2 ^ bits else v

unfoldable pub signed_offset : ℕ → ℕ → ℕ
unfolding sign_extend
signed_offset p k = u64 (p + sign_extend 32 k)

unfoldable pub bytes_at : Memory → ℕ → ℕ → List ℕ
bytes_at mem zero p = []
bytes_at mem (suc n) p = mem p ∷ bytes_at mem n (offset p 1)

-- `*(uintN_t*)p`, of `n` bytes.
unfoldable pub read_uint : Memory → ℕ → ℕ → ℕ
read_uint mem zero p = 0
read_uint mem (suc n) p = mem p + 256 * read_uint mem n (offset p 1)

-- `*(pb_size_t*)p`, `*(void**)p` and `*(bool*)p`.
abbrev pub read_size : Memory → ℕ → ℕ
read_size mem p = read_uint mem 4 p

abbrev pub read_pointer : Memory → ℕ → ℕ
read_pointer mem p = read_uint mem 8 p

abbrev pub read_bool : Memory → ℕ → Bool
read_bool mem p = not (mem p == 0)

-- `while (size < max_size && *p != '\0')`
unfoldable pub c_strnlen : Memory → ℕ → ℕ → ℕ
c_strnlen mem zero p = 0
c_strnlen mem (suc n) p =
    let rest = c_strnlen mem n (offset p 1) in if mem p == 0 then 0 else suc rest

-- The memory once the byte at `p` is `b`.
abbrev pub write_byte : Memory → ℕ → ℕ → Memory
write_byte mem p b q = if q == p then b else mem q

-- `*(uintN_t*)p = v`, of `n` bytes.
unfoldable pub write_uint : Memory → ℕ → ℕ → ℕ → Memory
write_uint mem zero p v = mem
write_uint mem (suc n) p v = write_uint (write_byte mem p (u8 v)) n (offset p 1) (v / 256)

abbrev pub write_size : Memory → ℕ → ℕ → Memory
write_size mem p v = write_uint mem 4 p v

abbrev pub write_pointer : Memory → ℕ → ℕ → Memory
write_pointer mem p v = write_uint mem 8 p v

abbrev pub write_bool : Memory → ℕ → Bool → Memory
write_bool mem p b = write_byte mem p (if b then 1 else 0)

-- `memcpy(p, bs, n)`, for the `n` bytes `bs`.
unfoldable pub write_bytes : Memory → ℕ → List ℕ → Memory
write_bytes mem p [] = mem
write_bytes mem p (b ∷ bs) = write_bytes (write_byte mem p b) (offset p 1) bs

-- `memset(p, 0, n)`
unfoldable pub write_zeros : Memory → ℕ → ℕ → Memory
write_zeros mem p zero = mem
write_zeros mem p (suc n) = write_zeros (write_byte mem p 0) (offset p 1) n
