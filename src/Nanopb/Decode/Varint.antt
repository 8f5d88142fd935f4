-- ===== src/Nanopb/Decode/Varint.antt =====
-- `pb_decode_varint` and `pb_decode_varint32` read the varint of every value that fits them.
use teta.Prelude.{
  ℕ, zero, suc, ◌+◌, ◌*◌, ◌/◌, ◌%◌, ◌^◌, ◌≤◌, ◌<◌, ◌≡◌, refl, ap, ◌∙◌, arith, inl, inr, true, false,
}
use teta.Prelude.{
  List, ◌∷◌, ◌++◌, length, ltb, leb, IsU64, IsByte, bit_and, bit_or, u8, u64, ◌<<<◌, and_ones,
  and_bit, or_shifted,
}
use teta.Prelude.{Bool-cases, Option, some, if◌then◌else◌, ltb→lt, ltb→lt}
use Prim.Native.Nat.add
use native.Mathlib.Nat.{div-add-mod}
use native.Mathlib.Numerals.{towards_suc}
use teta.Nanopb.Action.{Errmsg, return}
use teta.Nanopb.Istream.Accepts.{on_memory, Accepts, pb_readbyte-Accepts}
use teta.Nanopb.Wire.{base128, varint}
use teta.Nanopb.Decode.{continues, varint_loop, pb_decode_varint}

pub payload : (b : ℕ) → bit_and b 0x7f ≡ b % 128
payload b = and_ones 7 b

pub continues_large : (b : ℕ) → 128 ≤ b → IsByte b → continues b ≡ true
continues_large b h hb = ground (arith, and_bit 7 b)

pub continues_small : (b : ℕ) → b < 128 → continues b ≡ false
continues_small b h = ground (arith, and_bit 7 b)

-- `result |= (uint64_t)(byte & 0x7F) << bitpos` adds the digit where nothing stands yet.
add_digit :
    (b bitpos result : ℕ)
    → result < 2 ^ bitpos
    → IsU64 (result + b % 128 * 2 ^ bitpos)
    → bit_or result (u64 (bit_and b 0x7f <<< bitpos)) ≡ result + b % 128 * 2 ^ bitpos
add_digit b bitpos result h fits = ap (bit_or result) shifted ∙ or_shifted bitpos result (b % 128) h
  where
    shifted : u64 (bit_and b 0x7f <<< bitpos) ≡ b % 128 * 2 ^ bitpos
    shifted = omega (arith, ap (λ (t : ℕ). t * 2 ^ bitpos) (payload b))

round :
    (fuel bitpos result b : ℕ) (rest : List ℕ) (left : ℕ) (err : Option Errmsg)
    → bitpos < 64
    → result < 2 ^ bitpos
    → IsU64 (result + b % 128 * 2 ^ bitpos)
    → varint_loop (suc fuel) bitpos result (on_memory (b ∷ rest) (1 + left) err)
      ≡ (if continues b
            then varint_loop fuel (bitpos + 7) (result + b % 128 * 2 ^ bitpos)
            else return (result + b % 128 * 2 ^ bitpos))
          (on_memory rest left err)
unfolding varint_loop
round fuel bitpos result b rest left err hb hr fits =
    rw
      (test, (pb_readbyte-Accepts b).reads rest left err, add_digit b bitpos result hr fits, narrow)
      refl
  where
    test : leb 64 bitpos ≡ false
    test = ground arith

    narrow : u8 (bitpos + 7) ≡ bitpos + 7
    narrow = omega arith

last_round :
    (fuel bitpos result v : ℕ) (rest : List ℕ) (left : ℕ) (err : Option Errmsg)
    → bitpos < 64
    → result < 2 ^ bitpos
    → v < 128
    → IsU64 (result + v * 2 ^ bitpos)
    → varint_loop (suc fuel) bitpos result (on_memory (v ∷ rest) (1 + left) err)
      ≡ (some (result + v * 2 ^ bitpos), on_memory rest left err)
last_round fuel bitpos result v rest left err hb hr hv fits =
    round fuel bitpos result v rest left err hb hr (rw digit fits)
    ∙ rw (continues_small v hv, digit)
  where
    digit : v % 128 ≡ v
    digit = omega arith

inner_round :
    (fuel bitpos result v : ℕ) (rest : List ℕ) (left : ℕ) (err : Option Errmsg)
    → bitpos < 64
    → result < 2 ^ bitpos
    → IsU64 (result + v % 128 * 2 ^ bitpos)
    → varint_loop (suc fuel) bitpos result (on_memory ((v % 128 + 128) ∷ rest) (suc left) err)
      ≡ varint_loop fuel (bitpos + 7) (result + v % 128 * 2 ^ bitpos) (on_memory rest left err)
inner_round fuel bitpos result v rest left err hb hr fits =
    ap (λ (n : ℕ). varint_loop (suc fuel) bitpos result (on_memory ((v % 128 + 128) ∷ rest) n err))
      one
    ∙ round fuel bitpos result (v % 128 + 128) rest left err hb hr (rw digit fits)
    ∙ rw (continues_large (v % 128 + 128) (omega arith) (omega arith), digit)
  where
    digit : (v % 128 + 128) % 128 ≡ v % 128
    digit = omega arith

    one : suc left ≡ 1 + left
    one = omega arith

pub shift_seven : (s : ℕ) → 2 ^ (s + 7) ≡ 128 * 2 ^ s
shift_seven s = simp towards_suc (omega arith)

-- The lowest digit of `v` and the others, counted from bit `s` on.
pub split_digit : (v s : ℕ) → v * 2 ^ s ≡ v % 128 * 2 ^ s + v / 128 * 2 ^ (s + 7)
split_digit v s = omega (
  arith,
  ap (λ (t : ℕ). t * 2 ^ s) (div-add-mod v 128),
  ap (λ (t : ℕ). v / 128 * t) (shift_seven s),
)

pub below_next : (v s result : ℕ) → result < 2 ^ s → result + v % 128 * 2 ^ s < 2 ^ (s + 7)
below_next v s result h = rw (shift_seven s) (grind arith)

pub same_value :
    (v s result : ℕ) → result + v % 128 * 2 ^ s + v / 128 * 2 ^ (s + 7) ≡ result + v * 2 ^ s
same_value v s result = omega (arith, split_digit v s)

varint_loop-reads :
    (k fuel bitpos result v : ℕ) (rest : List ℕ) (left : ℕ) (err : Option Errmsg)
    → k < fuel
    → bitpos + 7 * k < 64
    → result < 2 ^ bitpos
    → v < 128 ^ suc k
    → IsU64 (result + v * 2 ^ bitpos)
    → varint_loop fuel bitpos result
        (on_memory (base128 k v ++ rest) (length (base128 k v) + left) err)
      ≡ (some (result + v * 2 ^ bitpos), on_memory rest left err)
unfolding base128
varint_loop-reads k zero bitpos result v rest left err hf hb hr hv fits = absurd (omega arith)
varint_loop-reads zero (suc fuel) bitpos result v rest left err hf hb hr hv fits =
    last_round fuel bitpos result v rest left err (omega arith) hr (omega arith) fits
varint_loop-reads (suc k) (suc fuel) bitpos result v rest left err hf hb hr hv fits =
    elim (Bool-cases (ltb v 128)) [
      | inl small ↦
          rw small
            (last_round fuel bitpos result v rest left err (omega arith) hr (ltb→lt _ _ small) fits)
      | inr large ↦
          rw (large, add.suc (length (base128 k (v / 128))) left)
            (inner_round fuel bitpos result v (base128 k (v / 128) ++ rest)
                (length (base128 k (v / 128)) + left) err (omega arith) hr
                (omega (arith, split_digit v bitpos))
              ∙ varint_loop-reads k fuel (bitpos + 7) (result + v % 128 * 2 ^ bitpos) (v / 128) rest
                  left err (omega arith) (omega arith) (below_next v bitpos result hr) (omega arith)
                  (omega (arith, split_digit v bitpos))
              ∙ ap (λ (n : ℕ). (some n, on_memory rest left err)) (same_value v bitpos result))
    ]

-- `pb_decode_varint` reads the varint of every uint64_t.
pub pb_decode_varint-Accepts : (v : ℕ) → IsU64 v → Accepts pb_decode_varint (varint v) v
unfolding pb_decode_varint
pb_decode_varint-Accepts v h = record {
  reads = λ rest left err.
      varint_loop-reads 9 11 0 0 v rest left err (omega arith) (omega arith) (omega arith)
        (omega arith) (omega arith)
      ∙ ap (λ (n : ℕ). (some n, on_memory rest left err)) {x = 0 + v * 2 ^ 0} (omega arith);
}
