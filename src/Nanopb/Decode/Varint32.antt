-- ===== src/Nanopb/Decode/Varint32.antt =====
-- `pb_decode_varint32` reads the varint of every value below 2 ^ 32.
use teta.Prelude.{
  ℕ, zero, suc, ◌+◌, ◌*◌, ◌/◌, ◌%◌, ◌^◌, ◌≤◌, ◌<◌, ◌≡◌, refl, ap, ◌∙◌, arith, inl, inr, false,
}
use teta.Prelude.{
  List, [], ◌∷◌, ◌++◌, length, ltb, leb, IsU32, bit_and, bit_or, u8, u32, ◌<<<◌, and_ones,
  and_shifted, or_shifted,
}
use teta.Prelude.{Bool, Bool-cases, Option, some, if◌then◌else◌, ltb→lt, ltb→ge}
use teta.Nanopb.Action.{Errmsg}
use teta.Nanopb.Istream.{Istream}
use teta.Nanopb.Istream.Accepts.{on_memory, Accepts, pb_readbyte-Accepts}
use teta.Nanopb.Wire.{base128, base128-enough, length-base128, varint}
use teta.Nanopb.Decode.{
  continues, merge32, last32, varint32_loop, varint32_rest, pb_decode_varint32_eof,
  pb_decode_varint32,
}
use teta.Nanopb.Decode.Varint.{
  payload, continues_large, continues_small, split_digit, below_next, same_value,
}

-- A digit below bit 32 is added, as long as the sum fits.
merge32-low :
    (b bitpos result : ℕ) (s : Istream)
    → bitpos < 32
    → result < 2 ^ bitpos
    → IsU32 (result + b % 128 * 2 ^ bitpos)
    → merge32 b bitpos result s ≡ (some (result + b % 128 * 2 ^ bitpos), s)
unfolding merge32
merge32-low b bitpos result s hb hr fits = rw (test, merged) refl
  where
    test : leb 32 bitpos ≡ false
    test = ground arith

    narrow : u32 (bit_and b 0x7f <<< bitpos) ≡ b % 128 * 2 ^ bitpos
    narrow = omega (arith, ap (λ (t : ℕ). t * 2 ^ bitpos) (payload b))

    merged : bit_or result (u32 (bit_and b 0x7f <<< bitpos)) ≡ result + b % 128 * 2 ^ bitpos
    merged = ap (bit_or result) narrow ∙ or_shifted bitpos result (b % 128) hr

last32-fits :
    (b bitpos value : ℕ) (s : Istream)
    → b < 128
    → (bitpos ≡ 28 → b < 16)
    → last32 b (bitpos + 7) value s ≡ (some value, s)
unfolding last32
last32-fits b bitpos value s hb h = ground (arith, and_shifted 4 7 b, and_ones 3 (b / 16), h)

round :
    (fuel bitpos result b : ℕ) (rest : List ℕ) (left : ℕ) (err : Option Errmsg)
    → bitpos < 32
    → result < 2 ^ bitpos
    → IsU32 (result + b % 128 * 2 ^ bitpos)
    → varint32_loop (suc fuel) bitpos result (on_memory (b ∷ rest) (1 + left) err)
      ≡ (if continues b
            then varint32_loop fuel (bitpos + 7) (result + b % 128 * 2 ^ bitpos)
            else last32 b (bitpos + 7) (result + b % 128 * 2 ^ bitpos))
          (on_memory rest left err)
unfolding varint32_loop
round fuel bitpos result b rest left err hb hr fits =
    rw
      (
        (pb_readbyte-Accepts b).reads rest left err,
        merge32-low b bitpos result (on_memory rest left err) hb hr fits,
        narrow,
      )
      refl
  where
    narrow : u8 (bitpos + 7) ≡ bitpos + 7
    narrow = omega arith

-- At bit 28 only four bits are left.
top_digit : (v bitpos result : ℕ) → IsU32 (result + v * 2 ^ bitpos) → bitpos ≡ 28 → v < 16
top_digit v bitpos result fits e = omega (arith, rw e at fits)

last_round :
    (fuel bitpos result v : ℕ) (rest : List ℕ) (left : ℕ) (err : Option Errmsg)
    → bitpos < 32
    → result < 2 ^ bitpos
    → v < 128
    → IsU32 (result + v * 2 ^ bitpos)
    → varint32_loop (suc fuel) bitpos result (on_memory (v ∷ rest) (1 + left) err)
      ≡ (some (result + v * 2 ^ bitpos), on_memory rest left err)
last_round fuel bitpos result v rest left err hb hr hv fits =
    round fuel bitpos result v rest left err hb hr (rw digit fits)
    ∙ rw (continues_small v hv, digit)
        (last32-fits v bitpos _ _ hv (top_digit v bitpos result fits))
  where
    digit : v % 128 ≡ v
    digit = omega arith

inner_round :
    (fuel bitpos result v : ℕ) (rest : List ℕ) (left : ℕ) (err : Option Errmsg)
    → bitpos < 32
    → result < 2 ^ bitpos
    → IsU32 (result + v % 128 * 2 ^ bitpos)
    → varint32_loop (suc fuel) bitpos result (on_memory ((v % 128 + 128) ∷ rest) (1 + left) err)
      ≡ varint32_loop fuel (bitpos + 7) (result + v % 128 * 2 ^ bitpos) (on_memory rest left err)
inner_round fuel bitpos result v rest left err hb hr fits =
    round fuel bitpos result (v % 128 + 128) rest left err hb hr (rw digit fits)
    ∙ rw (continues_large (v % 128 + 128) (omega arith) (omega arith), digit)
  where
    digit : (v % 128 + 128) % 128 ≡ v % 128
    digit = omega arith

pub suc-eq-one-add : (n m : ℕ) → suc n + m ≡ 1 + (n + m)
suc-eq-one-add n m = omega arith

pub rest_fits :
    (k v fuel : ℕ)
    → ltb v 128 ≡ false
    → length (base128 (suc k) v) ≤ suc fuel
    → length (base128 k (v / 128)) ≤ fuel
unfolding base128
rest_fits k v fuel large h = ground arith

varint32_loop-reads :
    (k fuel bitpos result v : ℕ) (rest : List ℕ) (left : ℕ) (err : Option Errmsg)
    → length (base128 k v) ≤ fuel
    → bitpos + 7 * k < 32
    → result < 2 ^ bitpos
    → v < 128 ^ suc k
    → IsU32 (result + v * 2 ^ bitpos)
    → varint32_loop fuel bitpos result
        (on_memory (base128 k v ++ rest) (length (base128 k v) + left) err)
      ≡ (some (result + v * 2 ^ bitpos), on_memory rest left err)
unfolding base128
varint32_loop-reads k zero bitpos result v rest left err hf hb hr hv fits =
    absurd (omega (arith, (length-base128 k v).0))
varint32_loop-reads zero (suc fuel) bitpos result v rest left err hf hb hr hv fits =
    last_round fuel bitpos result v rest left err (omega arith) hr (omega arith) fits
varint32_loop-reads (suc k) (suc fuel) bitpos result v rest left err hf hb hr hv fits =
    elim (Bool-cases (ltb v 128)) [
      | inl small ↦
          rw small
            (last_round fuel bitpos result v rest left err (omega arith) hr (ltb→lt _ _ small) fits)
      | inr large ↦
          rw (large, suc-eq-one-add (length (base128 k (v / 128))) left)
            (inner_round fuel bitpos result v (base128 k (v / 128) ++ rest)
                (length (base128 k (v / 128)) + left) err (omega arith) hr
                (omega (arith, split_digit v bitpos))
              ∙ varint32_loop-reads k fuel (bitpos + 7) (result + v % 128 * 2 ^ bitpos) (v / 128)
                  rest left err (rest_fits k v fuel large hf) (omega arith)
                  (below_next v bitpos result hr) (omega arith)
                  (omega (arith, split_digit v bitpos))
              ∙ ap (λ (n : ℕ). (some n, on_memory rest left err)) (same_value v bitpos result))
    ]

varint_small : (v : ℕ) → v < 128 → varint v ≡ v ∷ []
unfolding base128
varint_small v h = ground arith

varint_large : (v : ℕ) → 128 ≤ v → IsU32 v → varint v ≡ (v % 128 + 128) ∷ base128 3 (v / 128)
varint_large v h fits = unfold base128 in ground (arith, base128-enough 3 8 (v / 128))

one_byte :
    (b : ℕ) (rest : List ℕ) (left : ℕ) (err : Option Errmsg)
    → b < 128
    → pb_decode_varint32_eof (on_memory (b ∷ rest) (1 + left) err)
      ≡ (false, (some b, on_memory rest left err))
unfolding pb_decode_varint32_eof varint32_rest
one_byte b rest left err h =
    rw ((pb_readbyte-Accepts b).reads rest left err, continues_small b h) refl

more_bytes :
    (v : ℕ) (rest : List ℕ) (left : ℕ) (err : Option Errmsg)
    → 128 ≤ v
    → IsU32 v
    → pb_decode_varint32_eof (
        on_memory
          ((v % 128 + 128) ∷ (base128 3 (v / 128) ++ rest))
          (1 + (length (base128 3 (v / 128)) + left))
          err)
      ≡ (false, (some v, on_memory rest left err))
unfolding pb_decode_varint32_eof varint32_rest
more_bytes v rest left err h fits =
    rw
      (
        (pb_readbyte-Accepts (v % 128 + 128)).reads (base128 3 (v / 128) ++ rest)
            (length (base128 3 (v / 128)) + left) err,
        continues_large (v % 128 + 128) (omega arith) (omega arith),
        low,
        varint32_loop-reads 3 (length (base128 3 (v / 128)) + left + 1) 7 (v % 128) (v / 128) rest
            left err (omega arith) (omega arith) (omega arith) (omega arith) (omega arith),
        whole,
      )
      refl
  where
    low : bit_and (v % 128 + 128) 0x7f ≡ v % 128
    low = omega (arith, payload (v % 128 + 128))

    whole : v % 128 + v / 128 * 2 ^ 7 ≡ v
    whole = omega arith

-- Every value below 2 ^ 32 is read from its varint, and no end of file is reported.
pub pb_decode_varint32_eof-reads :
    (v : ℕ) (rest : List ℕ) (left : ℕ) (err : Option Errmsg)
    → IsU32 v
    → pb_decode_varint32_eof (on_memory (varint v ++ rest) (length (varint v) + left) err)
      ≡ (false, (some v, on_memory rest left err))
pb_decode_varint32_eof-reads v rest left err fits = elim (Bool-cases (ltb v 128)) [
  | inl small ↦ rw (varint_small v (ltb→lt _ _ small)) (one_byte v rest left err (ltb→lt _ _ small))
  | inr large ↦
      rw
        (varint_large v (ltb→ge _ _ large) fits, suc-eq-one-add (length (base128 3 (v / 128))) left)
        (more_bytes v rest left err (ltb→ge _ _ large) fits)
]

pub pb_decode_varint32-Accepts : (v : ℕ) → IsU32 v → Accepts pb_decode_varint32 (varint v) v
unfolding pb_decode_varint32
pb_decode_varint32-Accepts v fits = record {
  reads = λ rest left err.
      ap (λ (r : Bool × (Option ℕ × Istream)). r.1)
        (pb_decode_varint32_eof-reads v rest left err fits);
}
