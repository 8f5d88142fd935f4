-- ===== src/Nanopb/Encode.antt =====
-- TestProdSS/Pods/nanopb/pb_encode.c, the helper functions that custom encoders call: varints,
-- zigzag, fixed-width values, tags and strings. An int64_t is its bit pattern, below 2 ^ 64.
pub mod Varint
pub mod Values
use teta.Prelude.{ℕ, zero, suc, ◌+◌, ◌-◌, ◌*◌, ◌/◌, ◌%◌, ◌^◌, Bool, true, false}
use teta.Prelude.{List, [], ◌∷◌, length, ltb, leb, ◌==◌, if◌then◌else◌}
use teta.Prelude.{bit_and, bit_or, u8, u64, ◌<<<◌, ◌>>>◌}
use teta.Nanopb.Action.{Action, ◌>>=◌, ◌>>◌}
use teta.Nanopb.Ostream.{Ostream, pb_write}

-- `while (value) { buffer[i] = …; value >>= 7; i++; }`, with the rounds that `buffer[10]` has room for.
pub varint_loop : ℕ → ℕ → List ℕ
varint_loop zero value = []
varint_loop (suc room) value =
    let rest = varint_loop room (value >>> 7) in
    if value == 0 then [] else u8 (bit_or (bit_and value 0x7f) 0x80) ∷ rest

-- `buffer[i-1] &= 0x7F`
pub unset_top_bit : List ℕ → List ℕ
unset_top_bit [] = []
unset_top_bit (b ∷ []) = bit_and b 0x7f ∷ []
unset_top_bit (b ∷ c ∷ rest) = b ∷ unset_top_bit (c ∷ rest)

pub pb_encode_varint : ℕ → Action Ostream (Unit {0})
pb_encode_varint value =
    if leb value 0x7f
    then pb_write (u8 value ∷ []) 1
    else let buffer = unset_top_bit (varint_loop 10 value) in pb_write buffer (length buffer)

-- `value < 0` on the bit pattern, and `~x`.
abbrev pub is_negative : ℕ → Bool
is_negative value = leb (2 ^ 63) value

abbrev pub complement : ℕ → ℕ
complement x = 2 ^ 64 - 1 - x

unfoldable pub zigzag : ℕ → ℕ
zigzag value = if is_negative value then complement (u64 (value <<< 1)) else u64 (value <<< 1)

pub pb_encode_svarint : ℕ → Action Ostream (Unit {0})
pb_encode_svarint value = pb_encode_varint (zigzag value)

pub pb_encode_fixed32 : ℕ → Action Ostream (Unit {0})
pb_encode_fixed32 val =
    pb_write
      (bit_and val 0xff
        ∷ bit_and (val >>> 8) 0xff
        ∷ bit_and (val >>> 16) 0xff
        ∷ bit_and (val >>> 24) 0xff
        ∷ [])
      4

pub pb_encode_fixed64 : ℕ → Action Ostream (Unit {0})
pb_encode_fixed64 val =
    pb_write
      (bit_and val 0xff
        ∷ bit_and (val >>> 8) 0xff
        ∷ bit_and (val >>> 16) 0xff
        ∷ bit_and (val >>> 24) 0xff
        ∷ bit_and (val >>> 32) 0xff
        ∷ bit_and (val >>> 40) 0xff
        ∷ bit_and (val >>> 48) 0xff
        ∷ bit_and (val >>> 56) 0xff
        ∷ [])
      8

pub pb_encode_tag : ℕ → ℕ → Action Ostream (Unit {0})
pb_encode_tag wiretype field_number = pb_encode_varint (bit_or (u64 (field_number <<< 3)) wiretype)

pub pb_encode_string : List ℕ → ℕ → Action Ostream (Unit {0})
pb_encode_string buffer size = do pb_encode_varint size; pb_write buffer size
