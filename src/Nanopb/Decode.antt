-- ===== src/Nanopb/Decode.antt =====
-- TestProdSS/Pods/nanopb/pb_decode.c, the helper functions below the field decoders: varints,
-- tags, skipping, raw values, substreams, zigzag and fixed-width values. An int64_t is its bit
-- pattern, below 2 ^ 64; a uint_fast8_t has 8 bits.
pub mod Varint
pub mod Varint32
pub mod Skip
pub mod Safety
pub mod Shortens
mod Tests
pub mod Values
use teta.Prelude.{ℕ, zero, suc, ◌+◌, ◌-◌, ◌^◌, Bool, true, false, not, ◌&&◌, ◌||◌}
use teta.Prelude.{Option, none, some, List, [], ◌∷◌, ◌++◌, length, ltb, leb, ◌==◌, if◌then◌else◌}
use teta.Prelude.{bit_and, bit_or, u8, u32, u64, ◌<<<◌, ◌>>>◌}
use teta.Nanopb.Action.{varint_overflow, invalid_wire_type, parent_stream_too_short}
use teta.Nanopb.Action.{Action, ◌>>=◌, return}
use teta.Nanopb.Istream.{Istream, fail, pb_read, pb_read_null, pb_readbyte, first_byte}

abbrev pub continues : ℕ → Bool
continues byte = not (bit_and byte 0x80 == 0)

-- One byte of `pb_decode_varint32_eof` after the first: the new `result`.
pub merge32 : ℕ → ℕ → ℕ → Action Istream ℕ
merge32 byte bitpos result =
    if leb 32 bitpos
    then (let sign_extension : ℕ = if ltb bitpos 63 then 0xff else 0x01 in
        if not (bit_and byte 0x7f == 0) && (result >>> 31 == 0 || not (byte == sign_extension))
        then fail varint_overflow
        else return result)
    else return (bit_or result (u32 (bit_and byte 0x7f <<< bitpos)))

-- The check after the loop.
pub last32 : ℕ → ℕ → ℕ → Action Istream ℕ
last32 byte bitpos result =
    if bitpos == 35 && not (bit_and byte 0x70 == 0) then fail varint_overflow else return result

-- The do loop. A round takes a byte or fails, so `bytes_left + 1` rounds are enough.
pub varint32_loop : ℕ → ℕ → ℕ → Action Istream ℕ
varint32_loop zero bitpos result s = (none, s)
varint32_loop (suc fuel) bitpos result s =
    (do
      byte ← pb_readbyte
      result' ← merge32 byte bitpos result
      let again = varint32_loop fuel (u8 (bitpos + 7)) result'
      if continues byte then again else last32 byte (u8 (bitpos + 7)) result')
      s

pub varint32_rest : ℕ → Action Istream ℕ
varint32_rest byte s =
    if continues byte
    then varint32_loop (s.bytes_left + 1) 7 (bit_and byte 0x7f) s
    else return byte s

abbrev pub eof_reply : Option ℕ × Istream → Bool × (Option ℕ × Istream)
eof_reply (none, s) = (s.bytes_left == 0, (none, s))
eof_reply (some byte, s) = (false, varint32_rest byte s)

-- `true` is the store `*eof = true`.
pub pb_decode_varint32_eof : Istream → Bool × (Option ℕ × Istream)
pb_decode_varint32_eof s = eof_reply (pb_readbyte s)

pub pb_decode_varint32 : Action Istream ℕ
pb_decode_varint32 s = (pb_decode_varint32_eof s).1

-- The loop stops by itself at `bitpos` 70, in its eleventh round.
pub varint_loop : ℕ → ℕ → ℕ → Action Istream ℕ
varint_loop zero bitpos result s = (none, s)
varint_loop (suc fuel) bitpos result s =
    let round : Action Istream ℕ = (do
      byte ← pb_readbyte
      let result' = bit_or result (u64 (bit_and byte 0x7f <<< bitpos))
      let again = varint_loop fuel (u8 (bitpos + 7)) result'
      if continues byte then again else return result') in
    if leb 64 bitpos then fail varint_overflow s else round s

pub pb_decode_varint : Action Istream ℕ
pb_decode_varint = varint_loop 11 0 0

pub skip_varint_loop : ℕ → Action Istream (Unit {0})
skip_varint_loop zero s = (none, s)
skip_varint_loop (suc fuel) s =
    (do
      bytes ← pb_read 1
      let again = skip_varint_loop fuel
      if continues (first_byte bytes) then again else return tt)
      s

pub pb_skip_varint : Action Istream (Unit {0})
pb_skip_varint s = skip_varint_loop (s.bytes_left + 1) s

pub pb_skip_string : Action Istream (Unit {0})
pb_skip_string = do length ← pb_decode_varint32; pb_read_null length

-- What `pb_decode_tag` stores and returns: `*eof`, and the tag and wire type if it returns true.
abbrev pub tag_reply : Bool × (Option ℕ × Istream) → Bool × (Option (ℕ × ℕ) × Istream)
tag_reply (eof, (none, s)) = (eof, (none, s))
tag_reply (eof, (some temp, s)) =
    if temp == 0 then (true, (none, s)) else (eof, (some (temp >>> 3, bit_and temp 7), s))

pub pb_decode_tag : Istream → Bool × (Option (ℕ × ℕ) × Istream)
pb_decode_tag s = tag_reply (pb_decode_varint32_eof s)

-- pb_wire_type_t; the other values of three bits have no name.
abbrev pub wt_varint : ℕ
wt_varint = 0

abbrev pub wt_64bit : ℕ
wt_64bit = 1

abbrev pub wt_string : ℕ
wt_string = 2

abbrev pub wt_32bit : ℕ
wt_32bit = 5

pub pb_skip_field : ℕ → Action Istream (Unit {0})
pb_skip_field wire_type =
    if wire_type == wt_varint
    then pb_skip_varint
    else if wire_type == wt_64bit
    then pb_read_null 8
    else if wire_type == wt_string
    then pb_skip_string
    else if wire_type == wt_32bit
    then pb_read_null 4
    else fail invalid_wire_type

-- The varint case of `read_raw_value`: `room` bytes of the buffer are free.
pub raw_varint : ℕ → Action Istream (List ℕ)
raw_varint zero s = (none, s)
raw_varint (suc room) s =
    (do
      bytes ← pb_read 1
      let again = raw_varint room >>= (λ more. return (bytes ++ more))
      if continues (first_byte bytes) then again else return bytes)
      s

-- The bytes of the value: `buf` and `*size`.
pub read_raw_value : ℕ → ℕ → Action Istream (List ℕ)
read_raw_value wire_type max_size =
    if wire_type == wt_varint
    then raw_varint max_size
    else if wire_type == wt_64bit
    then pb_read 8
    else if wire_type == wt_32bit
    then pb_read 4
    else fail invalid_wire_type

pub pb_make_string_substream : Action Istream Istream
pb_make_string_substream = do
  size ← pb_decode_varint32
  λ s.
      if ltb s.bytes_left size
      then fail parent_stream_too_short s
      else (some (record s { bytes_left = size }), record s { bytes_left = s.bytes_left - size })

abbrev pub close_reply : Istream → Option (Unit {0}) × Istream → Option (Unit {0}) × Istream
close_reply s (none, substream) = (none, s)
close_reply s (some u, substream) =
    (some tt, record s { source = substream.source; errmsg = substream.errmsg })

pub pb_close_string_substream : Istream → Action Istream (Unit {0})
pb_close_string_substream substream s = close_reply s (
    if substream.bytes_left == 0
    then (some tt, substream)
    else pb_read_null substream.bytes_left substream)

pub unzigzag : ℕ → ℕ
unzigzag value = if bit_and value 1 == 0 then value >>> 1 else 2 ^ 64 - 1 - (value >>> 1)

pub pb_decode_svarint : Action Istream ℕ
pb_decode_svarint = do value ← pb_decode_varint; return (unzigzag value)

-- `(b0 << 0) | (b1 << 8) | …`, from the byte at bit `shift` on.
pub join_bytes : ℕ → ℕ → List ℕ → ℕ
join_bytes value shift [] = value
join_bytes value shift (b ∷ bs) = join_bytes (bit_or value (b <<< shift)) (shift + 8) bs

pub pb_decode_fixed32 : Action Istream ℕ
pb_decode_fixed32 = do bytes ← pb_read 4; return (join_bytes 0 0 bytes)

pub pb_decode_fixed64 : Action Istream ℕ
pb_decode_fixed64 = do bytes ← pb_read 8; return (join_bytes 0 0 bytes)
