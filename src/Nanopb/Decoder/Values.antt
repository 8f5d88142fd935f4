-- ===== src/Nanopb/Decoder/Values.antt =====
-- TestProdSS/Pods/nanopb/pb_decode.c: the decoders of single values (PB_DECODERS but for submessages).
-- `dest` is an address; an int64_t is its bit pattern of 64 bits.
use teta.Prelude.{ℕ, Option, ◌+◌, ◌*◌, ◌^◌, ◌%◌, ltb, ◌==◌, if◌then◌else◌, u32, u64}
use teta.Nanopb.Action.{
  Action, return, ◌>>=◌, ◌>>◌, invalid_data_size, integer_too_large, bytes_overflow, size_too_large,
  string_overflow, incorrect_fixed_length_bytes_size,
}
use teta.Nanopb.Machine.{Machine, Placement, fail, on_stream, store, gets, read_into}
use teta.Nanopb.Memory.{
  write_uint, write_size, write_byte, write_zeros, read_pointer, sign_extend, offset,
}
use teta.Nanopb.Fields.{Field, atype, atype_pointer, pb_size_max}
use teta.Nanopb.Decode.{
  pb_decode_varint, pb_decode_varint32, pb_decode_svarint, pb_decode_fixed32, pb_decode_fixed64,
}
use teta.Nanopb.Decoder.Allocate.{allocate_field}

-- `clamped = *(intN_t*)dest = (intN_t)svalue;`, of `n` bytes, and the check of `clamped`.
unfoldable pub store_signed : ℕ → ℕ → ℕ → Action Machine (Unit {0})
store_signed n dest svalue =
    store (λ mem. write_uint mem n dest svalue)
    >> (if sign_extend (8 * n) (svalue % 2 ^ (8 * n)) == svalue
        then return tt
        else fail integer_too_large)

-- `clamped = *(uintN_t*)dest = (uintN_t)value;`, of `n` bytes, and the check of `clamped`.
unfoldable pub store_unsigned : ℕ → ℕ → ℕ → Action Machine (Unit {0})
store_unsigned n dest value =
    store (λ mem. write_uint mem n dest value)
    >> (if value % 2 ^ (8 * n) == value then return tt else fail integer_too_large)

-- The choice of the type by `field->data_size`.
abbrev pub by_size : (ℕ → Action Machine (Unit {0})) → Field → Action Machine (Unit {0})
by_size act field =
    if field.data_size == 8
    then act 8
    else if field.data_size == 4
    then act 4
    else if field.data_size == 2
    then act 2
    else if field.data_size == 1
    then act 1
    else fail invalid_data_size

unfoldable pub pb_dec_varint : Field → ℕ → Action Machine (Unit {0})
pb_dec_varint field dest = do
  value ← on_stream pb_decode_varint
  let svalue = if field.data_size == 8 then value else sign_extend 32 (u32 value)
  by_size (λ n. store_signed n dest svalue) field

unfoldable pub pb_dec_uvarint : Field → ℕ → Action Machine (Unit {0})
pb_dec_uvarint field dest = do
  value ← on_stream pb_decode_varint
  by_size (λ n. store_unsigned n dest value) field

unfoldable pub pb_dec_svarint : Field → ℕ → Action Machine (Unit {0})
pb_dec_svarint field dest = do
  value ← on_stream pb_decode_svarint
  by_size (λ n. store_signed n dest value) field

unfoldable pub pb_dec_fixed32 : Field → ℕ → Action Machine (Unit {0})
pb_dec_fixed32 field dest = do
  value ← on_stream pb_decode_fixed32
  store (λ mem. write_uint mem 4 dest value)

unfoldable pub pb_dec_fixed64 : Field → ℕ → Action Machine (Unit {0})
pb_dec_fixed64 field dest = do
  value ← on_stream pb_decode_fixed64
  store (λ mem. write_uint mem 8 dest value)

module _ (place : Placement) where
  -- `allocate_field(stream, dest, alloc_size, 1)` and the pointer that it left in `dest`.
  abbrev allocated : ℕ → ℕ → Action Machine ℕ
  allocated dest alloc_size =
      allocate_field place dest alloc_size 1 >> gets (λ w. read_pointer w.mem dest)

  -- `bdest`, from the test of the allocation on.
  unfoldable pub bytes_place : Field → ℕ → ℕ → Action Machine ℕ
  bytes_place field dest alloc_size =
      if atype field == atype_pointer
      then allocated dest alloc_size
      else if ltb field.data_size alloc_size
      then fail bytes_overflow
      else return dest

  -- PB_BYTES_ARRAY_T_ALLOCSIZE(n) is `n + 4`.
  unfoldable pub pb_dec_bytes : Field → ℕ → Action Machine (Unit {0})
  pb_dec_bytes field dest = do
    size ← on_stream pb_decode_varint32
    let alloc_size = u64 (size + 4)
    if ltb pb_size_max size
        then fail bytes_overflow
        else if ltb alloc_size size
        then fail size_too_large
        else (do
          bdest ← bytes_place field dest alloc_size
          store (λ mem. write_size mem bdest (u32 size))
          read_into (offset bdest 4) size)

  unfoldable pub string_place : Field → ℕ → ℕ → Action Machine ℕ
  string_place field dest alloc_size =
      if atype field == atype_pointer
      then allocated dest alloc_size
      else if ltb field.data_size alloc_size
      then fail string_overflow
      else return dest

  -- The terminator is written whether `pb_read` answers true or not.
  abbrev pub terminated : ℕ → Option (Unit {0}) × Machine → Option (Unit {0}) × Machine
  terminated p (status, w) = (status, record w { mem = write_byte w.mem p 0 })

  -- `size + 1` is a uint32_t.
  unfoldable pub pb_dec_string : Field → ℕ → Action Machine (Unit {0})
  pb_dec_string field dest = do
    size ← on_stream pb_decode_varint32
    let alloc_size = u32 (size + 1)
    if ltb alloc_size size then fail size_too_large else (do
      text ← string_place field dest alloc_size
      λ w. terminated (offset text size) (read_into text size w))

unfoldable pub pb_dec_fixed_length_bytes : Field → ℕ → Action Machine (Unit {0})
pb_dec_fixed_length_bytes field dest = do
  size ← on_stream pb_decode_varint32
  if ltb pb_size_max size
      then fail bytes_overflow
      else if size == 0
      then store (λ mem. write_zeros mem dest field.data_size)
      else if size == field.data_size
      then read_into dest field.data_size
      else fail incorrect_fixed_length_bytes_size
