-- ===== src/Nanopb/Encoder/Values.antt =====
-- TestProdSS/Pods/nanopb/pb_encode.c: the key of a field, and the encoders of single values
-- (PB_ENCODERS but for submessages and extensions). `src` is an address, 0 the null pointer.
use teta.Prelude.{ℕ, ◌+◌, ◌-◌, ◌^◌, [], ltb, ◌==◌, ◌&&◌, ◌||◌, if◌then◌else◌}
use teta.Nanopb.Action.{Action, invalid_data_size, invalid_field_type, bytes_size_exceeded}
use teta.Nanopb.Ostream.{Ostream, fail}
use teta.Nanopb.Memory.{Memory, read_uint, read_size, sign_extend, bytes_at, c_strnlen, offset}
use teta.Nanopb.Fields.{
  Field, ltype, atype, ltype_varint, ltype_uvarint, ltype_svarint, ltype_fixed32, ltype_fixed64,
  ltype_bytes, ltype_string, ltype_submessage, ltype_fixed_length_bytes, atype_static,
  atype_pointer,
}
use teta.Nanopb.Encode.{
  pb_encode_varint, pb_encode_svarint, pb_encode_fixed32, pb_encode_fixed64, pb_encode_tag,
  pb_encode_string,
}
use teta.Nanopb.Decode.{wt_varint, wt_64bit, wt_string, wt_32bit}

unfoldable pub pb_encode_tag_for_field : Field → Action Ostream (Unit {0})
pb_encode_tag_for_field field =
    if ltype field == ltype_varint || ltype field == ltype_uvarint || ltype field == ltype_svarint
    then pb_encode_tag wt_varint field.tag
    else if ltype field == ltype_fixed32
    then pb_encode_tag wt_32bit field.tag
    else if ltype field == ltype_fixed64
    then pb_encode_tag wt_64bit field.tag
    else if ltype field == ltype_bytes
        || ltype field == ltype_string
        || ltype field == ltype_submessage
        || ltype field == ltype_fixed_length_bytes
    then pb_encode_tag wt_string field.tag
    else fail invalid_field_type

module _ (mem : Memory) where
  unfoldable pub pb_enc_varint : Field → ℕ → Action Ostream (Unit {0})
  pb_enc_varint field src =
      if field.data_size == 1
      then pb_encode_varint (sign_extend 8 (read_uint mem 1 src))
      else if field.data_size == 2
      then pb_encode_varint (sign_extend 16 (read_uint mem 2 src))
      else if field.data_size == 4
      then pb_encode_varint (sign_extend 32 (read_uint mem 4 src))
      else if field.data_size == 8
      then pb_encode_varint (read_uint mem 8 src)
      else fail invalid_data_size

  unfoldable pub pb_enc_uvarint : Field → ℕ → Action Ostream (Unit {0})
  pb_enc_uvarint field src =
      if field.data_size == 1
      then pb_encode_varint (read_uint mem 1 src)
      else if field.data_size == 2
      then pb_encode_varint (read_uint mem 2 src)
      else if field.data_size == 4
      then pb_encode_varint (read_uint mem 4 src)
      else if field.data_size == 8
      then pb_encode_varint (read_uint mem 8 src)
      else fail invalid_data_size

  unfoldable pub pb_enc_svarint : Field → ℕ → Action Ostream (Unit {0})
  pb_enc_svarint field src =
      if field.data_size == 1
      then pb_encode_svarint (sign_extend 8 (read_uint mem 1 src))
      else if field.data_size == 2
      then pb_encode_svarint (sign_extend 16 (read_uint mem 2 src))
      else if field.data_size == 4
      then pb_encode_svarint (sign_extend 32 (read_uint mem 4 src))
      else if field.data_size == 8
      then pb_encode_svarint (read_uint mem 8 src)
      else fail invalid_data_size

  unfoldable pub pb_enc_fixed32 : Field → ℕ → Action Ostream (Unit {0})
  pb_enc_fixed32 field src = pb_encode_fixed32 (read_uint mem 4 src)

  unfoldable pub pb_enc_fixed64 : Field → ℕ → Action Ostream (Unit {0})
  pb_enc_fixed64 field src = pb_encode_fixed64 (read_uint mem 8 src)

  -- PB_BYTES_ARRAY_T_ALLOCSIZE(n) is `n + 4`.
  unfoldable pub pb_enc_bytes : Field → ℕ → Action Ostream (Unit {0})
  pb_enc_bytes field src =
      if src == 0
      then pb_encode_string [] 0
      else if atype field == atype_static && ltb field.data_size (read_size mem src + 4)
      then fail bytes_size_exceeded
      else pb_encode_string (bytes_at mem (read_size mem src) (offset src 4)) (read_size mem src)

  abbrev pub string_size : Field → ℕ → ℕ
  string_size field src =
      if src == 0
      then 0
      else c_strnlen mem (if atype field == atype_pointer then 2 ^ 64 - 1 else field.data_size) src

  unfoldable pub pb_enc_string : Field → ℕ → Action Ostream (Unit {0})
  pb_enc_string field src =
      let size = string_size field src in pb_encode_string (bytes_at mem size src) size

  unfoldable pub pb_enc_fixed_length_bytes : Field → ℕ → Action Ostream (Unit {0})
  pb_enc_fixed_length_bytes field src =
      pb_encode_string (bytes_at mem field.data_size src) field.data_size
