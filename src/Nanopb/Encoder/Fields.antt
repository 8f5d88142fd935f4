-- ===== src/Nanopb/Encoder/Fields.antt =====
-- TestProdSS/Pods/nanopb/pb_encode.c: basic fields, callback fields and extensions. The section's
-- `encode` is the call `pb_encode(stream, fields, src_struct)` for the messages that stand in
-- fields; `depth` bounds the levels of structures that the test for a default value goes down.
use teta.Prelude.{ℕ, zero, suc, Bool, true, Option, none, some, List, not, ◌==◌, if◌then◌else◌}
use mathlib.Core.Option
use teta.Nanopb.Action.{
  Action, return, ◌>>◌, Errmsg, missing_required_field, invalid_field_type,
  invalid_field_descriptor, callback_error,
}
use teta.Nanopb.Ostream.{Ostream, fail, lost, undefined, unfinished}
use teta.Nanopb.Memory.{Memory, read_pointer, read_size, read_bool, offset, signed_offset}
use teta.Nanopb.Fields.{
  Field, field_at, ltype, htype, atype, ltype_varint, ltype_uvarint, ltype_svarint, ltype_fixed32,
  ltype_fixed64, ltype_bytes, ltype_string, ltype_submessage, ltype_fixed_length_bytes,
  atype_static, atype_pointer, atype_callback, htype_required, htype_repeated, htype_oneof,
  htype_optional,
}
use teta.Nanopb.Encoder.Program.{Program}
use teta.Nanopb.Encoder.Values.{
  pb_encode_tag_for_field, pb_enc_varint, pb_enc_uvarint, pb_enc_svarint, pb_enc_fixed32,
  pb_enc_fixed64, pb_enc_bytes, pb_enc_string, pb_enc_fixed_length_bytes,
}
use teta.Nanopb.Encoder.Defaults.{pb_check_proto3_default_value}
use teta.Nanopb.Encoder.Submessage.{encode_submessage}
use teta.Nanopb.Encoder.Arrays.{encode_array}

-- A message is absent, present, or was not decided within the model's fuel.
abbrev pub if_present : Option Bool → Action Ostream (Unit {0}) → Action Ostream (Unit {0})
if_present none m = lost unfinished
if_present (some present) m = if present then m else return tt

-- `if (!callback(…)) PB_RETURN_ERROR(stream, msg);`
abbrev pub or_error : Errmsg → Option (Unit {0}) × Ostream → Option (Unit {0}) × Ostream
or_error msg (some u, s) = (some u, s)
or_error msg (none, s) = fail msg s

module _ (mem : Memory) where
  -- The value of `pData` behind the test of the allocation.
  abbrev pub value_address : Field → ℕ → ℕ
  value_address field p_data =
      if atype field == atype_pointer then read_pointer mem p_data else p_data

  -- A count of array entries.
  abbrev pub entry_count : Field → ℕ → ℕ
  entry_count field p_data =
      if field.size_offset == 0
      then field.array_size
      else read_size mem (signed_offset p_data field.size_offset)

  -- struct pb_extension_type_s: `decode`, `encode` and `arg`; struct pb_extension_s: `type`, `dest`,
  -- `next` and `found`; each of eight bytes but the last.
  abbrev pub extension_type_encode : ℕ → ℕ
  extension_type_encode extension = read_pointer mem (offset (read_pointer mem extension) 8)

  abbrev pub extension_type_arg : ℕ → ℕ
  extension_type_arg extension = read_pointer mem (offset (read_pointer mem extension) 16)

module _ (mem : Memory) (program : Program) (depth : ℕ) where
  -- `implicit_has` behind the test of the allocation, where `pSize` points to it. `p_data` is the
  -- value of the argument `pData`.
  unfoldable pub implicit_has : Field → ℕ → Option Bool
  implicit_has field p_data =
      if atype field == atype_pointer
      then some (not (read_pointer mem p_data == 0))
      else if htype field == htype_optional
      then Option.map not (pb_check_proto3_default_value mem program depth field p_data)
      else some true

  -- `*(const bool*)pSize`
  unfoldable pub has_field : Field → ℕ → Option Bool
  has_field field p_data =
      if field.size_offset == 0
      then implicit_has field p_data
      else some (read_bool mem (signed_offset p_data field.size_offset))

module _ (mem : Memory) (program : Program) (depth : ℕ)
    (encode : List Field → ℕ → Action Ostream (Unit {0})) where
  unfoldable pub pb_enc_submessage : Field → ℕ → Action Ostream (Unit {0})
  pb_enc_submessage field src =
      if field.ptr == 0
      then fail invalid_field_descriptor
      else encode_submessage (encode (program.descriptor field.ptr) src)

  -- PB_ENCODERS. It holds the null pointer for extensions, and ends behind fixed-length bytes.
  unfoldable pub encoder : Field → ℕ → Action Ostream (Unit {0})
  encoder field src =
      if ltype field == ltype_varint
      then pb_enc_varint mem field src
      else if ltype field == ltype_uvarint
      then pb_enc_uvarint mem field src
      else if ltype field == ltype_svarint
      then pb_enc_svarint mem field src
      else if ltype field == ltype_fixed32
      then pb_enc_fixed32 mem field src
      else if ltype field == ltype_fixed64
      then pb_enc_fixed64 mem field src
      else if ltype field == ltype_bytes
      then pb_enc_bytes mem field src
      else if ltype field == ltype_string
      then pb_enc_string mem field src
      else if ltype field == ltype_submessage
      then pb_enc_submessage field src
      else if ltype field == ltype_fixed_length_bytes
      then pb_enc_fixed_length_bytes mem field src
      else lost undefined

  -- A field that was not given a place for its union's tag makes C read beyond `implicit_has`.
  unfoldable pub encode_basic_field : Field → ℕ → Action Ostream (Unit {0})
  encode_basic_field field p_data =
      let address = value_address mem field p_data in
      let value = pb_encode_tag_for_field field >> encoder field address in
      if htype field == htype_required
      then if address == 0 then fail missing_required_field else value
      else if htype field == htype_optional
      then if_present (has_field mem program depth field p_data) value
      else if htype field == htype_repeated
      then encode_array mem field address (entry_count mem field p_data) encoder
      else if htype field == htype_oneof
      then if field.size_offset == 0
        then lost undefined
        else if read_size mem (signed_offset p_data field.size_offset) == field.tag
        then value
        else return tt
      else fail invalid_field_type

  -- struct pb_callback_s: the function's address, and behind it `arg`.
  unfoldable pub encode_callback_field : Field → ℕ → Action Ostream (Unit {0})
  encode_callback_field field p_data =
      let function = read_pointer mem p_data in
      if function == 0 then return tt else λ s.
      or_error callback_error (program.encode_callback function field (offset p_data 8) s)

  unfoldable pub encode_field : Field → ℕ → Action Ostream (Unit {0})
  encode_field field p_data =
      if atype field == atype_static
      then encode_basic_field field p_data
      else if atype field == atype_pointer
      then encode_basic_field field p_data
      else if atype field == atype_callback
      then encode_callback_field field p_data
      else fail invalid_field_type

  unfoldable pub default_extension_encoder : ℕ → Action Ostream (Unit {0})
  default_extension_encoder extension =
      let field = field_at (program.descriptor (extension_type_arg mem extension)) 0 in
      if atype field == atype_pointer
      then encode_field field (offset extension 8)
      else encode_field field (read_pointer mem (offset extension 8))

  unfoldable pub encode_extension : ℕ → Action Ostream (Unit {0})
  encode_extension extension =
      if extension_type_encode mem extension == 0
      then default_extension_encoder extension
      else program.encode_extension (extension_type_encode mem extension) extension

  -- `while (extension)`, for at most `rounds` extensions.
  unfoldable pub extension_loop : ℕ → ℕ → Action Ostream (Unit {0})
  extension_loop zero extension = if extension == 0 then return tt else lost unfinished
  extension_loop (suc rounds) extension =
      let rest = extension_loop rounds (read_pointer mem (offset extension 16)) in
      if extension == 0 then return tt else encode_extension extension >> rest

  unfoldable pub encode_extension_field : ℕ → ℕ → Action Ostream (Unit {0})
  encode_extension_field rounds p_data = extension_loop rounds (read_pointer mem p_data)
