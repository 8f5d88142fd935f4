-- ===== src/Nanopb/Encoder/Wire.antt =====
-- What pb_encode.c shall write for a message, without streams: the fields that are present, each as
-- its key and its value on the wire, one behind the other. `none` stands where the encoder shall fail.
pub mod Sized
pub mod Values
pub mod Items
pub mod Arrays
pub mod Fields
pub mod Message
pub mod Grows
pub mod Depth
use teta.Prelude.{
  ℕ, zero, suc, ◌+◌, ◌-◌, ◌^◌, Bool, true, Option, none, some, List, [], ◌++◌, not, ◌&&◌, ◌||◌, ltb,
  leb, ◌==◌, if◌then◌else◌,
}
use mathlib.Core.Option
use teta.Nanopb.Ostream.Gives.{◌+++◌}
use teta.Nanopb.Memory.{
  Memory, read_uint, read_pointer, read_size, read_bool, sign_extend, bytes_at, offset,
  signed_offset,
}
use teta.Nanopb.Fields.{
  Field, Iter, field_at, ltype, htype, atype, ltype_varint, ltype_uvarint, ltype_svarint,
  ltype_fixed32, ltype_fixed64, ltype_bytes, ltype_string, ltype_submessage,
  ltype_fixed_length_bytes, ltype_last_packable, ltype_extension, atype_static, atype_pointer,
  atype_callback, htype_required, htype_repeated, htype_oneof, htype_optional,
}
use teta.Nanopb.Fields.Walk.{walk, count_fields}
use teta.Nanopb.Wire.{
  WireValue, varint_value, fixed64_value, delimited_value, fixed32_value, wire_type, payload, key,
}
use teta.Nanopb.Encode.{zigzag}
use teta.Nanopb.Encoder.Values.{string_size}
use teta.Nanopb.Encoder.Fields.{
  has_field, value_address, entry_count, extension_type_encode, extension_type_arg,
}
use teta.Nanopb.Encoder.Arrays.{entry_address}
use teta.Nanopb.Encoder.Program.{Program}

-- A value behind its key.
abbrev pub item : ℕ → WireValue → List ℕ
item number w = key number (wire_type w) ++ payload w

-- `count` strings of bytes in a row, of things that stand `step` bytes apart.
unfoldable pub in_a_row : ℕ → ℕ → (ℕ → Option (List ℕ)) → ℕ → Option (List ℕ)
in_a_row step zero bytes p = some []
in_a_row step (suc count) bytes p = bytes p +++ in_a_row step count bytes (offset p step)

abbrev pub when : Option Bool → Option (List ℕ) → Option (List ℕ)
when none r = none
when (some present) r = if present then r else some []

-- The integers of one, two, four and eight bytes.
unfoldable pub unsigned_at : Memory → ℕ → ℕ → Option ℕ
unsigned_at mem size src =
    if size == 1
    then some (read_uint mem 1 src)
    else if size == 2
    then some (read_uint mem 2 src)
    else if size == 4
    then some (read_uint mem 4 src)
    else if size == 8
    then some (read_uint mem 8 src)
    else none

unfoldable pub signed_at : Memory → ℕ → ℕ → Option ℕ
signed_at mem size src =
    if size == 1
    then some (sign_extend 8 (read_uint mem 1 src))
    else if size == 2
    then some (sign_extend 16 (read_uint mem 2 src))
    else if size == 4
    then some (sign_extend 32 (read_uint mem 4 src))
    else if size == 8
    then some (read_uint mem 8 src)
    else none

-- What stands in a bytes field: its length, and behind it the bytes.
unfoldable pub byte_string_at : Memory → Field → ℕ → Option (List ℕ)
byte_string_at mem field src =
    if src == 0
    then some []
    else if atype field == atype_static && ltb field.data_size (read_size mem src + 4)
    then none
    else some (bytes_at mem (read_size mem src) (offset src 4))

-- `inner` gives the bytes of a submessage; `callbacks` and `extensions` what the program's own
-- functions write.
module _ (mem : Memory) (program : Program) (callbacks : ℕ → Field → ℕ → List ℕ)
    (extensions : ℕ → ℕ → List ℕ) where
  module _ (depth : ℕ) (inner : List Field → ℕ → Option (List ℕ)) where
    unfoldable pub submessage_at : Field → ℕ → Option (List ℕ)
    submessage_at field src =
        if field.ptr == 0 then none else inner (program.descriptor field.ptr) src

    unfoldable pub wire_value : Field → ℕ → Option WireValue
    wire_value field src =
        if ltype field == ltype_varint
        then Option.map varint_value (signed_at mem field.data_size src)
        else if ltype field == ltype_uvarint
        then Option.map varint_value (unsigned_at mem field.data_size src)
        else if ltype field == ltype_svarint
        then Option.map (λ v. varint_value (zigzag v)) (signed_at mem field.data_size src)
        else if ltype field == ltype_fixed32
        then some (fixed32_value (read_uint mem 4 src))
        else if ltype field == ltype_fixed64
        then some (fixed64_value (read_uint mem 8 src))
        else if ltype field == ltype_bytes
        then Option.map delimited_value (byte_string_at mem field src)
        else if ltype field == ltype_string
        then some (delimited_value (bytes_at mem (string_size mem field src) src))
        else if ltype field == ltype_submessage
        then Option.map delimited_value (submessage_at field src)
        else if ltype field == ltype_fixed_length_bytes
        then some (delimited_value (bytes_at mem field.data_size src))
        else none

    unfoldable pub item_at : Field → ℕ → Option (List ℕ)
    item_at field src = Option.map (item field.tag) (wire_value field src)

    -- A packed array is one string of its values; any other is one item for each entry.
    unfoldable pub array_at : Field → ℕ → ℕ → Option (List ℕ)
    array_at field p count =
        if count == 0
        then some []
        else if not (atype field == atype_pointer) && ltb field.array_size count
        then none
        else if leb (ltype field) ltype_last_packable
        then Option.map (λ bs. item field.tag (delimited_value bs))
            (in_a_row field.data_size count (λ q. Option.map payload (wire_value field q)) p)
        else in_a_row field.data_size count (λ q. item_at field (entry_address mem field q)) p

    unfoldable pub basic_field_at : Field → ℕ → Option (List ℕ)
    basic_field_at field p =
        let address = value_address mem field p in
        if htype field == htype_required
        then if address == 0 then none else item_at field address
        else if htype field == htype_optional
        then when (has_field mem program depth field p) (item_at field address)
        else if htype field == htype_repeated
        then array_at field address (entry_count mem field p)
        else if htype field == htype_oneof
        then if field.size_offset == 0
          then none
          else if read_size mem (signed_offset p field.size_offset) == field.tag
          then item_at field address
          else some []
        else none

    unfoldable pub callback_field_at : Field → ℕ → Option (List ℕ)
    callback_field_at field p =
        let function = read_pointer mem p in
        if function == 0 then some [] else some (callbacks function field (offset p 8))

    unfoldable pub field_value_at : Field → ℕ → Option (List ℕ)
    field_value_at field p =
        if atype field == atype_static
        then basic_field_at field p
        else if atype field == atype_pointer
        then basic_field_at field p
        else if atype field == atype_callback
        then callback_field_at field p
        else none

    unfoldable pub extension_at : ℕ → Option (List ℕ)
    extension_at extension =
        let field = field_at (program.descriptor (extension_type_arg mem extension)) 0 in
        if extension_type_encode mem extension == 0
        then if atype field == atype_pointer
          then field_value_at field (offset extension 8)
          else field_value_at field (read_pointer mem (offset extension 8))
        else some (extensions (extension_type_encode mem extension) extension)

    -- A list of at most `rounds` extensions.
    unfoldable pub extensions_at : ℕ → ℕ → Option (List ℕ)
    extensions_at zero extension = if extension == 0 then some [] else none
    extensions_at (suc rounds) extension =
        if extension == 0
        then some []
        else extension_at extension
          +++ extensions_at rounds (read_pointer mem (offset extension 16))

    unfoldable pub one_field_at : ℕ → Field → ℕ → Option (List ℕ)
    one_field_at rounds field p =
        if ltype field == ltype_extension
        then extensions_at rounds (read_pointer mem p)
        else field_value_at field p

    -- `k` fields of a structure, from the field of index `i` on.
    unfoldable pub fields_from : ℕ → List Field → ℕ → ℕ → ℕ → Option (List ℕ)
    fields_from rounds fields src zero i = some []
    fields_from rounds fields src (suc k) i =
        one_field_at rounds (field_at fields i) (walk fields src i).p_data
        +++ fields_from rounds fields src k (suc i)

  -- A message of at most `depth` levels, with at most `depth` extensions in a list.
  unfoldable pub message_bytes : ℕ → List Field → ℕ → Option (List ℕ)
  message_bytes zero fields src = none
  message_bytes (suc depth) fields src =
      fields_from (suc depth) (message_bytes depth) (suc depth) fields src (count_fields fields) 0
