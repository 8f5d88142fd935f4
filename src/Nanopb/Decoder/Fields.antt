-- ===== src/Nanopb/Decoder/Fields.antt =====
-- TestProdSS/Pods/nanopb/pb_decode.c: `pb_dec_submessage`, PB_DECODERS, and the decoding of one field
-- by its allocation. The section's `decode` and `decode_noinit` are `pb_decode` and
-- `pb_decode_noinit` for the messages that stand in fields; `depth` is the fuel of the defaults and of
-- the release, and bounds the calls that a callback makes without reading.
use teta.Prelude.{ℕ, ◌+◌, Bool, true, not, ◌&&◌, ◌||◌, List, leb, ◌==◌, if◌then◌else◌}
use teta.Nanopb.Action.{Action, return, ◌>>=◌, ◌>>◌, invalid_field_descriptor, invalid_field_type}
use teta.Nanopb.Istream.{Istream}
use teta.Nanopb.Memory.{read_pointer, write_size, write_bool, write_zeros, offset}
use teta.Nanopb.Machine.{Machine, fail, lost, undefined, on_stream, gets, store, modify}
use teta.Nanopb.Fields.{
  Field, Iter, current, atype, htype, ltype, ltype_varint, ltype_uvarint, ltype_svarint,
  ltype_fixed32, ltype_fixed64, ltype_last_packable, ltype_bytes, ltype_string, ltype_submessage,
  ltype_fixed_length_bytes, htype_required, htype_optional, htype_repeated, htype_oneof,
  atype_static, atype_pointer, atype_callback,
}
use teta.Nanopb.Decode.{wt_string, pb_skip_field}
use teta.Nanopb.Decoder.Program.{Program}
use teta.Nanopb.Decoder.Allocate.{allocate_field}
use teta.Nanopb.Decoder.Values.{
  pb_dec_varint, pb_dec_uvarint, pb_dec_svarint, pb_dec_fixed32, pb_dec_fixed64, pb_dec_bytes,
  pb_dec_string, pb_dec_fixed_length_bytes,
}
use teta.Nanopb.Decoder.Defaults.{pb_message_set_to_defaults, initialize_pointer_field}
use teta.Nanopb.Decoder.Release.{pb_release_single_field, pb_release_union_field}
use teta.Nanopb.Decoder.Substream.{
  open_substream, close_substream, fail_on, call_until_read, call_on_raw_value,
}
use teta.Nanopb.Decoder.Arrays.{static_packed, static_repeated, pointer_packed, pointer_repeated}

-- The test for a packed array.
abbrev pub is_packed : ℕ → Field → Bool
is_packed wire_type field = wire_type == wt_string && leb (ltype field) ltype_last_packable

module _ (program : Program) (depth : ℕ)
    (decode decode_noinit : List Field → ℕ → Action Machine (Unit {0})) where
  unfoldable pub decode_submessage : Field → ℕ → Action Machine (Unit {0})
  decode_submessage field dest =
      if htype field == htype_repeated
      then decode (program.descriptor field.ptr) dest
      else decode_noinit (program.descriptor field.ptr) dest

  abbrev pub submessage_body : Field → ℕ → Istream → Action Machine (Unit {0})
  submessage_body field dest s w =
      if field.ptr == 0
      then fail_on s invalid_field_descriptor w
      else close_substream s (decode_submessage field dest w)

  unfoldable pub pb_dec_submessage : Field → ℕ → Action Machine (Unit {0})
  pb_dec_submessage field dest = open_substream (submessage_body field dest)

  -- PB_DECODERS. It holds the null pointer for extensions, and ends behind fixed-length bytes.
  unfoldable pub decoder : Field → ℕ → Action Machine (Unit {0})
  decoder field dest =
      if ltype field == ltype_varint
      then pb_dec_varint field dest
      else if ltype field == ltype_uvarint
      then pb_dec_uvarint field dest
      else if ltype field == ltype_svarint
      then pb_dec_svarint field dest
      else if ltype field == ltype_fixed32
      then pb_dec_fixed32 field dest
      else if ltype field == ltype_fixed64
      then pb_dec_fixed64 field dest
      else if ltype field == ltype_bytes
      then pb_dec_bytes program.place field dest
      else if ltype field == ltype_string
      then pb_dec_string program.place field dest
      else if ltype field == ltype_submessage
      then pb_dec_submessage field dest
      else if ltype field == ltype_fixed_length_bytes
      then pb_dec_fixed_length_bytes field dest
      else lost undefined

  abbrev pub func : Iter → ℕ → Action Machine (Unit {0})
  func iter = decoder (current iter)

  -- `*(bool*)iter->pSize = true`, where the field has a place for it.
  abbrev pub set_has : Iter → Action Machine (Unit {0})
  set_has iter =
      if iter.p_size == iter.p_data
      then return tt
      else store (λ mem. write_bool mem iter.p_size true)

  -- `*(pb_size_t*)iter->pSize = iter->pos->tag`
  abbrev pub set_which : Iter → Action Machine (Unit {0})
  set_which iter = store (λ mem. write_size mem iter.p_size (current iter).tag)

  -- The member of a union, empty and with its defaults.
  abbrev pub clear_union : Iter → Action Machine (Unit {0})
  clear_union iter =
      if ltype (current iter) == ltype_submessage
      then store (λ mem. write_zeros mem iter.p_data (current iter).data_size)
        >> modify (
            pb_message_set_to_defaults program.descriptor depth
              (program.descriptor (current iter).ptr) iter.p_data)
      else return tt

  unfoldable pub decode_static_field : ℕ → Iter → Action Machine (Unit {0})
  decode_static_field wire_type iter =
      if htype (current iter) == htype_required
      then func iter iter.p_data
      else if htype (current iter) == htype_optional
      then set_has iter >> func iter iter.p_data
      else if htype (current iter) == htype_repeated
      then if is_packed wire_type (current iter)
        then static_packed (func iter) iter
        else static_repeated (func iter) iter
      else if htype (current iter) == htype_oneof
      then set_which iter >> (clear_union iter >> func iter iter.p_data)
      else fail invalid_field_type

  -- The old submessage of a duplicate field is released.
  abbrev pub release_duplicate : Iter → Machine → Machine
  release_duplicate iter w =
      if ltype (current iter) == ltype_submessage && not (read_pointer w.mem iter.p_data == 0)
      then pb_release_single_field program.descriptor depth iter w
      else w

  abbrev pub initialize : Iter → ℕ → Machine → Machine
  initialize iter p_item = initialize_pointer_field program.descriptor depth p_item (current iter)

  unfoldable pub decode_pointed : Iter → Action Machine (Unit {0})
  decode_pointed iter =
      if ltype (current iter) == ltype_string || ltype (current iter) == ltype_bytes
      then func iter iter.p_data
      else (do
        allocate_field program.place iter.p_data (current iter).data_size 1
        item ← gets (λ w. read_pointer w.mem iter.p_data)
        modify (initialize iter item)
        func iter item)

  unfoldable pub decode_pointer_field : ℕ → Iter → Action Machine (Unit {0})
  decode_pointer_field wire_type iter =
      if htype (current iter) == htype_required || htype (current iter) == htype_optional
      then modify (release_duplicate iter) >> decode_pointed iter
      else if htype (current iter) == htype_oneof
      then modify (release_duplicate iter) >> (set_which iter >> decode_pointed iter)
      else if htype (current iter) == htype_repeated
      then if is_packed wire_type (current iter)
        then pointer_packed program.place (initialize iter) (func iter) iter
        else pointer_repeated program.place (initialize iter) (func iter) iter
      else fail invalid_field_type

  -- struct pb_callback_s: the function's address, and behind it `arg`.
  abbrev pub call_decode : Iter → ℕ → Action Machine (Unit {0})
  call_decode iter function = program.decode_callback function (current iter) (offset iter.p_data 8)

  abbrev pub decode_with : ℕ → Iter → ℕ → Action Machine (Unit {0})
  decode_with wire_type iter function =
      if iter.p_data == 0 || function == 0
      then on_stream (pb_skip_field wire_type)
      else if wire_type == wt_string
      then open_substream
          (λ s w. call_until_read (w.stream.bytes_left + depth) (call_decode iter function) s w)
      else call_on_raw_value wire_type (call_decode iter function)

  unfoldable pub decode_callback_field : ℕ → Iter → Action Machine (Unit {0})
  decode_callback_field wire_type iter w =
      decode_with wire_type iter (read_pointer w.mem iter.p_data) w

  unfoldable pub decode_by_allocation : ℕ → Iter → Action Machine (Unit {0})
  decode_by_allocation wire_type iter =
      if atype (current iter) == atype_static
      then decode_static_field wire_type iter
      else if atype (current iter) == atype_pointer
      then decode_pointer_field wire_type iter
      else if atype (current iter) == atype_callback
      then decode_callback_field wire_type iter
      else fail invalid_field_type

  abbrev pub released_union : Iter → Action Machine Iter
  released_union iter =
      if htype (current iter) == htype_oneof
      then pb_release_union_field program.descriptor depth iter
      else return iter

  -- The value is the iterator as the function leaves it.
  unfoldable pub decode_field : ℕ → Iter → Action Machine Iter
  decode_field wire_type iter = do
    same ← released_union iter
    decode_by_allocation wire_type same
    return same
