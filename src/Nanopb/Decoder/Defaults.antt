-- ===== src/Nanopb/Decoder/Defaults.antt =====
-- TestProdSS/Pods/nanopb/pb_decode.c: `pb_field_set_to_default` and `pb_message_set_to_defaults`.
-- The fuel `depth` bounds the levels of messages in messages and the extensions in a list.
use teta.Prelude.{ℕ, zero, suc, Bool, false, not, ◌&&◌, ◌||◌, List, ◌==◌, if◌then◌else◌}
use teta.Nanopb.Memory.{
  read_pointer, write_pointer, write_size, write_bool, write_bytes, write_zeros, bytes_at,
}
use teta.Nanopb.Machine.{Machine, marked, unfinished, on_memory}
use teta.Nanopb.Fields.{
  Field, Iter, current, atype, htype, ltype, ltype_extension, ltype_submessage, ltype_string,
  ltype_bytes, htype_optional, htype_repeated, htype_oneof, atype_static, atype_pointer,
}
use teta.Nanopb.Decoder.Walk.{iter_from_extension, extension_found, over_message, each_extension}

abbrev pub has_count : Field → Bool
has_count field = htype field == htype_repeated || htype field == htype_oneof

-- The part under `if (init_data)`; `set_message` is `pb_message_set_to_defaults`.
unfoldable pub init_data :
    (List Field → ℕ → Machine → Machine) → (ℕ → List Field) → Iter → Machine → Machine
init_data set_message descriptor iter =
    if ltype (current iter) == ltype_submessage
    then set_message (descriptor (current iter).ptr) iter.p_data
    else if not ((current iter).ptr == 0)
    then on_memory (λ mem.
      write_bytes mem iter.p_data (bytes_at mem (current iter).data_size (current iter).ptr))
    else on_memory (λ mem. write_zeros mem iter.p_data (current iter).data_size)

unfoldable pub static_default :
    (List Field → ℕ → Machine → Machine) → (ℕ → List Field) → Iter → Machine → Machine
static_default set_message descriptor iter w =
    if htype (current iter) == htype_optional && not (iter.p_size == iter.p_data)
    then init_data set_message descriptor iter
        (on_memory (λ mem. write_bool mem iter.p_size false) w)
    else if has_count (current iter)
    then on_memory (λ mem. write_size mem iter.p_size 0) w
    else init_data set_message descriptor iter w

unfoldable pub pointer_default : Iter → Machine → Machine
pointer_default iter = on_memory λ mem.
    let cleared = write_pointer mem iter.p_data 0 in
    if has_count (current iter) then write_size cleared iter.p_size 0 else cleared

module _ (descriptor : ℕ → List Field) where
  -- One extension; `set_field` is `pb_field_set_to_default`.
  unfoldable pub extension_default : (Iter → Machine → Machine) → ℕ → Machine → Machine
  extension_default set_field ext w =
      let found = on_memory (λ mem. write_bool mem (extension_found ext) false) w in
      set_field (iter_from_extension descriptor found.mem ext) found

  unfoldable pub pb_field_set_to_default : ℕ → Iter → Machine → Machine
  pb_field_set_to_default zero iter w = marked unfinished w
  pb_field_set_to_default (suc depth) iter w =
      let set_field = pb_field_set_to_default depth in
      if ltype (current iter) == ltype_extension
      then each_extension (suc depth) (extension_default set_field) (read_pointer w.mem iter.p_data)
          w
      else if atype (current iter) == atype_static
      then static_default (over_message set_field) descriptor iter w
      else if atype (current iter) == atype_pointer
      then pointer_default iter w
      else w

  unfoldable pub pb_message_set_to_defaults : ℕ → List Field → ℕ → Machine → Machine
  pb_message_set_to_defaults depth = over_message (pb_field_set_to_default depth)

  unfoldable pub initialize_pointer_field : ℕ → ℕ → Field → Machine → Machine
  initialize_pointer_field depth p_item field w =
      if ltype field == ltype_string || ltype field == ltype_bytes
      then on_memory (λ mem. write_pointer mem p_item 0) w
      else if ltype field == ltype_submessage
      then pb_message_set_to_defaults depth (descriptor field.ptr) p_item
          (on_memory (λ mem. write_zeros mem p_item field.data_size) w)
      else w
