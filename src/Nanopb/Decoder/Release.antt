-- ===== src/Nanopb/Decoder/Release.antt =====
-- TestProdSS/Pods/nanopb/pb_decode.c: `pb_release`, and the release of single fields and unions.
-- The fuel `depth` bounds the levels of messages in messages and the extensions in a list.
use teta.Prelude.{ℕ, zero, suc, Bool, some, List, not, ◌&&◌, ◌||◌, ltb, ◌==◌, if◌then◌else◌}
use teta.Nanopb.Action.{Action, invalid_union_tag, iterator_error}
use teta.Nanopb.Memory.{Memory, offset, read_pointer, read_size, write_pointer, write_size}
use teta.Nanopb.Machine.{Machine, marked, undefined, unfinished, on_memory, fail, pb_free}
use teta.Nanopb.Fields.{
  Field, Iter, current, pb_field_iter_find, atype, htype, ltype, ltype_extension, ltype_submessage,
  ltype_string, ltype_bytes, htype_repeated, htype_oneof, atype_static, atype_pointer,
}
use teta.Nanopb.Decoder.Walk.{iter_from_extension, over_message, each_extension}

-- `pItem` and `count` of the submessages in a field.
abbrev pub submessage_place : Memory → Iter → ℕ
submessage_place mem iter =
    if atype (current iter) == atype_pointer then read_pointer mem iter.p_data else iter.p_data

abbrev stored_count : Memory → Iter → ℕ
stored_count mem iter =
    if atype (current iter) == atype_static && iter.p_size == iter.p_data
    then (current iter).array_size
    else read_size mem iter.p_size

unfoldable pub submessage_count : Memory → Iter → ℕ
submessage_count mem iter =
    let count = stored_count mem iter in
    if htype (current iter) == htype_repeated
    then if atype (current iter) == atype_static && ltb (current iter).array_size count
      then (current iter).array_size
      else count
    else 1

-- `while (count--) { release(pItem); pItem += data_size; }`
unfoldable pub release_items : (ℕ → Machine → Machine) → ℕ → ℕ → ℕ → Machine → Machine
release_items release zero data_size p_item w = w
release_items release (suc count) data_size p_item w =
    release_items release count data_size (offset p_item data_size) (release p_item w)

-- `while (count--) { pb_free(*pItem); *pItem++ = NULL; }`
unfoldable pub release_entries : ℕ → ℕ → Machine → Machine
release_entries zero p_item w = w
release_entries (suc count) p_item w =
    release_entries count (offset p_item 8)
      (on_memory (λ mem. write_pointer mem p_item 0) (pb_free (read_pointer w.mem p_item) w))

-- The entries of a repeated string or bytes array. An array that is NULL has no entries.
abbrev pub release_array : ℕ → ℕ → Machine → Machine
release_array count p_item w =
    if p_item == 0 && not (count == 0) then marked undefined w else release_entries count p_item w

abbrev pub is_entry_array : Field → Bool
is_entry_array field =
    htype field == htype_repeated && (ltype field == ltype_string || ltype field == ltype_bytes)

abbrev pub entries_released : Iter → Machine → Machine
entries_released iter w =
    if is_entry_array (current iter)
    then release_array (read_size w.mem iter.p_size) (read_pointer w.mem iter.p_data) w
    else w

abbrev pub count_cleared : Iter → Machine → Machine
count_cleared iter =
    on_memory
      λ mem. if htype (current iter) == htype_repeated then write_size mem iter.p_size 0 else mem

abbrev pub main_item_released : Iter → Machine → Machine
main_item_released iter w =
    on_memory (λ mem. write_pointer mem iter.p_data 0) (pb_free (read_pointer w.mem iter.p_data) w)

-- The part under `if (PB_ATYPE(type) == PB_ATYPE_POINTER)` at the end.
unfoldable pub release_pointer : Iter → Machine → Machine
release_pointer iter w = main_item_released iter (count_cleared iter (entries_released iter w))

-- `pb_release`, with `release_field` for `pb_release_single_field`.
unfoldable pub release_message : (Iter → Machine → Machine) → List Field → ℕ → Machine → Machine
release_message release_field fields dest_struct w =
    if dest_struct == 0 then w else over_message release_field fields dest_struct w

module _ (descriptor : ℕ → List Field) where
  -- What a field contains, released by `release_field`: extensions or submessages.
  unfoldable pub release_contents : ℕ → (Iter → Machine → Machine) → Iter → Machine → Machine
  release_contents rounds release_field iter w =
      if ltype (current iter) == ltype_extension
      then each_extension rounds
          (λ ext v. release_field (iter_from_extension descriptor v.mem ext) v)
          (read_pointer w.mem iter.p_data) w
      else if ltype (current iter) == ltype_submessage
      then if submessage_place w.mem iter == 0
        then w
        else release_items (release_message release_field (descriptor (current iter).ptr))
            (submessage_count w.mem iter) (current iter).data_size (submessage_place w.mem iter) w
      else w

  unfoldable pub pb_release_single_field : ℕ → Iter → Machine → Machine
  pb_release_single_field zero iter w = marked unfinished w
  pb_release_single_field (suc depth) iter w =
      let inner = release_contents (suc depth) (pb_release_single_field depth) iter w in
      if htype (current iter) == htype_oneof
        && not (read_size w.mem iter.p_size == (current iter).tag)
      then w
      else if atype (current iter) == atype_pointer
      then release_pointer iter inner
      else inner

  unfoldable pub pb_release : ℕ → List Field → ℕ → Machine → Machine
  pb_release depth = release_message (pb_release_single_field depth)

  -- The answer of the second `pb_field_iter_find`: the iterator is where it was.
  abbrev pub restored : Iter × Bool → Action Machine Iter
  restored (iter, found) w = if found then (some iter, w) else fail iterator_error w

  abbrev pub old_released : ℕ → ℕ → Iter × Bool → Action Machine Iter
  old_released depth new_tag (iter, found) w =
      if found
      then restored (pb_field_iter_find iter new_tag) (pb_release_single_field depth iter w)
      else fail invalid_union_tag w

  -- The value is the iterator as the function leaves it.
  unfoldable pub pb_release_union_field : ℕ → Iter → Action Machine Iter
  pb_release_union_field depth iter w =
      let old_tag = read_size w.mem iter.p_size in
      let new_tag = (current iter).tag in
      if old_tag == 0
      then (some iter, w)
      else if old_tag == new_tag
      then (some iter, w)
      else old_released depth new_tag (pb_field_iter_find iter old_tag) w
