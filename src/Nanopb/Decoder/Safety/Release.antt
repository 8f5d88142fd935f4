-- ===== src/Nanopb/Decoder/Safety/Release.antt =====
-- The release of fields leaves the stream alone.
use teta.Prelude.{ℕ, zero, suc, refl, Bool, not, ◌&&◌, List, ◌==◌}
use teta.Nanopb.Action.{invalid_union_tag, iterator_error}
use teta.Nanopb.Memory.{read_pointer, read_size, offset, write_pointer}
use teta.Nanopb.Machine.{Machine, unfinished, undefined, on_memory, pb_free}
use teta.Nanopb.Machine.Safety.{
  Steady, Steady-id, Steady-still, Steady-marked, Steady-then, Steady-choose, Steady-with,
  pb_free-Steady, Sound, Sound-return, Sound-fail, Sound-choose, Sound-with, Sound-modify,
  Sound-then,
}
use teta.Nanopb.Fields.{
  Field, Iter, current, pb_field_iter_find, atype, htype, ltype, ltype_extension, ltype_submessage,
  htype_oneof, atype_pointer,
}
use teta.Nanopb.Decoder.Walk.{each_extension, iter_from_extension}
use teta.Nanopb.Decoder.Release.{
  release_items, release_entries, release_array, release_pointer, release_message, release_contents,
  pb_release_single_field, pb_release, restored, old_released, pb_release_union_field,
  submessage_place, submessage_count, entries_released, count_cleared, is_entry_array,
}
use teta.Nanopb.Decoder.Safety.Walk.{over_message-Steady, each_extension-Steady}

slot_released-Steady :
    (p : ℕ)
    → Steady (λ w. on_memory (λ mem. write_pointer mem p 0) (pb_free (read_pointer w.mem p) w))
slot_released-Steady p =
    Steady-then {g = on_memory (λ mem. write_pointer mem p 0)}
      (Steady-with (λ w. read_pointer w.mem p) pb_free pb_free-Steady) (Steady-still (λ w. refl))

release_entries-Steady : (count p_item : ℕ) → Steady (release_entries count p_item)
unfolding release_entries
release_entries-Steady zero p_item = Steady-id
release_entries-Steady (suc count) p_item =
    Steady-then (slot_released-Steady p_item) (release_entries-Steady count (offset p_item 8))

release_array-Steady : (count p_item : ℕ) → Steady (release_array count p_item)
release_array-Steady count p_item =
    Steady-choose (λ w. p_item == 0 && not (count == 0)) (Steady-marked undefined)
      (release_entries-Steady count p_item)

entries_released-Steady : (iter : Iter) → Steady (entries_released iter)
entries_released-Steady iter =
    Steady-choose (λ w. is_entry_array (current iter))
      (Steady-with (λ w. read_size w.mem iter.p_size)
        (λ count w. release_array count (read_pointer w.mem iter.p_data) w)
        (λ count.
          Steady-with (λ w. read_pointer w.mem iter.p_data) (release_array count)
            (release_array-Steady count)))
      Steady-id

release_pointer-Steady : (iter : Iter) → Steady (release_pointer iter)
unfolding release_pointer
release_pointer-Steady iter = Steady-then (entries_released-Steady iter) (
    Steady-then {f = count_cleared iter} (Steady-still (λ w. refl))
      (slot_released-Steady iter.p_data))

release_items-Steady :
    (release : ℕ → Machine → Machine) (count data_size p_item : ℕ)
    → ((p : ℕ) → Steady (release p))
    → Steady (release_items release count data_size p_item)
unfolding release_items
release_items-Steady release zero data_size p_item h = Steady-id
release_items-Steady release (suc count) data_size p_item h =
    Steady-then (h p_item)
      (release_items-Steady release count data_size (offset p_item data_size) h)

release_message-Steady :
    (release_field : Iter → Machine → Machine) (fields : List Field) (dest_struct : ℕ)
    → ((i : Iter) → Steady (release_field i))
    → Steady (release_message release_field fields dest_struct)
unfolding release_message
release_message-Steady release_field fields dest_struct h =
    Steady-choose (λ w. dest_struct == 0) Steady-id
      (over_message-Steady release_field fields dest_struct h)

module _ (descriptor : ℕ → List Field) where
  submessages_released-Steady :
      (release_field : Iter → Machine → Machine) (iter : Iter)
      → ((i : Iter) → Steady (release_field i))
      → Steady (λ w.
        release_items
          (release_message release_field (descriptor (current iter).ptr))
          (submessage_count w.mem iter)
          (current iter).data_size
          (submessage_place w.mem iter)
          w)
  submessages_released-Steady release_field iter h =
      let release = release_message release_field (descriptor (current iter).ptr) in
      let size = (current iter).data_size in
      Steady-with (λ w. submessage_count w.mem iter)
        (λ count w. release_items release count size (submessage_place w.mem iter) w)
        (λ count.
          Steady-with (λ w. submessage_place w.mem iter) (release_items release count size)
            (λ p.
              release_items-Steady release count size p
                (λ q. release_message-Steady release_field _ q h)))

  release_contents-Steady :
      (rounds : ℕ) (release_field : Iter → Machine → Machine) (iter : Iter)
      → ((i : Iter) → Steady (release_field i))
      → Steady (release_contents descriptor rounds release_field iter)
  unfolding release_contents
  release_contents-Steady rounds release_field iter h =
      let one : ℕ → Machine → Machine =
        λ ext v. release_field (iter_from_extension descriptor v.mem ext) v in
      Steady-choose (λ w. ltype (current iter) == ltype_extension)
        (Steady-with (λ w. read_pointer w.mem iter.p_data) (each_extension rounds one)
          (λ ext.
            each_extension-Steady rounds one ext
              (λ e. Steady-with (λ v. iter_from_extension descriptor v.mem e) release_field h)))
        (Steady-choose (λ w. ltype (current iter) == ltype_submessage)
          (Steady-choose (λ w. submessage_place w.mem iter == 0) Steady-id
            (submessages_released-Steady release_field iter h))
          Steady-id)

  pub pb_release_single_field-Steady :
      (depth : ℕ) (iter : Iter) → Steady (pb_release_single_field descriptor depth iter)
  unfolding pb_release_single_field
  pb_release_single_field-Steady zero iter = Steady-marked unfinished
  pb_release_single_field-Steady (suc depth) iter =
      let inner =
        release_contents-Steady (suc depth) (pb_release_single_field descriptor depth) iter
          (pb_release_single_field-Steady depth) in
      Steady-choose
        (λ w.
          htype (current iter) == htype_oneof
          && not (read_size w.mem iter.p_size == (current iter).tag))
        Steady-id
        (Steady-choose (λ w. atype (current iter) == atype_pointer)
          (Steady-then inner (release_pointer-Steady iter)) inner)

  pub pb_release-Steady :
      (depth : ℕ) (fields : List Field) (dest_struct : ℕ)
      → Steady (pb_release descriptor depth fields dest_struct)
  unfolding pb_release
  pb_release-Steady depth fields dest_struct =
      release_message-Steady _ fields dest_struct (pb_release_single_field-Steady depth)

  restored-Sound : (r : Iter × Bool) → Sound (restored descriptor r)
  restored-Sound (iter, found) =
      Sound-choose (λ w. found) (Sound-return iter) (Sound-fail iterator_error)

  old_released-Sound :
      (depth new_tag : ℕ) (r : Iter × Bool) → Sound (old_released descriptor depth new_tag r)
  old_released-Sound depth new_tag (iter, found) =
      Sound-choose (λ w. found)
        (Sound-then (Sound-modify (pb_release_single_field-Steady depth iter))
          (restored-Sound (pb_field_iter_find iter new_tag)))
        (Sound-fail invalid_union_tag)

  pub pb_release_union_field-Sound :
      (depth : ℕ) (iter : Iter) → Sound (pb_release_union_field descriptor depth iter)
  unfolding pb_release_union_field
  pb_release_union_field-Sound depth iter =
      Sound-choose (λ w. read_size w.mem iter.p_size == 0) (Sound-return iter)
        (Sound-choose (λ w. read_size w.mem iter.p_size == (current iter).tag) (Sound-return iter)
          (Sound-with (λ w. read_size w.mem iter.p_size)
            (λ old_tag.
              old_released descriptor depth (current iter).tag (pb_field_iter_find iter old_tag))
            (λ old_tag.
              old_released-Sound depth (current iter).tag (pb_field_iter_find iter old_tag))))
