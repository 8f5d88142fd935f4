-- ===== src/Nanopb/Decoder/Message.antt =====
-- TestProdSS/Pods/nanopb/pb_decode.c: `pb_decode_noinit`, `pb_decode` and what is built on them. The
-- fuel `depth` bounds the levels of messages in messages, the extensions in a list, and the calls that
-- a callback makes without reading.
use teta.Prelude.{
  ℕ, zero, suc, ◌+◌, ◌-◌, ◌^◌, Bool, false, not, ◌&&◌, Option, none, some, List, ltb, leb, ◌==◌,
  if◌then◌else◌,
}
use teta.Nanopb.Action.{
  Action, return, ◌>>=◌, ◌>>◌, wrong_size_for_fixed_count_field, missing_required_field,
}
use teta.Nanopb.Istream.{Istream}
use teta.Nanopb.Memory.{read_size, write_size}
use teta.Nanopb.Machine.{Machine, fail, lost, unfinished, on_stream, store}
use teta.Nanopb.Fields.{
  Field, field_at, Iter, current, pb_field_iter_begin, pb_field_iter_find, htype, htype_required,
  htype_repeated,
}
use teta.Nanopb.Decode.{pb_decode_tag, pb_skip_field}
use teta.Nanopb.Decoder.Program.{Program}
use teta.Nanopb.Decoder.Defaults.{pb_message_set_to_defaults}
use teta.Nanopb.Decoder.Release.{pb_release}
use teta.Nanopb.Decoder.Substream.{back_to, in_substream}
use teta.Nanopb.Decoder.Fields.{decode_field}
use teta.Nanopb.Decoder.Extensions.{decode_extension, find_extension_field}
use teta.Nanopb.Decoder.Required.{pb_max_required_fields, none_seen, mark_seen, all_required_seen}

-- The local variables of `pb_decode_noinit` but `fixed_count_size`, which has an address.
-- `fixed_count_field` is an index into the descriptor.
pub record Locals : Type 0 where
  pub iter : Iter
  pub fields_seen : List ℕ
  pub extension_range_start : ℕ
  pub fixed_count_field : Option ℕ

abbrev pub initial : List Field → ℕ → Locals
initial fields dest_struct = record {
  iter = (pb_field_iter_begin fields dest_struct).0;
  fields_seen = none_seen;
  extension_range_start = 0;
  fixed_count_field = none;
}

-- `fixed_count_field != NULL && fixed_count_size != fixed_count_field->array_size`, for the value
-- `size` of `fixed_count_size`.
abbrev pub is_wrong_size : Locals → ℕ → Bool
is_wrong_size l size = elim l.fixed_count_field [
  | none ↦ false
  | some index ↦ not (size == (field_at l.iter.start index).array_size)
]

abbrev pub is_same_field : Option ℕ → ℕ → Bool
is_same_field none pos = false
is_same_field (some index) pos = index == pos

-- A field of a fixed count, whose counter is not in the structure.
abbrev pub is_fixed_count : Iter → Bool
is_fixed_count iter = htype (current iter) == htype_repeated && iter.p_size == iter.p_data

abbrev pub mark_required : Locals → Locals
mark_required l =
    if htype (current l.iter) == htype_required
      && ltb l.iter.required_field_index pb_max_required_fields
    then record l { fields_seen = mark_seen l.iter.required_field_index l.fields_seen }
    else l

-- What the extensions and the rest of the loop's body use.
module _ (program : Program) (depth : ℕ)
    (decode decode_noinit : List Field → ℕ → Action Machine (Unit {0})) where
  abbrev pub field_step : ℕ → Iter → Action Machine Iter
  field_step = decode_field program depth decode decode_noinit

  abbrev pub skipped : ℕ → Locals → Action Machine Locals
  skipped wire_type l = on_stream (pb_skip_field wire_type) >> return l

  -- `pos` is `bytes_left` before the extensions were tried.
  abbrev pub after_extension : ℕ → ℕ → Locals → Action Machine Locals
  after_extension pos wire_type l v =
      if pos == v.stream.bytes_left then skipped wire_type l v else (some l, v)

  abbrev pub try_extension : ℕ → ℕ → Locals → Action Machine Locals
  try_extension tag wire_type l w =
      (decode_extension program field_step (suc depth) tag wire_type l.iter
          >> after_extension w.stream.bytes_left wire_type l)
        w

  abbrev pub range_found : ℕ → ℕ → Locals → Iter × Bool → Action Machine Locals
  range_found tag wire_type l (iter, found) =
      let start = if found then (current iter).tag else 2 ^ 32 - 1 in
      let l' = record l { iter = iter; extension_range_start = start } in
      if leb start tag then try_extension tag wire_type l' else skipped wire_type l'

  -- No match found: an extension, or skipped.
  unfoldable pub unknown_field : ℕ → ℕ → Locals → Action Machine Locals
  unknown_field tag wire_type l =
      if leb l.extension_range_start tag
      then range_found tag wire_type l (find_extension_field l.iter)
      else skipped wire_type l

  -- The counter of a field of a fixed count is the variable at `counter`.
  abbrev pub with_counter : ℕ → Locals → Locals
  with_counter counter l = record l {
    iter = record l.iter { p_size = counter };
    fixed_count_field = some l.iter.pos;
  }

  unfoldable pub fixed_count : ℕ → Locals → Action Machine Locals
  fixed_count counter l w =
      if is_fixed_count l.iter
      then if is_same_field l.fixed_count_field l.iter.pos
        then (some (with_counter counter l), w)
        else if is_wrong_size l (read_size w.mem counter)
        then fail wrong_size_for_fixed_count_field w
        else (store (λ mem. write_size mem counter 0) >> return (with_counter counter l)) w
      else (some l, w)

  unfoldable pub known_field : ℕ → ℕ → Locals → Action Machine Locals
  known_field counter wire_type l = do
    counted ← fixed_count counter l
    let marked = mark_required counted
    iter ← field_step wire_type marked.iter
    return (record marked { iter = iter })

  abbrev pub found_field : ℕ → ℕ → ℕ → Locals → Iter × Bool → Action Machine Locals
  found_field counter tag wire_type l (iter, found) =
      if found
      then known_field counter wire_type (record l { iter = iter })
      else unknown_field tag wire_type (record l { iter = iter })

  -- The loop's body behind `pb_decode_tag`.
  unfoldable pub one_field : ℕ → Locals → ℕ × ℕ → Action Machine Locals
  one_field counter l (tag, wire_type) =
      found_field counter tag wire_type l (pb_field_iter_find l.iter tag)

abbrev pub tag_read :
    (Locals → ℕ × ℕ → Action Machine Locals)
    → Locals
    → Machine
    → Bool × (Option (ℕ × ℕ) × Istream)
    → Option Locals × Machine
tag_read rest l w (eof, (none, s)) = if eof then (some l, back_to s w) else (none, back_to s w)
tag_read rest l w (eof, (some key, s)) = rest l key (back_to s w)

-- `while (stream->bytes_left)`, with `step` for the body behind `pb_decode_tag`. A round reads a byte,
-- so that `bytes_left + 1` rounds are enough.
unfoldable pub message_loop :
    ℕ → (Locals → ℕ × ℕ → Action Machine Locals) → Locals → Action Machine Locals
message_loop zero step l = lost unfinished
message_loop (suc rounds) step l =
    let again : Locals → ℕ × ℕ → Action Machine Locals =
      λ k key. step k key >>= message_loop rounds step in
    λ w.
      if w.stream.bytes_left == 0 then (some l, w) else tag_read again l w (pb_decode_tag w.stream)

-- The checks behind the loop.
unfoldable pub check_complete : ℕ → Locals → Action Machine (Unit {0})
check_complete counter l w =
    if is_wrong_size l (read_size w.mem counter)
    then fail wrong_size_for_fixed_count_field w
    else if all_required_seen l.iter l.fields_seen
    then (some tt, w)
    else fail missing_required_field w

-- `pb_decode_noinit`, with the body of its loop and the place of `fixed_count_size`.
unfoldable pub read_message :
    ℕ → (Locals → ℕ × ℕ → Action Machine Locals) → List Field → ℕ → Action Machine (Unit {0})
read_message counter step fields dest_struct =
    store (λ mem. write_size mem counter 0)
    >> ((λ w. message_loop (w.stream.bytes_left + 1) step (initial fields dest_struct) w)
        >>= check_complete counter)

-- `pb_decode`, with `noinit` for `pb_decode_noinit`.
abbrev pub released_on_error :
    (Machine → Machine) → Option (Unit {0}) × Machine → Option (Unit {0}) × Machine
released_on_error release (none, w) = (none, release w)
released_on_error release (some u, w) = (some u, w)

module _ (program : Program) where
  unfoldable pub decode_with_defaults :
      ℕ → (List Field → ℕ → Action Machine (Unit {0})) → List Field → ℕ → Action Machine (Unit {0})
  decode_with_defaults depth noinit fields dest_struct w =
      released_on_error (pb_release program.descriptor depth fields dest_struct) (
        noinit fields dest_struct
          (pb_message_set_to_defaults program.descriptor depth fields dest_struct w))

  -- The body of the loop in `pb_decode_noinit`, where messages in fields are one level down.
  abbrev pub message_step :
      ℕ → (List Field → ℕ → Action Machine (Unit {0})) → Locals → ℕ × ℕ → Action Machine Locals
  message_step depth noinit =
      one_field program depth (decode_with_defaults depth noinit) noinit
        (program.fixed_count_address depth)

  unfoldable pub pb_decode_noinit : ℕ → List Field → ℕ → Action Machine (Unit {0})
  pb_decode_noinit zero fields dest_struct = lost unfinished
  pb_decode_noinit (suc depth) fields dest_struct =
      read_message (program.fixed_count_address depth) (message_step depth (pb_decode_noinit depth))
        fields dest_struct

  unfoldable pub pb_decode : ℕ → List Field → ℕ → Action Machine (Unit {0})
  pb_decode depth = decode_with_defaults depth (pb_decode_noinit depth)

  unfoldable pub pb_decode_delimited_noinit : ℕ → List Field → ℕ → Action Machine (Unit {0})
  pb_decode_delimited_noinit depth fields dest_struct =
      in_substream (pb_decode_noinit depth fields dest_struct)

  unfoldable pub pb_decode_delimited : ℕ → List Field → ℕ → Action Machine (Unit {0})
  pb_decode_delimited depth fields dest_struct = in_substream (pb_decode depth fields dest_struct)

  unfoldable pub pb_decode_nullterminated : ℕ → List Field → ℕ → Action Machine (Unit {0})
  pb_decode_nullterminated depth fields dest_struct = pb_decode depth fields dest_struct
