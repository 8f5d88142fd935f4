-- ===== src/Nanopb/Decoder/Safety/Message.antt =====
-- `pb_decode` and what is built on it keep the machine sound, on every input and on every branch.
use teta.Prelude.{
  ℕ, zero, suc, ◌+◌, ◌==◌, ◌^◌, ◌-◌, Bool, true, false, Option, none, some, List, leb,
  if◌then◌else◌,
}
use teta.Nanopb.Action.{
  Action, ◌>>=◌, ◌>>◌, wrong_size_for_fixed_count_field, missing_required_field,
}
use teta.Nanopb.Istream.{Istream}
use teta.Nanopb.Istream.Safety.{Keeps, IsInStep}
use teta.Nanopb.Memory.{read_size, write_size}
use teta.Nanopb.Machine.{Machine, unfinished}
use teta.Nanopb.Machine.Safety.{
  OnSuccess, Stays, Stays-trans, Sound, Sound-return, Sound-fail, Sound-lost, Sound-if,
  Sound-choose, Sound-with, Sound-seq, Sound-then, Sound-store, Sound-stream, Steady, Sound-modify,
}
use teta.Nanopb.Fields.{Field, Iter, current, pb_field_iter_find}
use teta.Nanopb.Decode.{pb_decode_tag}
use teta.Nanopb.Decode.Safety.{pb_decode_tag-Keeps, pb_decode_tag-InStep, pb_skip_field-Safe}
use teta.Nanopb.Decoder.Program.{Program}
use teta.Nanopb.Decoder.Defaults.{pb_message_set_to_defaults}
use teta.Nanopb.Decoder.Substream.{back_to}
use teta.Nanopb.Decoder.Extensions.{decode_extension, find_extension_field}
use teta.Nanopb.Decoder.Required.{all_required_seen}
use teta.Nanopb.Decoder.Message.{
  Locals, initial, is_wrong_size, is_same_field, is_fixed_count, mark_required, field_step, skipped,
  after_extension, try_extension, range_found, unknown_field, fixed_count, known_field, found_field,
  one_field, tag_read, message_loop, check_complete, read_message, released_on_error,
  decode_with_defaults, message_step, pb_decode_noinit, pb_decode, pb_decode_delimited,
}
use teta.Nanopb.Decoder.Safety.Defaults.{pb_message_set_to_defaults-Steady}
use teta.Nanopb.Decoder.Safety.Release.{pb_release-Steady}
use teta.Nanopb.Decoder.Safety.Substream.{in_substream-Sound}
use teta.Nanopb.Decoder.Safety.Fields.{IsSafeProgram, decode_field-Sound}
use teta.Nanopb.Decoder.Safety.Extensions.{decode_extension-Sound}

module _ (program : Program) (safe : IsSafeProgram program) (depth : ℕ)
    (decode decode_noinit : List Field → ℕ → Action Machine (Unit {0}))
    (h : (fields : List Field) (p : ℕ) → Sound (decode fields p))
    (h' : (fields : List Field) (p : ℕ) → Sound (decode_noinit fields p)) where
  field_step-Sound :
      (wire_type : ℕ) (iter : Iter)
      → Sound (field_step program depth decode decode_noinit wire_type iter)
  field_step-Sound = decode_field-Sound program safe depth decode decode_noinit h h'

  skipped-Sound :
      (wire_type : ℕ) (l : Locals) → Sound (skipped program depth decode decode_noinit wire_type l)
  skipped-Sound wire_type l =
      Sound-then (Sound-stream (pb_skip_field-Safe wire_type)) (Sound-return l)

  try_extension-Sound :
      (tag wire_type : ℕ) (l : Locals)
      → Sound (try_extension program depth decode decode_noinit tag wire_type l)
  try_extension-Sound tag wire_type l =
      Sound-with (λ w. w.stream.bytes_left)
        (λ pos.
          decode_extension program (field_step program depth decode decode_noinit) (suc depth) tag
            wire_type l.iter
          >> after_extension program depth decode decode_noinit pos wire_type l)
        (λ pos.
          Sound-then
            (decode_extension-Sound program safe _ field_step-Sound (suc depth) tag wire_type
              l.iter)
            (Sound-choose (λ v. pos == v.stream.bytes_left) (skipped-Sound wire_type l)
              (Sound-return l)))

  range_found-Sound :
      (tag wire_type : ℕ) (l : Locals) (r : Iter × Bool)
      → Sound (range_found program depth decode decode_noinit tag wire_type l r)
  range_found-Sound tag wire_type l (iter, found) =
      let start = if found then (current iter).tag else 2 ^ 32 - 1 in
      let l' = record l { iter = iter; extension_range_start = start } in
      Sound-if (leb start tag) (try_extension-Sound tag wire_type l') (skipped-Sound wire_type l')

  unknown_field-Sound :
      (tag wire_type : ℕ) (l : Locals)
      → Sound (unknown_field program depth decode decode_noinit tag wire_type l)
  unfolding unknown_field
  unknown_field-Sound tag wire_type l =
      Sound-if (leb l.extension_range_start tag)
        (range_found-Sound tag wire_type l (find_extension_field l.iter))
        (skipped-Sound wire_type l)

  fixed_count-Sound :
      (counter : ℕ) (l : Locals) → Sound (fixed_count program depth decode decode_noinit counter l)
  unfolding fixed_count
  fixed_count-Sound counter l =
      Sound-choose (λ w. is_fixed_count l.iter)
        (Sound-choose (λ w. is_same_field l.fixed_count_field l.iter.pos) (Sound-return _)
          (Sound-choose (λ w. is_wrong_size l (read_size w.mem counter))
            (Sound-fail wrong_size_for_fixed_count_field)
            (Sound-then (Sound-store (λ mem. write_size mem counter 0)) (Sound-return _))))
        (Sound-return l)

  known_field-Sound :
      (counter wire_type : ℕ) (l : Locals)
      → Sound (known_field program depth decode decode_noinit counter wire_type l)
  unfolding known_field
  known_field-Sound counter wire_type l = Sound-seq _ (fixed_count-Sound counter l) λ counted.
      Sound-seq _ (field_step-Sound wire_type (mark_required counted).iter) (λ iter. Sound-return _)

  found_field-Sound :
      (counter tag wire_type : ℕ) (l : Locals) (r : Iter × Bool)
      → Sound (found_field program depth decode decode_noinit counter tag wire_type l r)
  found_field-Sound counter tag wire_type l (iter, found) =
      Sound-if found (known_field-Sound counter wire_type (record l { iter = iter }))
        (unknown_field-Sound tag wire_type (record l { iter = iter }))

  one_field-Sound :
      (counter : ℕ) (l : Locals) (key : ℕ × ℕ)
      → Sound (one_field program depth decode decode_noinit counter l key)
  unfolding one_field
  one_field-Sound counter l (tag, wire_type) =
      found_field-Sound counter tag wire_type l (pb_field_iter_find l.iter tag)

tag_read-Stays :
    (rest : Locals → ℕ × ℕ → Action Machine Locals)
    → ((l : Locals) (key : ℕ × ℕ) → Sound (rest l key))
    → (k : ℕ) (l : Locals) (w : Machine) (r : Bool × (Option (ℕ × ℕ) × Istream))
    → Keeps k w.stream r.1.1
    → Stays k w (tag_read rest l w r).1
tag_read-Stays rest h k l w (true, (none, s)) j = j
tag_read-Stays rest h k l w (false, (none, s)) j = j
tag_read-Stays rest h k l w (eof, (some key, s)) (within, le) =
    Stays-trans k w (back_to s w) (rest l key (back_to s w)).1 (within, le)
      ((h l key).keeps k (back_to s w) within)

tag_read-InStep :
    (rest : Locals → ℕ × ℕ → Action Machine Locals)
    → ((l : Locals) (key : ℕ × ℕ) → Sound (rest l key))
    → (k : ℕ) (l : Locals) (w : Machine) (r : Bool × (Option (ℕ × ℕ) × Istream)) → IsInStep k r.1.1
    → OnSuccess k (tag_read rest l w r)
tag_read-InStep rest h k l w (true, (none, s)) j = j
tag_read-InStep rest h k l w (false, (none, s)) j = tt
tag_read-InStep rest h k l w (eof, (some key, s)) j = (h l key).in_step k (back_to s w) j

tag_read-Sound :
    (rest : Locals → ℕ × ℕ → Action Machine Locals)
    → ((l : Locals) (key : ℕ × ℕ) → Sound (rest l key))
    → (l : Locals) → Sound (λ w. tag_read rest l w (pb_decode_tag w.stream))
tag_read-Sound rest h l = record {
  keeps = λ k w within.
      tag_read-Stays rest h k l w (pb_decode_tag w.stream) (pb_decode_tag-Keeps k w.stream within);
  in_step = λ k w j.
      tag_read-InStep rest h k l w (pb_decode_tag w.stream) (pb_decode_tag-InStep k w.stream j);
}

message_loop-Sound :
    (rounds : ℕ) (step : Locals → ℕ × ℕ → Action Machine Locals) (l : Locals)
    → ((l : Locals) (key : ℕ × ℕ) → Sound (step l key))
    → Sound (message_loop rounds step l)
unfolding message_loop
message_loop-Sound zero step l h = Sound-lost unfinished
message_loop-Sound (suc rounds) step l h =
    Sound-choose (λ w. w.stream.bytes_left == 0) (Sound-return l)
      (tag_read-Sound (λ l' key. step l' key >>= message_loop rounds step)
        (λ l' key. Sound-seq _ (h l' key) (λ next. message_loop-Sound rounds step next h)) l)

check_complete-Sound : (counter : ℕ) (l : Locals) → Sound (check_complete counter l)
unfolding check_complete
check_complete-Sound counter l =
    Sound-choose (λ w. is_wrong_size l (read_size w.mem counter))
      (Sound-fail wrong_size_for_fixed_count_field)
      (Sound-choose (λ w. all_required_seen l.iter l.fields_seen) (Sound-return tt)
        (Sound-fail missing_required_field))

read_message-Sound :
    (counter : ℕ) (step : Locals → ℕ × ℕ → Action Machine Locals) (fields : List Field)
    (dest_struct : ℕ)
    → ((l : Locals) (key : ℕ × ℕ) → Sound (step l key))
    → Sound (read_message counter step fields dest_struct)
unfolding read_message
read_message-Sound counter step fields dest_struct h =
    Sound-then (Sound-store (λ mem. write_size mem counter 0)) (
      Sound-seq _
        (Sound-with (λ w. w.stream.bytes_left)
          (λ n. message_loop (n + 1) step (initial fields dest_struct))
          (λ n. message_loop-Sound (n + 1) step (initial fields dest_struct) h))
        (check_complete-Sound counter))

module _ (program : Program) (safe : IsSafeProgram program) where
  released_on_error-Stays :
      (release : Machine → Machine)
      → Steady release
      → (k : ℕ) (w : Machine) (r : Option (Unit {0}) × Machine) → Stays k w r.1
      → Stays k w (released_on_error release r).1
  released_on_error-Stays release steady k w (none, v) j =
      Stays-trans k w v (release v) j ((Sound-modify steady).keeps k v j.0)
  released_on_error-Stays release steady k w (some u, v) j = j

  released_on_error-InStep :
      (release : Machine → Machine) (k : ℕ) (r : Option (Unit {0}) × Machine)
      → OnSuccess k r
      → OnSuccess k (released_on_error release r)
  released_on_error-InStep release k (none, v) j = tt
  released_on_error-InStep release k (some u, v) j = j

  decode_with_defaults-Sound :
      (depth : ℕ) (noinit : List Field → ℕ → Action Machine (Unit {0}))
      → ((fields : List Field) (p : ℕ) → Sound (noinit fields p))
      → (fields : List Field) (dest_struct : ℕ)
      → Sound (decode_with_defaults program depth noinit fields dest_struct)
  unfolding decode_with_defaults
  decode_with_defaults-Sound depth noinit h fields dest_struct = record {
    keeps = λ k w sound.
        let defaults = pb_message_set_to_defaults program.descriptor depth fields dest_struct in
        let kept =
          (Sound-modify
              (pb_message_set_to_defaults-Steady program.descriptor depth fields dest_struct)).keeps
            k w sound in
        released_on_error-Stays _ (pb_release-Steady program.descriptor depth fields dest_struct) k
          w (noinit fields dest_struct (defaults w))
          (Stays-trans k w (defaults w) (noinit fields dest_struct (defaults w)).1 kept
            ((h fields dest_struct).keeps k (defaults w) kept.0));
    in_step = λ k w j.
        let defaults = pb_message_set_to_defaults program.descriptor depth fields dest_struct in
        released_on_error-InStep _ k (noinit fields dest_struct (defaults w)) (
          (h fields dest_struct).in_step k (defaults w) (
            (Sound-modify (
                pb_message_set_to_defaults-Steady program.descriptor depth fields
                  dest_struct)).in_step
              k w j));
  }

  pub message_step-Sound :
      (depth : ℕ) (noinit : List Field → ℕ → Action Machine (Unit {0}))
      → ((fields : List Field) (p : ℕ) → Sound (noinit fields p))
      → (l : Locals) (key : ℕ × ℕ) → Sound (message_step program depth noinit l key)
  message_step-Sound depth noinit h =
      one_field-Sound program safe depth (decode_with_defaults program depth noinit) noinit
        (decode_with_defaults-Sound depth noinit h) h (program.fixed_count_address depth)

  pub pb_decode_noinit-Sound :
      (depth : ℕ) (fields : List Field) (dest_struct : ℕ)
      → Sound (pb_decode_noinit program depth fields dest_struct)
  unfolding pb_decode_noinit
  pb_decode_noinit-Sound zero fields dest_struct = Sound-lost unfinished
  pb_decode_noinit-Sound (suc depth) fields dest_struct =
      read_message-Sound (program.fixed_count_address depth)
        (message_step program depth (pb_decode_noinit program depth)) fields dest_struct
        (message_step-Sound depth (pb_decode_noinit program depth) (pb_decode_noinit-Sound depth))

  -- Whatever the stream and the memory hold, and whatever the fuel, if the functions that the program
  -- gives do the same: `pb_decode`, on success and on errors, leaves a stream that lay inside its block
  -- inside it, and no longer than it was; and when it returns true, the pointer of a memory stream
  -- has moved by just as many bytes as `bytes_left` fell.
  pub pb_decode-Sound :
      (depth : ℕ) (fields : List Field) (dest_struct : ℕ)
      → Sound (pb_decode program depth fields dest_struct)
  unfolding pb_decode
  pb_decode-Sound depth fields dest_struct =
      decode_with_defaults-Sound depth _ (pb_decode_noinit-Sound depth) fields dest_struct

  -- If the functions that the program gives do the same: `pb_decode_delimited` leaves a stream that
  -- lay inside its block inside it, and no longer than it was; and when it returns true, the pointer of
  -- a memory stream has moved by just as many bytes as `bytes_left` fell.
  pub pb_decode_delimited-Sound :
      (depth : ℕ) (fields : List Field) (dest_struct : ℕ)
      → Sound (pb_decode_delimited program depth fields dest_struct)
  unfolding pb_decode_delimited
  pb_decode_delimited-Sound depth fields dest_struct =
      in_substream-Sound _ (pb_decode-Sound depth fields dest_struct)
