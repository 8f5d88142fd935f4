-- ===== src/Nanopb/Decoder/Safety/Fields.antt =====
-- The decoders of fields and extensions keep the machine sound where the decoders of the messages in
-- them do, and the functions that the program gives.
use teta.Prelude.{ℕ, ◌+◌, ◌==◌, not, ◌&&◌, ◌||◌, true, List, inl, inr, Bool-cases}
use teta.Nanopb.Action.{Action, invalid_field_descriptor, invalid_field_type}
use teta.Nanopb.Memory.{read_pointer, offset, write_size, write_bool}
use teta.Nanopb.Machine.{Machine, undefined}
use teta.Nanopb.Machine.Safety.{
  Sound, Sound-return, Sound-gets, Sound-fail, Sound-lost, Sound-if, Sound-with, Sound-seq,
  Sound-then, Sound-store, Sound-modify, Sound-stream, Steady, Steady-id, Steady-choose,
}
use teta.Nanopb.Fields.{
  Field, Iter, current, atype, htype, ltype, ltype_varint, ltype_uvarint, ltype_svarint,
  ltype_fixed32, ltype_fixed64, ltype_bytes, ltype_string, ltype_submessage,
  ltype_fixed_length_bytes, htype_required, htype_optional, htype_repeated, htype_oneof,
  atype_static, atype_pointer, atype_callback,
}
use teta.Nanopb.Decode.{wt_string}
use teta.Nanopb.Decode.Safety.{pb_skip_field-Safe}
use teta.Nanopb.Decoder.Program.{Program}
use teta.Nanopb.Decoder.Fields.{
  decode_submessage, submessage_body, pb_dec_submessage, decoder, set_has, set_which, clear_union,
  decode_static_field, release_duplicate, initialize, decode_pointed, decode_pointer_field,
  decode_with, decode_callback_field, decode_by_allocation, released_union, decode_field, is_packed,
}
use teta.Nanopb.Decoder.Safety.Values.{
  pb_dec_varint-Sound, pb_dec_uvarint-Sound, pb_dec_svarint-Sound, pb_dec_fixed32-Sound,
  pb_dec_fixed64-Sound, pb_dec_bytes-Sound, pb_dec_string-Sound, pb_dec_fixed_length_bytes-Sound,
  allocate_field-Sound,
}
use teta.Nanopb.Decoder.Safety.Defaults.{
  pb_message_set_to_defaults-Steady, initialize_pointer_field-Steady,
}
use teta.Nanopb.Decoder.Safety.Release.{
  pb_release_single_field-Steady, pb_release_union_field-Sound,
}
use teta.Nanopb.Decoder.Safety.Substream.{
  open_substream-Sound, close_substream-Returns, close_substream-InStep, fail_on-Returns,
  call_until_read-SubSound, call_on_raw_value-Sound,
}
use teta.Nanopb.Decoder.Safety.Arrays.{
  static_packed-Sound, static_repeated-Sound, pointer_packed-Sound, pointer_repeated-Sound,
}

-- The functions that the program gives read the stream as the library's functions do.
pub record IsSafeProgram (program : Program) : Type 0 where
  pub callback :
      (function : ℕ) (field : Field) (arg : ℕ) → Sound (program.decode_callback function field arg)
  pub extension :
      (function ext tag wire_type : ℕ) → Sound (program.decode_extension function ext tag wire_type)

module _ (program : Program) (safe : IsSafeProgram program) (depth : ℕ)
    (decode decode_noinit : List Field → ℕ → Action Machine (Unit {0}))
    (h : (fields : List Field) (p : ℕ) → Sound (decode fields p))
    (h' : (fields : List Field) (p : ℕ) → Sound (decode_noinit fields p)) where
  decode_submessage-Sound :
      (field : Field) (dest : ℕ)
      → Sound (decode_submessage program depth decode decode_noinit field dest)
  unfolding decode_submessage
  decode_submessage-Sound field dest =
      Sound-if (htype field == htype_repeated) (h (program.descriptor field.ptr) dest)
        (h' (program.descriptor field.ptr) dest)

  pb_dec_submessage-Sound :
      (field : Field) (dest : ℕ)
      → Sound (pb_dec_submessage program depth decode decode_noinit field dest)
  unfolding pb_dec_submessage
  pb_dec_submessage-Sound field dest =
      open_substream-Sound (submessage_body program depth decode decode_noinit field dest) (record {
        keeps = λ k s w within sound. elim (Bool-cases (field.ptr == 0)) [
          | inl null ↦ rw null (fail_on-Returns k s invalid_field_descriptor w within)
          | inr given ↦ rw given (
              close_substream-Returns k s
                (decode_submessage program depth decode decode_noinit field dest w) within
                ((decode_submessage-Sound field dest).keeps (s.bytes_left + k) w sound).0)
        ];
        in_step = λ k s w j. elim (Bool-cases (field.ptr == 0)) [
          | inl null ↦ rw null tt
          | inr given ↦ rw given (
              close_substream-InStep k s
                (decode_submessage program depth decode decode_noinit field dest w)
                ((decode_submessage-Sound field dest).in_step (s.bytes_left + k) w j))
        ];
      })

  decoder-Sound :
      (field : Field) (dest : ℕ) → Sound (decoder program depth decode decode_noinit field dest)
  unfolding decoder
  decoder-Sound field dest =
      Sound-if (ltype field == ltype_varint) (pb_dec_varint-Sound field dest) (
        Sound-if (ltype field == ltype_uvarint) (pb_dec_uvarint-Sound field dest) (
          Sound-if (ltype field == ltype_svarint) (pb_dec_svarint-Sound field dest) (
            Sound-if (ltype field == ltype_fixed32) (pb_dec_fixed32-Sound field dest) (
              Sound-if (ltype field == ltype_fixed64) (pb_dec_fixed64-Sound field dest) (
                Sound-if (ltype field == ltype_bytes) (pb_dec_bytes-Sound program.place field dest)
                  (Sound-if (ltype field == ltype_string)
                    (pb_dec_string-Sound program.place field dest)
                    (Sound-if (ltype field == ltype_submessage) (pb_dec_submessage-Sound field dest)
                      (Sound-if (ltype field == ltype_fixed_length_bytes)
                        (pb_dec_fixed_length_bytes-Sound field dest) (Sound-lost undefined)))))))))

  module _ (iter : Iter) where
    run-Sound : (p : ℕ) → Sound (decoder program depth decode decode_noinit (current iter) p)
    run-Sound p = decoder-Sound (current iter) p

    set_has-Sound : Sound (set_has program depth decode decode_noinit iter)
    set_has-Sound =
        Sound-if (iter.p_size == iter.p_data) (Sound-return tt)
          (Sound-store (λ mem. write_bool mem iter.p_size true))

    set_which-Sound : Sound (set_which program depth decode decode_noinit iter)
    set_which-Sound = Sound-store (λ mem. write_size mem iter.p_size (current iter).tag)

    clear_union-Sound : Sound (clear_union program depth decode decode_noinit iter)
    clear_union-Sound =
        Sound-if (ltype (current iter) == ltype_submessage)
          (Sound-then (Sound-store _) (
            Sound-modify
              (pb_message_set_to_defaults-Steady program.descriptor depth _ iter.p_data)))
          (Sound-return tt)

    decode_static_field-Sound :
        (wire_type : ℕ)
        → Sound (decode_static_field program depth decode decode_noinit wire_type iter)
    unfolding decode_static_field
    decode_static_field-Sound wire_type =
        Sound-if (htype (current iter) == htype_required) (run-Sound iter.p_data) (
          Sound-if (htype (current iter) == htype_optional)
            (Sound-then set_has-Sound (run-Sound iter.p_data))
            (Sound-if (htype (current iter) == htype_repeated)
              (Sound-if (is_packed wire_type (current iter)) (static_packed-Sound _ iter run-Sound)
                (static_repeated-Sound _ iter run-Sound))
              (Sound-if (htype (current iter) == htype_oneof)
                (Sound-then set_which-Sound (Sound-then clear_union-Sound (run-Sound iter.p_data)))
                (Sound-fail invalid_field_type))))

    release_duplicate-Steady : Steady (release_duplicate program depth decode decode_noinit iter)
    release_duplicate-Steady =
        Steady-choose
          (λ w.
            ltype (current iter) == ltype_submessage && not (read_pointer w.mem iter.p_data == 0))
          (pb_release_single_field-Steady program.descriptor depth iter) Steady-id

    initialize-Steady : (p : ℕ) → Steady (initialize program depth decode decode_noinit iter p)
    initialize-Steady p = initialize_pointer_field-Steady program.descriptor depth p (current iter)

    decode_pointed-Sound : Sound (decode_pointed program depth decode decode_noinit iter)
    unfolding decode_pointed
    decode_pointed-Sound =
        Sound-if (ltype (current iter) == ltype_string || ltype (current iter) == ltype_bytes)
          (run-Sound iter.p_data)
          (Sound-then (allocate_field-Sound program.place iter.p_data (current iter).data_size 1) (
            Sound-seq _ (Sound-gets _)
              λ item. Sound-then (Sound-modify (initialize-Steady item)) (run-Sound item)))

    decode_pointer_field-Sound :
        (wire_type : ℕ)
        → Sound (decode_pointer_field program depth decode decode_noinit wire_type iter)
    unfolding decode_pointer_field
    decode_pointer_field-Sound wire_type =
        let duplicate = Sound-modify release_duplicate-Steady in
        Sound-if (htype (current iter) == htype_required || htype (current iter) == htype_optional)
          (Sound-then duplicate decode_pointed-Sound)
          (Sound-if (htype (current iter) == htype_oneof)
            (Sound-then duplicate (Sound-then set_which-Sound decode_pointed-Sound))
            (Sound-if (htype (current iter) == htype_repeated)
              (Sound-if (is_packed wire_type (current iter))
                (pointer_packed-Sound program.place _ initialize-Steady _ iter run-Sound)
                (pointer_repeated-Sound program.place _ initialize-Steady _ iter run-Sound))
              (Sound-fail invalid_field_type)))

    decode_with-Sound :
        (wire_type function : ℕ)
        → Sound (decode_with program depth decode decode_noinit wire_type iter function)
    decode_with-Sound wire_type function =
        let call = safe.callback function (current iter) (offset iter.p_data 8) in
        Sound-if (iter.p_data == 0 || function == 0) (Sound-stream (pb_skip_field-Safe wire_type)) (
          Sound-if (wire_type == wt_string)
            (open_substream-Sound _ (record {
              keeps = λ k s w.
                  (call_until_read-SubSound (w.stream.bytes_left + depth) _ call).keeps k s w;
              in_step = λ k s w.
                  (call_until_read-SubSound (w.stream.bytes_left + depth) _ call).in_step k s w;
            }))
            (call_on_raw_value-Sound wire_type _))

    decode_callback_field-Sound :
        (wire_type : ℕ)
        → Sound (decode_callback_field program depth decode decode_noinit wire_type iter)
    unfolding decode_callback_field
    decode_callback_field-Sound wire_type =
        Sound-with (λ w. read_pointer w.mem iter.p_data)
          (decode_with program depth decode decode_noinit wire_type iter)
          (decode_with-Sound wire_type)

    decode_by_allocation-Sound :
        (wire_type : ℕ)
        → Sound (decode_by_allocation program depth decode decode_noinit wire_type iter)
    unfolding decode_by_allocation
    decode_by_allocation-Sound wire_type =
        Sound-if (atype (current iter) == atype_static) (decode_static_field-Sound wire_type) (
          Sound-if (atype (current iter) == atype_pointer) (decode_pointer_field-Sound wire_type) (
            Sound-if (atype (current iter) == atype_callback)
              (decode_callback_field-Sound wire_type) (Sound-fail invalid_field_type)))

    released_union-Sound : Sound (released_union program depth decode decode_noinit iter)
    released_union-Sound =
        Sound-if (htype (current iter) == htype_oneof)
          (pb_release_union_field-Sound program.descriptor depth iter) (Sound-return iter)

  pub decode_field-Sound :
      (wire_type : ℕ) (iter : Iter)
      → Sound (decode_field program depth decode decode_noinit wire_type iter)
  unfolding decode_field
  decode_field-Sound wire_type iter =
      Sound-seq _ (released_union-Sound iter)
        λ same. Sound-then (decode_by_allocation-Sound same wire_type) (Sound-return same)
