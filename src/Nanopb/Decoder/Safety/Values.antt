-- ===== src/Nanopb/Decoder/Safety/Values.antt =====
-- The decoders of single values and `allocate_field` keep the machine sound.
use teta.Prelude.{
  ℕ, ◌*◌, ◌+◌, ◌==◌, ◌≡◌, arith, ◌||◌, ltb, u32, u64, Option, none, some, inl, inr, Bool-cases,
  if◌then◌else◌,
}
use teta.Nanopb.Action.{
  Action, ◌>>◌, invalid_data_size, integer_too_large, bytes_overflow, size_too_large,
  string_overflow, incorrect_fixed_length_bytes_size, invalid_size,
}
use teta.Nanopb.Memory.{read_pointer, offset, sign_extend}
use teta.Nanopb.Machine.{Machine, Placement, gets, read_into, pb_realloc}
use teta.Nanopb.Istream.Safety.{Keeps, IsInStep}
use mathlib.Core.Path.{subst⁻¹}
use teta.Nanopb.Machine.Safety.{
  Stays, Sound, Sound-return, Sound-gets, Sound-fail, Sound-if, Sound-choose, Sound-stream,
  Sound-seq, Sound-then, Sound-store, read_into-Sound, OnSuccess, pb_realloc-stream,
}
use teta.Nanopb.Fields.{Field, atype, atype_pointer, pb_size_max}
use teta.Nanopb.Decode.Safety.{
  pb_decode_varint-Safe, pb_decode_varint32-Safe, pb_decode_svarint-Safe, pb_decode_fixed32-Safe,
  pb_decode_fixed64-Safe,
}
use teta.Nanopb.Decoder.Allocate.{is_too_large, assigned, allocate_field}
use teta.Nanopb.Decoder.Values.{
  store_signed, store_unsigned, by_size, pb_dec_varint, pb_dec_uvarint, pb_dec_svarint,
  pb_dec_fixed32, pb_dec_fixed64, bytes_place, pb_dec_bytes, string_place, terminated,
  pb_dec_string, pb_dec_fixed_length_bytes,
}

store_signed-Sound : (n dest svalue : ℕ) → Sound (store_signed n dest svalue)
unfolding store_signed
store_signed-Sound n dest svalue =
    Sound-then (Sound-store _) (Sound-if _ (Sound-return tt) (Sound-fail integer_too_large))

store_unsigned-Sound : (n dest value : ℕ) → Sound (store_unsigned n dest value)
unfolding store_unsigned
store_unsigned-Sound n dest value =
    Sound-then (Sound-store _) (Sound-if _ (Sound-return tt) (Sound-fail integer_too_large))

by_size-Sound :
    (act : ℕ → Action Machine (Unit {0})) (field : Field)
    → ((n : ℕ) → Sound (act n))
    → Sound (by_size act field)
by_size-Sound act field h = Sound-if (field.data_size == 8) (h 8) (
    Sound-if (field.data_size == 4) (h 4) (
      Sound-if (field.data_size == 2) (h 2)
        (Sound-if (field.data_size == 1) (h 1) (Sound-fail invalid_data_size))))

module _ (field : Field) (dest : ℕ) where
  pub pb_dec_varint-Sound : Sound (pb_dec_varint field dest)
  unfolding pb_dec_varint
  pb_dec_varint-Sound = Sound-seq _ (Sound-stream pb_decode_varint-Safe) λ value.
      (let svalue = if field.data_size == 8 then value else sign_extend 32 (u32 value) in
        by_size-Sound (λ n. store_signed n dest svalue) field
          (λ n. store_signed-Sound n dest svalue))

  pub pb_dec_uvarint-Sound : Sound (pb_dec_uvarint field dest)
  unfolding pb_dec_uvarint
  pb_dec_uvarint-Sound =
      Sound-seq _ (Sound-stream pb_decode_varint-Safe)
        λ value. by_size-Sound _ field (λ n. store_unsigned-Sound n dest value)

  pub pb_dec_svarint-Sound : Sound (pb_dec_svarint field dest)
  unfolding pb_dec_svarint
  pb_dec_svarint-Sound =
      Sound-seq _ (Sound-stream pb_decode_svarint-Safe)
        λ value. by_size-Sound _ field (λ n. store_signed-Sound n dest value)

  pub pb_dec_fixed32-Sound : Sound (pb_dec_fixed32 field dest)
  unfolding pb_dec_fixed32
  pb_dec_fixed32-Sound = Sound-seq _ (Sound-stream pb_decode_fixed32-Safe) (λ value. Sound-store _)

  pub pb_dec_fixed64-Sound : Sound (pb_dec_fixed64 field dest)
  unfolding pb_dec_fixed64
  pb_dec_fixed64-Sound = Sound-seq _ (Sound-stream pb_decode_fixed64-Safe) (λ value. Sound-store _)

  pub pb_dec_fixed_length_bytes-Sound : Sound (pb_dec_fixed_length_bytes field dest)
  unfolding pb_dec_fixed_length_bytes
  pb_dec_fixed_length_bytes-Sound = Sound-seq _ (Sound-stream pb_decode_varint32-Safe) λ size.
      Sound-if (ltb pb_size_max size) (Sound-fail bytes_overflow) (
        Sound-if (size == 0) (Sound-store _) (
          Sound-if (size == field.data_size) (read_into-Sound dest field.data_size)
            (Sound-fail incorrect_fixed_length_bytes_size)))

module _ (place : Placement) where
  assigned-Sound :
      (p_data : ℕ) (f : Machine → ℕ × Machine)
      → ((w : Machine) → (f w).1.stream ≡ w.stream)
      → Sound (λ w. assigned p_data (f w))
  assigned-Sound p_data f same = record {
    keeps = λ k w h. go k w (f w) (subst⁻¹ (Keeps k w.stream) (same w) (h, omega arith));
    in_step = λ k w h. on k (f w) (subst⁻¹ (IsInStep k) (same w) h);
  }
    where
      go : (k : ℕ) (w : Machine) (r : ℕ × Machine) → Stays k w r.1 → Stays k w (assigned p_data r).1
      go k w (ptr, v) j = elim (Bool-cases (ptr == 0)) [
        | inl null ↦ rw null j
        | inr given ↦ rw given j
      ]

      on : (k : ℕ) (r : ℕ × Machine) → IsInStep k r.1.stream → OnSuccess k (assigned p_data r)
      on k (ptr, v) j = elim (Bool-cases (ptr == 0)) [
        | inl null ↦ rw null tt
        | inr given ↦ rw given j
      ]

  pub allocate_field-Sound :
      (p_data data_size array_size : ℕ) → Sound (allocate_field place p_data data_size array_size)
  unfolding allocate_field
  allocate_field-Sound p_data data_size array_size =
      Sound-choose (λ w. data_size == 0 || array_size == 0) (Sound-fail invalid_size)
        (Sound-choose (λ w. is_too_large data_size array_size) (Sound-fail size_too_large)
          (assigned-Sound p_data
            (λ w. pb_realloc place (read_pointer w.mem p_data) (u64 (array_size * data_size)) w)
            (λ w. pb_realloc-stream place (read_pointer w.mem p_data) _ w)))

  module _ (field : Field) (dest : ℕ) where
    allocated-Sound :
        (alloc_size : ℕ)
        → Sound (allocate_field place dest alloc_size 1 >> gets (λ w. read_pointer w.mem dest))
    allocated-Sound alloc_size = Sound-then (allocate_field-Sound dest alloc_size 1) (Sound-gets _)

    bytes_place-Sound : (alloc_size : ℕ) → Sound (bytes_place place field dest alloc_size)
    unfolding bytes_place
    bytes_place-Sound alloc_size =
        Sound-if (atype field == atype_pointer) (allocated-Sound alloc_size) (
          Sound-if (ltb field.data_size alloc_size) (Sound-fail bytes_overflow) (Sound-return dest))

    pub pb_dec_bytes-Sound : Sound (pb_dec_bytes place field dest)
    unfolding pb_dec_bytes
    pb_dec_bytes-Sound = Sound-seq _ (Sound-stream pb_decode_varint32-Safe) λ size.
        Sound-if (ltb pb_size_max size) (Sound-fail bytes_overflow) (
          Sound-if (ltb (u64 (size + 4)) size) (Sound-fail size_too_large) (
            Sound-seq _ (bytes_place-Sound (u64 (size + 4)))
              λ bdest. Sound-then (Sound-store _) (read_into-Sound (offset bdest 4) size)))

    string_place-Sound : (alloc_size : ℕ) → Sound (string_place place field dest alloc_size)
    unfolding string_place
    string_place-Sound alloc_size =
        Sound-if (atype field == atype_pointer) (allocated-Sound alloc_size) (
          Sound-if (ltb field.data_size alloc_size) (Sound-fail string_overflow)
            (Sound-return dest))

    terminated_read-Sound :
        (text size : ℕ) → Sound (λ w. terminated place (offset text size) (read_into text size w))
    terminated_read-Sound text size = record {
      keeps = λ k w h. go k w (read_into text size w) ((read_into-Sound text size).keeps k w h);
      in_step = λ k w h. on k (read_into text size w) ((read_into-Sound text size).in_step k w h);
    }
      where
        go :
            (k : ℕ) (w : Machine) (r : Option (Unit {0}) × Machine)
            → Stays k w r.1
            → Stays k w (terminated place (offset text size) r).1
        go k w (status, v) j = j

        on :
            (k : ℕ) (r : Option (Unit {0}) × Machine)
            → OnSuccess k r
            → OnSuccess k (terminated place (offset text size) r)
        on k (none, v) j = tt
        on k (some u, v) j = j

    pub pb_dec_string-Sound : Sound (pb_dec_string place field dest)
    unfolding pb_dec_string
    pb_dec_string-Sound = Sound-seq _ (Sound-stream pb_decode_varint32-Safe) λ size.
        Sound-if (ltb (u32 (size + 1)) size) (Sound-fail size_too_large) (
          Sound-seq _ (string_place-Sound (u32 (size + 1)))
            (λ text. terminated_read-Sound text size))
