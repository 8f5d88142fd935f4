-- ===== src/Nanopb/Decoder/Safety/Extensions.antt =====
-- The decoders of extensions keep the machine sound where `decode_field` does.
use teta.Prelude.{ℕ, zero, suc, ◌==◌, not, ◌&&◌, true}
use teta.Nanopb.Action.{Action, return, ◌>>=◌, ◌>>◌}
use teta.Nanopb.Memory.{read_pointer, write_bool}
use teta.Nanopb.Machine.{Machine, unfinished, store}
use teta.Nanopb.Machine.Safety.{
  Sound, Sound-return, Sound-lost, Sound-choose, Sound-with, Sound-seq, Sound-then, Sound-store,
}
use teta.Nanopb.Fields.{field_at, Iter}
use teta.Nanopb.Decoder.Program.{Program}
use teta.Nanopb.Decoder.Walk.{iter_from_extension, extension_found, extension_next}
use teta.Nanopb.Encoder.Fields.{extension_type_arg}
use teta.Nanopb.Decoder.Extensions.{
  default_extension_decoder, decode_one_extension, extensions_loop, decode_extension,
}
use teta.Nanopb.Decoder.Safety.Fields.{IsSafeProgram}

module _ (program : Program) (safe : IsSafeProgram program)
    (decode_field : ℕ → Iter → Action Machine Iter)
    (h : (wire_type : ℕ) (iter : Iter) → Sound (decode_field wire_type iter)) where
  default_extension_decoder-Sound :
      (ext tag wire_type : ℕ)
      → Sound (default_extension_decoder program decode_field ext tag wire_type)
  unfolding default_extension_decoder
  default_extension_decoder-Sound ext tag wire_type =
      Sound-choose
        (λ w. (field_at (program.descriptor (extension_type_arg w.mem ext)) 0).tag == tag)
        (Sound-with (λ w. iter_from_extension program.descriptor w.mem ext)
          (λ iter.
            store (λ mem. write_bool mem (extension_found ext) true)
            >> (decode_field wire_type iter >>= (λ same. return tt)))
          (λ iter.
            Sound-then (Sound-store _) (Sound-seq _ (h wire_type iter) (λ same. Sound-return tt))))
        (Sound-return tt)

  decode_one_extension-Sound :
      (ext tag wire_type : ℕ) → Sound (decode_one_extension program decode_field ext tag wire_type)
  unfolding decode_one_extension
  decode_one_extension-Sound ext tag wire_type =
      Sound-choose (λ w. read_pointer w.mem (read_pointer w.mem ext) == 0)
        (default_extension_decoder-Sound ext tag wire_type)
        (Sound-with (λ w. read_pointer w.mem (read_pointer w.mem ext))
          (λ function. program.decode_extension function ext tag wire_type)
          (λ function. safe.extension function ext tag wire_type))

  extensions_loop-Sound :
      (rounds pos tag wire_type ext : ℕ)
      → Sound (extensions_loop program decode_field rounds pos tag wire_type ext)
  unfolding extensions_loop
  extensions_loop-Sound zero pos tag wire_type ext =
      Sound-choose (λ w. not (ext == 0) && pos == w.stream.bytes_left) (Sound-lost unfinished)
        (Sound-return tt)
  extensions_loop-Sound (suc rounds) pos tag wire_type ext =
      Sound-choose (λ w. not (ext == 0) && pos == w.stream.bytes_left)
        (Sound-then (decode_one_extension-Sound ext tag wire_type) (
          Sound-with (λ v. extension_next v.mem ext)
            (extensions_loop program decode_field rounds pos tag wire_type)
            (extensions_loop-Sound rounds pos tag wire_type)))
        (Sound-return tt)

  pub decode_extension-Sound :
      (rounds tag wire_type : ℕ) (iter : Iter)
      → Sound (decode_extension program decode_field rounds tag wire_type iter)
  unfolding decode_extension
  decode_extension-Sound rounds tag wire_type iter =
      Sound-with (λ w. w.stream.bytes_left)
        (λ pos w.
          extensions_loop program decode_field rounds pos tag wire_type
            (read_pointer w.mem iter.p_data) w)
        (λ pos.
          Sound-with (λ w. read_pointer w.mem iter.p_data)
            (extensions_loop program decode_field rounds pos tag wire_type)
            (extensions_loop-Sound rounds pos tag wire_type))
