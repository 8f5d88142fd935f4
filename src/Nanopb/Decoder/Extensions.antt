-- ===== src/Nanopb/Decoder/Extensions.antt =====
-- TestProdSS/Pods/nanopb/pb_decode.c: fields that stand in no descriptor but in an extension.
-- `decode_field` is the function of that name, and `rounds` bounds the extensions in a list.
use teta.Prelude.{
  ℕ, zero, suc, ◌+◌, Bool, true, false, not, ◌&&◌, some, length, ◌==◌, if◌then◌else◌,
}
use teta.Nanopb.Action.{Action, return, ◌>>◌, ◌>>=◌}
use teta.Nanopb.Memory.{read_pointer, write_bool}
use teta.Nanopb.Machine.{Machine, lost, unfinished, store}
use teta.Nanopb.Fields.{field_at, Iter, current, pb_field_iter_next, ltype, ltype_extension}
use teta.Nanopb.Encoder.Fields.{extension_type_arg}
use teta.Nanopb.Decoder.Program.{Program}
use teta.Nanopb.Decoder.Walk.{iter_from_extension, extension_found, extension_next}

module _ (program : Program) (decode_field : ℕ → Iter → Action Machine Iter) where
  unfoldable pub default_extension_decoder : ℕ → ℕ → ℕ → Action Machine (Unit {0})
  default_extension_decoder extension tag wire_type w =
      let field = field_at (program.descriptor (extension_type_arg w.mem extension)) 0 in
      let iter = iter_from_extension program.descriptor w.mem extension in
      if field.tag == tag
      then (store (λ mem. write_bool mem (extension_found extension) true)
            >> (decode_field wire_type iter >>= (λ same. return tt)))
          w
      else (some tt, w)

  -- `extension->type->decode` is the first member of the type.
  unfoldable pub decode_one_extension : ℕ → ℕ → ℕ → Action Machine (Unit {0})
  decode_one_extension extension tag wire_type w =
      let function = read_pointer w.mem (read_pointer w.mem extension) in
      if function == 0
      then default_extension_decoder extension tag wire_type w
      else program.decode_extension function extension tag wire_type w

  -- The while loop; `pos` is the value of `bytes_left` before it.
  unfoldable pub extensions_loop : ℕ → ℕ → ℕ → ℕ → ℕ → Action Machine (Unit {0})
  extensions_loop zero pos tag wire_type extension w =
      if not (extension == 0) && pos == w.stream.bytes_left then lost unfinished w else (some tt, w)
  extensions_loop (suc rounds) pos tag wire_type extension w =
      let again : Action Machine (Unit {0}) =
        λ v. extensions_loop rounds pos tag wire_type (extension_next v.mem extension) v in
      if not (extension == 0) && pos == w.stream.bytes_left
      then (decode_one_extension extension tag wire_type >> again) w
      else (some tt, w)

  unfoldable pub decode_extension : ℕ → ℕ → ℕ → Iter → Action Machine (Unit {0})
  decode_extension rounds tag wire_type iter w =
      extensions_loop rounds w.stream.bytes_left tag wire_type (read_pointer w.mem iter.p_data) w

-- The do loop that has begun at index `start`, with the rounds that it may still make.
unfoldable pub find_extension_loop : ℕ → ℕ → Iter → Iter × Bool
find_extension_loop zero start iter = (iter, false)
find_extension_loop (suc rounds) start iter =
    let next = (pb_field_iter_next iter).0 in
    let again = find_extension_loop rounds start next in
    if ltype (current iter) == ltype_extension
    then (iter, true)
    else if next.pos == start
    then (next, false)
    else again

-- A turn through the array takes at most as many rounds as it has entries.
unfoldable pub find_extension_field : Iter → Iter × Bool
find_extension_field iter = find_extension_loop (length iter.start + 1) iter.pos iter
