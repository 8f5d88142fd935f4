-- ===== src/Nanopb/Decoder/Walk.antt =====
-- TestProdSS/Pods/nanopb/pb_decode.c: what the functions share that go through all fields of a
-- message or all extensions of a list: `iter_from_extension` and the loops.
use teta.Prelude.{ℕ, zero, suc, List, length, ◌==◌, if◌then◌else◌}
use teta.Nanopb.Memory.{Memory, read_pointer, offset}
use teta.Nanopb.Machine.{Machine, marked, unfinished}
use teta.Nanopb.Fields.{
  Field, field_at, atype, atype_pointer, Iter, iter_at_begin, pb_field_iter_begin,
  pb_field_iter_next,
}
use teta.Nanopb.Encoder.Fields.{extension_type_arg}

-- struct pb_extension_s: `type`, `dest`, `next` and `found`, each of eight bytes but the last.
abbrev pub extension_dest : ℕ → ℕ
extension_dest extension = offset extension 8

abbrev pub extension_next : Memory → ℕ → ℕ
extension_next mem extension = read_pointer mem (offset extension 16)

abbrev pub extension_found : ℕ → ℕ
extension_found extension = offset extension 24

-- `descriptor` is the array of fields at an address; the field is its first.
unfoldable pub iter_from_extension : (ℕ → List Field) → Memory → ℕ → Iter
iter_from_extension descriptor mem extension =
    let fields = descriptor (extension_type_arg mem extension) in
    let dest = read_pointer mem (extension_dest extension) in
    record (iter_at_begin fields dest) {
      p_data =
          if atype (field_at fields 0) == atype_pointer then extension_dest extension else dest;
      p_size = extension_found extension;
    }

-- `do step(&iter); while (pb_field_iter_next(&iter));`, with the rounds that it may still make.
unfoldable pub each_field : ℕ → (Iter → Machine → Machine) → Iter → Machine → Machine
each_field zero step iter = marked unfinished
each_field (suc rounds) step iter =
    let (next, more) = pb_field_iter_next iter in
    let rest = each_field rounds step next in λ w. (if more then rest else λ v. v) (step iter w)

-- The loop over a whole message, whose number of fields is rounds enough.
unfoldable pub over_message : (Iter → Machine → Machine) → List Field → ℕ → Machine → Machine
over_message step fields dest_struct =
    let (iter, some_field) = pb_field_iter_begin fields dest_struct in
    if some_field then each_field (length fields) step iter else λ w. w

-- `while (ext != NULL) { step(ext); ext = ext->next; }`, for at most `rounds` extensions.
unfoldable pub each_extension : ℕ → (ℕ → Machine → Machine) → ℕ → Machine → Machine
each_extension zero step ext = if ext == 0 then (λ w. w) else marked unfinished
each_extension (suc rounds) step ext =
    let rest : Machine → Machine = λ w. each_extension rounds step (extension_next w.mem ext) w in
    if ext == 0 then (λ w. w) else (λ w. rest (step ext w))
