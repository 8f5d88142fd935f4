-- ===== src/Nanopb/Encoder/Defaults.antt =====
-- TestProdSS/Pods/nanopb/pb_encode.c: `pb_check_proto3_default_value`. `none` is the model's fuel
-- running out, on a structure of more levels than `depth`.
use teta.Prelude.{ℕ, zero, suc, Bool, true, false, not, ◌&&◌, Option, none, some, length}
use teta.Prelude.{◌==◌, if◌then◌else◌}
use teta.Nanopb.Memory.{Memory, read_size, read_bool, offset, signed_offset}
use teta.Nanopb.Fields.{
  Field, Iter, current, pb_field_iter_begin, pb_field_iter_next, ltype, htype, atype, ltype_bytes,
  ltype_string, ltype_submessage, ltype_fixed_length_bytes, atype_static, htype_required,
  htype_repeated, htype_oneof, htype_optional,
}
use teta.Nanopb.Encoder.Program.{Program}

abbrev pub and_also : Option Bool → Option Bool → Option Bool
and_also none r = none
and_also (some false) r = some false
and_also (some true) r = r

-- The do loop over the fields of a submessage.
unfoldable pub default_loop : ℕ → (Field → ℕ → Option Bool) → Iter → Option Bool
default_loop zero check iter = none
default_loop (suc rounds) check iter =
    let rest = default_loop rounds check (pb_field_iter_next iter).0 in
    and_also (check (current iter) iter.p_data)
      (if (pb_field_iter_next iter).1 then rest else some true)

module _ (mem : Memory) (program : Program) where
  -- The loop that compares byte by byte.
  pub all_zero : ℕ → ℕ → Bool
  all_zero zero p = true
  all_zero (suc n) p = mem p == 0 && all_zero n (offset p 1)

  -- The function's body; `inner` is the function itself.
  unfoldable pub default_value : (Field → ℕ → Option Bool) → Field → ℕ → Option Bool
  default_value inner field p_data =
      let p_size = signed_offset p_data field.size_offset in
      let zeros = all_zero field.data_size p_data in
      let fields = program.descriptor field.ptr in
      let (iter, some_field) = pb_field_iter_begin fields p_data in
      if htype field == htype_required
      then some false
      else if htype field == htype_repeated
      then some (read_size mem p_size == 0)
      else if htype field == htype_oneof
      then some (read_size mem p_size == 0)
      else if htype field == htype_optional && not (field.size_offset == 0)
      then some (not (read_bool mem p_size))
      else if atype field == atype_static && ltype field == ltype_bytes
      then some (read_size mem p_data == 0)
      else if atype field == atype_static && ltype field == ltype_string
      then some (mem p_data == 0)
      else if atype field == atype_static && ltype field == ltype_fixed_length_bytes
      then some (field.data_size == 0)
      else if atype field == atype_static && ltype field == ltype_submessage
      then if some_field then default_loop (length fields) inner iter else some true
      else some zeros

  unfoldable pub pb_check_proto3_default_value : ℕ → Field → ℕ → Option Bool
  pb_check_proto3_default_value zero field p_data = none
  pb_check_proto3_default_value (suc depth) field p_data =
      default_value (pb_check_proto3_default_value depth) field p_data
