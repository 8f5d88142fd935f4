-- ===== src/Nanopb/Decoder/Program.antt =====
-- What pb_decode.c reaches through pointers that a descriptor or a structure holds: arrays of
-- pb_field_t, and the functions that the program gives for callback fields and extensions; with the
-- allocator's choices, and the places of local variables whose address is taken.
use teta.Prelude.{ℕ, List}
use teta.Nanopb.Action.{Action}
use teta.Nanopb.Machine.{Machine, Placement}
use teta.Nanopb.Fields.{Field}

-- `decode_callback` takes the function's address, the `field` and the address of `arg`;
-- `decode_extension` the function's address, the address of the pb_extension_t, `tag` and
-- `wire_type`. `fixed_count_address` is the address of the variable `fixed_count_size` of
-- `pb_decode_noinit`, in the call at each depth.
pub record Program : Type 0 where
  pub descriptor : ℕ → List Field
  pub decode_callback : ℕ → Field → ℕ → Action Machine (Unit {0})
  pub decode_extension : ℕ → ℕ → ℕ → ℕ → Action Machine (Unit {0})
  pub place : Placement
  pub fixed_count_address : ℕ → ℕ
