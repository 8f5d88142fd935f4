-- ===== src/Nanopb/Encoder/Program.antt =====
-- What pb_encode.c reaches through pointers that a descriptor or a structure holds: arrays of
-- pb_field_t, and the functions that the program gives for callback fields and extensions.
use teta.Prelude.{ℕ, List}
use teta.Nanopb.Action.{Action}
use teta.Nanopb.Ostream.{Ostream}
use teta.Nanopb.Fields.{Field}

-- By address. `encode_callback` takes the `field` and the address of `arg`, `encode_extension` the
-- address of the pb_extension_t.
pub record Program : Type 0 where
  pub descriptor : ℕ → List Field
  pub encode_callback : ℕ → Field → ℕ → Action Ostream (Unit {0})
  pub encode_extension : ℕ → ℕ → Action Ostream (Unit {0})
