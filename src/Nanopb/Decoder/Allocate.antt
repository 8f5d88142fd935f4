-- ===== src/Nanopb/Decoder/Allocate.antt =====
-- TestProdSS/Pods/nanopb/pb_decode.c: `allocate_field`.
pub mod Bounds
use teta.Prelude.{
  ℕ, Bool, Option, ◌*◌, ◌/◌, ◌-◌, ◌^◌, ◌&&◌, ◌||◌, leb, ltb, ◌==◌, if◌then◌else◌, some, u64,
}
use teta.Nanopb.Action.{Action, invalid_size, size_too_large, realloc_failed}
use teta.Nanopb.Machine.{Machine, Placement, fail, on_memory, pb_realloc}
use teta.Nanopb.Memory.{read_pointer, write_pointer}

abbrev pub size_max : ℕ
size_max = 2 ^ 64 - 1

abbrev pub check_limit : ℕ
check_limit = 2 ^ 32

-- The checks before the multiplication: `array_size * data_size` may not fit.
unfoldable pub is_too_large : ℕ → ℕ → Bool
is_too_large data_size array_size =
    (leb check_limit data_size || leb check_limit array_size)
    && ltb (size_max / array_size) data_size

-- What stands behind `pb_realloc`, on the pointer that it returned.
abbrev pub assigned : ℕ → ℕ × Machine → Option (Unit {0}) × Machine
assigned p_data (ptr, w) =
    if ptr == 0
    then fail realloc_failed w
    else (some tt, on_memory (λ mem. write_pointer mem p_data ptr) w)

unfoldable pub allocate_field : Placement → ℕ → ℕ → ℕ → Action Machine (Unit {0})
allocate_field place p_data data_size array_size w =
    if data_size == 0 || array_size == 0
    then fail invalid_size w
    else if is_too_large data_size array_size
    then fail size_too_large w
    else assigned p_data
        (pb_realloc place (read_pointer w.mem p_data) (u64 (array_size * data_size)) w)
