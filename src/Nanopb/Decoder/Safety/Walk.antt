-- ===== src/Nanopb/Decoder/Safety/Walk.antt =====
-- The loops over fields and extensions leave the stream alone where their steps do.
use teta.Prelude.{ℕ, zero, suc, List, length, ◌==◌}
use teta.Nanopb.Machine.{Machine, unfinished}
use teta.Nanopb.Machine.Safety.{
  Steady, Steady-id, Steady-marked, Steady-then, Steady-if, Steady-with,
}
use teta.Nanopb.Fields.{Field, Iter, pb_field_iter_begin, pb_field_iter_next}
use teta.Nanopb.Decoder.Walk.{each_field, over_message, each_extension, extension_next}

pub each_field-Steady :
    (rounds : ℕ) (step : Iter → Machine → Machine) (iter : Iter)
    → ((i : Iter) → Steady (step i))
    → Steady (each_field rounds step iter)
unfolding each_field
each_field-Steady zero step iter h = Steady-marked unfinished
each_field-Steady (suc rounds) step iter h = Steady-then (h iter) (
    Steady-if (pb_field_iter_next iter).1
      (each_field-Steady rounds step (pb_field_iter_next iter).0 h) Steady-id)

pub over_message-Steady :
    (step : Iter → Machine → Machine) (fields : List Field) (dest_struct : ℕ)
    → ((i : Iter) → Steady (step i))
    → Steady (over_message step fields dest_struct)
unfolding over_message
over_message-Steady step fields dest_struct h =
    Steady-if (pb_field_iter_begin fields dest_struct).1
      (each_field-Steady (length fields) step (pb_field_iter_begin fields dest_struct).0 h)
      Steady-id

pub each_extension-Steady :
    (rounds : ℕ) (step : ℕ → Machine → Machine) (ext : ℕ)
    → ((e : ℕ) → Steady (step e))
    → Steady (each_extension rounds step ext)
unfolding each_extension
each_extension-Steady zero step ext h = Steady-if (ext == 0) Steady-id (Steady-marked unfinished)
each_extension-Steady (suc rounds) step ext h = Steady-if (ext == 0) Steady-id (
    Steady-then (h ext) (
      Steady-with (λ w. extension_next w.mem ext) (λ next. each_extension rounds step next)
        (λ next. each_extension-Steady rounds step next h)))
