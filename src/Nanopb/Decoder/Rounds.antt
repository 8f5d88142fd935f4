-- ===== src/Nanopb/Decoder/Rounds.antt =====
-- The loop of `pb_decode_noinit` ends: each round takes a byte of the stream at least.
use teta.Prelude.{ℕ, ◌<◌, ◌≡◌}
use teta.Nanopb.Action.{Action, ◌>>=◌}
use teta.Nanopb.Istream.{Istream}
use teta.Nanopb.Istream.Shortens.{Shortens}
use teta.Nanopb.Machine.{Machine}
use teta.Nanopb.Machine.Safety.{IsSound, Sound}
use teta.Nanopb.Decoder.Program.{Program}
use teta.Nanopb.Decoder.Message.{Locals, message_loop}

module _ (step : Locals → ℕ × ℕ → Action Machine Locals)
    (sound : (l : Locals) (key : ℕ × ℕ) → Sound (step l key)) where
  -- The rest of a round, with `rounds` rounds behind it.
  abbrev round : ℕ → Locals → ℕ × ℕ → Action Machine Locals
  round rounds l key = step l key >>= message_loop rounds step

  module _ (k : ℕ) where
    -- With enough rounds for the stream of `w`, more change nothing.
    abbrev IsEnough : ℕ → ℕ → Type 0
    IsEnough rounds more =
        (l : Locals) (w : Machine)
        → IsSound k w
        → w.stream.bytes_left < rounds
        → message_loop more step l w ≡ message_loop rounds step l w
