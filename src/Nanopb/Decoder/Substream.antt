-- ===== src/Nanopb/Decoder/Substream.antt =====
-- TestProdSS/Pods/nanopb/pb_decode.c: how its functions use the substream of a length-delimited
-- value. While a substream is read it stands in the machine's place for the stream, and the stream
-- that it was made from is kept aside.
use teta.Prelude.{ℕ, zero, suc, Option, none, some, List, ◌==◌, if◌then◌else◌, length}
use teta.Nanopb.Action.{Action, Errmsg, callback_failed}
use teta.Nanopb.Istream.{Istream, pb_istream_from_buffer}
use teta.Nanopb.Decode.{pb_make_string_substream, pb_close_string_substream, read_raw_value}
use teta.Nanopb.Machine.{Machine, fail, lost, unfinished}

abbrev pub back_to : Istream → Machine → Machine
back_to s w = record w { stream = s }

-- PB_RETURN_ERROR on the stream that was kept.
abbrev pub fail_on : {A : Type 0} → Istream → Errmsg → Action Machine A
fail_on s msg w = fail msg (back_to s w)

abbrev pub opened :
    (Istream → Action Machine (Unit {0}))
    → Machine
    → Option Istream × Istream
    → Option (Unit {0}) × Machine
opened body w (none, s) = (none, back_to s w)
opened body w (some substream, s) = body s (back_to substream w)

-- `if (!pb_make_string_substream(stream, &substream)) return false;` and the rest, which gets the
-- stream and begins with the substream in its place.
unfoldable pub open_substream : (Istream → Action Machine (Unit {0})) → Action Machine (Unit {0})
open_substream body w = opened body w (pb_make_string_substream w.stream)

abbrev pub closed :
    Option (Unit {0}) → Machine → Option (Unit {0}) × Istream → Option (Unit {0}) × Machine
closed status w (none, s) = (none, back_to s w)
closed status w (some u, s) = (status, back_to s w)

-- `if (!pb_close_string_substream(stream, &substream)) return false; return status;`
unfoldable pub close_substream : Istream → Option (Unit {0}) × Machine → Option (Unit {0}) × Machine
close_substream s (status, w) = closed status w (pb_close_string_substream w.stream s)

-- `status = body(&substream);` between the two.
unfoldable pub in_substream : Action Machine (Unit {0}) → Action Machine (Unit {0})
in_substream body = open_substream (λ s w. close_substream s (body w))

abbrev pub called :
    Istream → Action Machine (Unit {0}) → Option (Unit {0}) × Machine → Option (Unit {0}) × Machine
called s again (none, w) = fail_on s callback_failed w
called s again (some u, w) =
    if w.stream.bytes_left == 0 then close_substream s (some tt, w) else again w

-- `do { if (!call(&substream)) …; } while (substream.bytes_left);` and the close, for at most `rounds`
-- rounds.
unfoldable pub call_until_read : ℕ → Action Machine (Unit {0}) → Istream → Action Machine (Unit {0})
call_until_read zero call s w = lost unfinished (back_to s w)
call_until_read (suc rounds) call s w =
    let again = call_until_read rounds call s in called s again (call w)

abbrev pub raw_called :
    Action Machine (Unit {0}) → Machine → Option (List ℕ) × Istream → Option (Unit {0}) × Machine
raw_called call w (none, s) = (none, back_to s w)
raw_called call w (some bytes, s) =
    let (status, v) = call (back_to (pb_istream_from_buffer bytes (length bytes)) w) in
    (status, back_to s v)

-- A call with a stream over the bytes of one scalar value. `buffer` has ten bytes.
unfoldable pub call_on_raw_value : ℕ → Action Machine (Unit {0}) → Action Machine (Unit {0})
call_on_raw_value wire_type call w = raw_called call w (read_raw_value wire_type 10 w.stream)
