-- ===== src/Nanopb/Encoder/Submessage.antt =====
-- TestProdSS/Pods/nanopb/pb_encode.c: `pb_encode_submessage`. The argument `encode` is the call
-- `pb_encode(stream, fields, src_struct)`, for the submessage that is written.
use teta.Prelude.{ℕ, ◌+◌, Option, none, some, not, [], ltb, ◌==◌, if◌then◌else◌, u64}
use teta.Nanopb.Action.{Action, then_on, stream_full, submsg_size_changed}
use teta.Nanopb.Ostream.{Ostream, fail, pb_write, ostream_sizing, is_sizing, lost_by}
use teta.Nanopb.Encode.{pb_encode_varint}

-- What stands behind the second `pb_encode`, on its status and the substream.
unfoldable pub close_substream :
    ℕ → Ostream → Option (Unit {0}) × Ostream → Option (Unit {0}) × Ostream
close_substream size s (status, substream) =
    let s' = record s {
      sink = substream.sink;
      bytes_written = u64 (s.bytes_written + substream.bytes_written);
      errmsg = substream.errmsg;
    } in
    if not (substream.bytes_written == size) then fail submsg_size_changed s' else (status, s')

-- What stands behind `pb_encode_varint(stream, size)`.
unfoldable pub write_sized : Action Ostream (Unit {0}) → ℕ → Action Ostream (Unit {0})
write_sized encode size s =
    if is_sizing s.sink
    then pb_write [] size s
    else if ltb s.max_size (u64 (s.bytes_written + size))
    then fail stream_full s
    else close_substream size s
        (encode (record { sink = s.sink; max_size = size; bytes_written = 0; errmsg = none }))

unfoldable pub after_sizing :
    Action Ostream (Unit {0}) → Ostream → Option (Unit {0}) × Ostream → Option (Unit {0}) × Ostream
after_sizing encode s (none, substream) =
    (none, record s { sink = lost_by substream.sink s.sink; errmsg = substream.errmsg })
after_sizing encode s (some u, substream) =
    then_on
      (pb_encode_varint substream.bytes_written (record s { sink = lost_by substream.sink s.sink }))
      (λ v. write_sized encode substream.bytes_written)

unfoldable pub encode_submessage : Action Ostream (Unit {0}) → Action Ostream (Unit {0})
encode_submessage encode s = after_sizing encode s (encode ostream_sizing)
