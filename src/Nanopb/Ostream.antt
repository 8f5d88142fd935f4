-- ===== src/Nanopb/Ostream.antt =====
-- TestProdSS/Pods/nanopb/pb_encode.h and pb_encode.c: output streams, `buf_write` and `pb_write`.
pub mod Emits
pub mod Gives
use teta.Prelude.{ℕ, ◌+◌, ◌%◌, ◌^◌, Bool, true, false, ◌||◌, Option, none, some, List, [], ◌++◌}
use teta.Prelude.{length, take, drop, ltb, if◌then◌else◌, u64}
use teta.Nanopb.Action.{Errmsg, stream_full, io_error, first_error, Action}

-- The fields `callback` and `state` of a stream. `sizing` is the NULL callback. `buffer` is
-- `buf_write`, with the memory that lies behind the pointer `state` and the memory from it to the
-- end of the block. `user` is any other callback, a function of its own state and the bytes; it
-- answers and leaves a new state. `undefined` marks that C's behaviour is undefined from here on, as
-- where `buf_write` leaves its source or its block. `unfinished` marks that the model's fuel ran out.
pub data Sink : Type 0 where
  sizing : Sink
  buffer : List ℕ → List ℕ → Sink
  user : (List ℕ → List ℕ → Bool × List ℕ) → List ℕ → Sink
  undefined unfinished : Sink

-- struct pb_ostream_s
pub record Ostream : Type 0 where
  pub sink : Sink
  pub max_size : ℕ
  pub bytes_written : ℕ
  pub errmsg : Option Errmsg

-- PB_RETURN_ERROR on an output stream.
abbrev pub fail : {A : Type 0} → Errmsg → Action Ostream A
fail msg s = (none, record s { errmsg = first_error s.errmsg msg })

-- From here on nothing is known of the stream.
abbrev pub lost : {A : Type 0} → Sink → Action Ostream A
lost sink s = (none, record s { sink = sink })

-- The mark that a stream for counting got stands on the stream it counts for.
abbrev pub lost_by : Sink → Sink → Sink
lost_by sizing s = s
lost_by (buffer behind ahead) s = s
lost_by (user f state) s = s
lost_by undefined s = undefined
lost_by unfinished s = unfinished

-- PB_OSTREAM_SIZING
abbrev pub ostream_sizing : Ostream
ostream_sizing = record { sink = sizing; max_size = 0; bytes_written = 0; errmsg = none }

unfoldable pub pb_ostream_from_buffer : List ℕ → ℕ → Ostream
pb_ostream_from_buffer buf bufsize = record {
  sink = buffer [] buf;
  max_size = bufsize;
  bytes_written = 0;
  errmsg = none;
}

pub buf_write : List ℕ → ℕ → List ℕ → List ℕ → Sink
buf_write buf count behind ahead =
    if ltb (length buf) count || ltb (length ahead) count
    then undefined
    else buffer (behind ++ take count buf) (drop count ahead)

-- The call `stream->callback(stream, buf, count)`.
pub callback : List ℕ → ℕ → Sink → Bool × Sink
callback buf count sizing = (true, sizing)
callback buf count (buffer behind ahead) = (true, buf_write buf count behind ahead)
callback buf count (user f state) =
    let (answer, state') = f state (take count buf) in (answer, user f state')
callback buf count undefined = (true, undefined)
callback buf count unfinished = (true, unfinished)

abbrev pub is_sizing : Sink → Bool
is_sizing sizing = true
is_sizing (buffer behind ahead) = false
is_sizing (user f state) = false
is_sizing undefined = false
is_sizing unfinished = false

-- `stream->bytes_written += count; return true;`, on a size_t of 64 bits.
abbrev pub count_bytes : ℕ → Action Ostream (Unit {0})
count_bytes count s = (some tt, record s { bytes_written = u64 (s.bytes_written + count) })

abbrev pub after_callback : ℕ → Ostream → Bool × Sink → Option (Unit {0}) × Ostream
after_callback count s (true, sink) = count_bytes count (record s { sink = sink })
after_callback count s (false, sink) = fail io_error (record s { sink = sink })

unfoldable pub pb_write : List ℕ → ℕ → Action Ostream (Unit {0})
pb_write buf count s =
    if is_sizing s.sink
    then count_bytes count s
    else if ltb s.max_size (u64 (s.bytes_written + count))
    then fail stream_full s
    else after_callback count s (callback buf count s.sink)
