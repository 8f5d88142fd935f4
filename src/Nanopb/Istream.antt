-- ===== src/Nanopb/Istream.antt =====
-- TestProdSS/Pods/nanopb/pb_decode.h and pb_decode.c: input streams, `buf_read`, `pb_read` and
-- `pb_readbyte`. What a C function stores through a pointer to its result is the action's value.
pub mod Accepts
pub mod Safety
pub mod Length
pub mod Shortens
use teta.Prelude.{ℕ, zero, suc, ◌+◌, ◌-◌, Bool, true, false, Option, none, some, List, [], ◌∷◌}
use teta.Prelude.{length, drop, ltb, ◌==◌, if◌then◌else◌}
use teta.Nanopb.Action.{Errmsg, end_of_stream, io_error, first_error, Action, ◌>>=◌, ◌>>◌, return}

-- The fields `callback` and `state` of a stream. `memory` is `buf_read`, with the memory from the
-- pointer `state` to the end of the block. `user` is any other callback, a function of its own
-- state and the wanted number of bytes, which answers false or gives the bytes. `overread` marks
-- that C's behaviour became undefined: `buf_read` has left its block.
pub data Source : Type 0 where
  memory : List ℕ → Source
  user : (List ℕ → ℕ → Option (List ℕ) × List ℕ) → List ℕ → Source
  overread : Source

-- struct pb_istream_s
pub record Istream : Type 0 where
  pub source : Source
  pub bytes_left : ℕ
  pub errmsg : Option Errmsg

-- PB_RETURN_ERROR on an input stream.
abbrev pub fail : {A : Type 0} → Errmsg → Action Istream A
fail msg s = (none, record s { errmsg = first_error s.errmsg msg })

unfoldable pub pb_istream_from_buffer : List ℕ → ℕ → Istream
pb_istream_from_buffer buf bufsize = record {
  source = memory buf;
  bytes_left = bufsize;
  errmsg = none;
}

-- The contents of a buffer of `count` bytes that `bs` was copied into: the first bytes of `bs`, and
-- zeros where `bs` is too short.
abbrev pub filled : ℕ → List ℕ → List ℕ
filled zero bs = []
filled (suc n) [] = 0 ∷ filled n []
filled (suc n) (b ∷ bs) = b ∷ filled n bs

pub buf_read : ℕ → List ℕ → Source
buf_read count bs = if ltb (length bs) count then overread else memory (drop count bs)

abbrev pub user_reply :
    ℕ
    → (List ℕ → ℕ → Option (List ℕ) × List ℕ)
    → Option (List ℕ) × List ℕ
    → Option (List ℕ) × Source
user_reply count f (none, state) = (none, user f state)
user_reply count f (some bs, state) = (some (filled count bs), user f state)

-- The call `stream->callback(stream, buf, count)`, with the contents of `buf` after it.
pub callback : ℕ → Source → Option (List ℕ) × Source
callback count (memory bs) = (some (filled count bs), buf_read count bs)
callback count (user f state) = user_reply count f (f state count)
callback count overread = (some (filled count []), overread)

abbrev pub after_callback : ℕ → Istream → Option (List ℕ) × Source → Option (List ℕ) × Istream
after_callback count s (none, source) = fail io_error (record s { source = source })
after_callback count s (some bs, source) =
    (some bs, record s { source = source; bytes_left = s.bytes_left - count })

-- `pb_read` with a buffer for the bytes.
pub pb_read : ℕ → Action Istream (List ℕ)
pb_read count s =
    if ltb s.bytes_left count
    then fail end_of_stream s
    else after_callback count s (callback count s.source)

abbrev pub is_buf_read : Source → Bool
is_buf_read (memory bs) = true
is_buf_read (user f state) = false
is_buf_read overread = true

-- The loop of `pb_read` over pieces of 16 bytes; `count` rounds are more than enough.
pub skip_pieces : ℕ → ℕ → Action Istream (List ℕ)
skip_pieces zero count = pb_read count
skip_pieces (suc fuel) count =
    let rest = pb_read 16 >>= (λ tmp. skip_pieces fuel (count - 16)) in
    if ltb 16 count then rest else pb_read count

-- `pb_read` with a NULL buffer.
pub pb_read_null : ℕ → Action Istream (Unit {0})
pb_read_null count s =
    ((if is_buf_read s.source then pb_read count else skip_pieces count count)
        >>= (λ bs. return tt))
      s

abbrev pub first_byte : List ℕ → ℕ
first_byte [] = 0
first_byte (b ∷ bs) = b

abbrev pub after_byte : Istream → Option (List ℕ) × Source → Option ℕ × Istream
after_byte s (none, source) = fail io_error (record s { source = source })
after_byte s (some bs, source) =
    (some (first_byte bs), record s { source = source; bytes_left = s.bytes_left - 1 })

pub pb_readbyte : Action Istream ℕ
pb_readbyte s =
    if s.bytes_left == 0 then fail end_of_stream s else after_byte s (callback 1 s.source)
