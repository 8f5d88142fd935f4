-- ===== src/Nanopb/Decode/Safety.antt =====
-- The helper functions of pb_decode.c read inside the block on every input, well formed or not.
use teta.Prelude.{
  ℕ, zero, suc, ◌+◌, ◌-◌, ◌≡◌, ◌≤◌, ◌⊎◌, true, false, arith, Option, some, none, inl, inr,
}
use teta.Prelude.{
  ltb, ltb→ge, leb, Bool-cases, if◌then◌else◌, Bool, ◌==◌, u8, u64, bit_and, bit_or, ◌<<<◌,
}
use teta.Prelude.{length-drop}
use mathlib.Core.Path.{subst}
use teta.Nanopb.Action.{
  Errmsg, then_on, varint_overflow, invalid_wire_type, parent_stream_too_short,
}
use teta.Nanopb.Istream.{
  Istream, Source, memory, user, overread, fail, pb_read_null, pb_readbyte, first_byte,
}
use teta.Nanopb.Istream.Safety.{
  IsWithin, Keeps, IsInStep, Ends, Safe-none, Safe-with, Safe-choose, pb_read_null-all, Safe,
  Safe-return, Safe-fail, Holds-less, Safe-seq, Safe-if, Keeps-trans, pb_read-Safe,
  pb_readbyte-Safe, pb_read_null-Safe,
}
use teta.Nanopb.Decode.{
  continues, merge32, last32, varint32_loop, varint32_rest, eof_reply, pb_decode_varint32_eof,
  pb_decode_varint32, varint_loop, pb_decode_varint, skip_varint_loop, pb_skip_varint,
  pb_skip_string, pb_skip_field, tag_reply, pb_decode_tag, raw_varint, read_raw_value,
  pb_make_string_substream, close_reply, pb_close_string_substream, pb_decode_svarint,
  pb_decode_fixed32, pb_decode_fixed64, wt_varint, wt_64bit, wt_string, wt_32bit,
}

merge32-Safe : (byte bitpos result : ℕ) → Safe (merge32 byte bitpos result)
unfolding merge32
merge32-Safe byte bitpos result =
    Safe-if _ (Safe-if _ (Safe-fail varint_overflow) (Safe-return _)) (Safe-return _)

last32-Safe : (byte bitpos result : ℕ) → Safe (last32 byte bitpos result)
unfolding last32
last32-Safe byte bitpos result = Safe-if _ (Safe-fail varint_overflow) (Safe-return _)

varint32_loop-Safe : (fuel bitpos result : ℕ) → Safe (varint32_loop fuel bitpos result)
unfolding varint32_loop
varint32_loop-Safe zero bitpos result = Safe-none
varint32_loop-Safe (suc fuel) bitpos result = Safe-seq _ pb_readbyte-Safe λ byte.
    Safe-seq _ (merge32-Safe byte bitpos result) λ result'.
      Safe-if (continues byte) (varint32_loop-Safe fuel (u8 (bitpos + 7)) result')
        (last32-Safe byte (u8 (bitpos + 7)) result')

varint_loop-Safe : (fuel bitpos result : ℕ) → Safe (varint_loop fuel bitpos result)
unfolding varint_loop
varint_loop-Safe zero bitpos result = Safe-none
varint_loop-Safe (suc fuel) bitpos result =
    Safe-choose (λ s. leb 64 bitpos) (Safe-fail varint_overflow)
      (Safe-seq _ pb_readbyte-Safe λ byte.
        Safe-if (continues byte)
          (varint_loop-Safe fuel (u8 (bitpos + 7))
            (bit_or result (u64 (bit_and byte 0x7f <<< bitpos))))
          (Safe-return _))

skip_varint_loop-Safe : (fuel : ℕ) → Safe (skip_varint_loop fuel)
unfolding skip_varint_loop
skip_varint_loop-Safe zero = Safe-none
skip_varint_loop-Safe (suc fuel) =
    Safe-seq _ (pb_read-Safe 1)
      λ bytes. Safe-if (continues (first_byte bytes)) (skip_varint_loop-Safe fuel) (Safe-return tt)

pub varint32_rest-Safe : (byte : ℕ) → Safe (varint32_rest byte)
unfolding varint32_rest
varint32_rest-Safe byte =
    Safe-choose (λ s. continues byte)
      (Safe-with (λ s. s.bytes_left) (λ n. varint32_loop (n + 1) 7 (bit_and byte 0x7f))
        (λ n. varint32_loop-Safe (n + 1) 7 (bit_and byte 0x7f)))
      (Safe-return byte)

eof-Keeps :
    (k : ℕ) (s : Istream) (r : Option ℕ × Istream) → Keeps k s r.1 → Keeps k s (eof_reply r).1.1
eof-Keeps k s (none, t) j = j
eof-Keeps k s (some byte, t) j =
    Keeps-trans k s t (varint32_rest byte t).1 j ((varint32_rest-Safe byte).keeps k t j.0)

eof-InStep : (k : ℕ) (r : Option ℕ × Istream) → IsInStep k r.1 → IsInStep k (eof_reply r).1.1
eof-InStep k (none, t) j = j
eof-InStep k (some byte, t) j = (varint32_rest-Safe byte).in_step k t j

pb_decode_varint32_eof-InStep :
    (k : ℕ) (s : Istream) → IsInStep k s → IsInStep k (pb_decode_varint32_eof s).1.1
unfolding pb_decode_varint32_eof
pb_decode_varint32_eof-InStep k s h = eof-InStep k (pb_readbyte s) (pb_readbyte-Safe.in_step k s h)

pub pb_decode_varint32_eof-Keeps :
    (k : ℕ) (s : Istream) → IsWithin k s → Keeps k s (pb_decode_varint32_eof s).1.1
unfolding pb_decode_varint32_eof
pb_decode_varint32_eof-Keeps k s h = eof-Keeps k s (pb_readbyte s) (pb_readbyte-Safe.keeps k s h)

pub pb_decode_varint32-Safe : Safe pb_decode_varint32
unfolding pb_decode_varint32
pb_decode_varint32-Safe = record {
  keeps = pb_decode_varint32_eof-Keeps;
  in_step = pb_decode_varint32_eof-InStep;
}

tag-Keeps :
    (k : ℕ) (s : Istream) (r : Bool × (Option ℕ × Istream))
    → Keeps k s r.1.1
    → Keeps k s (tag_reply r).1.1
tag-Keeps k s (eof, (none, t)) j = j
tag-Keeps k s (eof, (some temp, t)) j = elim (Bool-cases (temp == 0)) [
  | inl end ↦ rw end j
  | inr key ↦ rw key j
]

tag-InStep :
    (k : ℕ) (r : Bool × (Option ℕ × Istream)) → IsInStep k r.1.1 → IsInStep k (tag_reply r).1.1
tag-InStep k (eof, (none, t)) j = j
tag-InStep k (eof, (some temp, t)) j = elim (Bool-cases (temp == 0)) [
  | inl end ↦ rw end j
  | inr key ↦ rw key j
]

pub pb_decode_tag-InStep : (k : ℕ) (s : Istream) → IsInStep k s → IsInStep k (pb_decode_tag s).1.1
unfolding pb_decode_tag
pb_decode_tag-InStep k s h =
    tag-InStep k (pb_decode_varint32_eof s) (pb_decode_varint32_eof-InStep k s h)

-- `pb_decode_tag` leaves a stream that lies inside its block inside it and no longer than it was,
-- on success, at the end of the message and on errors.
pub pb_decode_tag-Keeps : (k : ℕ) (s : Istream) → IsWithin k s → Keeps k s (pb_decode_tag s).1.1
unfolding pb_decode_tag
pb_decode_tag-Keeps k s h =
    tag-Keeps k s (pb_decode_varint32_eof s) (pb_decode_varint32_eof-Keeps k s h)

pub pb_decode_varint-Safe : Safe pb_decode_varint
unfolding pb_decode_varint
pb_decode_varint-Safe = varint_loop-Safe 11 0 0

pb_skip_varint-Safe : Safe pb_skip_varint
unfolding pb_skip_varint
pb_skip_varint-Safe =
    Safe-with (λ s. s.bytes_left) (λ n. skip_varint_loop (n + 1))
      (λ n. skip_varint_loop-Safe (n + 1))

pb_skip_string-Safe : Safe pb_skip_string
unfolding pb_skip_string
pb_skip_string-Safe = Safe-seq pb_read_null pb_decode_varint32-Safe pb_read_null-Safe

-- Whatever the wire type and the stream are, valid or not, `pb_skip_field` does not read outside the
-- stream's block, and leaves the stream inside it and no longer than it was.
pub pb_skip_field-Safe : (wire_type : ℕ) → Safe (pb_skip_field wire_type)
unfolding pb_skip_field
pb_skip_field-Safe wire_type = Safe-if (wire_type == wt_varint) pb_skip_varint-Safe (
    Safe-if (wire_type == wt_64bit) (pb_read_null-Safe 8) (
      Safe-if (wire_type == wt_string) pb_skip_string-Safe
        (Safe-if (wire_type == wt_32bit) (pb_read_null-Safe 4) (Safe-fail invalid_wire_type))))

raw_varint-Safe : (room : ℕ) → Safe (raw_varint room)
unfolding raw_varint
raw_varint-Safe zero = Safe-none
raw_varint-Safe (suc room) = Safe-seq _ (pb_read-Safe 1) λ bytes.
    Safe-if (continues (first_byte bytes))
      (Safe-seq _ (raw_varint-Safe room) (λ more. Safe-return _)) (Safe-return bytes)

-- Nor does `read_raw_value`, for any wire type and size of its buffer.
pub read_raw_value-Safe : (wire_type max_size : ℕ) → Safe (read_raw_value wire_type max_size)
unfolding read_raw_value
read_raw_value-Safe wire_type max_size =
    Safe-if (wire_type == wt_varint) (raw_varint-Safe max_size) (
      Safe-if (wire_type == wt_64bit) (pb_read-Safe 8)
        (Safe-if (wire_type == wt_32bit) (pb_read-Safe 4) (Safe-fail invalid_wire_type)))

-- The substream, where there is one, lies in the block with the stream's bytes behind its own.
abbrev pub SubKeeps : ℕ → Istream → Option Istream × Istream → Type 0
SubKeeps k s (none, t) = Keeps k s t
SubKeeps k s (some sub, t) =
    Keeps k s t × Keeps (t.bytes_left + k) s sub × (sub.bytes_left + t.bytes_left ≤ s.bytes_left)

abbrev split : ℕ → Istream → Option Istream × Istream
split size s =
    if ltb s.bytes_left size
    then fail parent_stream_too_short s
    else (some (record s { bytes_left = size }), record s { bytes_left = s.bytes_left - size })

split-SubKeeps : (k size : ℕ) (s : Istream) → IsWithin k s → SubKeeps k s (split size s)
split-SubKeeps k size s h = elim (Bool-cases (ltb s.bytes_left size)) [
  | inl short ↦ rw short (h, omega arith)
  | inr enough ↦
      let room : size ≤ s.bytes_left = ltb→ge _ _ enough in
      let rest = Holds-less s.source (s.bytes_left + k) in
      rw enough (
        (rest (s.bytes_left - size + k) (omega arith) h, omega arith),
        (rest (size + (s.bytes_left - size + k)) (omega arith) h, room),
        omega arith,
      )
]

sub-SubKeeps :
    (k : ℕ) (s : Istream) (r : Option ℕ × Istream) → Keeps k s r.1 → SubKeeps k s (then_on r split)
sub-SubKeeps k s (none, t) j = j
sub-SubKeeps k s (some size, t) j = widen (split size t) (split-SubKeeps k size t j.0)
  where
    widen : (r : Option Istream × Istream) → SubKeeps k t r → SubKeeps k s r
    widen (none, u) i = Keeps-trans k s t u j i
    widen (some sub, u) (i, (low, le), sum) =
        (Keeps-trans k s t u j i, (low, omega (arith, j.1)), omega (arith, j.1))

-- From a stream that lies inside its block, `pb_make_string_substream` opens a substream, if any, that
-- lies inside the block with the bytes that are left to the stream behind its own, and is no longer
-- than the stream was; it leaves the stream inside the block too.
pub pb_make_string_substream-SubKeeps :
    (k : ℕ) (s : Istream) → IsWithin k s → SubKeeps k s (pb_make_string_substream s)
unfolding pb_make_string_substream
pb_make_string_substream-SubKeeps k s h =
    sub-SubKeeps k s (pb_decode_varint32 s) (pb_decode_varint32-Safe.keeps k s h)

closed-Keeps :
    (k : ℕ) (s t : Istream) (r : Option (Unit {0}) × Istream)
    → IsWithin k s
    → Keeps (s.bytes_left + k) t r.1
    → Keeps k s (close_reply s r).1
closed-Keeps k s t (none, sub) h j = (h, omega arith)
closed-Keeps k s t (some u, sub) h j = (
  Holds-less sub.source (sub.bytes_left + (s.bytes_left + k)) (s.bytes_left + k) (omega arith) j.0,
  omega arith,
)

-- The stream has the length that it had, however much of the substream was read.
pub pb_close_string_substream-Keeps :
    (k : ℕ) (sub s : Istream)
    → IsWithin (s.bytes_left + k) sub
    → IsWithin k s
    → Keeps k s (pb_close_string_substream sub s).1
unfolding pb_close_string_substream
pb_close_string_substream-Keeps k sub s low h =
    closed-Keeps k s sub
      (if sub.bytes_left == 0 then (some tt, sub) else pb_read_null sub.bytes_left sub) h
      (drained (Bool-cases (sub.bytes_left == 0)))
  where
    drained :
        (sub.bytes_left == 0 ≡ true) ⊎ (sub.bytes_left == 0 ≡ false)
        → Keeps
            (s.bytes_left + k)
            sub
            (if sub.bytes_left == 0 then (some tt, sub) else pb_read_null sub.bytes_left sub).1
    drained (inl none_left) = rw none_left (low, omega arith)
    drained (inr some_left) =
        rw some_left ((pb_read_null-Safe sub.bytes_left).keeps (s.bytes_left + k) sub low)

-- The substream, where there is one, is in step, with the stream's bytes behind its own.
abbrev pub SubInStep : ℕ → Option Istream × Istream → Type 0
SubInStep k (none, t) = IsInStep k t
SubInStep k (some sub, t) = IsInStep (t.bytes_left + k) sub

split-InStep : (k size : ℕ) (s : Istream) → IsInStep k s → SubInStep k (split size s)
split-InStep k size s h = elim (Bool-cases (ltb s.bytes_left size)) [
  | inl short ↦ rw short h
  | inr enough ↦
      let room : size ≤ s.bytes_left = ltb→ge _ _ enough in
      rw enough (
        subst (Ends s.source) {x = s.bytes_left + k} {y = size + (s.bytes_left - size + k)}
          (omega arith) h)
]

pub pb_make_string_substream-InStep :
    (k : ℕ) (s : Istream) → IsInStep k s → SubInStep k (pb_make_string_substream s)
unfolding pb_make_string_substream
pb_make_string_substream-InStep k s h =
    go (pb_decode_varint32 s) (pb_decode_varint32-Safe.in_step k s h)
  where
    go : (r : Option ℕ × Istream) → IsInStep k r.1 → SubInStep k (then_on r split)
    go (none, t) j = j
    go (some size, t) j = split-InStep k size t j

abbrev pub Succeeds : {A : Type 0} → ℕ → Option A × Istream → Type 0
Succeeds k (none, t) = Unit {0}
Succeeds k (some a, t) = IsInStep k t

-- Closing a substream that is in step moves the stream behind all of its bytes.
pub pb_close_string_substream-InStep :
    (k : ℕ) (sub s : Istream)
    → IsInStep (s.bytes_left + k) sub
    → Succeeds k (pb_close_string_substream sub s)
unfolding pb_close_string_substream
pb_close_string_substream-InStep k sub s j = go sub.source sub.bytes_left sub.errmsg j
  where
    go :
        (source : Source) (left : ℕ) (err : Option Errmsg)
        → Ends source (left + (s.bytes_left + k))
        → Succeeds k (
            pb_close_string_substream
              (record { source = source; bytes_left = left; errmsg = err })
              s)
    go (memory bs) left err h = elim (Bool-cases (left == 0)) [
      | inl read ↦ rw read (ground arith)
      | inr more ↦
          rw (more, pb_read_null-all (s.bytes_left + k) left bs err h)
            (omega (arith, length-drop left bs))
    ]
    go (user f state) left err h = absurd h
    go overread left err h = absurd h

pub pb_decode_svarint-Safe : Safe pb_decode_svarint
unfolding pb_decode_svarint
pb_decode_svarint-Safe = Safe-seq _ pb_decode_varint-Safe (λ value. Safe-return _)

pub pb_decode_fixed32-Safe : Safe pb_decode_fixed32
unfolding pb_decode_fixed32
pb_decode_fixed32-Safe = Safe-seq _ (pb_read-Safe 4) (λ bytes. Safe-return _)

pub pb_decode_fixed64-Safe : Safe pb_decode_fixed64
unfolding pb_decode_fixed64
pb_decode_fixed64-Safe = Safe-seq _ (pb_read-Safe 8) (λ bytes. Safe-return _)
