-- ===== src/Nanopb/Decode/Shortens.antt =====
-- A key that `pb_decode_tag` gives has left the stream.
use teta.Prelude.{ℕ, ◌<◌, ◌≤◌, arith, Bool, Option, none, some, inl, inr, Bool-cases, ◌==◌}
use teta.Nanopb.Istream.{Istream, pb_readbyte}
use teta.Nanopb.Istream.Safety.{IsWithin, Keeps, pb_readbyte-Safe}
use teta.Nanopb.Istream.Shortens.{Shortens, pb_readbyte-Shortens}
use teta.Nanopb.Decode.{pb_decode_varint32_eof, eof_reply, varint32_rest, tag_reply, pb_decode_tag}
use teta.Nanopb.Decode.Safety.{varint32_rest-Safe}

less :
    {A : Type 0} (s t : Istream) (r : Option A × Istream)
    → t.bytes_left < s.bytes_left
    → r.1.bytes_left ≤ t.bytes_left
    → Shortens s r
less s t (none, u) lt le = tt
less s t (some a, u) lt le = omega arith

eof-Shortens :
    (k : ℕ) (s : Istream) (r : Option ℕ × Istream)
    → Keeps k s r.1
    → Shortens s r
    → Shortens s (eof_reply r).1
eof-Shortens k s (none, t) j h = tt
eof-Shortens k s (some byte, t) j h =
    less s t (varint32_rest byte t) h ((varint32_rest-Safe byte).keeps k t j.0).1

tag-Shortens :
    (s : Istream) (r : Bool × (Option ℕ × Istream)) → Shortens s r.1 → Shortens s (tag_reply r).1
tag-Shortens s (eof, (none, t)) h = tt
tag-Shortens s (eof, (some temp, t)) h = elim (Bool-cases (temp == 0)) [
  | inl end ↦ rw end tt
  | inr key ↦ rw key h
]

pub pb_decode_tag-Shortens : (k : ℕ) (s : Istream) → IsWithin k s → Shortens s (pb_decode_tag s).1
unfolding pb_decode_tag pb_decode_varint32_eof
pb_decode_tag-Shortens k s h =
    tag-Shortens s (pb_decode_varint32_eof s)
      (eof-Shortens k s (pb_readbyte s) (pb_readbyte-Safe.keeps k s h) (pb_readbyte-Shortens s))
