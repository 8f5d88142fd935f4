-- ===== src/Nanopb/RoundTrip.antt =====
-- Encoding into a buffer and decoding from it: the two halves of nanopb together.
mod Tests
use teta.Prelude.{
  Bool, ℕ, suc, ◌+◌, ◌*◌, ◌^◌, ◌≤◌, ◌<◌, ◌≡◌, refl, ap, ◌∙◌, arith, Option, some, none, List, [],
  ◌∷◌, ◌++◌, length, drop, append-nil, IsU32, IsU64,
}
use mathlib.Core.Path.{subst}
use teta.Nanopb.Action.{Action}
use teta.Nanopb.Ostream.{
  Sink, sizing, buffer, user, undefined, unfinished, Ostream, pb_ostream_from_buffer,
  ostream_sizing,
}
use teta.Nanopb.Ostream.Emits.{Emits, at_buffer, stored, counting}
use teta.Nanopb.Istream.{Istream, pb_istream_from_buffer}
use teta.Nanopb.Istream.Accepts.{Accepts, on_memory}
use teta.Nanopb.Wire.{
  varint, little_endian, key, length_delimited, length-base128, length-little_endian,
}
use teta.Nanopb.Encode.{
  zigzag, pb_encode_varint, pb_encode_svarint, pb_encode_fixed32, pb_encode_fixed64, pb_encode_tag,
  pb_encode_string,
}
use teta.Nanopb.Encode.Varint.{pb_encode_varint-Emits}
use teta.Nanopb.Encode.Values.{
  zigzag-IsU64, pb_encode_svarint-Emits, pb_encode_fixed32-Emits, pb_encode_fixed64-Emits,
  pb_encode_tag-Emits, pb_encode_string-Emits,
}
use teta.Nanopb.Decode.{
  unzigzag, pb_decode_varint, pb_decode_varint32, pb_decode_svarint, pb_decode_fixed32,
  pb_decode_fixed64, pb_decode_tag, pb_make_string_substream,
}
use teta.Nanopb.Decode.Varint.{pb_decode_varint-Accepts}
use teta.Nanopb.Decode.Varint32.{pb_decode_varint32-Accepts}
use teta.Nanopb.Decode.Values.{
  unzigzag-zigzag, pb_decode_svarint-Accepts, pb_decode_fixed32-Accepts, pb_decode_fixed64-Accepts,
  pb_decode_tag-reads, pb_make_string_substream-reads,
}

-- The block that an output stream writes to.
abbrev pub contents : Sink → List ℕ
contents sizing = []
contents (buffer behind ahead) = behind ++ ahead
contents (user f state) = []
contents undefined = []
contents unfinished = []

-- The input stream over what an output stream has written.
abbrev pub reopened : Ostream → Istream
reopened s = pb_istream_from_buffer (contents s.sink) s.bytes_written

-- `encode` fills a part of the block `buf` and returns true, a counting stream gives the size of
-- that part, and `decode` reads `a` back from it.
pub record RoundTrips {A : Type 0} (encode : Action Ostream (Unit {0})) (decode : Action Istream A)
    (a : A) (size : ℕ) (buf : List ℕ) : Type 0 where
  pub counted : encode ostream_sizing ≡ (some tt, record ostream_sizing { bytes_written = size })
  pub encoded : (encode (pb_ostream_from_buffer buf (length buf))).0 ≡ some tt
  pub written : (encode (pb_ostream_from_buffer buf (length buf))).1.bytes_written ≡ size
  pub decoded : (decode (reopened (encode (pb_ostream_from_buffer buf (length buf))).1)).0 ≡ some a

pub Emits→RoundTrips :
    {A : Type 0} {encode : Action Ostream (Unit {0})} {decode : Action Istream A} {a : A}
    {bs : List ℕ}
    → Emits encode bs
    → Accepts decode bs a
    → (buf : List ℕ) → length bs ≤ length buf
    → IsU64 (length buf)
    → RoundTrips encode decode a (length bs) buf
unfolding pb_ostream_from_buffer pb_istream_from_buffer
Emits→RoundTrips {A} {encode = encode} {decode = decode} {a = a} {bs = bs} emits accepts buf room
      small =
    record {
      counted =
          emits.sizes 0 0 (omega arith)
          ∙ ap (λ (n : ℕ). (some tt, counting 0 n)) {y = length bs} (omega arith);
      encoded = rw fits refl;
      written = rw fits (omega arith);
      decoded =
          rw (fits, plain)
            (ap (λ (r : Option A × Istream). r.0) (accepts.reads (drop (length bs) buf) 0 none));
    }
  where
    fits : encode (at_buffer [] buf (length buf) 0) ≡ (some tt, stored bs [] buf (length buf) 0)
    fits = emits.fits [] buf (length buf) 0 (omega arith) small room

    plain : 0 + length bs ≡ length bs + 0
    plain = omega arith

-- Every uint64_t is encoded as a varint in any block of ten bytes or more, and decoded from it; the
-- counting stream foretells the size.
pub varint_round_trip :
    (v : ℕ) (buf : List ℕ)
    → IsU64 v
    → 10 ≤ length buf
    → IsU64 (length buf)
    → RoundTrips (pb_encode_varint v) pb_decode_varint v (length (varint v)) buf
varint_round_trip v buf h room small =
    Emits→RoundTrips (pb_encode_varint-Emits v h) (pb_decode_varint-Accepts v h) buf
      (omega (arith, (length-base128 9 v).1)) small

-- The 32-bit decoder reads every value below 2 ^ 32 that `pb_encode_varint` wrote.
pub varint32_round_trip :
    (v : ℕ) (buf : List ℕ)
    → IsU32 v
    → 10 ≤ length buf
    → IsU64 (length buf)
    → RoundTrips (pb_encode_varint v) pb_decode_varint32 v (length (varint v)) buf
varint32_round_trip v buf h room small =
    Emits→RoundTrips (pb_encode_varint-Emits v (omega arith)) (pb_decode_varint32-Accepts v h) buf
      (omega (arith, (length-base128 9 v).1)) small

-- Every int64_t, as its bit pattern, comes back from zigzag coding, negative ones included.
pub svarint_round_trip :
    (v : ℕ) (buf : List ℕ)
    → IsU64 v
    → 10 ≤ length buf
    → IsU64 (length buf)
    → RoundTrips (pb_encode_svarint v) pb_decode_svarint v (length (varint (zigzag v))) buf
svarint_round_trip v buf h room small =
    Emits→RoundTrips (pb_encode_svarint-Emits v)
      (subst (Accepts pb_decode_svarint (varint (zigzag v))) (unzigzag-zigzag v h)
        (pb_decode_svarint-Accepts (zigzag v) (zigzag-IsU64 v)))
      buf (omega (arith, (length-base128 9 (zigzag v)).1)) small

-- Fixed-width values of 32 and of 64 bits take 4 and 8 bytes and come back.
pub fixed_round_trip :
    (v w : ℕ) (buf : List ℕ)
    → IsU32 v
    → IsU64 w
    → 8 ≤ length buf
    → IsU64 (length buf)
    → RoundTrips (pb_encode_fixed32 v) pb_decode_fixed32 v 4 buf
      × RoundTrips (pb_encode_fixed64 w) pb_decode_fixed64 w 8 buf
fixed_round_trip v w buf hv hw room small = (
  subst (λ (n : ℕ). RoundTrips (pb_encode_fixed32 v) pb_decode_fixed32 v n buf)
      (length-little_endian 4 v)
      (Emits→RoundTrips (pb_encode_fixed32-Emits v) (pb_decode_fixed32-Accepts v hv) buf
        (omega (arith, length-little_endian 4 v)) small),
  subst (λ (n : ℕ). RoundTrips (pb_encode_fixed64 w) pb_decode_fixed64 w n buf)
      (length-little_endian 8 w)
      (Emits→RoundTrips (pb_encode_fixed64-Emits w) (pb_decode_fixed64-Accepts w hw) buf
        (omega (arith, length-little_endian 8 w)) small),
)

-- What `pb_decode_tag` stores when it returns true.
abbrev pub decode_tag : Action Istream (ℕ × ℕ)
decode_tag s = (pb_decode_tag s).1

-- A field's key, of any number below 2 ^ 29 but 0 and any wire type, comes back.
pub tag_round_trip :
    (number wire_type : ℕ) (buf : List ℕ)
    → 0 < number
    → number < 2 ^ 29
    → wire_type < 8
    → 10 ≤ length buf
    → IsU64 (length buf)
    → RoundTrips
        (pb_encode_tag wire_type number)
        decode_tag
        (number, wire_type)
        (length (key number wire_type))
        buf
tag_round_trip number wire_type buf pos hn hw room small =
    Emits→RoundTrips (pb_encode_tag-Emits wire_type number hw (omega arith))
      (record {
        reads = λ rest left err.
            ap (λ (r : Bool × (Option (ℕ × ℕ) × Istream)). r.1)
              (pb_decode_tag-reads number wire_type rest left err hw hn pos);
      })
      buf (omega (arith, (length-base128 9 (number * 8 + wire_type)).1)) small
