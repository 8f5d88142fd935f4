-- ===== src/Nanopb/Decode/Values.antt =====
-- The other helper functions of pb_decode.c read what the wire format asks for.
use teta.Prelude.{
  ℕ, zero, suc, ◌+◌, ◌-◌, ◌*◌, ◌/◌, ◌%◌, ◌^◌, ◌<◌, ◌≡◌, refl, ap, ◌∙◌, arith, false, Option, some,
}
use teta.Prelude.{List, [], ◌∷◌, ◌++◌, length, IsU32, IsU64, and_ones, or_shifted}
use mathlib.Core.Path.{subst}
use native.Mathlib.Numerals.{towards_suc}
use native.Mathlib.Nat.{div-add-mod, add_assoc}
use teta.Prelude.{append_assoc, length-append}
use teta.Nanopb.Action.{Errmsg, Action, ◌>>=◌, return}
use teta.Nanopb.Istream.{Istream, pb_read, pb_read_null}
use teta.Nanopb.Istream.Accepts.{on_memory, Accepts, pb_read-Accepts, pb_read_null-Accepts}
use teta.Nanopb.Wire.{varint, little_endian, key, length_delimited, length-little_endian}
use teta.Nanopb.Encode.{zigzag}
use teta.Nanopb.Decode.{
  unzigzag, join_bytes, pb_decode_svarint, pb_decode_fixed32, pb_decode_fixed64, pb_decode_tag,
  pb_make_string_substream, pb_close_string_substream,
}
use teta.Nanopb.Decode.Varint.{pb_decode_varint-Accepts}
use teta.Nanopb.Decode.Varint32.{pb_decode_varint32_eof-reads, pb_decode_varint32-Accepts}

pub Accepts-map :
    {A B : Type 0} {m : Action Istream A} (f : A → B) {bs : List ℕ} {a : A}
    → Accepts m bs a
    → Accepts (m >>= (λ x. return (f x))) bs (f a)
Accepts-map f acc = record { reads = λ rest left err. rw (acc.reads rest left err) }

pub pb_decode_svarint-Accepts :
    (v : ℕ) → IsU64 v → Accepts pb_decode_svarint (varint v) (unzigzag v)
unfolding pb_decode_svarint
pb_decode_svarint-Accepts v h = Accepts-map unzigzag (pb_decode_varint-Accepts v h)

-- Zigzag coding is undone on every bit pattern of 64 bits.
pub unzigzag-zigzag : (v : ℕ) → IsU64 v → unzigzag (zigzag v) ≡ v
unfolding unzigzag zigzag
unzigzag-zigzag v h =
    ground (arith, and_ones 1 (v * 2 % 2 ^ 64), and_ones 1 (2 ^ 64 - 1 - v * 2 % 2 ^ 64))

shift_eight : (s : ℕ) → 2 ^ (s + 8) ≡ 256 * 2 ^ s
shift_eight s = simp towards_suc (omega arith)

byte_below : (b s value : ℕ) → value < 2 ^ s → b < 256 → value + b * 2 ^ s < 2 ^ (s + 8)
byte_below b s value h hb = rw (shift_eight s) (grind arith)

split_byte : (v s : ℕ) → v * 2 ^ s ≡ v % 256 * 2 ^ s + v / 256 * 2 ^ (s + 8)
split_byte v s = omega (
  arith,
  ap (λ (t : ℕ). t * 2 ^ s) (div-add-mod v 256),
  ap (λ (t : ℕ). v / 256 * t) (shift_eight s),
)

join-little_endian :
    (k v value shift : ℕ)
    → value < 2 ^ shift
    → v < 256 ^ k
    → join_bytes value shift (little_endian k v) ≡ value + v * 2 ^ shift
unfolding join_bytes little_endian
join-little_endian zero v value shift h hv = omega (arith, ap (λ (t : ℕ). t * 2 ^ shift) none_left)
  where
    none_left : v ≡ 0
    none_left = omega arith
join-little_endian (suc k) v value shift h hv =
    ap (λ (t : ℕ). join_bytes t (shift + 8) (little_endian k (v / 256)))
      (or_shifted shift value (v % 256) h)
    ∙ join-little_endian k (v / 256) (value + v % 256 * 2 ^ shift) (shift + 8)
        (byte_below (v % 256) shift value h (omega arith)) (omega arith)
    ∙ omega (arith, split_byte v shift)

read_joined :
    (k v : ℕ)
    → v < 256 ^ k
    → Accepts (pb_read k >>= (λ bytes. return (join_bytes 0 0 bytes))) (little_endian k v) v
read_joined k v h =
    subst
      (λ (n : ℕ).
        Accepts (pb_read n >>= (λ bytes. return (join_bytes 0 0 bytes))) (little_endian k v) v)
      (length-little_endian k v)
      (subst
        (λ (x : ℕ).
          Accepts
            (pb_read (length (little_endian k v)) >>= (λ bytes. return (join_bytes 0 0 bytes)))
            (little_endian k v) x)
        whole (Accepts-map (join_bytes 0 0) (pb_read-Accepts (little_endian k v))))
  where
    whole : join_bytes 0 0 (little_endian k v) ≡ v
    whole = join-little_endian k v 0 0 (omega arith) h ∙ omega arith

pub pb_decode_fixed32-Accepts : (v : ℕ) → IsU32 v → Accepts pb_decode_fixed32 (little_endian 4 v) v
unfolding pb_decode_fixed32
pb_decode_fixed32-Accepts v h = read_joined 4 v (omega arith)

pub pb_decode_fixed64-Accepts : (v : ℕ) → IsU64 v → Accepts pb_decode_fixed64 (little_endian 8 v) v
unfolding pb_decode_fixed64
pb_decode_fixed64-Accepts v h = read_joined 8 v (omega arith)

-- The field number and the wire type of every key are read back, with no end of file.
pub pb_decode_tag-reads :
    (number wire_type : ℕ) (rest : List ℕ) (left : ℕ) (err : Option Errmsg)
    → wire_type < 8
    → number < 2 ^ 29
    → 0 < number
    → pb_decode_tag
        (on_memory (key number wire_type ++ rest) (length (key number wire_type) + left) err)
      ≡ (false, (some (number, wire_type), on_memory rest left err))
unfolding pb_decode_tag
pb_decode_tag-reads number wire_type rest left err hw hn pos =
    rw (pb_decode_varint32_eof-reads (number * 8 + wire_type) rest left err (omega arith))
      (ground (arith, and_ones 3 (number * 8 + wire_type)))

-- In front of a string of fewer than 2 ^ 32 bytes, a substream opens over exactly these bytes, and the
-- parent counts them as read.
pub pb_make_string_substream-reads :
    (bs rest : List ℕ) (left : ℕ) (err : Option Errmsg)
    → IsU32 (length bs)
    → pb_make_string_substream
        (on_memory (length_delimited bs ++ rest) (length (length_delimited bs) + left) err)
      ≡ (some (on_memory (bs ++ rest) (length bs) err), on_memory (bs ++ rest) left err)
unfolding pb_make_string_substream
pb_make_string_substream-reads bs rest left err h =
    rw
      (
        append_assoc,
        length-append,
        add_assoc,
        (pb_decode_varint32-Accepts (length bs) h).reads (bs ++ rest) (length bs + left) err,
      )
      (ground arith)

-- Closing a substream skips the bytes that are left in it, and hands its place and its error to the
-- parent.
pub pb_close_string_substream-reads :
    (cs rest stale : List ℕ) (left : ℕ) (err old : Option Errmsg)
    → pb_close_string_substream (on_memory (cs ++ rest) (length cs) err) (on_memory stale left old)
      ≡ (some tt, on_memory rest left err)
unfolding pb_close_string_substream
pb_close_string_substream-reads [] rest stale left err old = refl
pb_close_string_substream-reads (c ∷ cs) rest stale left err old = ground (arith, skipped)
  where
    skipped :
        pb_read_null (suc (length cs)) (on_memory (c ∷ (cs ++ rest)) (suc (length cs)) err)
        ≡ (some tt, on_memory rest 0 err)
    skipped =
        ap (λ (n : ℕ). pb_read_null (suc (length cs)) (on_memory (c ∷ (cs ++ rest)) n err))
          {y = suc (length cs) + 0} (omega arith)
        ∙ (pb_read_null-Accepts (c ∷ cs)).reads rest 0 err
