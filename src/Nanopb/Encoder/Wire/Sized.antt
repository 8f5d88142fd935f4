-- ===== src/Nanopb/Encoder/Wire/Sized.antt =====
-- What is written behind its length: submessages, and arrays of numbers.
use teta.Prelude.{ℕ, ◌^◌, ◌<◌, ◌≡◌, refl, arith, Option, some, List, [], length}
use teta.Prelude.{append-nil, length-append}
use native.Mathlib.Nat.{add-zero}
use teta.Nanopb.Action.{Action}
use teta.Nanopb.Ostream.{Ostream, pb_write}
use teta.Nanopb.Ostream.Emits.{Emits, Emits-seq}
use teta.Nanopb.Ostream.Gives.{ostream_sizing-Emits, Emits-same, Emits-bounded}
use teta.Nanopb.Ostream.Emits.{return-Emits}
use teta.Nanopb.Ostream.Gives.{Gives-some, Writes, Writes-seq}
use teta.Nanopb.Memory.{offset}
use teta.Nanopb.Fields.{Field}
use teta.Nanopb.Encoder.Wire.{in_a_row}
use teta.Prelude.{zero, suc}
use teta.Nanopb.Wire.{varint, length_delimited}
use teta.Nanopb.Encode.Varint.{pb_encode_varint-Emits}
use teta.Nanopb.Encoder.Submessage.{close_substream, write_sized, after_sizing, encode_submessage}
use teta.Nanopb.Encoder.Arrays.{packed_data, for_entries}

pub length-payload : (bs : List ℕ) → length (length_delimited bs) < 2 ^ 64 → length bs < 2 ^ 64
length-payload bs h = omega (arith, length-append (varint (length bs)) bs)

module _ {encode : Action Ostream (Unit {0})} {bs : List ℕ} (emits : Emits encode bs) where
  pub write_sized-Emits : Emits (write_sized encode (length bs)) bs
  unfolding write_sized close_substream pb_write
  write_sized-Emits = record {
    sizes = λ max n h. ground arith;
    fits = λ behind ahead max n h hm hl.
        rw (emits.fits behind ahead (length bs) 0 (omega arith) (omega arith) hl) (ground arith);
    fills = λ behind ahead max n h hm hl hr.
        ([], bs, refl, omega arith, rw (append-nil, add-zero) (ground arith));
  }

  -- The size that the first pass counts is the length of what the second pass writes.
  pub encode_submessage-Emits : Emits (encode_submessage encode) (length_delimited bs)
  unfolding encode_submessage after_sizing
  encode_submessage-Emits = Emits-bounded (λ h.
      Emits-same
        (Emits-seq (pb_encode_varint-Emits (length bs) (length-payload bs h)) write_sized-Emits)
        (λ s. rw (ostream_sizing-Emits emits (length-payload bs h)) refl))

module _ {entry : ℕ → Action Ostream (Unit {0})} {bytes : ℕ → Option (List ℕ)}
    (writes : (p : ℕ) → Writes (entry p) (bytes p)) where
  pub for_entries-Writes :
      (step count p : ℕ) → Writes (for_entries step count entry p) (in_a_row step count bytes p)
  unfolding for_entries in_a_row
  for_entries-Writes step zero p = Gives-some return-Emits
  for_entries-Writes step (suc count) p =
      Writes-seq _ _ (writes p) (for_entries-Writes step count (offset p step))

  pub packed_data-Emits :
      (field : Field) (count p : ℕ) (bs : List ℕ)
      → in_a_row field.data_size count bytes p ≡ some bs
      → Emits (packed_data field entry p count (length bs)) bs
  unfolding packed_data pb_write
  packed_data-Emits field count p bs h = record {
    sizes = λ max n h. ground arith;
    fits = all.fits;
    fills = all.fills;
  }
    where
      all : Emits (for_entries field.data_size count entry p) bs
      all = (for_entries-Writes field.data_size count p).emits bs h
