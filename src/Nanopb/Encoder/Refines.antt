-- ===== src/Nanopb/Encoder/Refines.antt =====
-- The functions of pb_encode.h for whole messages against the bytes of the message.
use teta.Prelude.{◌+◌, ℕ, ◌^◌, ◌<◌, ◌≡◌, refl, some, List, [], ◌∷◌, ◌++◌, length, IsByte}
use teta.Nanopb.Ostream.Emits.{Emits, Emits-seq, pb_write-Emits}
use teta.Nanopb.Ostream.Gives.{ostream_sizing-Emits}
use teta.Nanopb.Memory.{Memory}
use teta.Nanopb.Wire.{length_delimited}
use teta.Nanopb.Fields.{Field, field_at}
use teta.Nanopb.Encoder.Program.{Program}
use teta.Nanopb.Encoder.Message.{
  pb_encode, pb_encode_submessage, pb_encode_delimited, pb_encode_nullterminated,
  pb_get_encoded_size,
}
use teta.Nanopb.Encoder.Wire.{message_bytes}
use teta.Nanopb.Encoder.Wire.Values.{IsTyped}
use teta.Nanopb.Encoder.Wire.Sized.{encode_submessage-Emits}
use teta.Nanopb.Encoder.Wire.Fields.{Keeps}
use teta.Nanopb.Encoder.Wire.Depth.{message_bytes-enough}
use teta.Nanopb.Encoder.Wire.Message.{pb_encode-Writes}

module _ (mem : Memory) (cells : (a : ℕ) → IsByte (mem a)) (program : Program)
    (callbacks : ℕ → Field → ℕ → List ℕ) (extensions : ℕ → ℕ → List ℕ)
    (keeps : Keeps program callbacks extensions) (depth : ℕ) (fields : List Field)
    (typed : (i : ℕ) → IsTyped (field_at fields i)) (src : ℕ) (bs : List ℕ)
    (message : message_bytes mem program callbacks extensions depth fields src ≡ some bs) where
  -- Where the structure at `src` holds a message, and the program's own functions write what is
  -- given for them, `pb_encode` writes the bytes of the message: a stream that counts gets their
  -- number, a buffer with room gets them, and one without room makes it fail with "stream full".
  pub pb_encode-Emits : Emits (pb_encode mem program depth fields src) bs
  pb_encode-Emits =
      (pb_encode-Writes mem cells program callbacks extensions keeps depth fields typed src).emits
        bs message

  -- Under the same conditions `pb_get_encoded_size` gives the number of the bytes, if it is below 2 ^ 64.
  pub pb_get_encoded_size-length :
      length bs < 2 ^ 64 → pb_get_encoded_size mem program depth fields src ≡ some (length bs)
  unfolding pb_get_encoded_size
  pb_get_encoded_size-length few = rw (ostream_sizing-Emits pb_encode-Emits few) refl

  -- `pb_encode_submessage` and `pb_encode_delimited`, which encode twice, write the bytes behind their
  -- number.
  pub pb_encode_delimited-Emits :
      Emits (pb_encode_submessage mem program depth fields src) (length_delimited bs)
      × Emits (pb_encode_delimited mem program depth fields src) (length_delimited bs)
  unfolding pb_encode_submessage pb_encode_delimited
  pb_encode_delimited-Emits =
      (encode_submessage-Emits pb_encode-Emits, encode_submessage-Emits pb_encode-Emits)

  -- `pb_encode_nullterminated` writes the bytes, and a zero behind them.
  pub pb_encode_nullterminated-Emits :
      Emits (pb_encode_nullterminated mem program depth fields src) (bs ++ 0 ∷ [])
  unfolding pb_encode_nullterminated
  pb_encode_nullterminated-Emits = Emits-seq pb_encode-Emits (pb_write-Emits (0 ∷ []))

  -- Under the same conditions the fuel `depth` is enough: `pb_encode` with any more of it writes the
  -- same bytes.
  pub pb_encode-enough : (more : ℕ) → Emits (pb_encode mem program (more + depth) fields src) bs
  pb_encode-enough more =
      (pb_encode-Writes mem cells program callbacks extensions keeps (more + depth) fields typed
          src).emits
        bs (message_bytes-enough mem program callbacks extensions more depth fields src bs message)
