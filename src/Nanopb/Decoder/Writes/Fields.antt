-- ===== src/Nanopb/Decoder/Writes/Fields.antt =====
-- The decoder of a value that stands in the structure itself writes only into its member.
use teta.Prelude.{ℕ, ◌+◌, ◌≤◌, ◌<◌, ◌≡◌, ◌^◌, arith, Bool, true, false, List, ◌==◌}
use teta.Nanopb.Action.{Action}
use teta.Nanopb.Machine.{Machine, undefined}
use teta.Nanopb.Machine.Writes.{Writes, Writes-lost, Writes-if}
use teta.Nanopb.Fields.{
  Field, atype, ltype, ltype_varint, ltype_uvarint, ltype_svarint, ltype_fixed32, ltype_fixed64,
  ltype_bytes, ltype_string, ltype_submessage, ltype_fixed_length_bytes, atype_static,
}
use teta.Nanopb.Decoder.Program.{Program}
use teta.Nanopb.Decoder.Fields.{decoder}
use teta.Nanopb.Decoder.Writes.Numbers.{
  pb_dec_varint-Writes, pb_dec_uvarint-Writes, pb_dec_svarint-Writes, pb_dec_fixed32-Writes,
  pb_dec_fixed64-Writes, pb_dec_fixed_length_bytes-Writes,
}
use teta.Nanopb.Decoder.Writes.Bytes.{pb_dec_bytes-Writes, pb_dec_string-Writes}

-- The sizes that the descriptor gives to values of a fixed width.
pub record IsSized (field : Field) : Type 0 where
  pub fixed32 : ltype field == ltype_fixed32 ≡ true → 4 ≤ field.data_size
  pub fixed64 : ltype field == ltype_fixed64 ≡ true → 8 ≤ field.data_size

refuted : (b : Bool) → b ≡ true → b ≡ false → ⊥
refuted true e f = ground arith
refuted false e f = ground arith

module _ (program : Program) (depth : ℕ)
    (decode decode_noinit : List Field → ℕ → Action Machine (Unit {0})) where
  -- For a field in the structure itself that is no submessage: its decoder, whatever the stream holds
  -- and on every branch, changes no byte outside of the `data_size` bytes of the member at `dest`;
  -- where the structure ends below the last address and members of a fixed width have their size.
  pub decoder-Writes :
      (field : Field) (dest : ℕ)
      → atype field ≡ atype_static
      → IsSized field
      → ltype field == ltype_submessage ≡ false
      → dest + field.data_size < 2 ^ 64
      → Writes dest field.data_size (decoder program depth decode decode_noinit field dest)
  unfolding decoder
  decoder-Writes field dest static sized plain fits =
      let n = field.data_size in
      Writes-if dest n (ltype field == ltype_varint) (λ e. pb_dec_varint-Writes field dest fits)
        λ e.
          Writes-if dest n (ltype field == ltype_uvarint)
            (λ e. pb_dec_uvarint-Writes field dest fits)
            λ e.
              Writes-if dest n (ltype field == ltype_svarint)
                (λ e. pb_dec_svarint-Writes field dest fits)
                λ e.
                  Writes-if dest n (ltype field == ltype_fixed32)
                    (λ e. pb_dec_fixed32-Writes field dest fits (sized.fixed32 e))
                    λ e.
                      Writes-if dest n (ltype field == ltype_fixed64)
                        (λ e. pb_dec_fixed64-Writes field dest fits (sized.fixed64 e))
                        λ e.
                          Writes-if dest n (ltype field == ltype_bytes)
                            (λ e. pb_dec_bytes-Writes field dest fits program.place static)
                            λ e.
                              Writes-if dest n (ltype field == ltype_string)
                                (λ e. pb_dec_string-Writes field dest fits program.place static)
                                λ e.
                                  Writes-if dest n (ltype field == ltype_submessage)
                                    (λ e.
                                      absurd (refuted (ltype field == ltype_submessage) e plain))
                                    λ e.
                                      Writes-if dest n (ltype field == ltype_fixed_length_bytes)
                                        (λ e. pb_dec_fixed_length_bytes-Writes field dest fits)
                                        (λ e. Writes-lost dest n undefined)
