-- ===== src/Nanopb/Encoder/Wire/Message.antt =====
-- `pb_encode` writes the message that stands in the memory, and what is built on it.
use teta.Prelude.{
  ℕ, zero, suc, ◌+◌, ◌≤◌, ◌≡◌, refl, ◌∙◌, arith, true, false, Bool, Option, List, length, IsByte,
  ◌==◌, if◌then◌else◌, inl, inr, Bool-cases,
}
use mathlib.Core.Path.{subst⁻¹}
use teta.Nanopb.Action.{Action, ◌>>◌, return}
use teta.Nanopb.Ostream.{Ostream}
use teta.Nanopb.Ostream.Emits.{return-Emits}
use teta.Nanopb.Ostream.Gives.{Writes, Gives-none, Gives-some, Writes-seq}
use teta.Nanopb.Memory.{Memory, read_pointer}
use teta.Nanopb.Fields.{Field, field_at, Iter, current, pb_field_iter_next, ltype, ltype_extension}
use teta.Nanopb.Fields.Walk.{
  walk, count_fields, current-walk, pb_field_iter_next-walk, count-le-length,
  pb_field_iter_begin-walk,
}
use teta.Nanopb.Encoder.Program.{Program}
use teta.Nanopb.Encoder.Fields.{encode_extension_field}
use teta.Nanopb.Encoder.Message.{encode_loop, encode_one, pb_encode}
use teta.Nanopb.Encoder.Wire.{one_field_at, fields_from, message_bytes}
use teta.Nanopb.Encoder.Wire.Values.{IsTyped}
use teta.Nanopb.Encoder.Wire.Fields.{Keeps, encode_field-Writes, extension_loop-Writes}

eq_of_test : (a b : ℕ) → (a == b) ≡ true → a ≡ b
eq_of_test a b h = ground arith

module _ (mem : Memory) (cells : (a : ℕ) → IsByte (mem a)) (program : Program)
    (callbacks : ℕ → Field → ℕ → List ℕ) (extensions : ℕ → ℕ → List ℕ)
    (keeps : Keeps program callbacks extensions) where
  module _ (depth : ℕ)
      (inner_writes : (p src : ℕ)
        → Writes
            (pb_encode mem program depth (program.descriptor p) src)
            (message_bytes mem program callbacks extensions depth (program.descriptor p) src))
      (fields : List Field) (typed : (i : ℕ) → IsTyped (field_at fields i)) (src : ℕ) where
    abbrev step : Field → ℕ → Action Ostream (Unit {0})
    step = encode_one mem program depth (pb_encode mem program depth)

    abbrev one : Field → ℕ → Option (List ℕ)
    one =
        one_field_at mem program callbacks extensions (suc depth)
          (message_bytes mem program callbacks extensions depth) (suc depth)

    abbrev bytes_from : ℕ → ℕ → Option (List ℕ)
    bytes_from =
        fields_from mem program callbacks extensions (suc depth)
          (message_bytes mem program callbacks extensions depth) (suc depth) fields src

    encode_one-Writes :
        (field : Field) → IsTyped field → (p : ℕ) → Writes (step field p) (one field p)
    unfolding encode_one one_field_at encode_extension_field
    encode_one-Writes field t p = elim (Bool-cases (ltype field == ltype_extension)) [
      | inl e ↦ rw e (
          extension_loop-Writes mem cells program callbacks extensions keeps (suc depth)
            (pb_encode mem program depth) (message_bytes mem program callbacks extensions depth)
            inner_writes (suc depth) (read_pointer mem p))
      | inr e ↦ rw e (
          encode_field-Writes mem cells program callbacks extensions keeps (suc depth)
            (pb_encode mem program depth) (message_bytes mem program callbacks extensions depth)
            inner_writes field t p)
    ]

    here-Writes :
        (i : ℕ)
        → Writes
            (step (current (walk fields src i)) (walk fields src i).p_data)
            (one (field_at fields i) (walk fields src i).p_data)
    here-Writes i =
        subst⁻¹
          (λ f.
            Writes (step f (walk fields src i).p_data)
              (one (field_at fields i) (walk fields src i).p_data))
          (current-walk fields src i)
          (encode_one-Writes (field_at fields i) (typed i) (walk fields src i).p_data)

    loop_round :
        (rounds i : ℕ) (next : Iter) (more : Bool)
        → pb_field_iter_next (walk fields src i) ≡ (next, more)
        → encode_loop (suc rounds) step (walk fields src i) ≡ (
            step (current (walk fields src i)) (walk fields src i).p_data
            >> (if more then encode_loop rounds step next else return tt))
    unfolding encode_loop
    loop_round rounds i next more e = rw e refl

    encode_loop-Writes :
        (k rounds i : ℕ)
        → suc k + i ≡ count_fields fields
        → suc k ≤ rounds
        → Writes (encode_loop rounds step (walk fields src i)) (bytes_from (suc k) i)
    unfolding fields_from
    encode_loop-Writes k zero i at enough = absurd (omega arith)
    encode_loop-Writes zero (suc rounds) i at enough =
        rw
          (loop_round rounds i (walk fields src 0) false
            (pb_field_iter_next-walk fields src i (omega arith) ∙ rw (last_here) refl))
          (Writes-seq _ _ (here-Writes i) (Gives-some return-Emits))
      where
        last_here : (suc i == count_fields fields) ≡ true
        last_here = ground arith
    encode_loop-Writes (suc k) (suc rounds) i at enough =
        rw
          (loop_round rounds i (walk fields src (suc i)) true
            (pb_field_iter_next-walk fields src i (omega arith) ∙ rw (more_here) refl))
          (Writes-seq _ _ (here-Writes i)
            (encode_loop-Writes k rounds (suc i) (omega arith) (omega arith)))
      where
        more_here : (suc i == count_fields fields) ≡ false
        more_here = ground arith

    level-Writes :
        Writes
          (pb_encode mem program (suc depth) fields src)
          (message_bytes mem program callbacks extensions (suc depth) fields src)
    unfolding pb_encode message_bytes
    level-Writes = elim (Bool-cases (count_fields fields == 0)) [
      | inl e ↦
          rw (pb_field_iter_begin-walk fields src, e)
            (subst⁻¹ (λ n. Writes (return tt) (bytes_from n 0))
              (eq_of_test (count_fields fields) 0 e) (nothing))
      | inr e ↦
          rw (pb_field_iter_begin-walk fields src, e) (fields_left (count_fields fields) refl e)
    ]
      where
        nothing : Writes (return tt) (bytes_from 0 0)
        nothing = unfold fields_from in Gives-some return-Emits

        fields_left :
            (n : ℕ)
            → n ≡ count_fields fields
            → (n == 0) ≡ false
            → Writes (encode_loop (length fields) step (walk fields src 0)) (bytes_from n 0)
        fields_left zero at e = absurd (ground arith)
        fields_left (suc k) at e =
            encode_loop-Writes k (length fields) 0 (omega arith)
              (omega (arith, count-le-length fields))

  pub pb_encode-Writes :
      (depth : ℕ) (fields : List Field)
      → ((i : ℕ) → IsTyped (field_at fields i))
      → (src : ℕ)
      → Writes
          (pb_encode mem program depth fields src)
          (message_bytes mem program callbacks extensions depth fields src)
  pb_encode-Writes zero fields typed src = unfold pb_encode message_bytes in Gives-none
  pb_encode-Writes (suc depth) fields typed src =
      level-Writes depth
        (λ p src. pb_encode-Writes depth (program.descriptor p) (keeps.typed p) src) fields typed
        src
