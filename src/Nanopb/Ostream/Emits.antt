-- ===== src/Nanopb/Ostream/Emits.antt =====
-- What it means that an encoder writes given bytes: the contract of the functions of pb_encode.c
-- against a stream that counts, a buffer with room, and a buffer that is too small.
use teta.Prelude.{ℕ, ◌+◌, ◌^◌, ◌≤◌, ◌<◌, ◌≡◌, refl, ap, ◌∙◌, arith, inl, inr}
use teta.Prelude.{Option, none, some, List, [], ◌++◌, append-nil, append_assoc}
use teta.Prelude.{length, drop, length-append, length-drop, drop-drop, take-all, ltb, Bool-cases}
use teta.Prelude.{ltb→lt, ltb→ge}
use native.Mathlib.Nat.{add-zero, add_assoc}
use teta.Nanopb.Action.{stream_full, Action, ◌>>◌, return}
use teta.Nanopb.Ostream.{sizing, buffer, Ostream, pb_write, callback, buf_write}

abbrev pub counting : ℕ → ℕ → Ostream
counting max n = record { sink = sizing; max_size = max; bytes_written = n; errmsg = none }

abbrev pub at_buffer : List ℕ → List ℕ → ℕ → ℕ → Ostream
at_buffer behind ahead max n = record {
  sink = buffer behind ahead;
  max_size = max;
  bytes_written = n;
  errmsg = none;
}

-- The stream after the bytes `bs`.
abbrev pub stored : List ℕ → List ℕ → List ℕ → ℕ → ℕ → Ostream
stored bs behind ahead max n = at_buffer (behind ++ bs) (drop (length bs) ahead) max (n + length bs)

abbrev pub IsFull : Option (Unit {0}) × Ostream → List ℕ → List ℕ → List ℕ → ℕ → ℕ → Type 0
IsFull r bs behind ahead max n =
    (p : List ℕ) × (q : List ℕ) × (bs ≡ p ++ q)
    × (n + length p ≤ max)
    × (r ≡ (none, record (stored p behind ahead max n) { errmsg = some stream_full }))

-- `m` writes `bs`: a counting stream counts them; a buffer with room holds them behind what it held
-- before; a buffer without room makes the call fail with a message, and holds a front part of them.
pub record Emits (m : Action Ostream (Unit {0})) (bs : List ℕ) : Type 0 where
  pub sizes :
      (max n : ℕ)
      → n + length bs < 2 ^ 64
      → m (counting max n) ≡ (some tt, counting max (n + length bs))
  pub fits :
      (behind ahead : List ℕ) (max n : ℕ)
      → n + length bs ≤ max
      → max < 2 ^ 64
      → length bs ≤ length ahead
      → m (at_buffer behind ahead max n) ≡ (some tt, stored bs behind ahead max n)
  pub fills :
      (behind ahead : List ℕ) (max n : ℕ)
      → n ≤ max
      → max < n + length bs
      → max + length bs < 2 ^ 64
      → max ≤ n + length ahead
      → IsFull (m (at_buffer behind ahead max n)) bs behind ahead max n

pub pb_write-Emits : (bs : List ℕ) → Emits (pb_write bs (length bs)) bs
unfolding pb_write callback buf_write
pb_write-Emits bs = record {
  sizes = λ max n h. ground arith;
  fits = λ behind ahead max n h hm hl. ground (arith, take-all (length bs) bs);
  fills = λ behind ahead max n h hm hl hr.
      ([], bs, refl, omega arith, rw (append-nil, add-zero) (ground arith));
}

pub return-Emits : Emits (return tt) []
return-Emits = record {
  sizes = λ max n h. rw add-zero;
  fits = λ behind ahead max n h hm hl. rw (append-nil, add-zero);
  fills = λ behind ahead max n h hm hl hr. absurd (omega arith);
}

module _ {m k : Action Ostream (Unit {0})} {cs bs : List ℕ} (first : Emits m cs)
    (last : Emits k bs) where
  stored_twice :
      (behind ahead : List ℕ) (max n : ℕ)
      → stored bs (behind ++ cs) (drop (length cs) ahead) max (n + length cs)
        ≡ stored (cs ++ bs) behind ahead max n
  stored_twice behind ahead max n = rw (drop-drop, append_assoc, length-append, add_assoc)

  seq_fits :
      (behind ahead : List ℕ) (max n : ℕ)
      → n + length (cs ++ bs) ≤ max
      → max < 2 ^ 64
      → length (cs ++ bs) ≤ length ahead
      → (m >> k) (at_buffer behind ahead max n) ≡ (some tt, stored (cs ++ bs) behind ahead max n)
  seq_fits behind ahead max n h hm hl =
      rw
        (first.fits behind ahead max n (omega (arith, length-append cs bs)) hm
          (omega (arith, length-append cs bs)))
        (last.fits (behind ++ cs) (drop (length cs) ahead) max (n + length cs)
            (omega (arith, length-append cs bs)) hm
            (omega (arith, length-append cs bs, length-drop (length cs) ahead))
          ∙ ap (λ (s : Ostream). (some tt, s)) (stored_twice behind ahead max n))

  seq_sizes :
      (max n : ℕ)
      → n + length (cs ++ bs) < 2 ^ 64
      → (m >> k) (counting max n) ≡ (some tt, counting max (n + length (cs ++ bs)))
  seq_sizes max n h = rw (first.sizes max n (omega (arith, length-append cs bs))) (
      last.sizes max (n + length cs) (omega (arith, length-append cs bs))
      ∙ rw (length-append, add_assoc))

  seq_fills :
      (behind ahead : List ℕ) (max n : ℕ)
      → n ≤ max
      → max < n + length (cs ++ bs)
      → max + length (cs ++ bs) < 2 ^ 64
      → max ≤ n + length ahead
      → IsFull ((m >> k) (at_buffer behind ahead max n)) (cs ++ bs) behind ahead max n
  seq_fills behind ahead max n h hm hl hr = elim (Bool-cases (ltb max (n + length cs))) [
    | inl over ↦
        early (
          first.fills behind ahead max n h (ltb→lt _ _ over) (omega (arith, length-append cs bs))
            hr)
    | inr room ↦
        rw
          (first.fits behind ahead max n (ltb→ge _ _ room) (omega arith)
            (omega (arith, ltb→ge _ _ room)))
          (late (
            last.fills (behind ++ cs) (drop (length cs) ahead) max (n + length cs) (ltb→ge _ _ room)
              (omega (arith, length-append cs bs)) (omega (arith, length-append cs bs))
              (omega (arith, length-drop (length cs) ahead))))
  ]
    where
      early :
          IsFull (m (at_buffer behind ahead max n)) cs behind ahead max n
          → IsFull ((m >> k) (at_buffer behind ahead max n)) (cs ++ bs) behind ahead max n
      early (p, q, cut, inside, e) = (p, q ++ bs, rw (cut, append_assoc), inside, rw e)

      late :
          {r : Option (Unit {0}) × Ostream}
          → IsFull r bs (behind ++ cs) (drop (length cs) ahead) max (n + length cs)
          → IsFull r (cs ++ bs) behind ahead max n
      late {r} (p, q, cut, inside, e) = (
        cs ++ p,
        q,
        rw (cut, append_assoc),
        omega (arith, length-append cs p),
        e ∙ rw (drop-drop, append_assoc, length-append, add_assoc),
      )

  pub Emits-seq : Emits (m >> k) (cs ++ bs)
  Emits-seq = record { sizes = seq_sizes; fits = seq_fits; fills = seq_fills }
