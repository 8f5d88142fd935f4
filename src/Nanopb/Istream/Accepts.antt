-- ===== src/Nanopb/Istream/Accepts.antt =====
-- What it means that a decoder reads given bytes: the contract of the functions of pb_decode.c
-- against a memory stream, and how it composes.
use teta.Prelude.{ℕ, ◌+◌, ◌-◌, ◌≤◌, ◌≡◌, refl, ap, ◌∙◌, arith}
use teta.Prelude.{Option, some, List, [], ◌∷◌, ◌++◌, append_assoc}
use teta.Prelude.{length, length-append, drop-append}
use teta.Nanopb.Action.{Errmsg, Action, ◌>>=◌, return}
use teta.Nanopb.Istream.{
  Istream, memory, filled, pb_read, pb_read_null, pb_readbyte, callback, buf_read,
}
use native.Mathlib.Nat.{add_assoc, zero-add}

abbrev pub on_memory : List ℕ → ℕ → Option Errmsg → Istream
on_memory bs left err = record { source = memory bs; bytes_left = left; errmsg = err }

-- From a stream that holds `bs` in front, `m` takes exactly `bs` and gives `a`.
pub record Accepts {A : Type 0} (m : Action Istream A) (bs : List ℕ) (a : A) : Type 0 where
  pub reads :
      (rest : List ℕ) (left : ℕ) (err : Option Errmsg)
      → m (on_memory (bs ++ rest) (length bs + left) err) ≡ (some a, on_memory rest left err)

-- The same where the bytes left are given as one number.
pub Accepts-left :
    {A : Type 0} {m : Action Istream A} {bs : List ℕ} {a : A}
    → Accepts m bs a
    → (rest : List ℕ) (left : ℕ) (err : Option Errmsg) → length bs ≤ left
    → m (on_memory (bs ++ rest) left err) ≡ (some a, on_memory rest (left - length bs) err)
Accepts-left {m = m} {bs = bs} acc rest left err h =
    ap (λ (n : ℕ). m (on_memory (bs ++ rest) n err)) split ∙ acc.reads rest (left - length bs) err
  where
    split : left ≡ length bs + (left - length bs)
    split = omega arith

pub Accepts-return : {A : Type 0} (a : A) → Accepts (return a) [] a
Accepts-return a = record { reads = λ rest left err. rw zero-add }

pub Accepts-seq :
    {A B : Type 0} {m : Action Istream A} (f : A → Action Istream B) {bs cs : List ℕ} {a : A}
    {b : B}
    → Accepts m bs a
    → Accepts (f a) cs b
    → Accepts (m >>= f) (bs ++ cs) b
Accepts-seq f {bs = bs} {cs = cs} first last = record {
  reads = λ rest left err.
      rw (append_assoc, length-append, add_assoc, first.reads (cs ++ rest) (length cs + left) err)
        (last.reads rest left err);
}

filled-append : (bs rest : List ℕ) → filled (length bs) (bs ++ rest) ≡ bs
filled-append [] rest = refl
filled-append (b ∷ bs) rest = ap (◌∷◌ b) (filled-append bs rest)

pub pb_read-Accepts : (bs : List ℕ) → Accepts (pb_read (length bs)) bs bs
unfolding pb_read callback buf_read
pb_read-Accepts bs = record {
  reads = λ rest left err.
      ground
        (arith, filled-append bs rest, length-append bs rest, drop-append (length bs) bs rest refl);
}

pub pb_read_null-Accepts : (bs : List ℕ) → Accepts (pb_read_null (length bs)) bs tt
unfolding pb_read_null
pb_read_null-Accepts bs = record {
  reads = λ rest left err. rw ((pb_read-Accepts bs).reads rest left err);
}

pub pb_readbyte-Accepts : (b : ℕ) → Accepts pb_readbyte (b ∷ []) b
unfolding pb_readbyte callback buf_read
pb_readbyte-Accepts b = record { reads = λ rest left err. ground arith }
