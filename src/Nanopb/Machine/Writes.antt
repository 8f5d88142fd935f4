-- ===== src/Nanopb/Machine/Writes.antt =====
-- Where an action writes: it leaves every byte as it was outside of the `n` bytes from `lo` on.
use teta.Prelude.{
  ℕ, ◌+◌, ◌≤◌, ◌<◌, ◌≡◌, ◌^◌, refl, ◌∙◌, arith, Bool, true, false, Option, none, some, List, length,
  inl, inr, if◌then◌else◌,
}
use teta.Nanopb.Action.{Errmsg, Action, ◌>>=◌, return, then_on}
use teta.Nanopb.Istream.{Istream, pb_read}
use teta.Nanopb.Istream.Length.{Has, pb_read-Has}
use teta.Nanopb.Memory.{Memory}
use teta.Nanopb.Memory.Stores.{IsOutside, write_bytes-outside}
use teta.Nanopb.Machine.{
  Machine, Mark, lost, fail, on_stream, with_stream, store, stored_at, read_into,
}

pub record Writes {A : Type 0} (lo n : ℕ) (m : Action Machine A) : Type 0 where
  pub spares : (w : Machine) (q : ℕ) → IsOutside lo n q → (m w).1.mem q ≡ w.mem q

-- What lies outside of a range lies outside of its parts.
pub IsOutside-part : (lo n p m q : ℕ) → lo ≤ p → p + m ≤ lo + n → IsOutside lo n q → IsOutside p m q
IsOutside-part lo n p m q low high (inl below) = inl (omega arith)
IsOutside-part lo n p m q low high (inr above) = inr (omega arith)

module _ {A : Type 0} (lo n : ℕ) where
  pub Writes-return : (a : A) → Writes lo n (return a)
  Writes-return a = record { spares = λ w q out. refl }

  pub Writes-fail : (msg : Errmsg) → Writes lo n (fail {A = A} msg)
  Writes-fail msg = record { spares = λ w q out. refl }

  pub Writes-lost : (mark : Mark) → Writes lo n (lost {A = A} mark)
  Writes-lost mark = record { spares = λ w q out. refl }

  pub Writes-stream : (m : Action Istream A) → Writes lo n (on_stream m)
  Writes-stream m = record { spares = λ w q out. refl }

  pub Writes-if :
      (b : Bool) {m k : Action Machine A}
      → (b ≡ true → Writes lo n m)
      → (b ≡ false → Writes lo n k)
      → Writes lo n (if b then m else k)
  Writes-if true hm hk = hm refl
  Writes-if false hm hk = hk refl

  pub Writes-seq :
      {B : Type 0} {m : Action Machine B} (f : B → Action Machine A)
      → Writes lo n m
      → ((b : B) → Writes lo n (f b))
      → Writes lo n (m >>= f)
  Writes-seq {B} {m} f first later = record {
    spares = λ w q out. go w q out (m w) (first.spares w q out);
  }
    where
      go :
          (w : Machine) (q : ℕ)
          → IsOutside lo n q
          → (r : Option B × Machine) → r.1.mem q ≡ w.mem q
          → (then_on r f).1.mem q ≡ w.mem q
      go w q out (none, v) e = e
      go w q out (some b, v) e = (later b).spares v q out ∙ e

pub Writes-store :
    (lo n : ℕ) (f : Memory → Memory)
    → ((mem : Memory) (q : ℕ) → IsOutside lo n q → f mem q ≡ mem q)
    → Writes lo n (store f)
Writes-store lo n f h = record { spares = λ w q out. h w.mem q out }

pub read_into-Writes :
    (lo n p count : ℕ)
    → lo ≤ p
    → p + count ≤ lo + n
    → lo + n < 2 ^ 64
    → Writes lo n (read_into p count)
unfolding read_into
read_into-Writes lo n p count low high fits = record {
  spares = λ w q out. go w q out (pb_read count w.stream) (pb_read-Has count w.stream);
}
  where
    go :
        (w : Machine) (q : ℕ)
        → IsOutside lo n q
        → (r : Option (List ℕ) × Istream) → Has count r
        → (stored_at p (with_stream w r)).1.mem q ≡ w.mem q
    go w q out (none, s) h = refl
    go w q out (some bs, s) h =
        write_bytes-outside w.mem bs p q (omega (arith, h))
          (IsOutside-part lo n p (length bs) q low (omega (arith, h)) out)
