-- ===== src/Nanopb/Istream/Safety.antt =====
-- Memory safety of reading: no call leaves the block that a memory stream points into, and none
-- makes the stream longer, on every branch, errors included.
use teta.Prelude.{
  ℕ, zero, suc, ◌+◌, ◌-◌, ◌≤◌, ◌≡◌, arith, Option, some, none, List, true, false, inl, inr,
}
use teta.Prelude.{length, drop, length-drop, ltb, Bool-cases, if◌then◌else◌, Bool, ◌==◌}
use teta.Nanopb.Action.{Errmsg, Action, ◌>>=◌, return, then_on}
use teta.Nanopb.Istream.{
  Source, memory, user, overread, Istream, fail, pb_read, skip_pieces, pb_read_null, pb_readbyte,
  callback, buf_read, user_reply, after_callback, after_byte, is_buf_read,
}

-- The source has `left` bytes in its block. A user's callback has its own rules.
abbrev pub Holds : Source → ℕ → Type 0
Holds (memory bs) left = left ≤ length bs
Holds (user f state) left = Unit
Holds overread left = ⊥

-- The bytes left are in the block, with `k` bytes behind them that belong to the streams that this
-- one is a substream of.
abbrev pub IsWithin : ℕ → Istream → Type 0
IsWithin k s = Holds s.source (s.bytes_left + k)

abbrev pub Keeps : ℕ → Istream → Istream → Type 0
Keeps k s t = IsWithin k t × (t.bytes_left ≤ s.bytes_left)

-- The memory stream's pointer stands just `left` bytes before the end of its block.
abbrev pub Ends : Source → ℕ → Type 0
Ends (memory bs) left = left ≡ length bs
Ends (user f state) left = ⊥
Ends overread left = ⊥

-- A memory stream with `k` bytes of its block behind the bytes left. Where this is kept, the pointer
-- moves by just as many bytes as `bytes_left` falls.
abbrev pub IsInStep : ℕ → Istream → Type 0
IsInStep k s = Ends s.source (s.bytes_left + k)

pub record Safe {A : Type 0} (m : Action Istream A) : Type 0 where
  pub keeps : (k : ℕ) (s : Istream) → IsWithin k s → Keeps k s (m s).1
  pub in_step : (k : ℕ) (s : Istream) → IsInStep k s → IsInStep k (m s).1

pub Holds-less : (source : Source) (n m : ℕ) → m ≤ n → Holds source n → Holds source m
Holds-less (memory bs) n m le h = omega arith
Holds-less (user f state) n m le h = tt
Holds-less overread n m le h = absurd h

pub Safe-return : {A : Type 0} (a : A) → Safe (return a)
Safe-return a = record { keeps = λ k s h. (h, omega arith); in_step = λ k s h. h }

pub Safe-fail : {A : Type 0} (msg : Errmsg) → Safe (fail {A = A} msg)
Safe-fail msg = record { keeps = λ k s h. (h, omega arith); in_step = λ k s h. h }

pub Safe-none : {A : Type 0} → Safe {A = A} (λ s. (none, s))
Safe-none = record { keeps = λ k s h. (h, omega arith); in_step = λ k s h. h }

pub Keeps-trans : (k : ℕ) (r s t : Istream) → Keeps k r s → Keeps k s t → Keeps k r t
Keeps-trans k r s t (h, le) (h', le') = (h', omega arith)

pub Safe-seq :
    {A B : Type 0} {m : Action Istream A} (f : A → Action Istream B)
    → Safe m
    → ((a : A) → Safe (f a))
    → Safe (m >>= f)
Safe-seq {A} {B} {m = m} f first later = record {
  keeps = λ k s h. go k s (m s) (first.keeps k s h);
  in_step = λ k s h. on k (m s) (first.in_step k s h);
}
  where
    go : (k : ℕ) (s : Istream) (r : Option A × Istream) → Keeps k s r.1 → Keeps k s (then_on r f).1
    go k s (none, t) j = j
    go k s (some a, t) j = Keeps-trans k s t (f a t).1 j ((later a).keeps k t j.0)

    on : (k : ℕ) (r : Option A × Istream) → IsInStep k r.1 → IsInStep k (then_on r f).1
    on k (none, t) j = j
    on k (some a, t) j = (later a).in_step k t j

pub Safe-if :
    {A : Type 0} (b : Bool) {m k : Action Istream A} → Safe m → Safe k → Safe (if b then m else k)
Safe-if true hm hk = hm
Safe-if false hm hk = hk

-- An action by a value that it reads in the stream.
pub Safe-with :
    {A B : Type 0} (h : Istream → B) (f : B → Action Istream A)
    → ((b : B) → Safe (f b))
    → Safe (λ s. f (h s) s)
Safe-with h f hf = record {
  keeps = λ k s. (hf (h s)).keeps k s;
  in_step = λ k s. (hf (h s)).in_step k s;
}

pub Safe-choose :
    {A : Type 0} (b : Istream → Bool) {m n : Action Istream A}
    → Safe m
    → Safe n
    → Safe (λ s. if b s then m s else n s)
Safe-choose b {m} {n} hm hn = record {
  keeps = λ k s h. elim (Bool-cases (b s)) [
    | inl holds ↦ rw holds (hm.keeps k s h)
    | inr fails ↦ rw fails (hn.keeps k s h)
  ];
  in_step = λ k s h. elim (Bool-cases (b s)) [
    | inl holds ↦ rw holds (hm.in_step k s h)
    | inr fails ↦ rw fails (hn.in_step k s h)
  ];
}

abbrev from_user : (List ℕ → ℕ → Option (List ℕ) × List ℕ) → List ℕ → ℕ → Option Errmsg → Istream
from_user f state left err = record { source = user f state; bytes_left = left; errmsg = err }

-- What a user's callback answers does not matter.
user-Keeps :
    (k count : ℕ) (s : Istream) (f : List ℕ → ℕ → Option (List ℕ) × List ℕ)
    (r : Option (List ℕ) × List ℕ)
    → Keeps k s (after_callback count s (user_reply count f r)).1
user-Keeps k count s f (none, state) = (tt, omega arith)
user-Keeps k count s f (some bs, state) = (tt, omega arith)

read-Keeps :
    (k count : ℕ) (source : Source) (left : ℕ) (err : Option Errmsg)
    → Holds source (left + k)
    → Keeps k
        (record { source = source; bytes_left = left; errmsg = err })
        (pb_read count (record { source = source; bytes_left = left; errmsg = err })).1
unfolding pb_read callback buf_read
read-Keeps k count (memory bs) left err h = ground (arith, length-drop count bs)
read-Keeps k count (user f state) left err h = elim (Bool-cases (ltb left count)) [
  | inl short ↦ rw short (tt, omega arith)
  | inr enough ↦ rw enough (user-Keeps k count (from_user f state left err) f (f state count))
]
read-Keeps k count overread left err h = absurd h

read-InStep :
    (k count : ℕ) (source : Source) (left : ℕ) (err : Option Errmsg)
    → Ends source (left + k)
    → IsInStep k (pb_read count (record { source = source; bytes_left = left; errmsg = err })).1
unfolding pb_read callback buf_read
read-InStep k count (memory bs) left err h = ground (arith, length-drop count bs)
read-InStep k count (user f state) left err h = absurd h
read-InStep k count overread left err h = absurd h

pub pb_read-Safe : (count : ℕ) → Safe (pb_read count)
pb_read-Safe count = record {
  keeps = λ k s. read-Keeps k count s.source s.bytes_left s.errmsg;
  in_step = λ k s. read-InStep k count s.source s.bytes_left s.errmsg;
}

user_byte-Keeps :
    (k : ℕ) (s : Istream) (f : List ℕ → ℕ → Option (List ℕ) × List ℕ) (r : Option (List ℕ) × List ℕ)
    → Keeps k s (after_byte s (user_reply 1 f r)).1
user_byte-Keeps k s f (none, state) = (tt, omega arith)
user_byte-Keeps k s f (some bs, state) = (tt, omega arith)

readbyte-Keeps :
    (k : ℕ) (source : Source) (left : ℕ) (err : Option Errmsg)
    → Holds source (left + k)
    → Keeps k
        (record { source = source; bytes_left = left; errmsg = err })
        (pb_readbyte (record { source = source; bytes_left = left; errmsg = err })).1
unfolding pb_readbyte callback buf_read
readbyte-Keeps k (memory bs) left err h = ground (arith, length-drop 1 bs)
readbyte-Keeps k (user f state) left err h = elim (Bool-cases (left == 0)) [
  | inl short ↦ rw short (tt, omega arith)
  | inr enough ↦ rw enough (user_byte-Keeps k (from_user f state left err) f (f state 1))
]
readbyte-Keeps k overread left err h = absurd h

readbyte-InStep :
    (k : ℕ) (source : Source) (left : ℕ) (err : Option Errmsg)
    → Ends source (left + k)
    → IsInStep k (pb_readbyte (record { source = source; bytes_left = left; errmsg = err })).1
unfolding pb_readbyte callback buf_read
readbyte-InStep k (memory bs) left err h = ground (arith, length-drop 1 bs)
readbyte-InStep k (user f state) left err h = absurd h
readbyte-InStep k overread left err h = absurd h

pub pb_readbyte-Safe : Safe pb_readbyte
pb_readbyte-Safe = record {
  keeps = λ k s. readbyte-Keeps k s.source s.bytes_left s.errmsg;
  in_step = λ k s. readbyte-InStep k s.source s.bytes_left s.errmsg;
}

skip_pieces-Safe : (fuel count : ℕ) → Safe (skip_pieces fuel count)
unfolding skip_pieces
skip_pieces-Safe zero count = pb_read-Safe count
skip_pieces-Safe (suc fuel) count =
    Safe-if (ltb 16 count)
      (Safe-seq (λ tmp. skip_pieces fuel (count - 16)) (pb_read-Safe 16)
        (λ tmp. skip_pieces-Safe fuel (count - 16)))
      (pb_read-Safe count)

pub pb_read_null-Safe : (count : ℕ) → Safe (pb_read_null count)
unfolding pb_read_null
pb_read_null-Safe count =
    Safe-with (λ s. is_buf_read s.source)
      (λ b. (if b then pb_read count else skip_pieces count count) >>= (λ bs. return tt))
      (λ b.
        Safe-seq (λ bs. return tt) (Safe-if b (pb_read-Safe count) (skip_pieces-Safe count count))
          (λ bs. Safe-return tt))

-- Skipping all that a memory stream in step has left.
pub pb_read_null-all :
    (k left : ℕ) (bs : List ℕ) (err : Option Errmsg)
    → left + k ≡ length bs
    → pb_read_null left (record { source = memory bs; bytes_left = left; errmsg = err })
      ≡ (some tt, record { source = memory (drop left bs); bytes_left = 0; errmsg = err })
unfolding pb_read_null pb_read callback buf_read
pb_read_null-all k left bs err h = ground arith
