-- ===== src/Nanopb/Istream/Shortens.antt =====
-- A byte that `pb_readbyte` gives has left the stream.
use teta.Prelude.{ℕ, ◌<◌, ◌≡◌, arith, false, Option, none, some, List, inl, inr, Bool-cases, ◌==◌}
use teta.Nanopb.Istream.{Istream, Source, pb_readbyte, callback, after_byte}

-- Where a value was read, the stream is shorter.
abbrev pub Shortens : {A : Type 0} → Istream → Option A × Istream → Type 0
Shortens s (none, t) = Unit
Shortens s (some a, t) = t.bytes_left < s.bytes_left

after_byte-Shortens :
    (s : Istream) (r : Option (List ℕ) × Source)
    → s.bytes_left == 0 ≡ false
    → Shortens s (after_byte s r)
after_byte-Shortens s (none, source) h = tt
after_byte-Shortens s (some bs, source) h = ground arith

pub pb_readbyte-Shortens : (s : Istream) → Shortens s (pb_readbyte s)
unfolding pb_readbyte
pb_readbyte-Shortens s = elim (Bool-cases (s.bytes_left == 0)) [
  | inl empty ↦ rw empty tt
  | inr left ↦ rw left (after_byte-Shortens s (callback 1 s.source) left)
]
