-- ===== src/Nanopb/Istream/Length.antt =====
-- A call of `pb_read` that succeeds gives as many bytes as were asked for.
use teta.Prelude.{
  ℕ, zero, suc, ◌≡◌, refl, ap, Option, none, some, List, [], ◌∷◌, length, inl, inr, Bool-cases, ltb,
}
use teta.Nanopb.Istream.{
  Istream, Source, memory, user, overread, pb_read, callback, after_callback, user_reply, filled,
}

abbrev pub Has : {S : Type 0} → ℕ → Option (List ℕ) × S → Type 0
Has n (none, s) = Unit
Has n (some bs, s) = length bs ≡ n

length-filled : (n : ℕ) (bs : List ℕ) → length (filled n bs) ≡ n
length-filled zero bs = refl
length-filled (suc n) [] = ap suc (length-filled n [])
length-filled (suc n) (b ∷ bs) = ap suc (length-filled n bs)

user-Has :
    (count : ℕ) (f : List ℕ → ℕ → Option (List ℕ) × List ℕ) (r : Option (List ℕ) × List ℕ)
    → Has count (user_reply count f r)
user-Has count f (none, state) = tt
user-Has count f (some bs, state) = length-filled count bs

callback-Has : (count : ℕ) (source : Source) → Has count (callback count source)
unfolding callback
callback-Has count (memory bs) = length-filled count bs
callback-Has count (user f state) = user-Has count f (f state count)
callback-Has count overread = length-filled count []

after-Has :
    (count : ℕ) (s : Istream) (r : Option (List ℕ) × Source)
    → Has count r
    → Has count (after_callback count s r)
after-Has count s (none, source) h = tt
after-Has count s (some bs, source) h = h

pub pb_read-Has : (count : ℕ) (s : Istream) → Has count (pb_read count s)
unfolding pb_read
pb_read-Has count s = elim (Bool-cases (ltb s.bytes_left count)) [
  | inl short ↦ rw short tt
  | inr enough ↦ rw enough (after-Has count s _ (callback-Has count s.source))
]
