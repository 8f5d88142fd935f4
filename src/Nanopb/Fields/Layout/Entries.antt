-- ===== src/Nanopb/Fields/Layout/Entries.antt =====
-- The entries of a structure's descriptor, by their index.
use teta.Prelude.{ℕ, zero, suc, ◌≤◌, ◌<◌, ◌≡◌, refl, arith, true, ◌==◌, List, [], ◌∷◌, length}
use teta.Nanopb.Fields.{field_at}
use teta.Nanopb.Fields.Layout.{Member, described, pb_dataoffset, described_behind, descriptor}
use teta.Nanopb.Fields.Layout.{IsMember, IsBehind, IsLaidOut, member_at}

module _ (m0 : Member) (ms : List Member) where
  -- The data_offset of the entry at an index.
  abbrev pub offset_at : ℕ → ℕ
  offset_at zero = m0.place
  offset_at (suc i) = pb_dataoffset (member_at m0 ms i) (member_at m0 ms (suc i))

behind_at :
    (prev : Member) (ms : List Member) (i : ℕ)
    → i < length ms
    → field_at (described_behind prev ms) i
      ≡ described
          (pb_dataoffset (member_at prev ms i) (member_at prev ms (suc i)))
          (member_at prev ms (suc i))
unfolding described_behind
behind_at prev [] i h = absurd (omega arith)
behind_at prev (m ∷ ms) zero h = refl
behind_at prev (m ∷ ms) (suc i) h = behind_at m ms i (omega arith)

behind_end :
    (prev : Member) (ms : List Member)
    → ((field_at (described_behind prev ms) (length ms)).tag == 0) ≡ true
unfolding described_behind
behind_end prev [] = refl
behind_end prev (m ∷ ms) = behind_end m ms

pub entry_at :
    (m : Member) (ms : List Member) (i : ℕ)
    → i ≤ length ms
    → field_at (descriptor m ms) i ≡ described (offset_at m ms i) (member_at m ms i)
unfolding descriptor
entry_at m ms zero h = refl
entry_at m ms (suc i) h = behind_at m ms i (omega arith)

pub entry_end :
    (m : Member) (ms : List Member)
    → ((field_at (descriptor m ms) (suc (length ms))).tag == 0) ≡ true
unfolding descriptor
entry_end m ms = behind_end m ms

pub IsMember-at :
    (m : Member) (ms : List Member) (i : ℕ)
    → IsLaidOut m ms
    → i ≤ length ms
    → IsMember (member_at m ms i)
IsMember-at m [] zero l h = l
IsMember-at m [] (suc i) l h = absurd (omega arith)
IsMember-at m (n ∷ ms) zero l h = l.0
IsMember-at m (n ∷ ms) (suc i) l h = IsMember-at n ms i l.2 (omega arith)

pub IsBehind-at :
    (m : Member) (ms : List Member) (i : ℕ)
    → IsLaidOut m ms
    → i < length ms
    → IsBehind (member_at m ms i) (member_at m ms (suc i))
IsBehind-at m [] i l h = absurd (omega arith)
IsBehind-at m (n ∷ ms) zero l h = l.1
IsBehind-at m (n ∷ ms) (suc i) l h = IsBehind-at n ms i l.2 (omega arith)
