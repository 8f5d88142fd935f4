-- ===== src/Nanopb/Fields/Placed.antt =====
-- The iterator of pb_common.c over the descriptor of a structure points to the structure's members.
use teta.Prelude.{
  ℕ, zero, suc, ◌+◌, ◌≤◌, ◌<◌, ◌≡◌, refl, sym, ap, ◌∙◌, arith, Bool, true, false, ◌==◌, List,
  length, if◌then◌else◌, inl, inr, ltb, ltb→lt, ltb→ge, Bool-cases,
}
use mathlib.Core.Path.{ap₂, subst⁻¹}
use teta.Nanopb.Fields.{
  Field, field_at, Iter, current, iter_at_begin, pb_field_iter_begin, advanced, pb_field_iter_next,
}
use teta.Nanopb.Fields.Layout.{Member, described, descriptor}
use teta.Nanopb.Fields.Layout.{IsLaidOut, member_at}
use teta.Nanopb.Fields.Layout.Entries.{offset_at, entry_at, entry_end, IsMember-at, IsBehind-at}
use teta.Nanopb.Fields.Layout.Steps.{counter_place, Points, advanced-shape, advanced-Points}

-- The iterator after `i` calls of `pb_field_iter_next`.
unfoldable pub reached : List Field → ℕ → ℕ → Iter
reached fields dest zero = (pb_field_iter_begin fields dest).0
reached fields dest (suc i) = (pb_field_iter_next (reached fields dest i)).0

module _ (m0 : Member) (ms : List Member) (dest : ℕ) (laid_out : IsLaidOut m0 ms) where
  abbrev fields : List Field
  fields = descriptor m0 ms

  abbrev at : ℕ → Iter
  at = reached fields dest

  -- The iterator is at the member with the index `i`.
  abbrev Stands : ℕ → Iter → Type 0
  Stands i iter =
      (iter.start ≡ fields)
      × (iter.pos ≡ i)
      × (iter.dest_struct ≡ dest)
      × Points dest (member_at m0 ms i) iter

  begin-Stands : Stands 0 (iter_at_begin fields dest)
  unfolding iter_at_begin descriptor
  begin-Stands = (
    refl,
    refl,
    refl,
    (refl, counter_place dest m0 _ (IsMember-at m0 ms 0 laid_out (omega arith)) refl),
  )

  here_at :
      (i : ℕ) (iter : Iter)
      → i ≤ length ms
      → Stands i iter
      → current iter ≡ described (offset_at m0 ms i) (member_at m0 ms i)
  here_at i iter h stands = ap₂ field_at stands.0 stands.1 ∙ entry_at m0 ms i h

  more_left :
      (i : ℕ) (iter : Iter) → i ≤ length ms → Stands i iter → ((current iter).tag == 0) ≡ false
  more_left i iter h stands =
      let tag = (IsMember-at m0 ms i laid_out h).3 in
      let same = ap (λ (f : Field). f.tag) (here_at i iter h stands) in ground arith

  behind :
      (i : ℕ) (iter : Iter)
      → Stands i iter
      → field_at iter.start (iter.pos + 1) ≡ field_at fields (suc i)
  behind i iter stands = ap₂ field_at stands.0 (omega (arith, stands.1))

  next_inside :
      (i : ℕ) (iter : Iter)
      → i < length ms
      → Stands i iter
      → (pb_field_iter_next iter ≡ (advanced iter, true)) × Stands (suc i) (advanced iter)
  unfolding pb_field_iter_next
  next_inside i iter h stands = (
    rw (more_left i iter (omega arith) stands, next_tag) refl,
    (
      shape.0,
      shape.1,
      shape.2,
      advanced-Points dest (offset_at m0 ms i) (member_at m0 ms i) (member_at m0 ms (suc i)) iter
          (IsMember-at m0 ms i laid_out (omega arith))
          (IsMember-at m0 ms (suc i) laid_out (omega arith)) (here_at i iter (omega arith) stands)
          stands.3 there (IsBehind-at m0 ms i laid_out h),
    ),
  )
    where
      there :
          field_at iter.start (iter.pos + 1)
          ≡ described (offset_at m0 ms (suc i)) (member_at m0 ms (suc i))
      there = behind i iter stands ∙ entry_at m0 ms (suc i) (omega arith)

      next_tag : ((field_at iter.start (iter.pos + 1)).tag == 0) ≡ false
      next_tag =
          let tag = (IsMember-at m0 ms (suc i) laid_out (omega arith)).3 in
          let same = ap (λ (f : Field). f.tag) there in ground arith

      shape :
          ((advanced iter).start ≡ fields)
          × ((advanced iter).pos ≡ suc i)
          × ((advanced iter).dest_struct ≡ dest)
      shape = advanced-shape i iter (stands.0, stands.1, stands.2)

  next_last :
      (i : ℕ) (iter : Iter)
      → i ≡ length ms
      → Stands i iter
      → pb_field_iter_next iter ≡ (iter_at_begin fields dest, false)
  unfolding pb_field_iter_next
  next_last i iter h stands =
      rw (more_left i iter (omega arith) stands, end_tag)
        (ap₂ (λ (fs : List Field) (n : ℕ). (iter_at_begin fs n, false)) stands.0 stands.2)
    where
      end_tag : ((field_at iter.start (iter.pos + 1)).tag == 0) ≡ true
      end_tag =
          ap (λ (f : Field). f.tag == 0)
            (behind i iter stands ∙ ap (λ (n : ℕ). field_at fields (suc n)) h)
          ∙ entry_end m0 ms

  at-Stands : (i : ℕ) → i ≤ length ms → Stands i (at i)
  unfolding reached pb_field_iter_begin
  at-Stands zero h = begin-Stands
  at-Stands (suc i) h =
      let (e, stands) = next_inside i (at i) (omega arith) (at-Stands i (omega arith)) in
      subst⁻¹ (λ (r : Iter × Bool). Stands (suc i) r.0) e stands

-- For a structure of fewer than 2 ^ 31 bytes and the descriptor that the macros of pb.h make of it:
-- from `pb_field_iter_begin` on, the calls of `pb_field_iter_next` reach the members in order, at each
-- of which pData is the member's address and pSize that of its counter; the answer is false just
-- at the last member, and the iterator is then at the first again.
pub pb_field_iter_next-members :
    (m : Member) (ms : List Member) (dest i : ℕ)
    → IsLaidOut m ms
    → i ≤ length ms
    → Points dest (member_at m ms i) (reached (descriptor m ms) dest i)
      × ((current (reached (descriptor m ms) dest i)).tag ≡ (member_at m ms i).tag)
      × (pb_field_iter_next (reached (descriptor m ms) dest i) ≡ (
        reached (descriptor m ms) dest (if ltb i (length ms) then suc i else 0),
        ltb i (length ms),
      ))
unfolding reached pb_field_iter_begin
pb_field_iter_next-members m ms dest i laid_out h = (
  stands.3,
  ap (λ (f : Field). f.tag) (here_at m ms dest laid_out i (at m ms dest laid_out i) h stands),
  elim (Bool-cases (ltb i (length ms))) [
    | inl more ↦
        let e = (next_inside m ms dest laid_out i _ (ltb→lt _ _ more) stands).0 in
        rw more (e ∙ ap (λ (r : Iter × Bool). (r.0, true)) (sym e))
    | inr last ↦ rw last (next_last m ms dest laid_out i _ (omega (arith, ltb→ge _ _ last)) stands)
  ],
)
  where
    stands : Stands m ms dest laid_out i (at m ms dest laid_out i)
    stands = at-Stands m ms dest laid_out i h
