-- ===== src/Nanopb/Fields/Layout/Steps.antt =====
-- A step of the iterator from a member to the next.
use teta.Prelude.{
  ℕ, suc, ◌+◌, ◌-◌, ◌^◌, ◌≤◌, ◌<◌, ◌≡◌, refl, sym, ap, ◌∙◌, arith, true, false, ◌&&◌, ◌==◌, List,
  u64,
}
use teta.Nanopb.Memory.{offset, signed_offset, sign_extend}
use teta.Nanopb.Fields.{
  Field, field_at, Iter, current, prev_size, advanced, htype, htype_oneof, pb_size_max,
}
use teta.Nanopb.Fields.Layout.{Member, pb_membersize, pb_delta, described, pb_dataoffset}
use teta.Nanopb.Fields.Layout.{IsMember, IsBehind, beside, after}
use teta.Nanopb.Fields.Layout.Kinds.{htype-described, atype-described, prev_size-sizeof}

pub counter_place :
    (dest : ℕ) (m : Member) (p : ℕ)
    → IsMember m
    → p ≡ u64 (dest + m.place)
    → signed_offset p (pb_delta m) ≡ u64 (dest + m.counter)
unfolding signed_offset sign_extend
counter_place dest m p (place, counter, l, t) e = ground arith

-- The iterator at a member.
abbrev pub Points : ℕ → Member → Iter → Type 0
Points dest m iter = (iter.p_data ≡ u64 (dest + m.place)) × (iter.p_size ≡ u64 (dest + m.counter))

pub advanced-shape :
    {start : List Field} {dest : ℕ} (i : ℕ) (iter : Iter)
    → (iter.start ≡ start) × (iter.pos ≡ i) × (iter.dest_struct ≡ dest)
    → ((advanced iter).start ≡ start)
      × ((advanced iter).pos ≡ suc i)
      × ((advanced iter).dest_struct ≡ dest)
unfolding advanced
advanced-shape i iter (start, pos, dest) = ground arith

module _ (dest : ℕ) (fd : ℕ) (prev m : Member) (iter : Iter) (member : IsMember prev)
    (member' : IsMember m) (here : current iter ≡ described fd prev)
    (points : Points dest prev iter)
    (there : field_at iter.start (iter.pos + 1) ≡ described (pb_dataoffset prev m) m) where
  no_union :
      pb_dataoffset prev m < 2 ^ 31
      → (htype (current iter) == htype_oneof
          && htype (field_at iter.start (iter.pos + 1)) == htype_oneof
          && (field_at iter.start (iter.pos + 1)).data_offset == pb_size_max)
        ≡ false
  no_union low = let value = ap (λ (f : Field). f.data_offset) there in ground arith

  -- Behind the end of the member before.
  data_place :
      m.in_union ≡ false
      → prev.place + pb_membersize prev.declared prev.size ≤ m.place
      → (pb_dataoffset prev m < 2 ^ 31)
        × (offset
              (offset iter.p_data (prev_size (current iter)))
              (field_at iter.start (iter.pos + 1)).data_offset
            ≡ u64 (dest + m.place))
  unfolding pb_dataoffset
  data_place u room =
      let size : prev_size (current iter) ≡ pb_membersize prev.declared prev.size =
        ap prev_size here
        ∙ prev_size-sizeof prev.declared (described fd prev) prev.size
            (htype-described fd prev member.2) (atype-described fd prev member.2) refl refl
            (omega (arith, room, member'.0)) in
      let value : pb_dataoffset prev m
          ≡ m.place - prev.place - pb_membersize prev.declared prev.size =
        rw u (omega (arith, room, member'.0)) in
      (
        omega (arith, value, member'.0),
        ap (λ (f : Field). offset (offset iter.p_data (prev_size (current iter))) f.data_offset)
              there
            ∙ placed iter.p_data (prev_size (current iter)) (pb_dataoffset prev m)
                (pb_membersize prev.declared prev.size) points.0 size value room,
      )
    where
      placed :
          (p n d size : ℕ)
          → p ≡ u64 (dest + prev.place)
          → n ≡ size
          → d ≡ m.place - prev.place - size
          → prev.place + size ≤ m.place
          → offset (offset p n) d ≡ u64 (dest + m.place)
      placed p n d size e e' e'' le = omega arith

  -- The next member's own place.
  pub advanced-Points : IsBehind prev m → Points dest m (advanced iter)
  unfolding advanced pb_dataoffset
  advanced-Points (beside u o o' same same') =
      rw
        (
          ap htype here ∙ htype-described fd prev member.2 ∙ o,
          ap htype there ∙ htype-described (pb_dataoffset prev m) m member'.2 ∙ o',
          ap (λ (f : Field). f.data_offset) there ∙ in_union u,
        )
        (
          points.0 ∙ ap (λ (n : ℕ). u64 (dest + n)) (sym same),
          points.1 ∙ ap (λ (n : ℕ). u64 (dest + n)) (sym same'),
        )
    where
      in_union : m.in_union ≡ true → pb_dataoffset prev m ≡ pb_size_max
      in_union e = rw e refl
  advanced-Points (after u room) =
      let (low, placed) = data_place u room in
      rw (no_union low) (
        placed,
        ap
              (λ (f : Field).
                signed_offset
                  (offset (offset iter.p_data (prev_size (current iter)))
                    (field_at iter.start (iter.pos + 1)).data_offset)
                  f.size_offset)
              there
            ∙ counter_place dest m _ member' placed,
      )
