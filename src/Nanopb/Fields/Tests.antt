-- ===== src/Nanopb/Fields/Tests.antt =====
-- The iterator over a descriptor of three fields.
use teta.Prelude.{ℕ, ◌≡◌, arith, true, false, List, [], ◌∷◌, if◌then◌else◌}
use teta.Prelude.{Bool, refl, ltb, length}
use teta.Nanopb.Fields.Layout.{
  Declared, required_static, repeated_static, repeated_pointer, oneof_static, oneof_pointer, Member,
  pb_membersize, rule, descriptor, after, beside, IsLaidOut, member_at,
}
use teta.Nanopb.Fields.Layout.Steps.{Points}
use teta.Nanopb.Fields.Placed.{reached, pb_field_iter_next-members}
use teta.Nanopb.Fields.{current, Field, pb_field_iter_next, is_wanted, pb_field_iter_find}
use teta.Nanopb.Fields.Walk.{walk, count_fields}
use teta.Nanopb.Fields.Search.{IsFound, pb_field_iter_find-IsFound}

abbrev tagged : ℕ → Field
tagged tag = record {
  tag = tag;
  type = 1;
  data_offset = 0;
  size_offset = 0;
  data_size = 4;
  array_size = 0;
  ptr = 0;
}

abbrev three : List Field
three = tagged 1 ∷ tagged 2 ∷ tagged 5 ∷ []

pb_field_iter_find-IsFound_example :
    IsFound three 1000 (is_wanted 2) 1 (pb_field_iter_find (walk three 1000 1) 2)
unfolding count_fields
pb_field_iter_find-IsFound_example = pb_field_iter_find-IsFound three 1000 2 1 (omega arith)

abbrev member : Declared → ℕ → ℕ → ℕ → ℕ → ℕ → Bool → Member
member declared tag ltype size place counter in_union = record {
  declared = declared;
  tag = tag;
  ltype = ltype;
  size = size;
  place = place;
  counter = counter;
  in_union = in_union;
  ptr = 0;
}

-- A number, an array of four numbers behind its count, a pointer to an array, and a union of a number
-- and a pointer.
abbrev first_member : Member
first_member = member required_static 1 1 4 0 0 false

abbrev other_members : List Member
other_members =
    member (repeated_static 4) 2 1 4 8 4 false
    ∷ member repeated_pointer 3 6 8 32 24 false
    ∷ member oneof_static 4 1 8 48 40 false
    ∷ member oneof_pointer 5 6 1 48 40 true
    ∷ []

members-IsLaidOut : IsLaidOut first_member other_members
unfolding pb_membersize rule
members-IsLaidOut = (
  (omega arith, omega arith, omega arith, ground arith),
  after refl (omega arith),
  (
    (omega arith, omega arith, omega arith, ground arith),
    after refl (omega arith),
    (
      (omega arith, omega arith, omega arith, ground arith),
      after refl (omega arith),
      (
        (omega arith, omega arith, omega arith, ground arith),
        beside refl refl refl refl refl,
        (omega arith, omega arith, omega arith, ground arith),
      ),
    ),
  ),
)

pb_field_iter_next-members_example :
    Points 1000
      (member_at first_member other_members 2)
      (reached (descriptor first_member other_members) 1000 2)
    × ((current (reached (descriptor first_member other_members) 1000 2)).tag ≡ 3)
    × (pb_field_iter_next (reached (descriptor first_member other_members) 1000 2) ≡ (
      reached
          (descriptor first_member other_members)
          1000
          (if ltb 2 (length other_members) then 3 else 0),
      ltb 2 (length other_members),
    ))
pb_field_iter_next-members_example =
    pb_field_iter_next-members first_member other_members 1000 2 members-IsLaidOut (omega arith)
