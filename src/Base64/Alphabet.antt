-- ===== src/Base64/Alphabet.antt =====
-- The table of fbase64.c is the alphabet of RFC 1521, and `strchr` finds each digit in it.
use teta.Prelude.{
  ℕ, zero, suc, ◌<◌, ◌≡◌, refl, ap, arith, Bool, true, false, not, ◌&&◌, Option, none, some, ◌==◌,
  inl, inr, Bool-cases,
}
use mathlib.Core.Path.{subst⁻¹}
use teta.Base64.{base64_chars, base64_char, strchr, isspace, pad64}
use teta.Base64.Rfc.{symbol}

-- A test that holds for every number below `n`.
all_below : ℕ → (ℕ → Bool) → Bool
all_below zero test = true
all_below (suc n) test = test n && all_below n test

eq_of_test : (a b : ℕ) → (a == b) ≡ true → a ≡ b
eq_of_test a b h = ground arith

both : (a b : Bool) → (a && b) ≡ true → (a ≡ true) × (b ≡ true)
both a b h = ground arith

below : (n : ℕ) (test : ℕ → Bool) → all_below n test ≡ true → (d : ℕ) → d < n → test d ≡ true
unfolding all_below
below zero test h d lt = absurd (omega arith)
below (suc n) test h d lt = elim (Bool-cases (d == n)) [
  | inl e ↦ subst⁻¹ (λ (k : ℕ). test k ≡ true) (eq_of_test d n e) (both (test n) _ h).0
  | inr e ↦ below n test (both (test n) _ h).1 d (ground arith)
]

is_some : Option ℕ → ℕ → Bool
is_some none d = false
is_some (some i) d = i == d

some_of_test : (o : Option ℕ) (d : ℕ) → is_some o d ≡ true → o ≡ some d
unfolding is_some
some_of_test none d h = absurd (ground arith)
some_of_test (some i) d h = ap (λ (k : ℕ). some k) (eq_of_test i d h)

good_digit : ℕ → Bool
good_digit d =
    (base64_char d == symbol d)
    && (is_some (strchr base64_chars (base64_char d)) d
        && (not (base64_char d == 0)
            && (not (isspace (base64_char d)) && not (base64_char d == pad64))))

good_digits : all_below 64 good_digit ≡ true
unfolding all_below good_digit is_some base64_char isspace symbol
good_digits = refl

test_fails : (b : Bool) → not b ≡ true → b ≡ false
test_fails b h = ground arith

-- What the table says of a digit.
pub record IsDigit (d : ℕ) : Type 0 where
  pub symbolic : base64_char d ≡ symbol d
  pub found : strchr base64_chars (base64_char d) ≡ some d
  pub no_end : (base64_char d == 0) ≡ false
  pub no_space : isspace (base64_char d) ≡ false
  pub no_pad : (base64_char d == pad64) ≡ false

pub below_64-IsDigit : (d : ℕ) → d < 64 → IsDigit d
unfolding good_digit
below_64-IsDigit d h =
    let (symbolic, rest) = both _ _ (below 64 good_digit good_digits d h) in
    let (found, chars) = both _ _ rest in
    let (no_end, more) = both _ _ chars in
    let (no_space, no_pad) = both _ _ more in
    record {
      symbolic = eq_of_test _ _ symbolic;
      found = some_of_test _ d found;
      no_end = test_fails _ no_end;
      no_space = test_fails _ no_space;
      no_pad = test_fails _ no_pad;
    }
