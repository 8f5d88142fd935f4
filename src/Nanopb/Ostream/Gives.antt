-- ===== src/Nanopb/Ostream/Gives.antt =====
-- An encoder against a computed description of what it shall write: wherever the description has a
-- value, the encoder writes the bytes of the value.
use teta.Prelude.{ℕ, ◌^◌, ◌<◌, ◌≡◌, refl, ◌∙◌, arith, Bool, true, false, Option, none, some}
use teta.Prelude.{List, ◌++◌, length, if◌then◌else◌}
use mathlib.Core.Path.{subst, subst⁻¹, fun_ext, ap}
use mathlib.Core.Option
use mathlib.Core.Option.{some-injective, none-ne-some}
use teta.Nanopb.Action.{Action, ◌>>◌}
use teta.Nanopb.Ostream.{Ostream, ostream_sizing}
use teta.Nanopb.Ostream.Emits.{Emits, counting, Emits-seq}

pub record Gives {A : Type 0} (m : Action Ostream (Unit {0})) (r : Option A) (bytes : A → List ℕ)
    : Type 0 where
  pub emits : (a : A) → r ≡ some a → Emits m (bytes a)

-- Two optional strings of bytes, one behind the other.
infixl 6 ◌+++◌
abbrev pub ◌+++◌ : Option (List ℕ) → Option (List ℕ) → Option (List ℕ)
none +++ s = none
some bs +++ none = none
some bs +++ some cs = some (bs ++ cs)

abbrev pub Writes : Action Ostream (Unit {0}) → Option (List ℕ) → Type 0
Writes m r = Gives m r (λ bs. bs)

pub Gives-always :
    {A : Type 0} {m : Action Ostream (Unit {0})} {bs : List ℕ} {r : Option A}
    → Emits m bs
    → Gives m r (λ a. bs)
Gives-always e = record { emits = λ a h. e }

module _ {A : Type 0} {bytes : A → List ℕ} where
  pub Gives-none : {m : Action Ostream (Unit {0})} → Gives m none bytes
  Gives-none = record { emits = λ a h. absurd (none-ne-some _ h) }

  pub Gives-some :
      {m : Action Ostream (Unit {0})} {a : A} → Emits m (bytes a) → Gives m (some a) bytes
  Gives-some {m} {a} e = record {
    emits = λ b h. subst (λ c. Emits m (bytes c)) (some-injective _ _ h) e;
  }

  pub Gives-if :
      {m k : Action Ostream (Unit {0})} {r s : Option A} (t : Bool)
      → (t ≡ true → Gives m r bytes)
      → (t ≡ false → Gives k s bytes)
      → Gives (if t then m else k) (if t then r else s) bytes
  Gives-if true g h = g refl
  Gives-if false g h = h refl

  pub Gives-either :
      {m : Action Ostream (Unit {0})} {r s : Option A} (t : Bool)
      → (t ≡ true → Gives m r bytes)
      → (t ≡ false → Gives m s bytes)
      → Gives m (if t then r else s) bytes
  Gives-either true g h = g refl
  Gives-either false g h = h refl

  pub Gives-seq :
      {m k : Action Ostream (Unit {0})} {front : A → List ℕ} {r : Option A}
      → Gives m r front
      → Gives k r bytes
      → Gives (m >> k) r (λ a. front a ++ bytes a)
  Gives-seq g h = record { emits = λ a e. Emits-seq (g.emits a e) (h.emits a e) }

  pub Gives-map :
      {B : Type 0} {m : Action Ostream (Unit {0})} (c : B → A) (r : Option B)
      → Gives m r (λ b. bytes (c b))
      → Gives m (Option.map c r) bytes
  Gives-map c none g = Gives-none
  Gives-map c (some b) g = Gives-some (g.emits b refl)

  pub Gives→Writes :
      {m : Action Ostream (Unit {0})} (r : Option A)
      → Gives m r bytes
      → Writes m (Option.map bytes r)
  Gives→Writes none g = record { emits = λ a h. absurd (none-ne-some _ h) }
  Gives→Writes (some a) g = record {
    emits = λ bs h. subst (Emits _) (some-injective _ _ h) (g.emits a refl);
  }

pub Writes-seq :
    {m k : Action Ostream (Unit {0})} (r s : Option (List ℕ))
    → Writes m r
    → Writes k s
    → Writes (m >> k) (r +++ s)
Writes-seq none s g h = Gives-none
Writes-seq (some bs) none g h = Gives-none
Writes-seq (some bs) (some cs) g h = Gives-some (Emits-seq (g.emits bs refl) (h.emits cs refl))

-- The first pass, on a stream that counts.
pub ostream_sizing-Emits :
    {m : Action Ostream (Unit {0})} {bs : List ℕ}
    → Emits m bs
    → length bs < 2 ^ 64
    → m ostream_sizing ≡ (some tt, counting 0 (length bs))
ostream_sizing-Emits {m} {bs} e h =
    e.sizes 0 0 (omega arith)
    ∙ ap (λ (n : ℕ). (some tt, counting 0 n)) {y = length bs} (omega arith)

-- An encoder that does what `k` does.
pub Emits-same :
    {m k : Action Ostream (Unit {0})} {bs : List ℕ}
    → Emits k bs
    → ((s : Ostream) → m s ≡ k s)
    → Emits m bs
Emits-same {m} {k} {bs} e same = subst⁻¹ (λ x. Emits x bs) (fun_ext same) e

-- Bytes that are too many to be counted need no proof.
pub Emits-bounded :
    {m : Action Ostream (Unit {0})} {bs : List ℕ} → (length bs < 2 ^ 64 → Emits m bs) → Emits m bs
Emits-bounded {m} {bs} e = record {
  sizes = λ max n h. (e (omega arith)).sizes max n h;
  fits = λ behind ahead max n h hm hl. (e (omega arith)).fits behind ahead max n h hm hl;
  fills = λ behind ahead max n h hm hl hr. (e (omega arith)).fills behind ahead max n h hm hl hr;
}
