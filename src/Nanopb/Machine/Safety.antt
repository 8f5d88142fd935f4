-- ===== src/Nanopb/Machine/Safety.antt =====
-- What every function of the decoder keeps of the machine's stream: it lies inside its block, grows no
-- longer, and is in step with its pointer when the function returns true.
use teta.Prelude.{
  ℕ, ◌≡◌, arith, refl, ◌∙◌, Bool, true, false, Option, none, some, List, inl, inr, Bool-cases, ◌==◌,
  if◌then◌else◌,
}
use mathlib.Core.Path.{subst⁻¹}
use teta.Nanopb.Action.{Errmsg, Action, ◌>>=◌, ◌>>◌, return, then_on}
use teta.Nanopb.Istream.{Istream, pb_read}
use teta.Nanopb.Istream.Safety.{IsWithin, Keeps, Keeps-trans, IsInStep, Safe, pb_read-Safe}
use teta.Nanopb.Memory.{Memory}
use teta.Nanopb.Machine.{
  Machine, Mark, marked, lost, fail, on_stream, modify, store, gets, stored_at, read_into,
  block_size, Placement, moved, resized, pb_realloc, freed, pb_free,
}

abbrev pub IsSound : ℕ → Machine → Type 0
IsSound k w = IsWithin k w.stream

abbrev pub Stays : ℕ → Machine → Machine → Type 0
Stays k w v = Keeps k w.stream v.stream

-- An answer of true comes with a stream in step.
abbrev pub OnSuccess : {A : Type 0} → ℕ → Option A × Machine → Type 0
OnSuccess k (none, v) = Unit {0}
OnSuccess k (some a, v) = IsInStep k v.stream

-- For a function that may fail: it leaves the stream inside its block, and no longer than it was; and
-- when it returns true, a memory stream's pointer has moved by as many bytes as `bytes_left` fell.
pub record Sound {A : Type 0} (m : Action Machine A) : Type 0 where
  pub keeps : (k : ℕ) (w : Machine) → IsSound k w → Stays k w (m w).1
  pub in_step : (k : ℕ) (w : Machine) → IsInStep k w.stream → OnSuccess k (m w)

-- For a function that cannot, and does not touch the stream.
pub record Steady (f : Machine → Machine) : Type 0 where
  pub same_stream : (w : Machine) → (f w).stream ≡ w.stream

pub Stays-trans : (k : ℕ) (u v w : Machine) → Stays k u v → Stays k v w → Stays k u w
Stays-trans k u v w = Keeps-trans k u.stream v.stream w.stream

pub on_success :
    {A : Type 0} (k : ℕ) (r : Option A × Machine) → IsInStep k r.1.stream → OnSuccess k r
on_success k (none, v) j = tt
on_success k (some a, v) j = j

module _ {A : Type 0} where
  -- An action that does not touch the stream.
  pub Sound-still : {m : Action Machine A} → ((w : Machine) → (m w).1.stream ≡ w.stream) → Sound m
  Sound-still {m} same = record {
    keeps = λ k w h. subst⁻¹ (Keeps k w.stream) (same w) (h, omega arith);
    in_step = λ k w h. on_success k (m w) (subst⁻¹ (IsInStep k) (same w) h);
  }

  pub Sound-return : (a : A) → Sound (return a)
  Sound-return a = Sound-still (λ w. refl)

  pub Sound-gets : (f : Machine → A) → Sound (gets f)
  Sound-gets f = Sound-still (λ w. refl)

  pub Sound-fail : (msg : Errmsg) → Sound (fail {A = A} msg)
  Sound-fail msg = record { keeps = λ k w h. (h, omega arith); in_step = λ k w h. tt }

  pub Sound-lost : (mark : Mark) → Sound (lost {A = A} mark)
  Sound-lost mark = Sound-still (λ w. refl)

  pub Sound-if :
      (b : Bool) {m n : Action Machine A} → Sound m → Sound n → Sound (if b then m else n)
  Sound-if true hm hn = hm
  Sound-if false hm hn = hn

  pub Sound-choose :
      (b : Machine → Bool) {m n : Action Machine A}
      → Sound m
      → Sound n
      → Sound (λ w. if b w then m w else n w)
  Sound-choose b {m} {n} hm hn = record {
    keeps = λ k w h. elim (Bool-cases (b w)) [
      | inl holds ↦ rw holds (hm.keeps k w h)
      | inr fails ↦ rw fails (hn.keeps k w h)
    ];
    in_step = λ k w h. elim (Bool-cases (b w)) [
      | inl holds ↦ rw holds (hm.in_step k w h)
      | inr fails ↦ rw fails (hn.in_step k w h)
    ];
  }

  -- An action by a value that it reads in the machine.
  pub Sound-with :
      {B : Type 0} (h : Machine → B) (f : B → Action Machine A)
      → ((b : B) → Sound (f b))
      → Sound (λ w. f (h w) w)
  Sound-with h f hf = record {
    keeps = λ k w. (hf (h w)).keeps k w;
    in_step = λ k w. (hf (h w)).in_step k w;
  }

  pub Sound-stream : {m : Action Istream A} → Safe m → Sound (on_stream m)
  Sound-stream {m} hm = record {
    keeps = λ k w. hm.keeps k w.stream;
    in_step = λ k w h. on_success k (on_stream m w) (hm.in_step k w.stream h);
  }

  pub Sound-seq :
      {B : Type 0} {m : Action Machine B} (f : B → Action Machine A)
      → Sound m
      → ((b : B) → Sound (f b))
      → Sound (m >>= f)
  Sound-seq {B} {m} f first later = record {
    keeps = λ k w h. go k w (m w) (first.keeps k w h);
    in_step = λ k w h. on k (m w) (first.in_step k w h);
  }
    where
      go :
          (k : ℕ) (w : Machine) (r : Option B × Machine) → Stays k w r.1 → Stays k w (then_on r f).1
      go k w (none, v) j = j
      go k w (some b, v) j = Stays-trans k w v (f b v).1 j ((later b).keeps k v j.0)

      on : (k : ℕ) (r : Option B × Machine) → OnSuccess k r → OnSuccess k (then_on r f)
      on k (none, v) j = tt
      on k (some b, v) j = (later b).in_step k v j

  pub Sound-then :
      {m : Action Machine (Unit {0})} {n : Action Machine A} → Sound m → Sound n → Sound (m >> n)
  Sound-then {m} {n} hm hn = Sound-seq (λ u. n) hm (λ u. hn)

pub Sound-modify : {f : Machine → Machine} → Steady f → Sound (modify f)
Sound-modify {f} hf = Sound-still hf.same_stream

pub Steady-id : Steady (λ w. w)
Steady-id = record { same_stream = λ w. refl }

pub Steady-still : {f : Machine → Machine} → ((w : Machine) → (f w).stream ≡ w.stream) → Steady f
Steady-still same = record { same_stream = same }

pub Steady-marked : (mark : Mark) → Steady (marked mark)
Steady-marked mark = record { same_stream = λ w. refl }

pub Steady-then : {f g : Machine → Machine} → Steady f → Steady g → Steady (λ w. g (f w))
Steady-then {f} {g} hf hg = record { same_stream = λ w. hg.same_stream (f w) ∙ hf.same_stream w }

pub Steady-if :
    (b : Bool) {f g : Machine → Machine} → Steady f → Steady g → Steady (if b then f else g)
Steady-if true hf hg = hf
Steady-if false hf hg = hg

pub Steady-choose :
    (b : Machine → Bool) {f g : Machine → Machine}
    → Steady f
    → Steady g
    → Steady (λ w. if b w then f w else g w)
Steady-choose b {f} {g} hf hg = record {
  same_stream = λ w. elim (Bool-cases (b w)) [
    | inl holds ↦ rw holds (hf.same_stream w)
    | inr fails ↦ rw fails (hg.same_stream w)
  ];
}

pub Steady-with :
    {B : Type 0} (h : Machine → B) (f : B → Machine → Machine)
    → ((b : B) → Steady (f b))
    → Steady (λ w. f (h w) w)
Steady-with h f hf = record { same_stream = λ w. (hf (h w)).same_stream w }

pub Sound-store : (f : Memory → Memory) → Sound (store f)
Sound-store f = Sound-still (λ w. refl)

pub read_into-Sound : (p count : ℕ) → Sound (read_into p count)
unfolding read_into
read_into-Sound p count = record {
  keeps = λ k w h.
      subst⁻¹ (Keeps k w.stream) (same (on_stream (pb_read count) w))
        ((Sound-stream (pb_read-Safe count)).keeps k w h);
  in_step = λ k w h. on_success k (read_into p count w) (
      subst⁻¹ (IsInStep k) (same (on_stream (pb_read count) w))
        ((pb_read-Safe count).in_step k w.stream h));
}
  where
    same : (r : Option (List ℕ) × Machine) → (stored_at p r).1.stream ≡ r.1.stream
    same (none, v) = refl
    same (some bs, v) = refl

pub pb_free-Steady : (ptr : ℕ) → Steady (pb_free ptr)
unfolding pb_free
pb_free-Steady ptr =
    Steady-choose (λ w. ptr == 0) Steady-id
      (record { same_stream = λ w. by_block w (block_size w.blocks ptr) })
  where
    by_block : (w : Machine) (r : Option ℕ) → (freed ptr w r).stream ≡ w.stream
    by_block w none = refl
    by_block w (some size) = refl

module _ (place : Placement) where
  moved-stream :
      (ptr old size address : ℕ) (w : Machine) → (moved ptr old size address w).1.stream ≡ w.stream
  moved-stream ptr old size address w = elim (Bool-cases (address == 0)) [
    | inl null ↦ rw null refl
    | inr given ↦ rw given refl
  ]

  resized-stream :
      (ptr size : ℕ) (w : Machine) (r : Option ℕ) → (resized place ptr size w r).1.stream ≡ w.stream
  resized-stream ptr size w none = refl
  resized-stream ptr size w (some old) = moved-stream ptr old size (place w.blocks ptr size) w

  pub pb_realloc-stream :
      (ptr size : ℕ) (w : Machine) → (pb_realloc place ptr size w).1.stream ≡ w.stream
  unfolding pb_realloc
  pb_realloc-stream ptr size w = elim (Bool-cases (ptr == 0)) [
    | inl null ↦ rw null (resized-stream ptr size w (some 0))
    | inr given ↦ rw given (resized-stream ptr size w (block_size w.blocks ptr))
  ]
