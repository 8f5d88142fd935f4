-- ===== src/Nanopb/Decoder/Safety/Substream.antt =====
-- What is read through a substream keeps the machine sound: the bytes of the streams around it stand
-- behind its own.
use teta.Prelude.{
  ℕ, zero, suc, ◌+◌, ◌≤◌, ◌≡◌, refl, ◌==◌, arith, Option, none, some, List, inl, inr, Bool-cases,
}
use mathlib.Core.Path.{subst⁻¹}
use teta.Nanopb.Action.{Action, Errmsg, callback_failed}
use teta.Nanopb.Istream.{Istream}
use teta.Nanopb.Istream.Safety.{IsWithin, Keeps, IsInStep}
use teta.Nanopb.Decode.{pb_make_string_substream, pb_close_string_substream, read_raw_value}
use teta.Nanopb.Decode.Safety.{
  SubInStep, Succeeds, pb_make_string_substream-InStep, pb_close_string_substream-InStep, SubKeeps,
  pb_make_string_substream-SubKeeps, pb_close_string_substream-Keeps, read_raw_value-Safe,
}
use teta.Nanopb.Machine.{Machine}
use teta.Nanopb.Machine.Safety.{IsSound, Stays, Sound, OnSuccess, on_success}
use teta.Nanopb.Decoder.Substream.{
  back_to, fail_on, opened, open_substream, closed, close_substream, in_substream, called,
  call_until_read, raw_called, call_on_raw_value,
}

-- The machine is back at the stream `s` that was kept.
abbrev pub Returns : ℕ → Istream → Machine → Type 0
Returns k s v = IsSound k v × (v.stream.bytes_left ≤ s.bytes_left)

-- A body of `open_substream`.
pub record SubSound (body : Istream → Action Machine (Unit {0})) : Type 0 where
  pub keeps :
      (k : ℕ) (s : Istream) (w : Machine)
      → IsWithin k s
      → IsSound (s.bytes_left + k) w
      → Returns k s (body s w).1
  pub in_step :
      (k : ℕ) (s : Istream) (w : Machine)
      → IsInStep (s.bytes_left + k) w.stream
      → OnSuccess k (body s w)

pub open_substream-Sound :
    (body : Istream → Action Machine (Unit {0})) → SubSound body → Sound (open_substream body)
unfolding open_substream
open_substream-Sound body h = record {
  keeps = λ k w within.
      go k w (pb_make_string_substream w.stream)
        (pb_make_string_substream-SubKeeps k w.stream within);
  in_step = λ k w j.
      on k w (pb_make_string_substream w.stream) (pb_make_string_substream-InStep k w.stream j);
}
  where
    go :
        (k : ℕ) (w : Machine) (r : Option Istream × Istream)
        → SubKeeps k w.stream r
        → Stays k w (opened body w r).1
    go k w (none, s) j = j
    go k w (some sub, s) ((within, le), (low, le'), sum) =
        let (sound, less) = h.keeps k s (back_to sub w) within low in (sound, omega arith)

    on :
        (k : ℕ) (w : Machine) (r : Option Istream × Istream)
        → SubInStep k r
        → OnSuccess k (opened body w r)
    on k w (none, s) j = tt
    on k w (some sub, s) j = h.in_step k s (back_to sub w) j

pub close_substream-Returns :
    (k : ℕ) (s : Istream) (r : Option (Unit {0}) × Machine)
    → IsWithin k s
    → IsSound (s.bytes_left + k) r.1
    → Returns k s (close_substream s r).1
unfolding close_substream
close_substream-Returns k s (status, w) within low =
    go (pb_close_string_substream w.stream s)
      (pb_close_string_substream-Keeps k w.stream s low within)
  where
    go : (c : Option (Unit {0}) × Istream) → Keeps k s c.1 → Returns k s (closed status w c).1
    go (none, t) (back, le) = (back, le)
    go (some u, t) (back, le) = (back, le)

pub close_substream-InStep :
    (k : ℕ) (s : Istream) (r : Option (Unit {0}) × Machine)
    → OnSuccess (s.bytes_left + k) r
    → OnSuccess k (close_substream s r)
unfolding close_substream
close_substream-InStep k s (none, w) j = go (pb_close_string_substream w.stream s)
  where
    go : (c : Option (Unit {0}) × Istream) → OnSuccess k (closed none w c)
    go (none, t) = tt
    go (some u, t) = tt
close_substream-InStep k s (some u, w) j =
    go (pb_close_string_substream w.stream s) (pb_close_string_substream-InStep k w.stream s j)
  where
    go : (c : Option (Unit {0}) × Istream) → Succeeds k c → OnSuccess k (closed (some u) w c)
    go (none, t) i = tt
    go (some v, t) i = i

pub fail_on-Returns :
    (k : ℕ) (s : Istream) (msg : Errmsg) (w : Machine)
    → IsWithin k s
    → Returns k s (fail_on {A = Unit {0}} s msg w).1
fail_on-Returns k s msg w within = (within, omega arith)

pub in_substream-Sound : (body : Action Machine (Unit {0})) → Sound body → Sound (in_substream body)
unfolding in_substream
in_substream-Sound body h =
    open_substream-Sound (λ s w. close_substream s (body w))
      (record {
        keeps = λ k s w within sound.
            close_substream-Returns k s (body w) within (h.keeps (s.bytes_left + k) w sound).0;
        in_step = λ k s w j. close_substream-InStep k s (body w) (h.in_step (s.bytes_left + k) w j);
      })

called-Returns :
    (k : ℕ) (s : Istream) (again : Action Machine (Unit {0})) (r : Option (Unit {0}) × Machine)
    → ((w : Machine) → IsSound (s.bytes_left + k) w → Returns k s (again w).1)
    → IsWithin k s
    → IsSound (s.bytes_left + k) r.1
    → Returns k s (called s again r).1
called-Returns k s again (none, w) h within sound = fail_on-Returns k s callback_failed w within
called-Returns k s again (some u, w) h within sound = elim (Bool-cases (w.stream.bytes_left == 0)) [
  | inl read ↦ rw read (close_substream-Returns k s (some tt, w) within sound)
  | inr more ↦ rw more (h w sound)
]

called-InStep :
    (k : ℕ) (s : Istream) (again : Action Machine (Unit {0})) (r : Option (Unit {0}) × Machine)
    → ((w : Machine) → IsInStep (s.bytes_left + k) w.stream → OnSuccess k (again w))
    → OnSuccess (s.bytes_left + k) r
    → OnSuccess k (called s again r)
called-InStep k s again (none, w) h j = tt
called-InStep k s again (some u, w) h j = elim (Bool-cases (w.stream.bytes_left == 0)) [
  | inl read ↦ rw read (close_substream-InStep k s (some tt, w) j)
  | inr more ↦ rw more (h w j)
]

pub call_until_read-SubSound :
    (rounds : ℕ) (call : Action Machine (Unit {0}))
    → Sound call
    → SubSound (call_until_read rounds call)
unfolding call_until_read
call_until_read-SubSound zero call h = record {
  keeps = λ k s w within sound. (within, omega arith);
  in_step = λ k s w j. tt;
}
call_until_read-SubSound (suc rounds) call h = record {
  keeps = λ k s w within sound.
      called-Returns k s (call_until_read rounds call s) (call w)
        (λ v. (call_until_read-SubSound rounds call h).keeps k s v within) within
        (h.keeps (s.bytes_left + k) w sound).0;
  in_step = λ k s w j.
      called-InStep k s (call_until_read rounds call s) (call w)
        ((call_until_read-SubSound rounds call h).in_step k s) (h.in_step (s.bytes_left + k) w j);
}

raw_called-stream :
    (call : Action Machine (Unit {0})) (w : Machine) (r : Option (List ℕ) × Istream)
    → (raw_called call w r).1.stream ≡ r.1
raw_called-stream call w (none, s) = refl
raw_called-stream call w (some bytes, s) = refl

-- What the call does with the stream over the buffer's bytes does not matter.
pub call_on_raw_value-Sound :
    (wire_type : ℕ) (call : Action Machine (Unit {0})) → Sound (call_on_raw_value wire_type call)
unfolding call_on_raw_value
call_on_raw_value-Sound wire_type call = record {
  keeps = λ k w h.
      subst⁻¹ (Keeps k w.stream) (raw_called-stream call w (read_raw_value wire_type 10 w.stream))
        ((read_raw_value-Safe wire_type 10).keeps k w.stream h);
  in_step = λ k w j. on_success k (call_on_raw_value wire_type call w) (
      subst⁻¹ (IsInStep k) (raw_called-stream call w (read_raw_value wire_type 10 w.stream))
        ((read_raw_value-Safe wire_type 10).in_step k w.stream j));
}
