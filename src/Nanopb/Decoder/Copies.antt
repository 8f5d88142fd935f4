-- ===== src/Nanopb/Decoder/Copies.antt =====
-- TestProdSS/Pods/nanopb, pb_encode.c and pb_decode.c: what the encoder of a number writes for a member
-- of one structure, the decoder stores in the member of another.
pub mod Stored
pub mod Numbers
use teta.Prelude.{ℕ, ◌+◌, ◌≡◌, Option, some, List, ◌++◌, length}
use teta.Nanopb.Action.{Errmsg, Action}
use teta.Nanopb.Ostream.{Ostream}
use teta.Nanopb.Ostream.Emits.{Emits}
use teta.Nanopb.Istream.Accepts.{on_memory}
use teta.Nanopb.Memory.{Memory, read_uint, write_uint}
use teta.Nanopb.Machine.{Machine}

-- `encode` writes some bytes for the member of `n` bytes at `src`; where the stream continues with
-- these bytes, `decode` takes them, stores a value in `n` bytes at `dest`, changes nothing else, and
-- returns true; and the member there has then the contents of the member at `src`.
pub record Copies (encode : Action Ostream (Unit {0})) (decode : Action Machine (Unit {0}))
    (mem : Memory) (n src dest : ℕ) : Type 0 where
  pub bytes : List ℕ
  pub value : ℕ
  pub written : Emits encode bytes
  pub taken :
      (w : Machine) (rest : List ℕ) (left : ℕ) (err : Option Errmsg)
      → decode (record w { stream = on_memory (bytes ++ rest) (length bytes + left) err }) ≡ (
        some tt,
        record w { stream = on_memory rest left err; mem = write_uint w.mem n dest value },
      )
  pub same :
      (other : Memory) → read_uint (write_uint other n dest value) n dest ≡ read_uint mem n src
