-- ===== src/Nanopb/Decoder.antt =====
-- TestProdSS/Pods/nanopb/pb_decode.c: the decoder of whole messages into the memory that holds them,
-- and the release of what it has allocated.
pub mod Program
pub mod Allocate
pub mod Values
pub mod Walk
pub mod Defaults
pub mod Release
pub mod Substream
pub mod Arrays
pub mod Fields
pub mod Extensions
pub mod Found
pub mod Required
pub mod Message
mod Tests
pub mod Safety
pub mod Rounds
pub mod Copies
pub mod Writes
