-- ===== src/Nanopb.antt =====
-- The nanopb library, TestProdSS/Pods/nanopb.
pub mod Action
pub mod Ostream
pub mod Wire
pub mod Encode
pub mod Istream
pub mod Decode
pub mod RoundTrip
pub mod Memory
pub mod Machine
pub mod Fields
pub mod Encoder
pub mod Decoder
