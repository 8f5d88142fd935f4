-- ===== src/Nanopb/Encoder.antt =====
-- TestProdSS/Pods/nanopb/pb_encode.c: the encoder of whole messages, over the memory that holds them.
pub mod Program
pub mod Values
pub mod Defaults
pub mod Submessage
pub mod Arrays
pub mod Fields
pub mod Message
pub mod Wire
pub mod Refines
mod Tests
