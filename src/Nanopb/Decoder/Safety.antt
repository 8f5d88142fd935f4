-- ===== src/Nanopb/Decoder/Safety.antt =====
-- TestProdSS/Pods/nanopb/pb_decode.c: what the decoder keeps of its stream on every input, well formed
-- or not.
pub mod Values
pub mod Walk
pub mod Defaults
pub mod Release
pub mod Substream
pub mod Arrays
pub mod Fields
pub mod Extensions
pub mod Message
