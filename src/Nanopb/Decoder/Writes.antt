-- ===== src/Nanopb/Decoder/Writes.antt =====
-- TestProdSS/Pods/nanopb/pb_decode.c: the decoders of values that stand in the structure itself write
-- only into their member.
pub mod Numbers
pub mod Bytes
pub mod Fields
