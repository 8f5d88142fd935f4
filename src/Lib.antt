-- ===== src/Lib.antt =====
-- Teta: the C code that the app in TestProdSS links through its pods.
--
-- The app is Swift and its pods are mostly Objective-C. Two parts are C, and are modelled here:
--
-- nanopb (TestProdSS/Pods/nanopb), which encodes and decodes protocol buffers. Streams carry a
-- callback and a state; the helper functions write and read varints, tags, strings and fixed-width
-- values on a stream; the field iterator walks a descriptor (an array of pb_field_t) beside the
-- structure that it describes; the message encoder takes each field that the iterator reaches, and
-- encodes a submessage twice, first to count its bytes. With the settings of
-- TestProdSS/Pods/Pods.xcodeproj: PB_FIELD_32BIT, PB_ENABLE_MALLOC, a size_t of 64 bits, pointers of
-- 64 bits, little endian.
--   Nanopb/Action       pb.h: error messages, and the shape "change the stream, answer true or false".
--   Nanopb/Ostream      pb_encode.h, pb_encode.c: pb_ostream_t, buf_write, pb_write.
--   Nanopb/Encode       pb_encode.c: pb_encode_varint, _svarint, _fixed32, _fixed64, _tag, _string.
--   Nanopb/Istream      pb_decode.h, pb_decode.c: pb_istream_t, buf_read, pb_read, pb_readbyte.
--   Nanopb/Decode       pb_decode.c: pb_decode_varint, _varint32, _tag, _svarint, _fixed32, _fixed64,
--                       pb_skip_field, read_raw_value, and the substreams of strings.
--   Nanopb/Memory       what the casts and dereferences of both files read and write.
--   Nanopb/Machine      pb.h: what decoding changes: the stream, the memory, and the blocks behind
--                       pb_realloc and pb_free.
--   Nanopb/Fields       pb.h, pb_common.c: pb_field_t and pb_field_iter_t; in Fields/Layout the macros
--                       that describe the members of a structure.
--   Nanopb/Encoder      pb_encode.c: pb_encode and everything below it (pb_enc_*, encode_array,
--                       pb_check_proto3_default_value, encode_basic_field, encode_callback_field,
--                       extensions, pb_encode_submessage) and beside it (pb_encode_delimited,
--                       pb_encode_nullterminated, pb_get_encoded_size).
--   Nanopb/Decoder      pb_decode.c: pb_decode and everything below it (pb_dec_*, allocate_field,
--                       decode_static_field, decode_pointer_field, decode_callback_field,
--                       extensions, defaults) and beside it (pb_decode_noinit, _delimited,
--                       _nullterminated, pb_release).
--   Nanopb/Wire and Nanopb/Encoder/Wire describe the wire format and the bytes of a message without
--   streams; Ostream/Emits, Istream/Accepts, Istream/Safety and Machine/Safety are the contracts that
--   encoders and decoders are shown to keep; Nanopb/RoundTrip joins both sides.
--
-- fbase64.c (TestProdSS/Pods/FirebaseDatabase/Firebase/Database/third_party/SocketRocket), the base
-- 64 of the web socket: f_b64_ntop and f_b64_pton in Base64, RFC 1521 in Base64/Rfc.
--
-- Prelude holds what both share: tests on native numbers, lists measured by them, the bit operations
-- and casts of C.
--
-- State and errors. A C function that may fail is an Action: it answers `none` for false, and gives
-- the stream as it leaves it, with the message of the first error. A pointer is an address, 0 the
-- null pointer; the memory is a function from addresses to bytes, which encoding does not change and
-- decoding does. Where C's behaviour is undefined, the sink or the machine is marked `undefined`, or
-- the source `overread`; accesses of memory outside of the structures are not marked. What the
-- program supplies through pointers (descriptors, and the functions of callback fields and
-- extensions) is a record, Program of Nanopb/Encoder/Program and of Nanopb/Decoder/Program; theorems
-- on messages assume that these functions write given bytes (Keeps in Nanopb/Encoder/Wire/Fields), or
-- read within the stream (IsSafeProgram in Nanopb/Decoder/Safety/Fields). The allocator chooses
-- addresses by a function of that record, and may fail. Nothing is claimed of the allocated blocks:
-- the code can hand a number to realloc that was no pointer (a oneof of both).
--
-- Bounds and fuel. Integers wrap where C's do, written out. The loop of pb_encode_varint runs on the
-- ten places of its buffer, which suffice for 64 bits; the search for a tag on as many rounds as the
-- descriptor has entries and one more; the do loops over fields on the number of the entries. A
-- message has `depth` levels of messages in it, and lists of at most as many extensions; the sink or
-- the machine is marked `unfinished` where these are too few, and `message_bytes` has then no value.
-- The loops of the decoder over a message and over a packed array run on as many rounds as the stream
-- has bytes, and one more, since each round takes a byte at least.
--
-- Not modelled: the variants of nanopb for other settings (PB_WITHOUT_64BIT, PB_BUFFER_ONLY, PB_NO_ERRMSG, PB_OLD_CALLBACK_STYLE); the
-- Swift app, the Objective-C pods, leveldb (C++), and the prebuilt frameworks.
pub mod Prelude
pub mod Nanopb
pub mod Base64
