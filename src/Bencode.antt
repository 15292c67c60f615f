-- ===== src/Bencode.antt =====
-- modules/bencode: the value type, the encoder and the decoder, streams and events.
pub mod Value
pub mod Encoder
pub mod Decoder
pub mod Stream
pub mod EventProcessor
pub mod Tests
