-- ===== src/Ucpack.antt =====
-- `src/alvik/ucpack.rs`: the wire codec of the link to the carrier board. `Crc` has the checksum,
-- `Encoder` and `Decoder` the two directions, `Stream` a specification of the decoder on the
-- sequence of bytes that it holds, and `Link` relates the directions.
pub mod Crc
pub mod Frame
pub mod Encoder
pub mod Stream
pub mod Decoder
pub mod Link
pub mod Sound
