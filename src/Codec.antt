-- ===== src/Codec.antt =====
-- The byte formats of src/log_record.cpp.
pub mod Varint
pub mod Crc
pub mod LittleEndian
pub mod SeqKey
pub mod Record
