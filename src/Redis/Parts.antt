-- ===== src/Redis/Parts.antt =====
-- What hashes and sets of src/redis_data_structure.cpp share: parts that stand under the internal keys of
-- their names.
pub mod Represents
pub mod Find
pub mod Writes
