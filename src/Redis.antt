-- ===== src/Redis.antt =====
-- src/redis_data_structure.cpp: strings, hashes, sets, lists and sorted sets over the database.
pub mod DataType
pub mod Metadata
pub mod Keys
pub mod Store
pub mod Options
pub mod KeyMaps
pub mod Fields
pub mod Service
pub mod Parts
pub mod Strings
pub mod Hashes
pub mod Sets
pub mod Lists
pub mod ZSets
pub mod Generic
pub mod Database
pub mod Server
