-- ===== src/Tests.antt =====
-- Concrete runs, and the theorems at concrete inputs.
mod Disk
mod Codec
mod Storage
mod Index
mod BPlusTree
mod Db
mod Load
mod Open
mod Merge
mod Backup
mod Iterator
mod Redis
mod Server
