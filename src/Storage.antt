-- ===== src/Storage.antt =====
-- Files: what the engine uses of the operating system, src/io_manager.cpp and src/data_file.cpp.
pub mod FileSystem
pub mod Utils
pub mod DataFile
