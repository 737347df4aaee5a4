-- ===== src/Lib.antt =====
-- Verification of the storage engine.
--
-- The engine appends log records to data files and keeps an index from keys to positions in memory.
--   Common: include/bitcask/common.h, byte strings, constants, exceptions.
--   Codec: src/log_record.cpp, varints, the checksum, records, positions; and the keys with a
--     sequence number of src/db.cpp.
--   Storage: src/data_file.cpp over src/io_manager.cpp. The system calls are the parameter
--     `FileSystem.Calls`; `FileSystem.Reliable` states their documented behaviour where no device
--     fails, and the theorems that need it take it as a hypothesis. Storage.Utils has `copy_file`,
--     `create_directory` and `file_exists` of src/utils.cpp, over the streams of the C library as the
--     interface `Streams`, and Storage.Utils.Copy what they do where no stream fails.
--   Index: src/index.cpp, the ordered index and its iterator. `std::map` is a list in the order of
--     its keys. Index.BPlusTree is src/bplus_tree_index.cpp, the B+ tree with its search, its file
--     and its iterators; its nodes are values that hold one another, since no two pointers lead to
--     the same node. Index.BPlusTree.Search, Refine, Run, File.RoundTrip, Iterator.Seek and
--     Iterator.Reverse have the theorems.
--   Db: src/db.cpp over one data directory with the ordered index and standard file I/O, and
--     src/write_batch.cpp and src/iterator.cpp. Db has the operations, Db.Load the rebuilding of the
--     index at a start, Db.Open the start itself and Db.Open.SeqNo the sequence number that it loads
--     for a B+ tree index, Db.Merge the loop of a merge and Db.Merge.Files the files around it,
--     Db.Batch the batches, Db.Iterator the iterators, Db.Close the shutdown and Db.Backup the
--     backup. The methods that write hold the lock of the database from start to end, so each is one
--     step. Db.Open takes the test whether a file exists and `::remove` as parameters, Db.Merge.Files
--     the functions of src/utils.cpp on directories, and Db.Backup those on files, which
--     Db.Backup.Copies takes from Storage.Utils.
--     Db.Append, Db.Represents, Db.Rotation, Db.FileName, Db.Load.Recovery, Db.Load.Atomic,
--     Db.Load.Replay, Db.Load.Fuel, Db.Open.Scan, Db.Open.Restart, Db.Open.HintFuel,
--     Db.Merge.Loop, Db.Merge.Last, Db.Merge.Kept, Db.Merge.Compact, Db.Merge.Stands, Db.Batch.Run,
--     Db.Batch.Commit, Db.Backup.Copies, Db.Iterator.Prefix and Db.Close.SeqNo have the lemmas and theorems.
--   Redis: src/redis_data_structure.cpp. Redis.Metadata and Redis.Keys have the byte formats,
--     Redis.Service what the operations share, and Redis.Strings, Redis.Hashes, Redis.Sets,
--     Redis.Lists, Redis.ZSets and Redis.Generic the operations. The database that they use is the
--     interface `Store` of Redis.Store with the laws of a map `IsMap`, which Redis.Database fills
--     with the database of Db. The system clock is the parameter `now`, its reading for each call.
--     A score is given by the 64 bits of the double, which the code only copies. Redis.Fields is the
--     abstract view of a hash or a set, Redis.Parts relates it to the database, and
--     Redis.Lists.Represents does so for a list and a sequence; the Refine modules,
--     Redis.Hashes.Missing, Redis.Lists.Push, Redis.Lists.Pop and Redis.Lists.Commands have the
--     operations' theorems.
--     Redis.Server is src/redis_server.cpp: the responses, the parser of a command and the handlers,
--     with `std::stoi` as far as the parser uses it; an offset that the code passes by reference is
--     returned. The integers of responses are counts, so they are natural numbers.
--   Exec: methods that change their object and may throw.
--   Prelude: shared names, list lemmas and the laws of the bit operations.
--   Tests: runs at concrete inputs, and a disk in memory that satisfies `Reliable`.
--
-- Numbers are natural numbers with the wrap-around of the machine types written out where it can
-- happen. Loops are recursion on the list that they read, on the rounds left, or on the proof that
-- the number which they shift or halve is accessible. Six kinds of loops run on fuel. In the loop
-- over a data file at a start each round but the last moves the offset on, so one round for each byte
-- of the file and one more are enough, as Db.Load.Fuel proves. The loops of the B+ tree's iterator
-- move past a key in each round, and get one round more than there are keys from the leaf on; that
-- this is enough shows in the results of Index.BPlusTree.Iterator.Seek. The loop over the
-- hint file has as many rounds as that over a data file, and Db.Open.HintFuel proves that they are
-- enough. The loop over a file in `merge` reads a record in each round of a whole log, for which one
-- round more than there are records is enough, as Db.Merge.Compact proves; that of `copy_file` copies a
-- byte at least in each round but the last, as Storage.Utils.Copy proves. `deserialize_node` has the
-- length of the file as fuel for its depth, which is enough for the file of one leaf, as
-- Index.BPlusTree.File.RoundTrip proves; no other file is written.
--
-- A size that the B+ tree narrows to an `int`, and a sum of type `int` in the parser of commands, are
-- modelled with their limits; where such a sum overflows, which C++ leaves open, it wraps around.
--
-- Not modelled: the skip list and the radix tree, memory-mapped files, the conditions of a merge and
-- its copying of the files back, `stat`, the sockets and threads of the servers, the handlers of ZADD
-- and ZSCORE, the HTTP and RPC servers, and locks as such.
pub mod Prelude
pub mod Common
pub mod Codec
pub mod Storage
pub mod Index
pub mod Db
pub mod Redis
pub mod Tests
pub mod Exec
