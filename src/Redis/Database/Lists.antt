-- ===== src/Redis/Database/Lists.antt =====
-- Sequences of list commands over the database of src/db.cpp.
use raft_bitcask.Prelude.{ℕ, ◌+◌, ◌≤◌, ◌<◌, ◌≡◌, ◌^◌, refl, none, List, [], length, arith}
use raft_bitcask.Common.{Bytes, IsU64}
use raft_bitcask.Storage.FileSystem.{Calls, Reliable}
use raft_bitcask.Storage.DataFile.{DataFile}
use raft_bitcask.Db.{Db}
use raft_bitcask.Db.Represents.{KeyMap, Represents}
use raft_bitcask.Redis.Lists.Represents.{IsListKey}
use raft_bitcask.Redis.Lists.Commands.{
  Command, answers, commands_room, AllSmall, execute_all, execute_all-answers,
}
use raft_bitcask.Redis.Database.{database, database-IsMap}

-- On a database that stands for a map without the key, on a disk that does not fail, any sequence of
-- pushes and pops under the key gives the replies that it gives on an empty sequence of elements. This
-- needs a key and elements short enough for a record, room in the active file for the commands,
-- a clock of 64 bits, and fewer than 2^32 commands.
pub list_commands-database :
    {os : Calls} (disk : Reliable os) (db : Db os) (f : DataFile) (b : Bytes) (m : KeyMap)
    (now : ℕ → ℕ) (key : Bytes) (cs : List Command) (t : ℕ)
    → Represents disk db f b m
    → m key ≡ none
    → IsListKey (database-IsMap disk) now key
    → ((i : ℕ) → IsU64 (now i))
    → AllSmall cs
    → length b + commands_room key cs ≤ db.options.data_file_size
    → length cs < 2 ^ 32
    → (execute_all {store = database os} now key cs (record { db = db; readings = t })).0
      ≡ (answers cs []).0
list_commands-database {os} disk db f b m now key cs t rep missing legal clock small room few =
    (execute_all-answers {store = database os} (database-IsMap disk) now key legal clock cs
      (record { db = db; readings = t }) [] 0 0 small
      (record {
        map = m;
        readings = t;
        at = ((f, b, rep, omega (arith, room)), refl);
        list = (missing, omega (arith, few));
      })).0
