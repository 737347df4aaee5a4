-- ===== src/Tests/Redis.antt =====
-- Data structures over the database in memory.
use raft_bitcask.Prelude.{
  ℕ, ◌+◌, ◌-◌, ◌*◌, ◌≤◌, ◌<◌, ◌≡◌, refl, true, false, some, List, [], ◌∷◌, length, ltb, leb, ◌&&◌,
  if◌then◌else◌, arith,
}
use raft_bitcask.Common.{Bytes, IsU64, ok, throw, key_not_found}
use raft_bitcask.Index.KeyOrder.{key_eq, key_compare, key_eq_self}
use raft_bitcask.Db.Represents.Operations.{set_key}
use raft_bitcask.Redis.DataType
use raft_bitcask.Redis.Metadata.{RedisMetadata, encode, decode, IsValid, decode-encode_metadata}
use raft_bitcask.Redis.Store.{Store}
use raft_bitcask.Redis.Options.{is_some}
use raft_bitcask.Redis.Fields.{value_of, delete_field}
use raft_bitcask.Redis.Service.{Service}
use raft_bitcask.Redis.Service.Runs.{Yields}
use raft_bitcask.Redis.Strings.{set, get, encode_string}
use raft_bitcask.Redis.Strings.RoundTrip.{get-set, expiry_at}
use raft_bitcask.Redis.Hashes.{hset, hget, hdel}
use raft_bitcask.Redis.Hashes.Missing.{hdel_missing}
use raft_bitcask.Redis.Hashes.Refine.{hset-Holds, hdel-Holds, hget-value_of, field_result}
use raft_bitcask.Redis.Parts.Represents.{Holds}
use raft_bitcask.Redis.Parts.Writes.{part_room}
use raft_bitcask.Redis.Lists.Represents.{Deque}
use raft_bitcask.Redis.Lists.Commands.{
  AllSmall, Command, left_push, right_push, left_pop, right_pop, count, element, answers,
  commands_room, execute_all, execute_all-answers,
}
use raft_bitcask.Redis.Server.Responses.{integer}
use raft_bitcask.Redis.Server.Handlers.{handle_hset}
use raft_bitcask.Redis.Server.Hset.{insert_all, pairs, fields_room, handle_hset-Holds}
use raft_bitcask.Redis.Database.{database, database-IsMap, Fits}
use raft_bitcask.Redis.Database.Lists.{list_commands-database}
use raft_bitcask.Tests.Disk.{memory, memory_reliable}
use raft_bitcask.Tests.Db.{empty_db, file, no_keys, empty_db-Represents}

abbrev db_store : Store
db_store = database memory

abbrev key : Bytes
key = 107 ∷ []

abbrev service : Service db_store
service = record { db = empty_db; readings = 0 }

-- A clock that rises, and its limit.
abbrev clock : ℕ → ℕ
clock t = t

abbrev limit : ℕ
limit = 1000

rising : (t : ℕ) → clock t < clock (t + 1)
rising t = omega arith

bounded : (t : ℕ) → t < limit → IsU64 (clock t)
bounded t h = omega (arith, h)

-- A clock that stands.
abbrev still : ℕ → ℕ
still t = 5

abbrev commands : List Command
commands = left_push (1 ∷ []) ∷ right_push (2 ∷ []) ∷ right_pop ∷ left_pop ∷ left_pop ∷ []

service-Fits : (n : ℕ) → n ≤ 1000 → Fits memory_reliable empty_db no_keys n
service-Fits n le = (file, [], empty_db-Represents, omega (arith, le))

commands-small : AllSmall commands
commands-small = (omega arith, (omega arith, (tt, (tt, (tt, tt)))))

commands-Deque :
    Deque
      (database-IsMap memory_reliable)
      still
      key
      service
      []
      (commands_room key commands + 0)
      (length commands + 0)
commands-Deque = record {
  map = no_keys;
  readings = 0;
  at = (service-Fits _ (omega arith), refl);
  list = (refl, omega arith);
}

execute_all-answers_example :
    ((execute_all still key commands service).0 ≡ (answers commands []).0)
    × Deque
        (database-IsMap memory_reliable)
        still
        key
        (execute_all still key commands service).1
        (answers commands []).1
        0
        0
execute_all-answers_example =
    execute_all-answers (database-IsMap memory_reliable) still key (omega arith, omega arith)
      (λ t. omega arith) commands service [] 0 0 commands-small commands-Deque

-- The replies are those of a sequence.
replies :
    (answers commands []).0
    ≡ ok (count 1)
      ∷ ok (count 2)
      ∷ ok (element (2 ∷ []))
      ∷ ok (element (1 ∷ []))
      ∷ throw key_not_found
      ∷ []
replies = refl

list_commands-database_example :
    (execute_all still key commands service).0 ≡ (answers commands []).0
list_commands-database_example =
    list_commands-database memory_reliable empty_db file [] no_keys still key commands 0
      empty_db-Represents refl (omega arith, omega arith) (λ t. omega arith) commands-small
      (omega arith) (omega arith)

abbrev field : Bytes
field = 5 ∷ []

abbrev other_field : Bytes
other_field = 6 ∷ []

service-Holds :
    (data_type : DataType.RedisDataType) (n k : ℕ)
    → n ≤ 1000
    → k ≤ 1000
    → Holds (database-IsMap memory_reliable) clock limit data_type key service [] n k
service-Holds data_type n k room few = record {
  map = no_keys;
  readings = 0;
  at = (service-Fits n room, refl);
  parts = (refl, omega (arith, few));
  unused = λ version fits late f. refl;
  clock = omega (arith, few);
}

field_there : is_some (value_of ((field, 9 ∷ []) ∷ []) field) ≡ true
field_there = rw (key_eq_self field) refl

-- A hash with one field, and a set with one member.
abbrev one_field : Service db_store
one_field = (hset db_store clock key field (9 ∷ []) service).1

hset-Holds_example : Yields (hset db_store clock key field (9 ∷ []) service) true (λ s'.
    Holds
      (database-IsMap memory_reliable)
      clock
      limit
      DataType.hash
      key
      s'
      ((field, 9 ∷ []) ∷ [])
      500
      10)
hset-Holds_example =
    hset-Holds (database-IsMap memory_reliable) clock limit key rising bounded service [] 500 10
      field (omega arith, omega arith) (9 ∷ []) (omega arith)
      (service-Holds DataType.hash (part_room key field (9 ∷ []) + 500) 11 (omega arith)
        (omega arith))

one_field-Holds :
    (n k : ℕ)
    → n ≤ 500
    → k ≤ 10
    → Holds
        (database-IsMap memory_reliable)
        clock
        limit
        DataType.hash
        key
        one_field
        ((field, 9 ∷ []) ∷ [])
        n
        k
one_field-Holds n k room few =
    (hset-Holds (database-IsMap memory_reliable) clock limit key rising bounded service [] n k field
      (omega arith, omega arith) (9 ∷ []) (omega arith)
      (service-Holds DataType.hash (part_room key field (9 ∷ []) + n) (k + 1) (omega (arith, room))
        (omega (arith, few)))).1

hdel-Holds_example : Yields (hdel db_store clock key field one_field) true (λ s'.
    Holds
      (database-IsMap memory_reliable)
      clock
      limit
      DataType.hash
      key
      s'
      (delete_field field ((field, 9 ∷ []) ∷ []))
      100
      1)
hdel-Holds_example =
    hdel-Holds (database-IsMap memory_reliable) clock limit key rising bounded one_field
      ((field, 9 ∷ []) ∷ []) 100 1 field (omega arith, omega arith)
      (one_field-Holds (part_room key field [] + 100) 2 (omega arith) (omega arith)) field_there

hget-value_of_example :
    (hget db_store clock key field one_field).0
    ≡ field_result (value_of ((field, 9 ∷ []) ∷ []) field)
hget-value_of_example =
    hget-value_of (database-IsMap memory_reliable) clock limit key rising bounded one_field
      ((field, 9 ∷ []) ∷ []) 0 0 field (omega arith, omega arith)
      (one_field-Holds 0 1 (omega arith) (omega arith))

fields_differ : key_eq field other_field ≡ false
unfolding key_eq key_compare
fields_differ = refl

hdel_missing_example :
    ((hdel db_store clock key other_field one_field).0 ≡ ok true)
    × ((hget db_store clock key field (hdel db_store clock key other_field one_field).1).0
        ≡ throw key_not_found)
hdel_missing_example =
    hdel_missing (database-IsMap memory_reliable) clock limit key rising bounded one_field field
      (9 ∷ []) other_field 100 1 (omega arith, omega arith)
      (one_field-Holds (part_room key other_field [] + 100) 2 (omega arith) (omega arith))
      fields_differ

get-set_example :
    let out = set db_store clock key (7 ∷ []) 3 service in
    (out.0 ≡ ok tt)
    × Fits memory_reliable out.1.db
        (set_key no_keys key (some (encode_string (expiry_at 0 3) (7 ∷ []))))
        0
    × ((get db_store clock key out.1).0
        ≡ (if ltb 0 3 && leb (0 + 3 * 1000000) 1 then throw key_not_found else ok (7 ∷ [])))
get-set_example =
    get-set db_store clock (database-IsMap memory_reliable) service no_keys 0 key (7 ∷ []) 3
      (service-Fits _ (omega arith)) (omega arith) (omega arith) (omega arith) (omega arith)
      (omega arith)

abbrev list_metadata : RedisMetadata
list_metadata = record {
  data_type = DataType.list;
  expire = 0;
  version = 77;
  size = 300;
  head = 4;
  tail = 304;
}

list_metadata-IsValid : IsValid list_metadata
list_metadata-IsValid = record {
  expire = omega arith;
  version = omega arith;
  size = omega arith;
  head = omega arith;
  tail = omega arith;
  no_marks = λ other. absurd (other refl);
}

decode-encode_metadata_example : decode (encode list_metadata) ≡ ok list_metadata
decode-encode_metadata_example = decode-encode_metadata list_metadata list_metadata-IsValid

-- Two fields, the second value of which is empty.
abbrev two_fields : List Bytes
two_fields = field ∷ (9 ∷ []) ∷ other_field ∷ [] ∷ []

handle_hset-Holds_example :
    Yields
      (handle_hset db_store clock ([] ∷ key ∷ two_fields) service)
      (integer (length (insert_all two_fields []) - 0))
      (λ s'.
        Holds
          (database-IsMap memory_reliable)
          clock
          limit
          DataType.hash
          key
          s'
          (insert_all two_fields [])
          100
          1)
handle_hset-Holds_example =
    handle_hset-Holds (database-IsMap memory_reliable) clock limit key rising bounded [] field
      (9 ∷ []) (other_field ∷ [] ∷ []) service [] 100 1 refl
      ((omega arith, omega arith), omega arith, ((omega arith, omega arith), omega arith, tt))
      (service-Holds DataType.hash (fields_room key two_fields + 100) (pairs two_fields + 1)
        (omega arith) (omega arith))
