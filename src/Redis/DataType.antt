-- ===== src/Redis/DataType.antt =====
-- `enum class RedisDataType : uint8_t`. A cast from a byte makes any value of the underlying type.
use raft_bitcask.Prelude.{ℕ}

abbrev pub RedisDataType : Type 0
RedisDataType = ℕ

abbrev pub string : RedisDataType
string = 0

abbrev pub hash : RedisDataType
hash = 1

abbrev pub set : RedisDataType
set = 2

abbrev pub list : RedisDataType
list = 3

abbrev pub zset : RedisDataType
zset = 4
