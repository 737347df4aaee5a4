-- ===== src/Redis/Server/Responses.antt =====
-- `RedisResponse` of src/redis_server.cpp. A response is the call that makes it; integers are not negative.
use raft_bitcask.Prelude.{ℕ, ◌+◌, [], ◌∷◌, ◌++◌, length}
use raft_bitcask.Common.{Bytes}
use raft_bitcask.Db.FileName.{decimal}

mutual
  pub data RedisResponse : Type 0 where
    simple_string : Bytes → RedisResponse
    error : Bytes → RedisResponse
    integer : ℕ → RedisResponse
    bulk_string : Bytes → RedisResponse
    null_bulk_string : RedisResponse
    array : Responses → RedisResponse

  pub data Responses : Type 0 where
    end : Responses
    item : RedisResponse → Responses → Responses

abbrev pub crlf : Bytes
crlf = 13 ∷ 10 ∷ []

-- `array_value.size()`
abbrev pub count : Responses → ℕ
count end = 0
count (item r rest) = 1 + count rest

-- `RedisResponse::serialize`, and the loop over the items of an array.
unfoldable mutual
  pub serialize : RedisResponse → Bytes
  serialize (simple_string value) = b'+' ∷ (value ++ crlf)
  serialize (error value) = b'-' ∷ (value ++ crlf)
  serialize (integer n) = b':' ∷ (decimal n ++ crlf)
  serialize (bulk_string value) = b'$' ∷ (decimal (length value) ++ (crlf ++ (value ++ crlf)))
  serialize null_bulk_string = b'$' ∷ b'-' ∷ b'1' ∷ crlf
  serialize (array items) = b'*' ∷ (decimal (count items) ++ (crlf ++ serialize_items items))

  pub serialize_items : Responses → Bytes
  serialize_items end = []
  serialize_items (item r rest) = serialize r ++ serialize_items rest
