-- ===== src/Redis/Server/Handlers.antt =====
-- The command handlers of src/redis_server.cpp. Those of ZADD and ZSCORE, which convert between text and
-- `double`, are not modelled.
use Prim.Native.String.{String}
use raft_bitcask.Prelude.{ℕ, ◌+◌, ◌%◌, Bool, List, [], ◌∷◌, ◌++◌, length, ◌==◌, if◌then◌else◌}
use raft_bitcask.Common.{
  Bytes, Error, key_empty, key_not_found, data_file_not_found, database_is_using,
  data_directory_corrupted, invalid_crc, index_update_failed, read_data_file_eof, merge_in_progress,
  merge_ratio_unreached, no_enough_space_for_merge, bitcask_exception, Result, ok, throw,
}
use raft_bitcask.Exec.{Exec, pure, ◌>>=◌}
use raft_bitcask.Redis.DataType
use raft_bitcask.Redis.Store.{Store}
use raft_bitcask.Redis.Service.{Service}
use raft_bitcask.Redis.Strings
use raft_bitcask.Redis.Generic.{del, exists}
use raft_bitcask.Redis.Generic
use raft_bitcask.Redis.Hashes.{hset, hget, hdel}
use raft_bitcask.Redis.Sets.{sadd, sismember, srem}
use raft_bitcask.Redis.Lists.{lpush, rpush, lpop, rpop}
use raft_bitcask.Redis.Server.Responses.{
  RedisResponse, simple_string, error, integer, bulk_string, null_bulk_string,
}
use raft_bitcask.Redis.Server.Text.{ascii}

-- `what()` of the exceptions
unfoldable pub what : Error → Bytes
what key_empty = ascii "Key is empty"
what key_not_found = ascii "Key not found"
what data_file_not_found = ascii "Data file not found"
what database_is_using = ascii "Database is being used by another process"
what data_directory_corrupted = ascii "Data directory corrupted"
what invalid_crc = ascii "Invalid CRC value, log record may be corrupted"
what index_update_failed = ascii "Failed to update index"
what read_data_file_eof = ascii "Read data file EOF"
what merge_in_progress = ascii "Merge is in progress"
what merge_ratio_unreached = ascii "Merge ratio unreached"
what no_enough_space_for_merge = ascii "No enough space for merge"
what (bitcask_exception message) = ascii message

-- `catch (const std::exception& e)`
unfoldable pub error_response : Error → RedisResponse
unfolding what
error_response e = error (ascii "ERR " ++ what e)

-- The same behind `catch (const KeyNotFoundError&)`.
unfoldable pub missing_response : RedisResponse → Error → RedisResponse
unfolding error_response
missing_response missing key_not_found = missing
missing_response missing e = error_response e

unfoldable pub wrong_number : String → RedisResponse
wrong_number name =
    error (ascii "ERR wrong number of arguments for '" ++ (ascii name ++ ascii "' command"))

abbrev pub truth : Bool → RedisResponse
truth b = integer (if b then 1 else 0)

-- The names of the types; another byte gives the empty string.
unfoldable pub type_name : ℕ → Bytes
type_name t =
    if t == DataType.string
    then ascii "string"
    else if t == DataType.hash
    then ascii "hash"
    else if t == DataType.set
    then ascii "set"
    else if t == DataType.list
    then ascii "list"
    else if t == DataType.zset
    then ascii "zset"
    else []

-- A `try` block, the response where it returns, and the one where it throws.
unfoldable pub caught {ℓ} :
    {S A : Type ℓ}
    → Exec S A
    → (A → RedisResponse)
    → (Error → RedisResponse)
    → S
    → Result RedisResponse × S
caught body returned thrown s =
    let (r, s') = body s in (elim r [ ok a ↦ ok (returned a) | throw e ↦ ok (thrown e) ], s')

-- `args.size()` is 2, 3 or other; the first argument is the name of the command.
abbrev with_one {ℓ} : {A : Type ℓ} → (Bytes → A) → A → List Bytes → A
with_one f other (name ∷ a ∷ []) = f a
with_one f other _ = other

abbrev with_two {ℓ} : {A : Type ℓ} → (Bytes → Bytes → A) → A → List Bytes → A
with_two f other (name ∷ a ∷ b ∷ []) = f a b
with_two f other _ = other

module _ (store : Store) (now : ℕ → ℕ) where
  abbrev pub Handler : Type 0
  Handler = List Bytes → Exec (Service store) RedisResponse

  -- `handle_set`; further arguments are ignored.
  unfoldable pub handle_set : Handler
  unfolding caught wrong_number error_response
  handle_set (name ∷ key ∷ value ∷ rest) =
      caught (Strings.set store now key value 0) (λ _. simple_string (ascii "OK")) error_response
  handle_set _ = pure (wrong_number "set")

  unfoldable pub handle_get : Handler
  unfolding caught wrong_number missing_response
  handle_get =
      with_one
        (λ key. caught (Strings.get store now key) bulk_string (missing_response null_bulk_string))
        (pure (wrong_number "get"))

  -- The loop of `handle_del`, with the count so far; what `del` throws is not caught.
  unfoldable pub delete_keys : List Bytes → ℕ → Exec (Service store) ℕ
  delete_keys [] deleted_count = pure deleted_count
  delete_keys (key ∷ keys) deleted_count =
      del store now key >>= λ gone. delete_keys keys (deleted_count + (if gone then 1 else 0))

  unfoldable pub handle_del : Handler
  unfolding delete_keys wrong_number
  handle_del (name ∷ key ∷ keys) = delete_keys (key ∷ keys) 0 >>= λ n. pure (integer n)
  handle_del _ = pure (wrong_number "del")

  unfoldable pub handle_exists : Handler
  unfolding wrong_number
  handle_exists =
      with_one (λ key. exists store now key >>= λ found. pure (truth found))
        (pure (wrong_number "exists"))

  unfoldable pub handle_type : Handler
  unfolding caught wrong_number missing_response type_name
  handle_type =
      with_one
        (λ key.
          caught (Generic.type store now key) (λ t. simple_string (type_name t))
            (missing_response (simple_string (ascii "none"))))
        (pure (wrong_number "type"))

  -- The loop of `handle_hset` over fields and values, with the count so far.
  unfoldable pub put_fields : Bytes → List Bytes → ℕ → Exec (Service store) ℕ
  put_fields key [] new_fields = pure new_fields
  put_fields key (field ∷ []) new_fields = pure new_fields
  put_fields key (field ∷ value ∷ rest) new_fields = hset store now key field value >>= λ is_new.
      put_fields key rest (new_fields + (if is_new then 1 else 0))

  unfoldable pub handle_hset : Handler
  unfolding caught wrong_number error_response put_fields
  handle_hset (name ∷ key ∷ field ∷ value ∷ rest) =
      if length rest % 2 == 0
      then caught (put_fields key (field ∷ value ∷ rest) 0) integer error_response
      else pure (wrong_number "hset")
  handle_hset _ = pure (wrong_number "hset")

  unfoldable pub handle_hget : Handler
  unfolding caught wrong_number missing_response
  handle_hget =
      with_two
        (λ key field.
          caught (hget store now key field) bulk_string (missing_response null_bulk_string))
        (pure (wrong_number "hget"))

  unfoldable pub handle_hdel : Handler
  unfolding caught wrong_number error_response
  handle_hdel =
      with_two (λ key field. caught (hdel store now key field) truth error_response)
        (pure (wrong_number "hdel"))

  unfoldable pub handle_sadd : Handler
  unfolding caught wrong_number error_response
  handle_sadd =
      with_two (λ key member. caught (sadd store now key member) truth error_response)
        (pure (wrong_number "sadd"))

  unfoldable pub handle_sismember : Handler
  unfolding caught wrong_number error_response
  handle_sismember =
      with_two (λ key member. caught (sismember store now key member) truth error_response)
        (pure (wrong_number "sismember"))

  unfoldable pub handle_srem : Handler
  unfolding caught wrong_number error_response
  handle_srem =
      with_two (λ key member. caught (srem store now key member) truth error_response)
        (pure (wrong_number "srem"))

  unfoldable pub handle_lpush : Handler
  unfolding caught wrong_number error_response
  handle_lpush =
      with_two (λ key element. caught (lpush store now key element) integer error_response)
        (pure (wrong_number "lpush"))

  unfoldable pub handle_rpush : Handler
  unfolding caught wrong_number error_response
  handle_rpush =
      with_two (λ key element. caught (rpush store now key element) integer error_response)
        (pure (wrong_number "rpush"))

  unfoldable pub handle_lpop : Handler
  unfolding caught wrong_number missing_response
  handle_lpop =
      with_one (λ key. caught (lpop store now key) bulk_string (missing_response null_bulk_string))
        (pure (wrong_number "lpop"))

  unfoldable pub handle_rpop : Handler
  unfolding caught wrong_number missing_response
  handle_rpop =
      with_one (λ key. caught (rpop store now key) bulk_string (missing_response null_bulk_string))
        (pure (wrong_number "rpop"))

  unfoldable pub handle_ping : Handler
  unfolding wrong_number
  handle_ping (name ∷ []) = pure (simple_string (ascii "PONG"))
  handle_ping (name ∷ message ∷ []) = pure (bulk_string message)
  handle_ping _ = pure (wrong_number "ping")

  unfoldable pub handle_quit : Handler
  handle_quit args = pure (simple_string (ascii "OK"))
