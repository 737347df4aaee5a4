-- ===== src/Common.antt =====
-- include/bitcask/common.h: byte strings, the record types, the constants and the exceptions.
use Prim.Native.String.{String}
use raft_bitcask.Prelude.{ℕ, ◌^◌, ◌<◌, List}

-- `std::vector<uint8_t>`; that each element is a byte is `All IsByte`.
abbrev pub Bytes : Type 0
Bytes = List ℕ

abbrev pub IsByte : ℕ → Type 0
IsByte b = b < 256

abbrev pub IsU32 : ℕ → Type 0
IsU32 n = n < 2 ^ 32

abbrev pub IsU64 : ℕ → Type 0
IsU64 n = n < 2 ^ 64

-- `enum class LogRecordType : uint8_t`. A cast from a byte makes any value of the underlying type.
abbrev pub LogRecordType : Type 0
LogRecordType = ℕ

abbrev pub normal : LogRecordType
normal = 1

abbrev pub deleted : LogRecordType
deleted = 2

abbrev pub txn_finished : LogRecordType
txn_finished = 3

abbrev pub initial_file_id : ℕ
initial_file_id = 0

abbrev pub non_transaction_seq_no : ℕ
non_transaction_seq_no = 0

abbrev pub max_log_record_header_size : ℕ
max_log_record_header_size = 15

-- The exception classes; `bitcask_exception` is the base class with its message.
pub data Error : Type 0 where
  key_empty key_not_found data_file_not_found database_is_using : Error
  data_directory_corrupted invalid_crc index_update_failed read_data_file_eof : Error
  merge_in_progress merge_ratio_unreached no_enough_space_for_merge : Error
  bitcask_exception : String → Error

-- A call that returns or throws.
pub data Result {ℓ} (A : Type ℓ) : Type ℓ where
  ok : A → Result A
  throw : Error → Result A

infixl 5 ◌>>=◌
abbrev pub ◌>>=◌ {ℓ κ} : {A : Type ℓ} {B : Type κ} → Result A → (A → Result B) → Result B
ok a >>= f = f a
throw e >>= f = throw e
