-- ===== src/Redis/Server/Parser.antt =====
-- `parse_single_command` of src/redis_server.cpp. The offset is passed by reference in the source, and
-- is here a part of what is returned, also where the data is incomplete.
use raft_bitcask.Prelude.{
  ℕ, zero, suc, ◌+◌, ◌%◌, ◌-◌, ◌^◌, Bool, true, false, ◌&&◌, Option, none, some, List, [], ◌∷◌,
  ◌++◌, length, take, drop, ltb, ◌==◌, if◌then◌else◌,
}
use raft_bitcask.Common.{Bytes}
use raft_bitcask.Redis.Service.{add_64}
use raft_bitcask.Redis.Server.Numbers.{Number, plus, minus, stoi}

-- `data[offset] == c`, and not behind the end.
unfoldable pub starts_with : ℕ → Bytes → Bool
starts_with c [] = false
starts_with c (x ∷ xs) = x == c

-- `data.find("\r\n")` from the start.
unfoldable pub find_crlf : Bytes → Option ℕ
find_crlf [] = none
find_crlf (x ∷ xs) =
    let later = find_crlf xs in
    if (x == 13) && starts_with 10 xs
    then some 0
    else elim later [ none ↦ none | some i ↦ some (suc i) ]

-- A line with a number: cut off, without a number, or read, with the offset behind it.
pub data Line : Type 0 where
  incomplete bad_number : Line
  number : Number → ℕ → Line

unfoldable pub read_number : Bytes → ℕ → Line
unfolding find_crlf stoi
read_number bytes offset = elim (find_crlf (drop offset bytes)) [
  | none ↦ incomplete
  | some i ↦ elim (stoi (take i (drop offset bytes))) [
    | none ↦ bad_number
    | some v ↦ number v (offset + i + 2)
  ]
]

-- The conversion of `int` to `size_t`.
abbrev pub to_size : Number → ℕ
to_size (plus n) = n
to_size (minus n) = (2 ^ 64 - n) % 2 ^ 64

-- `str_length + 2`, a sum of type `int`, as it is added to a `size_t`. Where it overflows, which leaves
-- open what the program does, the sum wraps around.
unfoldable pub plus_two : Number → ℕ
plus_two (plus n) = if ltb (n + 2) (2 ^ 31) then n + 2 else (2 ^ 64 - 2 ^ 32 + n + 2) % 2 ^ 64
plus_two (minus n) = (2 ^ 64 - n + 2) % 2 ^ 64

-- The rounds of the loop `i < arg_count`.
abbrev pub rounds : Number → ℕ
rounds (plus n) = n
rounds (minus n) = 0

-- The loop over the arguments: none where `std::stoi` throws.
unfoldable pub parse_args : ℕ → Bytes → ℕ → List Bytes → Option (List Bytes × ℕ)
unfolding starts_with read_number plus_two
parse_args zero bytes offset args = some (args, offset)
parse_args (suc n) bytes offset args = elim (starts_with b'$' (drop offset bytes)) [
  | false ↦ some ([], offset)
  | true ↦ elim (read_number bytes (offset + 1)) [
    | incomplete ↦ some ([], offset + 1)
    | bad_number ↦ none
    | number v start ↦ elim (ltb (length bytes) (add_64 (add_64 start (to_size v)) 2)) [
      | true ↦ some ([], start)
      | false ↦
          parse_args n bytes (add_64 start (plus_two v))
            (args ++ take (to_size v) (drop start bytes) ∷ [])
    ]
  ]
]

-- `parse_single_command`: the arguments of a command, empty where it is not whole.
unfoldable pub parse_single_command : Bytes → ℕ → Option (List Bytes × ℕ)
unfolding parse_args
parse_single_command bytes offset = elim (starts_with b'*' (drop offset bytes)) [
  | false ↦ some ([], offset)
  | true ↦ elim (read_number bytes (offset + 1)) [
    | incomplete ↦ some ([], offset + 1)
    | bad_number ↦ none
    | number v start ↦ parse_args (rounds v) bytes start []
  ]
]
