-- ===== src/Tests/Server.antt =====
-- Commands as clients send them.
use raft_bitcask.Prelude.{◌+◌, ◌≤◌, ◌≡◌, some, [], ◌∷◌, ◌++◌, length, length-append, arith}
use raft_bitcask.Common.{Bytes}
use raft_bitcask.Db.FileName.{decimal, length-decimal}
use raft_bitcask.Redis.Server.Responses.{array, bulk_string, serialize, serialize_items, crlf}
use raft_bitcask.Redis.Server.Parser.{parse_single_command}
use raft_bitcask.Redis.Server.BulkStrings.{bulk_strings, length-bulk_string}
use raft_bitcask.Redis.Server.RoundTrip.{
  parse_single_command-serialize, command_start, parse_single_command_cut,
}

-- `PING`
abbrev ping : Bytes
ping = 80 ∷ 73 ∷ 78 ∷ 71 ∷ []

abbrev ping_command : Bytes
ping_command = serialize (array (bulk_strings (ping ∷ [])))

ping_size : length ping_command ≤ 100
unfolding serialize
ping_size =
    let bulk = serialize (bulk_string ping) in
    omega (
      arith,
      length-append (decimal 1) (crlf ++ (bulk ++ [])),
      length-append bulk [],
      length-bulk_string ping,
      length-decimal 1 (omega arith),
      length-decimal 4 (omega arith),
    )

-- With a byte in front and one behind.
parse_single_command-serialize_example :
    parse_single_command ((0 ∷ []) ++ (ping_command ++ (42 ∷ []))) 1
    ≡ some (ping ∷ [], 1 + length ping_command)
parse_single_command-serialize_example =
    parse_single_command-serialize (0 ∷ []) (ping ∷ []) (42 ∷ []) (omega arith) (omega arith, tt)
      (omega (arith, ping_size, length-append ping_command (42 ∷ [])))

cut_size : length (serialize_items (bulk_strings (ping ∷ []))) ≤ 50
unfolding serialize_items
cut_size = omega (
  arith,
  length-append (serialize (bulk_string ping)) [],
  length-bulk_string ping,
  length-decimal 4 (omega arith),
)

-- The first argument of two.
parse_single_command_cut_example :
    parse_single_command ([] ++ command_start 2 (ping ∷ [])) 0
    ≡ some ([], length ([] ++ command_start 2 (ping ∷ [])))
parse_single_command_cut_example =
    parse_single_command_cut [] 0 (ping ∷ []) (omega arith) (omega arith, tt)
      (omega (
        arith,
        length-append (decimal 2) (crlf ++ serialize_items (bulk_strings (ping ∷ []))),
        cut_size,
        length-decimal 2 (omega arith),
      ))
