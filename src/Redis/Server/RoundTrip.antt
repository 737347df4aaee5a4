-- ===== src/Redis/Server/RoundTrip.antt =====
-- The parser of commands on what clients send: an array of bulk strings.
use raft_bitcask.Prelude.{
  ℕ, suc, ◌+◌, ◌<◌, ◌≡◌, ◌^◌, refl, ap, ◌∙◌, true, some, List, [], ◌∷◌, ◌++◌, length, drop,
  append_assoc, append-nil, drop_beyond, length-append, drop-append_self, arith,
}
use raft_bitcask.Common.{Bytes}
use raft_bitcask.Db.FileName.{decimal}
use raft_bitcask.Redis.Server.Responses.{array, crlf, count, serialize, serialize_items}
use raft_bitcask.Redis.Server.Parser.{starts_with, parse_args, parse_single_command}
use raft_bitcask.Redis.Server.BulkStrings.{
  bulk_strings, AllShort, drop_behind, read_number-decimal, parse_args-bulk_strings,
}

count-bulk_strings : (args : List Bytes) → count (bulk_strings args) ≡ length args
count-bulk_strings [] = refl
count-bulk_strings (arg ∷ args) = omega (arith, count-bulk_strings args)

-- The start of a command: the number of its arguments, and some of them.
abbrev pub command_start : ℕ → List Bytes → Bytes
command_start n args = b'*' ∷ (decimal n ++ (crlf ++ serialize_items (bulk_strings args)))

-- Behind the start the loop has the arguments so far, and goes on with those left.
parse_single_command-start :
    (front : Bytes) (k : ℕ) (args : List Bytes) (back : Bytes)
    → length args + k < 2 ^ 31
    → AllShort args
    → length (front ++ (command_start (length args + k) args ++ back)) < 2 ^ 63
    → parse_single_command (front ++ (command_start (length args + k) args ++ back)) (length front)
      ≡ parse_args k
          (front ++ (command_start (length args + k) args ++ back))
          (length front + length (command_start (length args + k) args))
          args
unfolding parse_single_command
parse_single_command-start front k args back few short small =
    let items = serialize_items (bulk_strings args) in
    let n = length args + k in
    let command = command_start n args in
    let bytes = front ++ (command ++ back) in
    let here : drop (length front) bytes ≡ b'*' ∷ (decimal n ++ (crlf ++ (items ++ back))) =
      drop-append_self front (command ++ back)
      ∙ ap (λ t. b'*' ∷ t) (append_assoc (decimal n) (crlf ++ items) back) in
    let line =
      drop_behind bytes (length front) (b'*' ∷ []) (decimal n ++ (crlf ++ (items ++ back))) here in
    let start = length front + 1 + length (decimal n) + 2 in
    let content : drop start bytes ≡ items ++ back =
      drop_behind bytes (length front + 1 + length (decimal n)) crlf (items ++ back)
        (drop_behind bytes (length front + 1) (decimal n) (crlf ++ (items ++ back)) line) in
    let first : starts_with b'*' (drop (length front) bytes) ≡ true = ap (starts_with b'*') here in
    let read = read_number-decimal bytes (length front + 1) n (items ++ back) line few in
    let moved : start + length items ≡ length front + length command =
      omega (arith, length-append (decimal n) (crlf ++ items)) in
    rw (parse_single_command, first, read)
      (parse_args-bulk_strings bytes small args start [] k back short content
        ∙ ap (λ (o : ℕ). parse_args k bytes o args) moved)

-- A command that a client sends as an array of bulk strings, between any other bytes, is parsed to its
-- arguments, and the offset moves behind it: `parse_single_command` reads what `serialize` wrote. There
-- are fewer than 2^31 arguments, the length of each and 2 are below 2^31, and there are fewer than 2^63
-- bytes.
pub parse_single_command-serialize :
    (front : Bytes) (args : List Bytes) (back : Bytes)
    → length args < 2 ^ 31
    → AllShort args
    → length (front ++ (serialize (array (bulk_strings args)) ++ back)) < 2 ^ 63
    → parse_single_command (front ++ (serialize (array (bulk_strings args)) ++ back)) (length front)
      ≡ some (args, length front + length (serialize (array (bulk_strings args))))
unfolding serialize parse_args
parse_single_command-serialize front args back few short small =
    let n : length args + 0 ≡ count (bulk_strings args) = omega (arith, count-bulk_strings args) in
    rw n at (parse_single_command-start front 0 args back (omega (arith, few)) short (rw n small))

-- Where the received bytes end behind an argument and others are to come, `parse_single_command` returns
-- no command, but moves the offset to the end of the bytes. There are
-- fewer than 2^31 arguments, the length of each so far and 2 are below 2^31, and there are fewer than
-- 2^63 bytes.
pub parse_single_command_cut :
    (front : Bytes) (k : ℕ) (args : List Bytes)
    → length args + suc k < 2 ^ 31
    → AllShort args
    → length (front ++ command_start (length args + suc k) args) < 2 ^ 63
    → parse_single_command (front ++ command_start (length args + suc k) args) (length front)
      ≡ some ([], length (front ++ command_start (length args + suc k) args))
unfolding parse_args starts_with
parse_single_command_cut front k args few short small =
    let command = command_start (length args + suc k) args in
    let whole : front ++ (command ++ []) ≡ front ++ command =
      ap (λ t. front ++ t) (append-nil command) in
    let size = length-append front command in
    let nothing : drop (length front + length command) (front ++ command) ≡ [] =
      drop_beyond (length front + length command) (front ++ command) (omega (arith, size)) in
    let run =
      rw whole at (parse_single_command-start front (suc k) args [] few short (rw whole small)) in
    run ∙ rw (parse_args, nothing, size) refl
