-- ===== src/Redis/Lists/Commands.antt =====
-- Sequences of commands on one list, against sequences of elements.
use raft_bitcask.Prelude.{ℕ, ◌+◌, ◌≤◌, ◌≡◌, refl, ap, List, [], ◌∷◌, ◌++◌, length, arith}
use raft_bitcask.Common.{Bytes, IsU64, Result, ok, throw, key_not_found}
use raft_bitcask.Exec.{Exec, pure, ◌>>=◌}
use raft_bitcask.Storage.DataFile.{max_record_size}
use raft_bitcask.Redis.DataType
use raft_bitcask.Redis.Store.{Store, IsMap}
use raft_bitcask.Redis.Service.{Service, find_metadata}
use raft_bitcask.Redis.Lists.{lpush, rpush, lpop, rpop}
use raft_bitcask.Redis.Lists.Represents.{Deque, Deque-le, IsListKey}
use raft_bitcask.Redis.Lists.Push.{push_room, lpush-Deque, rpush-Deque}
use raft_bitcask.Redis.Lists.Pop.{pop_room, lpop-Deque, rpop-Deque, pop_empty}

pub data Command : Type 0 where
  left_push : Bytes → Command
  right_push : Bytes → Command
  left_pop : Command
  right_pop : Command

pub data Reply : Type 0 where
  count : ℕ → Reply
  element : Bytes → Reply

-- The elements before the last, and the last.
abbrev split_last : Bytes → List Bytes → List Bytes × Bytes
split_last x [] = ([], x)
split_last x (y ∷ ys) = let (front, last) = split_last y ys in (x ∷ front, last)

split_last_lem :
    (x : Bytes) (xs : List Bytes) → (split_last x xs).0 ++ (split_last x xs).1 ∷ [] ≡ x ∷ xs
split_last_lem x [] = refl
split_last_lem x (y ∷ ys) = ap (λ t. x ∷ t) (split_last_lem y ys)

-- What a command does to a sequence, with its reply.
abbrev pub answer : Command → List Bytes → Result Reply × List Bytes
answer (left_push x) xs = (ok (count (length xs + 1)), x ∷ xs)
answer (right_push x) xs = (ok (count (length xs + 1)), xs ++ x ∷ [])
answer left_pop [] = (throw key_not_found, [])
answer left_pop (x ∷ xs) = (ok (element x), xs)
answer right_pop [] = (throw key_not_found, [])
answer right_pop (x ∷ xs) = let (front, last) = split_last x xs in (ok (element last), front)

abbrev pub answers : List Command → List Bytes → List (Result Reply) × List Bytes
answers [] xs = ([], xs)
answers (c ∷ cs) xs =
    let (reply, xs') = answer c xs in let (replies, out) = answers cs xs' in (reply ∷ replies, out)

-- Log bytes that are enough for a command, and for several.
abbrev pub command_room : Bytes → Command → ℕ
command_room key (left_push x) = push_room key x
command_room key (right_push x) = push_room key x
command_room key left_pop = pop_room key
command_room key right_pop = pop_room key

abbrev pub commands_room : Bytes → List Command → ℕ
commands_room key [] = 0
commands_room key (c ∷ cs) = command_room key c + commands_room key cs

-- The elements of the pushes are short enough for a record.
abbrev pub IsSmall : Command → Type 0
IsSmall (left_push x) = length x ≤ max_record_size
IsSmall (right_push x) = length x ≤ max_record_size
IsSmall left_pop = Unit
IsSmall right_pop = Unit

abbrev pub AllSmall : List Command → Type 0
AllSmall [] = Unit
AllSmall (c ∷ cs) = IsSmall c × AllSmall cs

module _ {store : Store} (now : ℕ → ℕ) (key : Bytes) where
  unfoldable pub execute : Command → Exec (Service store) Reply
  execute (left_push x) = lpush store now key x >>= λ n. pure (count n)
  execute (right_push x) = rpush store now key x >>= λ n. pure (count n)
  execute left_pop = lpop store now key >>= λ x. pure (element x)
  execute right_pop = rpop store now key >>= λ x. pure (element x)

  -- The commands one after the other; one that throws does not end the sequence.
  unfoldable pub execute_all : List Command → Service store → List (Result Reply) × Service store
  unfolding execute
  execute_all [] s = ([], s)
  execute_all (c ∷ cs) s =
      let (reply, s') = execute c s in
      let (replies, out) = execute_all cs s' in (reply ∷ replies, out)

module _ {store : Store} (laws : IsMap store) (now : ℕ → ℕ) (key : Bytes)
    (legal : IsListKey laws now key) (clock : (t : ℕ) → IsU64 (now t)) where
  execute-Deque :
      (c : Command) (s : Service store) (xs : List Bytes) (n k : ℕ)
      → IsSmall c
      → Deque laws now key s xs (command_room key c + n) (k + 1)
      → ((execute now key c s).0 ≡ (answer c xs).0)
        × Deque laws now key (execute now key c s).1 (answer c xs).1 n k
  unfolding execute
  execute-Deque (left_push x) s xs n k small q =
      let (done, q') = lpush-Deque laws now key legal clock s x xs n k small q in rw done (refl, q')
  execute-Deque (right_push x) s xs n k small q =
      let (done, q') = rpush-Deque laws now key legal clock s x xs n k small q in rw done (refl, q')
  execute-Deque left_pop s [] n k small q =
      let (at_left, at_right, q') = pop_empty laws now key legal s (pop_room key + n) (k + 1) q in
      rw at_left (
        refl,
        Deque-le laws now key (find_metadata store now key DataType.list s).1 [] (pop_room key + n)
            n (k + 1) k q' (omega arith) (omega arith),
      )
  execute-Deque left_pop s (x ∷ xs) n k small q =
      let (done, q') = lpop-Deque laws now key legal clock s x xs n k q in rw done (refl, q')
  execute-Deque right_pop s [] n k small q =
      let (at_left, at_right, q') = pop_empty laws now key legal s (pop_room key + n) (k + 1) q in
      rw at_right (
        refl,
        Deque-le laws now key (find_metadata store now key DataType.list s).1 [] (pop_room key + n)
            n (k + 1) k q' (omega arith) (omega arith),
      )
  execute-Deque right_pop s (x ∷ xs) n k small q =
      let (done, q') =
        rpop-Deque laws now key legal clock s (split_last x xs).1 (split_last x xs).0 n k
          (rw (split_last_lem x xs) q) in
      rw done (refl, q')

  -- Any sequence of pushes and pops on a list of the database gives the replies that it gives on a
  -- sequence of elements, and leaves under the key what it leaves of the sequence. This needs a clock of
  -- 64 bits, a key and elements short enough for a record, room in the log for the commands, and as many
  -- operations left before an index or the size leaves its width.
  pub execute_all-answers :
      (cs : List Command) (s : Service store) (xs : List Bytes) (n k : ℕ)
      → AllSmall cs
      → Deque laws now key s xs (commands_room key cs + n) (length cs + k)
      → ((execute_all now key cs s).0 ≡ (answers cs xs).0)
        × Deque laws now key (execute_all now key cs s).1 (answers cs xs).1 n k
  unfolding execute_all
  execute_all-answers [] s xs n k small q =
      (refl, Deque-le laws now key s xs _ n _ k q (omega arith) (omega arith))
  execute_all-answers (c ∷ cs) s xs n k (first, rest) q =
      let (reply, q') = execute-Deque c s xs (commands_room key cs + n) (length cs + k) first (
        Deque-le laws now key s xs _ (command_room key c + (commands_room key cs + n)) _
          (length cs + k + 1) q (omega arith) (omega arith)) in
      let (replies, q'') =
        execute_all-answers cs (execute now key c s).1 (answer c xs).1 n k rest q' in
      rw (reply, replies) (refl, q'')
