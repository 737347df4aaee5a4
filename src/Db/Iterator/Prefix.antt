-- ===== src/Db/Iterator/Prefix.antt =====
-- Where `rewind` puts an iterator with a prefix.
use Prim.Native.Nat.{Ordering}
use raft_bitcask.Prelude.{
  ℕ, ◌≡◌, refl, ap, Bool, true, false, ◌&&◌, ◌||◌, none, some, List, [], ◌∷◌, length, get_elem?,
  reverse, ltb, arith, Bool-cases, inl, inr,
}
use raft_bitcask.Common.{Bytes, Result, ok, throw, ◌>>=◌, bitcask_exception}
use raft_bitcask.Codec.Record.{LogRecordPos}
use raft_bitcask.Storage.FileSystem.{Calls}
use raft_bitcask.Index.KeyOrder.{key_compare}
use raft_bitcask.Index.BTree.Sorted.{IsSorted, Ascending, Above}
use raft_bitcask.Index.BTree.Iterator
use raft_bitcask.Index.BTree.Iterator.{BTreeIterator, key_le, first_index}
use raft_bitcask.Db.{Db}
use raft_bitcask.Db.Iterator.{
  new_iterator, rewind, to_prefix, has_prefix, matches, valid, current, key,
}

prefix_le : (p k : Bytes) → has_prefix p k ≡ true → key_le p k ≡ true
unfolding has_prefix key_le key_compare
prefix_le [] [] e = refl
prefix_le [] (y ∷ ys) e = refl
prefix_le (x ∷ xs) [] e = cc
prefix_le (x ∷ xs) (y ∷ ys) e = ground (arith, prefix_le xs ys)

-- Behind a key that is not less than the prefix and has not the prefix, no key has it.
prefix_between :
    (p k j : Bytes)
    → key_le p k ≡ true
    → has_prefix p k ≡ false
    → key_compare k j ≡ Ordering.lt
    → has_prefix p j ≡ false
unfolding has_prefix key_le key_compare
prefix_between [] k j le lacks lt = cc
prefix_between (x ∷ xs) [] j le lacks lt = cc
prefix_between (x ∷ xs) (y ∷ ys) [] le lacks lt = refl
prefix_between (x ∷ xs) (y ∷ ys) (z ∷ zs) le lacks lt = ground (arith, prefix_between xs ys zs)

prefix_least : (p k : Bytes) → has_prefix p k ≡ true → key_le k p ≡ true → k ≡ p
unfolding has_prefix key_le key_compare
prefix_least [] [] e le = refl
prefix_least [] (y ∷ ys) e le = cc
prefix_least (x ∷ xs) [] e le = cc
prefix_least (x ∷ xs) (y ∷ ys) e le = ground (arith, prefix_least xs ys)

-- Some key has the prefix.
abbrev pub some_key_has : Bytes → List (Bytes × LogRecordPos) → Bool
some_key_has p [] = false
some_key_has p ((k, pos) ∷ rest) = has_prefix p k || some_key_has p rest

none-Above :
    (p k : Bytes) (m : List (Bytes × LogRecordPos))
    → key_le p k ≡ true
    → has_prefix p k ≡ false
    → Above k m
    → some_key_has p m ≡ false
none-Above p k [] le lacks above = refl
none-Above p k ((j, pos) ∷ rest) le lacks (lt, above) =
    ground (arith, prefix_between p k j le lacks lt, none-Above p k rest le lacks above)

-- The tests of `valid` on the item at an index.
abbrev matches_at : Bytes → List (Bytes × LogRecordPos) → ℕ → Bool
matches_at p m i = matches p (elim (get_elem? m i) [
  | none ↦ throw (bitcask_exception "Iterator is not valid")
  | some item ↦ ok item
])

-- The item that `seek` finds in ascending order has the prefix if any item has it.
matches_at-seek :
    (p : Bytes) (m : List (Bytes × LogRecordPos))
    → Ascending m
    → (ltb (first_index (λ k. key_le p k) m) (length m)
        && matches_at p m (first_index (λ k. key_le p k) m))
      ≡ some_key_has p m
unfolding first_index matches
matches_at-seek p [] h = refl
matches_at-seek p ((k, pos) ∷ rest) (above, h) = elim (Bool-cases (key_le p k)) [
  | inl le ↦ elim (Bool-cases (has_prefix p k)) [
    | inl has ↦ rw (le, has) (ground arith)
    | inr lacks ↦ rw (le, lacks, none-Above p k rest le lacks above) (ground arith)
  ]
  | inr gt ↦
      let lacks : has_prefix p k ≡ false = ground (arith, prefix_le p k) in
      rw (gt, lacks) (ground (arith, matches_at-seek p rest h))
]

-- The item under an index, as `current` returns it.
abbrev item_at : List (Bytes × LogRecordPos) → ℕ → Result (Bytes × LogRecordPos)
item_at m i = elim (get_elem? m i) [
  | none ↦ throw (bitcask_exception "Iterator is not valid")
  | some item ↦ ok item
]

-- The item that `seek` finds in descending order has the prefix only if its key is the prefix.
item_at-seek :
    (p : Bytes) (m : List (Bytes × LogRecordPos))
    → matches p (item_at m (first_index (λ k. key_le k p) m)) ≡ true
    → (item_at m (first_index (λ k. key_le k p) m) >>= λ item. ok item.0) ≡ ok p
unfolding first_index matches
item_at-seek p [] e = cc
item_at-seek p ((k, pos) ∷ rest) e = elim (Bool-cases (key_le k p)) [
  | inl le ↦ let has : has_prefix p k ≡ true = rw le at e in rw le (ap ok (prefix_least p k has le))
  | inr gt ↦ rw gt (item_at-seek p rest (rw gt at e))
]

and_right : (a b : Bool) → (a && b) ≡ true → b ≡ true
and_right true b e = e
and_right false b e = cc

module _ {os : Calls} (db : Db os) (x : ℕ) (xs : Bytes) where
  -- A forward iterator with a prefix that is not empty, over an index in ascending order: behind
  -- `rewind` it is valid if and only if some key of the index has the prefix.
  pub valid-rewind :
      IsSorted db.index
      → valid (rewind (new_iterator db (record { prefix = x ∷ xs; reverse = false })))
        ≡ some_key_has (x ∷ xs) db.index.tree
  unfolding valid rewind new_iterator to_prefix Iterator.iterator Iterator.rewind Iterator.seek
      Iterator.valid Iterator.current
  valid-rewind h = matches_at-seek (x ∷ xs) db.index.tree h

  -- A reverse iterator with a prefix that is not empty: where it is valid behind `rewind`, it stands at
  -- the key that is the prefix itself, so longer keys with the prefix are not seen.
  pub key-rewind :
      valid (rewind (new_iterator db (record { prefix = x ∷ xs; reverse = true }))) ≡ true
      → key (rewind (new_iterator db (record { prefix = x ∷ xs; reverse = true }))) ≡ ok (x ∷ xs)
  unfolding key current valid rewind new_iterator to_prefix Iterator.iterator Iterator.rewind
      Iterator.seek Iterator.valid Iterator.current
  key-rewind e =
      rw (key, current, e) (item_at-seek (x ∷ xs) (reverse db.index.tree) (and_right _ _ e))
