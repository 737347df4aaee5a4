-- ===== src/Db/Iterator.antt =====
-- src/iterator.cpp: `DBIterator`, the iterator of the index with a prefix for the keys; and `DB::fold`
-- of src/db.cpp, which runs over the iterator of the index.
pub mod Prefix
use raft_bitcask.Prelude.{
  ℕ, Bool, true, false, ◌&&◌, Option, none, some, List, [], ◌∷◌, ◌==◌, if◌then◌else◌,
}
use raft_bitcask.Common.{Bytes, Error, Result, ok, throw, ◌>>=◌, bitcask_exception}
use raft_bitcask.Codec.Record.{LogRecordPos}
use raft_bitcask.Storage.FileSystem.{Calls}
use raft_bitcask.Index.BTree.Iterator
use raft_bitcask.Index.BTree.Iterator.{BTreeIterator}
use raft_bitcask.Db.{Db, get_value_by_position}

pub record IteratorOptions : Type 0 where
  pub prefix : Bytes
  pub reverse : Bool

-- `index_iter_` is empty behind `close`.
pub record DbIterator : Type 0 where
  pub options : IteratorOptions
  pub index_iter : Option BTreeIterator

-- `DB::iterator`
unfoldable pub new_iterator : {os : Calls} → Db os → IteratorOptions → DbIterator
unfolding Iterator.iterator
new_iterator db options = record {
  options = options;
  index_iter = some (Iterator.iterator db.index options.reverse);
}

-- `DBIterator::seek`
unfoldable pub seek : DbIterator → Bytes → DbIterator
seek it key = elim it.index_iter [
  | none ↦ it
  | some index_iter ↦ record it { index_iter = some (Iterator.seek index_iter key) }
]

-- Behind `index_iter_->rewind()`, the move to a prefix that is not empty.
unfoldable pub to_prefix : Bytes → BTreeIterator → BTreeIterator
to_prefix [] index_iter = index_iter
to_prefix (x ∷ xs) index_iter = Iterator.seek index_iter (x ∷ xs)

-- `DBIterator::rewind`
unfoldable pub rewind : DbIterator → DbIterator
unfolding to_prefix
rewind it = elim it.index_iter [
  | none ↦ it
  | some index_iter ↦ record it {
    index_iter = some (to_prefix it.options.prefix (Iterator.rewind index_iter));
  }
]

-- `DBIterator::next`
unfoldable pub next : DbIterator → DbIterator
next it = elim it.index_iter [
  | none ↦ it
  | some index_iter ↦ record it { index_iter = some (Iterator.next index_iter) }
]

-- The comparison of lengths and bytes in `valid`.
unfoldable pub has_prefix : Bytes → Bytes → Bool
has_prefix [] key = true
has_prefix (x ∷ xs) [] = false
has_prefix (x ∷ xs) (y ∷ ys) = (y == x) && has_prefix xs ys

unfoldable pub matches : Bytes → Result (Bytes × LogRecordPos) → Bool
matches prefix (ok item) = has_prefix prefix item.0
matches prefix (throw e) = false

-- `DBIterator::valid`
unfoldable pub valid : DbIterator → Bool
unfolding matches
valid it = elim it.index_iter [
  | none ↦ false
  | some index_iter ↦
      Iterator.valid index_iter && matches it.options.prefix (Iterator.current index_iter)
]

-- The item of `index_iter_`, where the iterator is valid.
unfoldable pub current : DbIterator → Result (Bytes × LogRecordPos)
unfolding valid
current it = elim it.index_iter [
  | none ↦ throw (bitcask_exception "Iterator is not valid")
  | some index_iter ↦
      if valid it
      then Iterator.current index_iter
      else throw (bitcask_exception "Iterator is not valid")
]

-- `DBIterator::key`
unfoldable pub key : DbIterator → Result Bytes
unfolding current
key it = current it >>= λ item. ok item.0

-- `DBIterator::value`
unfoldable pub value : {os : Calls} → Db os → DbIterator → Result Bytes
unfolding current
value db it = current it >>= λ item. get_value_by_position db item.1

-- `DBIterator::close`
unfoldable pub close : DbIterator → DbIterator
close it = record it { index_iter = none }

-- The loop of `DB::fold` over the items of a forward iterator; the callback changes a state `s` and
-- tells whether to go on.
unfoldable pub fold_items :
    {os : Calls} {S : Type 0}
    → Db os
    → (Bytes → Bytes → S → Bool × S)
    → List (Bytes × LogRecordPos)
    → S
    → Result (Unit {0}) × S
fold_items db func [] s = (ok tt, s)
fold_items db func ((k, pos) ∷ rest) s = elim (get_value_by_position db pos) [
  | throw e ↦ (throw e, s)
  | ok v ↦ let (more, s') = func k v s in if more then fold_items db func rest s' else (ok tt, s')
]

-- `DB::fold`
unfoldable pub fold :
    {os : Calls} {S : Type 0} → Db os → (Bytes → Bytes → S → Bool × S) → S → Result (Unit {0}) × S
unfolding fold_items
fold db func s = fold_items db func (Iterator.iterator db.index false).items s
