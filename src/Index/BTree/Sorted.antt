-- ===== src/Index/BTree/Sorted.antt =====
-- The tree keeps its keys in ascending order, each of them once.
use Prim.Native.Nat.{Ordering}
use raft_bitcask.Prelude.{◌≡◌, List, [], ◌∷◌, All, inl, inr, Bool-cases, Option-cases}
use raft_bitcask.Common.{Bytes}
use raft_bitcask.Codec.Record.{LogRecordPos}
use raft_bitcask.Index.KeyOrder.{key_compare, key_eq, lt_of_gt, lt_trans, Ordering-cases}
use raft_bitcask.Index.BTree.{BTreeIndex, assign, erase, put, remove, find}

abbrev pub Above : Bytes → List (Bytes × LogRecordPos) → Type 0
Above key m = All (λ e. key_compare key e.0 ≡ Ordering.lt) m

-- Each key stands in front of all that are greater.
abbrev pub Ascending : List (Bytes × LogRecordPos) → Type 0
Ascending [] = Unit
Ascending ((k, pos) ∷ rest) = Above k rest × Ascending rest

abbrev pub IsSorted : BTreeIndex → Type 0
IsSorted index = Ascending index.tree

Above-trans :
    (a b : Bytes) (m : List (Bytes × LogRecordPos))
    → key_compare a b ≡ Ordering.lt
    → Above b m
    → Above a m
Above-trans a b [] h k = tt
Above-trans a b ((c, pos) ∷ rest) h (k, ks) = (lt_trans a b c h k, Above-trans a b rest h ks)

Above-assign :
    (a key : Bytes) (pos : LogRecordPos) (m : List (Bytes × LogRecordPos))
    → key_compare a key ≡ Ordering.lt
    → Above a m
    → Above a (assign key pos m)
unfolding assign
Above-assign a key pos [] h k = (h, tt)
Above-assign a key pos ((c, old) ∷ rest) h (k, ks) = elim (Ordering-cases (key_compare key c)) [
  | inl (inl lt) ↦ rw (assign, lt) (h, (k, ks))
  | inl (inr same) ↦ rw (assign, same) (k, ks)
  | inr gt ↦ rw (assign, gt) (k, Above-assign a key pos rest h ks)
]

Ascending-assign :
    (key : Bytes) (pos : LogRecordPos) (m : List (Bytes × LogRecordPos))
    → Ascending m
    → Ascending (assign key pos m)
unfolding assign
Ascending-assign key pos [] h = (tt, tt)
Ascending-assign key pos ((c, old) ∷ rest) (above, sorted) =
    elim (Ordering-cases (key_compare key c)) [
      | inl (inl lt) ↦ rw (assign, lt) ((lt, Above-trans key c rest lt above), (above, sorted))
      | inl (inr same) ↦ rw (assign, same) (above, sorted)
      | inr gt ↦
          rw (assign, gt)
            (
              Above-assign c key pos rest (lt_of_gt key c gt) above,
              Ascending-assign key pos rest sorted,
            )
    ]

Above-erase : (a key : Bytes) (m : List (Bytes × LogRecordPos)) → Above a m → Above a (erase key m)
unfolding erase
Above-erase a key [] h = tt
Above-erase a key ((c, old) ∷ rest) (h, hs) = elim (Bool-cases (key_eq c key)) [
  | inl e ↦ rw (erase, e) (Above-erase a key rest hs)
  | inr e ↦ rw (erase, e) (h, Above-erase a key rest hs)
]

pub Ascending-erase :
    (key : Bytes) (m : List (Bytes × LogRecordPos)) → Ascending m → Ascending (erase key m)
unfolding erase
Ascending-erase key [] h = tt
Ascending-erase key ((c, old) ∷ rest) (above, sorted) = elim (Bool-cases (key_eq c key)) [
  | inl e ↦ rw (erase, e) (Ascending-erase key rest sorted)
  | inr e ↦ rw (erase, e) (Above-erase c key rest above, Ascending-erase key rest sorted)
]

-- `put` keeps the keys in ascending order without repetition.
pub put-IsSorted :
    (index : BTreeIndex) (key : Bytes) (pos : LogRecordPos)
    → IsSorted index
    → IsSorted (put index key pos).1
unfolding put
put-IsSorted index key pos h = Ascending-assign key pos index.tree h

-- So does `remove`, whether or not the key is there.
pub remove-IsSorted :
    (index : BTreeIndex) (key : Bytes) → IsSorted index → IsSorted (remove index key).1
unfolding remove
remove-IsSorted index key h = elim (Option-cases (find key index.tree)) [
  | inl e ↦ rw (remove, e) h
  | inr (old, e) ↦ rw (remove, e) (Ascending-erase key index.tree h)
]
