-- ===== src/Index/BTree/Laws.antt =====
-- The index as a map from keys to positions.
use raft_bitcask.Prelude.{
  ◌≡◌, refl, true, false, none, some, List, [], ◌∷◌, if◌then◌else◌, arith, Option-cases, inl, inr,
}
use raft_bitcask.Common.{Bytes}
use raft_bitcask.Codec.Record.{LogRecordPos}
use raft_bitcask.Index.KeyOrder.{
  key_compare, key_eq, key_eq_self, eq_of_key_eq, eq_of_key_compare, key_compare_self,
  Ordering-cases,
}
use raft_bitcask.Index.BTree.{BTreeIndex, find, assign, erase, put, get, remove, new_index}

find-assign :
    (key j : Bytes) (pos : LogRecordPos) (m : List (Bytes × LogRecordPos))
    → find j (assign key pos m) ≡ (if key_eq key j then some pos else find j m)
unfolding find assign
find-assign key j pos [] = refl
find-assign key j pos ((k, old) ∷ rest) = elim (Ordering-cases (key_compare key k)) [
  | inl (inl lt) ↦ rw (assign, lt) refl
  | inl (inr same) ↦ rw (assign, same) (ground (arith, eq_of_key_compare key k))
  | inr gt ↦
      rw (assign, gt)
        (ground (
          arith,
          find-assign key j pos rest,
          eq_of_key_eq k j,
          eq_of_key_eq key j,
          key_compare_self key,
        ))
]

find-erase :
    (key j : Bytes) (m : List (Bytes × LogRecordPos))
    → find j (erase key m) ≡ (if key_eq key j then none else find j m)
unfolding find erase
find-erase key j [] = ground arith
find-erase key j ((k, pos) ∷ rest) = ground (
  arith,
  find-erase key j rest,
  eq_of_key_eq k key,
  eq_of_key_eq k j,
  eq_of_key_eq key j,
  key_eq_self key,
)

-- After `put`, `get` of the key gives the new position, and of any other key what it gave before;
-- `put` itself returns what `get` gave.
pub get-put :
    (index : BTreeIndex) (key j : Bytes) (pos : LogRecordPos)
    → (get (put index key pos).1 j ≡ (if key_eq key j then some pos else get index j))
      × ((put index key pos).0 ≡ get index key)
unfolding get put
get-put index key j pos = (find-assign key j pos index.tree, refl)

-- After `remove`, `get` of the key gives nothing, and of any other key what it gave before; `remove`
-- returns what `get` gave, with the flag whether there was such a key.
pub get-remove :
    (index : BTreeIndex) (key j : Bytes)
    → (get (remove index key).1 j ≡ (if key_eq key j then none else get index j))
      × ((remove index key).0.0 ≡ get index key)
      × ((remove index key).0.1 ≡ elim (get index key) [ none ↦ false | some _ ↦ true ])
unfolding get remove
get-remove index key j = elim (Option-cases (find key index.tree)) [
  | inl e ↦ rw (remove, e) (ground (arith, eq_of_key_eq key j), refl, refl)
  | inr (old, e) ↦ rw (remove, e) (find-erase key j index.tree, refl, refl)
]

pub get-new_index : (key : Bytes) → get new_index key ≡ none
unfolding get find
get-new_index key = refl
