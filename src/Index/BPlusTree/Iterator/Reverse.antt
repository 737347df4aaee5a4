-- ===== src/Index/BPlusTree/Iterator/Reverse.antt =====
-- The reverse iterator of src/bplus_tree_index.cpp over a tree that holds a map.
use Prim.Native.Nat.{Ordering}
use raft_bitcask.Prelude.{
  ℕ, zero, suc, Bool, Bool-cases, inl, inr, get_or, ◌≡◌, refl, ap, ◌∙◌, true, Option, none, some,
  List, [], ◌∷◌, ◌++◌, reverse, append-nil, get_elem?, All, length, ltb, if◌then◌else◌, arith,
}
use mathlib.Core.List.{reverse_aux}
use raft_bitcask.Common.{Bytes}
use raft_bitcask.Codec.Record.{LogRecordPos}
use raft_bitcask.Index.KeyOrder.{key_compare, lt_trans}
use raft_bitcask.Index.CompareKeys.{is_less, is_less_lem}
use raft_bitcask.Index.BTree.{keys_of}
use raft_bitcask.Index.BTree.Sorted.{Ascending}
use raft_bitcask.Index.BPlusTree.{leftmost}
use raft_bitcask.Index.BPlusTree.Refine.{leaf_of, values_of}
use raft_bitcask.Index.BPlusTree.Iterator.{
  iterator, new_iterator, rewind, init_items, items_of, items_from, key_matches_prefix, seek,
  first_not_less, item, no_pos, found_by, valid, key, value,
}

items_of-leaf : (m : List (Bytes × LogRecordPos)) → items_of [] (keys_of m) (values_of m) ≡ m
unfolding items_of key_matches_prefix keys_of
items_of-leaf [] = refl
items_of-leaf ((k, pos) ∷ rest) = ap (λ t. (k, pos) ∷ t) (items_of-leaf rest)

abbrev Below : List (Bytes × LogRecordPos) → Bytes → Type 0
Below acc key = All (λ d. key_compare d.0 key ≡ Ordering.lt) acc

-- Each key is greater than all behind it.
abbrev Descending : List (Bytes × LogRecordPos) → Type 0
Descending [] = Unit
Descending ((k, pos) ∷ rest) = Below rest k × Descending rest

both-Below :
    (k : Bytes) (pos : LogRecordPos) (acc m : List (Bytes × LogRecordPos))
    → All (λ e. key_compare k e.0 ≡ Ordering.lt) m
    → All (λ e. Below acc e.0) m
    → All (λ e. Below ((k, pos) ∷ acc) e.0) m
both-Below k pos acc [] h g = tt
both-Below k pos acc ((j, p) ∷ m) (h, hs) (g, gs) = ((h, g), both-Below k pos acc m hs gs)

Descending-reverse_aux :
    (m acc : List (Bytes × LogRecordPos))
    → Ascending m
    → Descending acc
    → All (λ e. Below acc e.0) m
    → Descending (reverse_aux m acc)
Descending-reverse_aux [] acc a d b = d
Descending-reverse_aux ((k, pos) ∷ m) acc (above, a) d (b, bs) =
    Descending-reverse_aux m ((k, pos) ∷ acc) a (b, d) (both-Below k pos acc m above bs)

nothing-Below : (m : List (Bytes × LogRecordPos)) → All (λ e. Below [] e.0) m
nothing-Below [] = tt
nothing-Below (e ∷ m) = (tt, nothing-Below m)

all_less :
    (k target : Bytes) (ds : List (Bytes × LogRecordPos))
    → Below ds k
    → is_less k target ≡ true
    → get_elem? ds (first_not_less target ds) ≡ none
unfolding first_not_less
all_less k target [] h e = refl
all_less k target ((j, pos) ∷ ds) (h, hs) e =
    let less : is_less j target ≡ true =
      ground (arith, is_less_lem k target, is_less_lem j target, lt_trans j k target h) in
    rw (first_not_less, less) (all_less k target ds hs e)

-- The greatest item, if it is not less than the key sought.
abbrev pub greatest_if : Bytes → List (Bytes × LogRecordPos) → Option (Bytes × LogRecordPos)
greatest_if target [] = none
greatest_if target ((k, pos) ∷ rest) = if is_less k target then none else some (k, pos)

seek-Descending :
    (target : Bytes) (ds : List (Bytes × LogRecordPos))
    → Descending ds
    → get_elem? ds (first_not_less target ds) ≡ greatest_if target ds
unfolding first_not_less
seek-Descending target [] h = refl
seek-Descending target ((k, pos) ∷ rest) (h, hs) = elim (Bool-cases (is_less k target)) [
  | inl e ↦ rw (first_not_less, e) (all_less k target rest h e)
  | inr e ↦ rw (first_not_less, e) refl
]

item_at_index :
    (items : List (Bytes × LogRecordPos)) (i : ℕ)
    → (if ltb i (length items)
        then some ((get_or items i ([], no_pos)).0, (get_or items i ([], no_pos)).1)
        else none)
      ≡ get_elem? items i
item_at_index [] i = ground arith
item_at_index (x ∷ items) zero = ground arith
item_at_index (x ∷ items) (suc i) = ground (arith, item_at_index items i)

-- A reverse iterator over a leaf that holds a map in ascending order: `seek` goes to the greatest
-- key of all if that is not less than the key sought, and to the end if it is.
pub found_by-reverse :
    (m : List (Bytes × LogRecordPos)) (dirty : Bool) (target : Bytes)
    → Ascending m
    → found_by (leaf_of m dirty) true target ≡ some (greatest_if target (reverse m))
unfolding found_by iterator new_iterator rewind init_items items_from leftmost seek item valid key
    value
found_by-reverse m dirty target h =
    let items : items_of [] (keys_of m) (values_of m) ++ [] ≡ m =
      append-nil (items_of [] (keys_of m) (values_of m)) ∙ items_of-leaf m in
    rw items (
      ap some (
        item_at_index (reverse m) (first_not_less target (reverse m))
        ∙ seek-Descending target (reverse m) (Descending-reverse_aux m [] h tt (nothing-Below m))))
