-- ===== src/Index/BPlusTree/Refine.antt =====
-- The tree of src/bplus_tree_index.cpp never splits its one leaf, and is the ordered map of
-- src/index.cpp laid out in two vectors.
use Prim.Native.Nat.{Ordering}
use raft_bitcask.Prelude.{
  ℕ, suc, ◌≤◌, ◌≡◌, ◌<◌, ◌^◌, refl, ap, ◌∙◌, Bool, true, false, none, some, List, [], ◌∷◌, length,
  get_elem?, All, if◌then◌else◌, arith, Bool-cases, inl, inr,
}
use raft_bitcask.Common.{Bytes}
use raft_bitcask.Codec.Record.{LogRecordPos}
use raft_bitcask.Index.KeyOrder.{
  key_compare, key_eq, eq_of_key_eq, lt_of_gt, Ordering-cases, lt_trans,
}
use raft_bitcask.Index.CompareKeys.{is_less, is_equal, is_less_lem, is_equal_lem, gt_of_lt, eq_flip}
use raft_bitcask.Index.BTree.{find, assign, erase, keys_of}
use raft_bitcask.Index.BTree.Sorted.{Ascending, Above}
use raft_bitcask.Index.BPlusTree.{
  BPlusTreeNode, node, no_child, null, leaf, is_at, has_at, insert_at, erase_at, set_at,
  find_key_position, insert_to_leaf, delete_from_leaf, at_leaf, find_leaf, put, get, get_in, remove,
}
use raft_bitcask.Index.BPlusTree.Search.{
  lower_bound, IsAscending, find_key_position-lower_bound, is_at-has_at,
}

abbrev pub values_of : List (Bytes × LogRecordPos) → List LogRecordPos
values_of [] = []
values_of ((k, pos) ∷ rest) = pos ∷ values_of rest

-- The leaf that holds the entries of the map.
abbrev pub leaf_of : List (Bytes × LogRecordPos) → Bool → BPlusTreeNode
leaf_of m dirty = node leaf (keys_of m) (values_of m) no_child null dirty

pub length-keys_of : (m : List (Bytes × LogRecordPos)) → length (keys_of m) ≡ length m
unfolding keys_of
length-keys_of [] = refl
length-keys_of ((k, pos) ∷ rest) = ap suc (length-keys_of rest)

Above-keys_of :
    (key : Bytes) (m : List (Bytes × LogRecordPos))
    → Above key m
    → All (λ j. key_compare key j ≡ Ordering.lt) (keys_of m)
unfolding keys_of
Above-keys_of key [] h = tt
Above-keys_of key ((k, pos) ∷ rest) (h, hs) = (h, Above-keys_of key rest hs)

Ascending-keys_of : (m : List (Bytes × LogRecordPos)) → Ascending m → IsAscending (keys_of m)
unfolding keys_of
Ascending-keys_of [] h = tt
Ascending-keys_of ((k, pos) ∷ rest) (h, hs) = (Above-keys_of k rest h, Ascending-keys_of rest hs)

abbrev place : Bytes → List (Bytes × LogRecordPos) → ℕ
place key m = lower_bound key (keys_of m)

-- The three ways in which the key compares to the first key of the leaf.
data Step : Bytes → Bytes → Type 0 where
  go_on :
      {key k : Bytes}
      → is_less k key ≡ true
      → key_eq k key ≡ false
      → key_compare key k ≡ Ordering.gt
      → Step key k
  here :
      {key k : Bytes}
      → is_less k key ≡ false
      → is_equal k key ≡ true
      → key_eq k key ≡ true
      → key_compare key k ≡ Ordering.eq
      → Step key k
  too_far :
      {key k : Bytes}
      → is_less k key ≡ false
      → is_equal k key ≡ false
      → key_eq k key ≡ false
      → key_compare key k ≡ Ordering.lt
      → Step key k

step : (key k : Bytes) → Step key k
unfolding key_eq
step key k = elim (Ordering-cases (key_compare k key)) [
  | inl (inl lt) ↦ go_on (is_less_lem k key ∙ rw lt refl) (rw (key_eq, lt) refl) (gt_of_lt k key lt)
  | inl (inr same) ↦
      here (is_less_lem k key ∙ rw same refl) (is_equal_lem k key ∙ rw same refl)
        (rw (key_eq, same) refl) (eq_flip k key same)
  | inr gt ↦
      too_far (is_less_lem k key ∙ rw gt refl) (is_equal_lem k key ∙ rw gt refl)
        (rw (key_eq, gt) refl) (lt_of_gt k key gt)
]

find-Above : (key : Bytes) (m : List (Bytes × LogRecordPos)) → Above key m → find key m ≡ none
unfolding find key_eq
find-Above key [] h = refl
find-Above key ((k, pos) ∷ rest) (h, hs) = ground (arith, find-Above key rest hs, gt_of_lt key k h)

Above-le :
    (a b : Bytes) (m : List (Bytes × LogRecordPos))
    → key_compare a b ≡ Ordering.lt
    → Above b m
    → Above a m
Above-le a b [] h k = tt
Above-le a b ((c, pos) ∷ rest) h (k, ks) = (lt_trans a b c h k, Above-le a b rest h ks)

-- A search in the map is a look at the place that the search in the keys gives.
find-place :
    (key : Bytes) (m : List (Bytes × LogRecordPos))
    → Ascending m
    → find key m ≡ (
        if has_at (keys_of m) (place key m) key
        then get_elem? (values_of m) (place key m)
        else none)
unfolding find lower_bound has_at keys_of
find-place key [] h = refl
find-place key ((k, pos) ∷ rest) (h, hs) = elim (step key k) [
  | go_on less other gt ↦ rw (find, lower_bound, less, other) (find-place key rest hs)
  | here less equal same eq ↦ rw (find, lower_bound, less, same, equal) refl
  | too_far less equal other lt ↦
      rw (find, lower_bound, less, equal, other) (find-Above key rest (Above-le key k rest lt h))
]

found-value :
    (key : Bytes) (m : List (Bytes × LogRecordPos))
    → has_at (keys_of m) (place key m) key ≡ true
    → (old : LogRecordPos) × (get_elem? (values_of m) (place key m) ≡ some old)
unfolding lower_bound has_at keys_of
found-value key [] h = absurd cc
found-value key ((k, pos) ∷ rest) h = elim (step key k) [
  | go_on less other gt ↦
      rw (lower_bound, less) (found-value key rest (rw (lower_bound, less) at h))
  | here less equal same eq ↦ rw (lower_bound, less) (pos, refl)
  | too_far less equal other lt ↦ absurd (ground arith)
]

place-le : (key : Bytes) (m : List (Bytes × LogRecordPos)) → place key m ≤ length (values_of m)
unfolding lower_bound keys_of
place-le key [] = omega arith
place-le key ((k, pos) ∷ rest) = ground (arith, place-le key rest)

assign_found :
    (key : Bytes) (pos : LogRecordPos) (m : List (Bytes × LogRecordPos))
    → has_at (keys_of m) (place key m) key ≡ true
    → (keys_of (assign key pos m) ≡ keys_of m)
      × (values_of (assign key pos m) ≡ set_at (place key m) pos (values_of m))
unfolding assign lower_bound has_at keys_of
assign_found key pos [] h = absurd cc
assign_found key pos ((k, old) ∷ rest) h = elim (step key k) [
  | go_on less other gt ↦
      let (a, b) = assign_found key pos rest (rw (lower_bound, less) at h) in
      rw (assign, lower_bound, less, gt) (ap (λ t. k ∷ t) a, ap (λ t. old ∷ t) b)
  | here less equal same eq ↦ rw (assign, lower_bound, less, eq) (refl, refl)
  | too_far less equal other lt ↦ absurd (ground arith)
]

insert_new :
    (key : Bytes) (pos : LogRecordPos) (m : List (Bytes × LogRecordPos))
    → has_at (keys_of m) (place key m) key ≡ false
    → (keys_of (assign key pos m) ≡ insert_at (place key m) key (keys_of m))
      × (values_of (assign key pos m) ≡ insert_at (place key m) pos (values_of m))
unfolding assign lower_bound has_at keys_of
insert_new key pos [] h = (refl, refl)
insert_new key pos ((k, old) ∷ rest) h = elim (step key k) [
  | go_on less other gt ↦
      let (a, b) = insert_new key pos rest (rw (lower_bound, less) at h) in
      rw (assign, lower_bound, less, gt) (ap (λ t. k ∷ t) a, ap (λ t. old ∷ t) b)
  | here less equal same eq ↦ absurd (ground arith)
  | too_far less equal other lt ↦ rw (assign, lower_bound, less, lt) (refl, refl)
]

erase-Above : (key : Bytes) (m : List (Bytes × LogRecordPos)) → Above key m → erase key m ≡ m
unfolding erase key_eq
erase-Above key [] h = refl
erase-Above key ((k, pos) ∷ rest) (h, hs) =
    let other : key_eq k key ≡ false = rw (key_eq, gt_of_lt key k h) refl in
    rw (erase, other) (ap (λ t. (k, pos) ∷ t) (erase-Above key rest hs))

erase_found :
    (key : Bytes) (m : List (Bytes × LogRecordPos))
    → Ascending m
    → has_at (keys_of m) (place key m) key ≡ true
    → (keys_of (erase key m) ≡ erase_at (place key m) (keys_of m))
      × (values_of (erase key m) ≡ erase_at (place key m) (values_of m))
unfolding erase lower_bound has_at keys_of
erase_found key [] s h = absurd cc
erase_found key ((k, old) ∷ rest) (above, sorted) h = elim (step key k) [
  | go_on less other gt ↦
      let (a, b) = erase_found key rest sorted (rw (lower_bound, less) at h) in
      rw (erase, lower_bound, less, other) (ap (λ t. k ∷ t) a, ap (λ t. old ∷ t) b)
  | here less equal same eq ↦
      let gone : erase key rest ≡ rest =
        erase-Above key rest (rw (eq_of_key_eq k key same) at above) in
      rw (erase, lower_bound, less, same) (ap keys_of gone, ap values_of gone)
  | too_far less equal other lt ↦ absurd (ground arith)
]

module _ (m : List (Bytes × LogRecordPos)) (key : Bytes) (sorted : Ascending m)
    (few : length m < 2 ^ 31) where
  few_keys : length (keys_of m) < 2 ^ 31
  few_keys = omega (arith, few, length-keys_of m)

  position : find_key_position (keys_of m) key ≡ place key m
  position = find_key_position-lower_bound (keys_of m) key (Ascending-keys_of m sorted) few_keys

  -- The test for the key at its position.
  at_place : is_at (keys_of m) (place key m) key ≡ has_at (keys_of m) (place key m) key
  at_place = is_at-has_at (keys_of m) (place key m) key few_keys

  -- Over a leaf that holds a map of fewer than 2^31 keys, `put` returns the position that the map had
  -- for the key, and leaves a leaf that holds the map with the new position.
  pub put-assign :
      (dirty : Bool) (pos : LogRecordPos)
      → put (leaf_of m dirty) key pos ≡ some (find key m, leaf_of (assign key pos m) true)
  unfolding put at_leaf insert_to_leaf
  put-assign dirty pos = elim (Bool-cases (has_at (keys_of m) (place key m) key)) [
    | inl found ↦
        let (old, e) = found-value key m found in
        let (a, b) = assign_found key pos m found in
        rw (position, at_place, found, e, position, a, b, find-place key m sorted, found, e) refl
    | inr missing ↦
        let (a, b) = insert_new key pos m missing in
        rw (position, at_place, missing, a, b, find-place key m sorted, missing)
          (ground (arith, place-le key m))
  ]

  pub get-find : (dirty : Bool) → get (leaf_of m dirty) key ≡ some (find key m)
  unfolding get find_leaf get_in
  get-find dirty = elim (Bool-cases (has_at (keys_of m) (place key m) key)) [
    | inl found ↦
        let (old, e) = found-value key m found in
        rw (position, at_place, found, e, find-place key m sorted, found, e) refl
    | inr missing ↦ rw (position, at_place, missing, find-place key m sorted, missing) refl
  ]

  pub remove-erase :
      (dirty : Bool)
      → remove (leaf_of m dirty) key ≡ elim (find key m) [
        | none ↦ some ((none, false), leaf_of m dirty)
        | some old ↦ some ((some old, true), leaf_of (erase key m) true)
      ]
  unfolding remove at_leaf delete_from_leaf
  remove-erase dirty = elim (Bool-cases (has_at (keys_of m) (place key m) key)) [
    | inl found ↦
        let (old, e) = found-value key m found in
        let (a, b) = erase_found key m sorted found in
        rw (position, at_place, found, e, position, find-place key m sorted, found, e, a, b) refl
    | inr missing ↦ rw (position, at_place, missing, find-place key m sorted, missing) refl
  ]
