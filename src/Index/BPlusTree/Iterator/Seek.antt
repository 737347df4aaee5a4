-- ===== src/Index/BPlusTree/Iterator/Seek.antt =====
-- The forward iterator of src/bplus_tree_index.cpp over a tree that holds a map.
use mathlib.Core.Option
use raft_bitcask.Prelude.{
  ℕ, zero, suc, ◌+◌, ◌≡◌, ◌<◌, ◌≤◌, refl, ap, ◌∙◌, Bool, true, false, not, ◌&&◌, none, some, List,
  [], ◌∷◌, get_or, drop, get_elem?, length, arith, Bool-cases, inl, inr,
}
use raft_bitcask.Common.{Bytes}
use raft_bitcask.Codec.Record.{LogRecordPos}
use raft_bitcask.Index.KeyOrder.{lt_of_gt}
use raft_bitcask.Index.CompareKeys.{is_less, is_less_lem, gt_of_lt}
use raft_bitcask.Index.BTree.{keys_of}
use raft_bitcask.Index.BTree.Iterator.{first_index, key_le}
use raft_bitcask.Index.BPlusTree.{Link, to, null, leftmost, count_from}
use raft_bitcask.Index.BPlusTree.Refine.{leaf_of, values_of, length-keys_of}
use raft_bitcask.Index.BPlusTree.Iterator.{
  BPlusTreeIterator, iterator, new_iterator, rewind, next, skip, advance, next_while,
  key_matches_prefix, seek, first_not_less, item, no_pos, found_by, valid, key, value,
}

pub first_index-first_not_less :
    (target : Bytes) (m : List (Bytes × LogRecordPos))
    → first_index (λ k. key_le target k) m ≡ first_not_less target m
unfolding first_index first_not_less key_le
first_index-first_not_less target [] = refl
first_index-first_not_less target ((k, pos) ∷ rest) = ground (
  arith,
  is_less_lem k target,
  gt_of_lt k target,
  lt_of_gt target k,
  first_index-first_not_less target rest,
)

-- What lies under an index, by the rest of the map from there on.
key_under :
    (i : ℕ) (m rest : List (Bytes × LogRecordPos)) (k : Bytes) (pos : LogRecordPos)
    → drop i m ≡ (k, pos) ∷ rest
    → (get_or (keys_of m) i [] ≡ k)
      × (get_or (values_of m) i no_pos ≡ pos)
      × (length (keys_of m) ≡ i + suc (length rest))
      × (drop (suc i) m ≡ rest)
unfolding keys_of
key_under zero [] rest k pos e = absurd cc
key_under zero ((j, p) ∷ m) rest k pos e =
    let heads : ◌≡◌ {A = Bytes × LogRecordPos} (j, p) (k, pos) =
      ap (λ (t : List (Bytes × LogRecordPos)). get_or t 0 (j, p)) e in
    let tails : m ≡ rest = ap (λ (t : List (Bytes × LogRecordPos)). drop 1 t) e in
    (
      ap (λ (t : Bytes × LogRecordPos). t.0) heads,
      ap (λ (t : Bytes × LogRecordPos). t.1) heads,
      omega (arith, length-keys_of m, ap (λ (t : List (Bytes × LogRecordPos)). length t) tails),
      tails,
    )
key_under (suc i) [] rest k pos e = absurd cc
key_under (suc i) ((j, p) ∷ m) rest k pos e =
    let (a, b, c, d) = key_under i m rest k pos e in (a, b, omega arith, d)

end_under : (i : ℕ) (m : List (Bytes × LogRecordPos)) → drop i m ≡ [] → length (keys_of m) ≤ i
unfolding keys_of
end_under zero [] e = omega arith
end_under zero ((j, p) ∷ m) e = absurd cc
end_under (suc i) [] e = omega arith
end_under (suc i) ((j, p) ∷ m) e = omega (arith, end_under i m e)

module _ (m : List (Bytes × LogRecordPos)) (dirty : Bool) where
  -- A forward iterator with no prefix.
  abbrev cursor : Link → ℕ → BPlusTreeIterator
  cursor leaf i = record {
    root = leaf_of m dirty;
    current_leaf = leaf;
    current_index = i;
    prefix = [];
    reverse_order = false;
    items = [];
    items_index = 0;
    use_items = false;
  }

  abbrev under : ℕ → BPlusTreeIterator
  under i = cursor (to (leaf_of m dirty)) i

  and_false : (b : Bool) → (b && false) ≡ false
  and_false true = refl
  and_false false = refl

  skip-cursor :
      (fuel : ℕ) (leaf : Link) (i : ℕ) → skip (suc fuel) (cursor leaf i) ≡ some (cursor leaf i)
  unfolding skip key_matches_prefix
  skip-cursor fuel leaf i = rw (and_false (valid (cursor leaf i))) refl

  advance_inside : (i : ℕ) → i + 1 < length (keys_of m) → advance (under i) ≡ under (i + 1)
  unfolding advance
  advance_inside i h = ground arith

  advance_last : (i : ℕ) → length (keys_of m) ≤ i + 1 → advance (under i) ≡ cursor null 0
  unfolding advance
  advance_last i h = ground arith

  next_inside : (i : ℕ) → i + 1 < length (keys_of m) → next (under i) ≡ some (under (i + 1))
  unfolding next
  next_inside i h = rw (advance_inside i h) (skip-cursor _ _ _)

  next_last : (i : ℕ) → length (keys_of m) ≤ i + 1 → next (under i) ≡ some (cursor null 0)
  unfolding next
  next_last i h = rw (advance_last i h) (skip-cursor _ _ _)

  abbrev less_than : Bytes → BPlusTreeIterator → Bool
  less_than target it = is_less (key it) target

  -- The loop of `seek` that has run off the end.
  ended :
      (target : Bytes) (fuel : ℕ)
      → next_while (less_than target) (suc fuel) (cursor null 0) ≡ some (cursor null 0)
  unfolding next_while valid
  ended target fuel = refl

  stops :
      (target : Bytes) (fuel i : ℕ)
      → (valid (under i) && less_than target (under i)) ≡ false
      → next_while (less_than target) (suc fuel) (under i) ≡ some (under i)
  unfolding next_while
  stops target fuel i e = rw (next_while, e) refl

  goes_on :
      (target : Bytes) (fuel i : ℕ) (it : BPlusTreeIterator)
      → (valid (under i) && less_than target (under i)) ≡ true
      → next (under i) ≡ some it
      → next_while (less_than target) (suc fuel) (under i) ≡ next_while (less_than target) fuel it
  unfolding next_while
  goes_on target fuel i it e n = rw (next_while, e, n) refl

  at_end :
      (target : Bytes) (fuel i : ℕ)
      → length (keys_of m) ≤ i
      → Option.map item (next_while (less_than target) (suc fuel) (under i)) ≡ some none
  unfolding item valid
  at_end target fuel i past = rw (stops target fuel i (ground arith)) (ground arith)

  module _ (target : Bytes) (i : ℕ) (rest : List (Bytes × LogRecordPos)) (k : Bytes)
      (pos : LogRecordPos) (e : drop i m ≡ (k, pos) ∷ rest) where
    test_here : (valid (under i) && less_than target (under i)) ≡ is_less k target
    unfolding valid key
    test_here =
        let (under_key, under_value, size, later) = key_under i m rest k pos e in
        rw under_key (ground arith)

    item_here : item (under i) ≡ some (k, pos)
    unfolding item valid key value
    item_here =
        let (under_key, under_value, size, later) = key_under i m rest k pos e in
        rw (under_key, under_value) (ground arith)

  seek_loop :
      (target : Bytes) (fuel i : ℕ) (rest : List (Bytes × LogRecordPos))
      → drop i m ≡ rest
      → length rest < fuel
      → Option.map item (next_while (less_than target) fuel (under i))
        ≡ some (get_elem? rest (first_not_less target rest))
  unfolding first_not_less item
  seek_loop target zero i rest e h = absurd (omega arith)
  seek_loop target (suc fuel) i [] e h = at_end target fuel i (end_under i m e)
  seek_loop target (suc zero) i ((k, pos) ∷ rest) e h = absurd (omega arith)
  seek_loop target (suc (suc fuel)) i ((k, pos) ∷ []) e h =
      let (under_key, under_value, size, later) = key_under i m [] k pos e in
      elim (Bool-cases (is_less k target)) [
        | inl less ↦
            rw
              (
                goes_on target (suc fuel) i (cursor null 0) (test_here target i [] k pos e ∙ less)
                    (next_last i (omega arith)),
                ended target fuel,
                first_not_less,
                less,
              )
              refl
        | inr more ↦
            rw
              (
                stops target (suc fuel) i (test_here target i [] k pos e ∙ more),
                item_here target i [] k pos e,
                first_not_less,
                more,
              )
              refl
      ]
  seek_loop target (suc fuel) i ((k, pos) ∷ (x ∷ rest)) e h =
      let (under_key, under_value, size, later) = key_under i m (x ∷ rest) k pos e in
      let here = test_here target i (x ∷ rest) k pos e in
      let same : suc i ≡ i + 1 = omega arith in
      elim (Bool-cases (is_less k target)) [
        | inl less ↦
            rw
              (
                goes_on target fuel i (under (i + 1)) (here ∙ less) (next_inside i (omega arith)),
                first_not_less,
                less,
              )
              (seek_loop target fuel (i + 1) (x ∷ rest) (rw same at later) (omega arith))
        | inr more ↦
            rw
              (
                stops target fuel i (here ∙ more),
                item_here target i (x ∷ rest) k pos e,
                first_not_less,
                more,
              )
              refl
      ]

  not_skipped :
      (fuel : ℕ) (leaf : Link) (i : ℕ)
      → next_while (λ j. not (key_matches_prefix j.prefix (key j))) (suc fuel) (cursor leaf i)
        ≡ some (cursor leaf i)
  unfolding next_while key_matches_prefix
  not_skipped fuel leaf i = rw (next_while, and_false (valid (cursor leaf i))) refl

  new_forward : iterator (leaf_of m dirty) false ≡ some (under 0)
  unfolding iterator new_iterator rewind leftmost
  new_forward = not_skipped _ _ _

-- A forward iterator over a leaf that holds a map: behind `seek` it finds the item of the first key
-- that is not less than the key sought, or nothing where there is none, as the iterator of the ordered
-- map does.
pub found_by-forward :
    (m : List (Bytes × LogRecordPos)) (dirty : Bool) (target : Bytes)
    → found_by (leaf_of m dirty) false target
      ≡ some (get_elem? m (first_index (λ k. key_le target k) m))
unfolding found_by seek leftmost count_from
found_by-forward m dirty target =
    rw (found_by, new_forward m dirty, first_index-first_not_less target m)
      (seek_loop m dirty target _ 0 m refl (omega (arith, length-keys_of m)))
