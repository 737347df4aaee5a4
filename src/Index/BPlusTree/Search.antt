-- ===== src/Index/BPlusTree/Search.antt =====
-- `find_key_position` of src/bplus_tree_index.cpp: the binary search among the keys of a node.
use Prim.Native.Nat.{Ordering}
use mathlib.Core.WellFounded.{Acc}
use raft_bitcask.Prelude.{
  ℕ, zero, suc, ◌+◌, ◌-◌, ◌/◌, ◌<◌, ◌≤◌, ◌≡◌, ◌^◌, ◌∙◌, refl, true, false, List, [], ◌∷◌, length,
  get_or, ltb, All, if◌then◌else◌, arith, Bool-cases, inl, inr,
}
use raft_bitcask.Prelude.Order.{lt_wf}
use raft_bitcask.Common.{Bytes}
use raft_bitcask.Index.KeyOrder.{key_compare, lt_trans}
use raft_bitcask.Index.CompareKeys.{is_less, is_less_lem}
use raft_bitcask.Index.BPlusTree.{
  int_size, search_loop, find_key_position, has_at, is_at, left_shrinks, right_shrinks,
}

-- The keys in front of the first one that is not less than the key.
unfoldable pub lower_bound : Bytes → List Bytes → ℕ
lower_bound key [] = 0
lower_bound key (k ∷ ks) = let later = lower_bound key ks in if is_less k key then suc later else 0

-- Each key is less than all behind it.
abbrev pub IsAscending : List Bytes → Type 0
IsAscending [] = Unit
IsAscending (k ∷ ks) = All (λ j. key_compare k j ≡ Ordering.lt) ks × IsAscending ks

-- What is not greater stays so behind greater keys.
not_less_above :
    (k j key : Bytes)
    → key_compare k j ≡ Ordering.lt
    → is_less k key ≡ false
    → is_less j key ≡ false
not_less_above k j key lt h =
    ground (arith, is_less_lem k key, is_less_lem j key, lt_trans k j key lt)

none_less :
    (key k : Bytes) (ks : List Bytes) (i : ℕ)
    → All (λ j. key_compare k j ≡ Ordering.lt) ks
    → is_less k key ≡ false
    → i < length ks
    → is_less (get_or ks i []) key ≡ false
none_less key k [] i h e lt = absurd (omega arith)
none_less key k (j ∷ ks) zero (h, hs) e lt = not_less_above k j key h e
none_less key k (j ∷ ks) (suc i) (h, hs) e lt = none_less key k ks i hs e (omega arith)

pub lower_bound-le : (key : Bytes) (ks : List Bytes) → lower_bound key ks ≤ length ks
unfolding lower_bound
lower_bound-le key [] = omega arith
lower_bound-le key (k ∷ ks) = ground (arith, lower_bound-le key ks)

-- The test of the search tells the side on which the position lies.
is_less-lower_bound :
    (key : Bytes) (ks : List Bytes) (i : ℕ)
    → IsAscending ks
    → i < length ks
    → is_less (get_or ks i []) key ≡ ltb i (lower_bound key ks)
unfolding lower_bound
is_less-lower_bound key [] i h lt = absurd (omega arith)
is_less-lower_bound key (k ∷ ks) zero (h, hs) lt = ground arith
is_less-lower_bound key (k ∷ ks) (suc i) (h, hs) lt = elim (Bool-cases (is_less k key)) [
  | inl e ↦ rw (lower_bound, e) (is_less-lower_bound key ks i hs (omega arith) ∙ ground arith)
  | inr e ↦ rw (lower_bound, e) (none_less key k ks i h e (omega arith) ∙ ground arith)
]

search_loop-lower_bound :
    (key : Bytes) (ks : List Bytes) (left d : ℕ) (w : Acc ◌<◌ d)
    → IsAscending ks
    → left ≤ lower_bound key ks
    → lower_bound key ks ≤ left + d
    → left + d ≤ length ks
    → search_loop ks key left d w ≡ lower_bound key ks
unfolding search_loop
search_loop-lower_bound key ks left d (Acc.intro _ smaller) sorted from to inside = grind (
  arith,
  λ (more : 1 ≤ d). is_less-lower_bound key ks (left + d / 2) sorted (omega arith),
  λ (more : 1 ≤ d) (p : left + d / 2 + 1 ≤ lower_bound key ks).
      search_loop-lower_bound key ks (left + d / 2 + 1) (d - d / 2 - 1)
        (smaller _ (left_shrinks d more)) sorted p (omega arith) (omega arith),
  λ (more : 1 ≤ d) (p : lower_bound key ks ≤ left + d / 2).
      search_loop-lower_bound key ks left (d / 2) (smaller _ (right_shrinks d more)) sorted from p
        (omega arith),
)

pub int_size_small : (n : ℕ) → n < 2 ^ 31 → int_size n ≡ n
unfolding int_size
int_size_small n h = ground arith

-- Among fewer than 2^31 keys in ascending order the binary search ends at the first key that is not
-- less than the one sought, or at their end.
pub find_key_position-lower_bound :
    (ks : List Bytes) (key : Bytes)
    → IsAscending ks
    → length ks < 2 ^ 31
    → find_key_position ks key ≡ lower_bound key ks
unfolding find_key_position
find_key_position-lower_bound ks key h few =
    rw (find_key_position, int_size_small (length ks) few)
      (search_loop-lower_bound key ks 0 (length ks) (lt_wf.apply (length ks)) h (omega arith)
        (omega (arith, lower_bound-le key ks)) (omega arith))

-- A position with a key is in front of the end.
has_at-lt : (ks : List Bytes) (i : ℕ) (key : Bytes) → has_at ks i key ≡ true → i < length ks
unfolding has_at
has_at-lt [] i key h = absurd cc
has_at-lt (k ∷ ks) zero key h = omega arith
has_at-lt (k ∷ ks) (suc i) key h = omega (arith, has_at-lt ks i key h)

pub is_at-has_at :
    (ks : List Bytes) (i : ℕ) (key : Bytes) → length ks < 2 ^ 31 → is_at ks i key ≡ has_at ks i key
unfolding is_at
is_at-has_at ks i key few = elim (Bool-cases (has_at ks i key)) [
  | inl e ↦
      let inside : ltb i (length ks) ≡ true = ground (arith, has_at-lt ks i key e) in
      rw (is_at, int_size_small (length ks) few, inside, e) refl
  | inr e ↦ rw (is_at, e) (ground arith)
]
