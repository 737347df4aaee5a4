-- ===== src/Index/CompareKeys.antt =====
-- `compare_keys`, the member function that src/bplus_tree_index.cpp and src/skiplist_index.cpp each
-- define, twice each, with the same body.
use Prim.Native.Nat.{compare, Ordering}
use raft_bitcask.Prelude.{◌≡◌, refl, ap, Bool, true, false, [], ◌∷◌, length, arith}
use raft_bitcask.Common.{Bytes}
use raft_bitcask.Index.KeyOrder.{key_compare, key_compare_self, eq_of_key_compare}

-- The loop over `i < min_len`: -1 is `lt`, 1 is `gt`, and `eq` is that the loop ends.
unfoldable pub compare_common : Bytes → Bytes → Ordering
compare_common [] b = Ordering.eq
compare_common (x ∷ xs) [] = Ordering.eq
compare_common (x ∷ xs) (y ∷ ys) = elim (compare x y) [
  | Ordering.lt ↦ Ordering.lt
  | Ordering.gt ↦ Ordering.gt
  | Ordering.eq ↦ compare_common xs ys
]

-- Behind the loop, the comparison of the sizes.
unfoldable pub compare_keys : Bytes → Bytes → Ordering
unfolding compare_common
compare_keys a b = elim (compare_common a b) [
  | Ordering.lt ↦ Ordering.lt
  | Ordering.gt ↦ Ordering.gt
  | Ordering.eq ↦ compare (length a) (length b)
]

-- `compare_keys(a, b) < 0`
unfoldable pub is_less : Bytes → Bytes → Bool
is_less a b = elim (compare_keys a b) [ Ordering.lt ↦ true | _ ↦ false ]

-- `compare_keys(a, b) == 0`
unfoldable pub is_equal : Bytes → Bytes → Bool
is_equal a b = elim (compare_keys a b) [ Ordering.eq ↦ true | _ ↦ false ]

-- It is the order of `std::map`.
pub compare_keys-key_compare : (a b : Bytes) → compare_keys a b ≡ key_compare a b
unfolding compare_keys compare_common key_compare
compare_keys-key_compare [] [] = refl
compare_keys-key_compare [] (y ∷ ys) = ground arith
compare_keys-key_compare (x ∷ xs) [] = ground arith
compare_keys-key_compare (x ∷ xs) (y ∷ ys) = ground (arith, compare_keys-key_compare xs ys)

pub gt_of_lt : (a b : Bytes) → key_compare a b ≡ Ordering.lt → key_compare b a ≡ Ordering.gt
unfolding key_compare
gt_of_lt [] [] e = cc
gt_of_lt [] (y ∷ ys) e = refl
gt_of_lt (x ∷ xs) [] e = cc
gt_of_lt (x ∷ xs) (y ∷ ys) e = ground (arith, gt_of_lt xs ys)

pub eq_flip : (a b : Bytes) → key_compare a b ≡ Ordering.eq → key_compare b a ≡ Ordering.eq
unfolding key_compare
eq_flip a b e = rw (eq_of_key_compare a b e) (key_compare_self b)

-- The two tests, by the order of `std::map`.
abbrev negative : Ordering → Bool
negative Ordering.lt = true
negative _ = false

abbrev is_zero : Ordering → Bool
is_zero Ordering.eq = true
is_zero _ = false

pub is_less_lem :
    (a b : Bytes) → is_less a b ≡ elim (key_compare a b) [ Ordering.lt ↦ true | _ ↦ false ]
unfolding is_less
is_less_lem a b = ap negative (compare_keys-key_compare a b)

pub is_equal_lem :
    (a b : Bytes) → is_equal a b ≡ elim (key_compare a b) [ Ordering.eq ↦ true | _ ↦ false ]
unfolding is_equal
is_equal_lem a b = ap is_zero (compare_keys-key_compare a b)
