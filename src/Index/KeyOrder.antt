-- ===== src/Index/KeyOrder.antt =====
-- The order of `std::map<Bytes, ...>`: byte strings compared lexicographically, byte by byte.
use Prim.Native.Nat.{compare, Ordering}
use raft_bitcask.Prelude.{◌≡◌, refl, ◌⊎◌, inl, inr, Bool, true, false, [], ◌∷◌, arith}
use raft_bitcask.Common.{Bytes}

-- Bytes first; where they are equal, the rest.
abbrev on_equal : Ordering → Ordering → Ordering
on_equal Ordering.eq rest = rest
on_equal Ordering.lt rest = Ordering.lt
on_equal Ordering.gt rest = Ordering.gt

unfoldable pub key_compare : Bytes → Bytes → Ordering
key_compare [] [] = Ordering.eq
key_compare [] (y ∷ ys) = Ordering.lt
key_compare (x ∷ xs) [] = Ordering.gt
key_compare (x ∷ xs) (y ∷ ys) = on_equal (compare x y) (key_compare xs ys)

-- `a < b`, as a type
abbrev pub ◌<ₖ◌ : Bytes → Bytes → Type 0
◌<ₖ◌ a b = key_compare a b ≡ Ordering.lt

unfoldable pub key_eq : Bytes → Bytes → Bool
key_eq a b = elim (key_compare a b) [ Ordering.eq ↦ true | _ ↦ false ]

pub key_compare_self : (a : Bytes) → key_compare a a ≡ Ordering.eq
unfolding key_compare
key_compare_self [] = refl
key_compare_self (x ∷ xs) = ground (arith, key_compare_self xs)

pub eq_of_key_compare : (a b : Bytes) → key_compare a b ≡ Ordering.eq → a ≡ b
unfolding key_compare
eq_of_key_compare [] [] e = refl
eq_of_key_compare [] (y ∷ ys) e = cc
eq_of_key_compare (x ∷ xs) [] e = cc
eq_of_key_compare (x ∷ xs) (y ∷ ys) e = ground (arith, eq_of_key_compare xs ys)

pub lt_of_gt : (a b : Bytes) → key_compare a b ≡ Ordering.gt → key_compare b a ≡ Ordering.lt
unfolding key_compare
lt_of_gt [] [] e = cc
lt_of_gt [] (y ∷ ys) e = cc
lt_of_gt (x ∷ xs) [] e = refl
lt_of_gt (x ∷ xs) (y ∷ ys) e = ground (arith, lt_of_gt xs ys)

pub lt_trans :
    (a b c : Bytes)
    → key_compare a b ≡ Ordering.lt
    → key_compare b c ≡ Ordering.lt
    → key_compare a c ≡ Ordering.lt
unfolding key_compare
lt_trans [] [] c p q = cc
lt_trans (x ∷ xs) [] c p q = cc
lt_trans a (y ∷ ys) [] p q = cc
lt_trans [] (y ∷ ys) (z ∷ zs) p q = refl
lt_trans (x ∷ xs) (y ∷ ys) (z ∷ zs) p q = ground (arith, lt_trans xs ys zs)

pub key_eq_self : (a : Bytes) → key_eq a a ≡ true
unfolding key_eq
key_eq_self a = rw (key_eq, key_compare_self a)

pub eq_of_key_eq : (a b : Bytes) → key_eq a b ≡ true → a ≡ b
unfolding key_eq
eq_of_key_eq a b e = ground (arith, eq_of_key_compare a b)

pub Ordering-cases : (o : Ordering) → ((o ≡ Ordering.lt) ⊎ (o ≡ Ordering.eq)) ⊎ (o ≡ Ordering.gt)
Ordering-cases Ordering.lt = inl (inl refl)
Ordering-cases Ordering.eq = inl (inr refl)
Ordering-cases Ordering.gt = inr refl
