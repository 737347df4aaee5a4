-- ===== src/Redis/Lists/Slots.antt =====
-- The elements of a list in the database, under consecutive numbers.
use raft_bitcask.Prelude.{
  ℕ, ◌+◌, ◌^◌, ◌≤◌, ◌<◌, ◌≡◌, ◌≢◌, sym, ap, ◌∙◌, Option, some, List, [], ◌∷◌, ◌++◌, length, arith,
}
use raft_bitcask.Common.{Bytes, IsU64}
use raft_bitcask.Db.Represents.{KeyMap}
use raft_bitcask.Db.Represents.Operations.{set_key}
use raft_bitcask.Redis.Keys.{list_internal_key, list_internal_key-injective, list_internal_key-ne}
use raft_bitcask.Redis.KeyMaps.{set_key_other}

module _ (key : Bytes) (version : ℕ) where
  -- The map holds the elements from a number on.
  abbrev pub Elements : KeyMap → ℕ → List Bytes → Type 0
  Elements m first [] = Unit
  Elements m first (x ∷ xs) =
      (m (list_internal_key key version first) ≡ some x) × Elements m (first + 1) xs

  Elements-set_key :
      (m : KeyMap) (first : ℕ) (xs : List Bytes) (k : Bytes) (value : Option Bytes)
      → ((i : ℕ) → first ≤ i → i < first + length xs → k ≢ list_internal_key key version i)
      → Elements m first xs
      → Elements (set_key m k value) first xs
  Elements-set_key m first [] k value differ e = tt
  Elements-set_key m first (x ∷ xs) k value differ (e, rest) = (
    set_key_other m k (list_internal_key key version first) value
          (differ first (omega arith) (omega arith))
        ∙ e,
    Elements-set_key m (first + 1) xs k value
        (λ i low high. differ i (omega (arith, low)) (omega (arith, high))) rest,
  )

  -- A change of the key of the list itself leaves the elements in place.
  pub Elements-metadata :
      (m : KeyMap) (first : ℕ) (xs : List Bytes) (value : Option Bytes)
      → Elements m first xs
      → Elements (set_key m key value) first xs
  Elements-metadata m first xs value e =
      Elements-set_key m first xs key value
        (λ i low high same. list_internal_key-ne key version i (sym same)) e

  -- So does a change of an element with another number.
  pub Elements-outside :
      (m : KeyMap) (first : ℕ) (xs : List Bytes) (j : ℕ) (value : Option Bytes)
      → IsU64 j
      → first + length xs ≤ 2 ^ 64
      → ((i : ℕ) → first ≤ i → i < first + length xs → j ≢ i)
      → Elements m first xs
      → Elements (set_key m (list_internal_key key version j) value) first xs
  Elements-outside m first xs j value hj whole outside e =
      Elements-set_key m first xs (list_internal_key key version j) value
        (λ i low high same.
          outside i low high
            (list_internal_key-injective key version j i hj (omega (arith, high, whole)) same))
        e

  same : (first : ℕ) → first ≡ first + 0
  same first = omega arith

  pub Elements-snoc :
      (m : KeyMap) (first : ℕ) (xs : List Bytes) (x : Bytes)
      → Elements m first xs
      → m (list_internal_key key version (first + length xs)) ≡ some x
      → Elements m first (xs ++ x ∷ [])
  Elements-snoc m first [] x e last =
      (ap (λ i. m (list_internal_key key version i)) (same first) ∙ last, tt)
  Elements-snoc m first (y ∷ ys) x (e, rest) last =
      let next : first + 1 + length ys ≡ first + length (y ∷ ys) = omega arith in
      (e, Elements-snoc m (first + 1) ys x rest (rw next last))

  pub Elements-init :
      (m : KeyMap) (first : ℕ) (xs : List Bytes) (x : Bytes)
      → Elements m first (xs ++ x ∷ [])
      → Elements m first xs × (m (list_internal_key key version (first + length xs)) ≡ some x)
  Elements-init m first [] x (e, rest) =
      (tt, ap (λ i. m (list_internal_key key version i)) (sym (same first)) ∙ e)
  Elements-init m first (y ∷ ys) x (e, rest) =
      let next : first + 1 + length ys ≡ first + length (y ∷ ys) = omega arith in
      let (front, last) = Elements-init m (first + 1) ys x rest in ((e, front), rw next at last)
