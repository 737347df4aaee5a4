-- ===== src/Redis/Database/Visits.antt =====
-- The loop over an iterator of the database with the default options.
use raft_bitcask.Prelude.{
  ℕ, zero, suc, ◌+◌, ◌≤◌, ◌<◌, ◌≡◌, refl, ap, ◌∙◌, true, false, some, List, [], ◌∷◌, length, drop,
  get_elem?, ltb, arith, Bool-cases, inl, inr,
}
use raft_bitcask.Common.{Bytes, ok}
use raft_bitcask.Codec.Record.{LogRecordPos}
use raft_bitcask.Storage.FileSystem.{Calls}
use raft_bitcask.Index.BTree
use raft_bitcask.Index.BTree.{keys_of}
use raft_bitcask.Index.BTree.Iterator
use raft_bitcask.Index.BTree.Iterator.{BTreeIterator}
use raft_bitcask.Db.{Db, list_keys}
use raft_bitcask.Db.Iterator.{
  DbIterator, new_iterator, rewind, to_prefix, has_prefix, matches, valid, current, next, key,
}
use raft_bitcask.Redis.Database.{visited, database}

abbrev at_index : List (Bytes × LogRecordPos) → ℕ → DbIterator
at_index items i = record {
  options = record { prefix = []; reverse = false };
  index_iter = some (record { items = items; current_index = i; reverse_order = false });
}

drop_over {ℓ} : {A : Type ℓ} (items : List A) (i : ℕ) → length items ≤ i → drop i items ≡ []
drop_over [] zero h = refl
drop_over [] (suc i) h = refl
drop_over (x ∷ xs) zero h = absurd (omega (arith, h))
drop_over (x ∷ xs) (suc i) h = drop_over xs i (omega (arith, h))

drop_within {ℓ} :
    {A : Type ℓ} (items : List A) (i : ℕ)
    → i < length items
    → (x : A) × (get_elem? items i ≡ some x) × (drop i items ≡ x ∷ drop (suc i) items)
drop_within [] i h = absurd (omega (arith, h))
drop_within (x ∷ xs) zero h = (x, refl, refl)
drop_within (x ∷ xs) (suc i) h = drop_within xs i (omega (arith, h))

module _ (items : List (Bytes × LogRecordPos)) (i : ℕ) (x : Bytes × LogRecordPos)
    (within : ltb i (length items) ≡ true) (here : get_elem? items i ≡ some x) where
  current_within :
      Iterator.current (record { items = items; current_index = i; reverse_order = false }) ≡ ok x
  unfolding Iterator.current
  current_within = rw (Iterator.current, here) refl

  valid_within : valid (at_index items i) ≡ true
  unfolding valid matches has_prefix Iterator.valid
  valid_within = rw (within, current_within) refl

  key_within : key (at_index items i) ≡ ok x.0
  unfolding key current
  key_within = rw (valid_within, current_within) refl

  next_within : next (at_index items i) ≡ at_index items (i + 1)
  unfolding next Iterator.next
  next_within = rw within refl

-- A round on an item.
visited-next :
    (n i : ℕ) (items : List (Bytes × LogRecordPos)) (x : Bytes × LogRecordPos)
    → ltb i (length items) ≡ true
    → get_elem? items i ≡ some x
    → drop i items ≡ x ∷ drop (i + 1) items
    → visited n (at_index items (i + 1)) ≡ keys_of (drop (i + 1) items)
    → visited (suc n) (at_index items i) ≡ keys_of (drop i items)
unfolding visited keys_of
visited-next n i items x within here rest later =
    rw
      (
        valid_within items i x within here,
        key_within items i x within here,
        next_within items i x within here,
        rest,
        later,
      )
      refl

visited-at_index :
    (n i : ℕ) (items : List (Bytes × LogRecordPos))
    → length items ≤ i + n
    → visited n (at_index items i) ≡ keys_of (drop i items)
unfolding visited keys_of valid Iterator.valid
visited-at_index zero i items enough = rw (drop_over items i (omega (arith, enough))) refl
visited-at_index (suc n) i items enough = elim (Bool-cases (ltb i (length items))) [
  | inl within ↦
      let (x, here, rest) = drop_within items i (ground arith) in
      let later : visited n (at_index items (i + 1)) ≡ keys_of (drop (i + 1) items) =
        visited-at_index n (i + 1) items (omega (arith, enough)) in
      let one : suc i ≡ i + 1 = omega arith in
      visited-next n i items x within here (rest ∙ ap (λ (j : ℕ). x ∷ drop j items) one) later
  | inr over ↦ rw (over, drop_over items i (ground arith)) refl
]

-- A loop of `rewind`, `valid`, `key` and `next` with the default options visits the keys that
-- `list_keys` returns, in that order, and ends.
pub keys-list_keys : {os : Calls} (db : Db os) → (database os).keys db ≡ list_keys db
unfolding new_iterator rewind to_prefix Iterator.iterator Iterator.rewind list_keys BTree.list_keys
keys-list_keys db = visited-at_index (length db.index.tree) 0 db.index.tree (omega arith)
