-- ===== src/Db/Merge/Kept.antt =====
-- What the records that `merge` of src/db.cpp copies stand for, against the whole log.
use raft_bitcask.Prelude.{
  ℕ, ◌+◌, ◌<◌, ◌≤◌, ◌≡◌, refl, sym, ap, ◌∙◌, Bool, true, false, not, ◌&&◌, ◌||◌, Option, none, some,
  List, [], ◌∷◌, length, length-append, All, ◌==◌, if◌then◌else◌, arith, Bool-cases, Option-cases,
  inl, inr,
}
use raft_bitcask.Common.{Bytes, deleted}
use raft_bitcask.Codec.Record.{LogRecord, LogRecordPos, encode}
use raft_bitcask.Codec.SeqKey.{parse_log_record_key, IsPlainKey}
use raft_bitcask.Storage.DataFile.Reads.{IsReadable}
use raft_bitcask.Index.KeyOrder.{key_eq, key_eq_self, eq_of_key_eq}
use raft_bitcask.Index.BTree
use raft_bitcask.Index.BTree.{BTreeIndex, find, keys_of}
use raft_bitcask.Db.Load.{LoadState, process_record}
use raft_bitcask.Db.Load.Replay.{process_all, pos_at, log_bytes}
use raft_bitcask.Db.Load.Recovery.{fresh, length-log_bytes}
use raft_bitcask.Db.Merge.{valid_records, is_current}
use raft_bitcask.Db.Merge.Loop.{kept, is_kept, clean}
use raft_bitcask.Db.Merge.Last.{
  latest, live_record, meaning, ArePlain, found_after, found_last, found-IsFrom, IsFrom,
}

abbrev is_none : Option LogRecord → Bool
is_none none = true
is_none (some r) = false

-- The records that are the last of their key, but for deletions.
unfoldable survivors : List LogRecord → List LogRecord
survivors [] = []
survivors (r ∷ rest) =
    if is_none (latest r.key rest) && not (r.type == deleted)
    then r ∷ survivors rest
    else survivors rest

length-survivors : (rs : List LogRecord) → length (log_bytes (survivors rs)) ≤ length (log_bytes rs)
unfolding survivors
length-survivors [] = omega arith
length-survivors (r ∷ rest) =
    elim (Bool-cases (is_none (latest r.key rest) && not (r.type == deleted))) [
      | inl e ↦
          rw (survivors, e)
            (omega (
              arith,
              length-append (encode r).0 (log_bytes (survivors rest)),
              length-append (encode r).0 (log_bytes rest),
              length-survivors rest,
            ))
      | inr e ↦
          rw (survivors, e)
            (omega (arith, length-append (encode r).0 (log_bytes rest), length-survivors rest))
    ]

All-survivors : (P : LogRecord → Type 0) (rs : List LogRecord) → All P rs → All P (survivors rs)
unfolding survivors
All-survivors P [] h = tt
All-survivors P (r ∷ rest) (h, hs) =
    elim (Bool-cases (is_none (latest r.key rest) && not (r.type == deleted))) [
      | inl e ↦ rw (survivors, e) (h, All-survivors P rest hs)
      | inr e ↦ rw (survivors, e) (All-survivors P rest hs)
    ]

latest-survivors :
    (key : Bytes) (rs : List LogRecord) → latest key (survivors rs) ≡ live_record (latest key rs)
unfolding survivors latest
latest-survivors key [] = refl
latest-survivors key (r ∷ rest) = elim (Bool-cases (key_eq r.key key)) [
  | inl same ↦
      let e : r.key ≡ key = eq_of_key_eq r.key key same in
      ground (arith, same, ap (λ (k : Bytes). latest k rest) e, latest-survivors key rest)
  | inr other ↦ ground (arith, other, latest-survivors key rest)
]

mentions : Bytes → List Bytes → Bool
mentions key [] = false
mentions key (k ∷ ks) = key_eq k key || mentions key ks

find-mentions :
    (key : Bytes) (m : List (Bytes × LogRecordPos))
    → mentions key (keys_of m) ≡ false
    → find key m ≡ none
unfolding mentions keys_of find
find-mentions key [] h = refl
find-mentions key ((k, pos) ∷ rest) h = ground (arith, find-mentions key rest)

find-valid_records :
    (index : BTreeIndex) (key : Bytes) (keys : List Bytes)
    → find key (valid_records index keys)
      ≡ (if mentions key keys then find key index.tree else none)
unfolding valid_records mentions find BTree.get
find-valid_records index key [] = refl
find-valid_records index key (k ∷ ks) = elim (Bool-cases (key_eq k key)) [
  | inl same ↦
      let e : k ≡ key = eq_of_key_eq k key same in
      ground (arith, same, ap (λ (j : Bytes). find j index.tree) e, find-valid_records index key ks)
  | inr other ↦ ground (arith, other, find-valid_records index key ks)
]

-- The table of valid records is the index.
find-valid_records_keys :
    (index : BTreeIndex) (key : Bytes)
    → find key (valid_records index (keys_of index.tree)) ≡ find key index.tree
find-valid_records_keys index key = elim (Bool-cases (mentions key (keys_of index.tree))) [
  | inl e ↦ find-valid_records index key (keys_of index.tree) ∙ rw e refl
  | inr e ↦
      find-valid_records index key (keys_of index.tree)
      ∙ rw e (sym (find-mentions key index.tree e))
]

is_current-far :
    (o : Option LogRecordPos) (fid offset far : ℕ)
    → IsFrom far o
    → offset < far
    → is_current o fid offset ≡ false
unfolding is_current
is_current-far none fid offset far h lt = refl
is_current-far (some pos) fid offset far h lt = ground arith

is_current-here :
    (d : Bool) (fid offset : ℕ) (r : LogRecord)
    → (is_current (if d then none else some (pos_at fid offset r)) fid offset && not d) ≡ not d
unfolding is_current
is_current-here true fid offset r = refl
is_current-here false fid offset r = ground arith

record_size : (r : LogRecord) → IsReadable r → 0 < length (encode r).0
record_size r h = omega (arith, length-log_bytes (r ∷ []) (h, tt), length-append (encode r).0 [])

-- A record is copied if it is the last of its key and no deletion.
is_kept_last :
    (valid : List (Bytes × LogRecordPos)) (fid offset : ℕ) (r : LogRecord) (rest : List LogRecord)
    (s : LoadState)
    → IsPlainKey r.key
    → ArePlain rest
    → IsReadable r
    → find r.key valid ≡ found_after r.key fid offset (r ∷ rest) s
    → is_kept valid fid offset r ≡ (is_none (latest r.key rest) && not (r.type == deleted))
unfolding process_all
is_kept_last valid fid offset r rest s h hs readable table =
    let key : (parse_log_record_key r.key).0 ≡ r.key = ap (λ t. t.0) h in
    elim (Option-cases (latest r.key rest)) [
      | inl no_later ↦
          rw
            (
              key,
              table,
              found_last r.key fid offset r rest s h hs no_later (key_eq_self r.key),
              no_later,
            )
            (is_current-here (r.type == deleted) fid offset r)
      | inr (x, later) ↦
          let far =
            found-IsFrom r.key fid (offset + length (encode r).0) rest
              (process_record r (pos_at fid offset r) s) x hs later in
          let old = is_current-far _ fid offset _ far (omega (arith, record_size r readable)) in
          rw (key, table, later, old) refl
    ]

kept-survivors :
    (valid : List (Bytes × LogRecordPos)) (fid offset : ℕ) (rs : List LogRecord) (s : LoadState)
    → ArePlain rs
    → All IsReadable rs
    → ((key : Bytes) → find key valid ≡ found_after key fid offset rs s)
    → kept valid fid offset rs ≡ survivors rs
unfolding kept survivors process_all
kept-survivors valid fid offset [] s h k table = refl
kept-survivors valid fid offset (r ∷ rest) s (h, hs) (k, ks) table =
    let same : clean r ≡ r = ap (λ (t : Bytes × ℕ). record r { key = t.0 }) h in
    let later =
      kept-survivors valid fid (offset + length (encode r).0) rest
        (process_record r (pos_at fid offset r) s) hs ks table in
    rw (is_kept_last valid fid offset r rest s h hs k (table r.key), later, same) refl

live_record-live_record : (o : Option LogRecord) → live_record (live_record o) ≡ live_record o
live_record-live_record none = refl
live_record-live_record (some r) = ground arith

module _ (fid : ℕ) (rs : List LogRecord) (index : BTreeIndex) (plain : ArePlain rs)
    (readable : All IsReadable rs) (replayed : (process_all fid 0 rs (fresh 0)).index ≡ index) where
  abbrev pub copied : List LogRecord
  copied = kept (valid_records index (keys_of index.tree)) fid 0 rs

  copied-survivors : copied ≡ survivors rs
  copied-survivors = kept-survivors _ fid 0 rs (fresh 0) plain readable λ key.
      find-valid_records_keys index key ∙ ap (λ (i : BTreeIndex). find key i.tree) (sym replayed)

  -- The records that the merge copies give each key the value that the log gives it.
  pub meaning-copied : (key : Bytes) → meaning copied key ≡ meaning rs key
  unfolding meaning
  meaning-copied key =
      ap
        (λ (o : Option LogRecord). elim (live_record o) as (λ _. Option Bytes) [
          | none ↦ none
          | some r ↦ some r.value
        ])
        (ap (latest key) copied-survivors ∙ latest-survivors key rs)
      ∙ ap
          (λ (o : Option LogRecord). elim o as (λ _. Option Bytes) [
            | none ↦ none
            | some r ↦ some r.value
          ])
          (live_record-live_record (latest key rs))

  -- They take no more room than the log.
  pub length-copied : length (log_bytes copied) ≤ length (log_bytes rs)
  length-copied = rw copied-survivors (length-survivors rs)

  pub copied-IsReadable : All IsReadable copied
  copied-IsReadable = rw copied-survivors (All-survivors IsReadable rs readable)

  pub copied-ArePlain : ArePlain copied
  copied-ArePlain = rw copied-survivors (All-survivors (λ r. IsPlainKey r.key) rs plain)
