-- ===== src/Db/Merge/Last.antt =====
-- The last record of a key in a log, and the entry that the replay of src/db.cpp leaves for the key.
use raft_bitcask.Prelude.{
  ℕ, ◌+◌, ◌≤◌, ◌≡◌, refl, ◌∙◌, Bool, true, false, Option, none, some, List, [], ◌∷◌, length, All,
  ◌==◌, if◌then◌else◌, arith, Bool-cases, Option-cases, inl, inr,
}
use raft_bitcask.Common.{Bytes, deleted}
use raft_bitcask.Codec.Record.{LogRecord, LogRecordPos, encode}
use raft_bitcask.Codec.SeqKey.{IsPlainKey}
use raft_bitcask.Index.KeyOrder.{key_eq}
use raft_bitcask.Index.BTree
use raft_bitcask.Index.BTree.{BTreeIndex, find, keys_of}
use raft_bitcask.Index.BTree.Laws.{get-put, get-remove}
use raft_bitcask.Db.Load.{LoadState, process_record, update_index}
use raft_bitcask.Db.Load.Replay.{process_all, pos_at}
use raft_bitcask.Db.Load.Recovery.{note_seq-index}

-- The last record of a key.
unfoldable pub latest : Bytes → List LogRecord → Option LogRecord
latest key [] = none
latest key (r ∷ rest) = elim (latest key rest) [
  | some later ↦ some later
  | none ↦ if key_eq r.key key then some r else none
]

abbrev pub live_record : Option LogRecord → Option LogRecord
live_record none = none
live_record (some r) = if r.type == deleted then none else some r

-- The value that a log of writes outside transactions gives a key.
unfoldable pub meaning : List LogRecord → Bytes → Option Bytes
meaning rs key = elim (live_record (latest key rs)) [ none ↦ none | some r ↦ some r.value ]

process_record_index :
    (r : LogRecord) (pos : LogRecordPos) (s : LoadState)
    → IsPlainKey r.key
    → (process_record r pos s).index ≡ (update_index r.key r.type pos s).index
unfolding process_record
process_record_index r pos s plain = rw plain (note_seq-index 0 _).0

-- The replay of a record of a plain key.
find-process_record :
    (r : LogRecord) (pos : LogRecordPos) (s : LoadState) (key : Bytes)
    → IsPlainKey r.key
    → find key (process_record r pos s).index.tree ≡ (
        if key_eq r.key key
        then (if r.type == deleted then none else some pos)
        else find key s.index.tree)
unfolding update_index BTree.get
find-process_record r pos s key plain =
    let e = process_record_index r pos s plain in
    elim (Bool-cases (r.type == deleted)) [
      | inl gone ↦ rw (e, update_index, gone) ((get-remove s.index r.key key).0)
      | inr stays ↦ rw (e, update_index, stays) ((get-put s.index r.key key pos).0)
    ]

abbrev pub ArePlain : List LogRecord → Type 0
ArePlain rs = All (λ r. IsPlainKey r.key) rs

-- The state behind a log.
abbrev pub found_after : Bytes → ℕ → ℕ → List LogRecord → LoadState → Option LogRecordPos
found_after key fid offset rs s = find key (process_all fid offset rs s).index.tree

-- A log without the key leaves its entry alone.
pub found_unchanged :
    (key : Bytes) (fid offset : ℕ) (rs : List LogRecord) (s : LoadState)
    → ArePlain rs
    → latest key rs ≡ none
    → found_after key fid offset rs s ≡ find key s.index.tree
unfolding process_all latest
found_unchanged key fid offset [] s h e = refl
found_unchanged key fid offset (r ∷ rest) s (h, hs) e =
    let no_later : latest key rest ≡ none = ground arith in
    let other : key_eq r.key key ≡ false = ground arith in
    let pos = pos_at fid offset r in
    found_unchanged key fid (offset + length (encode r).0) rest (process_record r pos s) hs no_later
    ∙ find-process_record r pos s key h
    ∙ rw other refl

abbrev pub IsFrom : ℕ → Option LogRecordPos → Type 0
IsFrom offset none = Unit
IsFrom offset (some pos) = offset ≤ pos.offset

pub IsFrom-le : (a b : ℕ) (o : Option LogRecordPos) → a ≤ b → IsFrom b o → IsFrom a o
IsFrom-le a b none h k = tt
IsFrom-le a b (some pos) h k = omega arith

IsFrom-if :
    (offset : ℕ) (d : Bool) (pos : LogRecordPos)
    → offset ≤ pos.offset
    → IsFrom offset (if d then none else some pos)
IsFrom-if offset true pos h = tt
IsFrom-if offset false pos h = h

-- Behind a log that begins with the last record of the key.
pub found_last :
    (key : Bytes) (fid offset : ℕ) (r : LogRecord) (rest : List LogRecord) (s : LoadState)
    → IsPlainKey r.key
    → ArePlain rest
    → latest key rest ≡ none
    → key_eq r.key key ≡ true
    → found_after key fid offset (r ∷ rest) s
      ≡ (if r.type == deleted then none else some (pos_at fid offset r))
unfolding process_all
found_last key fid offset r rest s h hs no_later same =
    let pos = pos_at fid offset r in
    let here = find-process_record r pos s key h in
    found_unchanged key fid (offset + length (encode r).0) rest (process_record r pos s) hs no_later
    ∙ (rw same at here)

-- A log with the key leaves no position in front of it.
pub found-IsFrom :
    (key : Bytes) (fid offset : ℕ) (rs : List LogRecord) (s : LoadState) (x : LogRecord)
    → ArePlain rs
    → latest key rs ≡ some x
    → IsFrom offset (found_after key fid offset rs s)
unfolding process_all latest
found-IsFrom key fid offset [] s x h e = absurd cc
found-IsFrom key fid offset (r ∷ rest) s x (h, hs) e = elim (Option-cases (latest key rest)) [
  | inr (y, later) ↦ IsFrom-le offset (offset + length (encode r).0) _ (omega arith) (
      found-IsFrom key fid (offset + length (encode r).0) rest
        (process_record r (pos_at fid offset r) s) y hs later)
  | inl no_later ↦
      let pos = pos_at fid offset r in
      let same : key_eq r.key key ≡ true = ground arith in
      rw (found_last key fid offset r rest s h hs no_later same)
        (IsFrom-if offset (r.type == deleted) pos (omega arith))
]
