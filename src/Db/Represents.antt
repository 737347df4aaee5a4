-- ===== src/Db/Represents.antt =====
-- The database as a map from keys to values, while its log fits one data file.
pub mod Operations
use raft_bitcask.Prelude.{
  ℕ, ◌+◌, ◌≤◌, ◌<◌, ◌≡◌, ◌≢◌, refl, ap, ◌∙◌, Bool, true, false, Option, none, some, [], ◌∷◌, ◌++◌,
  append_assoc, length, if◌then◌else◌, arith, ◌==◌, Option-cases, inl, inr,
}
use raft_bitcask.Common.{Bytes, ok, throw, key_empty, key_not_found, deleted, Result}
use raft_bitcask.Codec.Record.{LogRecord, LogRecordPos, encode}
use raft_bitcask.Storage.FileSystem.{Calls, Reliable}
use raft_bitcask.Storage.DataFile.{DataFile}
use raft_bitcask.Storage.DataFile.Reads.{IsReadable, read_log_record-encode}
use raft_bitcask.Index.BTree
use raft_bitcask.Db.{Db, get, get_value_by_position, value_in, file_of}
use raft_bitcask.Db.Append.{IsLive}

-- The record of a position stands in the file, and holds the value.
pub record IsStored (b : Bytes) (fid : ℕ) (pos : LogRecordPos) (value : Bytes) : Type 0 where
  pub log_record : LogRecord
  pub front : Bytes
  pub back : Bytes
  pub layout : b ≡ front ++ ((encode log_record).0 ++ back)
  pub offset : pos.offset ≡ length front
  pub in_file : pos.fid ≡ fid
  pub readable : IsReadable log_record
  pub holds_value : log_record.value ≡ value
  pub live : log_record.type ≢ deleted

-- An entry of the index against the value of its key.
abbrev pub Agrees : Bytes → ℕ → Option LogRecordPos → Option Bytes → Type 0
Agrees b fid none none = Unit
Agrees b fid none (some value) = ⊥
Agrees b fid (some pos) none = ⊥
Agrees b fid (some pos) (some value) = IsStored b fid pos value

-- A map from keys to values.
abbrev pub KeyMap : Type 0
KeyMap = Bytes → Option Bytes

-- The database stands for the map `m`: its log is `b`, in the active file `f`, and the index has
-- for each key of the map, and no other, the position of a record with the key's value.
pub record Represents {os : Calls} (disk : Reliable os) (db : Db os) (f : DataFile) (b : Bytes)
    (m : KeyMap) : Type 0 where
  pub live : IsLive disk db f b
  pub agrees : (key : Bytes) → Agrees b f.file_id (BTree.get db.index key) (m key)

-- Bytes behind the log leave every stored record in place.
IsStored-append :
    (b more : Bytes) (fid : ℕ) (pos : LogRecordPos) (value : Bytes)
    → IsStored b fid pos value
    → IsStored (b ++ more) fid pos value
IsStored-append b more fid pos value s = record {
  log_record = s.log_record;
  front = s.front;
  back = s.back ++ more;
  layout =
      ap (λ t. t ++ more) s.layout
      ∙ append_assoc s.front ((encode s.log_record).0 ++ s.back) more
      ∙ ap (λ t. s.front ++ t) (append_assoc (encode s.log_record).0 s.back more);
  offset = s.offset;
  in_file = s.in_file;
  readable = s.readable;
  holds_value = s.holds_value;
  live = s.live;
}

pub Agrees-append :
    (b more : Bytes) (fid : ℕ) (entry : Option LogRecordPos) (value : Option Bytes)
    → Agrees b fid entry value
    → Agrees (b ++ more) fid entry value
Agrees-append b more fid none none h = tt
Agrees-append b more fid none (some value) h = h
Agrees-append b more fid (some pos) none h = h
Agrees-append b more fid (some pos) (some value) h = IsStored-append b more fid pos value h

-- What `get` of a key returns, by the value that the map has for it.
abbrev pub lookup_result : Bytes → Option Bytes → Result Bytes
lookup_result [] value = throw key_empty
lookup_result (x ∷ xs) none = throw key_not_found
lookup_result (x ∷ xs) (some value) = ok value

module _ {os : Calls} {disk : Reliable os} (db : Db os) (f : DataFile) (b : Bytes) (m : KeyMap)
    (rep : Represents disk db f b m) where
  stored_value :
      (pos : LogRecordPos) (value : Bytes)
      → IsStored b f.file_id pos value
      → get_value_by_position db pos ≡ ok value
  unfolding get_value_by_position
  stored_value pos value s =
      let read =
        read_log_record-encode disk db.disk f b rep.live.opened rep.live.holds s.log_record s.front
          s.back s.readable s.layout in
      let here : (f.file_id == f.file_id) ≡ true = ground arith in
      rw (rep.live.active, s.offset, s.in_file, here, value_in, read)
        (ground (arith, s.live, s.holds_value))

  -- Of a database that stands for a map, `get` throws on the empty key, returns the value of a key in
  -- the map, and throws
  -- `KeyNotFoundError` on any other.
  pub get-Represents : (key : Bytes) → get db key ≡ lookup_result key (m key)
  unfolding get
  get-Represents [] = refl
  get-Represents (x ∷ xs) = by_entry (BTree.get db.index (x ∷ xs)) (m (x ∷ xs)) refl refl
    where
      by_entry :
          (entry : Option LogRecordPos) (value : Option Bytes)
          → BTree.get db.index (x ∷ xs) ≡ entry
          → m (x ∷ xs) ≡ value
          → get db (x ∷ xs) ≡ lookup_result (x ∷ xs) (m (x ∷ xs))
      by_entry none none e v = rw (get, e, v)
      by_entry none (some value) e v = absurd (rw (e, v) at (rep.agrees (x ∷ xs)))
      by_entry (some pos) none e v = absurd (rw (e, v) at (rep.agrees (x ∷ xs)))
      by_entry (some pos) (some value) e v =
          rw (get, e, v) (stored_value pos value (rw (e, v) at (rep.agrees (x ∷ xs))))
