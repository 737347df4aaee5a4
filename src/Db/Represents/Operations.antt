-- ===== src/Db/Represents/Operations.antt =====
-- `put` and `remove` on the map that the database represents.
use raft_bitcask.Prelude.{
  ℕ, ◌+◌, ◌≤◌, ◌≡◌, ◌≢◌, refl, sym, ap, ◌∙◌, true, Option, none, some, [], ◌∷◌, ◌++◌, append-nil,
  length, if◌then◌else◌, Bool-cases, inl, inr,
}
use raft_bitcask.Common.{Bytes, ok, deleted, normal}
use raft_bitcask.Codec.Record.{LogRecord, LogRecordPos, encode}
use raft_bitcask.Codec.SeqKey.{log_record_key_with_seq}
use raft_bitcask.Storage.FileSystem.{Calls, Reliable}
use raft_bitcask.Storage.DataFile.{DataFile}
use raft_bitcask.Storage.DataFile.Reads.{IsReadable}
use raft_bitcask.Index.KeyOrder.{key_eq}
use raft_bitcask.Index.BTree
use raft_bitcask.Index.BTree.{BTreeIndex}
use raft_bitcask.Index.BTree.Laws.{get-put, get-remove}
use raft_bitcask.Db.{Db, put, remove, append_log_record, index_put, index_remove, reclaim}
use raft_bitcask.Db.Append.{written, appended_at, append_log_record-IsLive}
use raft_bitcask.Db.Represents.{Agrees, KeyMap, Represents, Agrees-append}

-- The map with one key set, or without it.
abbrev pub set_key : KeyMap → Bytes → Option Bytes → KeyMap
set_key m key value j = if key_eq key j then value else m j

-- A write that the limits of `read_log_record` admit, and that fits the active file.
pub record HasRoom {os : Calls} (db : Db os) (b : Bytes) (r : LogRecord) : Type 0 where
  pub readable : IsReadable r
  pub room : length b + length (encode r).0 ≤ db.options.data_file_size

-- What `put` logs.
abbrev pub put_record : Bytes → Bytes → LogRecord
put_record key value = record { key = key; value = value; type = normal }

-- What `remove` logs.
abbrev pub remove_record : Bytes → LogRecord
remove_record key = record { key = key; value = []; type = deleted }

-- The change of the index where the key is there.
pub index_remove-found :
    {os : Calls} (s : Db os) (key : Bytes) (pos del_pos : LogRecordPos)
    → BTree.get s.index key ≡ some pos
    → index_remove key del_pos s ≡ (
      ok tt,
      record s {
        index = (BTree.remove s.index key).1;
        reclaim_size =
            reclaim (BTree.remove s.index key).0.0 (reclaim (some del_pos) s.reclaim_size);
      },
    )
unfolding index_remove
index_remove-found s key pos del_pos e =
    let found : (BTree.remove s.index key).0.1 ≡ true = (get-remove s.index key key).2 ∙ rw e in
    rw found

module _ {os : Calls} {disk : Reliable os} (db : Db os) (f : DataFile) (b : Bytes) (m : KeyMap)
    (rep : Represents disk db f b m) where
  -- Set one key of the index to the record just appended.
  index_put-Agrees :
      (key : Bytes) (r : LogRecord)
      → IsReadable r
      → r.type ≢ deleted
      → (j : Bytes)
      → Agrees
          (b ++ (encode r).0)
          f.file_id
          (BTree.get (BTree.put db.index key (appended_at disk f b r)).1 j)
          (set_key m key (some r.value) j)
  index_put-Agrees key r readable live j = elim (Bool-cases (key_eq key j)) [
    | inl same ↦
        rw ((get-put db.index key j (appended_at disk f b r)).0, same)
          (record {
            log_record = r;
            front = b;
            back = [];
            layout = ap (λ t. b ++ t) (sym (append-nil (encode r).0));
            offset = refl;
            in_file = refl;
            readable = readable;
            holds_value = refl;
            live = live;
          })
    | inr other ↦
        rw ((get-put db.index key j (appended_at disk f b r)).0, other)
          (Agrees-append b (encode r).0 f.file_id (BTree.get db.index j) (m j) (rep.agrees j))
  ]

  -- Of a database that stands for a map, on a disk that does not fail: `put` of a key that is not
  -- empty, where its record has room in the active file, succeeds, and the database stands for the map
  -- with the key set to the value.
  pub put-Represents :
      (x : ℕ) (xs value : Bytes)
      → HasRoom db b (put_record (x ∷ xs) value)
      → ((put (x ∷ xs) value db).0 ≡ ok tt)
        × Represents disk
            (put (x ∷ xs) value db).1
            (written disk f (encode (put_record (x ∷ xs) value)).0)
            (b ++ (encode (put_record (x ∷ xs) value)).0)
            (set_key m (x ∷ xs) (some value))
  unfolding put index_put log_record_key_with_seq
  put-Represents x xs value h =
      let r = put_record (x ∷ xs) value in
      let (done, live, tables) = append_log_record-IsLive disk db f b r rep.live h.room in
      rw done (
        refl,
        record {
          live = record {
            active = live.active;
            opened = live.opened;
            holds = live.holds;
            at_end = live.at_end;
          };
          agrees = λ j. rw tables.index (index_put-Agrees (x ∷ xs) r h.readable (λ e. cc) j);
        },
      )

  index_remove-Agrees :
      (key : Bytes) (more : Bytes) (j : Bytes)
      → Agrees
          (b ++ more)
          f.file_id
          (BTree.get (BTree.remove db.index key).1 j)
          (set_key m key none j)
  index_remove-Agrees key more j = elim (Bool-cases (key_eq key j)) [
    | inl same ↦ rw ((get-remove db.index key j).0, same) tt
    | inr other ↦
        rw ((get-remove db.index key j).0, other)
          (Agrees-append b more f.file_id (BTree.get db.index j) (m j) (rep.agrees j))
  ]

  -- `remove` of a key in the map, where its record has room, succeeds, and the database stands for the
  -- map without the key.
  pub remove-Represents :
      (x : ℕ) (xs value : Bytes)
      → m (x ∷ xs) ≡ some value
      → HasRoom db b (remove_record (x ∷ xs))
      → ((remove (x ∷ xs) db).0 ≡ ok tt)
        × Represents disk
            (remove (x ∷ xs) db).1
            (written disk f (encode (remove_record (x ∷ xs))).0)
            (b ++ (encode (remove_record (x ∷ xs))).0)
            (set_key m (x ∷ xs) none)
  unfolding remove log_record_key_with_seq
  remove-Represents x xs value has h = by_entry (BTree.get db.index (x ∷ xs)) refl
    where
      by_entry :
          (entry : Option LogRecordPos)
          → BTree.get db.index (x ∷ xs) ≡ entry
          → ((remove (x ∷ xs) db).0 ≡ ok tt)
            × Represents disk
                (remove (x ∷ xs) db).1
                (written disk f (encode (remove_record (x ∷ xs))).0)
                (b ++ (encode (remove_record (x ∷ xs))).0)
                (set_key m (x ∷ xs) none)
      by_entry none e = absurd (rw (e, has) at (rep.agrees (x ∷ xs)))
      by_entry (some pos) e =
          let r = remove_record (x ∷ xs) in
          let (done, live, tables) = append_log_record-IsLive disk db f b r rep.live h.room in
          let after = (append_log_record r db).1 in
          let there : BTree.get after.index (x ∷ xs) ≡ some pos = rw tables.index e in
          rw (remove, e, done, index_remove-found after (x ∷ xs) pos (appended_at disk f b r) there)
            (
              refl,
              record {
                live = record {
                  active = live.active;
                  opened = live.opened;
                  holds = live.holds;
                  at_end = live.at_end;
                };
                agrees = λ j. rw tables.index (index_remove-Agrees (x ∷ xs) (encode r).0 j);
              },
            )

  -- `remove` of a key that is not empty and not in the map succeeds and changes nothing.
  pub remove_missing : (x : ℕ) (xs : Bytes) → m (x ∷ xs) ≡ none → remove (x ∷ xs) db ≡ (ok tt, db)
  unfolding remove
  remove_missing x xs missing = by_entry (BTree.get db.index (x ∷ xs)) refl
    where
      by_entry :
          (entry : Option LogRecordPos)
          → BTree.get db.index (x ∷ xs) ≡ entry
          → remove (x ∷ xs) db ≡ (ok tt, db)
      by_entry none e = rw (remove, e)
      by_entry (some pos) e = absurd (rw (e, missing) at (rep.agrees (x ∷ xs)))
