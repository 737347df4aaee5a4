-- ===== src/Db/Load/Recovery.antt =====
-- The index that `load_index_from_data_files` rebuilds, against that of the database that wrote the
-- log, for writes outside transactions.
use raft_bitcask.Prelude.{
  ℕ, ◌+◌, ◌≤◌, ◌<◌, ◌≡◌, refl, sym, ap, ◌∙◌, true, some, List, [], ◌∷◌, ◌++◌, append-nil, length,
  All, All-append, arith, length-append, ◌==◌, Bool-cases, inl, inr, ltb,
}
use raft_bitcask.Common.{Bytes, ok}
use raft_bitcask.Codec.Record.{LogRecord, LogRecordPos, encode}
use raft_bitcask.Codec.Record.Header.{length-encode}
use raft_bitcask.Codec.SeqKey.{log_record_key_with_seq, IsPlainKey}
use raft_bitcask.Storage.FileSystem.{Calls, Reliable}
use raft_bitcask.Storage.DataFile.{DataFile}
use raft_bitcask.Storage.DataFile.Reads.{IsReadable}
use raft_bitcask.Index.BTree
use raft_bitcask.Index.BTree.{BTreeIndex}
use raft_bitcask.Db.{Db, put, remove, append_log_record, index_put}
use raft_bitcask.Db.Append.{IsLive, written, appended_at, append_log_record-IsLive}
use raft_bitcask.Db.Represents.Operations.{HasRoom, put_record, remove_record, index_remove-found}
use raft_bitcask.Db.Load.{
  LoadState, start, update_index, note_seq, process_record, load_loop, load_files, load_index,
  files_to_process, move_write_off,
}
use raft_bitcask.Db.Load.Replay.{
  log_bytes, log_bytes-append, pos_at, process_all, process_all-append, load_loop-log,
}

-- The local variables before the loop, the count of reclaimable bytes being `n`.
abbrev pub fresh : ℕ → LoadState
fresh n = record {
  index = BTree.new_index;
  reclaim_size = n;
  transaction_records = [];
  current_seq_no = 0;
}

-- The log in the active file is that of the records `rs`, and their replay gives the index, with no
-- transaction left open.
pub record IsLogged {os : Calls} (disk : Reliable os) (db : Db os) (f : DataFile)
    (rs : List LogRecord) : Type 0 where
  pub live : IsLive disk db f (log_bytes rs)
  pub readable : All IsReadable rs
  pub replayed : (n : ℕ) → (process_all f.file_id 0 rs (fresh n)).index ≡ db.index
  pub closed : (n : ℕ) → (process_all f.file_id 0 rs (fresh n)).transaction_records ≡ []

-- A record at the end of a log is replayed last.
pub process_all-snoc :
    (fid : ℕ) (rs : List LogRecord) (r : LogRecord) (s : LoadState)
    → process_all fid 0 (rs ++ (r ∷ [])) s
      ≡ process_record r (pos_at fid (length (log_bytes rs)) r) (process_all fid 0 rs s)
unfolding process_all
process_all-snoc fid rs r s =
    let e : 0 + length (log_bytes rs) ≡ length (log_bytes rs) = omega arith in
    process_all-append fid 0 rs (r ∷ []) s
    ∙ ap (λ (n : ℕ). process_all fid n (r ∷ []) (process_all fid 0 rs s)) e

pub log_bytes-snoc :
    (rs : List LogRecord) (r : LogRecord)
    → log_bytes (rs ++ (r ∷ [])) ≡ log_bytes rs ++ (encode r).0
log_bytes-snoc rs r =
    log_bytes-append rs (r ∷ []) ∙ ap (λ t. log_bytes rs ++ t) (append-nil (encode r).0)

-- A log has a byte at least for each of its records.
pub length-log_bytes : (rs : List LogRecord) → All IsReadable rs → length rs ≤ length (log_bytes rs)
length-log_bytes [] h = omega arith
length-log_bytes (r ∷ rest) (h, hs) = omega (
  arith,
  length-append (encode r).0 (log_bytes rest),
  length-encode r (omega (arith, h.key_fits), omega (arith, h.value_fits)),
  length-log_bytes rest hs,
)

-- What `note_seq` leaves alone.
pub note_seq-index :
    (n : ℕ) (s : LoadState)
    → ((note_seq n s).index ≡ s.index)
      × ((note_seq n s).transaction_records ≡ s.transaction_records)
unfolding note_seq
note_seq-index n s = elim (Bool-cases (ltb s.current_seq_no n)) [
  | inl e ↦ rw e (refl, refl)
  | inr e ↦ rw e (refl, refl)
]

-- The replay of a record of `put`, and of one of `remove`.
process_record-put :
    (key value : Bytes) (pos : LogRecordPos) (s : LoadState)
    → IsPlainKey key
    → ((process_record (put_record key value) pos s).index ≡ (BTree.put s.index key pos).1)
      × ((process_record (put_record key value) pos s).transaction_records ≡ s.transaction_records)
unfolding process_record update_index
process_record-put key value pos s plain = rw plain (note_seq-index 0 _)

process_record-remove :
    (key : Bytes) (pos : LogRecordPos) (s : LoadState)
    → IsPlainKey key
    → ((process_record (remove_record key) pos s).index ≡ (BTree.remove s.index key).1)
      × ((process_record (remove_record key) pos s).transaction_records ≡ s.transaction_records)
unfolding process_record update_index
process_record-remove key pos s plain = rw plain (note_seq-index 0 _)

module _ {os : Calls} {disk : Reliable os} (db : Db os) (f : DataFile) (rs : List LogRecord)
    (logged : IsLogged disk db f rs) where
  -- `put` of a key that is not empty and that `parse_log_record_key` leaves whole, where its record has
  -- room: the log has the record at its end, and its replay gives the index that `put` left.
  pub put-IsLogged :
      (x : ℕ) (xs value : Bytes)
      → IsPlainKey (x ∷ xs)
      → HasRoom db (log_bytes rs) (put_record (x ∷ xs) value)
      → IsLogged disk
          (put (x ∷ xs) value db).1
          (written disk f (encode (put_record (x ∷ xs) value)).0)
          (rs ++ (put_record (x ∷ xs) value ∷ []))
  unfolding put index_put log_record_key_with_seq
  put-IsLogged x xs value plain h =
      let r = put_record (x ∷ xs) value in
      let (done, live, tables) =
        append_log_record-IsLive disk db f (log_bytes rs) r logged.live h.room in
      rw done record {
        live = record {
          active = live.active;
          opened = live.opened;
          holds = live.holds ∙ ap some (sym (log_bytes-snoc rs r));
          at_end = live.at_end ∙ ap length (sym (log_bytes-snoc rs r));
        };
        readable = All-append IsReadable rs (r ∷ []) logged.readable (h.readable, tt);
        replayed = λ n.
            ap (λ s. s.index) (process_all-snoc f.file_id rs r (fresh n))
            ∙ (process_record-put (x ∷ xs) value _ _ plain).0
            ∙ ap (λ i. (BTree.put i (x ∷ xs) (appended_at disk f (log_bytes rs) r)).1)
                (logged.replayed n ∙ sym tables.index);
        closed = λ n.
            ap (λ s. s.transaction_records) (process_all-snoc f.file_id rs r (fresh n))
            ∙ (process_record-put (x ∷ xs) value _ _ plain).1
            ∙ logged.closed n;
      }

  -- `remove` of a key of the index, under the same conditions: the log has the record of the deletion
  -- at its end, and its replay gives the index that `remove` left.
  pub remove-IsLogged :
      (x : ℕ) (xs : Bytes) (pos : LogRecordPos)
      → BTree.get db.index (x ∷ xs) ≡ some pos
      → IsPlainKey (x ∷ xs)
      → HasRoom db (log_bytes rs) (remove_record (x ∷ xs))
      → IsLogged disk
          (remove (x ∷ xs) db).1
          (written disk f (encode (remove_record (x ∷ xs))).0)
          (rs ++ (remove_record (x ∷ xs) ∷ []))
  unfolding remove log_record_key_with_seq
  remove-IsLogged x xs pos there plain h =
      let r = remove_record (x ∷ xs) in
      let (done, live, tables) =
        append_log_record-IsLive disk db f (log_bytes rs) r logged.live h.room in
      let after = (append_log_record r db).1 in
      let still : BTree.get after.index (x ∷ xs) ≡ some pos = rw tables.index there in
      rw
        (
          remove,
          there,
          done,
          index_remove-found after (x ∷ xs) pos (appended_at disk f (log_bytes rs) r) still,
        )
        record {
          live = record {
            active = live.active;
            opened = live.opened;
            holds = live.holds ∙ ap some (sym (log_bytes-snoc rs r));
            at_end = live.at_end ∙ ap length (sym (log_bytes-snoc rs r));
          };
          readable = All-append IsReadable rs (r ∷ []) logged.readable (h.readable, tt);
          replayed = λ n.
              ap (λ s. s.index) (process_all-snoc f.file_id rs r (fresh n))
              ∙ (process_record-remove (x ∷ xs) _ _ plain).0
              ∙ ap (λ i. (BTree.remove i (x ∷ xs)).1) (logged.replayed n ∙ sym tables.index);
          closed = λ n.
              ap (λ s. s.transaction_records) (process_all-snoc f.file_id rs r (fresh n))
              ∙ (process_record-remove (x ∷ xs) _ _ plain).1
              ∙ logged.closed n;
        }

  -- Where the active file is the only one and its log is that of the index, a restart, with fuel for
  -- the bytes of the log, returns, rebuilds the index that the database had, and leaves the active file
  -- to be written where it was.
  pub load_index-IsLogged :
      (fuel : ℕ)
      → files_to_process db ≡ f ∷ []
      → length (log_bytes rs) < fuel
      → (out : Db os) × (load_index os fuel db ≡ some (ok out))
        × (out.index ≡ db.index)
        × (out.active_file ≡ some f)
  unfolding load_index load_files move_write_off
  load_index-IsLogged fuel files enough =
      let b = log_bytes rs in
      let s = process_all f.file_id 0 rs (start db) in
      let count : length rs < fuel = omega (arith, length-log_bytes rs logged.readable) in
      let loop : load_loop os fuel db.disk f 0 (start db) ≡ some (ok (s, length b)) =
        load_loop-log disk db.disk f b logged.live.opened logged.live.holds fuel rs [] (start db)
          logged.readable refl count in
      let unmoved : some (record f { write_off = length b }) ≡ some f =
        ap (λ (n : ℕ). some (record f { write_off = n })) (sym logged.live.at_end) in
      let same_id : (f.file_id == f.file_id) ≡ true = ground arith in
      rw (load_index, files, load_files, loop, logged.live.active, same_id)
        (
          record db {
            index = s.index;
            reclaim_size = s.reclaim_size;
            seq_no = s.current_seq_no;
            active_file = some (record f { write_off = length b });
          },
          refl,
          logged.replayed db.reclaim_size,
          unmoved,
        )
