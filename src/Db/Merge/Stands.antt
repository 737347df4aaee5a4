-- ===== src/Db/Merge/Stands.antt =====
-- A log of writes outside transactions, and the map that the database of src/db.cpp stands for.
use raft_bitcask.Prelude.{
  ℕ, ◌≢◌, ◌+◌, ◌≡◌, ◌<◌, refl, sym, ap, ◌∙◌, Bool, true, false, Option, none, some, List, [], ◌∷◌,
  ◌++◌, append_assoc, length, length-append, All, ◌==◌, if◌then◌else◌, arith, Option-cases, inl,
  inr,
}
use raft_bitcask.Common.{Bytes, ok, deleted}
use raft_bitcask.Codec.Record.{LogRecord, encode}
use raft_bitcask.Storage.FileSystem.{FilePath, Calls, Reliable}
use raft_bitcask.Storage.DataFile.{DataFile}
use raft_bitcask.Storage.DataFile.Reads.{IsReadable}
use raft_bitcask.Index.BTree
use raft_bitcask.Index.BTree.{BTreeIndex, find}
use raft_bitcask.Index.KeyOrder.{key_eq}
use raft_bitcask.Db.{Db, Options, get}
use raft_bitcask.Db.Append.{IsLive}
use raft_bitcask.Db.Open.{blank, init}
use raft_bitcask.Db.Open.Restart.{is_some, HasOneFile, init-process_all}
use raft_bitcask.Db.Represents.{Agrees, Represents, lookup_result, get-Represents}
use raft_bitcask.Db.Load.{LoadState, process_record}
use raft_bitcask.Db.Load.Replay.{log_bytes, process_all, pos_at}
use raft_bitcask.Db.Load.Recovery.{IsLogged, fresh}
use raft_bitcask.Db.Merge.Last.{
  ArePlain, latest, live_record, meaning, found_after, found_last, found_unchanged,
}

latest_cons :
    (key : Bytes) (r : LogRecord) (rest : List LogRecord)
    → latest key rest ≡ none
    → latest key (r ∷ rest) ≡ (if key_eq r.key key then some r else none)
unfolding latest
latest_cons key r rest e = rw (latest, e) refl

latest_later :
    (key : Bytes) (r x : LogRecord) (rest : List LogRecord)
    → latest key rest ≡ some x
    → latest key (r ∷ rest) ≡ some x
unfolding latest
latest_later key r x rest e = rw (latest, e) refl

abbrev value_of : Option LogRecord → Option Bytes
value_of none = none
value_of (some r) = some r.value

Agrees-if :
    (b front back : Bytes) (fid : ℕ) (r : LogRecord) (d : Bool)
    → (r.type == deleted) ≡ d
    → IsReadable r
    → b ≡ front ++ ((encode r).0 ++ back)
    → Agrees b fid
        (if d then none else some (pos_at fid (length front) r))
        (value_of (if d then none else some r))
Agrees-if b front back fid r true e readable layout = tt
Agrees-if b front back fid r false e readable layout = record {
  log_record = r;
  front = front;
  back = back;
  layout = layout;
  offset = refl;
  in_file = refl;
  readable = readable;
  holds_value = refl;
  live = ground arith;
}

or_else : Option LogRecord → LogRecord → LogRecord
or_else none r = r
or_else (some x) r = x

-- The entry that the replay leaves for a key of the log is that of its last record.
Agrees-latest :
    (b : Bytes) (key : Bytes) (fid : ℕ) (front : Bytes) (rs : List LogRecord) (s : LoadState)
    (x : LogRecord)
    → ArePlain rs
    → All IsReadable rs
    → b ≡ front ++ log_bytes rs
    → latest key rs ≡ some x
    → Agrees b fid (found_after key fid (length front) rs s) (value_of (live_record (some x)))
unfolding process_all latest or_else
Agrees-latest b key fid front [] s x h k layout e = absurd cc
Agrees-latest b key fid front (r ∷ rest) s x (h, hs) (k, ks) layout e =
    let bytes = (encode r).0 in
    let next : length front + length bytes ≡ length (front ++ bytes) =
      sym (length-append front bytes) in
    elim (Option-cases (latest key rest)) [
      | inr (y, later) ↦
          let same : y ≡ x =
            ap (λ (o : Option LogRecord). or_else o y)
              (sym (latest_later key r y rest later) ∙ e) in
          let ih =
            Agrees-latest b key fid (front ++ bytes) rest
              (process_record r (pos_at fid (length front) r) s) y hs ks
              (layout ∙ sym (append_assoc front bytes (log_bytes rest))) later in
          rw (sym same) (rw (sym next) at ih)
      | inl no_later ↦
          let here : key_eq r.key key ≡ true = ground arith in
          let only : latest key (r ∷ rest) ≡ some r =
            latest_cons key r rest no_later ∙ rw here refl in
          let same : r ≡ x = ap (λ (o : Option LogRecord). or_else o r) (sym only ∙ e) in
          rw (sym same, found_last key fid (length front) r rest s h hs no_later here)
            (Agrees-if b front (log_bytes rest) fid r (r.type == deleted) refl k layout)
    ]

-- Where the replay of a log gives the index of the database, with keys that are read back as they
-- were logged, the database stands for the map that gives each key the value of its last record, if
-- that is no deletion.
pub meaning-Represents :
    {os : Calls} (disk : Reliable os) (db : Db os) (f : DataFile) (rs : List LogRecord)
    → IsLive disk db f (log_bytes rs)
    → All IsReadable rs
    → (process_all f.file_id 0 rs (fresh 0)).index ≡ db.index
    → ArePlain rs
    → Represents disk db f (log_bytes rs) (meaning rs)
unfolding meaning BTree.get find
meaning-Represents disk db f rs live readable same_index plain = record {
  live = live;
  agrees = λ key.
      let replayed : found_after key f.file_id 0 rs (fresh 0) ≡ find key db.index.tree =
        ap (λ (i : BTreeIndex). find key i.tree) same_index in
      elim (Option-cases (latest key rs)) [
        | inl none_there ↦
            let missing : find key db.index.tree ≡ none =
              sym replayed ∙ found_unchanged key f.file_id 0 rs (fresh 0) plain none_there in
            rw (meaning, none_there, missing) tt
        | inr (x, there) ↦
            rw (meaning, there)
              (rw replayed at (
                Agrees-latest (log_bytes rs) key f.file_id [] rs (fresh 0) x plain readable refl
                  there))
      ];
}

-- On a disk that does not fail, and where the removal of a file leaves the others alone: where the log
-- of a database is that of its index, with keys that are read back as they were logged, and another
-- log of such records gives each key the same value, a start in a directory that holds this other log
-- as its one data file and no hint file, on fuel for its bytes and one round more, returns, and `get`
-- of any key then returns or throws what it does in the database.
pub init-meaning :
    {os : Calls} (disk : Reliable os) (file_exists : os.Disk → FilePath → Bool)
    (stat : (d : os.Disk) (p : FilePath) → file_exists d p ≡ is_some (disk.content d p))
    (remove_file : os.Disk → FilePath → os.Disk)
    (removes : (d : os.Disk) (p q : FilePath)
      → q ≢ p
      → disk.content (remove_file d p) q ≡ disk.content d q)
    (db : Db os) (f : DataFile) (rs : List LogRecord)
    → IsLogged disk db f rs
    → ArePlain rs
    → (ks : List LogRecord) → All IsReadable ks
    → ArePlain ks
    → ((key : Bytes) → meaning ks key ≡ meaning rs key)
    → (d : os.Disk) (options : Options) → HasOneFile disk d options.dir_path (log_bytes ks)
    → (fuel : ℕ) (is_initial : Bool) → length (log_bytes ks) < fuel
    → (out : Db os) × (init file_exists remove_file fuel is_initial (blank d options)
        ≡ some (ok out))
      × ((key : Bytes) → get out key ≡ get db key)
init-meaning disk file_exists stat remove_file removes db f rs logged plain ks readable ks_plain
      same d options one fuel is_initial enough =
    let (out, e, index, live) =
      init-process_all disk file_exists stat remove_file removes d options (log_bytes ks) one ks
        fuel refl readable enough is_initial in
    let new = meaning-Represents disk out _ ks live readable (sym index) ks_plain in
    let old =
      meaning-Represents disk db f rs logged.live logged.readable (logged.replayed 0) plain in
    (
      out,
      e,
      λ key.
          get-Represents out _ (log_bytes ks) (meaning ks) new key
          ∙ ap (lookup_result key) (same key)
          ∙ sym (get-Represents db f (log_bytes rs) (meaning rs) old key),
    )
