-- ===== src/Redis/Database.antt =====
-- The database of src/db.cpp as what the data structures use.
pub mod Visits
pub mod Lists
use raft_bitcask.Prelude.{
  ℕ, zero, suc, ◌+◌, ◌≤◌, ◌<◌, ◌≡◌, refl, sym, ap, ◌∙◌, false, Option, none, some, List, [], ◌∷◌,
  ◌++◌, length, length-append, if◌then◌else◌, arith, Bool-cases, inl, inr,
}
use raft_bitcask.Common.{Bytes, Result, ok, throw}
use raft_bitcask.Codec.Record.{LogRecord, LogRecordPos, encode}
use raft_bitcask.Codec.Record.Header.{length-encode}
use raft_bitcask.Codec.SeqKey.{log_record_key_with_seq}
use raft_bitcask.Storage.FileSystem.{Calls, Reliable}
use raft_bitcask.Storage.DataFile.{DataFile, max_record_size}
use raft_bitcask.Index.KeyOrder.{key_eq, eq_of_key_eq}
use raft_bitcask.Index.BTree
use raft_bitcask.Db.{Db, put, get, remove, append_log_record, index_put, index_remove}
use raft_bitcask.Db.Append.{written, appended_at, append_log_record-IsLive}
use raft_bitcask.Db.Close
use raft_bitcask.Db.Iterator.{DbIterator, new_iterator, rewind, valid, next, key}
use raft_bitcask.Db.Represents.{KeyMap, Represents, get-Represents}
use raft_bitcask.Db.Represents.Operations.{
  set_key, HasRoom, put_record, remove_record, put-Represents, remove-Represents, remove_missing,
  index_remove-found,
}
use raft_bitcask.Redis.Store.{Store, IsMap, Storable, record_room}

-- The keys that a loop over the iterator visits, in at most `n` rounds.
unfoldable pub visited : ℕ → DbIterator → List Bytes
visited zero it = []
visited (suc n) it =
    let rest = visited n (next it) in
    if valid it then elim (key it) [ throw e ↦ [] | ok k ↦ k ∷ rest ] else []

abbrev pub database : Calls → Store
database os = record {
  State = Db os;
  put = put;
  get = get;
  remove = remove;
  keys = λ db.
      visited (length db.index.tree)
        (rewind (new_iterator db (record { prefix = []; reverse = false })));
  close = Close.close;
}

put_options :
    {os : Calls} (disk : Reliable os) (db : Db os) (f : DataFile) (b : Bytes) (m : KeyMap)
    → Represents disk db f b m
    → (x : ℕ) (xs value : Bytes) → HasRoom db b (put_record (x ∷ xs) value)
    → (put (x ∷ xs) value db).1.options ≡ db.options
unfolding put index_put log_record_key_with_seq
put_options disk db f b m rep x xs value h =
    let (done, live, tables) =
      append_log_record-IsLive disk db f b (put_record (x ∷ xs) value) rep.live h.room in
    rw done tables.options

remove_options :
    {os : Calls} (disk : Reliable os) (db : Db os) (f : DataFile) (b : Bytes) (m : KeyMap)
    → Represents disk db f b m
    → (x : ℕ) (xs : Bytes) → HasRoom db b (remove_record (x ∷ xs))
    → (remove (x ∷ xs) db).1.options ≡ db.options
unfolding remove log_record_key_with_seq
remove_options {os} disk db f b m rep x xs h = by_entry (BTree.get db.index (x ∷ xs)) refl
  where
    by_entry :
        (entry : Option LogRecordPos)
        → BTree.get db.index (x ∷ xs) ≡ entry
        → (remove (x ∷ xs) db).1.options ≡ db.options
    by_entry none e = rw (remove, e) refl
    by_entry (some pos) e =
        let r = remove_record (x ∷ xs) in
        let (done, live, tables) = append_log_record-IsLive disk db f b r rep.live h.room in
        let after = (append_log_record r db).1 in
        let there : BTree.get after.index (x ∷ xs) ≡ some pos = rw tables.index e in
        rw (remove, e, done, index_remove-found after (x ∷ xs) pos (appended_at disk f b r) there)
          tables.options

-- The database stands for the map, and so many bytes are left in its active file.
abbrev pub Fits : {os : Calls} → Reliable os → Db os → KeyMap → ℕ → Type 0
Fits disk db m n =
    (f : DataFile) × (b : Bytes) × Represents disk db f b m
    × (length b + n ≤ db.options.data_file_size)

module _ {os : Calls} (disk : Reliable os) where
  pub put-Fits :
      (db : Db os) (m : KeyMap) (n : ℕ) (key value : Bytes)
      → Fits disk db m (record_room key value + n)
      → Storable key value
      → ((put key value db).0 ≡ ok tt)
        × Fits disk (put key value db).1 (set_key m key (some value)) n
  put-Fits db m n [] value fits s = absurd (omega (arith, s.0))
  put-Fits db m n (x ∷ xs) value (f, b, rep, room) s =
      let r = put_record (x ∷ xs) value in
      let size = length-encode r (omega (arith, s.1), omega (arith, s.2)) in
      let h : HasRoom db b r = record {
        readable = record { some_key = s.0; key_fits = s.1; value_fits = s.2 };
        room = omega (arith, size.1, room);
      } in
      let (done, rep') = put-Represents db f b m rep x xs value h in
      (
        done,
        (
          written disk f (encode r).0,
          b ++ (encode r).0,
          rep',
          rw (put_options disk db f b m rep x xs value h)
              (omega (arith, room, size.1, length-append b (encode r).0)),
        ),
      )

  -- The removal of a key that is missing anyway.
  set_key_missing :
      (db : Db os) (f : DataFile) (b : Bytes) (m : KeyMap) (key : Bytes)
      → m key ≡ none
      → Represents disk db f b m
      → Represents disk db f b (set_key m key none)
  set_key_missing db f b m key missing rep = record {
    live = rep.live;
    agrees = λ j. elim (Bool-cases (key_eq key j)) [
      | inl same ↦
          let gone : m j ≡ none = ap m (sym (eq_of_key_eq key j same)) ∙ missing in
          rw same (rw gone at (rep.agrees j))
      | inr other ↦ rw other (rep.agrees j)
    ];
  }

  pub remove-Fits :
      (db : Db os) (m : KeyMap) (n : ℕ) (key : Bytes)
      → Fits disk db m (record_room key [] + n)
      → Storable key []
      → ((remove key db).0 ≡ ok tt) × Fits disk (remove key db).1 (set_key m key none) n
  remove-Fits db m n [] fits s = absurd (omega (arith, s.0))
  remove-Fits db m n (x ∷ xs) (f, b, rep, room) s = by_value (m (x ∷ xs)) refl
    where
      by_value :
          (value : Option Bytes)
          → m (x ∷ xs) ≡ value
          → ((remove (x ∷ xs) db).0 ≡ ok tt)
            × Fits disk (remove (x ∷ xs) db).1 (set_key m (x ∷ xs) none) n
      by_value none e =
          rw (remove_missing db f b m rep x xs e)
            (refl, (f, b, set_key_missing db f b m (x ∷ xs) e rep, omega (arith, room)))
      by_value (some value) e =
          let r = remove_record (x ∷ xs) in
          let size = length-encode r (omega (arith, s.1), omega arith) in
          let h : HasRoom db b r = record {
            readable = record { some_key = s.0; key_fits = s.1; value_fits = s.2 };
            room = omega (arith, size.1, room);
          } in
          let (done, rep') = remove-Represents db f b m rep x xs value e h in
          (
            done,
            (
              written disk f (encode r).0,
              b ++ (encode r).0,
              rep',
              rw (remove_options disk db f b m rep x xs h)
                  (omega (arith, room, size.1, length-append b (encode r).0)),
            ),
          )

  -- On a disk that does not fail, the database keeps the laws of a map, while its log fits one data file.
  abbrev pub database-IsMap : IsMap (database os)
  database-IsMap = record {
    Stands = λ db m n. Fits disk db m n;
    get-Stands = λ db m n fits key. get-Represents db fits.0 fits.1 m fits.2 key;
    Stands-le = λ db m n k fits le. (fits.0, fits.1, fits.2, omega (arith, fits.3, le));
    put-Stands = put-Fits;
    remove-Stands = remove-Fits;
  }
