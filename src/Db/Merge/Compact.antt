-- ===== src/Db/Merge/Compact.antt =====
-- The merge in src/db.cpp of a database whose log is in one data file.
use raft_bitcask.Prelude.{ℕ, ◌<◌, ◌≤◌, ◌≡◌, ◌≢◌, refl, sym, some, List, [], length, All, arith}
use raft_bitcask.Common.{Bytes}
use raft_bitcask.Codec.Record.{LogRecord}
use raft_bitcask.Storage.FileSystem.{FilePath, Calls, Reliable}
use raft_bitcask.Storage.DataFile.{DataFile}
use raft_bitcask.Storage.DataFile.Reads.{IsReadable}
use raft_bitcask.Index.BTree
use raft_bitcask.Index.BTree.{keys_of}
use raft_bitcask.Db.{Db, list_keys}
use raft_bitcask.Db.Load.Replay.{log_bytes}
use raft_bitcask.Db.Load.Recovery.{IsLogged}
use raft_bitcask.Db.Merge.{MergeState, valid_records, merge_loop}
use raft_bitcask.Db.Merge.Loop.{IsReady, merge_loop-kept}
use raft_bitcask.Db.Merge.Last.{ArePlain, meaning}
use raft_bitcask.Db.Merge.Kept.{
  copied, copied-IsReadable, copied-ArePlain, meaning-copied, length-copied,
}

module _ {os : Calls} (disk : Reliable os) (db : Db os) (f : DataFile) (rs : List LogRecord)
    (logged : IsLogged disk db f rs) (plain : ArePlain rs) where
  -- On a disk that does not fail, where the log of a database is that of its index, with keys that are
  -- read back as they were logged, and lies whole in the file that is read: the loop of the merge, with
  -- fuel for one round more than there are records, ends, and the empty database in the merge directory,
  -- where the log has room, then has a log of such records that gives each key the value that the old
  -- one gives it. The file, that of the new log and the hint file are three.
  pub merge_loop-meaning :
      (gp hp : FilePath)
      → f.path ≢ gp
      → f.path ≢ hp
      → gp ≢ hp
      → (fuel : ℕ) → length rs < fuel
      → (st : MergeState os) (g : DataFile) → IsReady disk gp hp f.path (log_bytes rs) st g []
      → length (log_bytes rs) ≤ st.merge_db.options.data_file_size
      → (ks : List LogRecord) × (st' : MergeState os) × (g' : DataFile) × (merge_loop os fuel
            (valid_records db.index (list_keys db))
            f
            0
            st
          ≡ some st')
        × IsReady disk gp hp f.path (log_bytes rs) st' g' (log_bytes ks)
        × All IsReadable ks
        × ArePlain ks
        × ((key : Bytes) → meaning ks key ≡ meaning rs key)
  unfolding list_keys BTree.list_keys
  merge_loop-meaning gp hp g_f h_f g_h fuel enough st g ready room =
      let ks = copied f.file_id rs db.index plain logged.readable (logged.replayed 0) in
      let small = length-copied f.file_id rs db.index plain logged.readable (logged.replayed 0) in
      let (st', g', e, ready', id) =
        merge_loop-kept disk gp hp f.path (log_bytes rs) g_f h_f g_h (λ e. g_h (sym e))
          (valid_records db.index (keys_of db.index.tree)) f refl logged.live.opened fuel rs [] st g
          [] logged.readable refl enough ready (omega (arith, small)) in
      (
        ks,
        st',
        g',
        e,
        ready',
        copied-IsReadable f.file_id rs db.index plain logged.readable (logged.replayed 0),
        copied-ArePlain f.file_id rs db.index plain logged.readable (logged.replayed 0),
        meaning-copied f.file_id rs db.index plain logged.readable (logged.replayed 0),
      )
