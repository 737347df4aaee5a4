-- ===== src/Db/Merge/Loop.antt =====
-- The loop of `merge` in src/db.cpp over a file that holds whole records, on a disk that does not fail.
use raft_bitcask.Prelude.{
  ℕ, zero, suc, ◌+◌, ◌<◌, ◌≤◌, ◌≡◌, ◌≢◌, refl, sym, ap, ◌∙◌, Bool, true, not, ◌&&◌, some, List, [],
  ◌∷◌, ◌++◌, append_assoc, append-nil, length, length-append, All, ◌==◌, if◌then◌else◌, arith,
  Bool-cases, inl, inr,
}
use raft_bitcask.Common.{Bytes, ok, deleted, normal}
use raft_bitcask.Codec.Record.{LogRecord, LogRecordPos, encode, encode_pos}
use raft_bitcask.Codec.SeqKey.{parse_log_record_key, log_record_key_with_seq}
use raft_bitcask.Storage.FileSystem.{FilePath, Calls, Reliable, overwrite}
use raft_bitcask.Storage.DataFile.{DataFile, ReadLogRecord, read_log_record, write_hint_record}
use raft_bitcask.Storage.DataFile
use raft_bitcask.Storage.DataFile.Reads.{IsReadable, read_log_record-encode, read_log_record_end}
use raft_bitcask.Storage.DataFile.Writes.{write-content, write_other}
use raft_bitcask.Index.BTree.{find}
use raft_bitcask.Db.{Options, append_log_record}
use raft_bitcask.Db.Append.{
  IsLive, written, appended_at, append_log_record-IsLive, append_log_record-other,
}
use raft_bitcask.Db.Load.{outcome}
use raft_bitcask.Db.Load.Replay.{log_bytes}
use raft_bitcask.Db.Merge.{
  MergeState, is_current, write_hint, append_merged, merge_record, attempt, merge_loop,
}

-- A record with its key as the index has it.
abbrev pub clean : LogRecord → LogRecord
clean r = record r { key = (parse_log_record_key r.key).0 }

-- The record is the one that the index points to, and no deletion.
abbrev pub is_kept : List (Bytes × LogRecordPos) → ℕ → ℕ → LogRecord → Bool
is_kept valid fid offset r =
    is_current (find (parse_log_record_key r.key).0 valid) fid offset && not (r.type == deleted)

-- The records of a log that the merge copies, the first of the log at `offset`.
unfoldable pub kept : List (Bytes × LogRecordPos) → ℕ → ℕ → List LogRecord → List LogRecord
kept valid fid offset [] = []
kept valid fid offset (r ∷ rest) =
    let others = kept valid fid (offset + length (encode r).0) rest in
    if is_kept valid fid offset r then clean r ∷ others else others

-- What one record of the log gives.
abbrev step_records : List (Bytes × LogRecordPos) → ℕ → ℕ → LogRecord → List LogRecord
step_records valid fid offset r = if is_kept valid fid offset r then clean r ∷ [] else []

log_bytes-kept :
    (valid : List (Bytes × LogRecordPos)) (fid offset : ℕ) (r : LogRecord) (rest : List LogRecord)
    → log_bytes (kept valid fid offset (r ∷ rest))
      ≡ log_bytes (step_records valid fid offset r)
        ++ log_bytes (kept valid fid (offset + length (encode r).0) rest)
unfolding kept
log_bytes-kept valid fid offset r rest = elim (Bool-cases (is_kept valid fid offset r)) [
  | inl e ↦ rw (kept, e, append-nil (encode (clean r)).0) refl
  | inr e ↦ rw (kept, e) refl
]

-- The database under construction has the log `c` in its file `g`, the hint file is open, and the
-- file that is read holds `b`.
pub record IsReady {os : Calls} (disk : Reliable os) (gp hp fp : FilePath) (b : Bytes)
    (st : MergeState os) (g : DataFile) (c : Bytes) : Type 0 where
  pub live : IsLive disk st.merge_db g c
  pub own_path : g.path ≡ gp
  pub hint_path : st.hint_file.path ≡ hp
  pub hint_open : st.hint_file.is_open ≡ true
  pub hints : Bytes
  pub hint_holds : disk.content st.merge_db.disk hp ≡ some hints
  pub source : disk.content st.merge_db.disk fp ≡ some b

module _ {os : Calls} (disk : Reliable os) (gp hp fp : FilePath) (b : Bytes) (g_f : fp ≢ gp)
    (h_f : fp ≢ hp) (g_h : gp ≢ hp) (h_g : hp ≢ gp) where
  -- A record that is copied.
  append_merged-IsReady :
      (st : MergeState os) (g : DataFile) (c : Bytes) (r : LogRecord)
      → IsReady disk gp hp fp b st g c
      → length c + length (encode r).0 ≤ st.merge_db.options.data_file_size
      → ((append_merged r st).0 ≡ ok (appended_at disk g c r))
        × IsReady disk gp hp fp b
            (append_merged r st).1
            (written disk g (encode r).0)
            (c ++ (encode r).0)
        × ((append_merged r st).1.merge_db.options ≡ st.merge_db.options)
  unfolding append_merged
  append_merged-IsReady st g c r ready room =
      let (done, live, tables) = append_log_record-IsLive disk st.merge_db g c r ready.live room in
      let stays : (q : FilePath)
          → q ≢ gp
          → disk.content (append_log_record r st.merge_db).1.disk q
            ≡ disk.content st.merge_db.disk q =
        λ q other.
          append_log_record-other disk st.merge_db g c r q ready.live room
            (rw ready.own_path other) in
      (
        done,
        record {
          live = live;
          own_path = ready.own_path;
          hint_path = ready.hint_path;
          hint_open = ready.hint_open;
          hints = ready.hints;
          hint_holds = stays hp h_g ∙ ready.hint_holds;
          source = stays fp g_f ∙ ready.source;
        },
        tables.options,
      )

  write_hint-IsReady :
      (st : MergeState os) (g : DataFile) (c key : Bytes) (pos : LogRecordPos)
      → IsReady disk gp hp fp b st g c
      → ((write_hint key pos st).0 ≡ ok tt)
        × IsReady disk gp hp fp b (write_hint key pos st).1 g c
        × ((write_hint key pos st).1.merge_db.options ≡ st.merge_db.options)
  unfolding write_hint write_hint_record
  write_hint-IsReady st g c key pos ready =
      let d = st.merge_db.disk in
      let hint = st.hint_file in
      let r : LogRecord = record { key = key; value = encode_pos pos; type = normal } in
      let bytes = (encode r).0 in
      let has : disk.content d hint.path ≡ some ready.hints =
        ap (λ p. disk.content d p) ready.hint_path ∙ ready.hint_holds in
      let (done, content) = write-content disk d hint ready.hints bytes ready.hint_open has in
      let stays : (q : FilePath)
          → q ≢ hp
          → disk.content (DataFile.write os d hint bytes).0 q ≡ disk.content d q =
        λ q other.
          write_other disk d hint ready.hints bytes ready.hint_open has q
            (rw ready.hint_path other) in
      rw (write_hint, done)
        (
          refl,
          record {
            live = record {
              active = ready.live.active;
              opened = ready.live.opened;
              holds = stays g.path (rw ready.own_path g_h) ∙ ready.live.holds;
              at_end = ready.live.at_end;
            };
            own_path = ready.own_path;
            hint_path = ready.hint_path;
            hint_open = ready.hint_open;
            hints = overwrite hint.write_off bytes ready.hints;
            hint_holds =
                ap (λ p. disk.content (DataFile.write os d hint bytes).0 p) (sym ready.hint_path)
                ∙ content;
            source = stays fp h_f ∙ ready.source;
          },
          refl,
        )

  merge_record-IsReady :
      (valid : List (Bytes × LogRecordPos)) (fid offset : ℕ) (st : MergeState os) (g : DataFile)
      (c : Bytes) (r : LogRecord)
      → IsReady disk gp hp fp b st g c
      → length c + length (log_bytes (step_records valid fid offset r))
        ≤ st.merge_db.options.data_file_size
      → ((merge_record valid fid offset r st).0 ≡ ok tt)
        × (g' : DataFile) × IsReady disk gp hp fp b
            (merge_record valid fid offset r st).1
            g'
            (c ++ log_bytes (step_records valid fid offset r))
        × (g'.file_id ≡ g.file_id)
        × ((merge_record valid fid offset r st).1.merge_db.options ≡ st.merge_db.options)
  unfolding merge_record log_record_key_with_seq
  merge_record-IsReady valid fid offset st g c r ready room =
      elim (Bool-cases (is_kept valid fid offset r)) [
        | inl e ↦
            let x = clean r in
            let one : log_bytes (x ∷ []) ≡ (encode x).0 = append-nil (encode x).0 in
            let (done, ready', same) = append_merged-IsReady st g c x ready (rw (e, one) at room) in
            let (done', ready'', same') =
              write_hint-IsReady (append_merged x st).1 (written disk g (encode x).0)
                (c ++ (encode x).0) x.key (appended_at disk g c x) ready' in
            rw (merge_record, e, done, one)
              (done', written disk g (encode x).0, ready'', refl, same' ∙ same)
        | inr e ↦ rw (merge_record, e, append-nil c) (refl, g, ready, refl, refl)
      ]

  module _ (valid : List (Bytes × LogRecordPos)) (f : DataFile) (f_path : f.path ≡ fp)
      (opened : f.is_open ≡ true) where
    -- The loop ends with `out` in the file of the database under construction.
    abbrev pub EndsWith : ℕ → ℕ → MergeState os → DataFile → Bytes → Type 0
    EndsWith fuel offset st g out =
        (st' : MergeState os) × (g' : DataFile) × (merge_loop os fuel valid f offset st ≡ some st')
        × IsReady disk gp hp fp b st' g' out
        × (g'.file_id ≡ g.file_id)

    after_round :
        (fuel offset fuel' offset' : ℕ) (st st1 : MergeState os) (g g1 : DataFile)
        (out out1 : Bytes)
        → merge_loop os fuel' valid f offset' st ≡ merge_loop os fuel valid f offset st1
        → out1 ≡ out
        → g1.file_id ≡ g.file_id
        → EndsWith fuel offset st1 g1 out1
        → EndsWith fuel' offset' st g out
    after_round fuel offset fuel' offset' st st1 g g1 out out1 loop same id
          (st', g', e, ready, id') =
        (st', g', loop ∙ e, rw (sym same) ready, id' ∙ id)

    -- On a disk that does not fail, over an open file that holds the log of records within the limits,
    -- where the records to copy have room, the loop, with fuel for one round more than there are
    -- records, ends, and the log of the database under construction has those records at its end.
    pub merge_loop-kept :
        (fuel : ℕ) (rs : List LogRecord) (front : Bytes) (st : MergeState os) (g : DataFile)
        (c : Bytes)
        → All IsReadable rs
        → b ≡ front ++ log_bytes rs
        → length rs < fuel
        → IsReady disk gp hp fp b st g c
        → length c + length (log_bytes (kept valid f.file_id (length front) rs))
          ≤ st.merge_db.options.data_file_size
        → EndsWith fuel
            (length front)
            st
            g
            (c ++ log_bytes (kept valid f.file_id (length front) rs))
    unfolding merge_loop kept outcome
    merge_loop-kept zero rs front st g c h layout enough ready room = absurd (omega arith)
    merge_loop-kept (suc fuel) [] front st g c h layout enough ready room =
        let whole : front ≡ b = sym (layout ∙ append-nil front) in
        let size : length front ≡ length b = ap length whole in
        let has : disk.content st.merge_db.disk f.path ≡ some b =
          ap (λ p. disk.content st.merge_db.disk p) f_path ∙ ready.source in
        let at_end =
          read_log_record_end disk st.merge_db.disk f b opened has (length front) (omega arith) in
        rw (merge_loop, at_end, outcome, at_end, append-nil c) (st, g, refl, ready, refl)
    merge_loop-kept (suc fuel) (r ∷ rest) front st g c (h, hs) layout enough ready room =
        let bytes = (encode r).0 in
        let offset = length front in
        let next : offset + length bytes ≡ length (front ++ bytes) =
          sym (length-append front bytes) in
        let tail : b ≡ (front ++ bytes) ++ log_bytes rest =
          layout ∙ sym (append_assoc front bytes (log_bytes rest)) in
        let has : disk.content st.merge_db.disk f.path ≡ some b =
          ap (λ p. disk.content st.merge_db.disk p) f_path ∙ ready.source in
        let read =
          read_log_record-encode disk st.merge_db.disk f b opened has r front (log_bytes rest) h
            layout in
        let now = log_bytes (step_records valid f.file_id offset r) in
        let later = log_bytes (kept valid f.file_id (length (front ++ bytes)) rest) in
        let all : log_bytes (kept valid f.file_id offset (r ∷ rest)) ≡ now ++ later =
          log_bytes-kept valid f.file_id offset r rest
          ∙ ap (λ (n : ℕ). now ++ log_bytes (kept valid f.file_id n rest)) next in
        let sizes : length (log_bytes (kept valid f.file_id offset (r ∷ rest)))
            ≡ length now + length later =
          ap (λ (t : Bytes). length t) all ∙ length-append now later in
        let (done, g1, ready1, same_id, same) =
          merge_record-IsReady valid f.file_id offset st g c r ready (omega arith) in
        let st1 = (merge_record valid f.file_id offset r st).1 in
        let round : attempt valid f offset (read_log_record os st.merge_db.disk f offset) st
            ≡ (ok (record { log_record = r; size = length bytes }), st1) =
          rw (read, done) refl in
        let limit : st1.merge_db.options.data_file_size ≡ st.merge_db.options.data_file_size =
          ap (λ (o : Options). o.data_file_size) same in
        let loop : merge_loop os (suc fuel) valid f offset st
            ≡ merge_loop os fuel valid f (length (front ++ bytes)) st1 =
          rw (merge_loop, round, outcome, round, next) refl in
        after_round fuel (length (front ++ bytes)) (suc fuel) offset st st1 g g1
          (c ++ log_bytes (kept valid f.file_id offset (r ∷ rest))) ((c ++ now) ++ later) loop
          (append_assoc c now later ∙ ap (λ (t : Bytes). c ++ t) (sym all)) same_id
          (merge_loop-kept fuel rest (front ++ bytes) st1 g1 (c ++ now) hs tail (omega arith) ready1
            (omega (arith, length-append c now)))
