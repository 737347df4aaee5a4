-- ===== src/Db/Load/Atomic.antt =====
-- `load_index_from_data_files` on the records of a batch.
use raft_bitcask.Prelude.{
  ℕ, ◌+◌, ◌≡◌, ◌≢◌, refl, sym, ap, ◌∙◌, true, false, some, List, [], ◌∷◌, ◌++◌, append_assoc,
  length, All, arith, ◌==◌, ◌⊎◌, inl, inr, append-nil,
}
use raft_bitcask.Common.{IsU64, normal, deleted, txn_finished}
use raft_bitcask.Codec.Record.{LogRecord, LogRecordPos, encode}
use raft_bitcask.Codec.SeqKey.{parse-with_seq}
use raft_bitcask.Storage.FileSystem.{Calls}
use raft_bitcask.Index.BTree
use raft_bitcask.Db.{Db}
use raft_bitcask.Db.Batch
use raft_bitcask.Db.Batch.{tagged, txn_fin_record}
use raft_bitcask.Db.Load.{
  LoadState, TransactionRecord, note_seq, process_record, stash, finish, find_txn, erase_txn,
  apply_all, update_index,
}
use raft_bitcask.Db.Load.Replay.{pos_at, process_all, process_all-append, log_bytes}
use raft_bitcask.Db.Load.Recovery.{note_seq-index}

-- What a batch may hold.
abbrev pub IsPending : LogRecord → Type 0
IsPending r = (r.type ≡ normal) ⊎ (r.type ≡ deleted)

-- The records of a batch as they are logged.
abbrev pub tagged_all : ℕ → List LogRecord → List LogRecord
tagged_all seq_no [] = []
tagged_all seq_no (r ∷ rest) = tagged seq_no r ∷ tagged_all seq_no rest

-- The records of a batch that is logged from `offset` on, with the positions they have there.
abbrev pub waiting : ℕ → ℕ → ℕ → List LogRecord → List TransactionRecord
waiting fid seq_no offset [] = []
waiting fid seq_no offset (r ∷ rest) =
    record { log_record = r; pos = pos_at fid offset (tagged seq_no r) }
    ∷ waiting fid seq_no (offset + length (encode (tagged seq_no r)).0) rest

module _ (seq_no : ℕ) (fits : IsU64 seq_no) (nonzero : seq_no ≢ 0) where
  not_finish : (r : LogRecord) → IsPending r → (r.type == txn_finished) ≡ false
  not_finish r (inl e) = rw e (ground arith)
  not_finish r (inr e) = rw e (ground arith)

  -- The replay of one record of the batch.
  process_record-tagged :
      (r : LogRecord) (pos : LogRecordPos) (s : LoadState)
      → IsPending r
      → ((process_record (tagged seq_no r) pos s).index ≡ s.index)
        × ((process_record (tagged seq_no r) pos s).transaction_records
            ≡ stash seq_no (record { log_record = r; pos = pos }) s.transaction_records)
  unfolding process_record
  process_record-tagged r pos s pending =
      let other : (seq_no == 0) ≡ false = ground arith in
      rw (parse-with_seq r.key seq_no fits nonzero, other, not_finish r pending)
        (note_seq-index seq_no _)

  -- Where the finish mark of a batch is missing, none of its writes and deletions, logged under a
  -- 64-bit number that is not 0, changes the index that is rebuilt.
  pub process_all-unfinished :
      (fid offset : ℕ) (ps : List LogRecord) (s : LoadState)
      → All IsPending ps
      → (process_all fid offset (tagged_all seq_no ps) s).index ≡ s.index
  unfolding process_all
  process_all-unfinished fid offset [] s h = refl
  process_all-unfinished fid offset (r ∷ ps) s (h, hs) =
      process_all-unfinished fid (offset + length (encode (tagged seq_no r)).0) ps _ hs
      ∙ (process_record-tagged r (pos_at fid offset (tagged seq_no r)) s h).0

  -- The records of the batch wait, in their order.
  process_all-waiting :
      (fid offset : ℕ) (ps : List LogRecord) (ts : List TransactionRecord) (s : LoadState)
      → All IsPending ps
      → s.transaction_records ≡ (seq_no, ts) ∷ []
      → (process_all fid offset (tagged_all seq_no ps) s).transaction_records
        ≡ (seq_no, ts ++ waiting fid seq_no offset ps) ∷ []
  unfolding process_all stash
  process_all-waiting fid offset [] ts s h e = e ∙ ap (λ t. (seq_no, t) ∷ []) (sym (append-nil ts))
  process_all-waiting fid offset (r ∷ ps) ts s (h, hs) e =
      let t : TransactionRecord = record {
        log_record = r;
        pos = pos_at fid offset (tagged seq_no r);
      } in
      let here : (seq_no == seq_no) ≡ true = ground arith in
      let s' = process_record (tagged seq_no r) (pos_at fid offset (tagged seq_no r)) s in
      let one : s'.transaction_records ≡ (seq_no, ts ++ (t ∷ [])) ∷ [] =
        (process_record-tagged r (pos_at fid offset (tagged seq_no r)) s h).1
        ∙ ap (stash seq_no t) e
        ∙ rw here refl in
      process_all-waiting fid (offset + length (encode (tagged seq_no r)).0) ps (ts ++ (t ∷ [])) s'
        hs one
      ∙ ap (λ l. (seq_no, l) ∷ []) (append_assoc ts (t ∷ []) _)

-- The positions of the records of a batch that is logged from `offset` on.
abbrev pub positions : ℕ → ℕ → ℕ → List LogRecord → List LogRecordPos
positions fid seq_no offset [] = []
positions fid seq_no offset (r ∷ rest) =
    pos_at fid offset (tagged seq_no r)
    ∷ positions fid seq_no (offset + length (encode (tagged seq_no r)).0) rest

apply_all-records :
    (ts : List TransactionRecord) (s : LoadState)
    → (apply_all ts s).transaction_records ≡ s.transaction_records
unfolding apply_all update_index
apply_all-records [] s = refl
apply_all-records (t ∷ ts) s = apply_all-records ts _ ∙ ground arith

-- One update in the replay, against the one in `commit`.
update_index-index :
    {os : Calls} (r : LogRecord) (pos : LogRecordPos) (s : LoadState) (db : Db os)
    → IsPending r
    → s.index ≡ db.index
    → (update_index r.key r.type pos s).index ≡ (Batch.update_index r pos db).index
unfolding update_index Batch.update_index
update_index-index r pos s db (inl h) e = simp h (ap (λ i. (BTree.put i r.key pos).1) e)
update_index-index r pos s db (inr h) e = simp h (ap (λ i. (BTree.remove i r.key).1) e)

-- The replay updates the index as `commit` did.
apply_all-update_indexes :
    {os : Calls} (fid seq_no : ℕ) (ps : List LogRecord) (offset : ℕ) (s : LoadState) (db : Db os)
    → All IsPending ps
    → s.index ≡ db.index
    → (apply_all (waiting fid seq_no offset ps) s).index
      ≡ (Batch.update_indexes ps (positions fid seq_no offset ps) db).index
unfolding apply_all Batch.update_indexes
apply_all-update_indexes fid seq_no [] offset s db h e = e
apply_all-update_indexes fid seq_no (r ∷ ps) offset s db (h, hs) e =
    apply_all-update_indexes fid seq_no ps (offset + length (encode (tagged seq_no r)).0)
      (update_index r.key r.type (pos_at fid offset (tagged seq_no r)) s)
      (Batch.update_index r (pos_at fid offset (tagged seq_no r)) db) hs
      (update_index-index r (pos_at fid offset (tagged seq_no r)) s db h e)

module _ (seq_no : ℕ) (fits : IsU64 seq_no) (nonzero : seq_no ≢ 0) where
  -- The finish mark of the batch applies what waits, and no transaction is left open.
  process_record-finish :
      (pos : LogRecordPos) (ts : List TransactionRecord) (s : LoadState)
      → s.transaction_records ≡ (seq_no, ts) ∷ []
      → ((process_record (txn_fin_record seq_no) pos s).index ≡ (apply_all ts s).index)
        × ((process_record (txn_fin_record seq_no) pos s).transaction_records ≡ [])
  unfolding process_record finish find_txn erase_txn
  process_record-finish pos ts s e =
      let other : (seq_no == 0) ≡ false = ground arith in
      let here : (seq_no == seq_no) ≡ true = ground arith in
      let step : process_record (txn_fin_record seq_no) pos s ≡ note_seq seq_no (finish seq_no s) =
        rw (parse-with_seq [] seq_no fits nonzero, other) refl in
      let found : find_txn seq_no s.transaction_records ≡ some ts = rw (e, here) refl in
      let rest : erase_txn seq_no (apply_all ts s).transaction_records ≡ [] =
        ap (erase_txn seq_no) (apply_all-records ts s ∙ e) ∙ rw here refl in
      let (index, records) = note_seq-index seq_no (finish seq_no s) in
      (
        ap (λ t. t.index) step ∙ index ∙ rw (finish, found) refl,
        ap (λ t. t.transaction_records) step ∙ records ∙ rw (finish, found) rest,
      )

  -- A batch with its finish mark, under a 64-bit number that is not 0, replayed where no transaction is
  -- open, makes the updates of the index that `commit` makes, and leaves no transaction open.
  pub process_all-finished :
      {os : Calls} (fid offset : ℕ) (r : LogRecord) (ps : List LogRecord) (s : LoadState)
      (db : Db os)
      → All IsPending (r ∷ ps)
      → s.transaction_records ≡ []
      → s.index ≡ db.index
      → ((process_all fid offset
            (tagged_all seq_no (r ∷ ps) ++ (txn_fin_record seq_no ∷ []))
            s).index
          ≡ (Batch.update_indexes (r ∷ ps) (positions fid seq_no offset (r ∷ ps)) db).index)
        × ((process_all fid offset
              (tagged_all seq_no (r ∷ ps) ++ (txn_fin_record seq_no ∷ []))
              s).transaction_records
            ≡ [])
  unfolding process_all stash
  process_all-finished fid offset r ps s db (h, hs) closed same =
      let t : TransactionRecord = record {
        log_record = r;
        pos = pos_at fid offset (tagged seq_no r);
      } in
      let next = offset + length (encode (tagged seq_no r)).0 in
      let one =
        process_record-tagged seq_no fits nonzero r (pos_at fid offset (tagged seq_no r)) s h in
      let opened : (process_record (tagged seq_no r) (pos_at fid offset (tagged seq_no r))
            s).transaction_records
          ≡ (seq_no, t ∷ []) ∷ [] =
        one.1 ∙ ap (stash seq_no t) closed in
      let mid = process_all fid offset (tagged_all seq_no (r ∷ ps)) s in
      let held : mid.transaction_records ≡ (seq_no, waiting fid seq_no offset (r ∷ ps)) ∷ [] =
        process_all-waiting seq_no fits nonzero fid next ps (t ∷ []) _ hs opened in
      let kept : mid.index ≡ db.index =
        process_all-unfinished seq_no fits nonzero fid offset (r ∷ ps) s (h, hs) ∙ same in
      let end = offset + length (log_bytes (tagged_all seq_no (r ∷ ps))) in
      let (index, records) =
        process_record-finish (pos_at fid end (txn_fin_record seq_no))
          (waiting fid seq_no offset (r ∷ ps)) mid held in
      let split =
        process_all-append fid offset (tagged_all seq_no (r ∷ ps)) (txn_fin_record seq_no ∷ []) s in
      (
        ap (λ l. l.index) split
            ∙ index
            ∙ apply_all-update_indexes fid seq_no (r ∷ ps) offset mid db (h, hs) kept,
        ap (λ l. l.transaction_records) split ∙ records,
      )
