-- ===== src/Db/Backup/Copies.antt =====
-- A backup in src/db.cpp of a database with one data file.
use mathlib.Core.Option
use raft_bitcask.Prelude.{
  ℕ, ◌<◌, ◌≡◌, ◌≢◌, refl, sym, ap, ◌∙◌, Bool, true, false, Option, none, some, List, [], ◌∷◌, ◌++◌,
  ◌==◌, if◌then◌else◌, length, length-append, arith, Bool-cases, inl, inr,
}
use raft_bitcask.Common.{Bytes, Result, ok, throw}
use raft_bitcask.Storage.FileSystem.{FilePath, Calls, Reliable}
use raft_bitcask.Storage.Utils
use raft_bitcask.Storage.Utils.{Streams}
use raft_bitcask.Storage.Utils.Copy.{
  ReliableStreams, IsApart, ended, is_there, copy_file-IsApart, copy_file-IsCopied,
  create_directory-content, file_exists-content,
}
use raft_bitcask.Storage.DataFile.{DataFile}
use raft_bitcask.Db.{Db, sync_file, add_id, has_id}
use raft_bitcask.Db.Append.{IsLive}
use raft_bitcask.Db.FileName.{
  get_data_file_name, length-get_data_file_name, get_data_file_name-injective,
}
use raft_bitcask.Db.Close.{hint_file_name, seq_no_file_name, sync_files}
use raft_bitcask.Db.Open.{is_empty}
use raft_bitcask.Db.Open.Restart.{is_some, HasOneFile}
use raft_bitcask.Db.Backup.{
  copied_by, copy_if_there, copy_active, copy_older, copy_aux, copy_files, list_active, sync_all,
  backup,
}

-- What `backup` needs of the functions on files and directories, for copies of files shorter than a
-- bound.
pub record Copies {os : Calls} (disk : Reliable os)
    (create_directory : os.Disk → FilePath → Result (Unit {0}) × os.Disk)
    (file_exists : os.Disk → FilePath → Bool)
    (copy_file : os.Disk → FilePath → FilePath → Result (Unit {0}) × os.Disk) (bound : ℕ)
    : Type 0 where
  pub stat : (d : os.Disk) (p : FilePath) → file_exists d p ≡ is_some (disk.content d p)
  pub created : (d : os.Disk) (p : FilePath) → (create_directory d p).0 ≡ ok tt
  pub created_content :
      (d : os.Disk) (p q : FilePath) → disk.content (create_directory d p).1 q ≡ disk.content d q
  pub copied :
      (d : os.Disk) (p q : FilePath) (b : Bytes)
      → p ≢ q
      → disk.content d p ≡ some b
      → length b < bound
      → (copy_file d p q).0 ≡ ok tt
  pub copied_content :
      (d : os.Disk) (p q : FilePath) (b : Bytes)
      → p ≢ q
      → disk.content d p ≡ some b
      → length b < bound
      → disk.content (copy_file d p q).1 q ≡ some b
  pub copied_other :
      (d : os.Disk) (p q r : FilePath)
      → r ≢ q
      → disk.content (copy_file d p q).1 r ≡ disk.content d r

copied_by-ok :
    {Disk : Type 0} (x : Result (Unit {0}) × Disk) → x.0 ≡ ok tt → copied_by x ≡ (ok true, x.1)
copied_by-ok (ok _, d) e = refl
copied_by-ok (throw e', d) e = absurd cc

copied_by-disk : {Disk : Type 0} (x : Result (Unit {0}) × Disk) → (copied_by x).1 ≡ x.1
copied_by-disk (ok _, d) = refl
copied_by-disk (throw e, d) = refl

-- Paths of the directory apart.
aux_differs :
    (dir_path : FilePath) (fid : ℕ) (name : FilePath)
    → length name < 14
    → (dir_path ++ (b'/' ∷ name)) ≢ get_data_file_name dir_path fid
aux_differs dir_path fid name short e = omega (
  arith,
  ap (λ (t : FilePath). length t) e,
  length-append dir_path (b'/' ∷ name),
  length-get_data_file_name dir_path fid,
)

hint_seq_differ :
    (dir_path : FilePath)
    → (dir_path ++ (b'/' ∷ hint_file_name)) ≢ (dir_path ++ (b'/' ∷ seq_no_file_name))
hint_seq_differ dir_path e = omega (
  arith,
  ap (λ (t : FilePath). length t) e,
  length-append dir_path (b'/' ∷ hint_file_name),
  length-append dir_path (b'/' ∷ seq_no_file_name),
)

module _ {os : Calls} (disk : Reliable os)
    (create_directory : os.Disk → FilePath → Result (Unit {0}) × os.Disk)
    (file_exists : os.Disk → FilePath → Bool)
    (copy_file : os.Disk → FilePath → FilePath → Result (Unit {0}) × os.Disk) (bound : ℕ)
    (copies : Copies disk create_directory file_exists copy_file bound) where
  copy_if_there-there :
      (from to : FilePath) (d : os.Disk) (b : Bytes)
      → from ≢ to
      → disk.content d from ≡ some b
      → length b < bound
      → copy_if_there file_exists copy_file from to d ≡ (ok true, (copy_file d from to).1)
  unfolding copy_if_there
  copy_if_there-there from to d b apart has short =
      let there : file_exists d from ≡ true = copies.stat d from ∙ ap is_some has in
      rw (copy_if_there, there)
        (copied_by-ok (copy_file d from to) (copies.copied d from to b apart has short))

  copy_if_there-other :
      (from to : FilePath) (d : os.Disk) (q : FilePath)
      → q ≢ to
      → disk.content (copy_if_there file_exists copy_file from to d).1 q ≡ disk.content d q
  unfolding copy_if_there
  copy_if_there-other from to d q other = elim (Bool-cases (file_exists d from)) [
    | inl e ↦
        rw (copy_if_there, e)
          (ap (λ (x : os.Disk). disk.content x q) (copied_by-disk (copy_file d from to))
            ∙ copies.copied_other d from to q other)
    | inr e ↦ rw (copy_if_there, e) refl
  ]

  copy_if_there_missing :
      (from to : FilePath) (d : os.Disk)
      → disk.content d from ≡ none
      → copy_if_there file_exists copy_file from to d ≡ (ok false, d)
  unfolding copy_if_there
  copy_if_there_missing from to d has =
      let gone : file_exists d from ≡ false = copies.stat d from ∙ ap is_some has in
      rw (copy_if_there, gone) refl

  -- Nothing but the disk changes, and no content.
  sync_files-content :
      (fs : List (ℕ × DataFile)) (db : Db os)
      → (d : os.Disk) × (sync_files fs db ≡ (ok tt, record db { disk = d }))
        × ((q : FilePath) → disk.content d q ≡ disk.content db.disk q)
  unfolding sync_files sync_file
  sync_files-content [] db = (db.disk, refl, λ q. refl)
  sync_files-content ((fid, f) ∷ rest) db = elim (Bool-cases f.is_open) [
    | inl e ↦
        let (d, done, same) =
          sync_files-content rest (record db { disk = os.flush db.disk f.path }) in
        (d, rw (sync_files, e, done) refl, λ q. same q ∙ disk.flush-content db.disk f.path q)
    | inr e ↦
        let (d, done, same) = sync_files-content rest db in (d, rw (sync_files, e, done) refl, same)
  ]

  sync_all-content :
      (db : Db os) (f : DataFile)
      → db.active_file ≡ some f
      → f.is_open ≡ true
      → (d : os.Disk) × (sync_all db ≡ record db { disk = d })
        × ((q : FilePath) → disk.content d q ≡ disk.content db.disk q)
  unfolding sync_all sync_file
  sync_all-content db f active opened =
      let flushed : Db os = record db { disk = os.flush db.disk f.path } in
      let first : ◌≡◌ {A = Db os}
          (elim db.active_file as (λ _. Db os) [ none ↦ db | some g ↦ (sync_file g db).1 ])
          flushed =
        ap
          (λ (o : Option DataFile). elim o as (λ _. Db os) [
            | none ↦ db
            | some g ↦ (sync_file g db).1
          ])
          active
        ∙ ap (λ (t : Bool). if t then record db { disk = os.flush db.disk f.path } else db)
            opened in
      let (d, done, same) = sync_files-content db.older_files flushed in
      (
        d,
        ap (λ (s : Db os). (sync_files db.older_files s).1) first
            ∙ ap (λ (x : Result (Unit {0}) × Db os). x.1) done,
        λ q. same q ∙ disk.flush-content db.disk f.path q,
      )

  -- The copies of the auxiliary files leave other files alone.
  copy_aux-other :
      (from to : FilePath) (d : os.Disk) (q : FilePath)
      → q ≢ (to ++ (b'/' ∷ hint_file_name))
      → q ≢ (to ++ (b'/' ∷ seq_no_file_name))
      → disk.content (copy_aux file_exists copy_file from to d) q ≡ disk.content d q
  unfolding copy_aux
  copy_aux-other from to d q no_hint no_seq =
      copy_if_there-other _ _ _ q no_seq ∙ copy_if_there-other _ _ d q no_hint

  copy_files-one :
      (db : Db os) (f : DataFile) (b : Bytes) (to : FilePath) (d : os.Disk)
      → sync_all db ≡ record db { disk = d }
      → db.active_file ≡ some f
      → db.file_ids ≡ f.file_id ∷ []
      → get_data_file_name db.options.dir_path f.file_id ≢ get_data_file_name to f.file_id
      → length b < bound
      → disk.content d (get_data_file_name db.options.dir_path f.file_id) ≡ some b
      → copy_files create_directory file_exists copy_file to db ≡ (
        ok tt,
        record db {
          disk =
              copy_aux file_exists copy_file db.options.dir_path to
                (copy_file d
                  (get_data_file_name db.options.dir_path f.file_id)
                  (get_data_file_name to f.file_id)).1;
        },
      )
  unfolding copy_files copy_active copy_older
  copy_files-one db f b to d synced active only apart short has =
      let from = get_data_file_name db.options.dir_path f.file_id in
      let into = get_data_file_name to f.file_id in
      let here : (f.file_id == f.file_id) ≡ true = ground arith in
      let copied = copy_if_there-there from into d b apart has short in
      rw (copy_files, synced, active, only, copy_active, copied, copied, copy_older, here) refl

  list_active_same :
      (db : Db os) (f : DataFile)
      → db.active_file ≡ some f
      → db.file_ids ≡ f.file_id ∷ []
      → list_active db ≡ db
  unfolding list_active add_id has_id
  list_active_same db f active only =
      let here : (f.file_id == f.file_id) ≡ true = ground arith in
      let listed : add_id f.file_id (f.file_id ∷ []) ≡ f.file_id ∷ [] = rw here refl in
      ap
        (λ (o : Option DataFile). elim o as (λ _. Db os) [
          | none ↦ db
          | some g ↦ record db { file_ids = add_id g.file_id db.file_ids }
        ])
        active
      ∙ ap (λ (ids : List ℕ). record db { file_ids = ids })
          (ap (add_id f.file_id) only ∙ listed ∙ sym only)

  copy_active_there :
      (s : Db os) (f : DataFile) (to : FilePath)
      → s.active_file ≡ some f
      → ◌≡◌ {A = Result (Unit {0}) × Db os}
          (elim s.active_file as (λ _. Result (Unit {0}) × Db os) [
            | some g ↦ copy_files create_directory file_exists copy_file to s
            | none ↦
                if is_empty s.file_ids
                then (ok tt, s)
                else copy_files create_directory file_exists copy_file to s
          ])
          (copy_files create_directory file_exists copy_file to s)
  copy_active_there s f to active =
      ap
        (λ (o : Option DataFile). elim o as (λ _. Result (Unit {0}) × Db os) [
          | some g ↦ copy_files create_directory file_exists copy_file to s
          | none ↦
              if is_empty s.file_ids
              then (ok tt, s)
              else copy_files create_directory file_exists copy_file to s
        ])
        active

  backup-copy_files :
      (db : Db os) (f : DataFile) (to : FilePath)
      → db.active_file ≡ some f
      → db.file_ids ≡ f.file_id ∷ []
      → backup create_directory file_exists copy_file to db
        ≡ copy_files create_directory file_exists copy_file to
            (record db { disk = (create_directory db.disk to).1 })
  unfolding backup
  backup-copy_files db f to active only =
      let made : Db os = record db { disk = (create_directory db.disk to).1 } in
      let same = list_active_same made f active only in
      rw (backup, copies.created db.disk to)
        (copy_active_there (list_active made) f to (ap (λ (s : Db os). s.active_file) same ∙ active)
          ∙ ap (copy_files create_directory file_exists copy_file to) same)

  copy_aux_no_hint :
      (from to : FilePath) (d : os.Disk)
      → disk.content d (from ++ (b'/' ∷ hint_file_name)) ≡ none
      → disk.content (copy_aux file_exists copy_file from to d) (to ++ (b'/' ∷ hint_file_name))
        ≡ disk.content d (to ++ (b'/' ∷ hint_file_name))
  unfolding copy_aux
  copy_aux_no_hint from to d gone =
      let kept = copy_if_there_missing _ (to ++ (b'/' ∷ hint_file_name)) d gone in
      copy_if_there-other _ _ _ _ (hint_seq_differ to)
      ∙ ap (λ (x : Result Bool × os.Disk). disk.content x.1 (to ++ (b'/' ∷ hint_file_name))) kept

not_both : (o : Option Bytes) (b : Bytes) → o ≡ some b → o ≡ none → ⊥
not_both o b e h = cc

same_test : (o : Option Bytes) → is_there o ≡ is_some o
same_test none = refl
same_test (some b) = refl

-- The functions of src/utils.cpp as `backup` calls them; where the fuel runs out, no copy is made.
abbrev pub make_directory :
    {Disk : Type 0} → Streams Disk → Disk → FilePath → Result (Unit {0}) × Disk
make_directory io d p = (ok tt, Utils.create_directory io d p)

abbrev pub copy_within :
    {Disk : Type 0} → Streams Disk → ℕ → Disk → FilePath → FilePath → Result (Unit {0}) × Disk
copy_within io fuel d p q = Option.get_or (Utils.copy_file io fuel d p q) (ok tt, d)

same_content :
    {Disk : Type 0} (content : Disk → FilePath → Option Bytes) (q : FilePath) (d : Disk)
    (o : Option (Result (Unit {0}) × Disk))
    → IsApart content q d o
    → content (Option.get_or o (ok tt, d)).1 q ≡ content d q
same_content content q d none h = refl
same_content content q d (some x) (ended h) = h

-- They do what `backup` needs where no device fails.
utils-Copies :
    {os : Calls} (disk : Reliable os) (io : Streams os.Disk)
    (reliable : ReliableStreams io disk.content) (fuel : ℕ)
    → Copies disk (make_directory io) (Utils.file_exists io) (copy_within io fuel) fuel
utils-Copies {os} disk io reliable fuel = record {
  stat = λ d p. file_exists-content io disk.content reliable d p ∙ same_test (disk.content d p);
  created = λ d p. refl;
  created_content = λ d p q. create_directory-content io disk.content reliable d p q;
  copied = λ d p q b apart has short.
      let (out, e, done) =
        copy_file-IsCopied io disk.content reliable fuel d p q b apart has short in
      ap (λ (o : Option (Result (Unit {0}) × os.Disk)). (Option.get_or o (ok tt, d)).0) e;
  copied_content = λ d p q b apart has short.
      let (out, e, done) =
        copy_file-IsCopied io disk.content reliable fuel d p q b apart has short in
      ap
        (λ (o : Option (Result (Unit {0}) × os.Disk)).
          disk.content (Option.get_or o (ok tt, d)).1 q)
        e
      ∙ done;
  copied_other = λ d p q r other.
      same_content disk.content r d _
        (copy_file-IsApart io disk.content reliable fuel d p q r other);
}

-- On a disk and streams that do not fail, with the functions of src/utils.cpp, each copy on fuel for one
-- round more than there are bytes in the log: `backup` of a database whose active file is data file 0
-- of its directory and the only one, into a directory without data files and hint file, from one
-- without hint file, returns, and the directory then has data file 0 with the bytes of the log, and no
-- other, and no hint file. The path of the source's hint file is not that of the copy.
pub backup-HasOneFile :
    {os : Calls} (disk : Reliable os) (io : Streams os.Disk)
    (reliable : ReliableStreams io disk.content) (fuel : ℕ) (db : Db os) (f : DataFile) (b : Bytes)
    → length b < fuel
    → IsLive disk db f b
    → f.file_id ≡ 0
    → f.path ≡ get_data_file_name db.options.dir_path 0
    → db.file_ids ≡ 0 ∷ []
    → (to : FilePath) → ((fid : ℕ) → disk.content db.disk (get_data_file_name to fid) ≡ none)
    → disk.content db.disk (to ++ (b'/' ∷ hint_file_name)) ≡ none
    → disk.content db.disk (db.options.dir_path ++ (b'/' ∷ hint_file_name)) ≡ none
    → (db.options.dir_path ++ (b'/' ∷ hint_file_name)) ≢ get_data_file_name to 0
    → ((backup (make_directory io) (Utils.file_exists io) (copy_within io fuel) to db).0 ≡ ok tt)
      × HasOneFile disk
          (backup (make_directory io) (Utils.file_exists io) (copy_within io fuel) to db).1.disk
          to
          b
backup-HasOneFile {os} disk io reliable fuel db f b short live first at_path only to fresh
      fresh_hint no_hint apart =
    let create_directory = make_directory io in
    let file_exists = Utils.file_exists io in
    let copy_file = copy_within io fuel in
    let copies = utils-Copies disk io reliable fuel in
    let dir = db.options.dir_path in
    let made : Db os = record db { disk = (create_directory db.disk to).1 } in
    let from = get_data_file_name dir f.file_id in
    let into = get_data_file_name to f.file_id in
    let hint = to ++ (b'/' ∷ hint_file_name) in
    let into_0 : into ≡ get_data_file_name to 0 = ap (get_data_file_name to) first in
    let here : f.path ≡ from = at_path ∙ ap (get_data_file_name dir) (sym first) in
    let ids : db.file_ids ≡ f.file_id ∷ [] = only ∙ ap (λ (k : ℕ). k ∷ []) (sym first) in
    let (d, synced, same) =
      sync_all-content disk create_directory file_exists copy_file fuel copies made f live.active
        live.opened in
    let kept : (q : FilePath) → disk.content d q ≡ disk.content db.disk q =
      λ q. same q ∙ copies.created_content db.disk to q in
    let has : disk.content d from ≡ some b =
      kept from ∙ ap (disk.content db.disk) (sym here) ∙ live.holds in
    let distinct : from ≢ into = λ e.
      not_both (disk.content db.disk into) b (sym (kept into) ∙ ap (disk.content d) (sym e) ∙ has)
        (fresh f.file_id) in
    let d2 = (copy_file d from into).1 in
    let done =
      backup-copy_files disk create_directory file_exists copy_file fuel copies db f to live.active
        ids
      ∙ copy_files-one disk create_directory file_exists copy_file fuel copies made f b to d synced
          live.active ids distinct short has in
    let data_other : (fid : ℕ)
        → disk.content (copy_aux file_exists copy_file dir to d2) (get_data_file_name to fid)
          ≡ disk.content d2 (get_data_file_name to fid) =
      λ fid.
        copy_aux-other disk create_directory file_exists copy_file fuel copies dir to d2
          (get_data_file_name to fid) (λ e. aux_differs to fid hint_file_name (omega arith) (sym e))
          (λ e. aux_differs to fid seq_no_file_name (omega arith) (sym e)) in
    let source_hint : disk.content d2 (dir ++ (b'/' ∷ hint_file_name)) ≡ none =
      copies.copied_other d from into _ (λ e. apart (e ∙ into_0)) ∙ kept _ ∙ no_hint in
    rw done (
      refl,
      record {
        file_0 =
            data_other 0
            ∙ ap (disk.content d2) (sym into_0)
            ∙ copies.copied_content d from into b distinct has short;
        no_other = λ fid other.
            data_other fid
            ∙ copies.copied_other d from into _
                (λ e. other (get_data_file_name-injective to fid 0 (e ∙ into_0)))
            ∙ kept _
            ∙ fresh fid;
        no_hint =
            copy_aux_no_hint disk create_directory file_exists copy_file fuel copies dir to d2
              source_hint
            ∙ copies.copied_other d from into hint
                (λ e. aux_differs to f.file_id hint_file_name (omega arith) e)
            ∙ kept hint
            ∙ fresh_hint;
      },
    )
