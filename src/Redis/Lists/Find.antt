-- ===== src/Redis/Lists/Find.antt =====
-- `find_metadata` and `reset_marks` on a list in the database.
use raft_bitcask.Prelude.{ℕ, ◌+◌, ◌<◌, ◌≡◌, refl, false, List, [], ◌∷◌, length, arith, ◌==◌}
use raft_bitcask.Common.{Bytes, IsU64}
use raft_bitcask.Db.Represents.{KeyMap}
use raft_bitcask.Redis.DataType
use raft_bitcask.Redis.Metadata.{RedisMetadata}
use raft_bitcask.Redis.Store.{Store, IsMap}
use raft_bitcask.Redis.Service.{Service, find_metadata}
use raft_bitcask.Redis.Service.Runs.{Yields, At}
use raft_bitcask.Redis.Service.Find.{find_metadata-stored, find_metadata-missing, fresh}
use raft_bitcask.Redis.Lists.{reset_marks}
use raft_bitcask.Redis.Lists.Represents.{Describes, Deque, IsListKey, Describes-IsValid}

module _ {store : Store} (laws : IsMap store) (now : ℕ → ℕ) (key : Bytes) where
  -- What `find_metadata` returns for a list, behind `reset_marks`.
  pub record Finds (s : Service store) (xs : List Bytes) (n k : ℕ) : Type 0 where
    pub md : RedisMetadata
    pub map : KeyMap
    pub readings : ℕ
    pub run : Yields (find_metadata store now key DataType.list s) md (At laws now map n readings)
    pub found : 0 < length xs → Describes key map md xs k
    pub reset : Describes key map (reset_marks md) xs k

  -- A list that is missing is found as one without elements, between marks that leave room.
  pub find_metadata-Finds :
      ((t : ℕ) → IsU64 (now t))
      → IsListKey laws now key
      → (s : Service store) (xs : List Bytes) (n k : ℕ) → Deque laws now key s xs n k
      → Finds s xs n k
  unfolding reset_marks
  find_metadata-Finds clock legal s [] n k q = record {
    md = fresh DataType.list (now q.readings);
    map = q.map;
    readings = q.readings + 1;
    run =
        find_metadata-missing laws now s q.map n q.readings key DataType.list q.at legal.0 q.list.0;
    found = λ h. absurd (omega (arith, h));
    reset = record {
      type = refl;
      unlimited = refl;
      version = clock q.readings;
      size = refl;
      tail = refl;
      left = omega (arith, q.list.1);
      right = omega (arith, q.list.1);
      count = omega (arith, q.list.1);
      elements = tt;
    };
  }
  find_metadata-Finds clock legal s (x ∷ xs) n k q =
      let (md, has, d) = q.list in
      let nonempty : (md.size == 0) ≡ false = ground (arith, d.size) in
      let run =
        find_metadata-stored laws now s q.map n q.readings key md q.at legal.0 has
          (Describes-IsValid key q.map md (x ∷ xs) k d) d.unlimited in
      record {
        md = md;
        map = q.map;
        readings = q.readings;
        run = simp d.type at run;
        found = λ h. d;
        reset = simp nonempty d;
      }
