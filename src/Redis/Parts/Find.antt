-- ===== src/Redis/Parts/Find.antt =====
-- `find_metadata` on a hash or a set in the database.
use raft_bitcask.Prelude.{
  ℕ, ◌+◌, ◌≤◌, ◌<◌, ◌≡◌, ◌==◌, refl, sym, ◌∙◌, false, Bool-cases, inl, inr, ltb, none, some, [],
  ◌∷◌, length, arith,
}
use raft_bitcask.Common.{Bytes, IsU64}
use raft_bitcask.Index.KeyOrder.{key_eq_self}
use raft_bitcask.Db.Represents.{KeyMap}
use raft_bitcask.Redis.DataType
use raft_bitcask.Redis.DataType.{RedisDataType}
use raft_bitcask.Redis.Metadata.{RedisMetadata, encode}
use raft_bitcask.Redis.Fields.{Fields}
use raft_bitcask.Redis.Store.{Store, IsMap}
use raft_bitcask.Redis.Service.{Service, find_metadata}
use raft_bitcask.Redis.Service.Runs.{Yields, At}
use raft_bitcask.Redis.Service.Find.{find_metadata-stored, find_metadata-missing, fresh}
use raft_bitcask.Redis.Parts.Represents.{HasParts, Describes, Describes-IsValid, IsUnused, Holds}

-- A version with a part is older than the versions that are not in use.
used_version_lem :
    (key : Bytes) (m : KeyMap) (time version : ℕ) (f v : Bytes) (h : Fields)
    → IsUnused key m time
    → IsU64 version
    → HasParts key version m ((f, v) ∷ h)
    → version < time
used_version_lem key m time version f v h unused fits parts = elim (Bool-cases (ltb version time)) [
  | inl early ↦ ground arith
  | inr late ↦
      let missing : none ≡ some v =
        sym (unused version fits (ground arith) f) ∙ parts f ∙ rw (key_eq_self f) refl in
      ground arith
]

-- A type whose metadata has no marks.
abbrev pub IsPlain : RedisDataType → Type 0
IsPlain data_type = (data_type == DataType.list) ≡ false

module _ {store : Store} (laws : IsMap store) (now : ℕ → ℕ) (limit : ℕ) (data_type : RedisDataType)
    (key : Bytes) where
  -- What `find_metadata` returns, and the state it leaves.
  pub record Finds (s : Service store) (h : Fields) (n k : ℕ) : Type 0 where
    pub md : RedisMetadata
    pub map : KeyMap
    pub readings : ℕ
    pub run : Yields (find_metadata store now key data_type s) md (At laws now map n readings)
    pub describes : Describes data_type key map md h (k + 1)
    pub missing : length h ≡ 0 → map key ≡ none
    pub stored : 0 < length h → map key ≡ some (encode md)
    pub unused : IsUnused key map (now readings)
    pub early : md.version < now readings
    pub clock : readings + k ≤ limit

  pub find_metadata-Finds :
      IsPlain data_type
      → ((t : ℕ) → now t < now (t + 1))
      → ((t : ℕ) → t < limit → IsU64 (now t))
      → 0 < length key
      → (s : Service store) (h : Fields) (n k : ℕ)
      → Holds laws now limit data_type key s h n (k + 1)
      → Finds s h n k
  find_metadata-Finds plain rising bounded some_key s [] n k q = record {
    md = fresh data_type (now q.readings);
    map = q.map;
    readings = q.readings + 1;
    run = find_metadata-missing laws now s q.map n q.readings key data_type q.at some_key q.parts.0;
    describes = record {
      type = refl;
      unlimited = refl;
      version = bounded q.readings (omega (arith, q.clock));
      marks = rw plain (refl, refl);
      size = refl;
      count = omega (arith, q.parts.1);
      distinct = tt;
      parts = λ f.
          q.unused (now q.readings) (bounded q.readings (omega (arith, q.clock))) (omega arith) f;
    };
    missing = λ _. q.parts.0;
    stored = λ some_part. absurd (omega (arith, some_part));
    unused =
        λ version fits late f. q.unused version fits (omega (arith, late, rising q.readings)) f;
    early = rising q.readings;
    clock = omega (arith, q.clock);
  }
  find_metadata-Finds plain rising bounded some_key s ((f, v) ∷ h) n k q =
      let (md, has, d) = q.parts in
      let run =
        find_metadata-stored laws now s q.map n q.readings key md q.at some_key has
          (Describes-IsValid data_type key q.map md ((f, v) ∷ h) (k + 1) d) d.unlimited in
      record {
        md = md;
        map = q.map;
        readings = q.readings;
        run = simp d.type at run;
        describes = d;
        missing = λ no_part. absurd (omega (arith, no_part));
        stored = λ _. has;
        unused = q.unused;
        early =
            used_version_lem key q.map (now q.readings) md.version f v h q.unused d.version d.parts;
        clock = omega (arith, q.clock);
      }
