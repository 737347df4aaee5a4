-- ===== src/Redis/Service/Runs.antt =====
-- The calls of the database by the service, over a database that keeps the laws of a map.
use raft_bitcask.Prelude.{ℕ, ◌+◌, ◌<◌, ◌≤◌, ◌≡◌, refl, Option, none, some, [], ◌∷◌, length, arith}
use raft_bitcask.Common.{Bytes, Result, ok, throw, key_not_found}
use raft_bitcask.Exec.{Exec, ◌>>=◌}
use raft_bitcask.Db.Represents.{KeyMap, lookup_result}
use raft_bitcask.Db.Represents.Operations.{set_key}
use raft_bitcask.Redis.Options.{is_some}
use raft_bitcask.Redis.Store.{Store, IsMap, Storable, record_room}
use raft_bitcask.Redis.Service.{Service, catch_not_found, db_put, db_get, db_remove, is_stored}

-- A run that returns `a`, in a state with the property.
abbrev pub Yields : {S A : Type 0} → Result A × S → A → (S → Type 0) → Type 0
Yields out a P = (out.0 ≡ ok a) × P out.1

pub Yields-bind :
    {S A B : Type 0} (m : Exec S A) (f : A → Exec S B) (s : S) (a : A) (b : B) (P Q : S → Type 0)
    → Yields (m s) a P
    → ((s' : S) → P s' → Yields (f a s') b Q)
    → Yields ((m >>= f) s) b Q
Yields-bind m f s a b P Q (e, p) rest = rw e (rest (m s).1 p)

-- A handler does not matter to a run that returns.
pub Yields-catch :
    {S A : Type 0} (body handler : Exec S A) (s : S) (a : A) (Q : S → Type 0)
    → Yields (body s) a Q
    → Yields (catch_not_found body handler s) a Q
unfolding catch_not_found
Yields-catch body handler s a Q (e, q) = rw e (refl, q)

pub lookup_result-some :
    (key value : Bytes) → 0 < length key → lookup_result key (some value) ≡ ok value
lookup_result-some [] value h = absurd (omega arith)
lookup_result-some (x ∷ xs) value h = refl

pub lookup_result-none :
    (key : Bytes) → 0 < length key → lookup_result key none ≡ throw key_not_found
lookup_result-none [] h = absurd (omega arith)
lookup_result-none (x ∷ xs) h = refl

module _ {store : Store} (laws : IsMap store) (now : ℕ → ℕ) where
  -- The state of the service stands for the map, has room for `n` bytes, and has read the clock so
  -- many times.
  abbrev pub At : KeyMap → ℕ → ℕ → Service store → Type 0
  At m n readings s = laws.Stands s.db m n × (s.readings ≡ readings)

  module _ (s : Service store) (m : KeyMap) (n readings : ℕ) where
    pub At-le : (k : ℕ) → At m n readings s → k ≤ n → At m k readings s
    At-le k (stands, read) le = (laws.Stands-le s.db m n k stands le, read)

    pub db_get-some :
        (key value : Bytes)
        → At m n readings s
        → 0 < length key
        → m key ≡ some value
        → Yields (db_get store now key s) value (At m n readings)
    unfolding db_get
    db_get-some key value (stands, read) some_key e = (
      rw (laws.get-Stands s.db m n stands key, e) (lookup_result-some key value some_key),
      (stands, read),
    )

    pub is_stored_lem :
        (key : Bytes)
        → At m n readings s
        → 0 < length key
        → Yields (is_stored store now key s) (is_some (m key)) (At m n readings)
    unfolding is_stored db_get catch_not_found
    is_stored_lem key (stands, read) some_key = by_value (m key) refl
      where
        by_value :
            (value : Option Bytes)
            → m key ≡ value
            → Yields (is_stored store now key s) (is_some (m key)) (At m n readings)
        by_value none e =
            rw (is_stored, laws.get-Stands s.db m n stands key, e, lookup_result-none key some_key)
              (refl, (stands, read))
        by_value (some value) e =
            rw
              (
                is_stored,
                laws.get-Stands s.db m n stands key,
                e,
                lookup_result-some key value some_key,
              )
              (refl, (stands, read))

    pub db_put-At :
        (key value : Bytes)
        → At m (record_room key value + n) readings s
        → Storable key value
        → Yields (db_put store now key value s) tt (At (set_key m key (some value)) n readings)
    unfolding db_put
    db_put-At key value (stands, read) fits =
        let (done, after) = laws.put-Stands s.db m n key value stands fits in (done, (after, read))

    pub db_remove-At :
        (key : Bytes)
        → At m (record_room key [] + n) readings s
        → Storable key []
        → Yields (db_remove store now key s) tt (At (set_key m key none) n readings)
    unfolding db_remove
    db_remove-At key (stands, read) fits =
        let (done, after) = laws.remove-Stands s.db m n key stands fits in (done, (after, read))
