-- ===== src/Redis/Strings/RoundTrip.antt =====
-- `get` behind `set`, over a database that keeps the laws of a map.
use raft_bitcask.Prelude.{
  ℕ, ◌+◌, ◌*◌, ◌≤◌, ◌<◌, ◌≡◌, ◌%◌, ◌^◌, refl, ap, ◌∙◌, Bool, true, false, ◌&&◌, some, [], ◌∷◌, ◌++◌,
  length, take, drop, ltb, leb, if◌then◌else◌, arith, Bool-cases, inl, inr, length-append,
  take-append_front, drop-append_front,
}
use raft_bitcask.Common.{Bytes, IsU64, Result, ok, throw, key_not_found}
use raft_bitcask.Codec.LittleEndian.{push_le, or_le, or_le-push_le, length-push_le}
use raft_bitcask.Index.KeyOrder.{key_eq_self}
use raft_bitcask.Storage.DataFile.{max_record_size}
use raft_bitcask.Db.Represents.{KeyMap}
use raft_bitcask.Db.Represents.Operations.{set_key}
use raft_bitcask.Redis.Store.{Store, IsMap, record_room}
use raft_bitcask.Redis.Service.{Service, add_64, current_timestamp, is_expired, db_get, db_put}
use raft_bitcask.Redis.Service.Runs.{lookup_result-some}
use raft_bitcask.Redis.Strings.{encode_string, expiry, set, decode_string, get}

-- The time of expiry that `set` stores, at a reading of the clock.
abbrev pub expiry_at : ℕ → ℕ → ℕ
expiry_at time ttl = if ltb 0 ttl then add_64 time (ttl * 1000000 % 2 ^ 64) else 0

pub length-encode_string :
    (expire : ℕ) (value : Bytes) → length (encode_string expire value) ≡ 9 + length value
unfolding encode_string
length-encode_string expire value =
    omega (arith, length-append (push_le 8 0 expire) value, length-push_le 8 0 expire)

module _ (store : Store) (now : ℕ → ℕ) where
  -- What `get` does with the bytes that `set` wrote.
  decode_string-encode_string :
      (s : Service store) (expire : ℕ) (value : Bytes)
      → IsU64 expire
      → (decode_string store now (encode_string expire value) s).0
        ≡ (if ltb 0 expire && leb expire (now s.readings) then throw key_not_found else ok value)
  unfolding decode_string encode_string is_expired current_timestamp
  decode_string-encode_string s expire value fits =
      let p = push_le 8 0 expire in
      let enough : ltb (length (p ++ value)) 8 ≡ false =
        ground (arith, length-append p value, length-push_le 8 0 expire) in
      let time : or_le 0 0 (take 8 (p ++ value)) ≡ expire =
        ap (or_le 0 0) (take-append_front 8 p value (length-push_le 8 0 expire))
        ∙ or_le-push_le expire fits in
      let payload : drop 8 (p ++ value) ≡ value =
        drop-append_front 8 0 p value (length-push_le 8 0 expire) in
      rw (enough, time, payload)
        (elim (Bool-cases (ltb 0 expire)) [
          | inl some_time ↦ rw some_time (elim (Bool-cases (leb expire (now s.readings))) [
            | inl past ↦ rw past refl
            | inr future ↦ rw future refl
          ])
          | inr never ↦ rw never refl
        ])

  abbrev readings_after : Service store → ℕ → ℕ
  readings_after s ttl = if ltb 0 ttl then s.readings + 1 else s.readings

  -- The clock's readings behind `expiry`, and its result.
  expiry_lem :
      (s : Service store) (ttl : ℕ)
      → expiry store now ttl s
        ≡ (ok (expiry_at (now s.readings) ttl), record s { readings = readings_after s ttl })
  unfolding expiry current_timestamp
  expiry_lem s ttl = elim (Bool-cases (ltb 0 ttl)) [
    | inl limited ↦ rw limited refl
    | inr unlimited ↦ rw unlimited refl
  ]

  -- With no overflow the time that is stored has come exactly when the time to live is over.
  expiry_at-past :
      (time ttl later : ℕ)
      → time + ttl * 1000000 < 2 ^ 64
      → (ltb 0 (expiry_at time ttl) && leb (expiry_at time ttl) later)
        ≡ (ltb 0 ttl && leb (time + ttl * 1000000) later)
  expiry_at-past time ttl later h = elim (Bool-cases (ltb 0 ttl)) [
    | inl limited ↦
        let exact : add_64 time (ttl * 1000000 % 2 ^ 64) ≡ time + ttl * 1000000 =
          omega (arith, h) in
        let positive : ltb 0 (time + ttl * 1000000) ≡ true = ground arith in
        rw (limited, exact, positive) refl
    | inr unlimited ↦ rw unlimited refl
  ]

  expiry_at-IsU64 : (time ttl : ℕ) → IsU64 (expiry_at time ttl)
  expiry_at-IsU64 time ttl = ground arith

  set_lem :
      (s : Service store) (key value : Bytes) (ttl : ℕ)
      → 0 < length value
      → set store now key value ttl s
        ≡ db_put store now key
            (encode_string (expiry_at (now s.readings) ttl) value)
            (record s { readings = readings_after s ttl })
  unfolding set
  set_lem s key [] ttl some_value = absurd (omega arith)
  set_lem s key (x ∷ xs) ttl some_value = rw (expiry_lem s ttl) refl

  get_lem :
      (s : Service store) (key bytes : Bytes)
      → store.get s.db key ≡ ok bytes
      → (get store now key s).0 ≡ (decode_string store now bytes s).0
  unfolding get db_get
  get_lem s key bytes e = rw e refl

  -- The clock is read again only where there is a time to live.
  same_reading :
      (s : Service store) (ttl : ℕ) (past : ℕ → Bool) (r : Result Bytes)
      → (if ltb 0 ttl && past (now (readings_after s ttl)) then throw key_not_found else r)
        ≡ (if ltb 0 ttl && past (now (s.readings + 1)) then throw key_not_found else r)
  same_reading s ttl past r = elim (Bool-cases (ltb 0 ttl)) [
    | inl limited ↦ rw limited refl
    | inr unlimited ↦ rw unlimited refl
  ]

  module _ (laws : IsMap store) where
    -- `set` of a value that is not empty returns, and the database then holds the encoded value under
    -- the key, and else what it held. A `get` of the key right behind it returns the value, or, where at
    -- its reading of the clock the time to live is over, throws that the key is not found. Key and
    -- encoded value fit a record, the log has room for it, and the time of expiry fits 64 bits.
    pub get-set :
        (s : Service store) (m : KeyMap) (n : ℕ) (key value : Bytes) (ttl : ℕ)
        → laws.Stands s.db m (24 + (length key + length value) + n)
        → 0 < length key
        → length key ≤ max_record_size
        → 0 < length value
        → 9 + length value ≤ max_record_size
        → now s.readings + ttl * 1000000 < 2 ^ 64
        → let out = set store now key value ttl s in
          (out.0 ≡ ok tt)
          × laws.Stands out.1.db
              (set_key m key (some (encode_string (expiry_at (now s.readings) ttl) value)))
              n
          × ((get store now key out.1).0 ≡ (
              if ltb 0 ttl && leb (now s.readings + ttl * 1000000) (now (s.readings + 1))
              then throw key_not_found
              else ok value))
    unfolding set get db_put db_get
    get-set s m n key value ttl stands some_key short_key some_value short_value no_overflow =
        let time = expiry_at (now s.readings) ttl in
        let bytes = encode_string time value in
        let size = length-encode_string time value in
        let room : record_room key bytes + n ≡ 24 + (length key + length value) + n =
          omega (arith, size) in
        let (done, after) =
          laws.put-Stands s.db m n key bytes (rw room stands)
            (some_key, short_key, omega (arith, size)) in
        rw (set_lem s key value ttl some_value) (
          done,
          after,
          get_lem (record { db = (store.put key bytes s.db).1; readings = readings_after s ttl })
                key bytes
                (laws.get-Stands _ _ n after key
                  ∙ rw (key_eq_self key) (lookup_result-some key bytes some_key))
              ∙ decode_string-encode_string
                  (record { db = (store.put key bytes s.db).1; readings = readings_after s ttl })
                  time value (expiry_at-IsU64 (now s.readings) ttl)
              ∙ rw (expiry_at-past (now s.readings) ttl (now (readings_after s ttl)) no_overflow)
                  (same_reading s ttl (leb (now s.readings + ttl * 1000000)) (ok value)),
        )
