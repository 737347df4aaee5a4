-- ===== src/Redis/KeyMaps.antt =====
-- A map from keys to values behind a change at one key.
use raft_bitcask.Prelude.{◌≡◌, ◌≢◌, refl, Option, Bool-cases, inl, inr}
use raft_bitcask.Common.{Bytes}
use raft_bitcask.Index.KeyOrder.{key_eq, key_eq_self, eq_of_key_eq}
use raft_bitcask.Db.Represents.{KeyMap}
use raft_bitcask.Db.Represents.Operations.{set_key}

pub set_key_self :
    (m : KeyMap) (key : Bytes) (value : Option Bytes) → set_key m key value key ≡ value
set_key_self m key value = rw (key_eq_self key) refl

pub set_key_other :
    (m : KeyMap) (key j : Bytes) (value : Option Bytes) → key ≢ j → set_key m key value j ≡ m j
set_key_other m key j value differ = elim (Bool-cases (key_eq key j)) [
  | inl same ↦ absurd (differ (eq_of_key_eq key j same))
  | inr other ↦ rw other refl
]
