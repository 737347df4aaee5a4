-- ===== src/Redis/Options.antt =====
-- Whether an option has a value.
use raft_bitcask.Prelude.{Bool, true, false, Option, none, some}

abbrev pub is_some {ℓ} : {A : Type ℓ} → Option A → Bool
is_some none = false
is_some (some a) = true
