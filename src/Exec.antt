-- ===== src/Exec.antt =====
-- Methods that change the state of their object and may throw. What was changed before the throw
-- stays changed, so the state comes back beside the exception too.
use raft_bitcask.Common.{Error, Result, ok, throw}

abbrev pub Exec {ℓ} : Type ℓ → Type ℓ → Type ℓ
Exec S A = S → Result A × S

module _ {ℓ} {S A : Type ℓ} where
  abbrev pub pure : A → Exec S A
  pure a s = (ok a, s)

  abbrev pub raise : Error → Exec S A
  raise e s = (throw e, s)

  abbrev pub gets : (S → A) → Exec S A
  gets f s = (ok (f s), s)

module _ {ℓ} {S A B : Type ℓ} where
  abbrev pub go_on : Result A → (A → Exec S B) → Exec S B
  go_on (ok a) f s = f a s
  go_on (throw e) f s = (throw e, s)

  infixl 5 ◌>>=◌
  abbrev pub ◌>>=◌ : Exec S A → (A → Exec S B) → Exec S B
  ◌>>=◌ m f s = let (r, s') = m s in go_on r f s'
