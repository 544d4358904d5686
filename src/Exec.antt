-- ===== src/Exec.antt =====
-- Python methods as functions of a state: a value or an exception, and the state that is left, also by
-- a raise.
pub mod Ends
pub mod Keeps
pub mod Outcome
pub mod Run
use kafka_fdb_streamline.Common.{⊤, Bool, true, false}
use kafka_fdb_streamline.Errors.{Exn}

pub data Result {ℓ} (A : Type ℓ) : Type ℓ where
  ok : A → Result A
  err : Exn → Result A

abbrev pub Exec {ℓ} : Type ℓ → Type ℓ → Type ℓ
Exec S A = S → Result A × S

module _ {ℓ} {S A : Type ℓ} where
  unfoldable pub pure : A → Exec S A
  pure a s = (ok a, s)

  unfoldable pub raise : Exn → Exec S A
  raise e s = (err e, s)

  unfoldable pub gets : (S → A) → Exec S A
  gets f s = (ok (f s), s)

  unfoldable pub lift : Result A → Exec S A
  lift r s = (r, s)

  abbrev pub recover : Result A → (Exn → Exec S A) → Exec S A
  recover (ok a) handler s = (ok a, s)
  recover (err e) handler s = handler e s

  -- `try: m except e: handler e`
  unfoldable pub catch : Exec S A → (Exn → Exec S A) → Exec S A
  catch m handler s = let (r, s') = m s in recover r handler s'

unfoldable pub modify : {S : Type 0} → (S → S) → Exec S ⊤
modify f s = (ok tt, f s)

-- `if test: raise e`
unfoldable pub raise_if : {S : Type 0} → Bool → Exn → Exec S ⊤
raise_if true e s = (err e, s)
raise_if false e s = (ok tt, s)

module _ {ℓ} {S A B : Type ℓ} where
  abbrev pub continue : Result A → (A → Exec S B) → Exec S B
  continue (ok a) f s = f a s
  continue (err e) f s = (err e, s)

  infixl 5 ◌>>=◌ ◌>>◌
  -- Opening this opens the other ways to build a method too.
  unfoldable pub ◌>>=◌ : Exec S A → (A → Exec S B) → Exec S B
  unfolding pure raise gets lift catch modify raise_if
  ◌>>=◌ m f s = let (r, s') = m s in continue r f s'

  -- Opening this opens `◌>>=◌`.
  unfoldable pub ◌>>◌ : Exec S A → Exec S B → Exec S B
  unfolding ◌>>=◌
  m >> k = m >>= λ _. k
