-- ===== src/Exec/Outcome.antt =====
-- Functions that return or raise and keep no state.
use kafka_fdb_streamline.Common.{⊤, ◌≡◌, refl, ap, Bool, true, false}
use kafka_fdb_streamline.Errors.{Exn}
use kafka_fdb_streamline.Exec.{Result, ok, err}

module _ {ℓ κ} {A : Type ℓ} {B : Type κ} where
  infixl 5 ◌>>=◌ ◌>>◌
  abbrev pub ◌>>=◌ : Result A → (A → Result B) → Result B
  err raised >>= rest = err raised
  ok value >>= rest = rest value

  abbrev pub ◌>>◌ : Result A → Result B → Result B
  first >> next = first >>= (λ _. next)

-- `if test: raise e`
abbrev pub refuse_if : Bool → Exn → Result ⊤
refuse_if true e = err e
refuse_if false e = ok tt

-- A chain that returned, and what its first part returned.
pub bind_ok {ℓ κ} :
    {A : Type ℓ} {B : Type κ} (first : Result A) (rest : A → Result B) {b : B}
    → (first >>= rest) ≡ ok b
    → (value : A) × (first ≡ ok value) × (rest value ≡ ok b)
bind_ok (err raised) rest returned = cc
bind_ok (ok value) rest returned = (value, refl, returned)

-- A guard that was passed.
pub guard_ok {κ} :
    {B : Type κ} (b : Bool) (e : Exn) (next : Result B) {r : B}
    → (refuse_if b e >> next) ≡ ok r
    → (b ≡ false) × (next ≡ ok r)
guard_ok true e next returned = cc
guard_ok false e next returned = (refl, returned)

pub ok_injective {ℓ} : {A : Type ℓ} {a b : A} → Result.ok a ≡ ok b → a ≡ b
ok_injective {a} e = ap (λ r. elim r [ ok x ↦ x | err _ ↦ a ]) e
