-- ===== src/Serialization/Checked.antt =====
-- The outcome of a function of the serialization package: a value, or one of its errors.
use kafka_fdb_streamline.Common.{◌≡◌, refl, Bool, true, false}
use kafka_fdb_streamline.Errors.{SerializationError}

pub data Checked {ℓ} (A : Type ℓ) : Type ℓ where
  valid : A → Checked A
  invalid : SerializationError → Checked A

infixl 5 ◌>>=◌ ◌>>◌
abbrev pub ◌>>=◌ {ℓ κ} : {A : Type ℓ} {B : Type κ} → Checked A → (A → Checked B) → Checked B
valid a >>= f = f a
invalid e >>= f = invalid e

abbrev pub ◌>>◌ {ℓ κ} : {A : Type ℓ} {B : Type κ} → Checked A → Checked B → Checked B
m >> k = m >>= λ _. k

-- `if test: raise e`
abbrev pub refuse : Bool → SerializationError → Checked (Unit {0})
refuse true e = invalid e
refuse false e = valid tt

-- Inversion of a successful chain.
pub bind_valid {ℓ κ} :
    {A : Type ℓ} {B : Type κ} (m : Checked A) (f : A → Checked B) {b : B}
    → (m >>= f) ≡ valid b
    → (a : A) × (m ≡ valid a) × (f a ≡ valid b)
bind_valid (valid a) f h = (a, refl, h)
bind_valid (invalid e) f h = cc
