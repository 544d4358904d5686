-- ===== src/Exec/Ends.antt =====
-- Methods with two ends: what holds of the result and state after a return, and of the state after a
-- raise, given what held before.
use kafka_fdb_streamline.Common.{⊤, ◌≡◌, refl, sym, subst, Bool, true, false, if◌then◌else◌}
use kafka_fdb_streamline.Errors.{Exn}
use kafka_fdb_streamline.Exec.{
  Result, ok, err, Exec, pure, raise, gets, catch, raise_if, ◌>>=◌, ◌>>◌,
}
use kafka_fdb_streamline.Exec.Keeps.{Keeps}

abbrev pub After {ℓ} : {S A : Type ℓ} → (A → S → Type ℓ) → (S → Type ℓ) → Result A × S → Type ℓ
After Q R (ok a, s) = Q a s
After Q R (err e, s) = R s

-- From `P`, a return of `m` leads to `Q` and a raise to `R`.
pub record Ends {ℓ} {S A : Type ℓ} (P : S → Type ℓ) (m : Exec S A) (Q : A → S → Type ℓ)
    (R : S → Type ℓ) : Type ℓ where
  pub at : (s : S) → P s → After Q R (m s)

module _ {ℓ} {S A : Type ℓ} where
  pub after_cases :
      (Q : A → S → Type ℓ) (R : S → Type ℓ) (r : Result A) (s : S)
      → ((a : A) → r ≡ ok a → Q a s)
      → ((e : Exn) → r ≡ err e → R s)
      → After Q R (r, s)
  after_cases Q R (ok a) s returned raised = returned a refl
  after_cases Q R (err e) s returned raised = raised e refl

  both : (P : S → Type ℓ) (r : Result A) (s : S) → P s → After (λ _. P) P (r, s)
  both P (ok a) s p = p
  both P (err e) s p = p

  module _ {Q Q' : A → S → Type ℓ} {R R' : S → Type ℓ} where
    weakened :
        (r : Result A) (s : S)
        → ((a : A) (s : S) → Q a s → Q' a s)
        → ((s : S) → R s → R' s)
        → After Q R (r, s)
        → After Q' R' (r, s)
    weakened (ok a) s q r h = q a s h
    weakened (err e) s q r h = r s h

  module _ {Q : A → S → Type ℓ} {R R' : S → Type ℓ} where
    caught :
        (h : Exn → Exec S A) (r : Result A) (s : S)
        → ((e : Exn) → Ends R (h e) Q R')
        → After Q R (r, s)
        → After Q R' (catch (λ t. (r, t)) h s)
    unfolding catch
    caught h (ok a) s eh p = p
    caught h (err e) s eh p = (eh e).at s p

module _ {ℓ} {S A : Type ℓ} {P : S → Type ℓ} where
  pub Ends_of_Keeps : {m : Exec S A} → Keeps P m → Ends P m (λ _. P) P
  Ends_of_Keeps {m} k = record { at = λ s p. both P (m s).0 (m s).1 (k.at s p) }

  module _ {Q Q' : A → S → Type ℓ} {R R' : S → Type ℓ} where
    pub Ends-weaken :
        {m : Exec S A}
        → ((a : A) (s : S) → Q a s → Q' a s)
        → ((s : S) → R s → R' s)
        → Ends P m Q R
        → Ends P m Q' R'
    Ends-weaken {m} q r em = record { at = λ s p. weakened (m s).0 (m s).1 q r (em.at s p) }

  module _ {Q : A → S → Type ℓ} {R : S → Type ℓ} where
    pub Ends-raise : (e : Exn) → ((s : S) → P s → R s) → Ends P (raise {A = A} e) Q R
    unfolding raise
    Ends-raise e h = record { at = h }

    pub Ends-pure : (a : A) → ((s : S) → P s → Q a s) → Ends P (pure a) Q R
    unfolding pure
    Ends-pure a h = record { at = h }

    pub Ends-gets : (f : S → A) → ((s : S) → P s → Q (f s) s) → Ends P (gets f) Q R
    unfolding gets
    Ends-gets f h = record { at = h }

    pub Ends-catch :
        {R' : S → Type ℓ} (m : Exec S A) (h : Exn → Exec S A)
        → Ends P m Q R
        → ((e : Exn) → Ends R (h e) Q R')
        → Ends P (catch m h) Q R'
    unfolding catch
    Ends-catch m h em eh = record { at = λ s p. caught h (m s).0 (m s).1 eh (em.at s p) }

module _ {ℓ} {S A : Type ℓ} (P : S → Type ℓ) {R : S → Type ℓ} where
  pub Ends-read : (f : S → A) → Ends P (gets f) (λ _. P) R
  unfolding gets
  Ends-read f = record { at = λ s p. p }

  pub Ends-return : (a : A) → Ends P (pure a) (λ _. P) R
  unfolding pure
  Ends-return a = record { at = λ s p. p }

module _ {ℓ} {S A B : Type ℓ} {Q : A → S → Type ℓ} {T : B → S → Type ℓ} {R : S → Type ℓ} where
  followed :
      (f : A → Exec S B) (r : Result A) (s : S)
      → ((a : A) → Ends (Q a) (f a) T R)
      → After Q R (r, s)
      → After T R (((λ t. (r, t)) >>= f) s)
  unfolding ◌>>=◌
  followed f (ok a) s ef p = (ef a).at s p
  followed f (err e) s ef p = p

  pub Ends-bind :
      {P : S → Type ℓ} (m : Exec S A) (f : A → Exec S B)
      → Ends P m Q R
      → ((a : A) → Ends (Q a) (f a) T R)
      → Ends P (m >>= f) T R
  unfolding ◌>>=◌
  Ends-bind m f em ef = record { at = λ s p. followed f (m s).0 (m s).1 ef (em.at s p) }

module _ {ℓ} {S A B : Type ℓ} {P Q : S → Type ℓ} {T : B → S → Type ℓ} {R : S → Type ℓ} where
  pub Ends-then :
      (m : Exec S A) (k : Exec S B) → Ends P m (λ _. Q) R → Ends Q k T R → Ends P (m >> k) T R
  unfolding ◌>>◌
  Ends-then m k em ek = Ends-bind m (λ _. k) em (λ _. ek)

-- A guard: what follows it may assume that its test failed.
pub Ends-guard :
    {S : Type 0} {P R : S → Type 0} (b : Bool) (e : Exn)
    → ((s : S) → P s → R s)
    → Ends P (raise_if b e) (λ _ s. P s × (b ≡ false)) R
unfolding raise_if
Ends-guard true e h = record { at = h }
Ends-guard false e h = record { at = λ s p. (p, refl) }

pub Ends-unless :
    {S : Type 0} (P : S → Type 0) {R : S → Type 0} (b : Bool) (e : Exn)
    → ((s : S) → P s → R s)
    → Ends P (raise_if b e) (λ _. P) R
unfolding raise_if
Ends-unless P true e h = record { at = h }
Ends-unless P false e h = record { at = λ s p. p }

pub Ends-if :
    {S A : Type 0} {P : S → Type 0} {Q : A → S → Type 0} {R : S → Type 0} (b : Bool)
    (m n : Exec S A)
    → Ends P m Q R
    → Ends P n Q R
    → Ends P (if b then m else n) Q R
Ends-if true m n em en = em
Ends-if false m n em en = en

-- `try: m; return; except e: handler e`
attempted :
    {S : Type 0} {Q : ⊤ → S → Type 0} {R R' : S → Type 0} (handler : Exn → Exec S ⊤) (r : Result ⊤)
    (s : S)
    → ((e : Exn) → Ends R (handler e) Q R')
    → After Q R (r, s)
    → After Q R' (elim r [ ok _ ↦ (ok tt, s) | err e ↦ handler e s ])
attempted handler (ok tt) s eh p = p
attempted handler (err e) s eh p = (eh e).at s p

pub Ends-attempt :
    {S : Type 0} {P : S → Type 0} {Q : ⊤ → S → Type 0} {R R' : S → Type 0} (m : Exec S ⊤)
    (handler : Exn → Exec S ⊤)
    → Ends P m Q R
    → ((e : Exn) → Ends R (handler e) Q R')
    → Ends P (λ s. let (r, s') = m s in elim r [ ok _ ↦ (ok tt, s') | err e ↦ handler e s' ]) Q R'
Ends-attempt m handler em eh = record {
  at = λ s p. attempted handler (m s).0 (m s).1 eh (em.at s p);
}

-- A read whose value is known.
pub Ends-known :
    {S A B : Type 0} {P : S → Type 0} {Q : B → S → Type 0} {R : S → Type 0} (f : S → A) (a : A)
    (k : A → Exec S B)
    → ((s : S) → P s → f s ≡ a)
    → Ends P (k a) Q R
    → Ends P (gets f >>= k) Q R
unfolding ◌>>=◌
Ends-known {Q} {R} f a k known ek = record {
  at = λ s p. subst (λ x. After Q R (k x s)) (sym (known s p)) (ek.at s p);
}
