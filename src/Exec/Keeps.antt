-- ===== src/Exec/Keeps.antt =====
-- Properties of the state that a method keeps, whether it returns or raises, and what holds after it
-- has returned: one rule for each way to build a method.
use kafka_fdb_streamline.Common.{◌≡◌, ◌≢◌, refl, Bool, true, false, if◌then◌else◌}
use kafka_fdb_streamline.Errors.{Exn}
use kafka_fdb_streamline.Exec.{
  Result, ok, err, Exec, pure, raise, gets, lift, catch, modify, raise_if, ◌>>=◌, ◌>>◌,
}

-- `method` keeps `Inv`.
pub record Keeps {ℓ} {S A : Type ℓ} (Inv : S → Type ℓ) (method : Exec S A) : Type ℓ where
  pub at : (before : S) → Inv before → Inv (method before).1

module _ {ℓ} {S A : Type ℓ} {P : S → Type ℓ} where
  pub Keeps-gets : (read : S → A) → Keeps P (gets read)
  unfolding gets
  Keeps-gets read = record { at = λ w inv. inv }

  pub Keeps-pure : (result : A) → Keeps P (pure result)
  unfolding pure
  Keeps-pure result = record { at = λ w inv. inv }

  pub Keeps-lift : (outcome : Result A) → Keeps P (lift outcome)
  unfolding lift
  Keeps-lift outcome = record { at = λ w inv. inv }

  pub Keeps-raise : (e : Exn) → Keeps P (raise {A = A} e)
  unfolding raise
  Keeps-raise e = record { at = λ w inv. inv }

  pub Keeps-if :
      (test : Bool) (then_method else_method : Exec S A)
      → Keeps P then_method
      → Keeps P else_method
      → Keeps P (if test then then_method else else_method)
  Keeps-if true _ _ kept _ = kept
  Keeps-if false _ _ _ kept = kept

  recover-Keeps :
      (r : Result A) (h : Exn → Exec S A) (s : S)
      → ((e : Exn) → Keeps P (h e))
      → P s
      → P (catch (λ t. (r, t)) h s).1
  unfolding catch
  recover-Keeps (ok a) h s kh p = p
  recover-Keeps (err e) h s kh p = (kh e).at s p

  pub Keeps-catch :
      (m : Exec S A) (h : Exn → Exec S A)
      → Keeps P m
      → ((e : Exn) → Keeps P (h e))
      → Keeps P (catch m h)
  unfolding catch
  Keeps-catch m h km kh = record {
    at = λ s p. let (r, s') = m s in recover-Keeps r h s' kh (km.at s p);
  }

pub Keeps-modify :
    {S : Type 0} {P : S → Type 0} (f : S → S) → ((s : S) → P s → P (f s)) → Keeps P (modify f)
unfolding modify
Keeps-modify f h = record { at = h }

pub Keeps-raise_if : {S : Type 0} {P : S → Type 0} (b : Bool) (e : Exn) → Keeps P (raise_if b e)
unfolding raise_if
Keeps-raise_if true e = record { at = λ s h. h }
Keeps-raise_if false e = record { at = λ s h. h }

module _ {ℓ} {S A B : Type ℓ} {P : S → Type ℓ} where
  continue-Keeps :
      (r : Result A) (f : A → Exec S B) (s : S)
      → ((a : A) → Keeps P (f a))
      → P s
      → P (((λ t. (r, t)) >>= f) s).1
  unfolding ◌>>=◌
  continue-Keeps (ok a) f s kf p = (kf a).at s p
  continue-Keeps (err e) f s kf p = p

  -- The first method, and then whatever comes of its result.
  pub Keeps-bind :
      (first : Exec S A) (rest : A → Exec S B)
      → Keeps P first
      → ((result : A) → Keeps P (rest result))
      → Keeps P (first >>= rest)
  unfolding ◌>>=◌
  Keeps-bind first rest kept_first kept_rest = record {
    at = λ w inv.
        let (outcome, w') = first w in
        continue-Keeps outcome rest w' kept_rest (kept_first.at w inv);
  }

  pub Keeps-then : (m : Exec S A) (k : Exec S B) → Keeps P m → Keeps P k → Keeps P (m >> k)
  unfolding ◌>>◌
  Keeps-then m k km kk = Keeps-bind m (λ _. k) km (λ _. kk)

pub ruleset keeps_rules = (
  Keeps-pure, Keeps-raise, Keeps-gets, Keeps-lift, Keeps-if, Keeps-catch, Keeps-modify,
  Keeps-raise_if, Keeps-bind, Keeps-then,
)

-- If `P` holds before `m` and `m` returns, then `Q` holds of its result and state.
pub record Returns {ℓ} {S A : Type ℓ} (P : S → Type ℓ) (m : Exec S A) (Q : A → S → Type ℓ)
    : Type ℓ where
  pub at : (s : S) → P s → (a : A) → (m s).0 ≡ ok a → Q a (m s).1

module _ {ℓ} {S A : Type ℓ} where
  handled :
      (Q : A → S → Type ℓ) (r : Result A) (h : Exn → Exec S A) (s : S)
      → ((e : Exn) (t : S) (a : A) → (h e t).0 ≢ ok a)
      → ((a : A) → r ≡ ok a → Q a s)
      → (a : A) → (catch (λ t. (r, t)) h s).0 ≡ ok a
      → Q a (catch (λ t. (r, t)) h s).1
  unfolding catch
  handled Q (ok b) h s never q a e = q a e
  handled Q (err x) h s never q a e = absurd (never x s a e)

module _ {ℓ} {S A B : Type ℓ} where
  continued :
      (Q : A → S → Type ℓ) (R : B → S → Type ℓ) (r : Result A) (f : A → Exec S B) (s : S)
      → ((a : A) → Returns (Q a) (f a) R)
      → ((a : A) → r ≡ ok a → Q a s)
      → (b : B) → (((λ t. (r, t)) >>= f) s).0 ≡ ok b
      → R b (((λ t. (r, t)) >>= f) s).1
  unfolding ◌>>=◌
  continued Q R (ok a) f s rf q b e = (rf a).at s (q a refl) b e
  continued Q R (err x) f s rf q b e = cc

module _ {ℓ} {S A : Type ℓ} {P : S → Type ℓ} where
  pub Returns_of_Keeps : {m : Exec S A} → Keeps P m → Returns P m (λ _. P)
  Returns_of_Keeps k = record { at = λ s h a e. k.at s h }

  pub Returns-raise : {Q : A → S → Type ℓ} (e : Exn) → Returns P (raise e) Q
  unfolding raise
  Returns-raise e = record { at = λ s h a q. cc }

  -- A handler that raises in every case.
  pub Returns-catch :
      {Q : A → S → Type ℓ} (m : Exec S A) (h : Exn → Exec S A)
      → Returns P m Q
      → ((e : Exn) (t : S) (a : A) → (h e t).0 ≢ ok a)
      → Returns P (catch m h) Q
  unfolding catch
  Returns-catch {Q} m h rm never = record {
    at = λ s p. let (r, s') = m s in handled Q r h s' never (rm.at s p);
  }

module _ {ℓ} {S A B : Type ℓ} {P : S → Type ℓ} {Q : A → S → Type ℓ} {R : B → S → Type ℓ} where
  pub Returns-bind :
      (m : Exec S A) (f : A → Exec S B)
      → Returns P m Q
      → ((a : A) → Returns (Q a) (f a) R)
      → Returns P (m >>= f) R
  unfolding ◌>>=◌
  Returns-bind m f rm rf = record {
    at = λ s p. let (r, s') = m s in continued Q R r f s' rf (rm.at s p);
  }

  pub Returns-then :
      (m : Exec S A) (k : Exec S B)
      → Returns P m Q
      → ((a : A) → Returns (Q a) k R)
      → Returns P (m >> k) R
  unfolding ◌>>◌
  Returns-then m k rm rk = Returns-bind m (λ _. k) rm rk
