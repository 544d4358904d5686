-- ===== src/Exec/Run.antt =====
-- One run of a method, split at its first part: what is to hold of the outcome is shown after a
-- return and after a raise of that part.
use kafka_fdb_streamline.Common.{◌≡◌, refl}
use kafka_fdb_streamline.Errors.{Exn}
use kafka_fdb_streamline.Exec.{Result, ok, err, Exec, catch, ◌>>=◌, ◌>>◌}
use kafka_fdb_streamline.Exec.Keeps.{Keeps}

module _ {ℓ} {S A B : Type ℓ} (Q : Result B × S → Type ℓ) where
  split_bind :
      (r : Result A) (f : A → Exec S B) (s : S)
      → ((a : A) → r ≡ ok a → Q (f a s))
      → ((e : Exn) → r ≡ err e → Q (err e, s))
      → Q (((λ t. (r, t)) >>= f) s)
  unfolding ◌>>=◌
  split_bind (ok a) f s returned raised = returned a refl
  split_bind (err e) f s returned raised = raised e refl

  pub bind_at :
      (m : Exec S A) (f : A → Exec S B) (s : S)
      → ((a : A) → (m s).0 ≡ ok a → Q (f a (m s).1))
      → ((e : Exn) → (m s).0 ≡ err e → Q (err e, (m s).1))
      → Q ((m >>= f) s)
  unfolding ◌>>=◌
  bind_at m f s returned raised = split_bind (m s).0 f (m s).1 returned raised

  pub then_at :
      (m : Exec S A) (k : Exec S B) (s : S)
      → ((a : A) → (m s).0 ≡ ok a → Q (k (m s).1))
      → ((e : Exn) → (m s).0 ≡ err e → Q (err e, (m s).1))
      → Q ((m >> k) s)
  unfolding ◌>>◌
  then_at m k s returned raised = bind_at m (λ _. k) s returned raised

module _ {ℓ} {S A : Type ℓ} (Q : Result A × S → Type ℓ) where
  split_catch :
      (r : Result A) (h : Exn → Exec S A) (s : S)
      → ((a : A) → r ≡ ok a → Q (ok a, s))
      → ((e : Exn) → r ≡ err e → Q (h e s))
      → Q (catch (λ t. (r, t)) h s)
  unfolding catch
  split_catch (ok a) h s returned raised = returned a refl
  split_catch (err e) h s returned raised = raised e refl

  pub catch_at :
      (m : Exec S A) (h : Exn → Exec S A) (s : S)
      → ((a : A) → (m s).0 ≡ ok a → Q (ok a, (m s).1))
      → ((e : Exn) → (m s).0 ≡ err e → Q (h e (m s).1))
      → Q (catch m h s)
  unfolding catch
  catch_at m h s returned raised = split_catch (m s).0 h (m s).1 returned raised

-- `P` before gives `Q` after, whether `m` returns or raises.
pub record Brings {ℓ} {S A : Type ℓ} (P : S → Type ℓ) (m : Exec S A) (Q : S → Type ℓ) : Type ℓ where
  pub at : (s : S) → P s → Q (m s).1

module _ {ℓ} {S A : Type ℓ} {P Q : S → Type ℓ} where
  pub Brings-catch :
      (m : Exec S A) (h : Exn → Exec S A)
      → Brings P m Q
      → ((e : Exn) → Keeps Q (h e))
      → Brings P (catch m h) Q
  Brings-catch m h bm kh = record {
    at = λ s p.
        catch_at (λ x. Q x.1) m h s (λ _ _. bm.at s p) (λ e _. (kh e).at (m s).1 (bm.at s p));
  }

module _ {ℓ} {S A B : Type ℓ} {P Q : S → Type ℓ} (weaken : (s : S) → P s → Q s) where
  pub Brings-bind :
      (m : Exec S A) (f : A → Exec S B)
      → Keeps P m
      → ((a : A) → Brings P (f a) Q)
      → Brings P (m >>= f) Q
  Brings-bind m f km bf = record {
    at = λ s p.
        bind_at (λ x. Q x.1) m f s (λ a _. (bf a).at (m s).1 (km.at s p))
          (λ _ _. weaken (m s).1 (km.at s p));
  }

  pub Brings-then : (m : Exec S A) (k : Exec S B) → Keeps P m → Brings P k Q → Brings P (m >> k) Q
  unfolding ◌>>◌
  Brings-then m k km bk = Brings-bind m (λ _. k) km (λ _. bk)
