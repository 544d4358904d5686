-- ===== src/Bridge/Config/Floats.antt =====
-- The float of a positive number is positive.
use kafka_fdb_streamline.Common.{
  ℕ, zero, suc, ◌/◌, ◌^◌, ◌<◌, Bool, true, false, Option, none, some, ltb, if◌then◌else◌, pos,
  negsuc, ◌≡◌, refl, arith, if_cases, subst,
}
use kafka_fdb_streamline.Common.Number.{
  Number, Float, whole, float, not_positive, leading, halvings, rounded, nearest, signed, to_float,
}
use kafka_fdb_streamline.Exec.{ok}
use kafka_fdb_streamline.Exec.Outcome.{ok_injective}
use kafka_fdb_streamline.Bridge.Config.{or_overflow, as_float}

leading-positive : (fuel n : ℕ) → 0 < n → 0 < leading fuel n
unfolding leading
leading-positive zero n h = h
leading-positive (suc fuel) n h =
    if_cases (λ (m : ℕ). 0 < m) (ltb n (2 ^ 53)) _ _ (λ _. h)
      (λ large. leading-positive fuel (n / 2) (ground arith))

mantissa_positive :
    (q m s t : ℕ) (over up : Bool)
    → 0 < q
    → if◌then◌else◌ {A = Option (ℕ × ℕ)} over none (some ((if up then suc q else q), s))
      ≡ some (m, t)
    → 0 < m
mantissa_positive q m s t true up h e = cc
mantissa_positive q m s t false true h e = ground arith
mantissa_positive q m s t false false h e = ground arith

rounded-positive : (n q s : ℕ) (x : ℕ × ℕ) → 0 < q → rounded n q s ≡ some x → 0 < x.0
unfolding rounded
rounded-positive n q s (m, t) h e = mantissa_positive q m s t _ _ h e

nearest-positive : (n : ℕ) (x : ℕ × ℕ) → 0 < n → nearest n ≡ some x → 0 < x.0
unfolding nearest
nearest-positive n x h e =
    rounded-positive n (leading 1024 n) (halvings 1024 n) x (leading-positive 1024 n h) e

signed-positive :
    (o : Option (ℕ × ℕ)) (f : Float)
    → ((x : ℕ × ℕ) → o ≡ some x → 0 < x.0)
    → or_overflow (signed pos o) ≡ ok f
    → not_positive (float f) ≡ false
unfolding not_positive
signed-positive none f above e = cc
signed-positive (some (m, s)) f above e =
    subst (λ (f : Float). not_positive (float f) ≡ false) (ok_injective e)
      (let large = above (m, s) refl in ground arith)

pub as_float-positive :
    (n : Number) (f : Float)
    → not_positive n ≡ false
    → as_float n ≡ ok f
    → not_positive (float f) ≡ false
unfolding as_float to_float not_positive
as_float-positive (float g) f h e =
    subst (λ (f : Float). not_positive (float f) ≡ false) (ok_injective e) h
as_float-positive (whole (pos n)) f h e =
    signed-positive (nearest n) f (λ x. nearest-positive n x (ground arith)) e
as_float-positive (whole (negsuc n)) f h e = ground arith
