-- ===== src/Demo/Workload/Range.antt =====
-- Distinct numbers below a bound are no more than the bound, and as many as the bound are all of them.
use kafka_fdb_streamline.Common.{
  ℕ, zero, suc, ◌<◌, ◌≤◌, true, false, List, [], ◌∷◌, length, ◌==◌, All, ◌≡◌, refl, arith,
  if◌then◌else◌, if_cases, Bool-cases, inl, inr,
}
use kafka_fdb_streamline.Demo.Workload.Verifier.{has}

-- No number occurs twice.
abbrev pub AreDistinct : List ℕ → Type 0
AreDistinct [] = Unit
AreDistinct (n ∷ rest) = (has n rest ≡ false) × AreDistinct rest

abbrev Below : ℕ → List ℕ → Type 0
Below bound = All (λ n. n < bound)

unfoldable remove : ℕ → List ℕ → List ℕ
remove x [] = []
remove x (y ∷ rest) = let others = remove x rest in if x == y then rest else y ∷ others

length-remove : (x : ℕ) (l : List ℕ) → length l ≤ suc (length (remove x l))
unfolding remove
length-remove x [] = omega arith
length-remove x (y ∷ rest) =
    if_cases (λ (l : List ℕ). suc (length rest) ≤ suc (length l)) (x == y) rest (y ∷ remove x rest)
      (λ _. omega arith) (λ _. omega (arith, length-remove x rest))

has-remove : (x y : ℕ) (l : List ℕ) → has y l ≡ false → has y (remove x l) ≡ false
unfolding has remove
has-remove x y [] absent = refl
has-remove x y (z ∷ rest) absent =
    if_cases (λ (l : List ℕ). has y l ≡ false) (x == z) rest (z ∷ remove x rest) (λ _. ground arith)
      (λ _. let others = has-remove x y rest (ground arith) in ground arith)

AreDistinct-remove : (x : ℕ) (l : List ℕ) → AreDistinct l → AreDistinct (remove x l)
unfolding remove
AreDistinct-remove x [] distinct = tt
AreDistinct-remove x (y ∷ rest) distinct =
    if_cases AreDistinct (x == y) rest (y ∷ remove x rest) (λ _. distinct.1)
      (λ _. (has-remove x y rest distinct.0, AreDistinct-remove x rest distinct.1))

Below-absent : (n : ℕ) (l : List ℕ) → has n l ≡ false → Below (suc n) l → Below n l
unfolding has
Below-absent n [] absent below = tt
Below-absent n (y ∷ rest) absent below =
    let bound = below.0 in (ground arith, Below-absent n rest (ground arith) below.1)

Below-remove : (n : ℕ) (l : List ℕ) → AreDistinct l → Below (suc n) l → Below n (remove n l)
unfolding remove
Below-remove n [] distinct below = tt
Below-remove n (y ∷ rest) distinct below =
    let bound = below.0 in
    if_cases (Below n) (n == y) rest (y ∷ remove n rest)
      (λ same. let absent = distinct.0 in Below-absent n rest (ground arith) below.1)
      (λ other. (ground arith, Below-remove n rest distinct.1 below.1))

pub no_more : (n : ℕ) (l : List ℕ) → AreDistinct l → Below n l → length l ≤ n
no_more zero [] distinct below = omega arith
no_more zero (y ∷ rest) distinct below = omega (arith, below.0)
no_more (suc n) l distinct below = omega (
  arith,
  length-remove n l,
  no_more n (remove n l) (AreDistinct-remove n l distinct) (Below-remove n l distinct below),
)

length-remove-has : (x : ℕ) (l : List ℕ) → has x l ≡ true → suc (length (remove x l)) ≤ length l
unfolding has remove
length-remove-has x [] there = cc
length-remove-has x (y ∷ rest) there =
    if_cases (λ (l : List ℕ). suc (length l) ≤ suc (length rest)) (x == y) rest (y ∷ remove x rest)
      (λ _. omega arith) (λ other. omega (arith, length-remove-has x rest (ground arith)))

has-remove-other :
    (x y : ℕ) (l : List ℕ) → (y == x) ≡ false → has y l ≡ true → has y (remove x l) ≡ true
unfolding has remove
has-remove-other x y [] other there = cc
has-remove-other x y (z ∷ rest) other there =
    if_cases (λ (l : List ℕ). has y l ≡ true) (x == z) rest (z ∷ remove x rest)
      (λ same. ground arith) (λ _. ground (arith, has-remove-other x y rest))

-- A list with all the numbers below a bound is as long as the bound at least.
pub no_fewer : (n : ℕ) (l : List ℕ) → ((k : ℕ) → k < n → has k l ≡ true) → n ≤ length l
no_fewer zero l all = omega arith
no_fewer (suc n) l all =
    let others =
      λ (k : ℕ) (below : k < n). has-remove-other n k l (ground arith) (all k (omega arith)) in
    omega (arith, no_fewer n (remove n l) others, length-remove-has n l (all n (omega arith)))

-- As many distinct numbers below a bound as the bound are all of them.
pub has-all :
    (n i : ℕ) (l : List ℕ)
    → AreDistinct l
    → All (λ k. k < n) l
    → length l ≡ n
    → i < n
    → has i l ≡ true
has-all n i l distinct below enough small = elim (Bool-cases (has i l)) [
  | inl there ↦ there
  | inr absent ↦ ground (arith, no_more n (i ∷ l) (absent, distinct) (small, below))
]
