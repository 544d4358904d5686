-- ===== src/Demo/Workload/Numbers.antt =====
-- The sequence numbers of a version among the coordinates: distinct, and all below the total.
use kafka_fdb_streamline.Common.{
  ℕ, zero, suc, ◌<◌, true, false, List, [], ◌∷◌, length, ◌==◌, All, ◌≡◌, refl, subst, ◌∙◌, arith,
  if◌then◌else◌, Bool-cases, if_cases, inl, inr,
}
use kafka_fdb_streamline.Demo.Workload.Range.{AreDistinct, no_more, no_fewer}
use kafka_fdb_streamline.Demo.Workload.Verifier.{has, has_pair, all_below, all_there}

-- No coordinate occurs twice.
abbrev pub AreUnique : List (ℕ × ℕ) → Type 0
AreUnique [] = Unit
AreUnique (pair ∷ rest) = (has_pair pair rest ≡ false) × AreUnique rest

-- The sequence numbers of a version.
unfoldable pub numbers : ℕ → List (ℕ × ℕ) → List ℕ
numbers version [] = []
numbers version (pair ∷ rest) =
    let others = numbers version rest in if version == pair.0 then pair.1 ∷ others else others

has-numbers :
    (version n : ℕ) (c : List (ℕ × ℕ)) → has n (numbers version c) ≡ has_pair (version, n) c
unfolding has numbers has_pair
has-numbers version n [] = refl
has-numbers version n (pair ∷ c) = ground (arith, has-numbers version n c)

numbers-AreDistinct :
    (version : ℕ) (c : List (ℕ × ℕ)) → AreUnique c → AreDistinct (numbers version c)
unfolding numbers
numbers-AreDistinct version [] unique = tt
numbers-AreDistinct version ((v, n) ∷ c) (first, rest) =
    if_cases AreDistinct (version == v) (n ∷ numbers version c) (numbers version c)
      (λ same.
        let this : has_pair (version, n) c ≡ false =
          subst (λ k. has_pair (k, n) c ≡ false) (ground arith) first in
        (has-numbers version n c ∙ this, numbers-AreDistinct version c rest))
      (λ _. numbers-AreDistinct version c rest)

numbers-below :
    (version total : ℕ) (c : List (ℕ × ℕ))
    → all_below version total c ≡ true
    → All (λ n. n < total) (numbers version c)
unfolding numbers all_below
numbers-below version total [] below = tt
numbers-below version total ((v, n) ∷ c) below =
    if_cases (All (λ n. n < total)) (version == v) (n ∷ numbers version c) (numbers version c)
      (λ same. (ground arith, numbers-below version total c (ground arith)))
      (λ _. numbers-below version total c (ground arith))

has_pair-all_there :
    (version total n : ℕ) (c : List (ℕ × ℕ))
    → all_there version total c ≡ true
    → n < total
    → has_pair (version, n) c ≡ true
unfolding all_there
has_pair-all_there version zero n c there below = absurd (omega arith)
has_pair-all_there version (suc total) n c there below = elim (Bool-cases (n == total)) [
  | inl same ↦ let e : n ≡ total = ground arith in rw e (ground arith)
  | inr other ↦ has_pair-all_there version total n c (ground arith) (ground arith)
]

pub length-numbers :
    (version total : ℕ) (c : List (ℕ × ℕ))
    → AreUnique c
    → all_below version total c ≡ true
    → all_there version total c ≡ true
    → length (numbers version c) ≡ total
length-numbers version total c unique below there = omega (
  arith,
  no_more total (numbers version c) (numbers-AreDistinct version c unique)
      (numbers-below version total c below),
  no_fewer total (numbers version c)
      (λ k small. has-numbers version k c ∙ has_pair-all_there version total k c there small),
)
