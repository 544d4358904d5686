-- ===== src/Demo/Workload/Coordinates.antt =====
-- Coordinates that are numbered from 0 in each version reconcile with the totals.
use kafka_fdb_streamline.Common.{
  ℕ, zero, suc, ◌≤◌, ◌<◌, true, false, List, [], ◌∷◌, ◌++◌, length, ◌==◌, ◌≡◌, refl, ap, arith,
}
use kafka_fdb_streamline.Demo.Workload.Verifier.{
  has, has_pair, has_version, all_below, all_there, all_ended, reconciled,
}

-- The numbers below a bound, the largest first.
abbrev pub countdown : ℕ → List ℕ
countdown zero = []
countdown (suc n) = n ∷ countdown n

-- The coordinates of a version that has so many mutations, the latest first.
abbrev pub counted : ℕ → ℕ → List (ℕ × ℕ)
counted version zero = []
counted version (suc n) = (version, n) ∷ counted version n

abbrev pub all_counted : List (ℕ × ℕ) → List (ℕ × ℕ)
all_counted [] = []
all_counted ((version, total) ∷ rest) = counted version total ++ all_counted rest

-- No version has two totals.
abbrev pub HasOneTotal : List (ℕ × ℕ) → Type 0
HasOneTotal [] = Unit
HasOneTotal ((version, total) ∷ rest) = (has_version version rest ≡ false) × HasOneTotal rest

pub length-countdown : (n : ℕ) → length (countdown n) ≡ n
length-countdown zero = refl
length-countdown (suc n) = ap suc (length-countdown n)

pub has-countdown : (n i : ℕ) → n ≤ i → has i (countdown n) ≡ false
unfolding has
has-countdown zero i above = refl
has-countdown (suc n) i above = ground (arith, has-countdown n i)

has_pair-counted_other :
    (version n number other : ℕ) (c : List (ℕ × ℕ))
    → (version == other) ≡ false
    → has_pair (version, number) (counted other n ++ c) ≡ has_pair (version, number) c
unfolding has_pair
has_pair-counted_other version zero number other c differs = refl
has_pair-counted_other version (suc n) number other c differs =
    ground (arith, has_pair-counted_other version n number other c)

has_pair-all_counted :
    (version number : ℕ) (totals : List (ℕ × ℕ))
    → has_version version totals ≡ false
    → has_pair (version, number) (all_counted totals) ≡ false
unfolding has_pair has_version
has_pair-all_counted version number [] absent = refl
has_pair-all_counted version number ((other, total) ∷ rest) absent = ground (
  arith,
  has_pair-counted_other version total number other (all_counted rest),
  has_pair-all_counted version number rest,
)

-- The next coordinate of a version is a new one.
pub has_pair-next :
    (version n number : ℕ) (totals : List (ℕ × ℕ))
    → has_version version totals ≡ false
    → n ≤ number
    → has_pair (version, number) (counted version n ++ all_counted totals) ≡ false
unfolding has_pair
has_pair-next version zero number totals absent above =
    has_pair-all_counted version number totals absent
has_pair-next version (suc n) number totals absent above =
    ground (arith, has_pair-next version n number totals)

has_pair-append :
    (p : ℕ × ℕ) (c d : List (ℕ × ℕ)) → has_pair p d ≡ true → has_pair p (c ++ d) ≡ true
unfolding has_pair
has_pair-append p [] d there = there
has_pair-append p (q ∷ c) d there = ground (arith, has_pair-append p c d)

has_pair-counted :
    (version n number : ℕ) (c : List (ℕ × ℕ))
    → number < n
    → has_pair (version, number) (counted version n ++ c) ≡ true
unfolding has_pair
has_pair-counted version zero number c below = absurd (omega arith)
has_pair-counted version (suc n) number c below =
    ground (arith, has_pair-counted version n number c)

all_there-counted :
    (version n total : ℕ) (c : List (ℕ × ℕ))
    → n ≤ total
    → all_there version n (counted version total ++ c) ≡ true
unfolding all_there
all_there-counted version zero total c within = refl
all_there-counted version (suc n) total c within =
    ground (arith, has_pair-counted version total n c, all_there-counted version n total c)

all_there-append :
    (version n : ℕ) (c d : List (ℕ × ℕ))
    → all_there version n d ≡ true
    → all_there version n (c ++ d) ≡ true
unfolding all_there
all_there-append version zero c d there = refl
all_there-append version (suc n) c d there =
    ground (arith, has_pair-append (version, n) c d, all_there-append version n c d)

all_below-counted :
    (version n total : ℕ) (c : List (ℕ × ℕ))
    → n ≤ total
    → all_below version total c ≡ true
    → all_below version total (counted version n ++ c) ≡ true
unfolding all_below
all_below-counted version zero total c within below = below
all_below-counted version (suc n) total c within below =
    ground (arith, all_below-counted version n total c)

all_below-counted_other :
    (version n total other : ℕ) (c : List (ℕ × ℕ))
    → (version == other) ≡ false
    → all_below version total c ≡ true
    → all_below version total (counted other n ++ c) ≡ true
unfolding all_below
all_below-counted_other version zero total other c differs below = below
all_below-counted_other version (suc n) total other c differs below =
    ground (arith, all_below-counted_other version n total other c)

all_below-all_counted :
    (version total : ℕ) (totals : List (ℕ × ℕ))
    → has_version version totals ≡ false
    → all_below version total (all_counted totals) ≡ true
unfolding all_below has_version
all_below-all_counted version total [] absent = refl
all_below-all_counted version total ((other, n) ∷ rest) absent = ground (
  arith,
  all_below-counted_other version n total other (all_counted rest),
  all_below-all_counted version total rest,
)

-- A version more, which has no total yet, disturbs no other.
reconciled-counted :
    (version n : ℕ) (totals c : List (ℕ × ℕ))
    → has_version version totals ≡ false
    → reconciled totals c ≡ true
    → reconciled totals (counted version n ++ c) ≡ true
unfolding reconciled has_version
reconciled-counted version n [] c absent done = refl
reconciled-counted version n ((other, total) ∷ rest) c absent done = ground (
  arith,
  all_below-counted_other other n total version c,
  all_there-append other total (counted version n) c,
  reconciled-counted version n rest c,
)

pub reconciled-all_counted :
    (totals : List (ℕ × ℕ)) → HasOneTotal totals → reconciled totals (all_counted totals) ≡ true
unfolding reconciled
reconciled-all_counted [] once = refl
reconciled-all_counted ((version, total) ∷ rest) once =
    let absent = once.0 in
    ground (
      arith,
      all_below-counted version total total (all_counted rest),
      all_below-all_counted version total rest,
      all_there-counted version total total (all_counted rest),
      reconciled-counted version total rest (all_counted rest),
      reconciled-all_counted rest once.1,
    )

all_ended-counted :
    (version n : ℕ) (c totals : List (ℕ × ℕ))
    → has_version version totals ≡ true
    → all_ended c totals ≡ true
    → all_ended (counted version n ++ c) totals ≡ true
unfolding all_ended
all_ended-counted version zero c totals there ended = ended
all_ended-counted version (suc n) c totals there ended =
    ground (arith, all_ended-counted version n c totals)

all_ended-more :
    (pair : ℕ × ℕ) (c totals : List (ℕ × ℕ))
    → all_ended c totals ≡ true
    → all_ended c (pair ∷ totals) ≡ true
unfolding all_ended has_version
all_ended-more pair [] totals ended = refl
all_ended-more pair (q ∷ c) totals ended = ground (arith, all_ended-more pair c totals)

pub all_ended-all_counted : (totals : List (ℕ × ℕ)) → all_ended (all_counted totals) totals ≡ true
unfolding has_version all_ended
all_ended-all_counted [] = refl
all_ended-all_counted ((version, total) ∷ rest) =
    all_ended-counted version total (all_counted rest) ((version, total) ∷ rest) (ground arith)
      (all_ended-more (version, total) (all_counted rest) rest (all_ended-all_counted rest))
