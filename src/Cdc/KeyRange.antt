-- ===== src/Cdc/KeyRange.antt =====
-- cdc/listener.py, strinc and subspace_to_key_range: the keys with a given prefix as a range of keys.
use kafka_fdb_streamline.Common.{
  ap, ◌∙◌, ℕ, suc, true, false, ◌&&◌, ◌||◌, not, [], ◌∷◌, ltb, leb, ◌==◌, if◌then◌else◌, is_empty,
  All, ◌≡◌, ◌<◌, ◌↔◌, refl, arith, Bool-cases, if_cases, inl, inr, subst,
}
use kafka_fdb_streamline.Common.Texts.{bytes_lt, starts_with}
use kafka_fdb_streamline.Errors.{value_error, type_error}
use kafka_fdb_streamline.Exec.{Result, ok, err}
use kafka_fdb_streamline.Exec.Outcome.{◌>>=◌, bind_ok, ok_injective}
use kafka_fdb_streamline.Serialization.Model.{Bytes}

-- `key.rstrip(b"\xff")`
unfoldable pub rstrip_ff : Bytes → Bytes
rstrip_ff [] = []
rstrip_ff (b ∷ rest) =
    let stripped = rstrip_ff rest in if is_empty stripped && b == 255 then [] else b ∷ stripped

-- `stripped[:-1] + bytes([stripped[-1] + 1])`
unfoldable pub increment_last : Bytes → Bytes
increment_last [] = []
increment_last (b ∷ []) = suc b ∷ []
increment_last (b ∷ c ∷ rest) = b ∷ increment_last (c ∷ rest)

unfoldable pub strinc : Bytes → Result Bytes
strinc key =
    let stripped = rstrip_ff key in
    if is_empty stripped then err value_error else ok (increment_last stripped)

-- An object whose `key` method answered, bytes, or anything else.
pub data Subspace : Type 0 where
  with_key : Result Bytes → Subspace
  key_prefix : Bytes → Subspace
  no_subspace : Subspace

-- The prefix and its range.
unfoldable pub range_of : Bytes → Result (Bytes × Bytes)
range_of prefix = strinc prefix >>= λ end_key. ok (prefix, end_key)

unfoldable pub subspace_to_key_range : Subspace → Result (Bytes × Bytes)
subspace_to_key_range (with_key answer) = answer >>= range_of
subspace_to_key_range (key_prefix prefix) = range_of prefix
subspace_to_key_range no_subspace = err type_error

-- A prefix of 0xff bytes only has no end.
starts_with-all_ff :
    (p k : Bytes)
    → is_empty (rstrip_ff p) ≡ true
    → All (λ b. b < 256) k
    → starts_with p k ≡ not (bytes_lt k p)
unfolding rstrip_ff starts_with bytes_lt
starts_with-all_ff [] [] h small = refl
starts_with-all_ff [] (a ∷ k) h small = refl
starts_with-all_ff (b ∷ p) [] h small = refl
starts_with-all_ff (b ∷ p) (a ∷ k) h small =
    let bound = small.0 in
    elim (Bool-cases (is_empty (rstrip_ff p))) [
      | inl e ↦ let rest = starts_with-all_ff p k e small.1 in ground arith
      | inr e ↦ ground arith
    ]

bytes_lt-increment_single :
    (a b : ℕ) (k s : Bytes)
    → is_empty s ≡ true
    → bytes_lt (a ∷ k) (increment_last (b ∷ s)) ≡ leb a b
unfolding bytes_lt increment_last
bytes_lt-increment_single a b [] [] h = ground arith
bytes_lt-increment_single a b (c ∷ k) [] h = ground arith
bytes_lt-increment_single a b k (c ∷ s) h = cc

bytes_lt-increment_more :
    (a b : ℕ) (k s : Bytes)
    → is_empty s ≡ false
    → bytes_lt (a ∷ k) (increment_last (b ∷ s))
      ≡ (ltb a b || (a == b && bytes_lt k (increment_last s)))
unfolding bytes_lt increment_last
bytes_lt-increment_more a b k [] h = cc
bytes_lt-increment_more a b k (c ∷ s) h = refl

starts_with-increment :
    (p k : Bytes)
    → is_empty (rstrip_ff p) ≡ false
    → All (λ b. b < 256) k
    → starts_with p k ≡ (not (bytes_lt k p) && bytes_lt k (increment_last (rstrip_ff p)))
unfolding rstrip_ff starts_with bytes_lt
starts_with-increment [] k h small = cc
starts_with-increment (b ∷ p) [] h small = refl
starts_with-increment (b ∷ p) (a ∷ k) h small =
    let bound = small.0 in
    elim (Bool-cases (is_empty (rstrip_ff p))) [
      | inl e ↦
          let rest = starts_with-all_ff p k e small.1 in
          let next = bytes_lt-increment_single a b k (rstrip_ff p) e in ground arith
      | inr e ↦
          let rest = starts_with-increment p k e small.1 in
          let next = bytes_lt-increment_more a b k (rstrip_ff p) e in ground arith
    ]

-- Where `strinc` returns, the keys from the prefix up to its result are the keys with that prefix.
pub strinc-range :
    (p e k : Bytes)
    → strinc p ≡ ok e
    → All (λ b. b < 256) k
    → starts_with p k ≡ (not (bytes_lt k p) && bytes_lt k e)
unfolding strinc
strinc-range p e k returned small = elim (Bool-cases (is_empty (rstrip_ff p))) [
  | inl empty ↦ ground arith
  | inr kept ↦
      subst (λ r. starts_with p k ≡ (not (bytes_lt k p) && bytes_lt k r)) (ground arith)
        (starts_with-increment p k kept small)
]

rstrip_ff-empty : (p : Bytes) → is_empty (rstrip_ff p) ≡ true → All (λ b. b ≡ 255) p
unfolding rstrip_ff
rstrip_ff-empty [] h = tt
rstrip_ff-empty (b ∷ p) h = elim (Bool-cases (is_empty (rstrip_ff p))) [
  | inl e ↦ (ground arith, rstrip_ff-empty p e)
  | inr e ↦ ground arith
]

rstrip_ff-all_ff : (p : Bytes) → All (λ b. b ≡ 255) p → is_empty (rstrip_ff p) ≡ true
unfolding rstrip_ff
rstrip_ff-all_ff [] h = refl
rstrip_ff-all_ff (b ∷ p) h = let rest = rstrip_ff-all_ff p h.1 in let all_ff = h.0 in ground arith

-- `strinc` raises for the keys of 0xff bytes only, the empty one among them, and returns for all others.
pub strinc-raises : (p : Bytes) → (strinc p ≡ err value_error) ↔ All (λ b. b ≡ 255) p
unfolding strinc
strinc-raises p = (
  λ raised. elim (Bool-cases (is_empty (rstrip_ff p))) [
    | inl e ↦ rstrip_ff-empty p e
    | inr e ↦ ground arith
  ],
  λ all_ff. rw (rstrip_ff-all_ff p all_ff),
)

range_of-range :
    (p b e k : Bytes)
    → range_of p ≡ ok (b, e)
    → All (λ b. b < 256) k
    → starts_with b k ≡ (not (bytes_lt k b) && bytes_lt k e)
unfolding range_of
range_of-range p b e k returned small =
    let (r, stepped, same) = bind_ok (strinc p) _ returned in
    subst (λ (x : Bytes × Bytes). starts_with x.0 k ≡ (not (bytes_lt k x.0) && bytes_lt k x.1))
      (ok_injective same) (strinc-range p r k stepped small)

-- The prefix of the subspace's keys, as its `key()` or `key_prefix` gives it.
abbrev pub subspace_prefix : Subspace → Result Bytes
subspace_prefix (with_key answer) = answer
subspace_prefix (key_prefix prefix) = ok prefix
subspace_prefix no_subspace = err type_error

range_of-begin : (p b e : Bytes) → range_of p ≡ ok (b, e) → p ≡ b
unfolding range_of
range_of-begin p b e returned =
    let (r, _, same) = bind_ok (strinc p) _ returned in
    ap (λ (x : Bytes × Bytes). x.0) (ok_injective same)

-- Where `subspace_to_key_range` returns, its range begins with the subspace's prefix, and it holds the keys
-- that start with that prefix and no other keys of bytes.
pub subspace_to_key_range-range :
    (s : Subspace) (b e k : Bytes)
    → subspace_to_key_range s ≡ ok (b, e)
    → All (λ b. b < 256) k
    → (subspace_prefix s ≡ ok b) × (starts_with b k ≡ (not (bytes_lt k b) && bytes_lt k e))
unfolding subspace_to_key_range
subspace_to_key_range-range (with_key answer) b e k returned small =
    let (p, given, ranged) = bind_ok answer range_of returned in
    (given ∙ ap ok (range_of-begin p b e ranged), range_of-range p b e k ranged small)
subspace_to_key_range-range (key_prefix p) b e k returned small =
    (ap ok (range_of-begin p b e returned), range_of-range p b e k returned small)
subspace_to_key_range-range no_subspace b e k returned small = cc

grown-small :
    (b : ℕ) (s : Bytes)
    → b < 256
    → (is_empty s ≡ true → (b == 255) ≡ false)
    → All (λ c. c < 256) (increment_last s)
    → All (λ c. c < 256) (increment_last (b ∷ s))
unfolding increment_last
grown-small b [] small below rest = (let last = below refl in ground arith, tt)
grown-small b (c ∷ s) small below rest = (small, rest)

empty-small : All (λ (b : ℕ). b < 256) (increment_last [])
unfolding increment_last
empty-small = tt

increment_last-small :
    (p : Bytes) → All (λ b. b < 256) p → All (λ b. b < 256) (increment_last (rstrip_ff p))
unfolding rstrip_ff
increment_last-small [] small = empty-small
increment_last-small (b ∷ p) small =
    if_cases (λ (s : Bytes). All (λ c. c < 256) (increment_last s))
      (is_empty (rstrip_ff p) && b == 255) [] (b ∷ rstrip_ff p) (λ _. empty-small)
      (λ other.
        grown-small b (rstrip_ff p) small.0 (λ empty. ground arith)
          (increment_last-small p small.1))

-- The end that `strinc` returns for a key of bytes is made of bytes: the byte that it increments is not 0xff.
pub strinc-small : (p e : Bytes) → All (λ b. b < 256) p → strinc p ≡ ok e → All (λ b. b < 256) e
unfolding strinc
strinc-small p e small returned =
    subst (All (λ b. b < 256)) (ground arith) (increment_last-small p small)
