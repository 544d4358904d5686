-- ===== src/Demo/Writer/Seeds.antt =====
-- The demo's clear ranges are not empty when they are cleared: each holds a key that was seeded.
use kafka_fdb_streamline.Common.{
  ℕ, zero, suc, ◌+◌, ◌*◌, ◌/◌, ◌%◌, ◌≤◌, ◌<◌, Bool, true, false, List, [], ◌∷◌, ◌++◌, length, take,
  drop, map, concat, ◌==◌, ◌≡◌, refl, ap, ◌⊎◌, inl, inr, arith, subst, sym, if_cases, Bool-cases,
  ◌∙◌,
}
use mathlib.Core.List.{map-append}
use kafka_fdb_streamline.Common.Texts.{bytes_lt, codes}
use kafka_fdb_streamline.Serialization.Model.{Bytes}
use kafka_fdb_streamline.Demo.Workload.{eight_digits}
use kafka_fdb_streamline.Demo.Writer.{
  Write, write_of, seed_of, seed_chunks, seed_clear_targets, clear_indexes,
}
use kafka_fdb_streamline.Serialization.VersionGroup.Cut.{drop-drop}

-- The write clears a range in which the other sets a key.
abbrev pub Covers : Write → Write → Type 0
Covers (Write.clear_range begin_key end_key) (Write.set key value) =
    (bytes_lt key begin_key ≡ false) × (bytes_lt key end_key ≡ true)
Covers _ _ = ⊥

-- One of the writes sets a key in the range that the write clears.
abbrev pub IsSeeded : List Write → Write → Type 0
IsSeeded [] write = ⊥
IsSeeded (seed ∷ rest) write = Covers write seed ⊎ IsSeeded rest write

bytes_lt-append : (xs ys zs : Bytes) → bytes_lt (xs ++ ys) (xs ++ zs) ≡ bytes_lt ys zs
unfolding bytes_lt
bytes_lt-append [] ys zs = refl
bytes_lt-append (x ∷ xs) ys zs = ground (arith, bytes_lt-append xs ys zs)

clr_key_lt :
    (prefix idx last other : Bytes) (b : Bool)
    → bytes_lt last other ≡ b
    → bytes_lt (prefix ++ codes "clr_" ++ idx ++ last) (prefix ++ codes "clr_" ++ idx ++ other) ≡ b
clr_key_lt prefix idx last other b less =
    bytes_lt-append (prefix ++ codes "clr_" ++ idx) last other ∙ less

a_le_m : bytes_lt (codes "/m") (codes "/a") ≡ false
unfolding bytes_lt
a_le_m = refl

m_lt_z : bytes_lt (codes "/m") (codes "/z") ≡ true
unfolding bytes_lt
m_lt_z = refl

Nat_cases : (n m : ℕ) → n ≤ m → (n ≡ m) ⊎ (suc n ≤ m)
Nat_cases n m below = elim (Bool-cases (n == m)) [
  | inl same ↦ inl (ground arith)
  | inr other ↦ inr (ground arith)
]

seed_of-Covers :
    (prefix : Bytes) (index : ℕ)
    → index % 14 ≡ 1
    → Covers (write_of prefix index) (seed_of prefix index)
unfolding write_of seed_of
seed_of-Covers prefix index clears =
    let idx = eight_digits index in
    rw clears (
      clr_key_lt prefix idx (codes "/m") (codes "/a") false a_le_m,
      clr_key_lt prefix idx (codes "/m") (codes "/z") true m_lt_z,
    )

IsSeeded-map :
    (prefix : Bytes) (index start count : ℕ)
    → start ≤ index
    → index < start + count
    → index % 14 ≡ 1
    → IsSeeded (map (seed_of prefix) (clear_indexes start count)) (write_of prefix index)
unfolding clear_indexes
IsSeeded-map prefix index start zero above below clears = absurd (omega arith)
IsSeeded-map prefix index start (suc count) above below clears =
    let later = λ (h : suc start ≤ index).
      IsSeeded-map prefix index (suc start) count h (omega arith) clears in
    if_cases (λ (l : List ℕ). IsSeeded (map (seed_of prefix) l) (write_of prefix index))
      (start % 14 == 1) (start ∷ clear_indexes (suc start) count) (clear_indexes (suc start) count)
      (λ _. elim (Nat_cases start index above) [
        | inl same ↦ inl (
            subst (λ i. Covers (write_of prefix index) (seed_of prefix i)) (sym same)
              (seed_of-Covers prefix index clears))
        | inr more ↦ inr (later more)
      ])
      (λ other. later (ground arith))

take-drop : (n : ℕ) (l : List ℕ) → take n l ++ drop n l ≡ l
take-drop zero l = refl
take-drop (suc n) [] = refl
take-drop (suc n) (x ∷ l) = ap (λ (l : List ℕ). x ∷ l) (take-drop n l)

drop_all : (n : ℕ) (l : List ℕ) → length l ≤ n → drop n l ≡ []
drop_all zero [] within = refl
drop_all zero (x ∷ l) within = absurd (omega arith)
drop_all (suc n) [] within = refl
drop_all (suc n) (x ∷ l) within = drop_all n l (omega arith)

seed_chunks-concat :
    (prefix : Bytes) (indexes : List ℕ) (rounds offset : ℕ)
    → length indexes ≤ offset + rounds * 500
    → concat (seed_chunks prefix indexes rounds offset) ≡ map (seed_of prefix) (drop offset indexes)
unfolding seed_chunks
seed_chunks-concat prefix indexes zero offset within =
    sym (ap (map (seed_of prefix)) (drop_all offset indexes (omega arith)))
seed_chunks-concat prefix indexes (suc rounds) offset within =
    let rest = drop offset indexes in
    rw (seed_chunks-concat prefix indexes rounds (offset + 500) (omega arith)) (
      rw (← drop-drop 500 offset indexes) (
        sym (map-append (seed_of prefix) (take 500 rest) (drop 500 rest))
        ∙ ap (map (seed_of prefix)) (take-drop 500 rest)))

-- For each index below the count whose operation clears a range, the transactions of `_seed_clear_targets`
-- set a key in that range.
pub write_of-IsSeeded :
    (prefix : Bytes) (count index : ℕ)
    → index < count
    → index % 14 ≡ 1
    → IsSeeded (concat (seed_clear_targets prefix count)) (write_of prefix index)
unfolding seed_clear_targets
write_of-IsSeeded prefix count index below clears =
    let indexes = clear_indexes 0 count in
    rw (seed_chunks-concat prefix indexes ((length indexes + 499) / 500) 0 (omega arith))
      (IsSeeded-map prefix index 0 count (omega arith) (omega arith) clears)
