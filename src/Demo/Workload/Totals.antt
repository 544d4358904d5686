-- ===== src/Demo/Workload/Totals.antt =====
-- The totals that the verifier accepts are the numbers of the versions' mutations.
use kafka_fdb_streamline.Common.{
  ℕ, ◌+◌, true, ◌||◌, not, Option, none, some, List, [], ◌∷◌, length, leb, ◌==◌, ◌≡◌, refl, subst,
  arith, if◌then◌else◌, inl, inr, ◌⊎◌, ℤ,
}
use kafka_fdb_streamline.Errors.{other_error}
use kafka_fdb_streamline.Exec.{ok}
use kafka_fdb_streamline.Exec.Outcome.{bind_ok, guard_ok, ok_injective}
use kafka_fdb_streamline.Serialization.Model.{Bytes}
use kafka_fdb_streamline.Serialization.Message.{
  FdbMutation, VersionEndMessage, RecordArm, FdbMutationRecord,
}
use kafka_fdb_streamline.Demo.Workload.Verifier.{
  Seen, nothing_seen, native, found, has, has_pair, version_of, is_unexpected, workload_index,
  check, check_all, add_total, has_version, check_record, check_records, assert_complete,
  verify_all, verify_workload, all_ended, reconciled, all_below, all_there,
}
use kafka_fdb_streamline.Demo.Workload.Numbers.{AreUnique, numbers, length-numbers}

-- The number of a version's mutations in a list, and in records.
abbrev of_version : ℕ → FdbMutation → ℕ
of_version version m = if version == (version_of m.version_index).0 then 1 else 0

abbrev pub count_list : ℕ → List FdbMutation → ℕ
count_list version [] = 0
count_list version (m ∷ rest) = of_version version m + count_list version rest

abbrev pub count_arm : ℕ → Option RecordArm → ℕ
count_arm version (some (RecordArm.batch mutations)) = count_list version mutations
count_arm version (some (RecordArm.mutation m)) = of_version version m
count_arm version _ = 0

abbrev pub count_version : ℕ → List FdbMutationRecord → ℕ
count_version version [] = 0
count_version version (message ∷ rest) =
    count_arm version message.record_arm + count_version version rest

-- One of the records is the end of the version, with the total.
abbrev pub IsEnd : ℕ → ℕ → Option RecordArm → Type 0
IsEnd version total (some (RecordArm.version_end end)) =
    (end.fdb_version ≡ version) × (end.total_mutations ≡ total)
IsEnd version total _ = ⊥

abbrev pub HasEnd : ℕ → ℕ → List FdbMutationRecord → Type 0
HasEnd version total [] = ⊥
HasEnd version total (message ∷ rest) =
    IsEnd version total message.record_arm ⊎ HasEnd version total rest

abbrev HasPair : ℕ → ℕ → List (ℕ × ℕ) → Type 0
HasPair version total [] = ⊥
HasPair version total (pair ∷ rest) =
    ((pair.0 ≡ version) × (pair.1 ≡ total)) ⊎ HasPair version total rest

-- What checks keep: the coordinates are unique, count the mutations, and the totals hold the ends.
module _ (prefix : Bytes) (count : ℕ) where
  record Accounts (before after : Seen) (added : ℕ → ℕ) : Type 0 where
    unique : AreUnique before.coordinates → AreUnique after.coordinates
    counts :
        (version : ℕ)
        → length (numbers version after.coordinates)
          ≡ length (numbers version before.coordinates) + added version
    keeps :
        (version total : ℕ)
        → HasPair version total before.totals
        → HasPair version total after.totals

  Accounts-none : (seen : Seen) → Accounts seen seen (λ _. 0)
  Accounts-none seen = record { unique = λ h. h; counts = λ v. omega arith; keeps = λ v t h. h }

  Accounts-trans :
      (a b c : Seen) (m n : ℕ → ℕ) → Accounts a b m → Accounts b c n → Accounts a c (λ v. m v + n v)
  Accounts-trans a b c m n first second = record {
    unique = λ h. second.unique (first.unique h);
    counts = λ v. omega (arith, first.counts v, second.counts v);
    keeps = λ v t h. second.keeps v t (first.keeps v t h);
  }

  check-Accounts :
      (m : FdbMutation) (before after : Seen)
      → check prefix count m before ≡ ok after
      → Accounts before after (λ v. of_version v m)
  unfolding check numbers
  check-Accounts m before after checked =
      let (new, h1) =
        guard_ok (has_pair (version_of m.version_index) before.coordinates) other_error _ checked in
      let (index, _, h2) = bind_ok (found (workload_index prefix (native m.mutation).1)) _ h1 in
      let (_, h3) = guard_ok (leb count index || has index before.indices) other_error _ h2 in
      let (_, same) = guard_ok (is_unexpected prefix index m) other_error _ h3 in
      subst (λ s. Accounts before s (λ v. of_version v m)) (ok_injective same)
        (record { unique = λ h. (new, h); counts = λ v. ground arith; keeps = λ v t h. h })

  check_all-Accounts :
      (ms : List FdbMutation) (before after : Seen)
      → check_all prefix count ms before ≡ ok after
      → Accounts before after (λ v. count_list v ms)
  unfolding check_all
  check_all-Accounts [] before after checked =
      subst (λ s. Accounts before s (λ _. 0)) (ok_injective checked) (Accounts-none before)
  check_all-Accounts (m ∷ ms) before after checked =
      let (between, first, rest) = bind_ok (check prefix count m before) _ checked in
      Accounts-trans before between after (λ v. of_version v m) (λ v. count_list v ms)
        (check-Accounts m before between first) (check_all-Accounts ms between after rest)

  add_total-Accounts :
      (end : VersionEndMessage) (before after : Seen)
      → add_total end before ≡ ok after
      → Accounts before after (λ _. 0) × HasPair end.fdb_version end.total_mutations after.totals
  unfolding add_total
  add_total-Accounts end before after added =
      let (_, same) = guard_ok (has_version end.fdb_version before.totals) other_error _ added in
      subst (λ s. Accounts before s (λ _. 0) × HasPair end.fdb_version end.total_mutations s.totals)
        (ok_injective same)
        (
          record { unique = λ h. h; counts = λ v. omega arith; keeps = λ v t h. inr h },
          inl (refl, refl),
        )

  check_record-Accounts :
      (arm : Option RecordArm) (before after : Seen)
      → check_record prefix count arm before ≡ ok after
      → Accounts before after (λ v. count_arm v arm)
        × ((version total : ℕ) → IsEnd version total arm → HasPair version total after.totals)
  unfolding check_record
  check_record-Accounts (some (RecordArm.batch ms)) before after checked =
      (check_all-Accounts ms before after checked, λ v t nowhere. absurd nowhere)
  check_record-Accounts (some (RecordArm.mutation m)) before after checked =
      (check-Accounts m before after checked, λ v t nowhere. absurd nowhere)
  check_record-Accounts (some (RecordArm.version_end end)) before after checked =
      let (accounts, there) = add_total-Accounts end before after checked in
      (accounts, λ v t this. rw (← this.0, ← this.1) there)
  check_record-Accounts none before after checked = (
    subst (λ s. Accounts before s (λ _. 0)) (ok_injective checked) (Accounts-none before),
    λ v t nowhere. absurd nowhere,
  )

  check_records-Accounts :
      (records : List FdbMutationRecord) (before after : Seen)
      → check_records prefix count records before ≡ ok after
      → Accounts before after (λ v. count_version v records)
        × ((version total : ℕ) → HasEnd version total records → HasPair version total after.totals)
  unfolding check_records
  check_records-Accounts [] before after checked = (
    subst (λ s. Accounts before s (λ _. 0)) (ok_injective checked) (Accounts-none before),
    λ v t nowhere. absurd nowhere,
  )
  check_records-Accounts (message ∷ rest) before after checked =
      let (between, first, later) =
        bind_ok (check_record prefix count message.record_arm before) _ checked in
      let (a, here) = check_record-Accounts message.record_arm before between first in
      let (b, there) = check_records-Accounts rest between after later in
      (
        Accounts-trans before between after (λ v. count_arm v message.record_arm)
            (λ v. count_version v rest) a b,
        λ v t end. elim end [
          | inl this ↦ b.keeps v t (here v t this)
          | inr other ↦ there v t other
        ],
      )

-- Each total that was reconciled.
reconciled-at :
    (totals c : List (ℕ × ℕ)) (version total : ℕ)
    → reconciled totals c ≡ true
    → HasPair version total totals
    → (all_below version total c ≡ true) × (all_there version total c ≡ true)
unfolding reconciled
reconciled-at [] c version total done nowhere = absurd nowhere
reconciled-at ((v, n) ∷ rest) c version total done (inl (same, same')) =
    rw (← same, ← same') (ground arith, ground arith)
reconciled-at ((v, n) ∷ rest) c version total done (inr other) =
    reconciled-at rest c version total (ground arith) other

-- Where the verifier accepts records, a version end among them gives the number of that version's mutations among
-- them.
pub verify_workload-count_version :
    (records : List FdbMutationRecord) (prefix : Bytes) (count : ℕ) (counts : ℤ → ℕ)
    (version total : ℕ)
    → verify_workload records prefix count ≡ ok counts
    → HasEnd version total records
    → count_version version records ≡ total
unfolding verify_workload verify_all assert_complete numbers
verify_workload-count_version records prefix count counts version total accepted end =
    let (_, all, _) = bind_ok (verify_all prefix count records) _ accepted in
    let (seen, checked, h1) = bind_ok (check_records prefix count records nothing_seen) _ all in
    let (u, complete, _) = bind_ok (assert_complete count seen) _ h1 in
    let (_, h2) = guard_ok (not (length seen.indices == count)) other_error _ complete in
    let (_, h3) = guard_ok (not (all_ended seen.coordinates seen.totals)) other_error _ h2 in
    let (balanced, _) = guard_ok (not (reconciled seen.totals seen.coordinates)) other_error _ h3 in
    let (a, there) = check_records-Accounts prefix count records nothing_seen seen checked in
    let (below, whole) =
      reconciled-at seen.totals seen.coordinates version total (ground arith)
        (there version total end) in
    let size = length-numbers version total seen.coordinates (a.unique tt) below whole in
    omega (arith, a.counts version, size)
