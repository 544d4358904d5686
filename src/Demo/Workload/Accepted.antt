-- ===== src/Demo/Workload/Accepted.antt =====
-- What the records are like that the verifier of the workload accepts.
use kafka_fdb_streamline.Common.{
  ⊤, ℕ, ◌+◌, ◌<◌, Bool, true, false, ◌||◌, not, Option, none, some, List, [], ◌∷◌, ◌++◌, length,
  leb, ◌==◌, All, All-append, length-append, ◌≡◌, refl, sym, subst, arith, Bool-cases, inl, inr,
  ◌⊎◌, ◌≢◌, ℤ,
}
use mathlib.Core.Bool.{true≢false}
use kafka_fdb_streamline.Errors.{other_error}
use kafka_fdb_streamline.Exec.{ok}
use kafka_fdb_streamline.Exec.Outcome.{refuse_if, bind_ok, guard_ok, ok_injective}
use kafka_fdb_streamline.Serialization.Model.{Bytes}
use kafka_fdb_streamline.Serialization.Message.{FdbMutation, RecordArm, FdbMutationRecord}
use kafka_fdb_streamline.Demo.Workload.Range.{AreDistinct, has-all}
use kafka_fdb_streamline.Demo.Workload.Verifier.{
  Seen, nothing_seen, native, found, has, has_pair, version_of, is_unexpected, workload_index,
  check, check_all, add_total, has_version, check_record, check_records, assert_complete,
  sum_totals, verify_all, verify_workload, all_ended, reconciled,
}

-- The mutations of the records, in their order.
abbrev pub mutations_in : Option RecordArm → List FdbMutation
mutations_in (some (RecordArm.batch mutations)) = mutations
mutations_in (some (RecordArm.mutation m)) = m ∷ []
mutations_in _ = []

abbrev pub mutations_of : List FdbMutationRecord → List FdbMutation
mutations_of [] = []
mutations_of (message ∷ rest) = mutations_in message.record_arm ++ mutations_of rest

-- The mutation is what the workload writes under an index below the count.
abbrev pub IsWritten : Bytes → ℕ → FdbMutation → Type 0
IsWritten prefix count m = (index : ℕ) × (index < count) × (is_unexpected prefix index m ≡ false)

-- One of the mutations is what the workload writes under the index.
abbrev pub Answered : Bytes → List FdbMutation → ℕ → Type 0
Answered prefix [] index = ⊥
Answered prefix (m ∷ rest) index =
    (is_unexpected prefix index m ≡ false) ⊎ Answered prefix rest index

Answered-left :
    (prefix : Bytes) (ms ns : List FdbMutation) (i : ℕ)
    → Answered prefix ms i
    → Answered prefix (ms ++ ns) i
Answered-left prefix [] ns i h = absurd h
Answered-left prefix (m ∷ ms) ns i (inl here) = inl here
Answered-left prefix (m ∷ ms) ns i (inr later) = inr (Answered-left prefix ms ns i later)

Answered-right :
    (prefix : Bytes) (ms ns : List FdbMutation) (i : ℕ)
    → Answered prefix ns i
    → Answered prefix (ms ++ ns) i
Answered-right prefix [] ns i h = h
Answered-right prefix (m ∷ ms) ns i h = inr (Answered-right prefix ms ns i h)

module _ (prefix : Bytes) (count : ℕ) where
  -- What checks keep: as many indices as mutations, all of them distinct and below the count.
  record Counted (mutations : List FdbMutation) (before after : Seen) : Type 0 where
    counted : length after.indices ≡ length mutations + length before.indices
    written : All (IsWritten prefix count) mutations
    distinct : AreDistinct before.indices → AreDistinct after.indices
    below : All (λ n. n < count) before.indices → All (λ n. n < count) after.indices
    answered :
        (i : ℕ)
        → has i after.indices ≡ true
        → (has i before.indices ≡ true) ⊎ Answered prefix mutations i

  answer :
      (index : ℕ) (indices : List ℕ) (m : FdbMutation)
      → is_unexpected prefix index m ≡ false
      → (i : ℕ) → has i (index ∷ indices) ≡ true
      → (has i indices ≡ true) ⊎ Answered prefix (m ∷ []) i
  unfolding has
  answer index indices m expected i there = elim (Bool-cases (i == index)) [
    | inl same ↦ inr (inl (subst (λ k. is_unexpected prefix k m ≡ false) (ground arith) expected))
    | inr other ↦ inl (ground arith)
  ]

  check-Counted :
      (m : FdbMutation) (before after : Seen)
      → check prefix count m before ≡ ok after
      → Counted (m ∷ []) before after
  unfolding check
  check-Counted m before after checked =
      let (_, h1) =
        guard_ok (has_pair (version_of m.version_index) before.coordinates) other_error _ checked in
      let (index, _, h2) = bind_ok (found (workload_index prefix (native m.mutation).1)) _ h1 in
      let (fresh, h3) = guard_ok (leb count index || has index before.indices) other_error _ h2 in
      let (expected, same) = guard_ok (is_unexpected prefix index m) other_error _ h3 in
      let small : index < count = ground arith in
      let unseen : has index before.indices ≡ false = ground arith in
      subst (Counted (m ∷ []) before) (ok_injective same) (record {
        counted = omega arith;
        written = ((index, small, expected), tt);
        distinct = λ distinct. (unseen, distinct);
        below = λ below. (small, below);
        answered = λ i there. answer index before.indices m expected i there;
      })

  Counted-none : (seen : Seen) → Counted [] seen seen
  Counted-none seen = record {
    counted = omega arith;
    written = tt;
    distinct = λ h. h;
    below = λ h. h;
    answered = λ i h. inl h;
  }

  Counted-append :
      (ms ns : List FdbMutation) (a b c : Seen)
      → Counted ms a b
      → Counted ns b c
      → Counted (ms ++ ns) a c
  Counted-append ms ns a b c first second = record {
    counted = omega (arith, first.counted, second.counted, length-append ms ns);
    written = All-append (IsWritten prefix count) ms ns first.written second.written;
    distinct = λ h. second.distinct (first.distinct h);
    below = λ h. second.below (first.below h);
    answered = λ i there. elim (second.answered i there) [
      | inl before ↦ elim (first.answered i before) [
        | inl earlier ↦ inl earlier
        | inr answered ↦ inr (Answered-left prefix ms ns i answered)
      ]
      | inr answered ↦ inr (Answered-right prefix ms ns i answered)
    ];
  }

  check_all-Counted :
      (ms : List FdbMutation) (before after : Seen)
      → check_all prefix count ms before ≡ ok after
      → Counted ms before after
  unfolding check_all
  check_all-Counted [] before after checked =
      subst (Counted [] before) (ok_injective checked) (Counted-none before)
  check_all-Counted (m ∷ ms) before after checked =
      let (between, first, rest) = bind_ok (check prefix count m before) _ checked in
      Counted-append (m ∷ []) ms before between after (check-Counted m before between first)
        (check_all-Counted ms between after rest)

  add_total-Counted :
      (end : _) (before after : Seen) → add_total end before ≡ ok after → Counted [] before after
  unfolding add_total
  add_total-Counted end before after added =
      let (_, same) = guard_ok (has_version end.fdb_version before.totals) other_error _ added in
      subst (Counted [] before) (ok_injective same) (record {
        counted = omega arith;
        written = tt;
        distinct = λ h. h;
        below = λ h. h;
        answered = λ i h. inl h;
      })

  check_record-Counted :
      (arm : Option RecordArm) (before after : Seen)
      → check_record prefix count arm before ≡ ok after
      → Counted (mutations_in arm) before after
  unfolding check_record
  check_record-Counted (some (RecordArm.batch ms)) before after checked =
      check_all-Counted ms before after checked
  check_record-Counted (some (RecordArm.mutation m)) before after checked =
      check-Counted m before after checked
  check_record-Counted (some (RecordArm.version_end end)) before after checked =
      add_total-Counted end before after checked
  check_record-Counted none before after checked =
      subst (Counted [] before) (ok_injective checked) (Counted-none before)

  check_records-Counted :
      (records : List FdbMutationRecord) (before after : Seen)
      → check_records prefix count records before ≡ ok after
      → Counted (mutations_of records) before after
  unfolding check_records
  check_records-Counted [] before after checked =
      subst (Counted [] before) (ok_injective checked) (Counted-none before)
  check_records-Counted (message ∷ rest) before after checked =
      let (between, first, later) =
        bind_ok (check_record prefix count message.record_arm before) _ checked in
      Counted-append (mutations_in message.record_arm) (mutations_of rest) before between after
        (check_record-Counted message.record_arm before between first)
        (check_records-Counted rest between after later)

passed : (b : Bool) {u : ⊤} → refuse_if b other_error ≡ ok u → b ≡ false
passed true h = cc
passed false h = refl

none_before : (i : ℕ) → has i [] ≢ true
unfolding has
none_before i there = true≢false (sym there)

-- The end of a verification: what was checked, and the two sums.
verified :
    (records : List FdbMutationRecord) (prefix : Bytes) (count : ℕ) (counts : ℤ → ℕ)
    → verify_workload records prefix count ≡ ok counts
    → (seen : Seen) × Counted prefix count (mutations_of records) nothing_seen seen
      × (length seen.indices ≡ count)
      × (sum_totals seen.totals ≡ count)
unfolding verify_workload verify_all assert_complete
verified records prefix count counts accepted =
    let (_, all, _) = bind_ok (verify_all prefix count records) _ accepted in
    let (seen, checked, h1) = bind_ok (check_records prefix count records nothing_seen) _ all in
    let (u, complete, _) = bind_ok (assert_complete count seen) _ h1 in
    let (enough, h2) = guard_ok (not (length seen.indices == count)) other_error _ complete in
    let (_, h3) = guard_ok (not (all_ended seen.coordinates seen.totals)) other_error _ h2 in
    let (_, h4) = guard_ok (not (reconciled seen.totals seen.coordinates)) other_error _ h3 in
    let summed = passed (not (sum_totals seen.totals == count)) h4 in
    (
      seen,
      check_records-Counted prefix count records nothing_seen seen checked,
      ground arith,
      ground arith,
    )

-- Records that the verifier accepts hold as many mutations as the workload has operations, and each of them is
-- one that the workload writes under an index below that count.
pub verify_workload-written :
    (records : List FdbMutationRecord) (prefix : Bytes) (count : ℕ) (counts : ℤ → ℕ)
    → verify_workload records prefix count ≡ ok counts
    → (length (mutations_of records) ≡ count) × All (IsWritten prefix count) (mutations_of records)
verify_workload-written records prefix count counts accepted =
    let (seen, c, enough, _) = verified records prefix count counts accepted in
    (omega (arith, c.counted, enough), c.written)

-- Records that the verifier accepts lack no operation: for each index below the count there is a mutation that
-- the workload writes under that index.
pub verify_workload-Answered :
    (records : List FdbMutationRecord) (prefix : Bytes) (count : ℕ) (counts : ℤ → ℕ) (index : ℕ)
    → verify_workload records prefix count ≡ ok counts
    → index < count
    → Answered prefix (mutations_of records) index
verify_workload-Answered records prefix count counts index accepted small =
    let (seen, c, enough, _) = verified records prefix count counts accepted in
    let there = has-all count index seen.indices (c.distinct tt) (c.below tt) enough small in
    elim (c.answered index there) [
      | inl before ↦ absurd (none_before index before)
      | inr answered ↦ answered
    ]
