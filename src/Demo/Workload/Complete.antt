-- ===== src/Demo/Workload/Complete.antt =====
-- The verifier accepts what the demo's writes arrive as.
use kafka_fdb_streamline.Common.{
  ℕ, suc, ◌+◌, ◌≤◌, ◌<◌, true, false, some, List, [], ◌∷◌, ◌++◌, length, concat, ◌≡◌, refl, ◌∙◌,
  arith, ℤ, All, length-append,
}
use kafka_fdb_streamline.Exec.{ok}
use kafka_fdb_streamline.Serialization.Model.{Bytes, Text}
use kafka_fdb_streamline.Serialization.Message.{MutationArm, FdbMutationRecord}
use kafka_fdb_streamline.Demo.Workload.{expected_mutation, matches}
use kafka_fdb_streamline.Demo.Workload.Verifier.{
  Seen, native, found, version_of, is_unexpected, workload_index, check, check_all, add_total,
  has_version, check_record, check_records, assert_complete, sum_totals, verify_all,
  verify_workload, type_count,
}
use kafka_fdb_streamline.Demo.Workload.Coordinates.{
  countdown, counted, all_counted, HasOneTotal, length-countdown, has-countdown, has_pair-next,
  reconciled-all_counted, all_ended-all_counted,
}
use kafka_fdb_streamline.Demo.Workload.Delivery.{
  Version, numbered, number_after, version_records, delivery, arms_of, Ascending,
}

module _ (prefix : Bytes) (count : ℕ) where
  -- The mutation is what the workload has under the index.
  abbrev pub IsAccepted : ℕ → MutationArm → Type 0
  IsAccepted index arm =
      (index < count)
      × (let (type_code, param1, param2) = native (some arm) in
          matches (expected_mutation prefix index) type_code param1 param2 ≡ true)
      × (workload_index prefix (native (some arm)).1 ≡ some index)

  abbrev pub AllAccepted : ℕ → List MutationArm → Type 0
  AllAccepted index [] = Unit
  AllAccepted index (arm ∷ rest) = IsAccepted index arm × AllAccepted (suc index) rest

  -- What has been seen in the middle of a version, of which there were `n` mutations so far.
  abbrev within : List (ℕ × ℕ) → ℕ → ℕ → ℕ → List ℤ → Seen
  within totals version n index codes = record {
    coordinates = counted version n ++ all_counted totals;
    totals = totals;
    indices = countdown index;
    type_codes = codes;
  }

  check_accepted :
      (arm : MutationArm) (totals : List (ℕ × ℕ)) (version n index : ℕ) (codes : List ℤ)
      → has_version version totals ≡ false
      → IsAccepted index arm
      → check prefix count
          (record {
            version_index = some (record { fdb_version = version; sequence_no = n });
            mutation = some arm;
          })
          (within totals version n index codes)
        ≡ ok (within totals version (suc n) (suc index) ((native (some arm)).0 ∷ codes))
  unfolding check version_of found is_unexpected
  check_accepted arm totals version n index codes absent (small, matching, read) =
      rw (has_pair-next version n n totals absent (omega arith), read)
        (rw (has-countdown index index (omega arith), matching) (ground arith))

  abbrev codes_after : List MutationArm → List ℤ → List ℤ
  codes_after [] codes = codes
  codes_after (arm ∷ rest) codes = codes_after rest ((native (some arm)).0 ∷ codes)

  codes_after-append :
      (arms more : List MutationArm) (codes : List ℤ)
      → codes_after (arms ++ more) codes ≡ codes_after more (codes_after arms codes)
  codes_after-append [] more codes = refl
  codes_after-append (arm ∷ arms) more codes =
      codes_after-append arms more ((native (some arm)).0 ∷ codes)

  check_all-numbered :
      (arms : List MutationArm) (totals : List (ℕ × ℕ)) (version n index : ℕ) (codes : List ℤ)
      → has_version version totals ≡ false
      → AllAccepted index arms
      → check_all prefix count (numbered version n arms) (within totals version n index codes)
        ≡ ok
            (within totals version (n + length arms) (index + length arms) (codes_after arms codes))
  unfolding check_all
  check_all-numbered [] totals version n index codes absent accepted =
      let same : n + 0 ≡ n = omega arith in
      let same' : index + 0 ≡ index = omega arith in rw (same, same') refl
  check_all-numbered (arm ∷ arms) totals version n index codes absent (first, rest) =
      let next : n + suc (length arms) ≡ suc n + length arms = omega arith in
      let next' : index + suc (length arms) ≡ suc index + length arms = omega arith in
      rw (check_accepted arm totals version n index codes absent first, next, next')
        (check_all-numbered arms totals version (suc n) (suc index) ((native (some arm)).0 ∷ codes)
          absent rest)

  AllAccepted-append :
      (arms more : List MutationArm) (index : ℕ)
      → AllAccepted index (arms ++ more)
      → AllAccepted index arms × AllAccepted (index + length arms) more
  AllAccepted-append [] more index accepted =
      let same : index + 0 ≡ index = omega arith in (tt, rw same accepted)
  AllAccepted-append (arm ∷ arms) more index (first, rest) =
      let (those, others) = AllAccepted-append arms more (suc index) rest in
      let next : index + suc (length arms) ≡ suc index + length arms = omega arith in
      ((first, those), rw next others)

  number_after-length :
      (batches : List (List MutationArm)) (n : ℕ)
      → number_after n batches ≡ n + length (concat batches)
  number_after-length [] n = omega arith
  number_after-length (batch ∷ rest) n =
      omega (arith, number_after-length rest (n + length batch), length-append batch (concat rest))

  -- What has been seen between two versions.
  abbrev between : List (ℕ × ℕ) → ℕ → List ℤ → Seen
  between totals index codes = record {
    coordinates = all_counted totals;
    totals = totals;
    indices = countdown index;
    type_codes = codes;
  }

  check_version :
      (stream : Text) (more : List FdbMutationRecord) (batches : List (List MutationArm))
      (totals : List (ℕ × ℕ)) (version n index : ℕ) (codes : List ℤ)
      → has_version version totals ≡ false
      → AllAccepted index (concat batches)
      → check_records prefix count
          (version_records stream version n batches ++ more)
          (within totals version n index codes)
        ≡ check_records prefix count more (
            between
              ((version, number_after n batches) ∷ totals)
              (number_after index batches)
              (codes_after (concat batches) codes))
  unfolding check_records check_record add_total
  check_version stream more [] totals version n index codes absent accepted = rw absent refl
  check_version stream more (batch ∷ batches) totals version n index codes absent accepted =
      let (first, rest) = AllAccepted-append batch (concat batches) index accepted in
      rw
        (
          check_all-numbered batch totals version n index codes absent first,
          codes_after-append batch (concat batches) codes,
        )
        (check_version stream more batches totals version (n + length batch) (index + length batch)
          (codes_after batch codes) absent rest)

  abbrev totals_after : List Version → List (ℕ × ℕ) → List (ℕ × ℕ)
  totals_after [] totals = totals
  totals_after ((version, batches) ∷ rest) totals =
      totals_after rest ((version, number_after 0 batches) ∷ totals)

  abbrev IsBefore : ℕ → List (ℕ × ℕ) → Type 0
  IsBefore low = All (λ (total : ℕ × ℕ). total.0 < low)

  IsBefore-weaken :
      (low high : ℕ) (totals : List (ℕ × ℕ))
      → low ≤ high
      → IsBefore low totals
      → IsBefore high totals
  IsBefore-weaken low high [] within before = tt
  IsBefore-weaken low high (total ∷ rest) within (first, others) =
      (omega arith, IsBefore-weaken low high rest within others)

  has_version-later :
      (version : ℕ) (totals : List (ℕ × ℕ))
      → IsBefore version totals
      → has_version version totals ≡ false
  unfolding has_version
  has_version-later version [] before = refl
  has_version-later version (total ∷ rest) (first, others) =
      ground (arith, has_version-later version rest others)

  -- The totals of versions that ascend: one for each version, and their sum is the number of mutations.
  totals_after-HasOneTotal :
      (versions : List Version) (low : ℕ) (totals : List (ℕ × ℕ))
      → Ascending low versions
      → IsBefore low totals
      → HasOneTotal totals
      → HasOneTotal (totals_after versions totals)
  totals_after-HasOneTotal [] low totals ascending before once = once
  totals_after-HasOneTotal ((version, batches) ∷ rest) low totals (later, ascending) before once =
      let earlier = IsBefore-weaken low version totals later before in
      totals_after-HasOneTotal rest (suc version) ((version, number_after 0 batches) ∷ totals)
        ascending (omega arith, IsBefore-weaken version (suc version) totals (omega arith) earlier)
        (has_version-later version totals earlier, once)

  sum-totals_after :
      (versions : List Version) (totals : List (ℕ × ℕ))
      → sum_totals (totals_after versions totals) ≡ sum_totals totals + length (arms_of versions)
  unfolding sum_totals
  sum-totals_after [] totals = omega arith
  sum-totals_after ((version, batches) ∷ rest) totals = omega (
    arith,
    sum-totals_after rest ((version, number_after 0 batches) ∷ totals),
    number_after-length batches 0,
    length-append (concat batches) (arms_of rest),
  )

  sum_all :
      (versions : List Version)
      → length (arms_of versions) ≡ count
      → sum_totals (totals_after versions []) ≡ count
  unfolding sum_totals
  sum_all versions all = omega (arith, sum-totals_after versions [])

  check_delivery :
      (stream : Text) (versions : List Version) (low : ℕ) (totals : List (ℕ × ℕ)) (index : ℕ)
      (codes : List ℤ)
      → Ascending low versions
      → IsBefore low totals
      → AllAccepted index (arms_of versions)
      → check_records prefix count (delivery stream versions) (between totals index codes)
        ≡ ok (
            between
              (totals_after versions totals)
              (index + length (arms_of versions))
              (codes_after (arms_of versions) codes))
  unfolding check_records
  check_delivery stream [] low totals index codes ascending before accepted =
      let same : index + 0 ≡ index = omega arith in rw same refl
  check_delivery stream ((version, batches) ∷ rest) low totals index codes (later, ascending) before
        accepted =
      let earlier = IsBefore-weaken low version totals later before in
      let (those, others) = AllAccepted-append (concat batches) (arms_of rest) index accepted in
      let next : number_after index batches ≡ index + length (concat batches) =
        number_after-length batches index in
      let whole : index + length (concat batches ++ arms_of rest)
          ≡ index + length (concat batches) + length (arms_of rest) =
        omega (arith, length-append (concat batches) (arms_of rest)) in
      check_version stream (delivery stream rest) batches totals version 0 index codes
        (has_version-later version totals earlier) those
      ∙ rw (next, whole, codes_after-append (concat batches) (arms_of rest) codes)
          (check_delivery stream rest (suc version) ((version, number_after 0 batches) ∷ totals)
            (index + length (concat batches)) (codes_after (concat batches) codes) ascending
            (omega arith, IsBefore-weaken version (suc version) totals (omega arith) earlier)
            others)

  -- Records with the workload's mutations in order, in versions that ascend, numbered from 0 in each version and in
  -- any batches, are accepted, if the mutations are as many as the count.
  pub verify_workload-delivery :
      (stream : Text) (versions : List Version)
      → Ascending 0 versions
      → AllAccepted 0 (arms_of versions)
      → length (arms_of versions) ≡ count
      → (counts : ℤ → ℕ) × (verify_workload (delivery stream versions) prefix count ≡ ok counts)
  unfolding verify_workload verify_all assert_complete
  verify_workload-delivery stream versions ascending accepted all =
      let totals = totals_after versions [] in
      let checked = check_delivery stream versions 0 [] 0 [] ascending tt accepted in
      let once = totals_after-HasOneTotal versions 0 [] ascending tt tt in
      let sum : sum_totals totals ≡ count = sum_all versions all in
      let size : length (countdown (0 + length (arms_of versions))) ≡ count =
        omega (arith, length-countdown (0 + length (arms_of versions))) in
      (
        λ code. type_count code (codes_after (arms_of versions) []),
        rw checked (
            rw (size, sum, all_ended-all_counted totals, reconciled-all_counted totals once)
              (ground arith)),
      )
