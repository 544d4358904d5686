-- ===== src/Demo/Workload/Verifier.antt =====
-- demo/workload.py, verify_workload. Every AssertionError is `other_error`.
use kafka_fdb_streamline.Common.{
  ⊤, ℕ, zero, suc, ◌+◌, ◌-◌, ◌*◌, Bool, true, false, ◌&&◌, ◌||◌, not, Option, none, some, List, [],
  ◌∷◌, length, drop, ltb, leb, ◌==◌, if◌then◌else◌, ℤ, pos, eqb_ℤ,
}
use kafka_fdb_streamline.Common.Texts.{starts_with}
use kafka_fdb_streamline.Errors.{other_error}
use kafka_fdb_streamline.Exec.{Result, ok, err}
use kafka_fdb_streamline.Exec.Outcome.{◌>>=◌, ◌>>◌, refuse_if}
use kafka_fdb_streamline.Serialization.Model.{Bytes}
use kafka_fdb_streamline.Serialization.Message.{
  FdbVersionIndex, MutationArm, FdbMutation, VersionEndMessage, RecordArm, FdbMutationRecord,
}
use kafka_fdb_streamline.Demo.Workload.{expected_mutation, matches}

-- `_native`; an arm that is not set reads as an empty single-key mutation.
unfoldable pub native : Option MutationArm → ℤ × Bytes × Bytes
native (some (MutationArm.clear_range begin_key end_key)) = (pos 1, begin_key, end_key)
native (some (MutationArm.single_key_mutation key value mutation_type)) =
    (mutation_type, key, value)
native none = (pos 0, [], [])

-- `[a-z_]`
unfoldable pub is_tag : ℕ → Bool
is_tag c = (leb 97 c && leb c 122) || c == 95

-- The number of the next digits, as many as are asked for, after the number so far.
unfoldable pub digits : ℕ → ℕ → Bytes → Option ℕ
digits zero number text = some number
digits (suc count) number [] = none
digits (suc count) number (c ∷ text) =
    let rest = digits count (number * 10 + (c - 48)) text in
    if leb 48 c && leb c 57 then rest else none

unfoldable pub or_else : Option ℕ → Option ℕ → Option ℕ
or_else none other = other
or_else (some n) other = some n

-- `_INDEX_IN_KEY.match`: as few tag characters as will do, one at least, and eight digits.
unfoldable pub index_in_key : Bytes → Option ℕ
index_in_key [] = none
index_in_key (c ∷ text) =
    let longer = index_in_key text in if is_tag c then or_else (digits 8 0 text) longer else none

unfoldable pub workload_index : Bytes → Bytes → Option ℕ
workload_index prefix key =
    if starts_with prefix key then index_in_key (drop (length prefix) key) else none

-- What `verify_workload` has seen so far. `coordinates` is seqs_by_version, as pairs.
pub record Seen : Type 0 where
  pub coordinates : List (ℕ × ℕ)
  pub totals : List (ℕ × ℕ)
  pub indices : List ℕ
  pub type_codes : List ℤ

unfoldable pub version_of : Option FdbVersionIndex → ℕ × ℕ
version_of none = (0, 0)
version_of (some index) = (index.fdb_version, index.sequence_no)

unfoldable pub has_pair : ℕ × ℕ → List (ℕ × ℕ) → Bool
has_pair p [] = false
has_pair p (q ∷ rest) = (p.0 == q.0 && p.1 == q.1) || has_pair p rest

unfoldable pub has : ℕ → List ℕ → Bool
has n [] = false
has n (m ∷ rest) = n == m || has n rest

unfoldable pub found : Option ℕ → Result ℕ
found none = err other_error
found (some index) = ok index

-- Whether a mutation is not what the workload writes under an index.
unfoldable pub is_unexpected : Bytes → ℕ → FdbMutation → Bool
is_unexpected prefix index m =
    let (type_code, param1, param2) = native m.mutation in
    not (matches (expected_mutation prefix index) type_code param1 param2)

-- `check`
unfoldable pub check : Bytes → ℕ → FdbMutation → Seen → Result Seen
check prefix count m seen = do
  refuse_if (has_pair (version_of m.version_index) seen.coordinates) other_error
  index ← found (workload_index prefix (native m.mutation).1)
  refuse_if (leb count index || has index seen.indices) other_error
  refuse_if (is_unexpected prefix index m) other_error
  ok (record {
    coordinates = version_of m.version_index ∷ seen.coordinates;
    totals = seen.totals;
    indices = index ∷ seen.indices;
    type_codes = (native m.mutation).0 ∷ seen.type_codes;
  })

unfoldable pub check_all : Bytes → ℕ → List FdbMutation → Seen → Result Seen
check_all prefix count [] seen = ok seen
check_all prefix count (m ∷ rest) seen = check prefix count m seen >>= check_all prefix count rest

unfoldable pub has_version : ℕ → List (ℕ × ℕ) → Bool
has_version version [] = false
has_version version (pair ∷ rest) = version == pair.0 || has_version version rest

unfoldable pub add_total : VersionEndMessage → Seen → Result Seen
add_total end seen = do
  refuse_if (has_version end.fdb_version seen.totals) other_error
  ok (record seen { totals = (end.fdb_version, end.total_mutations) ∷ seen.totals })

unfoldable pub check_record : Bytes → ℕ → Option RecordArm → Seen → Result Seen
check_record prefix count (some (RecordArm.batch mutations)) seen =
    check_all prefix count mutations seen
check_record prefix count (some (RecordArm.mutation m)) seen = check prefix count m seen
check_record prefix count (some (RecordArm.version_end end)) seen = add_total end seen
check_record prefix count none seen = ok seen

unfoldable pub check_records : Bytes → ℕ → List FdbMutationRecord → Seen → Result Seen
check_records prefix count [] seen = ok seen
check_records prefix count (message ∷ rest) seen =
    check_record prefix count message.record_arm seen >>= check_records prefix count rest

-- Every version of a coordinate has a total.
unfoldable pub all_ended : List (ℕ × ℕ) → List (ℕ × ℕ) → Bool
all_ended [] totals = true
all_ended (pair ∷ rest) totals = has_version pair.0 totals && all_ended rest totals

-- Every sequence number of the version is below the total.
unfoldable pub all_below : ℕ → ℕ → List (ℕ × ℕ) → Bool
all_below version total [] = true
all_below version total (pair ∷ rest) =
    (not (pair.0 == version) || ltb pair.1 total) && all_below version total rest

-- Every number below the total is a sequence number of the version.
unfoldable pub all_there : ℕ → ℕ → List (ℕ × ℕ) → Bool
all_there version zero coordinates = true
all_there version (suc n) coordinates =
    has_pair (version, n) coordinates && all_there version n coordinates

-- `seqs_by_version.get(version, set()) == set(range(total))`, for every total.
unfoldable pub reconciled : List (ℕ × ℕ) → List (ℕ × ℕ) → Bool
reconciled [] coordinates = true
reconciled ((version, total) ∷ rest) coordinates =
    all_below version total coordinates
    && all_there version total coordinates
    && reconciled rest coordinates

unfoldable pub sum_totals : List (ℕ × ℕ) → ℕ
sum_totals [] = 0
sum_totals (pair ∷ rest) = pair.1 + sum_totals rest

-- The assertions after the loop.
unfoldable pub assert_complete : ℕ → Seen → Result ⊤
assert_complete count seen = do
  refuse_if (not (length seen.indices == count)) other_error
  refuse_if (not (all_ended seen.coordinates seen.totals)) other_error
  refuse_if (not (reconciled seen.totals seen.coordinates)) other_error
  refuse_if (not (sum_totals seen.totals == count)) other_error

abbrev pub nothing_seen : Seen
nothing_seen = record { coordinates = []; totals = []; indices = []; type_codes = [] }

unfoldable pub verify_all : Bytes → ℕ → List FdbMutationRecord → Result Seen
verify_all prefix count records = do
  seen ← check_records prefix count records nothing_seen
  assert_complete count seen
  ok seen

-- How often the type code was seen.
unfoldable pub type_count : ℤ → List ℤ → ℕ
type_count code [] = 0
type_count code (c ∷ rest) = (if eqb_ℤ code c then 1 else 0) + type_count code rest

-- `verify_workload`, whose dictionary gives the count of a type code, and is 0 here at a missing one.
unfoldable pub verify_workload : List FdbMutationRecord → Bytes → ℕ → Result (ℤ → ℕ)
verify_workload records prefix count =
    verify_all prefix count records >>= λ seen. ok (λ code. type_count code seen.type_codes)
