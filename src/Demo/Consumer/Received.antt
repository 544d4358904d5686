-- ===== src/Demo/Consumer/Received.antt =====
-- What _consume_records returns, and when it raises.
use kafka_fdb_streamline.Common.{
  ℕ, suc, ◌+◌, ◌≤◌, ◌&&◌, Option, none, some, List, [], ◌∷◌, ◌++◌, take, ltb, leb, if◌then◌else◌,
  ◌≡◌, refl, ap, sym, ◌∙◌, arith, append_assoc, append-nil, if_cases, subst,
}
use kafka_fdb_streamline.Errors.{timeout_error}
use kafka_fdb_streamline.Exec.{Result, ok, err}
use kafka_fdb_streamline.Exec.Outcome.{◌>>◌, refuse_if, bind_ok, guard_ok, ok_injective}
use kafka_fdb_streamline.Serialization.Model.{Bytes}
use kafka_fdb_streamline.Serialization.Message.{FdbMutationRecord, Protobuf}
use kafka_fdb_streamline.Demo.Consumer.{
  Polled, no_message, failed, message, Consumed, added_mutations, parsed, add_record, idle,
  consume_loop, consume_records,
}

abbrev before :
    FdbMutationRecord → Option (List FdbMutationRecord) → Option (List FdbMutationRecord)
before m none = none
before m (some rest) = some (m ∷ rest)

-- The records of the polls' messages, each parsed; `none` where one was an error or is no record.
abbrev pub received : Protobuf → List Polled → Option (List FdbMutationRecord)
received pb [] = some []
received pb (no_message ∷ rounds) = received pb rounds
received pb (failed error ∷ rounds) = none
received pb (message none ∷ rounds) = none
received pb (message (some value) ∷ rounds) = elim (pb.parse value) [
  | none ↦ none
  | some m ↦ before m (received pb rounds)
]

abbrev pub mutations_in : List FdbMutationRecord → ℕ
mutations_in [] = 0
mutations_in (m ∷ rest) = added_mutations m.record_arm + mutations_in rest

module _ (pb : Protobuf) (min_expected : ℕ) where
  -- What the loop took of the rounds.
  record Took (rounds : List Polled) (c c' : Consumed) : Type 0 where
    read : ℕ
    got : List FdbMutationRecord
    those : received pb (take read rounds) ≡ some got
    appended : c'.records ≡ c.records ++ got
    added : c'.total_mutations ≡ c.total_mutations + mutations_in got

  Took-nothing :
      (rounds : List Polled) (c c' : Consumed)
      → c'.records ≡ c.records
      → c'.total_mutations ≡ c.total_mutations
      → Took rounds c c'
  Took-nothing rounds c c' same same' = record {
    read = 0;
    got = [];
    those = refl;
    appended = same ∙ sym (append-nil c.records);
    added = omega (arith, same');
  }

  Took-idle :
      (rounds : List Polled) (c c' : Consumed)
      → Took rounds (idle pb min_expected c) c'
      → Took (no_message ∷ rounds) c c'
  unfolding idle
  Took-idle rounds c c' rest = record {
    read = suc rest.read;
    got = rest.got;
    those = rest.those;
    appended = ground (arith, rest.appended);
    added = ground (arith, rest.added);
  }

  Took-message :
      (value : Bytes) (m : FdbMutationRecord) (rounds : List Polled) (c c' : Consumed)
      → pb.parse value ≡ some m
      → Took rounds (add_record pb min_expected c m) c'
      → Took (message (some value) ∷ rounds) c c'
  unfolding add_record
  Took-message value m rounds c c' parses rest = record {
    read = suc rest.read;
    got = m ∷ rest.got;
    those = rw parses (ap (before m) rest.those);
    appended = rest.appended ∙ append_assoc c.records (m ∷ []) rest.got;
    added = omega (arith, rest.added);
  }

  parsed-some :
      (value : Bytes) (m : FdbMutationRecord)
      → parsed pb min_expected (some value) ≡ ok m
      → pb.parse value ≡ some m
  unfolding parsed
  parsed-some value m returned = ground arith

  no_value :
      (rounds : List Polled) (c c' : Consumed)
      → consume_loop pb min_expected (message none ∷ rounds) c ≡ ok c'
      → Took (message none ∷ rounds) c c'
  unfolding consume_loop parsed
  no_value rounds c c' returned = cc

  parsed-some' :
      (value : Bytes) (m : FdbMutationRecord)
      → pb.parse value ≡ some m
      → parsed pb min_expected (some value) ≡ ok m
  unfolding parsed
  parsed-some' value m parses = rw (parses, parsed) refl

  idle-total : (c : Consumed) → (idle pb min_expected c).total_mutations ≡ c.total_mutations
  unfolding idle
  idle-total c = ground arith

  refused :
      (c : Consumed)
      → (refuse_if (ltb c.total_mutations min_expected) timeout_error >> ok c.records)
        ≡ (if ltb c.total_mutations min_expected then err timeout_error else ok c.records)
  refused c = ground arith

  consume_loop-Took :
      (rounds : List Polled) (c c' : Consumed)
      → consume_loop pb min_expected rounds c ≡ ok c'
      → Took rounds c c'
  unfolding consume_loop
  consume_loop-Took [] c c' returned =
      subst (Took [] c) (ok_injective returned) (Took-nothing [] c c refl refl)
  consume_loop-Took (no_message ∷ rounds) c c' returned =
      let i = idle pb min_expected c in
      Took-idle rounds c c' (
        if_cases (λ (r : Result Consumed). r ≡ ok c' → Took rounds i c')
          (leb min_expected c.total_mutations && leb 3 (c.idle_streak + 1)) (ok i)
          (consume_loop pb min_expected rounds i)
          (λ _ stopped.
            subst (Took rounds i) (ok_injective stopped) (Took-nothing rounds i i refl refl))
          (λ _ more. consume_loop-Took rounds i c' more) returned)
  consume_loop-Took (failed error ∷ rounds) c c' returned = cc
  consume_loop-Took (message none ∷ rounds) c c' returned = no_value rounds c c' returned
  consume_loop-Took (message (some value) ∷ rounds) c c' returned =
      let (m, parses, rest) = bind_ok (parsed pb min_expected (some value)) _ returned in
      let a = add_record pb min_expected c m in
      Took-message value m rounds c c' (parsed-some value m parses) (
        if_cases (λ (r : Result Consumed). r ≡ ok c' → Took rounds a c')
          (leb min_expected a.total_mutations && leb 2 a.idle_streak) (ok a)
          (consume_loop pb min_expected rounds a)
          (λ _ stopped.
            subst (Took rounds a) (ok_injective stopped) (Took-nothing rounds a a refl refl))
          (λ _ more. consume_loop-Took rounds a c' more) rest)

  -- What _consume_records returns has at least the expected number of mutations, and is the records of the messages
  -- of the first polls, each parsed, in order and with none left out.
  pub consume_records-received :
      (rounds : List Polled) (records : List FdbMutationRecord)
      → consume_records pb min_expected rounds ≡ ok records
      → (n : ℕ) × (received pb (take n rounds) ≡ some records)
        × (min_expected ≤ mutations_in records)
  unfolding consume_records
  consume_records-received rounds records returned =
      let start : Consumed = record { records = []; total_mutations = 0; idle_streak = 0 } in
      let (c, looped, rest) = bind_ok (consume_loop pb min_expected rounds start) _ returned in
      let (enough, same) = guard_ok (ltb c.total_mutations min_expected) timeout_error _ rest in
      let took = consume_loop-Took rounds start c looped in
      let got : took.got ≡ records = sym took.appended ∙ ok_injective same in
      (
        took.read,
        took.those ∙ ap some got,
        subst (λ l. min_expected ≤ mutations_in l) got (ground (arith, took.added)),
      )

  split_before :
      (parse : Option FdbMutationRecord) (rest : Option (List FdbMutationRecord))
      (all : List FdbMutationRecord)
      → elim parse [ none ↦ none | some m ↦ before m rest ] ≡ some all
      → (m : FdbMutationRecord) × (l : List FdbMutationRecord) × (parse ≡ some m)
        × (rest ≡ some l)
        × (all ≡ m ∷ l)
  split_before none rest all read = cc
  split_before (some m) none all read = cc
  split_before (some m) (some l) all read = (m, l, refl, refl, ground arith)

  -- The loop returns, with enough mutations exactly if the sum is enough.
  abbrev Ends : Result Consumed → ℕ → Type 0
  Ends r sum =
      (c' : Consumed) × (r ≡ ok c') × (ltb c'.total_mutations min_expected ≡ ltb sum min_expected)

  consume_loop-Ends :
      (rounds : List Polled) (c : Consumed) (all : List FdbMutationRecord)
      → received pb rounds ≡ some all
      → Ends (consume_loop pb min_expected rounds c) (c.total_mutations + mutations_in all)
  unfolding consume_loop
  consume_loop-Ends [] c [] polled =
      let same : c.total_mutations + 0 ≡ c.total_mutations = omega arith in (c, refl, rw same refl)
  consume_loop-Ends [] c (m ∷ all) polled = cc
  consume_loop-Ends (no_message ∷ rounds) c all polled =
      let i = idle pb min_expected c in
      if_cases (λ (r : Result Consumed). Ends r (c.total_mutations + mutations_in all))
        (leb min_expected c.total_mutations && leb 3 (c.idle_streak + 1)) (ok i)
        (consume_loop pb min_expected rounds i) (λ test. (i, refl, unfold idle in ground arith))
        (λ _.
          subst (λ k. Ends (consume_loop pb min_expected rounds i) (k + mutations_in all))
            (idle-total c) (consume_loop-Ends rounds i all polled))
  consume_loop-Ends (failed error ∷ rounds) c all polled = cc
  consume_loop-Ends (message none ∷ rounds) c all polled = cc
  consume_loop-Ends (message (some value) ∷ rounds) c all polled =
      let (m, l, parses, rest, whole) =
        split_before (pb.parse value) (received pb rounds) all polled in
      let a = add_record pb min_expected c m in
      let sum : c.total_mutations + mutations_in all ≡ a.total_mutations + mutations_in l =
        rw whole (unfold add_record in omega arith) in
      rw (parsed-some' value m parses, sum)
        (if_cases (λ (r : Result Consumed). Ends r (a.total_mutations + mutations_in l))
          (leb min_expected a.total_mutations && leb 2 a.idle_streak) (ok a)
          (consume_loop pb min_expected rounds a) (λ test. (a, refl, ground arith))
          (λ _. consume_loop-Ends rounds a l rest))

  -- Where no poll and no message of the rounds before the deadline is an error, _consume_records raises a TimeoutError
  -- if the messages hold fewer mutations than expected, and else returns.
  pub consume_records-timeout :
      (rounds : List Polled) (all : List FdbMutationRecord)
      → received pb rounds ≡ some all
      → (records : List FdbMutationRecord) × (consume_records pb min_expected rounds
          ≡ (if ltb (mutations_in all) min_expected then err timeout_error else ok records))
  unfolding consume_records
  consume_records-timeout rounds all polled =
      let start : Consumed = record { records = []; total_mutations = 0; idle_streak = 0 } in
      let (c, looped, enough) = consume_loop-Ends rounds start all polled in
      let sum : 0 + mutations_in all ≡ mutations_in all = omega arith in
      (c.records, rw (looped, ← sum, ← enough) (refused c))
