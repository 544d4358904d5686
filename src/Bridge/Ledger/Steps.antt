-- ===== src/Bridge/Ledger/Steps.antt =====
-- The methods of the pipeline and the ledger: what a step publishes, saves and acknowledges.
use kafka_fdb_streamline.Common.{Option, some, List, [], ◌∷◌, refl, ap, inl, inr, All, if_cases}
use kafka_fdb_streamline.Errors.{Exn, KafkaError}
use kafka_fdb_streamline.Exec.Keeps.{Keeps, keeps_rules, Keeps-gets, Keeps-raise_if}
use kafka_fdb_streamline.Exec.Ends.{
  After, Ends, Ends_of_Keeps, Ends-weaken, Ends-pure, Ends-bind, Ends-then, after_cases,
}
use kafka_fdb_streamline.Serialization.Model.{Bytes}
use kafka_fdb_streamline.Serialization.Message.{FdbMutationRecord, Protobuf}
use kafka_fdb_streamline.World.{RdCall, RdReply, Event, Trace, Env, Pipeline, World, M}
use kafka_fdb_streamline.Kafka.Producer
use kafka_fdb_streamline.Kafka.Producer.Keeps.{
  begin_transaction-Keeps, flush_or_raise-Keeps, close-Keeps, mark_fatal-Keeps,
  abort_transaction-Keeps, commit_transaction-Keeps,
}
use kafka_fdb_streamline.Bridge.Pipeline
use kafka_fdb_streamline.Bridge.Monitor.{is_ok}
use kafka_fdb_streamline.Bridge.Ledger.{IsSent}
use kafka_fdb_streamline.Bridge.Ledger.Calls.{Holds, rd-Holds, update-Holds}

abbrev pub IsKafkaStable : (Trace → Type 0) → Type 0
IsKafkaStable T =
    (call : RdCall) (reply : RdReply) (t : Trace) → T t → T (Event.kafka call reply ∷ t)

-- What the producer's methods keep, whatever librdkafka answers.
module _ {pb : Protobuf} {F : Pipeline → Type 0} {T : Trace → Type 0} (stable : IsKafkaStable T)
    (env : Env) where
  pub flush_or_raise-Holds : Keeps (Holds pb F T) (Producer.flush_or_raise env)
  flush_or_raise-Holds = flush_or_raise-Keeps env (rd-Holds stable env) (λ f _. update-Holds f)

  pub close-Holds : Keeps (Holds pb F T) (Producer.close env)
  close-Holds = close-Keeps env (rd-Holds stable env) (λ f _. update-Holds f)

  pub mark_fatal-Holds : Keeps (Holds pb F T) Producer.mark_fatal
  mark_fatal-Holds = mark_fatal-Keeps env (rd-Holds stable env) (λ f _. update-Holds f)

  pub begin_transaction-Holds : Keeps (Holds pb F T) (Producer.begin_transaction env)
  begin_transaction-Holds =
      begin_transaction-Keeps env (rd-Holds stable env) (λ f _. update-Holds f)

  pub abort_transaction-Holds : Keeps (Holds pb F T) (Producer.abort_transaction env)
  abort_transaction-Holds =
      abort_transaction-Keeps env (rd-Holds stable env) (λ f _. update-Holds f) (update-Holds _)

  pub commit_transaction-Holds : Keeps (Holds pb F T) (Producer.commit_transaction env)
  commit_transaction-Holds =
      commit_transaction-Keeps env (rd-Holds stable env) (λ f _. update-Holds f) (update-Holds _)

  pub abort_and_raise-Holds : (e : Exn) → Keeps (Holds pb F T) (Pipeline.abort_and_raise env e)
  unfolding Pipeline.abort_and_raise
  abort_and_raise-Holds e = search (keeps_rules, mark_fatal-Holds, abort_transaction-Holds) depth 8

abbrev pub Sent : Protobuf → FdbMutationRecord → Trace → Type 0
Sent pb message t = IsSent (pb.serialize message) t

abbrev pub AllSent : Protobuf → List FdbMutationRecord → Trace → Type 0
AllSent pb messages t = All (λ (m : FdbMutationRecord). Sent pb m t) messages

pub AllSent-stable :
    (pb : Protobuf) (messages : List FdbMutationRecord) → IsKafkaStable (AllSent pb messages)
AllSent-stable pb [] call reply t h = tt
AllSent-stable pb (m ∷ rest) call reply t h = (inr h.0, AllSent-stable pb rest call reply t h.1)

both-stable :
    {T U : Trace → Type 0} → IsKafkaStable T → IsKafkaStable U → IsKafkaStable (λ t. T t × U t)
both-stable a b call reply t h = (a call reply t h.0, b call reply t h.1)

module _ {pb : Protobuf} {F : Pipeline → Type 0} (env : Env) where
  module _ {T : Trace → Type 0} where
    less :
        {U : Trace → Type 0}
        → ((t : Trace) → T t → U t)
        → (w : World) → Holds pb F T w
        → Holds pb F U w
    less f w h = record { ledger = h.ledger; there = f w.trace h.there; flagged = h.flagged }

    same :
        {A : Type 0} {m : M A} {R : World → Type 0}
        → ((w : World) → Holds pb F T w → R w)
        → Keeps (Holds pb F T) m
        → Ends (Holds pb F T) m (λ _. Holds pb F T) R
    same f k = Ends-weaken (λ _ _ h. h) f (Ends_of_Keeps k)

  module _ {T : Trace → Type 0} (stable : IsKafkaStable T) where
    -- What is accepted is sent.
    rd_produce-Sent :
        (topic : Bytes) (key : Option Bytes) (message : FdbMutationRecord)
        → Ends
            (Holds pb F T)
            (Producer.rd env (RdCall.rd_produce topic key (pb.serialize message)))
            (λ _. Holds pb F (λ t. T t × Sent pb message t))
            (Holds pb F T)
    unfolding Producer.rd
    rd_produce-Sent topic key message = record {
      at = λ w h.
          let call = RdCall.rd_produce topic key (pb.serialize message) in
          let reply = env.rd w.trace call in
          if_cases (After (λ _. Holds pb F (λ t. T t × Sent pb message t)) (Holds pb F T))
            w.producer.handle _ _
            (λ _.
              after_cases _ _ reply.outcome _
                (λ n e. record {
                  ledger = h.ledger;
                  there = (stable call reply w.trace h.there, inl (refl, ap is_ok e));
                  flagged = h.flagged;
                })
                (λ e _. record {
                  ledger = h.ledger;
                  there = stable call reply w.trace h.there;
                  flagged = h.flagged;
                }))
            (λ _. h);
    }

    raise_delivery_error-Holds :
        (errors : List KafkaError) → Keeps (Holds pb F T) (Producer.raise_delivery_error errors)
    unfolding Producer.raise_delivery_error
    raise_delivery_error-Holds [] = search keeps_rules
    raise_delivery_error-Holds (_ ∷ _) = search keeps_rules

    produce-Sent :
        (topic : Bytes) (key : Option Bytes) (message : FdbMutationRecord)
        → Ends
            (Holds pb F T)
            (Producer.produce env pb topic message key)
            (λ _. Holds pb F (λ t. T t × Sent pb message t))
            (Holds pb F T)
    unfolding Producer.produce
    produce-Sent topic key message =
        let id = λ (w : World) (h : Holds pb F T w). h in
        Ends-bind _ _ (same id (Keeps-gets _)) λ p. Ends-then _ _ (same id (Keeps-raise_if _ _)) (
          Ends-then _ _ (same id (Keeps-raise_if _ _)) (
            Ends-then _ _ (same id (Keeps-raise_if _ _)) (
              Ends-then _ _ (same id (raise_delivery_error-Holds _)) (
                Ends-then _ _ (rd_produce-Sent topic key message) (
                  Ends-then _ _
                    (same (less (λ t k. k.0))
                      (rd-Holds (both-stable stable (λ _ _ _. inr)) env RdCall.rd_poll))
                    (Ends-pure tt (λ _ h. h)))))))

  -- A loop over the messages that returns has sent them all.
  pub produce_all-AllSent :
      {T : Trace → Type 0} (messages : List FdbMutationRecord)
      → IsKafkaStable T
      → Ends
          (Holds pb F T)
          (Pipeline.produce_all env pb messages)
          (λ _. Holds pb F (λ t. T t × AllSent pb messages t))
          (Holds pb F T)
  unfolding Pipeline.produce_all
  produce_all-AllSent [] stable = Ends-pure tt (λ w h. less (λ t k. (k, tt)) w h)
  produce_all-AllSent {T} (message ∷ rest) stable =
      Ends-bind _ _ (same (λ _ h. h) (Keeps-gets _)) λ p.
        Ends-then _ _ (produce-Sent stable p.topic (some p.partition_key) message) (
          Ends-weaken (λ _ w h. less (λ t k. (k.0.0, (k.0.1, k.1))) w h)
            (λ w h. less (λ t k. k.0) w h)
            (produce_all-AllSent {T = λ t. T t × Sent pb message t} rest
              (both-stable stable (λ _ _ _. inr))))
