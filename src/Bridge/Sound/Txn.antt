-- ===== src/Bridge/Sound/Txn.antt =====
-- Producing, flushing, beginning and committing, for a reply that was taken.
use kafka_fdb_streamline.Common.{
  ℕ, zero, suc, Bool, true, false, not, arith, ltb, ◌≡◌, refl, sym, subst, ap, ◌∙◌, Option, List,
  [], ◌∷◌, is_empty, Bool-cases, inl, inr,
}
use kafka_fdb_streamline.Errors.{Exn, KafkaError}
use kafka_fdb_streamline.Exec.{ok, pure, gets, ◌>>=◌, ◌>>◌}
use kafka_fdb_streamline.Exec.Keeps.{Keeps, Keeps-if, Keeps-pure}
use kafka_fdb_streamline.Exec.Ends.{
  Ends, Ends_of_Keeps, Ends-weaken, Ends-raise, Ends-pure, Ends-gets, Ends-read, Ends-return,
  Ends-catch, Ends-bind, Ends-then, Ends-guard, Ends-unless,
}
use kafka_fdb_streamline.Serialization.Model.{Bytes}
use kafka_fdb_streamline.Serialization.Message.{FdbMutationRecord, Protobuf}
use kafka_fdb_streamline.World.{RdCall, Env, Producer, Pipeline, World}
use kafka_fdb_streamline.Kafka.Producer
use kafka_fdb_streamline.Kafka.Producer.Keeps.{IsPlain, set_fatal-IsPlain, set_open-IsPlain}
use kafka_fdb_streamline.Kafka.Faults.{is_fatal_kafka_error}
use kafka_fdb_streamline.Bridge.Monitor.{Phase, taken, delivered, kafka_phase, status}
use kafka_fdb_streamline.Bridge.Sound.{IsCore, status_of}
use kafka_fdb_streamline.Bridge.Sound.Kafka.{HasMode, update-HasMode, update-IsCore}
use kafka_fdb_streamline.Bridge.Sound.Ack.{IsWaiting}
use kafka_fdb_streamline.Bridge.Sound.Mode.{InMode, AfterCall, rd-Ends}

not-false : (b : Bool) → not b ≡ false → b ≡ true
not-false true e = refl
not-false false e = cc e

module _ {R : World → Type 0} where
  raise_delivery_error-Ends :
      {P : World → Type 0} (errors : List KafkaError)
      → ((w : World) → P w → R w)
      → Ends P (Producer.raise_delivery_error errors) (λ _ w. P w × (is_empty errors ≡ true)) R
  unfolding Producer.raise_delivery_error
  raise_delivery_error-Ends [] h = Ends-pure tt (λ w p. (p, refl))
  raise_delivery_error-Ends (_ ∷ _) h = Ends-raise _ h

  -- What is left after `_require_transactional` runs in a transactional process.
  require_transactional-Ends :
      {P : World → Type 0} (needs_init : Bool)
      → ((w : World) → P w → R w)
      → Ends P (Producer.require_transactional needs_init) (λ _ w. P w × HasMode true w) R
  unfolding Producer.require_transactional
  require_transactional-Ends {P} needs_init h =
      Ends-bind {Q = λ p w. P w × (p ≡ w.producer)} _ _ (Ends-gets _ (λ w p. (p, refl))) λ p.
        Ends-then _ _ (Ends-unless (λ w. P w × (p ≡ w.producer)) _ _ (λ w k. h w k.0)) (
          Ends-then _ _ (Ends-unless (λ w. P w × (p ≡ w.producer)) _ _ (λ w k. h w k.0)) (
            Ends-then _ _
              (Ends-weaken
                (λ _ w k.
                  (k.0.0, ap (λ (q : Producer). q.transactional) (sym k.0.1) ∙ not-false _ k.1))
                (λ _ k. k) (Ends-guard (not p.transactional) _ (λ w k. h w k.0)))
              (Ends-unless (λ w. P w × HasMode true w) _ _ (λ w k. h w k.0))))

-- The failure of a librdkafka call is noted and raised again.
note_fatal-Ends :
    {P : World → Type 0} {Q : ℕ → World → Type 0} (e : Exn)
    → ((f : Producer → Producer) → IsPlain f → Keeps P (Producer.update f))
    → Ends P (Producer.note_fatal e) Q P
unfolding Producer.note_fatal
note_fatal-Ends e on_update =
    Ends-then _ _
      (Ends_of_Keeps
        (Keeps-if (is_fatal_kafka_error e) _ _ (on_update _ set_fatal-IsPlain) (Keeps-pure tt)))
      (Ends-raise e (λ w h. h))

module _ {p : Pipeline} where
  update-InMode :
      {b : Bool} {phase : Phase} (f : Producer → Producer)
      → IsPlain f
      → Keeps (InMode p b phase) (Producer.update f)
  unfolding Producer.update
  update-InMode {b} {phase} f plain = record {
    at = λ w h. record {
      waiting = record {
        core = (update-IsCore p f plain).at w h.waiting.core;
        awaiting = h.waiting.awaiting;
        phased =
            subst (λ (m : Bool). (status m w.trace).phase ≡ phase) (sym (plain.mode w.producer))
              h.waiting.phased;
      };
      mode = (update-HasMode b f plain).at w h.mode;
    };
  }

  module _ (b : Bool) (env : Env) where
    -- A call whose success leaves the reply taken.
    call-Ends :
        (call : RdCall)
        → ((f : Bool) (n : ℕ) → kafka_phase b f call (ok n) taken ≡ taken)
        → Ends (InMode p b taken) (Producer.rd env call) (λ _. InMode p b taken) (IsCore p)
    call-Ends call same =
        Ends-weaken (λ n w h. subst (λ x. InMode p b x w) (same _ n) h) (λ _ h. h.0)
          (rd-Ends p b taken env call)

    pub produce-Ends :
        (pb : Protobuf) (topic : Bytes) (message : FdbMutationRecord) (key : Option Bytes)
        → Ends
            (InMode p b taken)
            (Producer.produce env pb topic message key)
            (λ _. InMode p b taken)
            (IsCore p)
    unfolding Producer.produce
    produce-Ends pb topic message key = Ends-bind _ _ (Ends-read (InMode p b taken) _) λ q.
        Ends-then _ _ (Ends-unless (InMode p b taken) _ _ (λ w h. h.waiting.core)) (
          Ends-then _ _ (Ends-unless (InMode p b taken) _ _ (λ w h. h.waiting.core)) (
            Ends-then _ _ (Ends-unless (InMode p b taken) _ _ (λ w h. h.waiting.core)) (
              Ends-then _ _
                (Ends-weaken (λ _ w k. k.0) (λ _ k. k)
                  (raise_delivery_error-Ends _ (λ w h. h.waiting.core)))
                (Ends-then _ _
                  (call-Ends (RdCall.rd_produce topic key (pb.serialize message)) (λ _ _. refl))
                  (Ends-then _ _ (call-Ends RdCall.rd_poll (λ _ _. refl))
                    (Ends-return (InMode p b taken) tt))))))

    pub begin_transaction-Ends :
        Ends (InMode p b taken) (Producer.begin_transaction env) (λ _. InMode p b taken) (IsCore p)
    unfolding Producer.begin_transaction
    begin_transaction-Ends =
        Ends-then _ _
          (Ends-weaken (λ _ w k. k.0) (λ _ k. k)
            (require_transactional-Ends true (λ w h. h.waiting.core)))
          (Ends-bind _ _ (Ends-read (InMode p b taken) _) λ is_open.
            Ends-then _ _ (Ends-unless (InMode p b taken) _ _ (λ w h. h.waiting.core)) (
              Ends-then _ _
                (Ends-catch _ _ (call-Ends RdCall.rd_begin (λ _ _. refl))
                  (λ e. note_fatal-Ends e (update-IsCore p)))
                (Ends-weaken (λ _ _ k. k) (λ _ k. k.waiting.core)
                  (Ends_of_Keeps (update-InMode _ (set_open-IsPlain true))))))

    set_fatal-Ends :
        (phase : Phase) (e : Exn)
        → Ends
            (InMode p b phase)
            (Producer.note_fatal e)
            (λ _. InMode p b delivered)
            (InMode p b phase)
    set_fatal-Ends phase e = note_fatal-Ends e update-InMode

  transaction_over-Ends :
      Ends
        (InMode p true delivered)
        (Producer.update Producer.transaction_over)
        (λ _. IsWaiting p delivered)
        (IsWaiting p taken)
  unfolding Producer.update Producer.transaction_over
  transaction_over-Ends = record {
    at = λ w h. record {
      core = record {
        safe = h.waiting.core.safe;
        linked = λ off failed. cc (h.mode, off);
        pipeline = h.waiting.core.pipeline;
        attached = h.waiting.core.attached;
      };
      awaiting = h.waiting.awaiting;
      phased = h.waiting.phased;
    };
  }

  -- A commit that succeeds is Kafka's confirmation; one that fails leaves the reply taken.
  pub commit_transaction-Ends :
      (env : Env)
      → Ends
          (IsWaiting p taken)
          (Producer.commit_transaction env)
          (λ _. IsWaiting p delivered)
          (IsWaiting p taken)
  unfolding Producer.commit_transaction
  commit_transaction-Ends env =
      Ends-then _ _
        (Ends-weaken (λ _ w k. record { waiting = k.0; mode = k.1 }) (λ _ k. k)
          (require_transactional-Ends true (λ w h. h)))
        (Ends-bind _ _ (Ends-read (InMode p true taken) _) λ is_open.
          Ends-then _ _ (Ends-unless (InMode p true taken) _ _ (λ w h. h.waiting)) (
            Ends-then _ _
              (Ends-weaken (λ _ _ k. k) (λ _ k. k.waiting)
                (Ends-catch _ _
                  (Ends-weaken (λ _ w k. k) (λ _ k. k.1 (λ _ _. refl))
                    (rd-Ends p true taken env RdCall.rd_commit))
                  (set_fatal-Ends true env taken)))
              transaction_over-Ends))

-- The flush returned `n`, and no delivery error is on record.
abbrev IsFlushed : Pipeline → ℕ → World → Type 0
IsFlushed p n w =
    AfterCall p false taken RdCall.rd_flush n w × (is_empty w.producer.delivery_errors ≡ true)

module _ {p : Pipeline} where
  module _ (env : Env) where
    -- With no error on record none was reported, since the producer keeps every report of a failure.
    drained_phase :
        (n : ℕ) (w : World) → IsFlushed p n w → ltb 0 n ≡ false → InMode p false delivered w
    drained_phase zero w (h, none) done = elim (Bool-cases (status_of w).failed) [
      | inl failed ↦ cc (h.waiting.core.linked h.mode failed, none)
      | inr fine ↦
          subst (λ f. InMode p false (kafka_phase false f RdCall.rd_flush (ok 0) taken) w) fine h
    ]
    drained_phase (suc n) w h done = ground arith

    -- The errors on record are raised.
    reported :
        (n : ℕ)
        → Ends
            (AfterCall p false taken RdCall.rd_flush n)
            (do
              errors ← gets (λ w. w.producer.delivery_errors)
              Producer.raise_delivery_error errors
              pure n)
            (IsFlushed p)
            (IsCore p)
    reported n =
        Ends-bind
          {Q = λ errors w.
            AfterCall p false taken RdCall.rd_flush n w × (errors ≡ w.producer.delivery_errors)}
          _ _ (Ends-gets _ (λ w h. (h, refl)))
          λ errors.
            Ends-then _ _ (raise_delivery_error-Ends errors (λ w h. h.0.waiting.core))
              (Ends-pure n (λ w h. (h.0.0, cc (h.0.1, h.1))))

    flush-Ends : Ends (InMode p false taken) (Producer.flush env) (IsFlushed p) (IsCore p)
    unfolding Producer.flush
    flush-Ends = Ends-bind _ _ (Ends-read (InMode p false taken) _) λ q.
        Ends-then _ _ (Ends-unless (InMode p false taken) _ _ (λ w h. h.waiting.core)) (
          Ends-then _ _ (Ends-unless (InMode p false taken) _ _ (λ w h. h.waiting.core)) (
            Ends-bind _ _
              (Ends-weaken (λ _ w k. k) (λ _ k. k.0) (rd-Ends p false taken env RdCall.rd_flush))
              reported))

    pub flush_or_raise-Ends :
        Ends
          (InMode p false taken)
          (Producer.flush_or_raise env)
          (λ _. InMode p false delivered)
          (IsCore p)
    unfolding Producer.flush_or_raise
    flush_or_raise-Ends = Ends-bind _ _ flush-Ends λ n.
        Ends-weaken (λ _ w k. drained_phase n w k.0 k.1) (λ _ k. k)
          (Ends-guard _ _ (λ w h. h.0.waiting.core))
