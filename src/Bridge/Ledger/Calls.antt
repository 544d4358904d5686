-- ===== src/Bridge/Ledger/Calls.antt =====
-- What each call out of the program keeps of the ledger.
use kafka_fdb_streamline.Common.{
  ⊤, ℕ, Bool, Option, none, some, List, [], ◌∷◌, ℤ, ◌≡◌, refl, inr, All, if_cases,
}
use kafka_fdb_streamline.Exec.{Result, ok, err}
use kafka_fdb_streamline.Exec.Keeps.{Keeps}
use kafka_fdb_streamline.Serialization.Model.{Bytes}
use kafka_fdb_streamline.Serialization.Message.{FdbMutationRecord, Protobuf}
use kafka_fdb_streamline.World.{
  RdCall, RdReply, FdbCall, Cursor, Waited, NativeReply, Event, Trace, Env, Producer, Listener,
  Pipeline, World,
}
use kafka_fdb_streamline.Kafka.Producer
use kafka_fdb_streamline.Cdc.Client
use kafka_fdb_streamline.Cdc.Listener
use kafka_fdb_streamline.Bridge.Ledger.{
  after_fdb, taken_reply, IsSent, IsPublishedOf, IsPublished, Publishes,
}

-- A predicate that the calls keep, but for the taking of a reply.
pub record IsStable (T : Trace → Type 0) : Type 0 where
  pub on_kafka :
      (call : RdCall) (reply : RdReply) (t : Trace) → T t → T (Event.kafka call reply ∷ t)
  pub on_fdb : (call : FdbCall) (r : Result ℤ) (t : Trace) → T t → T (Event.fdb call r ∷ t)
  pub on_acknowledged : (r : Waited ⊤) (t : Trace) → T t → T (Event.acknowledged r ∷ t)
  pub on_position : (r : Result (Option Cursor)) (t : Trace) → T t → T (Event.position_read r ∷ t)
  pub on_checkpoint :
      (c : Option Cursor) (r : Result ⊤) (t : Trace) → T t → T (Event.checkpoint_saved c r ∷ t)
  pub on_clock : (n : ℕ) (t : Trace) → T t → T (Event.clock_read n ∷ t)
  pub on_monotonic : (n : ℕ) (t : Trace) → T t → T (Event.monotonic_read n ∷ t)
  pub on_slept : (n : ℕ) (t : Trace) → T t → T (Event.slept n ∷ t)
  pub on_closed : (t : Trace) → T t → T (Event.consumer_closed ∷ t)

abbrev pub Anything : Trace → Type 0
Anything t = Unit

pub Anything-IsStable : IsStable Anything
Anything-IsStable = record {
  on_kafka = λ _ _ _ _. tt;
  on_fdb = λ _ _ _ _. tt;
  on_acknowledged = λ _ _ _. tt;
  on_position = λ _ _ _. tt;
  on_checkpoint = λ _ _ _ _. tt;
  on_clock = λ _ _ _. tt;
  on_monotonic = λ _ _ _. tt;
  on_slept = λ _ _ _. tt;
  on_closed = λ _ _. tt;
}

-- No reply of the consumer was taken, since it was resumed.
abbrev pub Untaken : Trace → Type 0
Untaken t = taken_reply t ≡ none

untaken-fdb :
    (call : FdbCall) (r : Result ℤ) (o : Option NativeReply) → o ≡ none → after_fdb call r o ≡ none
untaken-fdb (FdbCall.fdb_resume_consumer cursor) (ok _) o h = refl
untaken-fdb (FdbCall.fdb_resume_consumer cursor) (err _) o h = h
untaken-fdb _ r o h = h

pub Untaken-IsStable : IsStable Untaken
Untaken-IsStable = record {
  on_kafka = λ _ _ _ h. h;
  on_fdb = λ call r t h. untaken-fdb call r (taken_reply t) h;
  on_acknowledged = λ _ _ h. h;
  on_position = λ _ _ h. h;
  on_checkpoint = λ _ _ _ h. h;
  on_clock = λ _ _ h. h;
  on_monotonic = λ _ _ h. h;
  on_slept = λ _ _ h. h;
  on_closed = λ _ h. h;
}

pub both-IsStable : {T U : Trace → Type 0} → IsStable T → IsStable U → IsStable (λ t. T t × U t)
both-IsStable a b = record {
  on_kafka = λ c r t h. (a.on_kafka c r t h.0, b.on_kafka c r t h.1);
  on_fdb = λ c r t h. (a.on_fdb c r t h.0, b.on_fdb c r t h.1);
  on_acknowledged = λ r t h. (a.on_acknowledged r t h.0, b.on_acknowledged r t h.1);
  on_position = λ r t h. (a.on_position r t h.0, b.on_position r t h.1);
  on_checkpoint = λ c r t h. (a.on_checkpoint c r t h.0, b.on_checkpoint c r t h.1);
  on_clock = λ n t h. (a.on_clock n t h.0, b.on_clock n t h.1);
  on_monotonic = λ n t h. (a.on_monotonic n t h.0, b.on_monotonic n t h.1);
  on_slept = λ n t h. (a.on_slept n t h.0, b.on_slept n t h.1);
  on_closed = λ t h. (a.on_closed t h.0, b.on_closed t h.1);
}

All-map :
    {P Q : FdbMutationRecord → Type 0} (records : List FdbMutationRecord)
    → ((r : FdbMutationRecord) → P r → Q r)
    → All P records
    → All Q records
All-map [] f h = tt
All-map (r ∷ rest) f h = (f r h.0, All-map rest f h.1)

module _ (pb : Protobuf) where
  moved :
      (o : Option NativeReply) (t t' : Trace)
      → ((payload : Bytes) → IsSent payload t → IsSent payload t')
      → IsPublishedOf pb o t
      → IsPublishedOf pb o t'
  moved none t t' f h = tt
  moved (some reply) t t' f (l, now, records, made, sent) =
      (l, now, records, made, All-map records (λ r. f (pb.serialize r)) sent)

  published-fdb :
      (call : FdbCall) (r : Result ℤ) (o : Option NativeReply) (t : Trace)
      → IsPublishedOf pb o t
      → IsPublishedOf pb (after_fdb call r o) (Event.fdb call r ∷ t)
  published-fdb (FdbCall.fdb_resume_consumer cursor) (ok _) o t h = tt
  published-fdb (FdbCall.fdb_resume_consumer cursor) (err e) o t h = moved o t _ (λ _ s. s) h
  published-fdb FdbCall.fdb_get_api_version r o t h = moved o t _ (λ _ s. s) h
  published-fdb FdbCall.fdb_open r o t h = moved o t _ (λ _ s. s) h
  published-fdb FdbCall.fdb_read_version r o t h = moved o t _ (λ _ s. s) h
  published-fdb FdbCall.fdb_list r o t h = moved o t _ (λ _ s. s) h
  published-fdb (FdbCall.fdb_api_version _) r o t h = moved o t _ (λ _ s. s) h
  published-fdb (FdbCall.fdb_register _ _ _) r o t h = moved o t _ (λ _ s. s) h
  published-fdb (FdbCall.fdb_create_consumer _) r o t h = moved o t _ (λ _ s. s) h
  published-fdb (FdbCall.fdb_remove _) r o t h = moved o t _ (λ _ s. s) h

  pub IsPublished-IsStable : IsStable (IsPublished pb)
  IsPublished-IsStable = record {
    on_kafka = λ _ _ t h. moved (taken_reply t) t _ (λ _ s. inr s) h;
    on_fdb = λ call r t h. published-fdb call r (taken_reply t) t h;
    on_acknowledged = λ _ t h. moved (taken_reply t) t _ (λ _ s. s) h;
    on_position = λ _ t h. moved (taken_reply t) t _ (λ _ s. s) h;
    on_checkpoint = λ _ _ t h. moved (taken_reply t) t _ (λ _ s. s) h;
    on_clock = λ _ t h. moved (taken_reply t) t _ (λ _ s. s) h;
    on_monotonic = λ _ t h. moved (taken_reply t) t _ (λ _ s. s) h;
    on_slept = λ _ t h. moved (taken_reply t) t _ (λ _ s. s) h;
    on_closed = λ t h. moved (taken_reply t) t _ (λ _ s. s) h;
  }

-- The ledger is in order, `T` holds of the trace and `F` of the pipeline.
pub record Holds (pb : Protobuf) (F : Pipeline → Type 0) (T : Trace → Type 0) (w : World)
    : Type 0 where
  pub ledger : Publishes pb w.trace
  pub there : T w.trace
  pub flagged : F w.pipeline

module _ {pb : Protobuf} {F : Pipeline → Type 0} {T : Trace → Type 0} where
  pub rd-Holds :
      ((call : RdCall) (reply : RdReply) (t : Trace) → T t → T (Event.kafka call reply ∷ t))
      → (env : Env) (call : RdCall) → Keeps (Holds pb F T) (Producer.rd env call)
  unfolding Producer.rd
  rd-Holds stable env call = record {
    at = λ w h.
        if_cases (λ (x : Result ℕ × World). Holds pb F T x.1) w.producer.handle _ _
          (λ _. record {
            ledger = h.ledger;
            there = stable call (env.rd w.trace call) w.trace h.there;
            flagged = h.flagged;
          })
          (λ _. h);
  }

  pub update-Holds : (f : Producer → Producer) → Keeps (Holds pb F T) (Producer.update f)
  unfolding Producer.update
  update-Holds f = record {
    at = λ w h. record { ledger = h.ledger; there = h.there; flagged = h.flagged };
  }

  pub listener-Holds : (f : Listener → Listener) → Keeps (Holds pb F T) (Listener.update f)
  unfolding Listener.update
  listener-Holds f = record {
    at = λ w h. record { ledger = h.ledger; there = h.there; flagged = h.flagged };
  }

  pub set_db-Holds : (b : Bool) → Keeps (Holds pb F T) (Client.set_db b)
  unfolding Client.set_db
  set_db-Holds b = record {
    at = λ w h. record { ledger = h.ledger; there = h.there; flagged = h.flagged };
  }

  pub fdb-Holds :
      IsStable T → (env : Env) (call : FdbCall) → Keeps (Holds pb F T) (Client.fdb env call)
  unfolding Client.fdb
  fdb-Holds stable env call = record {
    at = λ w h. record {
      ledger = h.ledger;
      there = stable.on_fdb call _ w.trace h.there;
      flagged = h.flagged;
    };
  }

  pub read_monotonic-Holds :
      IsStable T → (env : Env) → Keeps (Holds pb F T) (Listener.read_monotonic env)
  unfolding Listener.read_monotonic
  read_monotonic-Holds stable env = record {
    at = λ w h. record {
      ledger = h.ledger;
      there = stable.on_monotonic _ w.trace h.there;
      flagged = h.flagged;
    };
  }

  pub sleep-Holds : IsStable T → (n : ℕ) → Keeps (Holds pb F T) (Listener.sleep n)
  unfolding Listener.sleep
  sleep-Holds stable n = record {
    at = λ w h. record {
      ledger = h.ledger;
      there = stable.on_slept n w.trace h.there;
      flagged = h.flagged;
    };
  }

  pub close_consumer-Holds : IsStable T → Keeps (Holds pb F T) Listener.close_consumer
  unfolding Listener.close_consumer
  close_consumer-Holds stable = record {
    at = λ w h. record {
      ledger = h.ledger;
      there = stable.on_closed w.trace h.there;
      flagged = h.flagged;
    };
  }

  -- An acknowledgement of a reply that was published.
  pub native_acknowledge-Holds :
      IsStable T
      → ((t : Trace) → T t → IsPublished pb t)
      → (env : Env) → Keeps (Holds pb F T) (Listener.native_acknowledge env)
  unfolding Listener.native_acknowledge
  native_acknowledge-Holds stable published env = record {
    at = λ w h. record {
      ledger = (published w.trace h.there, h.ledger);
      there = stable.on_acknowledged _ w.trace h.there;
      flagged = h.flagged;
    };
  }
