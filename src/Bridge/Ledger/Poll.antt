-- ===== src/Bridge/Ledger/Poll.antt =====
-- The methods of the listener and the ledger: a poll that returns owes its records to Kafka.
use kafka_fdb_streamline.Common.{
  ℕ, Bool, true, Option, none, some, List, ◌≡◌, ◌≢◌, refl, sym, subst, ap,
}
use kafka_fdb_streamline.Errors
use kafka_fdb_streamline.Errors.{Exn}
use kafka_fdb_streamline.Exec.{Result, ok, err, lift, raise}
use kafka_fdb_streamline.Exec.Keeps.{
  Keeps, keeps_rules, Keeps-then, Keeps-catch, Keeps-gets, Keeps-raise_if, Returns, Returns-then,
  Returns-catch,
}
use kafka_fdb_streamline.Exec.Ends.{
  Ends, Ends_of_Keeps, Ends-weaken, Ends-pure, Ends-raise, Ends-catch, Ends-bind, Ends-then,
  after_cases,
}
use kafka_fdb_streamline.Exec.Run.{then_at}
use kafka_fdb_streamline.Serialization.Message.{FdbMutationRecord, Protobuf}
use kafka_fdb_streamline.World.{
  FdbCall, Cursor, NativeReply, Trace, Env, Listener, Pipeline, World, M,
}
use kafka_fdb_streamline.Cdc.Client
use kafka_fdb_streamline.Cdc.Client.Keeps.{
  open_client-Keeps, create_cdc_consumer-Keeps, resume_cdc_consumer-Keeps,
}
use kafka_fdb_streamline.Cdc.Listener
use kafka_fdb_streamline.Cdc.Listener.Keeps.{await_version-Keeps, register-Keeps, wait_failed-Keeps}
use kafka_fdb_streamline.Bridge.Ledger.{
  after_consume, after_fdb, taken_reply, IsPublished, IsPublishedOf,
}
use kafka_fdb_streamline.Bridge.Ledger.Calls.{
  IsStable, Anything, Anything-IsStable, Untaken, Untaken-IsStable, both-IsStable, Holds,
  listener-Holds, set_db-Holds, fdb-Holds, read_monotonic-Holds, sleep-Holds, close_consumer-Holds,
  native_acknowledge-Holds,
}

abbrev Any : World → Type 0
Any _ = Unit

returns-Any : {A : Type 0} (m : M A) → Returns Any m (λ _. Any)
returns-Any m = record { at = λ _ _ _ _. tt }

translate-raises :
    {A : Type 0} (e : Exn) (w : World) (a : A)
    → (Client.translate_cdc_runtime_error {A = A} e w).0 ≢ ok a
unfolding Client.translate_cdc_runtime_error raise
translate-raises (Exn.runtime_error (Errors.RuntimeReason.binding text)) w a = λ q. cc q
translate-raises _ w a = λ q. cc q

resume-Untaken :
    (env : Env) (cursor : Cursor)
    → Returns Any (Client.resume_cdc_consumer env cursor) (λ _ w. Untaken w.trace)
unfolding Client.resume_cdc_consumer Client.fdb
resume-Untaken env cursor = Returns-then _ _ (returns-Any _) λ _.
    Returns-then _ _ (returns-Any _) λ _.
      Returns-catch _ _
        (Returns-then _ _ (returns-Any _) λ _. record {
          at = λ w _ a e.
              ap (λ r. after_fdb (FdbCall.fdb_resume_consumer cursor) r (taken_reply w.trace)) e;
        })
        translate-raises

Untaken-IsPublished : (pb : Protobuf) (t : Trace) → Untaken t → IsPublished pb t
Untaken-IsPublished pb t h = subst (λ o. IsPublishedOf pb o t) (sym h) tt

abbrev Resumed : Protobuf → (Pipeline → Type 0) → (Trace → Type 0) → World → Type 0
Resumed pb F T = Holds pb F (λ t. T t × Untaken t)

resumed : {T : Trace → Type 0} → IsStable T → IsStable (λ t. T t × Untaken t)
resumed stable = both-IsStable stable Untaken-IsStable

module _ {pb : Protobuf} {F : Pipeline → Type 0} where
  module _ {T : Trace → Type 0} (stable : IsStable T) (env : Env) where
    acknowledge-Resumed : Keeps (Resumed pb F T) (Listener.native_acknowledge env)
    acknowledge-Resumed =
        native_acknowledge-Holds (resumed stable) (λ t h. Untaken-IsPublished pb t h.1) env

    reconcile-Resumed : (cursor : Cursor) → Keeps (Resumed pb F T) (Listener.reconcile env cursor)
    unfolding Listener.reconcile
    reconcile-Resumed cursor =
        search
          (
            keeps_rules,
            read_monotonic-Holds (resumed stable) env,
            await_version-Keeps env (fdb-Holds (resumed stable) env) set_db-Holds
                (read_monotonic-Holds (resumed stable) env) (sleep-Holds (resumed stable)),
            acknowledge-Resumed,
          )
          depth 12

    abandon-Resumed : (e : Exn) → Keeps (Resumed pb F T) (Listener.abandon e)
    unfolding Listener.abandon Listener.set_consumer
    abandon-Resumed e =
        search (keeps_rules, listener-Holds, close_consumer-Holds (resumed stable)) depth 8

    set_consumer-Resumed : (b : Bool) → Keeps (Resumed pb F T) (Listener.set_consumer b)
    unfolding Listener.set_consumer
    set_consumer-Resumed b = listener-Holds _

    set_consumer-Holds : (b : Bool) → Keeps (Holds pb F T) (Listener.set_consumer b)
    unfolding Listener.set_consumer
    set_consumer-Holds b = listener-Holds _

    forget : (w : World) → Resumed pb F T w → Holds pb F T w
    forget w h = record { ledger = h.ledger; there = h.there.0; flagged = h.flagged }

    attach-Holds : (cursor : Option Cursor) → Keeps (Holds pb F T) (Listener.attach env cursor)
    unfolding Listener.attach
    attach-Holds none =
        search
          (
            keeps_rules,
            create_cdc_consumer-Keeps env (fdb-Holds stable env) set_db-Holds,
            set_consumer-Holds,
          )
          depth 8
    attach-Holds (some cursor) = record {
      at = λ w h.
          let kept =
            (resume_cdc_consumer-Keeps env (fdb-Holds stable env) set_db-Holds cursor).at w h in
          then_at (λ x. Holds pb F T x.1) (Client.resume_cdc_consumer env cursor) _ w
            (λ n e. forget _ (
              (Keeps-then _ _ (set_consumer-Resumed true)
                  (Keeps-catch _ _ (reconcile-Resumed cursor) abandon-Resumed)).at
                _
                (record {
                  ledger = kept.ledger;
                  there = (kept.there, (resume-Untaken env cursor).at w tt n e);
                  flagged = kept.flagged;
                })))
            (λ _ _. kept);
    }

    start_detached-Holds : (l : Listener) → Keeps (Holds pb F T) (Listener.start_detached env l)
    unfolding Listener.start_detached
    start_detached-Holds l = Keeps-then _ _ (Keeps-raise_if _ _) (
        Keeps-then _ _ (open_client-Keeps env (fdb-Holds stable env) set_db-Holds) (
          Keeps-then _ _ (register-Keeps env (fdb-Holds stable env) set_db-Holds _)
            (attach-Holds _)))

    pub start-Holds : Keeps (Holds pb F T) (Listener.start env)
    unfolding Listener.start
    start-Holds = search (keeps_rules, start_detached-Holds) depth 8

    pub require_consumer-Holds : Keeps (Holds pb F T) (Listener.require_consumer env)
    unfolding Listener.require_consumer
    require_consumer-Holds = search (keeps_rules, start-Holds) depth 8

    -- An acknowledgement of a reply that was published.
    pub acknowledge-Holds :
        ((t : Trace) → T t → IsPublished pb t) → Keeps (Holds pb F T) (Listener.acknowledge env)
    unfolding Listener.acknowledge Listener.set_acknowledged
    acknowledge-Holds published =
        search
          (
            keeps_rules,
            require_consumer-Holds,
            native_acknowledge-Holds stable published env,
            wait_failed-Keeps,
            listener-Holds,
          )
          depth 14

-- The reply that these records were made of was taken last.
abbrev pub Owes : Protobuf → List FdbMutationRecord → Trace → Type 0
Owes pb records t =
    (reply : NativeReply) × (l : Listener) × (timestamp_ns : ℕ) × (taken_reply t ≡ some reply)
    × (Listener.records_of pb l timestamp_ns reply ≡ ok records)

abbrev Took : NativeReply → Trace → Type 0
Took reply t = taken_reply t ≡ some reply

module _ {pb : Protobuf} {F : Pipeline → Type 0} (env : Env) where
  native_consume-Took :
      Ends
        (Holds pb F Anything)
        (Listener.native_consume env)
        (λ reply. Holds pb F (Took reply))
        (Holds pb F Anything)
  unfolding Listener.native_consume
  native_consume-Took = record {
    at = λ w h.
        after_cases _ _ (env.consume w.trace).outcome _
          (λ reply e. record {
            ledger = h.ledger;
            there = ap (λ r. after_consume r (taken_reply w.trace)) e;
            flagged = h.flagged;
          })
          (λ e _. record { ledger = h.ledger; there = tt; flagged = h.flagged });
  }

  wait_failed-Ends :
      {A : Type 0} {Q : A → World → Type 0} (e : Exn)
      → Ends (Holds pb F Anything) (Listener.wait_failed {A = A} e) Q (Holds pb F Anything)
  unfolding Listener.wait_failed
  wait_failed-Ends e =
      Ends-bind _ _ (Ends_of_Keeps (Keeps-gets _)) λ closed. Ends-raise _ (λ _ h. h)

  consume_batch-Took :
      Ends
        (Holds pb F Anything)
        (Listener.consume_batch env)
        (λ reply. Holds pb F (Took reply))
        (Holds pb F Anything)
  unfolding Listener.consume_batch
  consume_batch-Took = Ends-bind _ _ (Ends_of_Keeps (Keeps-gets _)) λ l.
      Ends-then _ _ (Ends_of_Keeps (Keeps-raise_if _ _)) (
        Ends-then _ _ (Ends_of_Keeps (Keeps-raise_if _ _)) (
          Ends-catch _ _
            (Ends-then _ _ (Ends_of_Keeps (require_consumer-Holds Anything-IsStable env))
              native_consume-Took)
            wait_failed-Ends))

  lose : {T : Trace → Type 0} (w : World) → Holds pb F T w → Holds pb F Anything w
  lose w h = record { ledger = h.ledger; there = tt; flagged = h.flagged }

  keep :
      {A : Type 0} {T : Trace → Type 0} {m : M A}
      → Keeps (Holds pb F T) m
      → Ends (Holds pb F T) m (λ _. Holds pb F T) (Holds pb F Anything)
  keep k = Ends-weaken (λ _ _ h. h) lose (Ends_of_Keeps k)

  timestamp-Took :
      (reply : NativeReply) (t : Option ℕ)
      → Keeps (Holds pb F (Took reply)) (Listener.timestamp_or_now env t)
  unfolding Listener.timestamp_or_now Listener.read_time
  timestamp-Took reply none = record {
    at = λ w h. record { ledger = h.ledger; there = h.there; flagged = h.flagged };
  }
  timestamp-Took reply (some t) = search keeps_rules

  owed :
      (reply : NativeReply) (l : Listener) (now : ℕ) (r : Result (List FdbMutationRecord))
      → Listener.records_of pb l now reply ≡ r
      → Ends
          (Holds pb F (Took reply))
          (lift r)
          (λ records. Holds pb F (Owes pb records))
          (Holds pb F Anything)
  unfolding lift
  owed reply l now (ok records) made = record {
    at = λ w h. record {
      ledger = h.ledger;
      there = (reply, l, now, h.there, made);
      flagged = h.flagged;
    };
  }
  owed reply l now (err e) made = record { at = lose }

  -- A poll that returns records took the reply that they were made of.
  pub poll-Owes :
      (t : Option ℕ)
      → Ends
          (Holds pb F Anything)
          (Listener.poll_records env pb t)
          (λ records. Holds pb F (Owes pb records))
          (Holds pb F Anything)
  unfolding Listener.poll_records Listener.set_delivery_failed Listener.set_delivered
  poll-Owes t = Ends-bind _ _ consume_batch-Took λ reply. Ends-then _ _ (keep (listener-Holds _)) (
      Ends-bind _ _ (keep (timestamp-Took reply t)) λ now. Ends-bind _ _ (keep (Keeps-gets _)) λ l.
        Ends-bind _ _ (owed reply l now _ refl)
          λ records. Ends-then _ _ (keep (listener-Holds _)) (Ends-pure records (λ _ h. h)))
