-- ===== src/Bridge/Ledger/Session.antt =====
-- Steps of the pipeline and closings of its listener keep the ledger in order.
use kafka_fdb_streamline.Common.{
  ⊤, Bool, true, false, List, [], ◌∷◌, ◌≡◌, refl, sym, subst, none, if◌then◌else◌, Bool-cases, inl,
  inr,
}
use kafka_fdb_streamline.Errors.{Exn, kafka_exception, buffer_error, timeout_error, runtime_error}
use kafka_fdb_streamline.Exec.{raise, ◌>>=◌, ◌>>◌}
use kafka_fdb_streamline.Exec.Keeps.{
  Keeps, Keeps-bind, Keeps-then, Keeps-gets, Keeps-if, Keeps-pure,
}
use kafka_fdb_streamline.Exec.Ends.{
  Ends, Ends_of_Keeps, Ends-weaken, Ends-raise, Ends-pure, Ends-catch, Ends-bind, Ends-then,
  Ends-if, Ends-known,
}
use kafka_fdb_streamline.Serialization.Message.{FdbMutationRecord, Protobuf}
use kafka_fdb_streamline.World.{Env, Pipeline, World}
use kafka_fdb_streamline.Kafka.Faults.{is_fatal_kafka_error}
use kafka_fdb_streamline.Kafka.Producer
use kafka_fdb_streamline.Cdc.Listener
use kafka_fdb_streamline.Bridge.Pipeline
use kafka_fdb_streamline.Bridge.Ledger.Calls.{Anything, IsPublished-IsStable, Holds}
use kafka_fdb_streamline.Bridge.Ledger.Poll.{Owes, poll-Owes}
use kafka_fdb_streamline.Bridge.Ledger.Steps.{
  AllSent, AllSent-stable, produce_all-AllSent, close-Holds, mark_fatal-Holds,
  abort_transaction-Holds, flush_or_raise-Holds, begin_transaction-Holds,
}
use kafka_fdb_streamline.Bridge.Ledger.Finish.{
  pending, IsAccounted, Clear, Published, Calm, Published-IsAccounted, calm, Clear-IsAccounted,
  all_sent, finish_delivery-Published, update-Published, merged,
}

module _ (pb : Protobuf) (env : Env) where
  -- What raises with the flags clear leaves the ledger in order.
  abort_and_raise-Calm :
      {Q : ⊤ → World → Type 0} (e : Exn)
      → Ends (Calm pb) (Pipeline.abort_and_raise env e) Q (Calm pb)
  unfolding Pipeline.abort_and_raise
  abort_and_raise-Calm e =
      Ends-if (is_fatal_kafka_error e) _ _
        (Ends-then _ _ (Ends_of_Keeps (mark_fatal-Holds (λ _ _ _ h. h) env))
          (Ends-raise e (λ _ h. h)))
        (Ends-then _ _ (Ends_of_Keeps (abort_transaction-Holds (λ _ _ _ h. h) env))
          (Ends-raise e (λ _ h. h)))

  abort_batch-Calm :
      {Q : ⊤ → World → Type 0} (e : Exn) → Ends (Calm pb) (Pipeline.abort_batch env e) Q (Calm pb)
  unfolding Pipeline.abort_batch
  abort_batch-Calm (kafka_exception error) = abort_and_raise-Calm _
  abort_batch-Calm buffer_error = abort_and_raise-Calm _
  abort_batch-Calm e = Ends-raise e (λ _ h. h)

  close_and_raise :
      {Q : ⊤ → World → Type 0} (e : Exn)
      → Ends (Calm pb) (Producer.close env >> raise e) Q (Calm pb)
  close_and_raise e =
      Ends-then _ _ (Ends_of_Keeps (close-Holds (λ _ _ _ h. h) env)) (Ends-raise e (λ _ h. h))

  close_producer_and_raise-Calm :
      {Q : ⊤ → World → Type 0} (e : Exn)
      → Ends (Calm pb) (Pipeline.close_producer_and_raise env e) Q (Calm pb)
  unfolding Pipeline.close_producer_and_raise
  close_producer_and_raise-Calm (kafka_exception error) = close_and_raise _
  close_producer_and_raise-Calm buffer_error = close_and_raise _
  close_producer_and_raise-Calm timeout_error = close_and_raise _
  close_producer_and_raise-Calm (runtime_error reason) = close_and_raise _
  close_producer_and_raise-Calm e = Ends-raise e (λ _ h. h)

  module _ (messages : List FdbMutationRecord) where
    -- The messages of a reply that was taken, all of them sent.
    Done : World → Type 0
    Done = Holds pb Clear (λ t. Owes pb messages t × AllSent pb messages t)

    flagged-Done :
        {R : World → Type 0} (f : Pipeline → Pipeline)
        → Ends Done (Pipeline.update f) (λ _. Published pb) R
    unfolding Pipeline.update Done
    flagged-Done f = record {
      at = λ w h. record {
        ledger = h.ledger;
        there = all_sent pb messages w.trace h.there.0 h.there.1;
        flagged = tt;
      };
    }

    produce_all-Done :
        Ends
          (Holds pb Clear (Owes pb messages))
          (Pipeline.produce_all env pb messages)
          (λ _. Done)
          (Calm pb)
    unfolding Done
    produce_all-Done =
        Ends-weaken (λ _ _ h. h) calm (produce_all-AllSent env messages (λ _ _ _ h. h))

    flush-Done : Ends Done (Producer.flush_or_raise env) (λ _. Done) (Calm pb)
    unfolding Done
    flush-Done =
        Ends-weaken (λ _ _ h. h) calm
          (Ends_of_Keeps
            (flush_or_raise-Holds (λ c r t h. (h.0, AllSent-stable pb messages c r t h.1)) env))

    begin_and_produce-Published :
        Ends
          (Holds pb Clear (Owes pb messages))
          (Pipeline.begin_and_produce env pb messages)
          (λ _. Published pb)
          (Calm pb)
    unfolding Pipeline.begin_and_produce
    begin_and_produce-Published =
        Ends-then _ _
          (Ends-weaken (λ _ _ h. h) calm
            (Ends_of_Keeps (begin_transaction-Holds (λ _ _ _ h. h) env)))
          (Ends-then _ _ (Ends-catch _ _ produce_all-Done abort_batch-Calm) (flagged-Done _))

    produce_and_flush-Published :
        Ends
          (Holds pb Clear (Owes pb messages))
          (Pipeline.produce_and_flush env pb messages)
          (λ _. Published pb)
          (Calm pb)
    unfolding Pipeline.produce_and_flush
    produce_and_flush-Published =
        Ends-then _ _
          (Ends-catch _ _ (Ends-then _ _ produce_all-Done flush-Done) close_producer_and_raise-Calm)
          (flagged-Done _)

  accounted :
      {A : Type 0} {m : _}
      → Keeps (Published pb) m
      → Ends {A = A} (Published pb) m (λ _. IsAccounted pb) (IsAccounted pb)
  accounted k =
      Ends-weaken (λ _ w h. Published-IsAccounted pb w h) (Published-IsAccounted pb)
        (Ends_of_Keeps k)

  deliver-Accounted :
      (messages : List FdbMutationRecord)
      → Ends
          (Holds pb Clear (Owes pb messages))
          (Pipeline.deliver env pb messages)
          (λ _. IsAccounted pb)
          (IsAccounted pb)
  unfolding Pipeline.deliver
  deliver-Accounted [] = Ends-pure 0 (Clear-IsAccounted pb)
  deliver-Accounted (message ∷ rest) =
      let R = Clear-IsAccounted {T = Anything} pb in
      Ends-bind _ _ (Ends-weaken (λ _ _ h. h) (Clear-IsAccounted pb) (Ends_of_Keeps (Keeps-gets _)))
        λ transactional.
          Ends-then _ _
            (Ends-if transactional _ _
              (Ends-weaken (λ _ _ h. h) R (begin_and_produce-Published (message ∷ rest)))
              (Ends-weaken (λ _ _ h. h) R (produce_and_flush-Published (message ∷ rest))))
            (accounted
              (Keeps-then _ _ (update-Published pb env _) (finish_delivery-Published pb env)))

  poll-Accounted :
      Ends
        (Calm pb)
        (do messages ← Listener.poll_records env pb none; Pipeline.deliver env pb messages)
        (λ _. IsAccounted pb)
        (IsAccounted pb)
  poll-Accounted =
      Ends-bind _ _ (Ends-weaken (λ _ _ h. h) (Clear-IsAccounted pb) (poll-Owes env _))
        deliver-Accounted

  step-Calm :
      (p : Pipeline)
      → pending p ≡ false
      → Ends
          (λ w. Calm pb w × (w.pipeline ≡ p))
          (Pipeline.step env pb)
          (λ _. IsAccounted pb)
          (IsAccounted pb)
  unfolding Pipeline.step
  step-Calm p off =
      Ends-known _ p _ (λ w h. h.1)
        (subst
          (λ (b : Bool).
            Ends (λ w. Calm pb w × (w.pipeline ≡ p))
              (if b then Pipeline.finish_delivery env else do
                messages ← Listener.poll_records env pb none
                Pipeline.deliver env pb messages)
              (λ _. IsAccounted pb) (IsAccounted pb))
          (sym off) (record { at = λ w h. poll-Accounted.at w h.0 }))

  step-Published :
      (p : Pipeline)
      → pending p ≡ true
      → Ends
          (λ w. Published pb w × (w.pipeline ≡ p))
          (Pipeline.step env pb)
          (λ _. IsAccounted pb)
          (IsAccounted pb)
  unfolding Pipeline.step
  step-Published p on =
      Ends-known _ p _ (λ w h. h.1)
        (subst
          (λ (b : Bool).
            Ends (λ w. Published pb w × (w.pipeline ≡ p))
              (if b then Pipeline.finish_delivery env else do
                messages ← Listener.poll_records env pb none
                Pipeline.deliver env pb messages)
              (λ _. IsAccounted pb) (IsAccounted pb))
          (sym on) (record { at = λ w h. (accounted (finish_delivery-Published pb env)).at w h.0 }))

  pub step-IsAccounted : Keeps (IsAccounted pb) (Pipeline.step env pb)
  step-IsAccounted = record {
    at = λ w h.
        let p = w.pipeline in
        let after = Pipeline.step env pb w in
        elim (Bool-cases (pending p)) [
          | inl on ↦ merged (IsAccounted pb) after.0 after.1 (
              (step-Published p on).at w
                (record { ledger = h.0; there = h.1 on; flagged = tt }, refl))
          | inr off ↦
              merged (IsAccounted pb) after.0 after.1
                ((step-Calm p off).at w (record { ledger = h.0; there = tt; flagged = off }, refl))
        ];
  }

  pub close-IsAccounted : Keeps (IsAccounted pb) Listener.close
  unfolding Listener.close Listener.update Listener.close_consumer
  close-IsAccounted = Keeps-bind _ _ (Keeps-gets _) λ had_consumer.
      Keeps-then _ _ (record { at = λ w h. h })
        (Keeps-if had_consumer _ _
          (record { at = λ w h. (h.0, λ on. (IsPublished-IsStable pb).on_closed w.trace (h.1 on)) })
          (Keeps-pure tt))
