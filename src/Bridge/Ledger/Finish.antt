-- ===== src/Bridge/Ledger/Finish.antt =====
-- The end of a delivery and the ledger: commits, saves and acknowledgements of what was published.
use kafka_fdb_streamline.Common.{
  ⊤, ℕ, zero, suc, Bool, true, false, ◌||◌, Option, List, ◌∷◌, ◌≡◌, sym, subst,
}
use kafka_fdb_streamline.Errors.{Exn, kafka_exception, runtime_error, cdc, retryable}
use kafka_fdb_streamline.Exec.{Result, ok, err}
use kafka_fdb_streamline.Exec.Keeps.{Keeps, keeps_rules}
use kafka_fdb_streamline.Exec.Ends.{
  After, Ends, Ends_of_Keeps, Ends-bind, Ends-then, Ends-attempt, after_cases,
}
use kafka_fdb_streamline.Serialization.Message.{FdbMutationRecord, Protobuf}
use kafka_fdb_streamline.World.{Cursor, Event, Trace, Env, Pipeline, World, M}
use kafka_fdb_streamline.Kafka.Producer
use kafka_fdb_streamline.Cdc.Listener
use kafka_fdb_streamline.Bridge.Pipeline
use kafka_fdb_streamline.Bridge.Ledger.{IsPublishedOf, IsPublished, IsLastRead, Publishes}
use kafka_fdb_streamline.Bridge.Ledger.Calls.{IsStable, Anything, IsPublished-IsStable, Holds}
use kafka_fdb_streamline.Bridge.Ledger.Poll.{require_consumer-Holds, acknowledge-Holds, Owes}
use kafka_fdb_streamline.Bridge.Ledger.Steps.{
  AllSent, mark_fatal-Holds, commit_transaction-Holds, abort_and_raise-Holds,
}

abbrev pub pending : Pipeline → Bool
pending p = p.commit_outstanding || p.delivered_unacked

-- The ledger is in order, and a delivery that the flags call pending was published.
abbrev pub IsAccounted : Protobuf → World → Type 0
IsAccounted pb w = Publishes pb w.trace × (pending w.pipeline ≡ true → IsPublished pb w.trace)

abbrev pub Clear : Pipeline → Type 0
Clear p = pending p ≡ false

abbrev Free : Pipeline → Type 0
Free p = Unit

abbrev pub Published : Protobuf → World → Type 0
Published pb = Holds pb Free (IsPublished pb)

abbrev pub Calm : Protobuf → World → Type 0
Calm pb = Holds pb Clear Anything

pub Published-IsAccounted : (pb : Protobuf) (w : World) → Published pb w → IsAccounted pb w
Published-IsAccounted pb w h = (h.ledger, λ _. h.there)

pub calm : {pb : Protobuf} {T : Trace → Type 0} (w : World) → Holds pb Clear T w → Calm pb w
calm w h = record { ledger = h.ledger; there = tt; flagged = h.flagged }

pub Clear-IsAccounted :
    {T : Trace → Type 0} (pb : Protobuf) (w : World) → Holds pb Clear T w → IsAccounted pb w
Clear-IsAccounted pb w h = (h.ledger, λ on. cc (on, h.flagged))

pub merged :
    {A : Type 0} (P : World → Type 0) (r : Result A) (w : World) → After (λ _. P) P (r, w) → P w
merged P (ok a) w h = h
merged P (err e) w h = h

pub both_ends : {A : Type 0} {P : World → Type 0} {m : M A} → Ends P m (λ _. P) P → Keeps P m
both_ends {P} {m} e = record { at = λ w h. merged P (m w).0 (m w).1 (e.at w h) }

-- From what is owed and sent to what is published.
pub all_sent :
    (pb : Protobuf) (records : List FdbMutationRecord) (t : Trace)
    → Owes pb records t
    → AllSent pb records t
    → IsPublished pb t
all_sent pb records t (reply, l, now, took, made) sent =
    subst (λ o. IsPublishedOf pb o t) (sym took) (l, now, records, made, sent)

module _ (pb : Protobuf) (env : Env) where
  pub update-Published : (f : Pipeline → Pipeline) → Keeps (Published pb) (Pipeline.update f)
  unfolding Pipeline.update
  update-Published f = record {
    at = λ w h. record { ledger = h.ledger; there = h.there; flagged = tt };
  }

  clear_outstanding-Published : Keeps (Published pb) Pipeline.clear_outstanding
  unfolding Pipeline.clear_outstanding
  clear_outstanding-Published = update-Published _

  stable : IsStable (IsPublished pb)
  stable = IsPublished-IsStable pb

  on_commit_error-Published :
      (again : M ⊤) (e : Exn)
      → Keeps (Published pb) again
      → Keeps (Published pb) (Pipeline.on_commit_error env again e)
  unfolding Pipeline.on_commit_error Pipeline.commit_failed
  on_commit_error-Published again (kafka_exception error) h =
      search
        (
          keeps_rules,
          clear_outstanding-Published,
          mark_fatal-Holds (stable.on_kafka) env,
          abort_and_raise-Holds (stable.on_kafka) env,
        )
        depth 12
  on_commit_error-Published again (runtime_error reason) h =
      search (keeps_rules, clear_outstanding-Published)
  on_commit_error-Published again e h = search keeps_rules

  commit_attempts-Published :
      (n : ℕ) (e : Exn) → Keeps (Published pb) (Pipeline.commit_attempts env n e)
  unfolding Pipeline.commit_attempts
  commit_attempts-Published zero e = record { at = λ w h. h }
  commit_attempts-Published (suc n) e = both_ends (
      Ends-attempt (Producer.commit_transaction env) _
        (Ends_of_Keeps (commit_transaction-Holds (stable.on_kafka) env))
        (λ e. Ends_of_Keeps (on_commit_error-Published _ e (commit_attempts-Published n e))))

  commit_if_outstanding-Published : Keeps (Published pb) (Pipeline.commit_if_outstanding env)
  unfolding Pipeline.commit_if_outstanding Pipeline.commit_with_retry
  commit_if_outstanding-Published =
      search (keeps_rules, commit_attempts-Published, update-Published) depth 12

  on_ack_error-Published :
      (again : M ⊤) (e : Exn)
      → Keeps (Published pb) again
      → Keeps (Published pb) (Pipeline.on_ack_error again e)
  unfolding Pipeline.on_ack_error
  on_ack_error-Published again (cdc (retryable code)) h = h
  on_ack_error-Published again e h = search keeps_rules

  ack_attempts-Published : (n : ℕ) (e : Exn) → Keeps (Published pb) (Pipeline.ack_attempts env n e)
  unfolding Pipeline.ack_attempts
  ack_attempts-Published zero e = record { at = λ w h. h }
  ack_attempts-Published (suc n) e = both_ends (
      Ends-attempt (Listener.acknowledge env) _
        (Ends_of_Keeps (acknowledge-Holds stable env (λ t k. k)))
        (λ e. Ends_of_Keeps (on_ack_error-Published _ e (ack_attempts-Published n e))))

  -- The position that was read last, and nothing else, is saved.
  get_position-Read :
      Ends
        (Published pb)
        (Listener.get_position env)
        (λ c. Holds pb Free (λ t. IsPublished pb t × IsLastRead c t))
        (Published pb)
  unfolding Listener.get_position Listener.native_position
  get_position-Read = Ends-then _ _ (Ends_of_Keeps (require_consumer-Holds stable env)) (record {
    at = λ w h.
        let outcome = env.get_position w.trace in
        after_cases _ _ outcome _
          (λ c e. record {
            ledger = h.ledger;
            there = (stable.on_position outcome w.trace h.there, e);
            flagged = tt;
          })
          (λ _ _. record {
            ledger = h.ledger;
            there = stable.on_position outcome w.trace h.there;
            flagged = tt;
          });
  })

  saved :
      (w : World) (c : Option Cursor) (reply : Result ⊤)
      → Holds pb Free (λ t. IsPublished pb t × IsLastRead c t) w
      → Published pb (record w { trace = Event.checkpoint_saved c reply ∷ w.trace })
  saved w c reply h = record {
    ledger = (h.there.1, h.ledger);
    there = stable.on_checkpoint c reply w.trace h.there.0;
    flagged = tt;
  }

  save_checkpoint-Read :
      (c : Option Cursor)
      → Ends
          (Holds pb Free (λ t. IsPublished pb t × IsLastRead c t))
          (Pipeline.save_checkpoint env c)
          (λ _. Published pb)
          (Published pb)
  unfolding Pipeline.save_checkpoint
  save_checkpoint-Read c = record {
    at = λ w h.
        let reply = env.checkpoint w.trace c in
        after_cases _ _ reply _ (λ _ _. saved w c reply h) (λ _ _. saved w c reply h);
  }

  checkpoint-Published : Keeps (Published pb) (Pipeline.checkpoint env)
  unfolding Pipeline.checkpoint
  checkpoint-Published = both_ends (
      Ends-bind _ _ get_position-Read
        λ c. Ends-then _ _ (save_checkpoint-Read c) (Ends_of_Keeps (update-Published _)))

  pub finish_delivery-Published : Keeps (Published pb) (Pipeline.finish_delivery env)
  unfolding Pipeline.finish_delivery Pipeline.checkpoint_and_acknowledge
      Pipeline.acknowledge_with_retry
  finish_delivery-Published =
      search
        (
          keeps_rules, commit_if_outstanding-Published, checkpoint-Published,
          ack_attempts-Published, update-Published,
        )
        depth 16
