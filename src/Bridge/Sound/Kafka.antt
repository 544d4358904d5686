-- ===== src/Bridge/Sound/Kafka.antt =====
-- The methods of the producer keep the invariant of the process, and its mode.
use kafka_fdb_streamline.Common.{
  ℕ, Bool, true, false, ◌≡◌, sym, subst, ◌∙◌, Option, List, Bool-cases, inl, inr, if_cases, arith,
  is_empty,
}
use kafka_fdb_streamline.Exec.{Result, ◌>>◌}
use kafka_fdb_streamline.Exec.Keeps.{Keeps}
use kafka_fdb_streamline.Serialization.Model.{Bytes}
use kafka_fdb_streamline.Serialization.Message.{FdbMutationRecord, Protobuf}
use kafka_fdb_streamline.World.{RdCall, Env, Producer, Pipeline, World}
use kafka_fdb_streamline.Kafka.Producer
use kafka_fdb_streamline.Kafka.Producer.Keeps.{
  IsPlain, commit_transaction-Keeps, abort_transaction-Keeps, produce-Keeps, flush_or_raise-Keeps,
  begin_transaction-Keeps, close-Keeps, mark_fatal-Keeps,
}
use kafka_fdb_streamline.Bridge.Monitor.{status}
use kafka_fdb_streamline.Bridge.Sound.{IsCore, rd-IsCore, transactional-on_callbacks}

-- The mode of the producer is `b`.
abbrev pub HasMode : Bool → World → Type 0
HasMode b w = w.producer.transactional ≡ b

module _ (b : Bool) where
  pub rd-HasMode : (env : Env) (call : RdCall) → Keeps (HasMode b) (Producer.rd env call)
  unfolding Producer.rd
  rd-HasMode env call = record {
    at = λ w h.
        if_cases (λ (x : Result ℕ × World). HasMode b x.1) w.producer.handle _ _
          (λ _. transactional-on_callbacks w.producer (env.rd w.trace call).callbacks ∙ h) (λ _. h);
  }

  pub update-HasMode : (f : Producer → Producer) → IsPlain f → Keeps (HasMode b) (Producer.update f)
  unfolding Producer.update
  update-HasMode f plain = record { at = λ w h. plain.mode w.producer ∙ h }

module _ (p : Pipeline) where
  pub update-IsCore : (f : Producer → Producer) → IsPlain f → Keeps (IsCore p) (Producer.update f)
  unfolding Producer.update
  update-IsCore f plain = record {
    at = λ w h.
        let same = plain.mode w.producer in
        record {
          safe = subst (λ (b : Bool). (status b w.trace).safe ≡ true) (sym same) h.safe;
          linked = λ off failed.
              subst (λ (errors : List _). is_empty errors ≡ false) (sym (plain.errors w.producer))
                (h.linked (sym same ∙ off)
                  (subst (λ (b : Bool). (status b w.trace).failed ≡ true) same failed));
          pipeline = h.pipeline;
          attached = h.attached;
        };
  }

  -- The invariant of a transactional process.
  abbrev pub InTransactions : World → Type 0
  InTransactions w = IsCore p w × HasMode true w

  rd-InTransactions : (env : Env) (call : RdCall) → Keeps InTransactions (Producer.rd env call)
  rd-InTransactions env call = record {
    at = λ w h. ((rd-IsCore p env call).at w h.0, (rd-HasMode true env call).at w h.1);
  }

  update-InTransactions :
      (f : Producer → Producer) → IsPlain f → Keeps InTransactions (Producer.update f)
  update-InTransactions f plain = record {
    at = λ w h. ((update-IsCore f plain).at w h.0, (update-HasMode true f plain).at w h.1);
  }

  over-InTransactions : Keeps InTransactions (Producer.update Producer.transaction_over)
  unfolding Producer.update Producer.transaction_over
  over-InTransactions = record {
    at = λ w h. (
      record {
        safe = h.0.safe;
        linked = λ off failed. cc (h.1, off);
        pipeline = h.0.pipeline;
        attached = h.0.attached;
      },
      h.1,
    );
  }

  module _ (env : Env) (w : World) (off : w.producer.transactional ≡ false) where
    -- Without a transactional id the transaction methods raise before they do anything.
    commit_refused : (Producer.commit_transaction env w).1 ≡ w
    unfolding Producer.commit_transaction Producer.require_transactional ◌>>◌
    commit_refused = ground arith

    abort_refused : (Producer.abort_transaction env w).1 ≡ w
    unfolding Producer.abort_transaction Producer.require_transactional ◌>>◌
    abort_refused = ground arith

  module _ (env : Env) where
    pub commit_transaction-IsCore : Keeps (IsCore p) (Producer.commit_transaction env)
    commit_transaction-IsCore = record {
      at = λ w h. elim (Bool-cases w.producer.transactional) [
        | inl on ↦
            ((commit_transaction-Keeps env (rd-InTransactions env) update-InTransactions
                over-InTransactions).at
              w (h, on)).0
        | inr off ↦ subst (IsCore p) (sym (commit_refused env w off)) h
      ];
    }

    pub abort_transaction-IsCore : Keeps (IsCore p) (Producer.abort_transaction env)
    abort_transaction-IsCore = record {
      at = λ w h. elim (Bool-cases w.producer.transactional) [
        | inl on ↦
            ((abort_transaction-Keeps env (rd-InTransactions env) update-InTransactions
                over-InTransactions).at
              w (h, on)).0
        | inr off ↦ subst (IsCore p) (sym (abort_refused env w off)) h
      ];
    }

    pub produce-IsCore :
        (pb : Protobuf) (topic : Bytes) (message : FdbMutationRecord) (key : Option Bytes)
        → Keeps (IsCore p) (Producer.produce env pb topic message key)
    produce-IsCore = produce-Keeps env (rd-IsCore p env) update-IsCore

    pub flush_or_raise-IsCore : Keeps (IsCore p) (Producer.flush_or_raise env)
    flush_or_raise-IsCore = flush_or_raise-Keeps env (rd-IsCore p env) update-IsCore

    pub begin_transaction-IsCore : Keeps (IsCore p) (Producer.begin_transaction env)
    begin_transaction-IsCore = begin_transaction-Keeps env (rd-IsCore p env) update-IsCore

    pub close-IsCore : Keeps (IsCore p) (Producer.close env)
    close-IsCore = close-Keeps env (rd-IsCore p env) update-IsCore

    pub mark_fatal-IsCore : Keeps (IsCore p) Producer.mark_fatal
    mark_fatal-IsCore = mark_fatal-Keeps env (rd-IsCore p env) update-IsCore
