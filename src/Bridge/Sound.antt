-- ===== src/Bridge/Sound.antt =====
-- The invariant of a bridge process: what the flags of its objects say of the monitor's status.
pub mod Flags
pub mod Kafka
pub mod Cdc
pub mod Held
pub mod Poll
pub mod Ack
pub mod Mode
pub mod Txn
pub mod Stages
pub mod Step
pub mod Turn
pub mod Session
use kafka_fdb_streamline.Common.{
  ⊤, ℕ, Bool, true, false, ◌&&◌, ◌||◌, not, Option, none, some, List, [], ◌∷◌, ◌++◌, ◌≡◌, refl,
  if◌then◌else◌, is_empty, arith, if_cases, subst, sym, ◌∙◌,
}
use kafka_fdb_streamline.Exec.{Result, ok, err}
use kafka_fdb_streamline.Exec.Keeps.{Keeps}
use kafka_fdb_streamline.World.{
  RdCall, Callback, delivery_report, client_error, Event, Env, Producer, Pipeline, World,
}
use kafka_fdb_streamline.Kafka.Producer.{on_callback, on_callbacks, rd}
use kafka_fdb_streamline.Bridge.Monitor.{Status, status, reports_failure}

abbrev pub status_of : World → Status
status_of w = status w.producer.transactional w.trace

-- The pipeline's own attributes are `p`, and no acknowledgement was out of turn. Without transactions a failed delivery stays on record. While a
-- reply awaits its acknowledgement, the consumer is there or the listener is closed.
pub record IsCore (p : Pipeline) (w : World) : Type 0 where
  pub pipeline : w.pipeline ≡ p
  pub safe : (status_of w).safe ≡ true
  pub linked :
      w.producer.transactional ≡ false
      → (status_of w).failed ≡ true
      → is_empty w.producer.delivery_errors ≡ false
  pub attached :
      w.listener.awaiting_ack ≡ true → (w.listener.consumer || w.listener.is_closed) ≡ true

transactional-on_callbacks :
    (p : Producer) (callbacks : List Callback)
    → (on_callbacks p callbacks).transactional ≡ p.transactional
unfolding on_callbacks
transactional-on_callbacks p [] = refl
transactional-on_callbacks p (delivery_report none ∷ rest) = transactional-on_callbacks p rest
transactional-on_callbacks p (delivery_report (some e) ∷ rest) =
    transactional-on_callbacks (on_callback p (delivery_report (some e))) rest
transactional-on_callbacks p (client_error e ∷ rest) =
    transactional-on_callbacks (on_callback p (client_error e)) rest

nonempty-append {ℓ} : {A : Type ℓ} (xs : List A) (x : A) → is_empty (xs ++ x ∷ []) ≡ false
nonempty-append [] x = refl
nonempty-append (y ∷ ys) x = refl

errors-on_callbacks :
    (p : Producer) (callbacks : List Callback)
    → is_empty p.delivery_errors ≡ false
    → is_empty (on_callbacks p callbacks).delivery_errors ≡ false
unfolding on_callbacks
errors-on_callbacks p [] h = h
errors-on_callbacks p (delivery_report none ∷ rest) h = errors-on_callbacks p rest h
errors-on_callbacks p (delivery_report (some e) ∷ rest) h =
    errors-on_callbacks (on_callback p (delivery_report (some e))) rest
      (nonempty-append p.delivery_errors e)
errors-on_callbacks p (client_error e ∷ rest) h =
    errors-on_callbacks (on_callback p (client_error e)) rest h

failure-on_callbacks :
    (p : Producer) (callbacks : List Callback)
    → reports_failure callbacks ≡ true
    → is_empty (on_callbacks p callbacks).delivery_errors ≡ false
unfolding on_callbacks
failure-on_callbacks p [] h = cc
failure-on_callbacks p (delivery_report none ∷ rest) h = failure-on_callbacks p rest h
failure-on_callbacks p (delivery_report (some e) ∷ rest) h =
    errors-on_callbacks (on_callback p (delivery_report (some e))) rest
      (nonempty-append p.delivery_errors e)
failure-on_callbacks p (client_error e ∷ rest) h =
    failure-on_callbacks (on_callback p (client_error e)) rest h

linked-on_callbacks :
    (p : Producer) (callbacks : List Callback) (failed : Bool)
    → (failed ≡ true → is_empty p.delivery_errors ≡ false)
    → (failed || reports_failure callbacks) ≡ true
    → is_empty (on_callbacks p callbacks).delivery_errors ≡ false
linked-on_callbacks p callbacks true h e = errors-on_callbacks p callbacks (h refl)
linked-on_callbacks p callbacks false h e = failure-on_callbacks p callbacks e

-- A call of librdkafka acknowledges nothing.
pub rd-IsCore : (p : Pipeline) (env : Env) (call : RdCall) → Keeps (IsCore p) (rd env call)
unfolding rd
rd-IsCore p env call = record {
  at = λ w h.
      let callbacks = (env.rd w.trace call).callbacks in
      let same = transactional-on_callbacks w.producer callbacks in
      if_cases (λ (x : Result ℕ × World). IsCore p x.1) w.producer.handle _ _
        (λ _. record {
          safe = subst (λ (b : Bool). (status b w.trace).safe ≡ true) (sym same) h.safe;
          linked = λ plain. linked-on_callbacks w.producer callbacks _ (λ f.
              h.linked (sym same ∙ plain)
                (subst (λ (b : Bool). (status b w.trace).failed ≡ true) same f));
          pipeline = h.pipeline;
          attached = h.attached;
        })
        (λ _. h);
}
