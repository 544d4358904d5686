-- ===== src/Bridge/Sound/Mode.antt =====
-- What the producer does to a reply that awaits its acknowledgement, in either mode.
use kafka_fdb_streamline.Common.{ℕ, Bool, ◌≡◌, sym, subst, ◌∙◌, if_cases}
use kafka_fdb_streamline.Errors.{Exn}
use kafka_fdb_streamline.Exec.{Result, ok, err}
use kafka_fdb_streamline.Exec.Ends.{After, after_cases, Ends}
use kafka_fdb_streamline.World.{RdCall, Env, Pipeline, World}
use kafka_fdb_streamline.Kafka.Producer
use kafka_fdb_streamline.Bridge.Monitor.{Phase, kafka_phase, status}
use kafka_fdb_streamline.Bridge.Sound.{IsCore, status_of, rd-IsCore, transactional-on_callbacks}
use kafka_fdb_streamline.Bridge.Sound.Kafka.{HasMode, rd-HasMode}
use kafka_fdb_streamline.Bridge.Sound.Ack.{IsWaiting}

-- A waiting reply in phase `phase`, in mode `b`.
pub record InMode (p : Pipeline) (b : Bool) (phase : Phase) (w : World) : Type 0 where
  pub waiting : IsWaiting p phase w
  pub mode : HasMode b w

phase_after :
    (f : Bool) (call : RdCall) {m b : Bool} {r s : Result ℕ} {x y : Phase}
    → m ≡ b
    → r ≡ s
    → x ≡ y
    → kafka_phase m f call r x ≡ kafka_phase b f call s y
phase_after f call mb rs xy = cc (mb, rs, xy)

-- No refusal of the call changes the phase.
abbrev pub IsCalm : Bool → RdCall → Phase → Type 0
IsCalm b call phase = (f : Bool) (e : Exn) → kafka_phase b f call (err e) phase ≡ phase

module _ (p : Pipeline) (b : Bool) (phase : Phase) where
  abbrev pub AfterCall : RdCall → ℕ → World → Type 0
  AfterCall call n w = InMode p b (kafka_phase b (status_of w).failed call (ok n) phase) w

  abbrev pub AfterRefusal : RdCall → World → Type 0
  AfterRefusal call w = IsCore p w × (IsCalm b call phase → InMode p b phase w)

  pub rd-Ends :
      (env : Env) (call : RdCall)
      → Ends (InMode p b phase) (Producer.rd env call) (AfterCall call) (AfterRefusal call)
  unfolding Producer.rd
  rd-Ends env call = record {
    at = λ w h.
        let reply = env.rd w.trace call in
        let same = transactional-on_callbacks w.producer reply.callbacks in
        let core = (rd-IsCore p env call).at w h.waiting.core in
        let mode = (rd-HasMode b env call).at w h.mode in
        if_cases (λ x. IsCore p x.1 → HasMode b x.1 → After (AfterCall call) (AfterRefusal call) x)
          w.producer.handle _ _
          (λ _ core mode.
            let phased =
              subst (λ (m : Bool). (status m w.trace).phase ≡ phase) (sym same) h.waiting.phased in
            after_cases (AfterCall call) (AfterRefusal call) reply.outcome _
              (λ n e. record {
                waiting = record {
                  core = core;
                  awaiting = h.waiting.awaiting;
                  phased = phase_after _ call mode e phased;
                };
                mode = mode;
              })
              (λ x e. (
                core,
                λ calm. record {
                  waiting = record {
                    core = core;
                    awaiting = h.waiting.awaiting;
                    phased = phase_after _ call mode e phased ∙ calm _ x;
                  };
                  mode = mode;
                },
              )))
          (λ _ core mode. (core, λ _. h)) core mode;
  }
