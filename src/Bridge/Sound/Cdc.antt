-- ===== src/Bridge/Sound/Cdc.antt =====
-- The methods of the listener keep the invariant of the process; a native acknowledgement needs a
-- durable position, which a resume gives.
use kafka_fdb_streamline.Common.{
  ℕ, Bool, true, false, ◌&&◌, ◌||◌, ◌≡◌, refl, sym, subst, ◌∙◌, Option, none, some, ◌≢◌, ap,
  Bool-cases, inl, inr,
}
use kafka_fdb_streamline.Errors
use kafka_fdb_streamline.Errors.{Exn}
use kafka_fdb_streamline.Exec.{Result, ok, err, raise}
use kafka_fdb_streamline.Exec.Keeps.{
  Keeps, keeps_rules, Keeps-gets, Keeps-raise, Keeps-raise_if, Keeps-then, Returns, Returns-then,
  Returns-catch,
}
use kafka_fdb_streamline.Exec.Run.{Brings, Brings-bind, Brings-then, Brings-catch, then_at}
use kafka_fdb_streamline.World.{FdbCall, Cursor, Env, Listener, Pipeline, World, M}
use kafka_fdb_streamline.Cdc.Client
use kafka_fdb_streamline.Cdc.Client.Keeps.{
  open_client-Keeps, create_cdc_consumer-Keeps, resume_cdc_consumer-Keeps,
}
use kafka_fdb_streamline.Cdc.Listener
use kafka_fdb_streamline.Cdc.Listener.Keeps.{await_version-Keeps, register-Keeps}
use kafka_fdb_streamline.Bridge.Monitor.{Phase, durable, fdb_phase, is_durable}
use kafka_fdb_streamline.Bridge.Sound.{IsCore, status_of}
use kafka_fdb_streamline.Bridge.Sound.Held.{require_attached}

abbrev pub HasPhase : Phase → World → Type 0
HasPhase p w = (status_of w).phase ≡ p

fdb_phase-durable :
    (call : FdbCall) (outcome : Result _) (p : Phase)
    → p ≡ durable
    → fdb_phase call outcome p ≡ durable
fdb_phase-durable (FdbCall.fdb_resume_consumer cursor) (ok _) p h = refl
fdb_phase-durable (FdbCall.fdb_resume_consumer cursor) (err _) p h = h
fdb_phase-durable _ outcome p h = h

abbrev pub IsAttached : Listener → Type 0
IsAttached l = l.awaiting_ack ≡ true → (l.consumer || l.is_closed) ≡ true

pub awaiting-after_wait :
    (b : Bool) (l : Listener) → (Listener.after_wait b l).awaiting_ack ≡ l.awaiting_ack
awaiting-after_wait true l = refl
awaiting-after_wait false l = refl

pub after_wait-IsAttached :
    (b : Bool) (l : Listener) → IsAttached l → IsAttached (Listener.after_wait b l)
after_wait-IsAttached true l h waiting = refl
after_wait-IsAttached false l h waiting = h waiting

pub both_true : (a b : Bool) → a ≡ true → b ≡ true → (a && b) ≡ true
both_true a b h k = rw (h, k)

abbrev Any : World → Type 0
Any _ = Unit

translate-raises :
    {A : Type 0} (e : Exn) (w : World) (a : A)
    → (Client.translate_cdc_runtime_error {A = A} e w).0 ≢ ok a
unfolding Client.translate_cdc_runtime_error raise
translate-raises (Exn.runtime_error (Errors.RuntimeReason.binding text)) w a = λ q. cc q
translate-raises _ w a = λ q. cc q

returns-Any : {A : Type 0} (m : M A) → Returns Any m (λ _. Any)
returns-Any m = record { at = λ _ _ _ _. tt }

fdb_resume-durable :
    (env : Env) (cursor : Cursor)
    → Returns Any (Client.fdb env (FdbCall.fdb_resume_consumer cursor)) (λ _. HasPhase durable)
unfolding Client.fdb
fdb_resume-durable env cursor = record {
  at = λ w _ a e. ap (λ r. fdb_phase (FdbCall.fdb_resume_consumer cursor) r (status_of w).phase) e;
}

resume-durable :
    (env : Env) (cursor : Cursor)
    → Returns Any (Client.resume_cdc_consumer env cursor) (λ _. HasPhase durable)
unfolding Client.resume_cdc_consumer
resume-durable env cursor = Returns-then _ _ (returns-Any _) λ _.
    Returns-then _ _ (returns-Any _) λ _.
      Returns-catch _ _ (Returns-then _ _ (returns-Any _) λ _. fdb_resume-durable env cursor)
        translate-raises

module _ (p : Pipeline) where
  -- No reply awaits its acknowledgement, so that the listener may start.
  abbrev pub IsFresh : World → Type 0
  IsFresh w = IsCore p w × (w.listener.awaiting_ack ≡ false)

  abbrev IsResumed : World → Type 0
  IsResumed w = IsFresh w × HasPhase durable w

  pub fdb-IsFresh : (env : Env) (call : FdbCall) → Keeps IsFresh (Client.fdb env call)
  unfolding Client.fdb
  fdb-IsFresh env call = record {
    at = λ w h. (
      record {
        safe = h.0.safe;
        linked = h.0.linked;
        pipeline = h.0.pipeline;
        attached = h.0.attached;
      },
      h.1,
    );
  }

  fdb-IsResumed : (env : Env) (call : FdbCall) → Keeps IsResumed (Client.fdb env call)
  unfolding Client.fdb
  fdb-IsResumed env call = record {
    at = λ w h. ((fdb-IsFresh env call).at w h.0, fdb_phase-durable call _ _ h.1);
  }

  pub set_db-IsFresh : (b : Bool) → Keeps IsFresh (Client.set_db b)
  unfolding Client.set_db
  set_db-IsFresh b = record {
    at = λ w h. (
      record {
        safe = h.0.safe;
        linked = h.0.linked;
        pipeline = h.0.pipeline;
        attached = h.0.attached;
      },
      h.1,
    );
  }

  set_db-IsResumed : (b : Bool) → Keeps IsResumed (Client.set_db b)
  unfolding Client.set_db
  set_db-IsResumed b = record { at = λ w h. ((set_db-IsFresh b).at w h.0, h.1) }

  read_monotonic-IsResumed : (env : Env) → Keeps IsResumed (Listener.read_monotonic env)
  unfolding Listener.read_monotonic
  read_monotonic-IsResumed env = record {
    at = λ w h. (
      (
        record {
          safe = h.0.0.safe;
          linked = h.0.0.linked;
          pipeline = h.0.0.pipeline;
          attached = h.0.0.attached;
        },
        h.0.1,
      ),
      h.1,
    );
  }

  sleep-IsResumed : (ticks : ℕ) → Keeps IsResumed (Listener.sleep ticks)
  unfolding Listener.sleep
  sleep-IsResumed ticks = record {
    at = λ w h. (
      (
        record {
          safe = h.0.0.safe;
          linked = h.0.0.linked;
          pipeline = h.0.0.pipeline;
          attached = h.0.0.attached;
        },
        h.0.1,
      ),
      h.1,
    );
  }

  close_consumer-IsFresh : Keeps IsFresh Listener.close_consumer
  unfolding Listener.close_consumer
  close_consumer-IsFresh = record {
    at = λ w h. (
      record {
        safe = h.0.safe;
        linked = h.0.linked;
        pipeline = h.0.pipeline;
        attached = h.0.attached;
      },
      h.1,
    );
  }

  -- What a listener may become that holds on to the invariant.
  listener-IsFresh :
      (f : Listener → Listener)
      → ((l : Listener) → (f l).awaiting_ack ≡ l.awaiting_ack)
      → Keeps IsFresh (Listener.update f)
  unfolding Listener.update
  listener-IsFresh f same = record {
    at = λ w h. (
      record {
        safe = h.0.safe;
        linked = h.0.linked;
        pipeline = h.0.pipeline;
        attached = λ waiting. cc (waiting, same w.listener, h.1);
      },
      same w.listener ∙ h.1,
    );
  }

  -- A native acknowledgement of a durable position.
  native_acknowledge-Brings :
      (env : Env) → Brings IsResumed (Listener.native_acknowledge env) IsFresh
  unfolding Listener.native_acknowledge
  native_acknowledge-Brings env = record {
    at = λ w h. (
      record {
        safe = both_true _ _ h.0.0.safe (ap is_durable h.1);
        linked = h.0.0.linked;
        pipeline = h.0.0.pipeline;
        attached = after_wait-IsAttached _ w.listener h.0.0.attached;
      },
      awaiting-after_wait _ w.listener ∙ h.0.1,
    );
  }

  reconcile-Brings :
      (env : Env) (cursor : Cursor) → Brings IsResumed (Listener.reconcile env cursor) IsFresh
  unfolding Listener.reconcile
  reconcile-Brings env cursor =
      Brings-bind (λ _ h. h.0) _ _ (read_monotonic-IsResumed env)
        λ start_time.
          Brings-bind (λ _ h. h.0) _ _ (Keeps-gets _)
            λ timeout.
              Brings-then (λ _ h. h.0) _ _
                (await_version-Keeps env (fdb-IsResumed env) set_db-IsResumed
                  (read_monotonic-IsResumed env) sleep-IsResumed _ _ _)
                (Brings-catch _ _
                  (Brings-bind (λ _ h. h.0) _ _ (Keeps-gets _)
                    λ closed.
                      Brings-then (λ _ h. h.0) _ _ (Keeps-raise_if _ _)
                        (native_acknowledge-Brings env))
                  (λ e. Keeps-raise _))

  set_consumer-IsFresh : (b : Bool) → Keeps IsFresh (Listener.set_consumer b)
  unfolding Listener.set_consumer
  set_consumer-IsFresh b = listener-IsFresh _ (λ l. refl)

  set_consumer-IsResumed : (b : Bool) → Keeps IsResumed (Listener.set_consumer b)
  unfolding Listener.set_consumer Listener.update
  set_consumer-IsResumed b = record {
    at = λ w h. ((listener-IsFresh (λ l. record l { consumer = b }) (λ l. refl)).at w h.0, h.1);
  }

  abandon-IsFresh : (e : Exn) → Keeps IsFresh (Listener.abandon e)
  unfolding Listener.abandon
  abandon-IsFresh e = search (keeps_rules, set_consumer-IsFresh, close_consumer-IsFresh) depth 8

  attach-IsFresh : (env : Env) (cursor : Option Cursor) → Keeps IsFresh (Listener.attach env cursor)
  unfolding Listener.attach
  attach-IsFresh env none =
      search
        (
          keeps_rules,
          create_cdc_consumer-Keeps env (fdb-IsFresh env) set_db-IsFresh,
          set_consumer-IsFresh,
        )
        depth 8
  attach-IsFresh env (some cursor) = record {
    at = λ w h.
        let resumed =
          (resume_cdc_consumer-Keeps env (fdb-IsFresh env) set_db-IsFresh cursor).at w h in
        then_at (λ x. IsFresh x.1) (Client.resume_cdc_consumer env cursor) _ w
          (λ n e.
            (Brings-then (λ _ k. k.0) _ _ (set_consumer-IsResumed true)
                (Brings-catch _ _ (reconcile-Brings env cursor) abandon-IsFresh)).at
              _ (resumed, (resume-durable env cursor).at w tt n e))
          (λ _ _. resumed);
  }

  start_detached-IsFresh :
      (env : Env) (l : Listener) → Keeps IsFresh (Listener.start_detached env l)
  unfolding Listener.start_detached
  start_detached-IsFresh env l = Keeps-then _ _ (Keeps-raise_if _ _) (
      Keeps-then _ _ (open_client-Keeps env (fdb-IsFresh env) set_db-IsFresh) (
        Keeps-then _ _ (register-Keeps env (fdb-IsFresh env) set_db-IsFresh _)
          (attach-IsFresh env _)))

  pub start-IsFresh : (env : Env) → Keeps IsFresh (Listener.start env)
  unfolding Listener.start
  start-IsFresh env = search (keeps_rules, start_detached-IsFresh) depth 8

  require-IsFresh : (env : Env) → Keeps IsFresh (Listener.require_consumer env)
  unfolding Listener.require_consumer
  require-IsFresh env = search (keeps_rules, start-IsFresh) depth 8

  pub require_consumer-IsCore : (env : Env) → Keeps (IsCore p) (Listener.require_consumer env)
  require_consumer-IsCore env = record {
    at = λ w h. elim (Bool-cases w.listener.awaiting_ack) [
      | inl waiting ↦ subst (IsCore p) (sym (require_attached env w (h.attached waiting))) h
      | inr fresh ↦ ((require-IsFresh env).at w (h, fresh)).0
    ];
  }
