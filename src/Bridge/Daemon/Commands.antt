-- ===== src/Bridge/Daemon/Commands.antt =====
-- Starts, runs and stops of a bridge, in any order, over all of its generations.
use kafka_fdb_streamline.Common.{
  ⊤, ℕ, zero, suc, Bool, true, false, not, Option, none, some, List, [], ◌∷◌, ◌≡◌, refl, sym, subst,
  All, inl, inr, if_cases, ◌+◌, ◌∙◌, arith,
}
use kafka_fdb_streamline.Errors.{Exn}
use kafka_fdb_streamline.Exec.{Result, pure, ◌>>=◌, ◌>>◌}
use kafka_fdb_streamline.Exec.Keeps.{
  Keeps, Keeps-bind, Keeps-then, Keeps-gets, Keeps-if, Keeps-pure, Keeps-modify, Keeps-catch,
  Keeps-raise,
}
use kafka_fdb_streamline.Exec.Ends.{
  After, Ends, Ends_of_Keeps, Ends-weaken, Ends-bind, Ends-then, Ends-read,
}
use kafka_fdb_streamline.World.{World}
use kafka_fdb_streamline.Cdc.Listener
use kafka_fdb_streamline.Bridge.Monitor.{status}
use kafka_fdb_streamline.Bridge.Sound.Session.{close-IsSound}
use kafka_fdb_streamline.Bridge.Daemon.{Setup, Daemon, D, change, logged, request_shutdown}
use kafka_fdb_streamline.Bridge.Ledger.{Publishes}
use kafka_fdb_streamline.Bridge.Ledger.Finish.{pending}
use kafka_fdb_streamline.Bridge.Daemon.Orderly.{
  Published, Orderly, start-Orderly, run-Orderly, stop-Orderly,
}
use kafka_fdb_streamline.Bridge.Daemon.Build.{inside, start}
use kafka_fdb_streamline.Bridge.Daemon.Run.{run}
use kafka_fdb_streamline.Bridge.Daemon.Stop.{
  drop_all, raise_first, closing, close_all, finish_loop, finish_outstanding_commit, stop,
}
use kafka_fdb_streamline.Bridge.Daemon.Lift.{
  Safe, inside-Flagged, listener_close-Core, producer_close-Core, close_client-Core,
}
use kafka_fdb_streamline.Bridge.Daemon.Sound.{
  Live, Vacant, Dropped, IsBare, Held, Held-Core, there-Live, Ends-self, Dropped-Vacant,
}
use kafka_fdb_streamline.Bridge.Daemon.Session.{Ends-Keeps, step-Live, start-Held, run-Held}
use kafka_fdb_streamline.Bridge.Daemon.Finish.{read_monotonic-Live}

module _ (setup : Setup) where
  loop-Live : (fuel deadline : ℕ) → Keeps Live (finish_loop setup fuel deadline)
  unfolding finish_loop
  loop-Live zero deadline = Keeps-pure tt
  loop-Live (suc fuel) deadline = Keeps-bind _ _ (Keeps-gets _) λ d.
      Keeps-if _ _ _ (Keeps-pure tt) (
        Keeps-bind _ _ (read_monotonic-Live setup) λ now. Keeps-if _ _ _ (Keeps-pure tt) (
          Keeps-bind _ _
            (Keeps-catch _ _ (Keeps-then _ _ (step-Live setup) (Keeps-pure true))
              (λ e. Keeps-pure false))
            λ again. Keeps-if _ _ _ (loop-Live fuel deadline) (Keeps-pure tt)))

  finish-Held : (timeout : ℕ) → Keeps Held (finish_outstanding_commit setup timeout)
  unfolding finish_outstanding_commit pure
  finish-Held timeout = Ends-Keeps (
      Ends-self _ λ d h.
        if_cases (λ (m : D ⊤). After (λ _. Held) Held (m d)) (not d.has_pipeline) _ _ (λ _. h)
          (λ there.
            (Ends-weaken (λ _ _ live. inl live) (λ _ live. inl live)
                (Ends_of_Keeps (
                  Keeps-bind _ _ (read_monotonic-Live setup)
                    λ now. loop-Live 2 (now + timeout)))).at
              d (there-Live d h (ground arith))))

  closing-Dropped : (there : Bool) (m : D ⊤) → Keeps Dropped m → Keeps Dropped (closing there m)
  unfolding closing
  closing-Dropped false m kept = Keeps-pure none
  closing-Dropped true m kept =
      Keeps-catch _ _ (Keeps-then _ _ kept (Keeps-pure none)) (λ e. Keeps-pure (some e))

  raise_first-Dropped : (errors : List (Option Exn)) → Keeps Dropped (raise_first errors)
  unfolding raise_first
  raise_first-Dropped [] = Keeps-pure tt
  raise_first-Dropped (none ∷ rest) = raise_first-Dropped rest
  raise_first-Dropped (some e ∷ rest) = Keeps-raise e

  close_all-Dropped : (handles : Daemon) → Keeps Dropped (close_all setup handles)
  unfolding close_all
  close_all-Dropped handles =
      Keeps-bind _ _ (closing-Dropped _ _ (inside-Flagged setup IsBare _ producer_close-Core)) λ p.
        Keeps-bind _ _
          (closing-Dropped _ _ (inside-Flagged setup IsBare _ (λ env. listener_close-Core)))
          λ l.
            Keeps-bind _ _
              (closing-Dropped _ _ (inside-Flagged setup IsBare _ (λ env. close_client-Core)))
              λ c. raise_first-Dropped (p ∷ l ∷ c ∷ [])

  drop_all-Ends : {R : Daemon → Type 0} → Ends Held (change drop_all) (λ _. Dropped) R
  unfolding change drop_all
  drop_all-Ends = record { at = λ d h. (Held-Core d h, (refl, refl)) }

  -- Closing the listener leaves the flag of the reply as it is.
  close-awaiting :
      (w : World) → (Listener.close w).1.listener.awaiting_ack ≡ w.listener.awaiting_ack
  unfolding Listener.close Listener.update Listener.close_consumer ◌>>=◌ ◌>>◌
  close-awaiting w =
      if_cases
        (λ (m : World → Result ⊤ × World).
          (m (record w { listener = Listener.shut w.listener })).1.listener.awaiting_ack
          ≡ w.listener.awaiting_ack)
        w.listener.consumer _ _ (λ _. refl) (λ _. refl)

  close_listener-Held : Keeps Held (inside setup (λ env. Listener.close))
  unfolding inside
  close_listener-Held = record { at = closed }
    where
      closed : (d : Daemon) → Held d → Held (inside setup (λ env. Listener.close) d).1
      closed d (inl live) = inl ((live.0.0, close-IsSound.at d.world live.0.1), live.1)
      closed d (inr vacant) = inr (
        (vacant.0.0, listener_close-Core.at d.world vacant.0.1),
        vacant.1,
        λ there. close-awaiting d.world ∙ vacant.2 there,
      )

  stop-Ends :
      (at_once later : Bool) (timeout : ℕ)
      → Ends Held (stop setup at_once later timeout) (λ _. Dropped) Held
  unfolding stop change request_shutdown logged
  stop-Ends at_once later timeout = Ends-then _ _ (Ends_of_Keeps (Keeps-modify _ (λ d h. h))) (
      Ends-bind _ _ (Ends-read Held _) λ d.
        Ends-then _ _
          (Ends_of_Keeps (
            Keeps-if _ _ _ (Keeps-catch _ _ close_listener-Held (λ e. Keeps-pure tt))
              (Keeps-pure tt)))
          (Ends-then _ _ (Ends_of_Keeps (Keeps-if _ _ _ (finish-Held timeout) (Keeps-pure tt))) (
            Ends-bind _ _ (Ends-read Held _) λ handles. Ends-then _ _ drop_all-Ends (
              Ends-weaken (λ _ _ h. h) (λ d h. inr (Dropped-Vacant d h))
                (Ends_of_Keeps (close_all-Dropped handles))))))

  stop-Held : (at_once later : Bool) (timeout : ℕ) → Keeps Held (stop setup at_once later timeout)
  stop-Held at_once later timeout =
      Ends-Keeps (
        Ends-weaken (λ _ d h. inr (Dropped-Vacant d h)) (λ _ h. h)
          (stop-Ends at_once later timeout))

-- What is asked of a bridge. What a command raises is its caller's.
pub data Command : Type 0 where
  do_start : Command
  do_run : List Bool → Command
  do_stop : Bool → Bool → ℕ → Command

abbrev pub obey : Setup → Command → D ⊤
obey setup do_start = start setup
obey setup (do_run schedule) = run setup schedule
obey setup (do_stop at_once later timeout) = stop setup at_once later timeout

abbrev pub obey_all : Setup → List Command → Daemon → Daemon
obey_all setup [] d = d
obey_all setup (command ∷ rest) d = obey_all setup rest (obey setup command d).1

-- A bridge after its constructor: no pipeline, and no call made. A listener that was given to it awaits no
-- acknowledgement.
pub record IsConstructed (d : Daemon) : Type 0 where
  pub first : d.past ≡ []
  pub silent : d.world.trace ≡ []
  pub unstarted : d.has_pipeline ≡ false
  pub unmade : pending d.world.pipeline ≡ false
  pub fresh : d.world.listener.awaiting_ack ≡ false

IsConstructed-Vacant : (d : Daemon) → IsConstructed d → Vacant d
IsConstructed-Vacant d new = (
  (
    subst (All Safe) (sym new.first) tt,
    record {
      safe =
          subst (λ t. (status d.world.producer.transactional t).safe ≡ true) (sym new.silent) refl;
      linked = λ _ failed. cc (
        failed,
        subst (λ t. (status d.world.producer.transactional t).failed ≡ false) (sym new.silent) refl,
      );
      pipeline = refl;
      attached = λ waiting. cc (waiting, new.fresh);
    },
  ),
  new.unstarted,
  λ _. new.fresh,
)

obey-Held : (setup : Setup) (command : Command) → Keeps Held (obey setup command)
obey-Held setup do_start = start-Held setup
obey-Held setup (do_run schedule) = run-Held setup schedule
obey-Held setup (do_stop at_once later timeout) = stop-Held setup at_once later timeout

obey_all-Held :
    (setup : Setup) (commands : List Command) (d : Daemon)
    → Held d
    → Held (obey_all setup commands d)
obey_all-Held setup [] d h = h
obey_all-Held setup (command ∷ rest) d h =
    obey_all-Held setup rest _ ((obey-Held setup command).at d h)

obey-Orderly : (setup : Setup) (command : Command) → Keeps (Orderly setup) (obey setup command)
obey-Orderly setup do_start = start-Orderly setup
obey-Orderly setup (do_run schedule) = run-Orderly setup schedule
obey-Orderly setup (do_stop at_once later timeout) = stop-Orderly setup at_once later timeout

obey_all-Orderly :
    (setup : Setup) (commands : List Command) (d : Daemon)
    → Orderly setup d
    → Orderly setup (obey_all setup commands d)
obey_all-Orderly setup [] d h = h
obey_all-Orderly setup (command ∷ rest) d h =
    obey_all-Orderly setup rest _ ((obey-Orderly setup command).at d h)

IsConstructed-Orderly : (setup : Setup) (d : Daemon) → IsConstructed d → Orderly setup d
IsConstructed-Orderly setup d new = (
  subst (All (Published setup)) (sym new.first) tt,
  (subst (Publishes setup.pb) (sym new.silent) tt, λ on. cc (on, new.unmade)),
)

-- Whatever a constructed bridge is asked to do, in any order and however its calls are answered, each
-- generation of its pipeline acknowledges in turn, across every failed build and every rebuild: a native
-- acknowledgement is sent only if the consumer was resumed and nothing taken since, or librdkafka accepted
-- every record that the listener makes of the reply taken last, then confirmed them, and the cursor was
-- saved after that. Each cursor that is saved is the position that the binding gave last.
pub generations-Safe :
    (setup : Setup) (commands : List Command) (d : Daemon)
    → IsConstructed d
    → All Safe ((obey_all setup commands d).world ∷ (obey_all setup commands d).past)
      × All (Published setup) ((obey_all setup commands d).world ∷ (obey_all setup commands d).past)
generations-Safe setup commands d new =
    let core =
      Held-Core (obey_all setup commands d)
        (obey_all-Held setup commands d (inr (IsConstructed-Vacant d new))) in
    let orderly = obey_all-Orderly setup commands d (IsConstructed-Orderly setup d new) in
    ((core.1.safe, core.0), (orderly.1.0, orderly.0))
