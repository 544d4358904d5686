-- ===== src/Bridge/Daemon/Orderly.antt =====
-- The ledger of every generation stays in order, whatever a bridge is asked to do.
use kafka_fdb_streamline.Common.{
  ⊤, ℕ, zero, suc, ◌+◌, Bool, true, false, Option, none, some, List, [], ◌∷◌, All, sym, subst, ap,
}
use kafka_fdb_streamline.Errors.{Exn}
use kafka_fdb_streamline.Exec.{Result}
use kafka_fdb_streamline.Exec.Keeps.{
  Keeps, Keeps-bind, Keeps-then, Keeps-gets, Keeps-if, Keeps-pure, Keeps-modify, Keeps-catch,
  Keeps-raise, Keeps-lift, Keeps-raise_if,
}
use kafka_fdb_streamline.Serialization.Message.{FdbMutationRecord}
use kafka_fdb_streamline.World.{Env, World, M}
use kafka_fdb_streamline.Cdc.Listener
use kafka_fdb_streamline.Bridge.Construct as PipelineConstruct
use kafka_fdb_streamline.Bridge.Ledger.{Publishes}
use kafka_fdb_streamline.Bridge.Ledger.Finish.{pending, IsAccounted}
use kafka_fdb_streamline.Bridge.Ledger.Session.{step-IsAccounted, close-IsAccounted}
use kafka_fdb_streamline.Bridge.Ledger.Process.{
  producer_close-IsAccounted, init_transactions-IsAccounted, open_client-IsAccounted,
  close_client-IsAccounted, start-IsAccounted, read_monotonic-IsAccounted,
}
use kafka_fdb_streamline.Bridge.Daemon.{
  Setup, Daemon, D, change, logged, request_shutdown, drop_pipeline, drop_listener, drop_producer,
}
use kafka_fdb_streamline.Bridge.Daemon.Build.{
  inside, discard, begin_generation, open_new_client, start_new_listener, make_producer,
  build_parts, assemble, build, start, rebuild, step,
}
use kafka_fdb_streamline.Bridge.Daemon.Run.{
  pop_records, count_step, on_error, try_step, turn, turns, run,
}
use kafka_fdb_streamline.Bridge.Daemon.Stop.{
  drop_all, raise_first, closing, close_all, finish_loop, finish_outstanding_commit, stop,
}
use kafka_fdb_streamline.Bridge.Daemon.Lift.{lift-Keeps}
use kafka_fdb_streamline.Bridge.Daemon.Counting.{step-step}

module _ (setup : Setup) where
  abbrev pub Published : World → Type 0
  Published w = Publishes setup.pb w.trace

  -- The generations before have their ledgers in order, and the current objects are accounted.
  abbrev pub Orderly : Daemon → Type 0
  Orderly d = All Published d.past × IsAccounted setup.pb d.world

  inside-Orderly :
      {A : Type 0} (m : Env → M A)
      → ((env : Env) → Keeps (IsAccounted setup.pb) (m env))
      → Keeps Orderly (inside setup m)
  unfolding inside
  inside-Orderly m kept = record { at = λ d h. (h.0, (kept _).at d.world h.1) }

  change-Orderly :
      (f : Daemon → Daemon) → ((d : Daemon) → Orderly d → Orderly (f d)) → Keeps Orderly (change f)
  unfolding change
  change-Orderly f h = Keeps-modify f h

  logged-Orderly : (m : D ⊤) → Keeps Orderly m → Keeps Orderly (logged m)
  unfolding logged
  logged-Orderly m kept = Keeps-catch _ _ kept (λ e. Keeps-pure tt)

  close_listener-Orderly : Keeps Orderly (inside setup (λ env. Listener.close))
  close_listener-Orderly = inside-Orderly _ (close-IsAccounted setup.pb)

  discard-Orderly : Keeps Orderly (discard setup)
  unfolding discard drop_pipeline drop_listener drop_producer
  discard-Orderly = Keeps-then _ _ (change-Orderly _ (λ d h. h)) (
      Keeps-bind _ _ (Keeps-gets _) λ d.
        Keeps-then _ _ (Keeps-if _ _ _ (logged-Orderly _ close_listener-Orderly) (Keeps-pure tt)) (
          Keeps-then _ _ (change-Orderly _ (λ d h. h)) (
            Keeps-then _ _
              (Keeps-if _ _ _
                (logged-Orderly _ (inside-Orderly _ (producer_close-IsAccounted setup.pb)))
                (Keeps-pure tt))
              (change-Orderly _ (λ d h. h)))))

  begin_generation-Orderly : Keeps Orderly (begin_generation setup)
  unfolding begin_generation
  begin_generation-Orderly = record { at = λ d h. ((h.1.0, h.0), (tt, λ on. cc)) }

  open_new_client-Orderly : Keeps Orderly (open_new_client setup)
  unfolding open_new_client
  open_new_client-Orderly = Keeps-then _ _ (change-Orderly _ (λ d h. h)) (
      Keeps-then _ _ (inside-Orderly _ (open_client-IsAccounted setup.pb))
        (change-Orderly _ (λ d h. h)))

  start_new_listener-Orderly : Keeps Orderly (start_new_listener setup)
  unfolding start_new_listener
  start_new_listener-Orderly = Keeps-bind _ _ (Keeps-gets _) λ d.
      Keeps-bind _ _ (Keeps-lift _) λ cursor. Keeps-bind _ _ (Keeps-lift _) λ l.
        Keeps-then _ _ (change-Orderly _ (λ d h. h)) (inside-Orderly _ (start-IsAccounted setup.pb))

  make_producer-Orderly : Keeps Orderly (make_producer setup)
  unfolding make_producer
  make_producer-Orderly =
      Keeps-bind _ _ (Keeps-gets _) λ d. Keeps-then _ _ (Keeps-lift _) (change-Orderly _ (λ d h. h))

  build_parts-Orderly : Keeps Orderly (build_parts setup)
  unfolding build_parts
  build_parts-Orderly = Keeps-bind _ _ (Keeps-gets _) λ d.
      Keeps-then _ _ (Keeps-if _ _ _ (Keeps-pure tt) open_new_client-Orderly) (
        Keeps-then _ _ (Keeps-if _ _ _ (Keeps-pure tt) start_new_listener-Orderly) (
          Keeps-then _ _ (Keeps-if _ _ _ (Keeps-pure tt) make_producer-Orderly) (
            Keeps-bind _ _ (Keeps-gets _) λ transactional.
              Keeps-if _ _ _ (inside-Orderly _ (init_transactions-IsAccounted setup.pb))
                (Keeps-pure tt))))

  -- The flags of a pipeline that was just made are clear.
  assemble-Orderly : Keeps Orderly (assemble setup)
  unfolding assemble
  assemble-Orderly = Keeps-then _ _ (change-Orderly _ (λ d h. h)) (
      Keeps-bind _ _ (Keeps-lift _) λ name. Keeps-bind _ _ (Keeps-gets _) λ l.
        lift-Keeps _ _ λ p made. change-Orderly _ (λ d h. (
          h.0,
          (
            h.1.0,
            λ on. cc (on, ap pending (PipelineConstruct.construct-IsReady l _ p made).resting),
          ),
        )))

  build-Orderly : Keeps Orderly (build setup)
  unfolding build
  build-Orderly = Keeps-then _ _ begin_generation-Orderly (
      Keeps-then _ _
        (Keeps-catch _ _ build_parts-Orderly (λ e. Keeps-then _ _ discard-Orderly (Keeps-raise e)))
        assemble-Orderly)

  pub start-Orderly : Keeps Orderly (start setup)
  unfolding start
  start-Orderly =
      Keeps-bind _ _ (Keeps-gets _)
        λ d. Keeps-if _ _ _ (Keeps-pure tt) (Keeps-then _ _ (Keeps-raise_if _ _) build-Orderly)

  rebuild-Orderly : Keeps Orderly (rebuild setup)
  unfolding rebuild
  rebuild-Orderly =
      Keeps-bind _ _ (Keeps-gets _)
        λ d. Keeps-if _ _ _ (Keeps-pure tt) (Keeps-then _ _ discard-Orderly build-Orderly)

  step-Orderly : Keeps Orderly (step setup)
  step-Orderly = record {
    at = λ d h.
        let (run, rest) = step-step setup d in
        (
          subst (All Published) (sym rest.past) h.0,
          subst (IsAccounted setup.pb) (sym (ap (λ (y : Result ℕ × World). y.1) run))
              ((step-IsAccounted setup.pb _).at d.world h.1),
        );
  }

  pop-Orderly : (n : ℕ) → Keeps Orderly (pop_records n)
  unfolding pop_records
  pop-Orderly zero = Keeps-pure []
  pop-Orderly (suc _) =
      Keeps-bind _ _ (Keeps-gets _)
        λ records. Keeps-then _ _ (change-Orderly _ (λ d h. h)) (Keeps-pure records)

  count-Orderly : (n : ℕ) (records : List FdbMutationRecord) → Keeps Orderly (count_step n records)
  unfolding count_step
  count-Orderly zero records = Keeps-pure tt
  count-Orderly (suc n) records = change-Orderly _ (λ d h. h)

  try_step-Orderly : Keeps Orderly (try_step setup)
  unfolding try_step
  try_step-Orderly = Keeps-bind _ _ (Keeps-gets _) λ d.
      Keeps-then _ _ (Keeps-if _ _ _ rebuild-Orderly (Keeps-pure tt)) (
        Keeps-then _ _ (change-Orderly _ (λ d h. h)) (
          Keeps-bind _ _ step-Orderly λ published.
            Keeps-bind _ _ (pop-Orderly published) λ records. count-Orderly published records))

  on_error-Orderly : (e : Exn) → Keeps Orderly (on_error e)
  unfolding on_error request_shutdown
  on_error-Orderly e =
      Keeps-if _ _ _ (Keeps-then _ _ (change-Orderly _ (λ d h. h)) (Keeps-raise e))
        (change-Orderly _ (λ d h. h))

  turn-Orderly : (requested : Bool) → Keeps Orderly (turn setup requested)
  unfolding turn
  turn-Orderly requested = Keeps-then _ _ (change-Orderly _ (λ d h. h)) (
      Keeps-bind _ _ (Keeps-gets _)
        λ d. Keeps-if _ _ _ (Keeps-pure tt) (Keeps-catch _ _ try_step-Orderly on_error-Orderly))

  turns-Orderly : (schedule : List Bool) → Keeps Orderly (turns setup schedule)
  unfolding turns
  turns-Orderly [] = Keeps-pure tt
  turns-Orderly (requested ∷ rest) = Keeps-then _ _ (turn-Orderly requested) (turns-Orderly rest)

  pub run-Orderly : (schedule : List Bool) → Keeps Orderly (run setup schedule)
  unfolding run
  run-Orderly schedule = Keeps-bind _ _ (Keeps-gets _) λ d.
      Keeps-then _ _ (Keeps-raise_if _ _)
        (Keeps-then _ _ (change-Orderly _ (λ d h. h)) (turns-Orderly schedule))

  loop-Orderly : (fuel deadline : ℕ) → Keeps Orderly (finish_loop setup fuel deadline)
  unfolding finish_loop
  loop-Orderly zero deadline = Keeps-pure tt
  loop-Orderly (suc fuel) deadline = Keeps-bind _ _ (Keeps-gets _) λ d.
      Keeps-if _ _ _ (Keeps-pure tt) (
        Keeps-bind _ _ (inside-Orderly _ (read_monotonic-IsAccounted setup.pb)) λ now.
          Keeps-if _ _ _ (Keeps-pure tt) (
            Keeps-bind _ _
              (Keeps-catch _ _ (Keeps-then _ _ step-Orderly (Keeps-pure true))
                (λ e. Keeps-pure false))
              λ again. Keeps-if _ _ _ (loop-Orderly fuel deadline) (Keeps-pure tt)))

  finish-Orderly : (timeout : ℕ) → Keeps Orderly (finish_outstanding_commit setup timeout)
  unfolding finish_outstanding_commit
  finish-Orderly timeout = Keeps-bind _ _ (Keeps-gets _) λ d. Keeps-if _ _ _ (Keeps-pure tt) (
      Keeps-bind _ _ (inside-Orderly _ (read_monotonic-IsAccounted setup.pb))
        λ now. loop-Orderly 2 (now + timeout))

  closing-Orderly : (there : Bool) (m : D ⊤) → Keeps Orderly m → Keeps Orderly (closing there m)
  unfolding closing
  closing-Orderly false m kept = Keeps-pure none
  closing-Orderly true m kept =
      Keeps-catch _ _ (Keeps-then _ _ kept (Keeps-pure none)) (λ e. Keeps-pure (some e))

  raise_first-Orderly : (errors : List (Option Exn)) → Keeps Orderly (raise_first errors)
  unfolding raise_first
  raise_first-Orderly [] = Keeps-pure tt
  raise_first-Orderly (none ∷ rest) = raise_first-Orderly rest
  raise_first-Orderly (some e ∷ rest) = Keeps-raise e

  close_all-Orderly : (handles : Daemon) → Keeps Orderly (close_all setup handles)
  unfolding close_all
  close_all-Orderly handles =
      Keeps-bind _ _ (closing-Orderly _ _ (inside-Orderly _ (producer_close-IsAccounted setup.pb)))
        λ p. Keeps-bind _ _ (closing-Orderly _ _ close_listener-Orderly) λ l.
          Keeps-bind _ _
            (closing-Orderly _ _ (inside-Orderly _ (λ _. close_client-IsAccounted setup.pb)))
            λ c. raise_first-Orderly _

  pub stop-Orderly :
      (at_once later : Bool) (timeout : ℕ) → Keeps Orderly (stop setup at_once later timeout)
  unfolding stop request_shutdown drop_all
  stop-Orderly at_once later timeout = Keeps-then _ _ (change-Orderly _ (λ d h. h)) (
      Keeps-bind _ _ (Keeps-gets _) λ d.
        Keeps-then _ _ (Keeps-if _ _ _ (logged-Orderly _ close_listener-Orderly) (Keeps-pure tt)) (
          Keeps-then _ _ (Keeps-if _ _ _ (finish-Orderly timeout) (Keeps-pure tt)) (
            Keeps-bind _ _ (Keeps-gets _)
              λ handles. Keeps-then _ _ (change-Orderly _ (λ d h. h)) (close_all-Orderly handles))))
