-- ===== src/Bridge/Daemon/Session.antt =====
-- What the bridge does from its construction on: starts, runs and stops, in any order.
use kafka_fdb_streamline.Common.{
  ⊤, ℕ, zero, suc, Bool, false, ◌||◌, not, List, [], ◌∷◌, ◌≡◌, refl, sym, subst, ap, ◌∙◌, All, inl,
  arith, if◌then◌else◌, if_cases,
}
use kafka_fdb_streamline.Errors.{Exn}
use kafka_fdb_streamline.Exec.{Result, ok, err, pure, ◌>>=◌, ◌>>◌}
use kafka_fdb_streamline.Exec.Keeps.{
  Keeps, Keeps-bind, Keeps-then, Keeps-gets, Keeps-if, Keeps-pure, Keeps-modify, Keeps-catch,
  Keeps-raise, Keeps-raise_if,
}
use kafka_fdb_streamline.Exec.Ends.{After, Ends, Ends_of_Keeps, Ends-weaken, Ends-then}
use kafka_fdb_streamline.World.{World}
use kafka_fdb_streamline.Serialization.Message.{FdbMutationRecord}
use kafka_fdb_streamline.Bridge.Sound.Flags.{IsSound}
use kafka_fdb_streamline.Bridge.Sound.Turn.{step-IsSound}
use kafka_fdb_streamline.Bridge.Daemon.{Setup, Daemon, D, change, request_shutdown}
use kafka_fdb_streamline.Bridge.Daemon.Build.{start, rebuild, step}
use kafka_fdb_streamline.Bridge.Daemon.Run.{
  pop_records, count_step, try_step, on_error, turn, turns, run,
}
use kafka_fdb_streamline.Bridge.Daemon.Counting.{step-step}
use kafka_fdb_streamline.Bridge.Daemon.Lift.{Safe}
use kafka_fdb_streamline.Bridge.Daemon.Sound.{
  Live, Held, there-Live, Ends-self, start-Ends, rebuild-Ends,
}

After-Keeps :
    {A : Type 0} (P : Daemon → Type 0) (x : Result A × Daemon) → After (λ _. P) P x → P x.1
After-Keeps P (ok a, d) h = h
After-Keeps P (err e, d) h = h

pub Ends-Keeps : {A : Type 0} {P : Daemon → Type 0} {m : D A} → Ends P m (λ _. P) P → Keeps P m
Ends-Keeps {P} ends = record { at = λ d h. After-Keeps P _ (ends.at d h) }

module _ (setup : Setup) where
  pub step-Live : Keeps Live (step setup)
  step-Live = record {
    at = λ d h.
        let (run, rest) = step-step setup d in
        (
          (
            subst (All Safe) (sym rest.past) h.0.0,
            subst IsSound (sym (ap (λ (y : Result ℕ × World). y.1) run))
                ((step-IsSound _ setup.pb).at d.world h.0.1),
          ),
          rest.pipeline ∙ h.1,
        );
  }

  pop-Live : (published : ℕ) → Keeps Live (pop_records published)
  unfolding pop_records change
  pop-Live zero = Keeps-pure []
  pop-Live (suc _) =
      Keeps-bind _ _ (Keeps-gets _)
        λ records. Keeps-then _ _ (Keeps-modify _ (λ d h. h)) (Keeps-pure records)

  count-Live :
      (published : ℕ) (records : List FdbMutationRecord) → Keeps Live (count_step published records)
  unfolding count_step change
  count-Live zero records = Keeps-pure tt
  count-Live (suc published) records = Keeps-modify _ (λ d h. h)

  counted-Live : Keeps Live (do
    change (λ d. record d { rebuild_pending = false })
    published ← step setup
    records ← pop_records published
    count_step published records)
  unfolding change
  counted-Live = Keeps-then _ _ (Keeps-modify _ (λ d h. h)) (
      Keeps-bind _ _ step-Live
        λ published. Keeps-bind _ _ (pop-Live published) λ records. count-Live published records)

  -- The rebuild of a turn, where there is one to make.
  rebuilt :
      (d : Daemon)
      → Held d
      → After
          (λ _. Live)
          Held
          ((if d.rebuild_pending || not d.has_pipeline then rebuild setup else pure tt) d)
  unfolding pure
  rebuilt d h =
      if_cases (λ (m : D ⊤). After (λ _. Live) Held (m d)) (d.rebuild_pending || not d.has_pipeline)
        _ _ (λ _. (rebuild-Ends setup).at d h) (λ there. there-Live d h (ground arith))

  try_step-Ends : Ends Held (try_step setup) (λ _. Held) Held
  unfolding try_step
  try_step-Ends = Ends-self _ λ d h.
      (Ends-then {P = λ s. s ≡ d} {Q = Live} _ _
          (record {
            at = λ s same.
                subst
                  (λ t.
                    After (λ _. Live) Held
                      ((if d.rebuild_pending || not d.has_pipeline then rebuild setup else pure tt)
                        t))
                  (sym same) (rebuilt d h);
          })
          (Ends-weaken (λ _ _ live. inl live) (λ _ live. inl live) (Ends_of_Keeps counted-Live))).at
        d refl

  on_error-Held : (e : Exn) → Keeps Held (on_error e)
  unfolding on_error change request_shutdown
  on_error-Held e =
      Keeps-if _ _ _ (Keeps-then _ _ (Keeps-modify _ (λ d h. h)) (Keeps-raise e))
        (Keeps-modify _ (λ d h. h))

  turn-Held : (requested : Bool) → Keeps Held (turn setup requested)
  unfolding turn change
  turn-Held requested = Keeps-then _ _ (Keeps-modify _ (λ d h. h)) (
      Keeps-bind _ _ (Keeps-gets _) λ d.
        Keeps-if _ _ _ (Keeps-pure tt) (Keeps-catch _ _ (Ends-Keeps try_step-Ends) on_error-Held))

  turns-Held : (schedule : List Bool) → Keeps Held (turns setup schedule)
  unfolding turns
  turns-Held [] = Keeps-pure tt
  turns-Held (requested ∷ rest) = Keeps-then _ _ (turn-Held requested) (turns-Held rest)

  pub run-Held : (schedule : List Bool) → Keeps Held (run setup schedule)
  unfolding run change
  run-Held schedule = Keeps-bind _ _ (Keeps-gets _) λ d.
      Keeps-then _ _ (Keeps-raise_if _ _)
        (Keeps-then _ _ (Keeps-modify _ (λ d h. h)) (turns-Held schedule))

  pub start-Held : Keeps Held (start setup)
  start-Held = Ends-Keeps (Ends-weaken (λ _ _ live. inl live) (λ _ h. h) (start-Ends setup))
