-- ===== src/Bridge/Daemon/Errors.antt =====
-- What the loop of `run` raises.
use kafka_fdb_streamline.Common.{
  ⊤, Bool, true, false, Option, none, some, ◌||◌, not, List, [], ◌∷◌, ◌≡◌, refl, arith, if_cases,
  subst,
}
use kafka_fdb_streamline.Errors.{CdcError, Exn, runtime_error, not_started}
use kafka_fdb_streamline.Exec.{Result, ok, err, continue, recover, pure, catch, raise_if, ◌>>◌}
use kafka_fdb_streamline.Kafka.Faults.{says_true, is_fatal_kafka_error}
use kafka_fdb_streamline.Bridge.Daemon.{Setup, Daemon, D, change, request_shutdown}
use kafka_fdb_streamline.Bridge.Daemon.Run.{is_permanent, on_error, try_step, turn, turns, run}

-- The exceptions that `run` is documented to raise: a CDC terminal error, a fatal KafkaException, and a
-- ValueError, which a SerializationError is not for it.
abbrev pub IsPermanent : Exn → Type 0
IsPermanent (Exn.cdc (CdcError.terminal code)) = Unit
IsPermanent Exn.value_error = Unit
IsPermanent (Exn.kafka_exception (some error)) = error.fatal ≡ some true
IsPermanent _ = ⊥

says_fatal : (o : Option Bool) → says_true o ≡ true → o ≡ some true
says_fatal none h = cc
says_fatal (some true) h = refl
says_fatal (some false) h = cc

is_permanent-IsPermanent : (e : Exn) → is_permanent e ≡ true → IsPermanent e
unfolding is_permanent is_fatal_kafka_error
is_permanent-IsPermanent (Exn.cdc (CdcError.terminal code)) h = tt
is_permanent-IsPermanent Exn.value_error h = tt
is_permanent-IsPermanent (Exn.kafka_exception (some error)) h = says_fatal error.fatal h
is_permanent-IsPermanent _ h = cc

-- A return, or a permanent exception with the shutdown requested.
abbrev pub EndsWell : Result ⊤ × Daemon → Type 0
EndsWell (ok _, d) = Unit
EndsWell (err e, d) = (is_permanent e ≡ true) × (d.shutdown_requested ≡ true)

on_error-EndsWell : (e : Exn) (d : Daemon) → EndsWell (on_error e d)
unfolding on_error change request_shutdown ◌>>◌
on_error-EndsWell e d =
    if_cases (λ (m : D ⊤). EndsWell (m d)) (is_permanent e) _ _ (λ permanent. (permanent, refl))
      (λ _. tt)

caught-EndsWell : (r : Result ⊤) (d : Daemon) → EndsWell (recover r on_error d)
caught-EndsWell (ok _) d = tt
caught-EndsWell (err e) d = on_error-EndsWell e d

module _ (setup : Setup) where
  turn-EndsWell : (requested : Bool) (d : Daemon) → EndsWell (turn setup requested d)
  unfolding turn change catch ◌>>◌
  turn-EndsWell requested d =
      let d1 : Daemon = record d { shutdown_requested = d.shutdown_requested || requested } in
      let (r, d2) = try_step setup d1 in
      if_cases (λ (m : D ⊤). EndsWell (m d1)) (d.shutdown_requested || requested) (pure tt)
        (catch (try_step setup) on_error) (λ _. tt) (λ _. caught-EndsWell r d2)

  continue-EndsWell :
      (r : Result ⊤) (rest : D ⊤) (d : Daemon)
      → EndsWell (r, d)
      → ((d : Daemon) → EndsWell (rest d))
      → EndsWell (continue r (λ _. rest) d)
  continue-EndsWell (ok _) rest d here there = there d
  continue-EndsWell (err e) rest d here there = here

  turns-EndsWell : (schedule : List Bool) (d : Daemon) → EndsWell (turns setup schedule d)
  unfolding turns ◌>>◌
  turns-EndsWell [] d = tt
  turns-EndsWell (requested ∷ rest) d =
      let (r, d1) = turn setup requested d in
      continue-EndsWell r (turns setup rest) d1 (turn-EndsWell requested d) (turns-EndsWell rest)

  raised_well :
      (x : Result ⊤ × Daemon) (e : Exn)
      → EndsWell x
      → x.0 ≡ err e
      → (is_permanent e ≡ true) × (x.1.shutdown_requested ≡ true)
  raised_well (ok _, d) e well raised = cc
  raised_well (err f, d) e well raised =
      (subst (λ e. is_permanent e ≡ true) (ground arith) well.0, well.1)

  guarded :
      (b : Bool) (guard : Exn) (rest : D ⊤) (d : Daemon)
      → b ≡ false
      → EndsWell (rest d)
      → EndsWell ((raise_if b guard >> rest) d)
  unfolding ◌>>◌
  guarded false guard rest d passed well = well
  guarded true guard rest d passed well = cc

  run-EndsWell :
      (schedule : List Bool) (d : Daemon)
      → d.has_listener ≡ true
      → d.has_producer ≡ true
      → d.has_pipeline ≡ true
      → EndsWell (run setup schedule d)
  unfolding run change ◌>>◌
  run-EndsWell schedule d listener producer pipeline =
      guarded (not d.has_listener || not d.has_producer || not d.has_pipeline)
        (runtime_error not_started) _ d (ground arith)
        (turns-EndsWell schedule (record d { rebuild_pending = false }))

  -- Whatever the calls of a bridge that has started answer, and whatever its steps and rebuilds raise, `run` raises
  -- a CDC terminal error, a fatal KafkaException or a ValueError only, with the shutdown requested: no
  -- other exception ends the loop.
  pub run-raises :
      (schedule : List Bool) (d : Daemon) (e : Exn)
      → d.has_listener ≡ true
      → d.has_producer ≡ true
      → d.has_pipeline ≡ true
      → (run setup schedule d).0 ≡ err e
      → IsPermanent e × ((run setup schedule d).1.shutdown_requested ≡ true)
  run-raises schedule d e listener producer pipeline raised =
      let (permanent, requested) =
        raised_well (run setup schedule d) e (run-EndsWell schedule d listener producer pipeline)
          raised in
      (is_permanent-IsPermanent e permanent, requested)
