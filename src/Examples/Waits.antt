-- ===== src/Examples/Waits.antt =====
-- The waits of a resume and the end of a run at concrete inputs.
use kafka_fdb_streamline.Common.{
  ◌+◌, true, false, none, [], ◌∷◌, ◌≡◌, refl, arith, pos, ltb, if◌then◌else◌,
}
use kafka_fdb_streamline.Errors.{fdb_error, cdc, terminal}
use kafka_fdb_streamline.Exec.{ok, err, catch, ◌>>◌}
use kafka_fdb_streamline.World.{Env, World}
use kafka_fdb_streamline.Cdc.Client
use kafka_fdb_streamline.Cdc.Listener
use kafka_fdb_streamline.Cdc.Listener.Await.{
  earliest, IsMonotonic, ReachesBy, await_version-enough, await_version-returns,
}
use kafka_fdb_streamline.Bridge.Daemon.{Setup, Daemon, change, request_shutdown}
use kafka_fdb_streamline.Bridge.Daemon.Build.{inside, poll_counting, step}
use kafka_fdb_streamline.Bridge.Daemon.Run.{is_permanent, on_error, try_step, turn, turns, run}
use kafka_fdb_streamline.Bridge.Daemon.Errors.{IsPermanent, run-raises}
use kafka_fdb_streamline.Examples.{all_well, new_world}
use kafka_fdb_streamline.Examples.Daemon.{setup, running}

-- A cluster whose read version reaches 7 at the tick 3, on a clock that only sleeps move.
abbrev catching_up : Env
catching_up = record all_well {
  monotonic = earliest;
  fdb = λ trace call. ok (if ltb (earliest trace) 3 then pos 1 else pos 7);
}

abbrev resuming : World
resuming = record new_world {
  client = record { api_version = pos 800; db = true };
  listener = record new_world.listener { resume_poll_interval = 2 };
}

catching_up-IsMonotonic : IsMonotonic catching_up
catching_up-IsMonotonic trace = omega arith

catching_up-ReachesBy : ReachesBy catching_up (pos 7) 3
catching_up-ReachesBy trace =
    (if ltb (earliest trace) 3 then pos 1 else pos 7, refl, λ late. ground arith)

await_version-enough_example :
    Listener.await_version catching_up (10 + 2) (pos 7) (0 + 10) resuming
    ≡ Listener.await_version catching_up (10 + 2 + 5) (pos 7) (0 + 10) resuming
await_version-enough_example =
    await_version-enough catching_up catching_up-IsMonotonic 5 0 10 (pos 7) resuming (omega arith)
      (omega arith)

await_version-returns_example :
    (Listener.await_version catching_up 12 (pos 7) 10 resuming).0 ≡ ok tt
await_version-returns_example =
    await_version-returns catching_up (λ trace. refl) (pos 7) 3 10 catching_up-ReachesBy
      (omega arith) 12 resuming refl (omega arith) (omega arith) (omega arith)

-- A native consume that fails with transaction_too_old, of a listener that is attached.
abbrev failing : Env
failing = record all_well {
  consume = λ _. record { closed_meanwhile = false; outcome = err (fdb_error (pos 1007)) };
}

abbrev failing_setup : Setup
failing_setup = record setup {
  generations = λ _. record {
    env = failing;
    cursor = ok none;
    producer = ok new_world.producer;
    created = ok tt;
  };
}

abbrev attached : Daemon
attached = record running {
  world = record new_world { listener = record new_world.listener { consumer = true } };
}

too_old : (run failing_setup (false ∷ []) attached).0 ≡ err (cdc (terminal (pos 1007)))
unfolding run turns turn try_step on_error is_permanent change request_shutdown step poll_counting
    inside catch ◌>>◌ Listener.poll_records Listener.consume_batch Listener.require_consumer
    Listener.native_consume Listener.wait_failed Client.consume_failure
too_old = refl

run-raises_example :
    IsPermanent (cdc (terminal (pos 1007)))
    × ((run failing_setup (false ∷ []) attached).1.shutdown_requested ≡ true)
run-raises_example =
    run-raises failing_setup (false ∷ []) attached (cdc (terminal (pos 1007))) refl refl refl
      too_old
