-- ===== src/Cdc/Listener/Await.antt =====
-- The wait for a read version, in a resume, ends by its deadline.
use kafka_fdb_streamline.Common.{
  ⊤, ℕ, zero, suc, ◌+◌, ◌-◌, ◌≤◌, ◌<◌, Bool, true, false, not, [], ◌∷◌, ltb, leb, if◌then◌else◌,
  ◌≡◌, refl, ap, ◌∙◌, arith, ℤ, ltb_ℤ, Bool-cases, inl, inr,
}
use kafka_fdb_streamline.Errors.{cdc, invalid_cursor}
use kafka_fdb_streamline.Exec.{Result, ok, err, continue, pure, gets, raise_if, ◌>>=◌, ◌>>◌}
use kafka_fdb_streamline.Exec.Keeps.{Keeps, Keeps-modify, keeps_rules}
use kafka_fdb_streamline.World.{Event, Trace, FdbCall, Env, World, M}
use kafka_fdb_streamline.Cdc.Client
use kafka_fdb_streamline.Cdc.Client.Keeps.{open_client-Keeps}
use kafka_fdb_streamline.Cdc.Listener

-- What the clock shows at least, after these events: what was last read, and the sleeps since.
abbrev pub earliest : Trace → ℕ
earliest [] = 0
earliest (Event.monotonic_read now ∷ before) = now
earliest (Event.slept ticks ∷ before) = earliest before + ticks
earliest (_ ∷ before) = earliest before

-- The clock does not go back, and a sleep takes as long as it says.
abbrev pub IsMonotonic : Env → Type 0
IsMonotonic env = (trace : Trace) → earliest trace ≤ env.monotonic trace

module _ (env : Env) where
  -- The rest of a round after the version was read, and the rounds after it.
  abbrev round : (ℕ → ℤ → ℕ → M ⊤) → ℕ → ℤ → ℕ → ℤ → M ⊤
  round again fuel target deadline version = if not (ltb_ℤ version target) then pure tt else do
    now ← Listener.read_monotonic env
    raise_if (not (ltb now deadline)) (cdc invalid_cursor)
    interval ← gets (λ w. w.listener.resume_poll_interval)
    Listener.sleep (if ltb interval (deadline - now) then interval else deadline - now)
    again fuel target deadline

  -- After a sleep of a round that was not the last.
  abbrev slept : ℕ → World → World
  slept deadline w =
      let now = env.monotonic w.trace in
      let interval = w.listener.resume_poll_interval in
      record w {
        trace =
            Event.slept (if ltb interval (deadline - now) then interval else deadline - now)
            ∷ Event.monotonic_read now
            ∷ w.trace;
      }

continue-eq :
    {A : Type 0} (r : Result A) (k k' : A → M ⊤) (w : World)
    → ((a : A) → k a w ≡ k' a w)
    → continue r k w ≡ continue r k' w
continue-eq (ok a) k k' w same = same a
continue-eq (err e) k k' w same = refl

module _ (env : Env) (clock : IsMonotonic env) where
  -- The listener polls at an interval of a tick at least, and the clock shows at least `least`.
  abbrev Polls : ℕ → World → Type 0
  Polls least w = (1 ≤ w.listener.resume_poll_interval) × (least ≤ earliest w.trace)

  fdb-Polls : (least : ℕ) (call : FdbCall) → Keeps (Polls least) (Client.fdb env call)
  unfolding Client.fdb
  fdb-Polls least call = record { at = λ w h. h }

  set_db-Polls : (least : ℕ) (b : Bool) → Keeps (Polls least) (Client.set_db b)
  unfolding Client.set_db
  set_db-Polls least b = Keeps-modify _ (λ w h. h)

  get_read_version-Polls : (least : ℕ) → Keeps (Polls least) (Client.get_read_version env)
  unfolding Client.get_read_version
  get_read_version-Polls least =
      search (keeps_rules, open_client-Keeps, fdb-Polls, set_db-Polls) depth 12

  round-eq :
      (again again' : ℕ → ℤ → ℕ → M ⊤) (f g : ℕ) (target : ℤ) (deadline : ℕ) (version : ℤ)
      (w : World)
      → (env.monotonic w.trace < deadline
          → again f target deadline (slept env deadline w)
            ≡ again' g target deadline (slept env deadline w))
      → round env again f target deadline version w ≡ round env again' g target deadline version w
  unfolding Listener.read_monotonic Listener.sleep ◌>>◌
  round-eq again again' f g target deadline version w same =
      elim (Bool-cases (ltb_ℤ version target)) [
        | inl below ↦ elim (Bool-cases (ltb (env.monotonic w.trace) deadline)) [
          | inl early ↦ rw (below, early) (same (ground arith))
          | inr late ↦ rw (below, late) refl
        ]
        | inr reached ↦ rw reached refl
      ]

  -- However many rounds the wait may take beyond those until the deadline, it takes the same.
  await_version-rounds :
      (f g : ℕ) (target : ℤ) (deadline : ℕ) (w : World)
      → 1 ≤ w.listener.resume_poll_interval
      → deadline < f + earliest w.trace
      → deadline < g + earliest w.trace
      → 1 ≤ f
      → 1 ≤ g
      → Listener.await_version env f target deadline w
        ≡ Listener.await_version env g target deadline w
  unfolding Listener.await_version ◌>>=◌
  await_version-rounds zero g target deadline w positive ff gg f1 g1 = absurd (omega arith)
  await_version-rounds (suc f) zero target deadline w positive ff gg f1 g1 = absurd (omega arith)
  await_version-rounds (suc f) (suc g) target deadline w positive ff gg f1 g1 =
      let (r, w1) = Client.get_read_version env w in
      let (positive1, later) =
        (get_read_version-Polls (earliest w.trace)).at w (positive, omega arith) in
      continue-eq r (round env (Listener.await_version env) f target deadline)
        (round env (Listener.await_version env) g target deadline) w1
        (λ version.
          round-eq (Listener.await_version env) (Listener.await_version env) f g target deadline
            version w1
            (λ early.
              let now = env.monotonic w1.trace in
              let read = clock w1.trace in
              let interval = w1.listener.resume_poll_interval in
              let sleep : 1 ≤ (if ltb interval (deadline - now) then interval else deadline - now) =
                ground arith in
              await_version-rounds f g target deadline (slept env deadline w1) positive1
                (omega arith) (omega arith) (ground arith) (ground arith)))

  -- The wait of a resume is given enough fuel: from a state in which the clock was last read at the start or later,
  -- with a poll interval of a tick at least and a clock that does not go back and keeps up with the sleeps, more rounds
  -- than the timeout in ticks and two change neither the result nor the state.
  pub await_version-enough :
      (more start timeout : ℕ) (target : ℤ) (w : World)
      → 1 ≤ w.listener.resume_poll_interval
      → start ≤ earliest w.trace
      → Listener.await_version env (timeout + 2) target (start + timeout) w
        ≡ Listener.await_version env (timeout + 2 + more) target (start + timeout) w
  await_version-enough more start timeout target w positive started =
      await_version-rounds (timeout + 2) (timeout + 2 + more) target (start + timeout) w positive
        (omega arith) (omega arith) (omega arith) (omega arith)

-- A clock on which time passes in sleeps only.
abbrev pub IsExact : Env → Type 0
IsExact env = (trace : Trace) → env.monotonic trace ≡ earliest trace

-- Each read version that the cluster gives from that time on has reached the target.
abbrev pub ReachesBy : Env → ℤ → ℕ → Type 0
ReachesBy env target time =
    (trace : Trace)
    → (version : ℤ) × (env.fdb trace FdbCall.fdb_read_version ≡ ok version)
      × (time ≤ earliest trace → ltb_ℤ version target ≡ false)

if_true : {A : Type 0} (b : Bool) (m k : M A) (w : World) → b ≡ true → (if b then m else k) w ≡ m w
if_true true m k w h = refl
if_true false m k w h = cc

read_version_open :
    (env : Env) (w : World) (version : ℤ)
    → w.client.db ≡ true
    → env.fdb w.trace FdbCall.fdb_read_version ≡ ok version
    → Client.get_read_version env w
      ≡ (ok version, record w { trace = Event.fdb FdbCall.fdb_read_version (ok version) ∷ w.trace })
unfolding Client.get_read_version Client.open_client Client.fdb ◌>>=◌ ◌>>◌
read_version_open env w version opened answer =
    ap (λ (x : Result ⊤ × World). continue x.0 (λ _. Client.fdb env FdbCall.fdb_read_version) x.1)
      (if_true w.client.db _ _ w opened)
    ∙ ap
        (λ (r : Result ℤ). (r, record w { trace = Event.fdb FdbCall.fdb_read_version r ∷ w.trace }))
        answer

module _ (env : Env) (exact : IsExact env) (target : ℤ) (time deadline : ℕ)
    (reaches : ReachesBy env target time) (in_time : time ≤ deadline) where
  before :
      (time now : ℕ) (version : ℤ)
      → ltb_ℤ version target ≡ true
      → (time ≤ now → ltb_ℤ version target ≡ false)
      → now < time
  before time now version below reached = elim (Bool-cases (leb time now)) [
    | inl late ↦ let contradiction = reached (ground arith) in cc
    | inr soon ↦ ground arith
  ]

  round-returns :
      (again : ℕ → ℤ → ℕ → M ⊤) (fuel : ℕ) (version : ℤ) (w : World)
      → (time ≤ earliest w.trace → ltb_ℤ version target ≡ false)
      → (earliest w.trace < deadline
          → (again fuel target deadline (slept env deadline w)).0 ≡ ok tt)
      → (round env again fuel target deadline version w).0 ≡ ok tt
  unfolding Listener.read_monotonic Listener.sleep ◌>>◌
  round-returns again fuel version w reached later = elim (Bool-cases (ltb_ℤ version target)) [
    | inl below ↦
        let now = exact w.trace in
        let soon : earliest w.trace < time = before time (earliest w.trace) version below reached in
        let early : ltb (env.monotonic w.trace) deadline ≡ true = ground arith in
        rw (below, early) (later (omega arith))
    | inr enough ↦ rw enough refl
  ]

  -- The wait of a resume succeeds in time: on an open database, where each read answers and each read version from
  -- some time up to the deadline on has reached the target, the wait returns, and does not time out. Time passes in
  -- sleeps only, the poll interval is a tick at least, and the fuel exceeds the ticks to the deadline.
  pub await_version-returns :
      (fuel : ℕ) (w : World)
      → w.client.db ≡ true
      → 1 ≤ w.listener.resume_poll_interval
      → earliest w.trace ≤ deadline
      → deadline < fuel + earliest w.trace
      → (Listener.await_version env fuel target deadline w).0 ≡ ok tt
  unfolding Listener.await_version ◌>>=◌
  await_version-returns zero w opened positive early enough = absurd (omega arith)
  await_version-returns (suc fuel) w opened positive early enough =
      let (version, answer, reached) = reaches w.trace in
      let w1 : World = record w {
        trace = Event.fdb FdbCall.fdb_read_version (ok version) ∷ w.trace;
      } in
      rw (read_version_open env w version opened answer) (
        round-returns (Listener.await_version env) fuel version w1 reached (λ sooner.
          let now = exact w1.trace in
          let interval = w.listener.resume_poll_interval in
          await_version-returns fuel (slept env deadline w1) opened positive (ground arith)
            (ground arith)))
