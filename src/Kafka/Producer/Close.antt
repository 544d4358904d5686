-- ===== src/Kafka/Producer/Close.antt =====
-- Closing the producer: it never raises, it releases the handle, and it happens once.
use kafka_fdb_streamline.Common.{
  ⊤, true, false, ◌≡◌, refl, sym, subst, ◌&&◌, ◌||◌, pos, ltb_ℤ, Bool-cases, inl, inr,
}
use kafka_fdb_streamline.Exec.{Result, ok, err, ◌>>=◌}
use kafka_fdb_streamline.Exec.Ends.{
  After, Ends, Ends_of_Keeps, Ends-read, Ends-return, Ends-catch, Ends-bind, Ends-then, Ends-if,
}
use kafka_fdb_streamline.World.{Env, World, M}
use kafka_fdb_streamline.Kafka.Producer

abbrev Any : World → Type 0
Any _ = Unit

abbrev Never : World → Type 0
Never _ = ⊥

-- Any method may end in any state.
ends-Any : {A : Type 0} (m : M A) → Ends Any m (λ _. Any) Any
ends-Any m = Ends_of_Keeps (record { at = λ _ _. tt })

-- A handler that returns catches everything.
module _ (env : Env) where
  abort-returns : Ends Any (Producer.abort_open_transaction env) (λ _. Any) Never
  unfolding Producer.abort_open_transaction
  abort-returns = Ends-bind _ _ (Ends-read Any _) λ p.
      Ends-if (p.transactional && p.txn_open) _ _
        (Ends-catch _ _ (ends-Any _) (λ _. Ends-return Any tt)) (Ends-return Any tt)

  flush-returns : Ends Any (Producer.flush_to_close env) (λ _. Any) Never
  unfolding Producer.flush_to_close
  flush-returns =
      Ends-catch _ _ (ends-Any _) λ _. Ends-catch _ _ (ends-Any _) λ _. Ends-return Any _

  purge-returns : Ends Any (Producer.purge_queue env) (λ _. Any) Never
  unfolding Producer.purge_queue
  purge-returns = Ends-catch _ _ (ends-Any _) (λ _. Ends-return Any tt)

  -- The producer is closed, without a handle.
  abbrev pub IsReleased : World → Type 0
  IsReleased w = (w.producer.closed ≡ true) × (w.producer.handle ≡ false)

  set_released-Ends : Ends Any (Producer.update Producer.set_released) (λ _. IsReleased) Never
  unfolding Producer.update Producer.set_released
  set_released-Ends = record { at = λ w _. (refl, refl) }

  release-Ends : Ends Any (Producer.release env) (λ _. IsReleased) Never
  unfolding Producer.release
  release-Ends = Ends-then _ _ abort-returns (
      Ends-bind _ _ flush-returns λ (undelivered, flush_failed).
        Ends-then _ _
          (Ends-if (ltb_ℤ (pos 0) undelivered || flush_failed) _ _ purge-returns
            (Ends-return Any tt))
          set_released-Ends)

  closed_is : (w : World) → w.producer.closed ≡ true → Producer.close env w ≡ (ok tt, w)
  unfolding Producer.close ◌>>=◌
  closed_is w h = rw h

  open_is : (w : World) → w.producer.closed ≡ false → Producer.close env w ≡ Producer.release env w
  unfolding Producer.close ◌>>=◌
  open_is w h = rw h

  ended :
      (r : Result ⊤) (w : World)
      → After (λ _. IsReleased) Never (r, w)
      → (r ≡ ok tt) × (w.producer.closed ≡ true)
  ended (ok tt) w h = (refl, h.0)
  ended (err e) w h = absurd h

  closes :
      (w : World)
      → ((Producer.close env w).0 ≡ ok tt) × ((Producer.close env w).1.producer.closed ≡ true)
  closes w = elim (Bool-cases w.producer.closed) [
    | inl closed ↦
        subst (λ (x : Result ⊤ × World). (x.0 ≡ ok tt) × (x.1.producer.closed ≡ true))
          (sym (closed_is w closed)) (refl, closed)
    | inr unclosed ↦
        let (r, w') = Producer.release env w in
        subst (λ (x : Result ⊤ × World). (x.0 ≡ ok tt) × (x.1.producer.closed ≡ true))
          (sym (open_is w unclosed)) (ended r w' (release-Ends.at w tt))
  ]

  -- Whatever librdkafka answers, `close` returns and leaves the producer closed, and a second `close`
  -- returns without a call or a change.
  pub close-close :
      (w : World)
      → ((Producer.close env w).0 ≡ ok tt)
        × ((Producer.close env w).1.producer.closed ≡ true)
        × (Producer.close env (Producer.close env w).1 ≡ (ok tt, (Producer.close env w).1))
  close-close w = ((closes w).0, (closes w).1, closed_is _ (closes w).1)
