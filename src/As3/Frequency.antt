-- ===== src/As3/Frequency.antt =====
-- `syncFrequency`, `process` and `frequency` of pkg/as3/request.go: the quick updates of source
-- addresses are stored to disk together. Times are seconds.
pub mod Store
pub mod Work
use container_egress_service.Prelude.{
  ℕ, ◌+◌, ◌-◌, ◌*◌, Bool, List, [], ◌∷◌, ◌++◌, ◌||◌, any, ltb, length, if◌then◌else◌,
}
use container_egress_service.As3.Environment.{Environment}
use container_egress_service.As3.Client.{Client, store_disk}
use container_egress_service.Io.{
  Io, World, Step, done, failed, panicked, Effect, continue, Reply, ok, err, pure, attempt, ◌>>=◌,
}

-- the times of the updates that are not stored yet
pub record SyncFrequency : Type 0 where
  pub update_times : List ℕ

unfoldable pub process : ℕ → SyncFrequency → SyncFrequency
process now fq = record { update_times = fq.update_times ++ now ∷ [] }

unfoldable pub is_update_ep_fq : ℕ → List ℕ → Bool
is_update_ep_fq now update_times = any (λ v. ltb (2 * 60) (now - v)) update_times

-- whether the updates are to be stored now
unfoldable pub is_due : ℕ → SyncFrequency → Bool
unfolding is_update_ep_fq
is_due now fq = ltb 10 (length fq.update_times) || is_update_ep_fq now fq.update_times

-- an error is logged, and the times stay
abbrev after_store : SyncFrequency → Reply (Unit {0}) → SyncFrequency
after_store fq (ok _) = record { update_times = [] }
after_store fq (err e) = fq

-- a panic of storeDisk ends the program
unfoldable pub frequency : Environment → World → Client → ℕ → SyncFrequency → Io SyncFrequency
unfolding is_due store_disk
frequency env w c now fq =
    if is_due now fq
    then (do result ← attempt (store_disk w env c); pure (after_store fq result))
    else pure fq

-- What happens to the waiting updates: a quick update comes, or the goroutine of `Work` wakes up.
pub data WorkEvent : Type 0 where
  updates_at wakes_at : ℕ → WorkEvent

module _ (env : Environment) (w : World) (c : Client) where
  unfoldable pub work_step : WorkEvent → SyncFrequency → Io SyncFrequency
  unfolding process frequency
  work_step (updates_at now) fq = pure (process now fq)
  work_step (wakes_at now) fq = frequency env w c now fq

  -- the endless loop of `Work`, with the updates that come in between, up to a panic
  unfoldable pub work : List WorkEvent → SyncFrequency → Io SyncFrequency
  unfolding work_step
  work [] fq = pure fq
  work (e ∷ es) fq = do next ← work_step e fq; work es next
