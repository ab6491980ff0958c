-- ===== src/As3/Frequency/Store.antt =====
-- When the quick updates are stored, and what is remembered if that fails.
use container_egress_service.Prelude.{ℕ, ◌≡◌, ◌≢◌, refl, true, Bool-cases, inl, inr, List}
use container_egress_service.As3.Environment.{Environment}
use container_egress_service.As3.Client.{Client, store_disk}
use container_egress_service.As3.Frequency.{SyncFrequency, is_due, after_store, frequency}
use container_egress_service.Io.{
  World, Step, done, failed, panicked, Effect, reply_of, continue, pure,
}

-- what becomes of the waiting updates, as far as a result tells
abbrev pub outcome :
    SyncFrequency → Step (Unit {0}) × List Effect → Step SyncFrequency × List Effect
outcome fq (x, t) =
    continue (reply_of (x, t)).0 (λ result. pure (after_store fq result)) (reply_of (x, t)).1

module _ (env : Environment) (w : World) (c : Client) where
  kept_unless :
      (fq fq' : SyncFrequency) (x : Step (Unit {0})) (t : List Effect)
      → (outcome fq (x, t)).0 ≡ done fq'
      → fq' ≢ fq
      → x ≡ done tt
  kept_unless fq fq' (done tt) t e h = refl
  kept_unless fq fq' (failed _) t e h = let same : fq' ≡ fq = cc in elim (h same) [ ]
  kept_unless fq fq' panicked t e h = cc

  -- If a check of the waiting updates ends, and not the same updates wait as before, then a store was
  -- due and BIG-IP reported it done.
  pub frequency-store_disk :
      (now : ℕ) (fq fq' : SyncFrequency) (s : List Effect)
      → (frequency env w c now fq s).0 ≡ done fq'
      → fq' ≢ fq
      → (is_due now fq ≡ true) × ((store_disk w env c s).0 ≡ done tt)
  unfolding frequency
  frequency-store_disk now fq fq' s e h = elim (Bool-cases (is_due now fq)) [
    | inl due ↦
        (due, kept_unless fq fq' (store_disk w env c s).0 (store_disk w env c s).1 (rw due at e) h)
    | inr early ↦
        let kept : done fq ≡ done fq' = rw early at e in
        let same : fq' ≡ fq = cc in elim (h same) [ ]
  ]
