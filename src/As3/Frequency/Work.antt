-- ===== src/As3/Frequency/Work.antt =====
-- No quick update is forgotten: it waits until a store is done.
use container_egress_service.Prelude.{
  ℕ, ◌-◌, ◌≡◌, refl, true, ap, Bool, ◌⊎◌, inl, inr, Bool-cases, List, [], ◌∷◌, any, any-append, ltb,
  nat_eq, arith,
}
use container_egress_service.As3.Environment.{Environment}
use container_egress_service.As3.Client.{Client, store_disk}
use container_egress_service.As3.Frequency.{
  SyncFrequency, process, is_update_ep_fq, is_due, frequency, WorkEvent, updates_at, wakes_at,
  work_step, work,
}
use container_egress_service.Io.{World, Effect, Step, done, failed, panicked, continue}
use container_egress_service.As3.Frequency.Store.{outcome}

-- whether an update of that time waits
abbrev pub waits_since : ℕ → SyncFrequency → Bool
waits_since t fq = any (nat_eq t) fq.update_times

module _ (env : Environment) (w : World) (c : Client) where
  -- at some wake-up of the run, a store was due and done
  abbrev pub Stored : List WorkEvent → SyncFrequency → List Effect → Type 0
  Stored [] fq s = ⊥
  Stored (updates_at now ∷ es) fq s = Stored es (process now fq) s
  Stored (wakes_at now ∷ es) fq s =
      ((is_due now fq ≡ true) × ((store_disk w env c s).0 ≡ done tt))
      ⊎ ((next : SyncFrequency) × ((frequency env w c now fq s).0 ≡ done next)
          × Stored es next (frequency env w c now fq s).1)

  module _ (t : ℕ) where
    -- a result after which the update waits
    abbrev pub Remembers : Step SyncFrequency → Type 0
    Remembers x = (next : SyncFrequency) × (x ≡ done next) × (waits_since t next ≡ true)

    stored_or_waits :
        (fq : SyncFrequency) (x : Step (Unit {0})) (s : List Effect)
        → waits_since t fq ≡ true
        → (x ≡ done tt) ⊎ ((outcome fq (x, s)).0 ≡ panicked) ⊎ Remembers (outcome fq (x, s)).0
    stored_or_waits fq (done tt) s h = inl refl
    stored_or_waits fq (failed e) s h = inr (inr (fq, refl, h))
    stored_or_waits fq panicked s h = inr (inl refl)

    frequency-waits :
        (now : ℕ) (fq : SyncFrequency) (s : List Effect)
        → waits_since t fq ≡ true
        → ((is_due now fq ≡ true) × ((store_disk w env c s).0 ≡ done tt))
          ⊎ ((frequency env w c now fq s).0 ≡ panicked)
          ⊎ Remembers (frequency env w c now fq s).0
    unfolding frequency
    frequency-waits now fq s h = elim (Bool-cases (is_due now fq)) [
      | inr later ↦ rw later (inr (inr (fq, refl, h)))
      | inl due ↦
          rw due (elim (stored_or_waits fq (store_disk w env c s).0 (store_disk w env c s).1 h) [
            | inl stored ↦ inl (refl, stored)
            | inr rest ↦ inr rest
          ])
    ]

    process-waits :
        (now : ℕ) (fq : SyncFrequency)
        → waits_since t fq ≡ true
        → waits_since t (process now fq) ≡ true
    unfolding process
    process-waits now fq h = ground (arith, h, any-append (nat_eq t) fq.update_times (now ∷ []))

    continued :
        (x : Step SyncFrequency) (next : SyncFrequency) (es : List WorkEvent) (s : List Effect)
        → x ≡ done next
        → continue x (work env w c es) s ≡ work env w c es next s
    continued x next es s e = ap (λ y. continue y (work env w c es) s) e

    work-waits :
        (es : List WorkEvent) (fq : SyncFrequency) (s : List Effect)
        → waits_since t fq ≡ true
        → Stored es fq s
          ⊎ ((work env w c es fq s).0 ≡ panicked)
          ⊎ Remembers (work env w c es fq s).0
    unfolding work work_step
    work-waits [] fq s h = inr (inr (fq, refl, h))
    work-waits (updates_at now ∷ es) fq s h =
        work-waits es (process now fq) s (process-waits now fq h)
    work-waits (wakes_at now ∷ es) fq s h =
        let (x, s') = frequency env w c now fq s in
        elim (frequency-waits now fq s h) [
          | inl stored ↦ inl (inl stored)
          | inr (inl crash) ↦ inr (inl (ap (λ y. (continue y (work env w c es) s').0) crash))
          | inr (inr (next, e, kept)) ↦
              rw (continued x next es s' e) (elim (work-waits es next s' kept) [
                | inl later ↦ inl (inr (next, e, later))
                | inr rest ↦ inr rest
              ])
        ]

    is_update_ep_fq-waits :
        (now : ℕ) (times : List ℕ)
        → any (nat_eq t) times ≡ true
        → ltb 120 (now - t) ≡ true
        → is_update_ep_fq now times ≡ true
    unfolding is_update_ep_fq
    is_update_ep_fq-waits now [] h late = cc
    is_update_ep_fq-waits now (v ∷ times) h late = elim (Bool-cases (nat_eq t v)) [
      | inl hit ↦ ground (arith, hit, late)
      | inr miss ↦ ground (arith, is_update_ep_fq-waits now times (rw miss at h) late)
    ]

    is_due-waits :
        (now : ℕ) (fq : SyncFrequency)
        → waits_since t fq ≡ true
        → ltb 120 (now - t) ≡ true
        → is_due now fq ≡ true
    unfolding is_due
    is_due-waits now fq h late = ground (arith, is_update_ep_fq-waits now fq.update_times h late)

    process-now : (fq : SyncFrequency) → waits_since t (process t fq) ≡ true
    unfolding process
    process-now fq = ground (arith, any-append (nat_eq t) fq.update_times (t ∷ []))

    effects_of :
        (fq : SyncFrequency) (x : Step (Unit {0})) (s : List Effect) → (outcome fq (x, s)).1 ≡ s
    effects_of fq (done u) s = refl
    effects_of fq (failed e) s = refl
    effects_of fq panicked s = refl

    asks :
        (now : ℕ) (fq : SyncFrequency) (s : List Effect)
        → is_due now fq ≡ true
        → (frequency env w c now fq s).1 ≡ (store_disk w env c s).1
    unfolding frequency
    asks now fq s due = rw due (effects_of fq (store_disk w env c s).0 (store_disk w env c s).1)

    -- Whatever updates and wake-ups come after a quick update: a store was due and done at one of
    -- the wake-ups, or a panic of the store has ended the program, or the first wake-up more than two
    -- minutes after the update asks BIG-IP to store.
    pub work-stores :
        (es : List WorkEvent) (now : ℕ) (fq : SyncFrequency) (s : List Effect)
        → ltb 120 (now - t) ≡ true
        → Stored es (process t fq) s
          ⊎ ((work env w c es (process t fq) s).0 ≡ panicked)
          ⊎ ((next : SyncFrequency) × ((work env w c es (process t fq) s).0 ≡ done next)
              × ((frequency env w c now next (work env w c es (process t fq) s).1).1
                  ≡ (store_disk w env c (work env w c es (process t fq) s).1).1))
    work-stores es now fq s late = elim (work-waits es (process t fq) s (process-now fq)) [
      | inl stored ↦ inl stored
      | inr (inl crash) ↦ inr (inl crash)
      | inr (inr (next, e, waits)) ↦
          inr (inr (next, e, asks now next _ (is_due-waits now next waits late)))
    ]
