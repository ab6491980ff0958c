-- ===== src/Io/Scripts.antt =====
-- The order in which a call has its effects, for all that the world may answer.
use container_egress_service.Prelude.{◌≡◌, refl, sym, ◌∙◌, Option, none, some, List, [], ◌∷◌, ◌++◌}
use mathlib.Core.Path.{subst}
use mathlib.Core.List.{append_assoc, append-nil}
use container_egress_service.Prelude.Outcome.{Outcome, returns, panics}
use container_egress_service.Io.{
  Error, Effect, Step, done, failed, panicked, Io, lift, continue, ◌>>=◌, check,
}

-- the steps of a script, each with the effects that it may have
abbrev pub Script : Type 1
Script = List (Effect → Type 0)

-- The effects are those of the first steps, one for each, in their order.
abbrev pub Prefix : Script → List Effect → Type 0
Prefix steps [] = Unit
Prefix [] (e ∷ es) = ⊥
Prefix (p ∷ steps) (e ∷ es) = p e × Prefix steps es

-- what has happened after `s`
pub record Told (steps : Script) (s t : List Effect) : Type 0 where
  pub added : List Effect
  pub is_after : t ≡ s ++ added
  pub in_order : Prefix steps added

abbrev pub Follows {ℓ} : {A : Type ℓ} → Script → Io A → Type 0
Follows steps m = (s : List Effect) → Told steps s (m s).1

abbrev pub Quiet {ℓ} : {A : Type ℓ} → Io A → Type 0
Quiet m = (s : List Effect) → (m s).1 ≡ s

abbrev pub Sends {ℓ} : {A : Type ℓ} → Effect → Io A → Type 0
Sends e m = (s : List Effect) → (m s).1 ≡ s ++ e ∷ []

pub nothing_new : (steps : Script) (s : List Effect) → Told steps s s
nothing_new steps s = record { added = []; is_after = sym (append-nil s); in_order = tt }

first_step :
    (p : Effect → Type 0) (steps : Script) (e : Effect) (s t : List Effect)
    → p e
    → Told steps (s ++ e ∷ []) t
    → Told (p ∷ steps) s t
first_step p steps e s t h told = record {
  added = e ∷ told.added;
  is_after = told.is_after ∙ append_assoc s (e ∷ []) told.added;
  in_order = (h, told.in_order);
}

pub Quiet-lift {ℓ} : {A : Type ℓ} (o : Outcome A) → Quiet (lift o)
Quiet-lift (returns a) s = refl
Quiet-lift panics s = refl

pub Quiet-check : (e : Option Error) → Quiet (check e)
Quiet-check none s = refl
Quiet-check (some e) s = refl

module _ {ℓ κ} {A : Type ℓ} {B : Type κ} where
  without_effect :
      (x : Step A) (f : A → Io B) (t : List Effect)
      → ((a : A) → Quiet (f a))
      → (continue x f t).1 ≡ t
  without_effect (done a) f t k = k a t
  without_effect (failed e) f t k = refl
  without_effect panicked f t k = refl

  pub Quiet->>= : (m : Io A) (f : A → Io B) → Quiet m → ((a : A) → Quiet (f a)) → Quiet (m >>= f)
  Quiet->>= m f h k s = without_effect (m s).0 f (m s).1 k ∙ h s

  -- only the first of two calls has an effect
  pub Sends->>= :
      (e : Effect) (m : Io A) (f : A → Io B)
      → Sends e m
      → ((a : A) → Quiet (f a))
      → Sends e (m >>= f)
  Sends->>= e m f h k s = without_effect (m s).0 f (m s).1 k ∙ h s

  continue-Told :
      (steps : Script) (x : Step A) (f : A → Io B) (t : List Effect)
      → ((a : A) → Follows steps (f a))
      → Told steps t (continue x f t).1
  continue-Told steps (done a) f t k = k a t
  continue-Told steps (failed e) f t k = nothing_new steps t
  continue-Told steps panicked f t k = nothing_new steps t

  -- the first call has no effects
  pub Follows-after :
      (steps : Script) (m : Io A) (f : A → Io B)
      → Quiet m
      → ((a : A) → Follows steps (f a))
      → Follows steps (m >>= f)
  Follows-after steps m f h k s =
      subst (λ u. Told steps u ((m >>= f) s).1) (h s) (continue-Told steps (m s).0 f (m s).1 k)

  -- The first call has the effect of the first step, whether it succeeds or not.
  pub Follows-then :
      (p : Effect → Type 0) (steps : Script) (e : Effect) (m : Io A) (f : A → Io B)
      → Sends e m
      → p e
      → ((a : A) → Follows steps (f a))
      → Follows (p ∷ steps) (m >>= f)
  Follows-then p steps e m f h allowed k s =
      first_step p steps e s ((m >>= f) s).1 allowed
        (subst (λ u. Told steps u ((m >>= f) s).1) (h s) (continue-Told steps (m s).0 f (m s).1 k))
