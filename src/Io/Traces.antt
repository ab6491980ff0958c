-- ===== src/Io/Traces.antt =====
-- What a call adds to the effects, for all that the world may answer.
use container_egress_service.Prelude.{
  ◌≡◌, refl, sym, ap, ◌∙◌, Option, none, some, List, [], ◌∷◌, ◌++◌, All, All-append, All-weaken,
}
use mathlib.Core.List.{append_assoc, append-nil}
use container_egress_service.Prelude.Outcome.{Outcome, returns, panics}
use container_egress_service.Io.{
  Error, Effect, Step, done, failed, panicked, Io, lift, emit, continue, ◌>>=◌, check, reply_of,
  attempt,
}

-- The effects after are those before, followed by some of which each has the property.
pub record Adds (P : Effect → Type 0) (before after : List Effect) : Type 0 where
  pub added : List Effect
  pub is_after : after ≡ before ++ added
  pub each_one : All P added

-- Whatever happened before, a call adds effects with the property only.
abbrev pub Emits {ℓ} : {A : Type ℓ} → (Effect → Type 0) → Io A → Type 0
Emits P m = (s : List Effect) → Adds P s (m s).1

module _ (P : Effect → Type 0) where
  pub nothing_added : (s : List Effect) → Adds P s s
  nothing_added s = record { added = []; is_after = sym (append-nil s); each_one = tt }

  pub added_after : {s t u : List Effect} → Adds P s t → Adds P t u → Adds P s u
  added_after {s} {t} {u} a b = record {
    added = a.added ++ b.added;
    is_after = b.is_after ∙ ap (λ x. x ++ b.added) a.is_after ∙ append_assoc s a.added b.added;
    each_one = All-append P a.added b.added a.each_one b.each_one;
  }

  module _ {ℓ} {A : Type ℓ} where
    pub Emits-lift : (o : Outcome A) → Emits P (lift o)
    Emits-lift (returns a) s = nothing_added s
    Emits-lift panics s = nothing_added s

  pub Emits-emit : (e : Effect) → P e → Emits P (emit e)
  Emits-emit e h s = record { added = e ∷ []; is_after = refl; each_one = (h, tt) }

  pub Emits-check : (e : Option Error) → Emits P (check e)
  Emits-check none s = nothing_added s
  Emits-check (some e) s = nothing_added s

  module _ {ℓ κ} {A : Type ℓ} {B : Type κ} where
    continue-Adds :
        (x : Step A) (f : A → Io B) (s t : List Effect)
        → Adds P s t
        → ((a : A) → Emits P (f a))
        → Adds P s (continue x f t).1
    continue-Adds (done a) f s t h k = added_after h (k a t)
    continue-Adds (failed e) f s t h k = h
    continue-Adds panicked f s t h k = h

    pub Emits->>= :
        (m : Io A) (f : A → Io B) → Emits P m → ((a : A) → Emits P (f a)) → Emits P (m >>= f)
    Emits->>= m f h k s = continue-Adds (m s).0 f s (m s).1 (h s) k

    given-Adds :
        (x : Step A) (f : A → Io B) (s t : List Effect)
        → Adds P s t
        → ((a : A) → x ≡ done a → Emits P (f a))
        → Adds P s (continue x f t).1
    given-Adds (done a) f s t h k = added_after h (k a refl t)
    given-Adds (failed e) f s t h k = h
    given-Adds panicked f s t h k = h

    -- where the effects of the rest hang on what the first call gives
    pub Emits-given :
        (m : Io A) (f : A → Io B)
        → Emits P m
        → ((s : List Effect) (a : A) → (m s).0 ≡ done a → Emits P (f a))
        → Emits P (m >>= f)
    Emits-given m f h k s = given-Adds (m s).0 f s (m s).1 (h s) λ a e. k s a e

  module _ {ℓ} {A : Type ℓ} where
    reply_of-Adds : (x : Step A) (s t : List Effect) → Adds P s t → Adds P s (reply_of (x, t)).1
    reply_of-Adds (done a) s t h = h
    reply_of-Adds (failed e) s t h = h
    reply_of-Adds panicked s t h = h

    pub Emits-attempt : (m : Io A) → Emits P m → Emits P (attempt m)
    Emits-attempt m h s = reply_of-Adds (m s).0 s (m s).1 (h s)

module _ {P Q : Effect → Type 0} (weaken : (e : Effect) → P e → Q e) where
  pub Emits-weaken {ℓ} : {A : Type ℓ} (m : Io A) → Emits P m → Emits Q m
  Emits-weaken m h s =
      let a = h s in
      record {
        added = a.added;
        is_after = a.is_after;
        each_one = All-weaken weaken a.added a.each_one;
      }

-- A call that is done was done up to each of its steps.
pub >>=-eq-done {ℓ κ} :
    {A : Type ℓ} {B : Type κ} (m : Io A) (f : A → Io B) (s : List Effect) {b : B}
    → ((m >>= f) s).0 ≡ done b
    → (a : A) × ((m s).0 ≡ done a) × ((f a (m s).1).0 ≡ done b)
>>=-eq-done {A = A} {B} m f s {b} = go (m s).0 (m s).1
  where
    go :
        (x : Step A) (t : List Effect)
        → (continue x f t).0 ≡ done b
        → (a : A) × (x ≡ done a) × ((f a t).0 ≡ done b)
    go (done a) t h = (a, refl, h)
    go (failed e) t h = cc
    go panicked t h = cc
