-- ===== src/Prelude/Outcome.antt =====
-- A Go call returns, or it panics: a failed type assertion, a nil pointer, an explicit `panic`.
use mathlib.Core.Path.{◌≡◌, refl}
use mathlib.Core.Option.{Option, none, some}
use mathlib.Core.List.{List, [], ◌∷◌}

pub data Outcome {ℓ} (A : Type ℓ) : Type ℓ where
  returns : A → Outcome A
  panics : Outcome A

infixl 5 ◌>>=◌ ◌>>◌
abbrev pub ◌>>=◌ {ℓ κ} : {A : Type ℓ} {B : Type κ} → Outcome A → (A → Outcome B) → Outcome B
returns a >>= f = f a
panics >>= f = panics

abbrev pub ◌>>◌ {ℓ} : {B : Type ℓ} → Outcome (Unit {0}) → Outcome B → Outcome B
m >> k = m >>= λ _. k

-- A nil pointer panics when it is dereferenced.
abbrev pub deref {ℓ} : {A : Type ℓ} → Option A → Outcome A
deref none = panics
deref (some a) = returns a

-- A loop over a slice, with the state that its body changes.
unfoldable pub each {ℓ κ} : {A : Type ℓ} {S : Type κ} → (S → A → Outcome S) → S → List A → Outcome S
each f s [] = returns s
each f s (x ∷ xs) = f s x >>= λ s'. each f s' xs

pub returns-injective {ℓ} : {A : Type ℓ} {a b : A} → returns a ≡ returns b → a ≡ b
returns-injective h = cc

-- Inversion of a bind that returns.
pub >>=-eq-returns {ℓ κ} :
    {A : Type ℓ} {B : Type κ} (m : Outcome A) (f : A → Outcome B) {b : B}
    → (m >>= f) ≡ returns b
    → (a : A) × (m ≡ returns a) × (f a ≡ returns b)
>>=-eq-returns (returns a) f h = (a, refl, h)
>>=-eq-returns panics f h = cc

-- An invariant of the body is one of the loop.
pub each-keeps {ℓ κ μ} :
    {A : Type ℓ} {S : Type κ} (P : S → Type μ) (f : S → A → Outcome S)
    → ((s s' : S) (a : A) → f s a ≡ returns s' → P s → P s')
    → (xs : List A) (s s' : S) → each f s xs ≡ returns s'
    → P s
    → P s'
unfolding each
each-keeps P f step [] s s' e h = let q : s ≡ s' = cc in rw (q) at h
each-keeps P f step (x ∷ xs) s s' e h =
    let (a, first, rest) = >>=-eq-returns (f s x) (λ t. each f t xs) e in
    each-keeps P f step xs a s' rest (step s a x first h)
