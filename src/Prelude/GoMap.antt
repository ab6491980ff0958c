-- ===== src/Prelude/GoMap.antt =====
-- Go's `map[string]V` as an association list. The order of the list is the order in which a `range`
-- loop meets the entries: Go leaves that order open, so what matters must not depend on it.
use mathlib.Core.Path.{◌≡◌, refl}
use mathlib.Core.Bool.{Bool, true, false, not, ◌&&◌, ◌||◌}
use mathlib.Core.Option.{Option, none, some}
use mathlib.Core.List.{List, [], ◌∷◌}
use Prim.Native.String.{String}
use native.Mathlib.Omega.{arith}
use text.Mathlib.Text.{◌==◌}
use text.Mathlib.TextEquality.{eq_iff}
use mathlib.Core.Path.{◌∙◌}
use mathlib.Core.Logic.{inl, inr}
use container_egress_service.Prelude.Tests.{if◌then◌else◌, Bool-cases}

abbrev pub GoMap {ℓ} : Type ℓ → Type ℓ
GoMap V = List (String × V)

module _ {ℓ} {V : Type ℓ} where
  -- delete(m, k)
  unfoldable pub delete : String → GoMap V → GoMap V
  delete gone [] = []
  delete gone ((key, held) ∷ others) =
      let rest = delete gone others in if key == gone then rest else (key, held) ∷ rest

  -- v, ok := m[k]
  unfoldable pub lookup : String → GoMap V → Option V
  lookup wanted [] = none
  lookup wanted ((key, held) ∷ others) = if key == wanted then some held else lookup wanted others

  -- m[k] = v
  unfoldable pub insert : String → V → GoMap V → GoMap V
  insert new v [] = (new, v) ∷ []
  insert new v ((key, held) ∷ others) =
      if key == new then (new, v) ∷ others else (key, held) ∷ insert new v others

  abbrev pub has : String → GoMap V → Bool
  has k m = elim (lookup k m) [ none ↦ false | some _ ↦ true ]

  pub lookup-delete :
      (k j : String) (m : GoMap V) → lookup j (delete k m) ≡ (if k == j then none else lookup j m)
  unfolding lookup delete
  lookup-delete k j [] = ground arith
  lookup-delete k j ((i, v) ∷ m) =
      ground (arith, lookup-delete k j m, eq_iff i k, eq_iff i j, eq_iff k j)

  pub lookup-insert :
      (new wanted : String) (value : V) (m : GoMap V)
      → lookup wanted (insert new value m) ≡ (if new == wanted then some value else lookup wanted m)
  unfolding lookup insert
  lookup-insert new wanted value [] = refl
  lookup-insert new wanted value ((key, held) ∷ others) = ground (
    lookup-insert new wanted value others,
    eq_iff key new,
    eq_iff new wanted,
    eq_iff key wanted,
    arith,
  )

pub ruleset map_laws = (lookup-insert, lookup-delete)

-- no key stands twice, as in every Go map
abbrev pub IsMap {ℓ} : {V : Type ℓ} → GoMap V → Type 0
IsMap [] = Unit
IsMap ((k, v) ∷ m) = (has k m ≡ false) × IsMap m

module _ {ℓ} {V : Type ℓ} where
  pub lookup_absent : (k : String) (m : GoMap V) → has k m ≡ false → lookup k m ≡ none
  lookup_absent k m h = ground arith

  -- A key that is found is the first of the entries, or stands further on.
  pub lookup_first :
      (k j : String) (v : V) (m : GoMap V)
      → has j m ≡ false
      → (j == k) ≡ true
      → (lookup k ((j, v) ∷ m) ≡ some v) × (lookup k m ≡ none)
  unfolding lookup
  lookup_first k j v m absent hit = (rw hit, rw ((eq_iff j k).0 hit) at (lookup_absent j m absent))

  pub has-insert :
      (k j : String) (v : V) (m : GoMap V) → has j (insert k v m) ≡ ((k == j) || has j m)
  has-insert k j v m = ground (arith, lookup-insert k j v m)

  pub has-delete : (k j : String) (m : GoMap V) → has j (delete k m) ≡ (not (k == j) && has j m)
  has-delete k j m = ground (arith, lookup-delete k j m)

  pub insert-IsMap : (k : String) (v : V) (m : GoMap V) → IsMap m → IsMap (insert k v m)
  unfolding insert lookup
  insert-IsMap k v [] h = (refl, tt)
  insert-IsMap k v ((j, w) ∷ m) h = elim (Bool-cases (j == k)) [
    | inl hit ↦ rw hit (rw ((eq_iff j k).0 hit) at h.0, h.1)
    | inr miss ↦
        rw miss
          (has-insert k j v m ∙ ground (arith, eq_iff j k, eq_iff k j), insert-IsMap k v m h.1)
  ]

  pub delete-IsMap : (k : String) (m : GoMap V) → IsMap m → IsMap (delete k m)
  unfolding delete
  delete-IsMap k [] h = tt
  delete-IsMap k ((j, v) ∷ m) h = ground (arith, delete-IsMap k m h.1, has-delete k j m)
