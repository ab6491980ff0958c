-- ===== src/Prelude/Text/Parts.antt =====
-- Texts inside others, and the parts of a text between separators.
use Prim.Native.Nat.{ℕ}
use Prim.Native.Char.{Char, code}
use Prim.Native.String.{String}
use mathlib.Core.Path.{◌≡◌, refl}
use mathlib.Core.Bool.{Bool, true, false}
use mathlib.Core.List.{List, [], ◌∷◌}
use native.Mathlib.Omega.{arith}
use text.Mathlib.Text.{starts_with}
use text.Mathlib.TextLemmas.{nil-append, cons-append}
use text.Mathlib.TextPositions.{starts_with-append}
use container_egress_service.Prelude.Tests.{nat_eq, if◌then◌else◌}
use container_egress_service.Prelude.Text.{◌⊕◌, contains, split, split_step}

pub contains_at_start : (s t : String) → starts_with s t ≡ true → contains s t ≡ true
unfolding contains
contains_at_start String.[] t h = h
contains_at_start (String.◌∷◌ c s) t h = ground arith

pub contains-append : (t u : String) → contains (t ⊕ u) t ≡ true
contains-append t u = contains_at_start (t ⊕ u) t (starts_with-append t u)

-- what stands in the second of two texts stands in both together
pub contains_after : (s u t : String) → contains u t ≡ true → contains (s ⊕ u) t ≡ true
unfolding contains
contains_after String.[] u t h = rw (nil-append u) h
contains_after (String.◌∷◌ c s) u t h =
    rw (cons-append c s u) (ground (arith, contains_after s u t h))

-- the text has no such character
abbrev pub is_free : ℕ → String → Bool
is_free sep String.[] = true
is_free sep (String.◌∷◌ c s) = if nat_eq (code c) sep then false else is_free sep s

split_further :
    (b : Bool) (c : Char) (s : String) (parts rest : List String)
    → (if b then false else true) ≡ true
    → parts ≡ s ∷ rest
    → split_step b c parts ≡ String.◌∷◌ c s ∷ rest
split_further true c s parts rest h e = cc
split_further false c s parts rest h e = rw e refl

free_head :
    (b r : Bool)
    → (if b then false else r) ≡ true
    → ((if b then false else true) ≡ true) × (r ≡ true)
free_head true r h = cc
free_head false r h = (refl, h)

pub split-free : (sep : ℕ) (s : String) → is_free sep s ≡ true → split sep s ≡ s ∷ []
unfolding split
split-free sep String.[] h = refl
split-free sep (String.◌∷◌ c s) h =
    let (f, g) = free_head (nat_eq (code c) sep) (is_free sep s) h in
    split_further (nat_eq (code c) sep) c s (split sep s) [] f (split-free sep s g)

pub split-first :
    (sep : ℕ) (d : Char) (s u : String)
    → is_free sep s ≡ true
    → nat_eq (code d) sep ≡ true
    → split sep (s ⊕ String.◌∷◌ d u) ≡ s ∷ split sep u
unfolding split
split-first sep d String.[] u h e = rw (nil-append (String.◌∷◌ d u), e) refl
split-first sep d (String.◌∷◌ c s) u h e =
    let (f, g) = free_head (nat_eq (code c) sep) (is_free sep s) h in
    rw (cons-append c s (String.◌∷◌ d u)) (
      split_further (nat_eq (code c) sep) c s (split sep (s ⊕ String.◌∷◌ d u)) (split sep u) f
        (split-first sep d s u g e))

pub contains_inside : (a t b : String) → contains (a ⊕ (t ⊕ b)) t ≡ true
contains_inside a t b = contains_after a (t ⊕ b) t (contains-append t b)
