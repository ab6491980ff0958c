-- ===== src/As3/Merge/Members.antt =====
-- Which rules a merged policy has: an addition adds those of the request that are not there yet, a
-- deletion takes them away but for the rule that denies all.
use mathlib.Core.List.{Perm, Permᴰ}
use mathlib.Core.List.Perm
use mathlib.Core.Path.{subst}
use mathlib.Core.Logic.{∥∥₁_elim}
use mathlib.Core.Bool.{Bool-set}
use container_egress_service.Prelude.{
  String, ◌≡◌, refl, ◌∙◌, ap, Bool, true, false, not, inl, inr, List, [], ◌∷◌, ◌++◌, ◌&&◌, ◌||◌,
  any, All, arith, eq_iff, any-append, ◌==◌, Bool-cases, if◌then◌else◌,
}
use container_egress_service.Prelude.Text.{contains}
use container_egress_service.As3.Types.{Use}
use container_egress_service.As3.Merge.Policy.{
  is_deny, deny_to_end, scan_rules, merge_rule, merge_rules,
}
use container_egress_service.As3.Merge.Order.{deny_to_end-perm, last_is, last_or_of_none}

any-permᴰ {ℓ} : {A : Type ℓ} (p : A → Bool) {xs ys : List A} → Permᴰ xs ys → any p xs ≡ any p ys
any-permᴰ p Permᴰ.nil = refl
any-permᴰ p (Permᴰ.cons e h) = cc (ap p e, any-permᴰ p h)
any-permᴰ p (Permᴰ.swap {a = a} {b = b} {a' = c} {b' = d} e f) = ground (arith, ap p e, ap p f)
any-permᴰ p (Permᴰ.trans h k) = any-permᴰ p h ∙ any-permᴰ p k

pub any-perm {ℓ} : {A : Type ℓ} (p : A → Bool) {xs ys : List A} → Perm xs ys → any p xs ≡ any p ys
any-perm p h = ∥∥₁_elim h (Bool-set _ _) (any-permᴰ p)

-- whether a policy names a path
abbrev pub has_path : String → List Use → Bool
has_path x = any (λ s. x == s.path)

-- no path stands twice
abbrev pub IsUnique : List Use → Type 0
IsUnique [] = Unit
IsUnique (u ∷ us) = (has_path u.path us ≡ false) × IsUnique us

module _ (deny : String) where
  -- `deny_to_end` names the same paths.
  pub has_path-deny_to_end :
      (x : String) (us : List Use) → has_path x (deny_to_end deny us) ≡ has_path x us
  has_path-deny_to_end x us = any-perm (λ s. x == s.path) (deny_to_end-perm deny us)

  scan-add :
      (d : Use) (rules : List Use) → scan_rules deny false d rules ≡ (has_path d.path rules, rules)
  unfolding scan_rules
  scan-add d [] = refl
  scan-add d (s ∷ rest) = rw (scan-add d rest) (ground arith)

  pub merge_rule-add :
      (rules : List Use) (d : Use)
      → merge_rule deny false rules d ≡ (if has_path d.path rules then rules else rules ++ d ∷ [])
  unfolding merge_rule
  merge_rule-add rules d = rw (scan-add d rules) (ground arith)

  has_path-merge_rule-add :
      (x : String) (rules : List Use) (d : Use)
      → has_path x (merge_rule deny false rules d) ≡ (has_path x rules || (x == d.path))
  has_path-merge_rule-add x rules d =
      rw (merge_rule-add rules d)
        (ground (arith, eq_iff x d.path, any-append (λ s. x == s.path) rules (d ∷ [])))

  pub has_path-merge_rules-add :
      (x : String) (rules delta : List Use)
      → has_path x (merge_rules deny false rules delta) ≡ (has_path x rules || has_path x delta)
  unfolding merge_rules
  has_path-merge_rules-add x rules [] = ground arith
  has_path-merge_rules-add x rules (d ∷ delta) = ground (
    arith,
    has_path-merge_rules-add x (merge_rule deny false rules d) delta,
    has_path-merge_rule-add x rules d,
  )

  -- whether a deletion of `d` takes the path away
  abbrev pub takes : Use → String → Bool
  takes d x = (x == d.path) && not (contains d.path deny)

  has_path-scan-delete :
      (x : String) (d : Use) (rules : List Use)
      → IsUnique rules
      → has_path x (scan_rules deny true d rules).1 ≡ (has_path x rules && not (takes d x))
  unfolding scan_rules
  has_path-scan-delete x d [] h = refl
  has_path-scan-delete x d (s ∷ rest) h = ground (
    arith,
    has_path-scan-delete x d rest h.1,
    eq_iff x d.path,
    eq_iff x s.path,
    eq_iff d.path s.path,
  )

  IsUnique-scan-delete :
      (d : Use) (rules : List Use) → IsUnique rules → IsUnique (scan_rules deny true d rules).1
  unfolding scan_rules
  IsUnique-scan-delete d [] h = tt
  IsUnique-scan-delete d (s ∷ rest) h =
      ground (arith, IsUnique-scan-delete d rest h.1, has_path-scan-delete s.path d rest h.1)

  pub merge_rule-delete :
      (rules : List Use) (d : Use) → merge_rule deny true rules d ≡ (scan_rules deny true d rules).1
  unfolding merge_rule
  merge_rule-delete rules d = ground arith

  pub has_path-merge_rules-delete :
      (x : String) (rules delta : List Use)
      → IsUnique rules
      → has_path x (merge_rules deny true rules delta)
        ≡ (has_path x rules && not (any (λ d. takes d x) delta))
  unfolding merge_rules
  has_path-merge_rules-delete x rules [] h = ground arith
  has_path-merge_rules-delete x rules (d ∷ delta) h = rw (merge_rule-delete rules d) (
      ground (
        arith,
        has_path-merge_rules-delete x (scan_rules deny true d rules).1 delta
            (IsUnique-scan-delete d rules h),
        has_path-scan-delete x d rules h,
      ))

  pub IsUnique-merge_rules-delete :
      (rules delta : List Use) → IsUnique rules → IsUnique (merge_rules deny true rules delta)
  unfolding merge_rules
  IsUnique-merge_rules-delete rules [] h = h
  IsUnique-merge_rules-delete rules (d ∷ delta) h = rw (merge_rule-delete rules d) (
      IsUnique-merge_rules-delete (scan_rules deny true d rules).1 delta
        (IsUnique-scan-delete d rules h))

  IsUnique-append :
      (rules : List Use) (d : Use)
      → IsUnique rules
      → has_path d.path rules ≡ false
      → IsUnique (rules ++ d ∷ [])
  IsUnique-append [] d h fresh = (refl, tt)
  IsUnique-append (s ∷ rest) d h fresh = (
    ground (
      arith,
      any-append (λ t. s.path == t.path) rest (d ∷ []),
      eq_iff d.path s.path,
      eq_iff s.path d.path,
    ),
    IsUnique-append rest d h.1 (ground arith),
  )

  pub IsUnique-merge_rules-add :
      (rules delta : List Use) → IsUnique rules → IsUnique (merge_rules deny false rules delta)
  unfolding merge_rules
  IsUnique-merge_rules-add rules [] h = h
  IsUnique-merge_rules-add rules (d ∷ delta) h = elim (Bool-cases (has_path d.path rules)) [
    | inl old ↦ rw (merge_rule-add rules d, old) (IsUnique-merge_rules-add rules delta h)
    | inr new ↦
        rw (merge_rule-add rules d, new)
          (IsUnique-merge_rules-add (rules ++ d ∷ []) delta (IsUnique-append rules d h new))
  ]

  IsUnique-prop : (us : List Use) → IsProp (IsUnique us)
  IsUnique-prop [] = hlevel
  IsUnique-prop (u ∷ us) = hlevel (Bool-set, IsUnique-prop us)

  IsUnique-swap : (a b : Use) (l : List Use) → IsUnique (a ∷ b ∷ l) → IsUnique (b ∷ a ∷ l)
  IsUnique-swap a b l h = ground (arith, eq_iff a.path b.path, eq_iff b.path a.path)

  IsUnique-permᴰ : {us vs : List Use} → Permᴰ us vs → IsUnique us → IsUnique vs
  IsUnique-permᴰ Permᴰ.nil h = h
  IsUnique-permᴰ (Permᴰ.cons {a = a} {b = b} {l₁ = l} {l₂ = m} e p) h =
      (rw (← e, ← any-permᴰ (λ s. a.path == s.path) p) h.0, IsUnique-permᴰ p h.1)
  IsUnique-permᴰ (Permᴰ.swap {a = a} {b = b} {a' = c} {b' = d} {l = l} e f) h =
      subst (λ t. IsUnique (t ∷ d ∷ l)) f
        (subst (λ t. IsUnique (b ∷ t ∷ l)) e (IsUnique-swap a b l h))
  IsUnique-permᴰ (Permᴰ.trans p q) h = IsUnique-permᴰ q (IsUnique-permᴰ p h)

  pub IsUnique-deny_to_end : (us : List Use) → IsUnique us → IsUnique (deny_to_end deny us)
  IsUnique-deny_to_end us h =
      ∥∥₁_elim (Perm.symm (deny_to_end-perm deny us)) (IsUnique-prop _) (λ p. IsUnique-permᴰ p h)

  pub deny_to_end_idem :
      (us : List Use) → last_is (is_deny deny) us ≡ any (is_deny deny) us → deny_to_end deny us ≡ us
  unfolding deny_to_end
  deny_to_end_idem [] h = refl
  deny_to_end_idem (u ∷ []) h = ground arith
  deny_to_end_idem (u ∷ v ∷ vs) h = elim (Bool-cases (any (is_deny deny) (v ∷ vs))) [
    | inl later ↦ rw later (ap (λ t. u ∷ t) (deny_to_end_idem (v ∷ vs) (h ∙ ground arith)))
    | inr last ↦ elim (Bool-cases (is_deny deny u)) [
      | inl hit ↦
          cc (h, last, last_or_of_none deny (is_deny deny) v vs (ground arith) (ground arith), hit)
      | inr miss ↦ rw (last, miss)
    ]
  ]

  pub merge_rules-present :
      (rules delta : List Use)
      → All (λ d. has_path d.path rules ≡ true) delta
      → merge_rules deny false rules delta ≡ rules
  unfolding merge_rules
  merge_rules-present rules [] h = refl
  merge_rules-present rules (d ∷ delta) h =
      rw (merge_rule-add rules d, h.0) (merge_rules-present rules delta h.1)

  pub All-weaken :
      (rules delta more : List Use)
      → ((x : String) → has_path x delta ≡ true → has_path x rules ≡ true)
      → ((x : String) → has_path x more ≡ true → has_path x delta ≡ true)
      → All (λ d. has_path d.path rules ≡ true) more
  All-weaken rules delta [] sub within = tt
  All-weaken rules delta (d ∷ more) sub within = (
    sub d.path (within d.path (ground (arith, eq_iff d.path d.path))),
    All-weaken rules delta more sub (λ x m. within x (ground arith)),
  )
