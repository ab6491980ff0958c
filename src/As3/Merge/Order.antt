-- ===== src/As3/Merge/Order.antt =====
-- The order of a merged policy: `deny_to_end` only moves rules, and a rule that denies all is last.
use container_egress_service.Prelude.{
  String, ◌≡◌, refl, ◌∙◌, ap, Bool, true, false, inl, inr, List, [], ◌∷◌, any, arith, Bool-cases,
}
use mathlib.Core.List.{Perm}
use mathlib.Core.List.Perm
use container_egress_service.As3.Types.{Use}
use container_egress_service.As3.Merge.Policy.{
  is_deny, last_or, with_last, swap_with_last, deny_to_end,
}

-- whether the last rule passes a test
abbrev pub last_is : (Use → Bool) → List Use → Bool
last_is p [] = false
last_is p (u ∷ us) = p (last_or u us)

with_last-perm :
    (u : Use) (us : List Use) (d : Use) → Perm (last_or u us ∷ with_last u us d) (d ∷ u ∷ us)
with_last-perm u [] d = Perm.swap d u []
with_last-perm u (v ∷ vs) d =
    Perm.trans (Perm.swap u (last_or v vs) (with_last v vs d))
      (Perm.trans (Perm.cons u (with_last-perm v vs d)) (Perm.swap d u (v ∷ vs)))

swap_with_last-perm : (d : Use) (us : List Use) → Perm (swap_with_last d us) (d ∷ us)
swap_with_last-perm d [] = Perm.refl (d ∷ [])
swap_with_last-perm d (v ∷ vs) = with_last-perm v vs d

module _ (deny : String) where
  -- The rules are those before, in another order.
  pub deny_to_end-perm : (us : List Use) → Perm (deny_to_end deny us) us
  unfolding deny_to_end
  deny_to_end-perm [] = Perm.refl []
  deny_to_end-perm (u ∷ us) = elim (Bool-cases (any (is_deny deny) us)) [
    | inl later ↦ rw later (Perm.cons u (deny_to_end-perm us))
    | inr last ↦ elim (Bool-cases (is_deny deny u)) [
      | inl hit ↦ rw (last, hit) (swap_with_last-perm u us)
      | inr miss ↦ rw (last, miss) (Perm.refl (u ∷ us))
    ]
  ]

  last_or-with_last : (x u : Use) (us : List Use) (d : Use) → last_or x (with_last u us d) ≡ d
  last_or-with_last x u [] d = refl
  last_or-with_last x u (v ∷ vs) d = last_or-with_last u v vs d

  last_or_of_last :
      (p : Use → Bool) (u : Use) (us : List Use) → last_is p us ≡ true → p (last_or u us) ≡ true
  last_or_of_last p u [] h = cc
  last_or_of_last p u (v ∷ vs) h = h

  pub last_or_of_none :
      (p : Use → Bool) (u : Use) (us : List Use)
      → p u ≡ false
      → any p us ≡ false
      → p (last_or u us) ≡ false
  last_or_of_none p u [] h k = h
  last_or_of_none p u (v ∷ vs) h k = last_or_of_none p v vs (ground arith) (ground arith)

  last_is-swap_with_last :
      (p : Use → Bool) (d : Use) (us : List Use) → last_is p (swap_with_last d us) ≡ p d
  last_is-swap_with_last p d [] = refl
  last_is-swap_with_last p d (v ∷ vs) = ap p (last_or-with_last (last_or v vs) v vs d)

  pub last_is-deny_to_end :
      (us : List Use) → last_is (is_deny deny) (deny_to_end deny us) ≡ any (is_deny deny) us
  unfolding deny_to_end
  last_is-deny_to_end [] = refl
  last_is-deny_to_end (u ∷ us) = elim (Bool-cases (any (is_deny deny) us)) [
    | inl later ↦ rw later (
        last_or_of_last (is_deny deny) u (deny_to_end deny us) (last_is-deny_to_end us ∙ later)
        ∙ ground arith)
    | inr last ↦ elim (Bool-cases (is_deny deny u)) [
      | inl hit ↦ rw (last, hit) (last_is-swap_with_last (is_deny deny) u us ∙ hit)
      | inr miss ↦ rw (last, miss) (last_or_of_none (is_deny deny) u us miss last)
    ]
  ]
