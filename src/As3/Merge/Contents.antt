-- ===== src/As3/Merge/Contents.antt =====
-- What `policyMergeFullJson` of pkg/as3/utils.go makes of a policy, as a whole.
use container_egress_service.Prelude.{
  String, ◌≡◌, refl, sym, ◌∙◌, ap, Bool, true, false, not, List, [], ◌∷◌, ◌&&◌, ◌||◌, any, All,
  arith, eq_iff, ◌==◌,
}
use container_egress_service.Prelude.Text.{contains}
use container_egress_service.As3.Types.{Use, FirewallPolicy}
use container_egress_service.As3.Merge.Policy.{is_deny, deny_to_end, merge_rules, merge_policy}
use container_egress_service.As3.Merge.Order.{deny_to_end-perm, last_is, last_is-deny_to_end}
use container_egress_service.As3.Merge.Members.{
  has_path, IsUnique, takes, any-perm, has_path-deny_to_end, has_path-merge_rules-add,
  has_path-merge_rules-delete, IsUnique-merge_rules-add, IsUnique-merge_rules-delete,
  IsUnique-deny_to_end, deny_to_end_idem, merge_rules-present, All-weaken,
}

module _ (deny : String) where
  any-takes :
      (y : String) (us : List Use)
      → any (λ d. takes deny d y) us ≡ (has_path y us && not (contains y deny))
  any-takes y [] = refl
  any-takes y (u ∷ us) = ground (arith, eq_iff y u.path, any-takes y us)

  -- Whatever the two policies are and whether rules are added or deleted: the merged policy has a
  -- rule that names the rule list which denies all, exactly if its last rule does.
  pub merge_policy-deny_last :
      (is_delete : Bool) (src delta : FirewallPolicy)
      → any (is_deny deny) (merge_policy deny is_delete src delta).rules
        ≡ last_is (is_deny deny) (merge_policy deny is_delete src delta).rules
  unfolding merge_policy
  merge_policy-deny_last is_delete src delta =
      let rules = merge_rules deny is_delete src.rules delta.rules in
      any-perm (is_deny deny) (deny_to_end-perm deny rules) ∙ sym (last_is-deny_to_end deny rules)

  -- An addition: the merged policy names a path exactly if one of the two policies does.
  pub has_path-merge_policy-add :
      (x : String) (src delta : FirewallPolicy)
      → has_path x (merge_policy deny false src delta).rules
        ≡ (has_path x src.rules || has_path x delta.rules)
  unfolding merge_policy
  has_path-merge_policy-add x src delta =
      has_path-deny_to_end deny x (merge_rules deny false src.rules delta.rules)
      ∙ has_path-merge_rules-add deny x src.rules delta.rules

  -- A deletion from a policy in which no path stands twice: a path is left exactly if it was there
  -- and the request does not name it, or names it as the rule list that denies all.
  pub has_path-merge_policy-delete :
      (x : String) (src delta : FirewallPolicy)
      → IsUnique src.rules
      → has_path x (merge_policy deny true src delta).rules
        ≡ (has_path x src.rules && not (has_path x delta.rules && not (contains x deny)))
  unfolding merge_policy
  has_path-merge_policy-delete x src delta h =
      has_path-deny_to_end deny x (merge_rules deny true src.rules delta.rules)
      ∙ has_path-merge_rules-delete deny x src.rules delta.rules h
      ∙ ap (λ b. has_path x src.rules && not b) (any-takes x delta.rules)

  -- Additions and deletions keep a policy in which no path stands twice.
  pub merge_policy-IsUnique :
      (is_delete : Bool) (src delta : FirewallPolicy)
      → IsUnique src.rules
      → IsUnique (merge_policy deny is_delete src delta).rules
  unfolding merge_policy
  merge_policy-IsUnique true src delta h =
      IsUnique-deny_to_end deny _ (IsUnique-merge_rules-delete deny src.rules delta.rules h)
  merge_policy-IsUnique false src delta h =
      IsUnique-deny_to_end deny _ (IsUnique-merge_rules-add deny src.rules delta.rules h)

  -- Adding the same rules a second time changes nothing, not even the order.
  pub merge_policy-add_idem :
      (src delta : FirewallPolicy)
      → merge_policy deny false (merge_policy deny false src delta) delta
        ≡ merge_policy deny false src delta
  unfolding merge_policy
  merge_policy-add_idem src delta =
      ap (λ rules. record src { rules = rules })
        (ap (deny_to_end deny) (merge_rules-present deny merged delta.rules present)
          ∙ deny_to_end_idem deny merged
              (last_is-deny_to_end deny rules ∙ sym (any-merged (is_deny deny))))
    where
      rules : List Use
      rules = merge_rules deny false src.rules delta.rules

      merged : List Use
      merged = deny_to_end deny rules

      any-merged : (p : Use → Bool) → any p merged ≡ any p rules
      any-merged p = any-perm p (deny_to_end-perm deny rules)

      present : All (λ d. has_path d.path merged ≡ true) delta.rules
      present =
          All-weaken deny merged delta.rules delta.rules
            (λ x m.
              any-merged (λ s. x == s.path)
              ∙ has_path-merge_rules-add deny x src.rules delta.rules
              ∙ ground arith)
            (λ x m. m)
