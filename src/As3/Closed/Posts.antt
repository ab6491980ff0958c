-- ===== src/As3/Closed/Posts.antt =====
-- The rules that `dealRule` of pkg/as3/utils.go collects belong to one partition.
use container_egress_service.Prelude.{
  String, ◌≡◌, sym, ◌∙◌, eq_iff, map, if◌then◌else◌, true, false, inl, inr, some, List, [], ◌∷◌,
  All, All-append, ◌==◌, Bool-cases,
}
use mathlib.Core.Path.{subst}
use container_egress_service.Prelude.Outcome.{returns, returns-injective, deref, >>=-eq-returns}
use container_egress_service.As3.Types.{TenantConfig, default_partition, RuleData}
use container_egress_service.As3.Config.{Registry}
use container_egress_service.As3.Rules.{
  As3Post, deal_rule, deal_cluster_rule, deal_namespace_rule, deal_service_rule,
}
use container_egress_service.As3.Closed.{Local}
use container_egress_service.As3.Closed.Rules.{deref-returns}

module _ (home : String) where
  -- a request whose rules of namespaces and of services belong to the partition
  pub record LocalPost (r : Registry) (ac : As3Post) : Type 0 where
    pub owned : (t : TenantConfig) → ac.tenant_config ≡ some t → t.name ≡ home
    pub of_namespaces : All (λ rule. Local home r rule.namespace) ac.namespace_egress_list
    pub of_services : All (λ rule. Local home r rule.namespace) ac.service_egress_list

  abbrev pub IsLocal : Registry → RuleData → Type 0
  IsLocal r rule = Local home r rule.namespace

  All-dealt :
      {A : Type 0} (r : Registry) (f : A → RuleData) (P : A → Type 0) (xs : List A)
      → ((a : A) → P a → IsLocal r (f a))
      → All P xs
      → All (IsLocal r) (map f xs)
  All-dealt r f P [] k h = tt
  All-dealt r f P (a ∷ xs) k h = (k a h.0, All-dealt r f P xs k h.1)

  everyone : {A : Type 0} (xs : List A) → All (λ a. Unit {0}) xs
  everyone [] = tt
  everyone (a ∷ xs) = (tt, everyone xs)

  pub deal_rule-IsLocal :
      (r : Registry) (ac : As3Post) (rules : List RuleData)
      → deal_rule r ac ≡ returns rules
      → LocalPost r ac
      → All (IsLocal r) rules
  unfolding deal_rule
  deal_rule-IsLocal r ac rules e post =
      let (tenant, got, e1) = >>=-eq-returns (deref ac.tenant_config) _ e in
      let own = post.owned tenant (deref-returns ac.tenant_config tenant got) in
      let global_ones : All (IsLocal r) (
          if tenant.name == default_partition
          then map (deal_cluster_rule r ac.external_service_list) ac.cluster_egress_list
          else []) =
        elim (Bool-cases (tenant.name == default_partition)) [
          | inr other ↦ rw other tt
          | inl common ↦ rw common (
              All-dealt r (deal_cluster_rule r ac.external_service_list) (λ a. Unit {0})
                ac.cluster_egress_list
                (λ rule u. record {
                  global = λ h. sym own ∙ (eq_iff tenant.name default_partition).0 common;
                  configured = λ t h held. let absurd : true ≡ false = h in cc;
                })
                (everyone ac.cluster_egress_list))
        ] in
      subst (All (IsLocal r)) (returns-injective e1) (
        All-append (IsLocal r) _ _ global_ones (
          All-append (IsLocal r) _ _
            (All-dealt r (deal_namespace_rule ac.external_service_list ac.namespace_list) _
              ac.namespace_egress_list (λ rule h. h) post.of_namespaces)
            (All-dealt r (deal_service_rule ac.external_service_list ac.endpoint_list) _
              ac.service_egress_list (λ rule h. h) post.of_services)))
