-- ===== src/As3/Closed/Tenants.antt =====
-- The defaults of a tenant are closed, and so is every declaration that
-- `generateAS3ResourceDeclaration` of pkg/as3/utils.go makes.
use container_egress_service.Prelude.{
  String, ◌≡◌, refl, true, false, inl, inr, Option, none, some, [], All, All-append, eq_iff, ◌==◌,
  Bool-cases,
}
use mathlib.Core.Path.{subst}
use container_egress_service.Prelude.Outcome.{returns, deref, returns-injective, >>=-eq-returns}
use container_egress_service.Prelude.GoMap.{GoMap, lookup, insert, has, lookup-insert}
use container_egress_service.As3.Types.{FirewallPolicy, TenantConfig, default_partition}
use container_egress_service.As3.Config.{
  Registry, get_tenant_config_for_partition, get_master_cluster,
}
use container_egress_service.As3.Attrs.{get_as3_policy_attr, get_all_deny_rule_list_attr}
use container_egress_service.As3.Environment.{Environment}
use container_egress_service.As3.Resource.{
  Resource, App, plain, address_list, port_list, rule_list, policy, pool, virtual_server,
  virtual_address, json,
}
use container_egress_service.As3.Rules.{As3Post}
use container_egress_service.As3.Firewall.{new_firewall_policy}
use container_egress_service.As3.Tenant.{
  As3Tenant, deny_all_rule_list, with_deny, all_deny_rule_list, application_init_default,
  tenant_init_default,
}
use container_egress_service.As3.Declaration.{
  process_resources_for_as3, tenant_or_default, generate_as3_resource_declaration,
}
use container_egress_service.As3.Closed.{
  Refers, Holds, IsClosed, Grows, Extends-if, unchanged, Holds-mono, insert-Grows, has-inserted,
  insert-ClosedIn, insert-IsClosed, insert-Extends,
}
use container_egress_service.As3.Closed.Rules.{append_not_empty}
use container_egress_service.As3.Closed.Posts.{LocalPost}
use container_egress_service.As3.Closed.Generated.{
  get_as3_use_path_for_partition-Refers, process_resources_for_as3-IsClosed,
}

module _ (home : String) where
  module _ (r : Registry) where
    empty-IsClosed : (IsClosed home) []
    unfolding lookup
    empty-IsClosed k v e = cc

    deny_named : (get_all_deny_rule_list_attr r == "") ≡ false
    unfolding get_all_deny_rule_list_attr
    deny_named = append_not_empty (get_master_cluster r) "_svc_deny_all_rule_list" refl

    -- the policy with the rule list that denies all, in an application that has that list
    with_deny-Refers :
        (big : App) (held : Option Resource)
        → (home == "") ≡ false
        → ((p : FirewallPolicy) → held ≡ some (policy p) → All ((Refers home) big) p.rules)
        → (has (get_all_deny_rule_list_attr r) big ≡ true)
        → All ((Refers home) big) (with_deny r home held).rules
    with_deny-Refers big none named h there = tt
    with_deny-Refers big (some (policy p)) named h there =
        All-append ((Refers home) big) p.rules _ (h p refl)
          ((get_as3_use_path_for_partition-Refers home) big home _ refl named deny_named there, tt)
    with_deny-Refers big (some (plain _)) named h there = tt
    with_deny-Refers big (some (address_list _)) named h there = tt
    with_deny-Refers big (some (port_list _)) named h there = tt
    with_deny-Refers big (some (rule_list _)) named h there = tt
    with_deny-Refers big (some (pool _)) named h there = tt
    with_deny-Refers big (some (virtual_server _)) named h there = tt
    with_deny-Refers big (some (virtual_address _)) named h there = tt
    with_deny-Refers big (some (json _)) named h there = tt

    all_deny_rule_list-IsClosed :
        (attr : String) (app : App)
        → (home == "") ≡ false
        → (IsClosed home) app
        → (IsClosed home) (all_deny_rule_list r home attr app)
    unfolding all_deny_rule_list
    all_deny_rule_list-IsClosed attr app named closed =
        let deny = get_all_deny_rule_list_attr r in
        let denied = policy (with_deny r home (lookup attr app)) in
        let before = insert attr denied app in
        let big = insert deny (rule_list (deny_all_rule_list r)) before in
        let grown : Grows app big =
          λ k there. insert-Grows deny _ before k (insert-Grows attr denied app k there) in
        let there = has-inserted deny (rule_list (deny_all_rule_list r)) before in
        let held : (v : Resource) → (Holds home) app v → (Holds home) big v =
          (Holds-mono home) app big grown in
        let refers =
          with_deny-Refers big (lookup attr app) named
            (λ p e. held (policy p) (closed attr (policy p) e)) there in
        (insert-ClosedIn home) deny _ before big
          ((insert-ClosedIn home) attr denied app big (λ k v e. held v (closed k v e)) refers)
          (record { to_addresses = tt; to_ports = tt; from_addresses = tt; from_ports = tt }, tt)

    application_init_default-IsClosed :
        (app : App)
        → (home == "") ≡ false
        → application_init_default r home ≡ returns app
        → (IsClosed home) app
    unfolding application_init_default
    application_init_default-IsClosed app named e =
        let base = insert "template" (plain "shared") (insert "class" (plain "Application") []) in
        let base_closed =
          (insert-IsClosed home) "template" (plain "shared") _
            ((insert-IsClosed home) "class" (plain "Application") [] empty-IsClosed tt) tt in
        let global_attr = get_as3_policy_attr r "global" "" in
        let with_global =
          (Extends-if home) (home == default_partition) base _ base
            ((insert-Extends home) global_attr (policy new_firewall_policy) base tt)
            ((unchanged home) base) in
        let (tnt_cfg, got, e1) =
          >>=-eq-returns (deref (get_tenant_config_for_partition r home)) _ e in
        let two_more =
          (insert-IsClosed home) (get_as3_policy_attr r "svc" tnt_cfg.route_domain.name)
            (policy new_firewall_policy) _
            ((insert-IsClosed home) (get_as3_policy_attr r "ns" tnt_cfg.route_domain.name)
              (policy new_firewall_policy) _ (with_global.closed base_closed) tt)
            tt in
        subst (IsClosed home) (returns-injective e1)
          (all_deny_rule_list-IsClosed _ _ named two_more)

    tenant_init_default-IsClosed :
        (t : As3Tenant)
        → (home == "") ≡ false
        → tenant_init_default r home ≡ returns t
        → (IsClosed home) t.shared
    unfolding tenant_init_default
    tenant_init_default-IsClosed t named e =
        let (app, got, e1) = >>=-eq-returns (application_init_default r home) _ e in
        let (tntcfg, got1, e2) =
          >>=-eq-returns (deref (get_tenant_config_for_partition r home)) _ e1 in
        subst (λ t. (IsClosed home) t.shared) (returns-injective e2)
          (application_init_default-IsClosed app named got)

    tenant_or_default-IsClosed :
        (adc : GoMap As3Tenant) (found : Option As3Tenant) (t : As3Tenant)
        → (home == "") ≡ false
        → elim found [ some held ↦ returns held | none ↦ tenant_init_default r home ] ≡ returns t
        → ((held : As3Tenant) → found ≡ some held → (IsClosed home) held.shared)
        → (IsClosed home) t.shared
    tenant_or_default-IsClosed adc none t named made h = tenant_init_default-IsClosed t named made
    tenant_or_default-IsClosed adc (some held) t named made h =
        let q : held ≡ t = cc in subst (λ t. (IsClosed home) t.shared) q (h held refl)

the_tenant :
    (o : Option TenantConfig) (t u : TenantConfig) → o ≡ some t → deref o ≡ returns u → t ≡ u
the_tenant none t u e h = cc
the_tenant (some v) t u e h = cc

-- Let every tenant of a declaration be closed, and let the rules of the request be of namespaces of its
-- own tenant. Then every tenant is closed after generateAS3ResourceDeclaration: each address list
-- and port list that a rule names, each rule list that a policy names, and the pool and the addresses
-- of a virtual server that does not come from a template stand in the shared application of that
-- tenant, and the paths name its partition.
pub generate_as3_resource_declaration-IsClosed :
    (r : Registry) (env : Environment) (ac : As3Post) (tenant : TenantConfig)
    (adc adc' : GoMap As3Tenant)
    → ac.tenant_config ≡ some tenant
    → (tenant.name == "") ≡ false
    → LocalPost tenant.name r ac
    → generate_as3_resource_declaration r env ac adc ≡ returns adc'
    → ((name : String) (t : As3Tenant) → lookup name adc ≡ some t → IsClosed name t.shared)
    → (name : String) (t : As3Tenant) → lookup name adc' ≡ some t
    → IsClosed name t.shared
unfolding generate_as3_resource_declaration
generate_as3_resource_declaration-IsClosed r env ac tenant adc adc' own named post e h name t
      found =
    let (tntcfg, got, e0) = >>=-eq-returns (deref ac.tenant_config) _ e in
    let home = tntcfg.name in
    let same_tenant = the_tenant ac.tenant_config tenant tntcfg own got in
    let post' : LocalPost home r ac = subst (λ t. LocalPost t.name r ac) same_tenant post in
    let named' : (home == "") ≡ false = subst (λ t. (t.name == "") ≡ false) same_tenant named in
    let (old, had, e1) = >>=-eq-returns (tenant_or_default r adc home) _ e0 in
    let (app, made, e2) = >>=-eq-returns (process_resources_for_as3 r env ac old.shared) _ e1 in
    let new = record old { shared = app } in
    let q : insert home new adc ≡ adc' = returns-injective e2 in
    let start = tenant_or_default-IsClosed home r adc (lookup home adc) old named' had (h home) in
    let closed =
      process_resources_for_as3-IsClosed home r env ac old.shared app post' named' made start in
    let there : lookup name (insert home new adc) ≡ some t = rw q found in
    elim (Bool-cases (home == name)) [
      | inl hit ↦
          let w : some new ≡ some t = rw (lookup-insert home name new adc, hit) at there in
          let same : new ≡ t = cc in
          subst (λ n. IsClosed n t.shared) ((eq_iff home name).0 hit)
            (subst (λ t. IsClosed home t.shared) same closed)
      | inr miss ↦ h name t (rw (lookup-insert home name new adc, miss) at there)
    ]
