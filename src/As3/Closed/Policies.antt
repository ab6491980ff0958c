-- ===== src/As3/Closed/Policies.antt =====
-- `newPoliciesDecl` of pkg/as3/utils.go keeps a shared application closed.
use container_egress_service.Prelude.{
  String, ◌≡◌, refl, Option, none, some, List, [], ◌∷◌, ◌++◌, All, All-append,
}
use mathlib.Core.Path.{subst}
use container_egress_service.Prelude.Outcome.{returns, each, >>=-eq-returns}
use container_egress_service.Prelude.GoMap.{GoMap, lookup, insert}
use container_egress_service.Prelude.Text.{split}
use container_egress_service.As3.Types.{Use, FirewallPolicy, TenantConfig}
use container_egress_service.As3.Config.{Registry}
use container_egress_service.As3.Attrs.{get_as3_policy_attr}
use container_egress_service.As3.Environment.{Environment}
use container_egress_service.As3.Resource.{
  Resource, App, plain, address_list, port_list, rule_list, policy, pool, virtual_server,
  virtual_address, json,
}
use container_egress_service.As3.Rules.{As3Post}
use container_egress_service.As3.Firewall.{
  new_firewall_policy, cached_policy, prepend_to_tenant, type_and_namespace_of, add_policy,
  new_rules_decl, new_policies_decl,
}
use container_egress_service.As3.Closed.{
  Refers, IsClosed, Extends, unchanged, insert-Grows, insert-IsClosed,
}
use container_egress_service.As3.Closed.Posts.{LocalPost}
use container_egress_service.As3.Closed.RulesDecl.{Collected, Collected-mono, new_rules_decl-Listed}

module _ (home : String) where
  module _ (r : Registry) where
    cached_policy-Refers :
        (app : App) (attr : String) (found : Option Resource) (p : FirewallPolicy)
        → lookup attr app ≡ found
        → cached_policy r found ≡ returns p
        → (IsClosed home) app
        → All ((Refers home) app) p.rules
    cached_policy-Refers app attr none p e made h =
        let q : new_firewall_policy ≡ p = cc in rw (← q) tt
    cached_policy-Refers app attr (some (policy held)) p e made h =
        let q : held ≡ p = cc in rw (← q) (h attr (policy held) e)
    cached_policy-Refers app attr (some (plain _)) p e made h = cc
    cached_policy-Refers app attr (some (address_list _)) p e made h = cc
    cached_policy-Refers app attr (some (port_list _)) p e made h = cc
    cached_policy-Refers app attr (some (rule_list _)) p e made h = cc
    cached_policy-Refers app attr (some (pool _)) p e made h = cc
    cached_policy-Refers app attr (some (virtual_server _)) p e made h = cc
    cached_policy-Refers app attr (some (virtual_address _)) p e made h = cc
    cached_policy-Refers app attr (some (json _)) p e made h = cc

    prepend_to_tenant-Extends :
        (ty : String) (uses : List Use) (app app' : App) (tntcfg : Option TenantConfig)
        → prepend_to_tenant r ty uses app tntcfg ≡ returns app'
        → All ((Refers home) app) uses
        → (Extends home) app app'
    prepend_to_tenant-Extends ty uses app app' none e h =
        let q : app ≡ app' = cc in subst ((Extends home) app) q ((unchanged home) app)
    prepend_to_tenant-Extends ty uses app app' (some tntcfg) e h =
        let attr = get_as3_policy_attr r ty tntcfg.route_domain.name in
        let (p, got, e1) = >>=-eq-returns (cached_policy r (lookup attr app)) _ e in
        let joined = policy (record { class = p.class; rules = uses ++ p.rules }) in
        let q : insert attr joined app ≡ app' = cc in
        subst ((Extends home) app) q (record {
          closed = λ c. (insert-IsClosed home) attr joined app c (
              All-append ((Refers home) app) uses p.rules h
                (cached_policy-Refers app attr (lookup attr app) p refl got c));
          grown = insert-Grows attr joined app;
        })

    add_policy-Extends :
        (app app' : App) (tyns : String) (uses : List Use)
        → add_policy r app (tyns, uses) ≡ returns app'
        → All ((Refers home) app) uses
        → (Extends home) app app'
    unfolding add_policy
    add_policy-Extends app app' tyns uses e h =
        let (parts, got, e1) = >>=-eq-returns (type_and_namespace_of r (split b'|' tyns)) _ e in
        prepend_to_tenant-Extends parts.0 uses app app' _ e1 h

    each-add_policy-IsClosed :
        (policy_map : GoMap (List Use)) (app app' : App)
        → each (add_policy r) app policy_map ≡ returns app'
        → (Collected home) app policy_map
        → (IsClosed home) app
        → (IsClosed home) app'
    unfolding each
    each-add_policy-IsClosed [] app app' e h closed =
        let q : app ≡ app' = cc in subst (IsClosed home) q closed
    each-add_policy-IsClosed ((tyns, uses) ∷ rest) app app' e h closed =
        let (t, first, e1) = >>=-eq-returns (add_policy r app (tyns, uses)) _ e in
        let ext = add_policy-Extends app t tyns uses first h.0 in
        each-add_policy-IsClosed rest t app' e1 ((Collected-mono home) app t ext.grown rest h.1)
          (ext.closed closed)

    -- newPoliciesDecl keeps an application closed.
    pub new_policies_decl-IsClosed :
        (env : Environment) (ac : As3Post) (app app' : App)
        → LocalPost home r ac
        → new_policies_decl r env ac app ≡ returns app'
        → (IsClosed home) app
        → (IsClosed home) app'
    unfolding new_policies_decl
    new_policies_decl-IsClosed env ac app app' post e closed =
        let (made, got, e1) = >>=-eq-returns (new_rules_decl r env ac app) _ e in
        let listed = (new_rules_decl-Listed home) r env ac app made post got closed in
        each-add_policy-IsClosed made.1 made.0 app' e1 listed.collected listed.closed
