-- ===== src/As3/Closed/RuleLists.antt =====
-- The loops of `newRulesDecl` of pkg/as3/utils.go keep a shared application closed.
use container_egress_service.Prelude.{
  String, ◌≡◌, refl, Bool, true, false, ◌||◌, inl, inr, List, [], ◌∷◌, ◌++◌, All, All-append,
  All-weaken, ◌==◌, Bool-cases, if◌then◌else◌,
}
use container_egress_service.Prelude.Outcome.{Outcome, returns, each, >>=-eq-returns, each-keeps}
use container_egress_service.Prelude.GoMap.{insert, has}
use container_egress_service.As3.Types.{
  FirewallRule, PortIrule, ExsvcDate, RuleData, class_firewall_port_list,
}
use container_egress_service.As3.Config.{Registry}
use container_egress_service.As3.Attrs.{get_as3_dest_port_attr}
use container_egress_service.As3.Resource.{Resource, App, port_list}
use container_egress_service.As3.Firewall.{
  new_firewall_rule, new_firewall_ports_list, add_dest_port,
}
use container_egress_service.As3.Closed.{
  RuleRefers, Local, Holds, IsClosed, Grows, RuleRefers-mono, insert-Grows, has-inserted,
  insert-IsClosed,
}
use container_egress_service.As3.Closed.Rules.{joined_not_empty, new_firewall_rule-RuleRefers}

module _ (home : String) where
  -- an entry that is added under a condition
  module _ (k : String) (v : Resource) (app : App) where
    maybe_Grows : (p : Bool) → Grows app (if p then app else insert k v app)
    maybe_Grows true = λ j h. h
    maybe_Grows false = insert-Grows k v app

    maybe_IsClosed :
        (p : Bool)
        → (Holds home) app v
        → (IsClosed home) app
        → (IsClosed home) (if p then app else insert k v app)
    maybe_IsClosed true held h = h
    maybe_IsClosed false held h = (insert-IsClosed home) k v app h held

    maybe_has : (p : Bool) → (p || has k (if p then app else insert k v app)) ≡ true
    maybe_has true = refl
    maybe_has false = has-inserted k v app

  -- the state of the loop over the ports of an external service
  -- that began with the application `base`
  pub record Filled (base : App) (des_attr src_attr : String) (s : App × List FirewallRule)
      : Type 0 where
    pub closed : (IsClosed home) s.0
    pub refer : All ((RuleRefers home) s.0) s.1
    pub has_dest : has des_attr s.0 ≡ true
    pub has_source : ((src_attr == "") || has src_attr s.0) ≡ true
    pub grown : Grows base s.0

  module _ (base : App) (des_attr src_attr port_attr : String) (ports : Resource) (app : App)
      (rules : List FirewallRule) (p : Bool) where
    abbrev with_ports : App
    with_ports = if p then app else insert port_attr ports app

    has_source-with_ports :
        ((src_attr == "") || has src_attr app) ≡ true
        → ((src_attr == "") || has src_attr with_ports) ≡ true
    has_source-with_ports h = elim (Bool-cases (src_attr == "")) [
      | inl e ↦ rw e refl
      | inr e ↦ rw e (maybe_Grows port_attr ports app p src_attr (rw e at h))
    ]

    Filled-with_ports :
        (fwr : FirewallRule)
        → Filled base des_attr src_attr (app, rules)
        → (IsClosed home) with_ports
        → (RuleRefers home) with_ports fwr
        → Filled base des_attr src_attr (with_ports, rules ++ fwr ∷ [])
    Filled-with_ports fwr h closed refers = record {
      closed = closed;
      refer =
          All-append ((RuleRefers home) with_ports) rules (fwr ∷ [])
            (All-weaken ((RuleRefers-mono home) app with_ports (maybe_Grows port_attr ports app p))
              rules h.refer)
            (refers, tt);
      has_dest = maybe_Grows port_attr ports app p des_attr h.has_dest;
      has_source = has_source-with_ports h.has_source;
      grown = λ k there. maybe_Grows port_attr ports app p k (h.grown k there);
    }

  module _ (base : App) (r : Registry) (rule : RuleData) (evc : ExsvcDate)
      (src_attr des_attr : String) (named : (des_attr == "") ≡ false)
      (own : Local home r rule.namespace) where
    abbrev port_attr : String → String
    port_attr key = get_as3_dest_port_attr r rule.ty rule.namespace rule.name evc.name key

    port_attr_named : (key : String) → (port_attr key == "") ≡ false
    unfolding get_as3_dest_port_attr
    port_attr_named key = joined_not_empty r.current_cluster _

    abbrev rule_for : String → PortIrule → Outcome FirewallRule
    rule_for key ports =
        new_firewall_rule r key ports.protocol rule.namespace rule.action evc.name ports.irule
          des_attr (port_attr key) src_attr rule.logging

    abbrev ports_of : PortIrule → Resource
    ports_of ports = port_list (record { class = class_firewall_port_list; ports = ports.ports })

    add_dest_port-Filled :
        (s s' : App × List FirewallRule) (e : String × PortIrule)
        → add_dest_port r rule evc src_attr des_attr s e ≡ returns s'
        → Filled base des_attr src_attr s
        → Filled base des_attr src_attr s'
    unfolding add_dest_port new_firewall_ports_list
    add_dest_port-Filled (app, rules) s' (key, ports) e h =
        let p = ports.protocol == "" in
        let app' = with_ports base des_attr src_attr (port_attr key) (ports_of ports) app rules p in
        let (fwr, made, e1) =
          >>=-eq-returns (rule_for key ports) (λ f. returns (app', rules ++ f ∷ [])) e in
        let q : (app', rules ++ fwr ∷ []) ≡ s' = cc in
        let filled =
          Filled-with_ports base des_attr src_attr (port_attr key) (ports_of ports) app rules p in
        rw (← q) (
          filled fwr h (maybe_IsClosed (port_attr key) (ports_of ports) app p tt h.closed) (
            (new_firewall_rule-RuleRefers home) r app' key ports.protocol rule.namespace rule.action
              evc.name ports.irule des_attr (port_attr key) src_attr rule.logging fwr own made named
              (maybe_Grows (port_attr key) (ports_of ports) app p des_attr h.has_dest)
              (port_attr_named key) (maybe_has (port_attr key) (ports_of ports) app p)
              (has_source-with_ports base des_attr src_attr (port_attr key) (ports_of ports) app
                rules p h.has_source)))

    abbrev pub after_ports : App × List FirewallRule → Outcome (App × List FirewallRule)
    after_ports s = each (add_dest_port r rule evc src_attr des_attr) s evc.dest_ports

    pub each-add_dest_port-Filled :
        (s s' : App × List FirewallRule)
        → after_ports s ≡ returns s'
        → Filled base des_attr src_attr s
        → Filled base des_attr src_attr s'
    each-add_dest_port-Filled s s' e h =
        each-keeps (Filled base des_attr src_attr) (add_dest_port r rule evc src_attr des_attr)
          (λ t t' a. add_dest_port-Filled t t' a) evc.dest_ports s s' e h
