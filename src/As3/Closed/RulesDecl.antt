-- ===== src/As3/Closed/RulesDecl.antt =====
-- The loops of `newRulesDecl` of pkg/as3/utils.go over the external services and the rules: the
-- rule lists that they collect for the policies stand in the application.
use container_egress_service.Prelude.{
  String, ◌≡◌, refl, Bool, true, false, not, ◌&&◌, ◌||◌, arith, inl, inr, Option, none, some, List,
  [], ◌∷◌, ◌++◌, All, All-append, All-weaken, ◌==◌, is_empty, Bool-cases,
}
use mathlib.Core.Path.{subst}
use container_egress_service.Prelude.Outcome.{returns, each, >>=-eq-returns, each-keeps}
use container_egress_service.Prelude.GoMap.{GoMap, lookup, insert, has}
use container_egress_service.Prelude.Text.{◌⊕◌}
use container_egress_service.As3.Types.{
  Use, FirewallRule, ExsvcDate, RuleData, class_firewall_rule_list,
}
use container_egress_service.As3.Config.{Registry}
use container_egress_service.As3.Attrs.{
  get_as3_dest_addr_attr, get_as3_rule_list_attr, get_as3_use_path_for_namespace,
}
use container_egress_service.As3.Environment.{Environment}
use container_egress_service.As3.Resource.{App, rule_list}
use container_egress_service.As3.Rules.{As3Post, deal_rule}
use container_egress_service.As3.Firewall.{
  new_firewall_address_list, source_attr, add_source, uses_of, add_exsvc, add_rule, new_rules_decl,
}
use container_egress_service.As3.Closed.{
  Refers, Local, IsClosed, Grows, Refers-mono, insert-Grows, has-inserted, insert-IsClosed,
}
use container_egress_service.As3.Closed.Rules.{
  joined_not_empty, get_as3_use_path_for_namespace-Refers,
}
use container_egress_service.As3.Closed.RuleLists.{Filled, after_ports, each-add_dest_port-Filled}
use container_egress_service.As3.Closed.Posts.{LocalPost, IsLocal, deal_rule-IsLocal}

module _ (home : String) where
  or_right : (p q : Bool) → q ≡ true → (p || q) ≡ true
  or_right true q h = refl
  or_right false q h = h

  or_mono : (p q q' : Bool) → (q ≡ true → q' ≡ true) → (p || q) ≡ true → (p || q') ≡ true
  or_mono true q q' f h = refl
  or_mono false q q' f h = f h

  -- the rule lists that are collected for each policy
  abbrev pub Collected : App → GoMap (List Use) → Type 0
  Collected app = All (λ e. All ((Refers home) app) e.1)

  -- the state of the loops
  pub record Listed (s : App × GoMap (List Use)) : Type 0 where
    pub closed : (IsClosed home) s.0
    pub collected : Collected s.0 s.1

  module _ (r : Registry) (app : App) where
    found-Refers :
        (k : String) (m : GoMap (List Use)) (uses : List Use)
        → lookup k m ≡ some uses
        → Collected app m
        → All ((Refers home) app) uses
    unfolding lookup
    found-Refers k [] uses e h = cc
    found-Refers k ((j, held) ∷ m) uses e h = elim (Bool-cases (j == k)) [
      | inl hit ↦
          let q : held ≡ uses = (let q' : some held ≡ some uses = rw hit at e in cc) in rw (← q) h.0
      | inr miss ↦ found-Refers k m uses (rw miss at e) h.1
    ]

    held-Refers :
        (k : String) (m : GoMap (List Use)) (held : Option (List Use))
        → lookup k m ≡ held
        → Collected app m
        → All ((Refers home) app) (elim held [ none ↦ [] | some uses ↦ uses ])
    held-Refers k m none e h = tt
    held-Refers k m (some uses) e h = found-Refers k m uses e h

    uses_of-Refers :
        (k : String) (m : GoMap (List Use))
        → Collected app m
        → All ((Refers home) app) (uses_of r k m)
    uses_of-Refers k m = held-Refers k m (lookup k m) refl

  module _ (app : App) where
    insert-Collected :
        (k : String) (uses : List Use) (m : GoMap (List Use))
        → Collected app m
        → All ((Refers home) app) uses
        → Collected app (insert k uses m)
    unfolding insert
    insert-Collected k uses [] h given = (given, tt)
    insert-Collected k uses ((j, held) ∷ m) h given = elim (Bool-cases (j == k)) [
      | inl hit ↦ rw hit (given, h.1)
      | inr miss ↦ rw miss (h.0, insert-Collected k uses m h.1 given)
    ]

    pub Collected-mono :
        (app' : App) → Grows app app' → (m : GoMap (List Use)) → Collected app m → Collected app' m
    Collected-mono app' grows = All-weaken λ e. All-weaken ((Refers-mono home) app app' grows) e.1

  module _ (r : Registry) (env : Environment) (rule : RuleData)
      (own : Local home r rule.namespace) where
    -- The source addresses are there, if the rule has any.
    record Sourced (app app' : App) : Type 0 where
      closed : (IsClosed home) app → (IsClosed home) app'
      grown : Grows app app'
      has_source : ((source_attr r rule == "") || has (source_attr r rule) app') ≡ true

    none_given : (app : App) → source_attr r rule ≡ "" → Sourced app app
    none_given app e = record { closed = λ h. h; grown = λ k h. h; has_source = rw e refl }

    given :
        (app : App)
        → Sourced app (new_firewall_address_list env (source_attr r rule) rule.src_addr app)
    unfolding new_firewall_address_list
    given app = record {
      closed = λ h. (insert-IsClosed home) (source_attr r rule) _ app h tt;
      grown = insert-Grows (source_attr r rule) _ app;
      has_source = or_right _ _ (has-inserted (source_attr r rule) _ app);
    }

    source_attr-none :
        (((rule.ty == "ns") || (rule.ty == "svc")) && not (is_empty rule.src_addr)) ≡ false
        → source_attr r rule ≡ ""
    unfolding source_attr
    source_attr-none h = ground arith

    add_source-Sourced : (app : App) → Sourced app (add_source r env rule app)
    add_source-Sourced app = elim (Bool-cases ((rule.ty == "ns") || (rule.ty == "svc"))) [
      | inl local ↦ elim (Bool-cases (is_empty rule.src_addr)) [
        | inl empty ↦ rw (local, empty) (none_given app (source_attr-none (rw (local, empty) refl)))
        | inr filled ↦ rw (local, filled) (given app)
      ]
      | inr global ↦ rw global (none_given app (source_attr-none (rw global refl)))
    ]

    -- the loop over the ports begins with the source and the destination in place
    Filled-start :
        (app : App) (des : String) (addresses : List String)
        → (IsClosed home) app
        → (Filled home) app des
            (source_attr r rule)
            (new_firewall_address_list env des addresses (add_source r env rule app), [])
    unfolding new_firewall_address_list
    Filled-start app des addresses h =
        let sourced = add_source-Sourced app in
        let with_source = add_source r env rule app in
        record {
          closed = (insert-IsClosed home) des _ with_source (sourced.closed h) tt;
          refer = tt;
          has_dest = has-inserted des _ with_source;
          has_source =
              or_mono _ _ _ (insert-Grows des _ with_source (source_attr r rule))
                sourced.has_source;
          grown = λ k there. insert-Grows des _ with_source k (sourced.grown k there);
        }

    -- The rule list is put in, and its path is collected.
    Listed-rule_list :
        (app : App) (policy_map : GoMap (List Use)) (des src list_attr path tyns class : String)
        (done : App × List FirewallRule)
        → Collected app policy_map
        → (Filled home) app des src done
        → (list_attr == "") ≡ false
        → get_as3_use_path_for_namespace r rule.namespace list_attr ≡ returns path
        → Listed (
          insert list_attr (rule_list (record { class = class; rules = done.1 })) done.0,
          insert tyns (uses_of r tyns policy_map ++ record { path = path } ∷ []) policy_map,
        )
    Listed-rule_list app policy_map des src list_attr path tyns class done h filled named got =
        let list = rule_list (record { class = class; rules = done.1 }) in
        let app' = insert list_attr list done.0 in
        let kept =
          Collected-mono app app'
            (λ k there. insert-Grows list_attr list done.0 k (filled.grown k there)) policy_map h in
        record {
          closed = (insert-IsClosed home) list_attr list done.0 filled.closed filled.refer;
          collected = insert-Collected app' tyns _ policy_map kept (
              All-append ((Refers home) app') (uses_of r tyns policy_map) _
                (uses_of-Refers r app' tyns policy_map kept)
                (
                  (get_as3_use_path_for_namespace-Refers home) r app' rule.namespace list_attr path
                      own named got (has-inserted list_attr list done.0),
                  tt,
                ));
        }

    add_exsvc-Listed :
        (s s' : App × GoMap (List Use)) (evc : ExsvcDate)
        → add_exsvc r env rule s evc ≡ returns s'
        → Listed s
        → Listed s'
    unfolding add_exsvc get_as3_rule_list_attr get_as3_dest_addr_attr
    add_exsvc-Listed (app, policy_map) s' evc e h =
        let src = source_attr r rule in
        let des = get_as3_dest_addr_attr r rule.ty rule.namespace rule.name evc.name in
        let list_attr = get_as3_rule_list_attr r rule.ty rule.namespace rule.name evc.name in
        let named = joined_not_empty r.current_cluster _ in
        let with_dest =
          new_firewall_address_list env des evc.dest_address (add_source r env rule app) in
        let (done, filled, e1) =
          >>=-eq-returns (after_ports home app r rule evc src des named own (with_dest, [])) _ e in
        let (path, got, e2) =
          >>=-eq-returns (get_as3_use_path_for_namespace r rule.namespace list_attr) _ e1 in
        let after =
          (each-add_dest_port-Filled home) app r rule evc src des named own (with_dest, []) done
            filled (Filled-start app des evc.dest_address h.closed) in
        let listed =
          Listed-rule_list app policy_map des src list_attr path (rule.ty ⊕ ("|" ⊕ rule.namespace))
            class_firewall_rule_list done h.collected after (joined_not_empty r.current_cluster _)
            got in
        subst Listed (let q : _ ≡ s' = cc in q) listed

  add_rule-Listed :
      (r : Registry) (env : Environment) (rules : List RuleData) (s s' : App × GoMap (List Use))
      → All (IsLocal home r) rules
      → each (add_rule r env) s rules ≡ returns s'
      → Listed s
      → Listed s'
  unfolding each add_rule
  add_rule-Listed r env [] s s' own e h = let q : s ≡ s' = cc in subst Listed q h
  add_rule-Listed r env (rule ∷ rules) s s' own e h =
      let (t, first, rest) = >>=-eq-returns (add_rule r env s rule) _ e in
      add_rule-Listed r env rules t s' own.1 rest (
        each-keeps Listed (add_exsvc r env rule)
          (λ u u' evc. add_exsvc-Listed r env rule own.0 u u' evc) rule.exsvcs s t first h)

  -- Rules and policies: what `newRulesDecl` makes of a closed application is closed, and the rule
  -- lists for the policies stand in it.
  pub new_rules_decl-Listed :
      (r : Registry) (env : Environment) (ac : As3Post) (app : App) (made : App × GoMap (List Use))
      → LocalPost home r ac
      → new_rules_decl r env ac app ≡ returns made
      → (IsClosed home) app
      → Listed made
  unfolding new_rules_decl
  new_rules_decl-Listed r env ac app made post e h =
      let (rules, dealt, e1) = >>=-eq-returns (deal_rule r ac) _ e in
      add_rule-Listed r env rules (app, []) made (deal_rule-IsLocal home r ac rules dealt post) e1
        (record { closed = h; collected = tt })
