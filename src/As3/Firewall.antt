-- ===== src/As3/Firewall.antt =====
-- The firewall objects of pkg/as3/utils.go: address lists, port lists, rules, rule lists and the
-- policies that name them.
use container_egress_service.Prelude.{
  String, Bool, Option, none, some, List, [], ◌∷◌, ◌++◌, ◌||◌, not, keep, ◌==◌, is_empty,
  if◌then◌else◌,
}
use container_egress_service.Prelude.Outcome.{Outcome, returns, panics, ◌>>=◌, each}
use container_egress_service.Prelude.GoMap.{GoMap, lookup, insert}
use container_egress_service.Prelude.Text.{◌⊕◌, split}
use container_egress_service.As3.Types.{
  Use, FirewallDestination, FirewallRule, FirewallPolicy, TenantConfig, PortIrule, ExsvcDate,
  RuleData, default_partition, class_firewall_address_list, class_firewall_port_list,
  class_firewall_rule_list, class_firewall_policy,
}
use container_egress_service.As3.Config.{
  Registry, get_tenant_config_for_partition, get_tenant_config_for_namespace,
}
use container_egress_service.As3.Attrs.{
  get_as3_dest_port_attr, get_as3_dest_addr_attr, get_as3_src_address_attr, get_as3_rule_list_attr,
  get_as3_policy_attr, get_as3_use_path_for_namespace,
}
use container_egress_service.As3.Resource.{
  Resource, App, address_list, port_list, rule_list, policy,
}
use container_egress_service.As3.Environment.{Environment}
use container_egress_service.As3.Rules.{As3Post, deal_rule}

abbrev pub new_firewall_policy : FirewallPolicy
new_firewall_policy = record { class = class_firewall_policy; rules = [] }

abbrev no_destination : FirewallDestination
no_destination = record { address_lists = []; port_lists = [] }

abbrev pub one_use : String → List Use
one_use path = record { path = path } ∷ []

-- An address is an IP address or a block of them, or else a domain name.
unfoldable pub is_address : Environment → String → Bool
is_address env addr = env.parse_cidr addr || env.parse_ip addr

unfoldable pub new_firewall_address_list : Environment → String → List String → App → App
unfolding is_address
new_firewall_address_list env attr addresses = insert attr (
    address_list (record {
      class = class_firewall_address_list;
      fqdns = keep (λ a. not (is_address env a)) addresses;
      addresses = keep (is_address env) addresses;
    }))

unfoldable pub new_firewall_ports_list : String → List String → App → App
new_firewall_ports_list attr ports =
    insert attr (port_list (record { class = class_firewall_port_list; ports = ports }))

module _ (r : Registry) where
  abbrev pub source_lists : String → String → Outcome (List Use)
  source_lists namespace src_addr_attr = if src_addr_attr == "" then returns [] else do
    path ← get_as3_use_path_for_namespace r namespace src_addr_attr
    returns (one_use path)

  unfoldable pub new_firewall_rule :
      (fwr_name protocol namespace action exsvc_name irule dest_addr_attr dest_port_attr
        src_addr_attr : String)
      → Bool
      → Outcome FirewallRule
  unfolding get_as3_use_path_for_namespace
  new_firewall_rule fwr_name protocol namespace action exsvc_name irule dest_addr_attr
        dest_port_attr src_addr_attr logging =
      do
        dest_path ← get_as3_use_path_for_namespace r namespace dest_addr_attr
        port_path ← get_as3_use_path_for_namespace r namespace dest_port_attr
        src ← source_lists namespace src_addr_attr
        returns (record {
          protocol = protocol;
          name = action ⊕ ("_" ⊕ (exsvc_name ⊕ ("_" ⊕ fwr_name)));
          irule = if irule == "" then "" else "/Common/" ⊕ irule;
          destination = record {
            address_lists = one_use dest_path;
            port_lists = if protocol == "" then [] else one_use port_path;
          };
          source = record { address_lists = src; port_lists = [] };
          action = action;
          logging_enabled = logging;
        })

  -- `src_attr` is as3SrcAddrAttr, `des_attr` is as3DesAddrAttr
  module _ (rule : RuleData) (evc : ExsvcDate) (src_attr des_attr : String) where
    unfoldable pub add_dest_port :
        App × List FirewallRule → String × PortIrule → Outcome (App × List FirewallRule)
    unfolding new_firewall_ports_list new_firewall_rule
    add_dest_port (app, rules) (key, ports) = do
      let port_attr = get_as3_dest_port_attr r rule.ty rule.namespace rule.name evc.name key
      fwr ←
          new_firewall_rule key ports.protocol rule.namespace rule.action evc.name ports.irule
            des_attr port_attr src_attr rule.logging
      returns (
        (if ports.protocol == "" then app else new_firewall_ports_list port_attr ports.ports app),
        rules ++ fwr ∷ [],
      )

  unfoldable pub source_attr : RuleData → String
  unfolding get_as3_src_address_attr
  source_attr rule =
      if ((rule.ty == "ns") || (rule.ty == "svc"))
      then (if is_empty rule.src_addr
          then ""
          else get_as3_src_address_attr r rule.ty rule.namespace rule.name rule.ep_name)
      else ""

  abbrev pub add_source : Environment → RuleData → App → App
  add_source env rule app =
      if ((rule.ty == "ns") || (rule.ty == "svc"))
      then (if is_empty rule.src_addr
          then app
          else new_firewall_address_list env (source_attr rule) rule.src_addr app)
      else app

  abbrev pub uses_of : String → GoMap (List Use) → List Use
  uses_of tyns policy_map = elim (lookup tyns policy_map) [ none ↦ [] | some uses ↦ uses ]

  -- the body of the loop over the external services of a rule
  unfoldable pub add_exsvc :
      Environment → RuleData → App × GoMap (List Use) → ExsvcDate → Outcome (App × GoMap (List Use))
  unfolding add_dest_port source_attr new_firewall_address_list get_as3_dest_addr_attr
      get_as3_rule_list_attr
  add_exsvc env rule (app, policy_map) evc = do
    let src_attr = source_attr rule
    let des_attr = get_as3_dest_addr_attr r rule.ty rule.namespace rule.name evc.name
    let with_source = add_source env rule app
    let with_dest = new_firewall_address_list env des_attr evc.dest_address with_source
    done ← each (add_dest_port rule evc src_attr des_attr) (with_dest, []) evc.dest_ports
    let list_attr = get_as3_rule_list_attr r rule.ty rule.namespace rule.name evc.name
    path ← get_as3_use_path_for_namespace r rule.namespace list_attr
    let tyns = rule.ty ⊕ ("|" ⊕ rule.namespace)
    returns (
      insert list_attr (rule_list (record { class = class_firewall_rule_list; rules = done.1 }))
          done.0,
      insert tyns (uses_of tyns policy_map ++ one_use path) policy_map,
    )

  unfoldable pub add_rule :
      Environment → App × GoMap (List Use) → RuleData → Outcome (App × GoMap (List Use))
  unfolding add_exsvc
  add_rule env state rule = each (add_exsvc env rule) state rule.exsvcs

  unfoldable pub new_rules_decl : Environment → As3Post → App → Outcome (App × GoMap (List Use))
  unfolding add_rule deal_rule
  new_rules_decl env ac app = do rules ← deal_rule r ac; each (add_rule env) (app, []) rules

  -- strings.Split(tyns, "|")[0] and [1]
  abbrev pub type_and_namespace_of : List String → Outcome (String × String)
  type_and_namespace_of (ty ∷ ns ∷ rest) = returns (ty, ns)
  type_and_namespace_of _ = panics

  -- the policy that is there already; `.(FirewallPolicy)` panics on any other value
  abbrev pub cached_policy : Option Resource → Outcome FirewallPolicy
  cached_policy none = returns new_firewall_policy
  cached_policy (some (policy p)) = returns p
  cached_policy (some _) = panics

  abbrev pub prepend_rules : String → List Use → App → Outcome App
  prepend_rules attr uses app = do
    p ← cached_policy (lookup attr app)
    returns (insert attr (policy (record p { rules = uses ++ p.rules })) app)

  abbrev pub prepend_to_tenant : String → List Use → App → Option TenantConfig → Outcome App
  prepend_to_tenant ty uses app none = returns app
  prepend_to_tenant ty uses app (some tntcfg) =
      prepend_rules (get_as3_policy_attr r ty tntcfg.route_domain.name) uses app

  -- the body of the loop over the policies
  unfoldable pub add_policy : App → String × List Use → Outcome App
  unfolding get_as3_policy_attr get_tenant_config_for_partition get_tenant_config_for_namespace
  add_policy app (tyns, uses) = do
    parts ← type_and_namespace_of (split b'|' tyns)
    prepend_to_tenant parts.0 uses app (
        if parts.1 == ""
        then get_tenant_config_for_partition r default_partition
        else get_tenant_config_for_namespace r parts.1)

  unfoldable pub new_policies_decl : Environment → As3Post → App → Outcome App
  unfolding new_rules_decl add_policy
  new_policies_decl env ac app = do made ← new_rules_decl env ac app; each add_policy made.0 made.1
