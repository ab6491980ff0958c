-- ===== src/As3/Tenant.antt =====
-- The defaults of a tenant and of its shared application, and the lookup of a partition in a
-- declaration (`initDefault`, `allDenyRuleList`, `getAS3Partition` and `getAS3SharedApp` of
-- pkg/as3/utils.go).
use container_egress_service.Prelude.{
  String, false, Option, none, some, [], ◌∷◌, ◌++◌, ◌&&◌, not, ◌==◌, if◌then◌else◌,
}
use container_egress_service.Prelude.Int.{ℤ}
use container_egress_service.Prelude.Outcome.{Outcome, returns, ◌>>=◌, deref}
use container_egress_service.Prelude.GoMap.{GoMap, lookup, insert}
use container_egress_service.Json.{Json, num, text, obj, entries, object}
use container_egress_service.As3.Types.{
  FirewallPolicy, FirewallRuleList, default_partition, class_firewall_rule_list,
}
use container_egress_service.As3.Config.{Registry, get_tenant_config_for_partition}
use container_egress_service.As3.Attrs.{
  get_as3_policy_attr, get_all_deny_rule_list_attr, get_as3_use_path_for_partition,
}
use container_egress_service.As3.Resource.{Resource, App, plain, policy, rule_list}
use container_egress_service.As3.Firewall.{new_firewall_policy}

-- as3Tenant, as the package builds it. `default_route_domain` is `none` where the key is not set.
pub record As3Tenant : Type 0 where
  pub default_route_domain : Option ℤ
  pub shared : App

abbrev route_domain_json : Option ℤ → GoMap Json
route_domain_json none = []
route_domain_json (some id) = ("defaultRouteDomain", num id) ∷ []

-- `shared` is the JSON of the shared application
unfoldable pub tenant_json : Option ℤ → Json → Json
tenant_json default_route_domain shared =
    object (("class", text "Tenant") ∷ ("Shared", shared) ∷ route_domain_json default_route_domain)

module _ (r : Registry) where
  abbrev pub deny_all_rule_list : FirewallRuleList
  deny_all_rule_list = record {
    class = class_firewall_rule_list;
    rules =
        record {
          protocol = "any";
          name = "deny_all_rule";
          irule = "";
          destination = record { address_lists = []; port_lists = [] };
          source = record { address_lists = []; port_lists = [] };
          action = "drop";
          logging_enabled = false;
        }
        ∷ [];
  }

  abbrev policy_at : String → App → FirewallPolicy
  policy_at attr app = elim (lookup attr app) [
    | some (policy p) ↦ p
    | _ ↦ record { class = ""; rules = [] }
  ]

  abbrev pub with_deny : String → Option Resource → FirewallPolicy
  with_deny partition (some (policy p)) = record p {
    rules =
        p.rules
        ++ record {
          path = get_as3_use_path_for_partition partition (get_all_deny_rule_list_attr r);
        }
          ∷ [];
  }
  with_deny partition _ = record { class = ""; rules = [] }

  -- a value that is no policy is replaced by the zero policy
  unfoldable pub all_deny_rule_list : String → String → App → App
  unfolding get_all_deny_rule_list_attr get_as3_use_path_for_partition
  all_deny_rule_list partition attr app =
      insert (get_all_deny_rule_list_attr r) (rule_list deny_all_rule_list)
        (insert attr (policy (with_deny partition (lookup attr app))) app)

  -- `initDefault` of as3Application, on an empty application
  unfoldable pub application_init_default : String → Outcome App
  unfolding all_deny_rule_list get_as3_policy_attr get_tenant_config_for_partition
  application_init_default partition = do
    let base = insert "template" (plain "shared") (insert "class" (plain "Application") [])
    let with_global =
        if partition == default_partition
        then insert (get_as3_policy_attr r "global" "") (policy new_firewall_policy) base
        else base
    tnt_cfg ← deref (get_tenant_config_for_partition r partition)
    let ns_attr = get_as3_policy_attr r "ns" tnt_cfg.route_domain.name
    let svc_attr = get_as3_policy_attr r "svc" tnt_cfg.route_domain.name
    let with_policies =
        insert svc_attr (policy new_firewall_policy)
          (insert ns_attr (policy new_firewall_policy) with_global)
    returns (all_deny_rule_list partition svc_attr with_policies)

  -- `initDefault` of as3Tenant
  unfoldable pub tenant_init_default : String → Outcome As3Tenant
  unfolding application_init_default get_tenant_config_for_partition
  tenant_init_default partition = do
    app ← application_init_default partition
    tntcfg ← deref (get_tenant_config_for_partition r partition)
    returns (record {
      default_route_domain =
          if r.is_support_route_domain && not (partition == default_partition)
          then some tntcfg.route_domain.id
          else none;
      shared = app;
    })

-- a declaration of the package's own
unfoldable pub own_shared_app : GoMap As3Tenant → String → Option App
own_shared_app adc partition = elim (lookup partition adc) [ none ↦ none | some t ↦ some t.shared ]

-- `getAS3Partition` on a declaration that came as JSON
unfoldable pub get_as3_partition : GoMap Json → String → Option (GoMap Json)
get_as3_partition adc partition = elim (lookup partition adc) [
  | some (obj fs) ↦ some (entries fs)
  | _ ↦ none
]

abbrev shared_of : Option (GoMap Json) → Option (GoMap Json)
shared_of none = none
shared_of (some tenant) = elim (lookup "Shared" tenant) [
  | some (obj fs) ↦ some (entries fs)
  | _ ↦ none
]

-- `getAS3SharedApp`
unfoldable pub get_as3_shared_app : GoMap Json → String → Option (GoMap Json)
unfolding get_as3_partition
get_as3_shared_app adc partition = shared_of (get_as3_partition adc partition)
