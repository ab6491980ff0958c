-- ===== src/Controller/Tests.antt =====
-- The theorems on the package controller at concrete inputs.
use container_egress_service.Prelude.{All, ◌↔◌, ◌≡◌, refl, true, false, [], ◌∷◌, ◌==◌}
use container_egress_service.Prelude.GoMap.{lookup}
use container_egress_service.Kube.{ClusterEgressRule, NamespaceEgressRule, ServiceEgressRule}
use container_egress_service.As3.Types.{rule_type_global}
use container_egress_service.As3.Config.{get_tenant_config_for_namespace}
use container_egress_service.Controller.Update.{
  namespace_rules, cluster_rules, service_rules, is_update, is_watched,
}
use container_egress_service.Controller.Update.Changes.{
  is_update-namespace_rules, old_version, new_version, is_update-cluster_rules,
  is_update-service_rules, is_update-version,
}
use container_egress_service.Controller.External.{verify_extenal_service, first_naming}
use container_egress_service.Controller.External.Bandwidth.{
  Accepted, verify_extenal_service-Accepted,
}
use container_egress_service.Controller.External.First.{Found, first_naming-Found}
use container_egress_service.Controller.Sync.{sync_rule}
use container_egress_service.Controller.Sync.Effects.{OfDeletion, sync_rule-OfDeletion}
use container_egress_service.Controller.Handlers.{cluster_kind}
use container_egress_service.Io.{unreachable}
use container_egress_service.Io.Traces.{Emits}
use container_egress_service.Samples.{
  registry, environment, common, exsvc, cluster_rule as rule, world, client, meta, empty_post,
}

abbrev logged : ClusterEgressRule
logged = record rule { logging = true; meta = record rule.meta { resource_version = "2" } }

is_update-cluster_rules_example : (is_update registry (cluster_rules rule logged) ≡ false) ↔ (
    (rule.action ≡ logged.action)
    × (rule.logging ≡ logged.logging)
    × (rule.external_services ≡ logged.external_services))
is_update-cluster_rules_example = is_update-cluster_rules registry rule logged refl

abbrev ns_rule : NamespaceEgressRule
ns_rule = record {
  meta = meta "web" "default";
  action = "accept";
  logging = false;
  external_services = "web" ∷ [];
  phase = "";
}

abbrev newer : NamespaceEgressRule
newer = record ns_rule { meta = record ns_rule.meta { resource_version = "2" } }

watched : is_watched registry ns_rule.namespace ≡ true
unfolding lookup get_tenant_config_for_namespace
watched = refl

abbrev svc_rule : ServiceEgressRule
svc_rule = record {
  meta = meta "web" "default";
  action = "accept";
  logging = false;
  service = "shop";
  external_services = "web" ∷ [];
  phase = "";
}

abbrev other_service : ServiceEgressRule
other_service = record svc_rule {
  service = "bank";
  meta = record svc_rule.meta { resource_version = "2" };
}

is_update-service_rules_example : is_update registry (service_rules svc_rule other_service) ≡ false
is_update-service_rules_example =
    is_update-service_rules registry svc_rule other_service refl refl refl

passed_on : is_update registry (cluster_rules rule logged) ≡ true
unfolding is_update
passed_on = refl

is_update-version_example :
    (old_version (cluster_rules rule logged) == new_version (cluster_rules rule logged)) ≡ false
is_update-version_example = is_update-version registry (cluster_rules rule logged) passed_on

sync_rule-OfDeletion_example : Emits (OfDeletion client common rule_type_global) (
    sync_rule
      (world unreachable)
      cluster_kind
      registry
      environment
      client
      true
      true
      "kube-system"
      ("web" ∷ [])
      (λ gone exsvcs. record empty_post { external_service_list = exsvcs })
      rule)
sync_rule-OfDeletion_example =
    sync_rule-OfDeletion registry environment (world unreachable) client cluster_kind common
      (λ gone exsvcs. record empty_post { external_service_list = exsvcs }) rule (λ exsvcs. refl)
      true "kube-system" ("web" ∷ [])

abbrev silent : ClusterEgressRule
silent = record rule { external_services = [] }

first_naming-Found_example :
    Found
      (λ r. r.external_services)
      "web"
      (silent ∷ rule ∷ logged ∷ [])
      (first_naming (λ r. r.external_services) "web" (silent ∷ rule ∷ logged ∷ []))
first_naming-Found_example =
    first_naming-Found (λ r. r.external_services) "web" (silent ∷ rule ∷ logged ∷ [])

verify_extenal_service-Accepted_example :
    (verify_extenal_service registry exsvc ≡ true) ↔ All (Accepted registry) exsvc.ports
verify_extenal_service-Accepted_example = verify_extenal_service-Accepted registry exsvc

is_update-namespace_rules_example : (is_update registry (namespace_rules ns_rule newer) ≡ false) ↔ (
    (ns_rule.action ≡ newer.action)
    × (ns_rule.logging ≡ newer.logging)
    × (ns_rule.external_services ≡ newer.external_services))
is_update-namespace_rules_example = is_update-namespace_rules registry ns_rule newer watched refl
