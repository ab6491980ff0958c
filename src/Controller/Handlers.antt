-- ===== src/Controller/Handlers.antt =====
-- The handlers of the three kinds of rules: process_clusteregressrule.go,
-- process_namespaceegressrule.go and process_serviceegressrule.go of pkg/controller.
use container_egress_service.Prelude.{String, Bool, true, false, Option, none, some, List, [], ◌∷◌}
use container_egress_service.Kube.{
  ExternalService, ClusterEgressRule, NamespaceEgressRule, ServiceEgressRule, Endpoints, Namespace,
}
use container_egress_service.As3.Types.{
  default_partition, rule_type_global, rule_type_namespace, rule_type_service,
}
use container_egress_service.As3.Config.{
  Registry, get_tenant_config_for_partition, get_tenant_config_for_namespace,
  get_cluster_svc_ext_namespace,
}
use container_egress_service.As3.Environment.{Environment}
use container_egress_service.As3.Rules.{As3Post, new_as3_post}
use container_egress_service.As3.Client.{Client}
use container_egress_service.Controller.Queue.{Taken, Processed, process_next_work_item}
use container_egress_service.Controller.Sync.{Kind, sync_rule}
use container_egress_service.Io.{
  kube, cluster_rule, namespace_rule, service_rule, warning, found, not_found, unavailable, World,
  Effect, Io, pure, fail, ask, emit, ◌>>=◌, ◌>>◌,
}

abbrev pub cluster_kind : Kind ClusterEgressRule
cluster_kind = record {
  subject = cluster_rule;
  phase = λ rule. rule.phase;
  with_phase = λ phase rule. record rule { phase = phase };
  send_status = λ w. w.update_cluster_status;
  rule_type = rule_type_global;
}

abbrev pub namespace_kind : Kind NamespaceEgressRule
namespace_kind = record {
  subject = namespace_rule;
  phase = λ rule. rule.phase;
  with_phase = λ phase rule. record rule { phase = phase };
  send_status = λ w. w.update_namespace_status;
  rule_type = rule_type_namespace;
}

abbrev pub service_kind : Kind ServiceEgressRule
service_kind = record {
  subject = service_rule;
  phase = λ rule. rule.phase;
  with_phase = λ phase rule. record rule { phase = phase };
  send_status = λ w. w.update_service_status;
  rule_type = rule_type_service;
}

module _ (r : Registry) (env : Environment) (w : World) (c : Client) where
  abbrev pub cluster_post : ClusterEgressRule → List ExternalService → As3Post
  cluster_post rule exsvcs =
      new_as3_post none none (some (rule ∷ [])) (some exsvcs) none none
        (get_tenant_config_for_partition r default_partition)

  -- the error of a rule that is gone stays in `err`
  abbrev pub sync_cluster : Bool → ClusterEgressRule → Io (Unit {0})
  sync_cluster is_delete rule =
      sync_rule w cluster_kind r env c is_delete is_delete (get_cluster_svc_ext_namespace r)
        rule.external_services cluster_post rule

  -- `key` is what SplitMetaNamespaceKey makes of the key
  unfoldable pub f5_cluster_egress_rule_sync_handler :
      Option (String × String) → ClusterEgressRule → Io (Unit {0})
  unfolding sync_rule new_as3_post get_tenant_config_for_partition get_cluster_svc_ext_namespace
  f5_cluster_egress_rule_sync_handler none rule = pure tt
  f5_cluster_egress_rule_sync_handler (some (_, name)) rule = do
    got ← ask (λ s. w.cluster_rule s name)
    elim got [
      | unavailable ↦ fail kube
      | not_found ↦ sync_cluster true rule
      | found current ↦ sync_cluster false current
    ]

  abbrev pub namespace_post :
      String → Namespace → NamespaceEgressRule → List ExternalService → As3Post
  namespace_post namespace ns rule exsvcs =
      new_as3_post none (some (rule ∷ [])) none (some exsvcs) none (some (ns ∷ []))
        (get_tenant_config_for_namespace r namespace)

  -- The lookup of the namespace sets `err` anew. It is asked for itself, not in a cache.
  abbrev pub sync_namespace : Bool → String → NamespaceEgressRule → Io (Unit {0})
  sync_namespace is_delete namespace rule = do
    got ← ask (λ s. w.namespace s namespace)
    elim got [
      | found ns ↦
          sync_rule w namespace_kind r env c is_delete false rule.namespace rule.external_services
            (namespace_post namespace ns) rule
      | _ ↦ (do emit (warning (namespace_rule rule)); fail kube)
    ]

  unfoldable pub namespace_egress_rule_sync_handler :
      Option (String × String) → NamespaceEgressRule → Io (Unit {0})
  unfolding sync_rule new_as3_post get_tenant_config_for_namespace
  namespace_egress_rule_sync_handler none rule = pure tt
  namespace_egress_rule_sync_handler (some (namespace, name)) rule =
      elim (get_tenant_config_for_namespace r namespace) [
        | none ↦ pure tt
        | some _ ↦ (do
          got ← ask (λ s. w.namespace_rule s namespace name)
          elim got [
            | unavailable ↦ fail kube
            | not_found ↦ sync_namespace true namespace rule
            | found current ↦ sync_namespace false namespace current
          ])
      ]

  abbrev pub service_post : String → Endpoints → ServiceEgressRule → List ExternalService → As3Post
  service_post namespace ep rule exsvcs =
      new_as3_post (some (rule ∷ [])) none none (some exsvcs) (some (ep ∷ [])) none
        (get_tenant_config_for_namespace r namespace)

  -- the lookup of the endpoints sets `err` anew
  abbrev pub sync_service : Bool → String → ServiceEgressRule → Io (Unit {0})
  sync_service is_delete namespace rule = do
    got ← ask (λ s. w.endpoints s namespace rule.service)
    elim got [
      | found ep ↦
          sync_rule w service_kind r env c is_delete false rule.namespace rule.external_services
            (service_post namespace ep) rule
      | _ ↦ (do emit (warning (service_rule rule)); fail kube)
    ]

  unfoldable pub service_egress_rule_sync_handler :
      Option (String × String) → ServiceEgressRule → Io (Unit {0})
  unfolding sync_rule new_as3_post get_tenant_config_for_namespace
  service_egress_rule_sync_handler none rule = pure tt
  service_egress_rule_sync_handler (some (namespace, name)) rule =
      elim (get_tenant_config_for_namespace r namespace) [
        | none ↦ pure tt
        | some _ ↦ (do
          got ← ask (λ s. w.service_rule s namespace name)
          elim got [
            | unavailable ↦ fail kube
            | not_found ↦ sync_service true namespace rule
            | found current ↦ sync_service false namespace current
          ])
      ]

  unfoldable pub process_next_cluster_egress_rule_worker_item :
      Taken ClusterEgressRule → List Effect → Processed
  unfolding process_next_work_item f5_cluster_egress_rule_sync_handler
  process_next_cluster_egress_rule_worker_item =
      process_next_work_item f5_cluster_egress_rule_sync_handler

  unfoldable pub process_next_namespace_egress_rule_worker_item :
      Taken NamespaceEgressRule → List Effect → Processed
  unfolding process_next_work_item namespace_egress_rule_sync_handler
  process_next_namespace_egress_rule_worker_item =
      process_next_work_item namespace_egress_rule_sync_handler

  unfoldable pub process_next_sevice_egress_rule_worker_item :
      Taken ServiceEgressRule → List Effect → Processed
  unfolding process_next_work_item service_egress_rule_sync_handler
  process_next_sevice_egress_rule_worker_item =
      process_next_work_item service_egress_rule_sync_handler
