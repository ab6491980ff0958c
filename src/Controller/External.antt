-- ===== src/Controller/External.antt =====
-- process_extenalservice.go of pkg/controller: a changed external service is synchronised through
-- the first rule that names it.
pub mod Bandwidth
pub mod First
use container_egress_service.Prelude.{
  String, Bool, true, false, Option, none, some, List, [], ◌∷◌, ◌&&◌, ◌||◌, not, mem, all, ◌==◌,
  if◌then◌else◌,
}
use container_egress_service.Prelude.GoMap.{GoMap, lookup}
use container_egress_service.Prelude.Text.{contains, is_blank}
use container_egress_service.Kube.{
  ExternalServicePort, ExternalService, ClusterEgressRule, NamespaceEgressRule, ServiceEgressRule,
  Endpoints, Namespace,
}
use container_egress_service.As3.Types.{
  default_partition, rule_type_label, rule_type_global, rule_type_namespace, rule_type_service,
}
use container_egress_service.As3.Config.{
  Registry, get_irules_text, get_tenant_config_for_partition, get_tenant_config_for_namespace,
}
use container_egress_service.As3.Environment.{Environment}
use container_egress_service.As3.Rules.{As3Post, new_as3_post}
use container_egress_service.As3.Client.{Client}
use container_egress_service.As3.Request.{as3_request}
use container_egress_service.Controller.Queue.{Taken, Processed, process_next_work_item}
use container_egress_service.Io.{
  Error, kube, invalid_bandwidth, external_service, normal, warning, Found, found, not_found,
  unavailable, World, Effect, Io, Step, done, failed, panicked, continue, Reply, ok, err, pure,
  fail, ask, emit, attempt, ◌>>=◌, ◌>>◌,
}

module _ (r : Registry) where
  -- A bandwidth is accepted if it stands anywhere in the names of the iRules, joined by commas.
  unfoldable pub is_valid_port : ExternalServicePort → Bool
  unfolding get_irules_text
  is_valid_port port =
      if not (is_blank port.bandwidth) then contains (get_irules_text r) port.bandwidth else true

  unfoldable pub verify_extenal_service : ExternalService → Bool
  unfolding is_valid_port
  verify_extenal_service exsvc = all is_valid_port exsvc.ports

module _ {A : Type 0} (services : A → List String) where
  -- the loop that stops at the first rule which names the service
  unfoldable pub first_naming : String → List A → Option A
  first_naming name [] = none
  first_naming name (rule ∷ rules) =
      if mem name (services rule) then some rule else first_naming name rules

abbrev pub only {ℓ} : {A : Type ℓ} → Option A → List A
only none = []
only (some a) = a ∷ []

abbrev pub text_of : Option String → String
text_of none = ""
text_of (some t) = t

abbrev pub from_api {ℓ} : {A : Type ℓ} → Option A → Io A
from_api none = fail kube
from_api (some a) = pure a

abbrev pub from_lister {ℓ} : {A : Type ℓ} → Found A → Io A
from_lister (found a) = pure a
from_lister _ = fail kube

module _ (r : Registry) (env : Environment) (w : World) (c : Client) where
  module _ (service : ExternalService) where
    abbrev pub global_post : Io (Option As3Post)
    global_post = do
      listed ← ask w.cluster_rules
      rules ← from_api listed
      pure (elim (first_naming (λ rule. rule.external_services) service.name rules) [
        | none ↦ none
        | some rule ↦ some (
            new_as3_post none none (some (rule ∷ [])) (some (service ∷ [])) none none
              (get_tenant_config_for_partition r default_partition))
      ])

    -- the namespace is read also where no rule names the service
    abbrev pub namespaced_post : Io (Option As3Post)
    namespaced_post = do
      listed ← ask (λ s. w.namespace_rules s service.namespace)
      rules ← from_api listed
      got ← ask (λ s. w.namespace s service.namespace)
      ns ← from_lister got
      pure (elim (first_naming (λ rule. rule.external_services) service.name rules) [
        | none ↦ none
        | some rule ↦ some (
            new_as3_post none (some (rule ∷ [])) none (some (service ∷ [])) none (some (ns ∷ []))
              (get_tenant_config_for_namespace r service.namespace))
      ])

    abbrev pub serving_post : Io (Option As3Post)
    serving_post = do
      listed ← ask (λ s. w.service_rules s service.namespace)
      rules ← from_api listed
      elim (first_naming (λ rule. rule.external_services) service.name rules) [
        | none ↦ pure none
        | some rule ↦ (do
          got ← ask (λ s. w.endpoints s service.namespace rule.service)
          ep ← from_lister got
          pure (
              some (
                new_as3_post (some (rule ∷ [])) none none (some (service ∷ [])) (some (ep ∷ []))
                  none (get_tenant_config_for_namespace r service.namespace))))
      ]

    -- The `switch` over the type of rule that the label names; `none` where nothing is to be done.
    unfoldable pub related_post : String → Io (Option As3Post)
    unfolding first_naming new_as3_post get_tenant_config_for_partition
        get_tenant_config_for_namespace
    related_post rule_type =
        if rule_type == rule_type_global
        then global_post
        else if rule_type == rule_type_namespace
        then namespaced_post
        else if rule_type == rule_type_service
        then serving_post
        else pure none

    abbrev pub on_reply : Reply (Unit {0}) → Io (Unit {0})
    on_reply (ok _) = emit (normal (external_service service))
    on_reply (err e) = do emit (warning (external_service service)); fail e

    abbrev pub request : String → Bool → Option As3Post → Io (Unit {0})
    request rule_type is_delete none = pure tt
    request rule_type is_delete (some post) = do
      result ← attempt (as3_request r env w c post rule_type is_delete)
      on_reply result

    -- the handler once it has the service
    unfoldable pub sync_external_service : Bool → Io (Unit {0})
    unfolding verify_extenal_service related_post as3_request
    sync_external_service is_delete =
        if not (verify_extenal_service r service)
        then (do emit (warning (external_service service)); fail invalid_bandwidth)
        else (do
          let rule_type = text_of (lookup rule_type_label service.labels)
          post ← related_post rule_type
          request rule_type is_delete post)

  unfoldable pub external_service_sync_handler :
      Option (String × String) → ExternalService → Io (Unit {0})
  unfolding sync_external_service
  external_service_sync_handler none service = pure tt
  external_service_sync_handler (some (namespace, name)) service = do
    got ← ask (λ s. w.external_service s namespace name)
    elim got [
      | unavailable ↦ fail kube
      | not_found ↦ sync_external_service service true
      | found current ↦ sync_external_service current false
    ]

  unfoldable pub process_next_external_service_work_item :
      Taken ExternalService → List Effect → Processed
  unfolding process_next_work_item external_service_sync_handler
  process_next_external_service_work_item = process_next_work_item external_service_sync_handler
