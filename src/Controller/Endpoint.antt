-- ===== src/Controller/Endpoint.antt =====
-- process_endpoint.go of pkg/controller: the addresses behind a service go straight to the address
-- list of the first service rule that names it.
use container_egress_service.Prelude.{
  String, Option, none, some, List, [], ◌∷◌, ◌++◌, ◌==◌, if◌then◌else◌,
}
use container_egress_service.Kube.{ServiceEgressRule, Endpoints, EndpointSubset, ips}
use container_egress_service.As3.Types.{TenantConfig}
use container_egress_service.As3.Config.{Registry, get_tenant_config_for_namespace}
use container_egress_service.As3.Environment.{Environment}
use container_egress_service.As3.Client.{Client}
use container_egress_service.As3.Request.{update_big_ip_source_address}
use container_egress_service.Controller.Queue.{Taken, Processed, process_next_work_item}
use container_egress_service.Io.{
  Error, kube, no_addresses, Subject, warning, found, not_found, unavailable, World, Effect, Io,
  pure, fail, panic, ask, emit, attempt, ◌>>=◌, ◌>>◌,
}

-- the addresses of all subsets
unfoldable pub all_addresses : List EndpointSubset → List String
all_addresses [] = []
all_addresses (subset ∷ subsets) = ips subset ++ all_addresses subsets

unfoldable pub first_for_service : String → List ServiceEgressRule → Option ServiceEgressRule
first_for_service name [] = none
first_for_service name (rule ∷ rules) =
    if rule.service == name then some rule else first_for_service name rules

module _ (r : Registry) (env : Environment) (w : World) (c : Client) where
  module _ (ep : Endpoints) where
    abbrev pub warn_and_fail : Error → Io (Unit {0})
    warn_and_fail e = do emit (warning (Subject.endpoints ep)); fail e

    -- the error of the request to BIG-IP is dropped
    abbrev pub send_addresses :
        TenantConfig → String → ServiceEgressRule → List String → Io (Unit {0})
    send_addresses ns_config namespace rule [] = warn_and_fail no_addresses
    send_addresses ns_config namespace rule (a ∷ as') = do
      ignored ← attempt (
          update_big_ip_source_address r env w c (a ∷ as') ns_config namespace rule.meta.name
            ep.meta.name)
      pure tt

    abbrev pub sync_rules :
        TenantConfig → String → String → Option (List ServiceEgressRule) → Io (Unit {0})
    sync_rules ns_config namespace name none = warn_and_fail kube
    sync_rules ns_config namespace name (some rules) = elim (first_for_service name rules) [
      | none ↦ pure tt
      | some rule ↦ send_addresses ns_config namespace rule (all_addresses ep.subsets)
    ]

  -- A failed lookup that is no "not found" dereferences the nil pointer in its log line.
  unfoldable pub endpoints_sync_handler : Option (String × String) → Endpoints → Io (Unit {0})
  unfolding all_addresses first_for_service update_big_ip_source_address
      get_tenant_config_for_namespace
  endpoints_sync_handler none given = pure tt
  endpoints_sync_handler (some (namespace, name)) given =
      elim (get_tenant_config_for_namespace r namespace) [
        | none ↦ pure tt
        | some ns_config ↦ (do
          got ← ask (λ s. w.endpoints s namespace name)
          elim got [
            | not_found ↦ pure tt
            | unavailable ↦ panic
            | found ep ↦ (do
              listed ← ask (λ s. w.service_rules s namespace)
              sync_rules ep ns_config namespace name listed)
          ])
      ]

  unfoldable pub process_next_endpoints_work_item : Taken Endpoints → List Effect → Processed
  unfolding process_next_work_item endpoints_sync_handler
  process_next_endpoints_work_item = process_next_work_item endpoints_sync_handler
