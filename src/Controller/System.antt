-- ===== src/Controller/System.antt =====
-- The program as one system: it begins with `InitAs3Tenant`, and then the five workers and the
-- goroutine that stores go on side by side: every step handles one object that
-- a queue hands out, or looks whether a store is due. The workers run side by side, so the steps
-- may come in any order, and a queue may hand out anything.
pub mod Sync
pub mod Workers
pub mod Services
pub mod Addresses
pub mod Begin
pub mod Safety
mod Tests
use container_egress_service.Prelude.{
  String, ◌≡◌, Bool, true, false, ◌⊎◌, ℕ, Option, some, List, [], ◌∷◌,
}
use container_egress_service.Prelude.Text.{◌⊕◌}
use container_egress_service.Json.{Json, text, object}
use container_egress_service.Kube.{
  ExternalService, ClusterEgressRule, NamespaceEgressRule, ServiceEgressRule, Endpoints,
}
use container_egress_service.As3.Types.{TenantConfig, As3Config}
use container_egress_service.As3.Config.{
  Registry, get_tenant_config_for_partition, get_tenant_config_for_namespace,
}
use container_egress_service.As3.Environment.{Environment}
use container_egress_service.As3.Client.{Client}
use container_egress_service.As3.Init.{init_as3_tenant}
use container_egress_service.As3.Request.Permitted.{Permitted}
use container_egress_service.As3.Frequency.{SyncFrequency, frequency}
use container_egress_service.Controller.Queue.{Taken}
use container_egress_service.Controller.Handlers.{
  process_next_cluster_egress_rule_worker_item, process_next_namespace_egress_rule_worker_item,
  process_next_sevice_egress_rule_worker_item,
}
use container_egress_service.Controller.External.{process_next_external_service_work_item}
use container_egress_service.Controller.Endpoint.{process_next_endpoints_work_item}
use container_egress_service.Io.{
  post, patch, Effect, http, update_external_service, update_status, normal, warning,
  touch_source_address, World, done,
}

-- whether the configuration has a tenant, for a partition or for a namespace
abbrev pub IsConfigured : Registry → TenantConfig → Type 0
IsConfigured r tenant =
    ((partition : String) × (get_tenant_config_for_partition r partition ≡ some tenant))
    ⊎ ((namespace : String) × (get_tenant_config_for_namespace r namespace ≡ some tenant))

-- an effect that BIG-IP does not see
abbrev pub is_local : Effect → Bool
is_local (http _) = false
is_local _ = true

-- What the program may do: requests that a synchronisation of a configured tenant may send, a new
-- list of source addresses in the partition of a configured tenant, a store, and local effects.
pub data Allowed (r : Registry) (c : Client) : Effect → Type 0 where
  synchronises :
      (tenant : TenantConfig) (ty : String) (e : Effect)
      → IsConfigured r tenant
      → Permitted c tenant ty e
      → Allowed r c e
  sets_addresses :
      (tenant : TenantConfig) (attr : String) (body : Json)
      → IsConfigured r tenant
      → Allowed r c (
          http (record {
            method = patch;
            url =
                c.host
                ⊕ ("/mgmt/tm/security/firewall/address-list/~"
                    ⊕ (tenant.name ⊕ ("~Shared~" ⊕ attr)));
            body = some body;
          }))
  stores : Allowed r c (
      http (record {
        method = post;
        url = c.host ⊕ "/mgmt/tm/sys/config";
        body = some (object (("command", text "save") ∷ []));
      }))
  locally : (e : Effect) → is_local e ≡ true → Allowed r c e

module _ (r : Registry) (env : Environment) (w : World) (c : Client) where
  -- what has happened before a step and after it
  pub data Steps : List Effect → List Effect → Type 0 where
    takes_cluster_rule :
        (taken : Taken ClusterEgressRule) (s : List Effect)
        → Steps s (process_next_cluster_egress_rule_worker_item r env w c taken s).effects
    takes_namespace_rule :
        (taken : Taken NamespaceEgressRule) (s : List Effect)
        → Steps s (process_next_namespace_egress_rule_worker_item r env w c taken s).effects
    takes_service_rule :
        (taken : Taken ServiceEgressRule) (s : List Effect)
        → Steps s (process_next_sevice_egress_rule_worker_item r env w c taken s).effects
    takes_external_service :
        (taken : Taken ExternalService) (s : List Effect)
        → Steps s (process_next_external_service_work_item r env w c taken s).effects
    takes_endpoints :
        (taken : Taken Endpoints) (s : List Effect)
        → Steps s (process_next_endpoints_work_item r env w c taken s).effects
    checks_store :
        (now : ℕ) (fq : SyncFrequency) (s : List Effect) → Steps s (frequency env w c now fq s).1

  -- What may have happened, when nothing had happened before the program began: it starts with
  -- `InitAs3Tenant`, which has to succeed with this registry.
  pub data Reachable : List Effect → Type 0 where
    starts :
        (parsed : Option As3Config) (ces_namespace : String) (s : List Effect)
        → init_as3_tenant env w c parsed ces_namespace [] ≡ (done r, s)
        → Reachable s
    goes_on : {s t : List Effect} → Reachable s → Steps s t → Reachable t
