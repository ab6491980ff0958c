-- ===== src/Controller/System/Tests.antt =====
-- A run of the system: it starts with the configuration of the samples, a cluster rule is taken,
-- and then the store is checked.
use container_egress_service.Prelude.{◌≡◌, refl, some, none, List, [], ◌∷◌, All}
use container_egress_service.Prelude.Outcome.{each}
use container_egress_service.Prelude.GoMap.{lookup, insert}
use container_egress_service.Prelude.Text.{is_blank, split}
use container_egress_service.As3.Config.{
  Registry, init_tenant_config, init_tenants, init_tenant, with_default_domain, cache_namespaces,
  cache_tenant_config_for_namespace, cache_tenant_config_for_partition, regist_values,
}
use container_egress_service.As3.Init.{init_as3_tenant}
use container_egress_service.Json.{object as json_object}
use container_egress_service.As3.Environment.{Environment}
use container_egress_service.As3.Frequency.{SyncFrequency, frequency}
use container_egress_service.Controller.Queue.{object}
use container_egress_service.Controller.Handlers.{process_next_cluster_egress_rule_worker_item}
use container_egress_service.Controller.System.{
  Allowed, takes_cluster_rule, checks_store, starts, goes_on,
}
use container_egress_service.Controller.System.Safety.{Reachable-Allowed}
use container_egress_service.Io.{World, Effect, answered, done}
use container_egress_service.Samples.{config, environment, world, client, cluster_rule}

abbrev answers : World
answers = world (answered 200 "{}")

abbrev env : Environment
env = record environment { parse_json = λ s. some (json_object []) }

abbrev registered : Registry
registered = init_tenant_config config "kube-system" none

abbrev at_start : List Effect
at_start = (init_as3_tenant env answers client (some config) "kube-system" []).1

begins :
    init_as3_tenant env answers client (some config) "kube-system" [] ≡ (done registered, at_start)
unfolding init_as3_tenant lookup insert is_blank split each init_tenants init_tenant
    with_default_domain cache_namespaces cache_tenant_config_for_namespace
    cache_tenant_config_for_partition regist_values
begins = refl

abbrev after_rule : List Effect
after_rule =
    (process_next_cluster_egress_rule_worker_item registered env answers client
      (object (some ("", "all")) cluster_rule) at_start).effects

abbrev waiting : SyncFrequency
waiting = record { update_times = 5 ∷ 6 ∷ [] }

Reachable-Allowed_example :
    All (Allowed registered client) (frequency env answers client 300 waiting after_rule).1
Reachable-Allowed_example = Reachable-Allowed registered env answers client (
    goes_on
      (goes_on (starts (some config) "kube-system" at_start begins)
        (takes_cluster_rule (object (some ("", "all")) cluster_rule) at_start))
      (checks_store 300 waiting after_rule))
