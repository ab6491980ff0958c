-- ===== src/As3/Tests.antt =====
-- The theorems on the package as3 at concrete inputs.
use container_egress_service.Prelude.{
  ◌⊎◌, mem, ◌&&◌, ℕ, ◌≡◌, ◌≢◌, refl, ap, length, true, false, some, List, [], ◌∷◌, any, arith,
}
use container_egress_service.Prelude.GoMap.{lookup}
use container_egress_service.Prelude.Text.{is_blank, split}
use container_egress_service.Json.{object}
use container_egress_service.As3.Types.{rule_type_global}
use container_egress_service.As3.Config.{
  init_tenant_config, get_tenant_config_for_partition, get_tenant_config_for_namespace,
}
use container_egress_service.As3.Config.Caches.{
  last_listing, before, belongs, get_tenant_config_for_namespace-init_tenant_config,
}
use container_egress_service.As3.Attrs.{shared_path, get_origin_attr_of_use_path}
use container_egress_service.As3.Attrs.Paths.{get_origin_attr_of_use_path-shared_path}
use container_egress_service.As3.Environment.{Environment}
use container_egress_service.As3.Rules.{deal_exsvc, exsvcs_of}
use container_egress_service.As3.Rules.Services.{has_data, is_named, has_data-exsvcs_of}
use container_egress_service.As3.Rules.Ports.{is_filed, lists_port, is_filed-deal_exsvc}
use container_egress_service.As3.Client.{store_disk}
use container_egress_service.As3.Frequency.{
  SyncFrequency, is_due, frequency, process, WorkEvent, updates_at, wakes_at, work,
}
use container_egress_service.As3.Frequency.Work.{Stored, work-stores}
use container_egress_service.As3.Frequency.Store.{frequency-store_disk}
use container_egress_service.As3.Request.{as3_request}
use container_egress_service.As3.Request.Order.{script, as3_request-Follows}
use container_egress_service.Io.Scripts.{Follows}
use container_egress_service.As3.Request.Permitted.{Permitted, as3_request-Permitted}
use container_egress_service.Io.{World, unreachable, answered, done, panicked}
use container_egress_service.Io.Traces.{Emits}
use container_egress_service.Samples.{
  registry, environment, config, common, p2, exsvc, world, client, empty_post,
}

get_tenant_config_for_namespace-init_tenant_config_example :
    get_tenant_config_for_namespace
      (init_tenant_config config "kube-system" (some registry))
      "default"
    ≡ belongs true
        (get_tenant_config_for_partition
          (init_tenant_config config "kube-system" (some registry))
          "Common")
        (last_listing "default" config.tenant (before "default" (some registry)))
get_tenant_config_for_namespace-init_tenant_config_example =
    get_tenant_config_for_namespace-init_tenant_config config "kube-system" (some registry)
      "default"

-- A namespace that the file does not list any more keeps its tenant.
stale_namespace : last_listing "default" (common ∷ []) (before "default" (some registry)) ≡ some p2
unfolding lookup is_blank split
stale_namespace = refl

get_origin_attr_of_use_path-shared_path_example :
    get_origin_attr_of_use_path (shared_path "Common" "k8s_outbound_vs") ≡ "k8s_outbound_vs"
get_origin_attr_of_use_path-shared_path_example =
    get_origin_attr_of_use_path-shared_path "Common" "k8s_outbound_vs" refl refl

is_filed-deal_exsvc_example :
    is_filed "443" (deal_exsvc exsvc).dest_ports ≡ any (lists_port "443") exsvc.ports
is_filed-deal_exsvc_example = is_filed-deal_exsvc "443" exsvc

abbrev waiting : SyncFrequency
waiting = record { update_times = 5 ∷ 6 ∷ [] }

abbrev env_map : Environment
env_map = record environment { parse_json = λ s. some (object []) }

abbrev nothing_waits : SyncFrequency
nothing_waits = record { update_times = [] }

checked :
    (frequency env_map (world (answered 200 "{}")) client 300 waiting []).0 ≡ done nothing_waits
unfolding frequency
checked = refl

forgotten : nothing_waits ≢ waiting
forgotten e = let lengths : ◌≡◌ {A = ℕ} 0 2 = ap (λ fq. length fq.update_times) e in ground arith

frequency-store_disk_example :
    (is_due 300 waiting ≡ true)
    × ((store_disk (world (answered 200 "{}")) env_map client []).0 ≡ done tt)
frequency-store_disk_example =
    frequency-store_disk env_map (world (answered 200 "{}")) client 300 waiting nothing_waits []
      checked forgotten

as3_request-Permitted_example :
    Emits (Permitted client common rule_type_global) (
      as3_request registry environment (world unreachable) client empty_post rule_type_global false)
as3_request-Permitted_example =
    as3_request-Permitted registry environment (world unreachable) client common rule_type_global
      empty_post false refl

has_data-exsvcs_of_example :
    has_data "web" (exsvcs_of "kube-system" ("db" ∷ "web" ∷ []) (exsvc ∷ []))
    ≡ (mem "web" ("db" ∷ "web" ∷ []) && any (is_named "kube-system" "web") (exsvc ∷ []))
has_data-exsvcs_of_example = has_data-exsvcs_of "kube-system" "web" ("db" ∷ "web" ∷ []) (exsvc ∷ [])

as3_request-Follows_example :
    Follows
      (script client common "global")
      (as3_request registry environment (world unreachable) client empty_post "global" false)
as3_request-Follows_example =
    as3_request-Follows registry environment (world unreachable) client "global" common empty_post
      false refl

abbrev events : List WorkEvent
events = updates_at 6 ∷ wakes_at 20 ∷ []

abbrev answers : World
answers = world (answered 200 "{}")

work-stores_example :
    Stored env_map answers client events (process 5 nothing_waits) []
    ⊎ ((work env_map answers client events (process 5 nothing_waits) []).0 ≡ panicked)
    ⊎ ((next : SyncFrequency) × ((work env_map answers client events (process 5 nothing_waits) []).0
          ≡ done next)
        × ((frequency env_map answers client 200 next
              (work env_map answers client events (process 5 nothing_waits) []).1).1
            ≡ (store_disk answers env_map client
                (work env_map answers client events (process 5 nothing_waits) []).1).1))
work-stores_example = work-stores env_map answers client 5 events 200 nothing_waits [] refl
