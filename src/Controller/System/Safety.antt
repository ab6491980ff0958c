-- ===== src/Controller/System/Safety.antt =====
-- What the system does, in every order of its steps.
use container_egress_service.Prelude.{ℕ, sym, Bool-cases, inl, inr, List, All, All-append}
use mathlib.Core.Path.{subst}
use container_egress_service.As3.Config.{Registry}
use container_egress_service.As3.Environment.{Environment}
use container_egress_service.As3.Client.{Client, store_disk}
use container_egress_service.As3.Client.Requests.{Emits-discard}
use container_egress_service.As3.Frequency.{SyncFrequency, is_due, frequency}
use container_egress_service.Controller.Handlers.{
  f5_cluster_egress_rule_sync_handler, namespace_egress_rule_sync_handler,
  service_egress_rule_sync_handler, process_next_cluster_egress_rule_worker_item,
  process_next_namespace_egress_rule_worker_item, process_next_sevice_egress_rule_worker_item,
}
use container_egress_service.Controller.External.{
  external_service_sync_handler, process_next_external_service_work_item,
}
use container_egress_service.Controller.Endpoint.{
  endpoints_sync_handler, process_next_endpoints_work_item,
}
use container_egress_service.Controller.System.{
  Allowed, stores, Steps, takes_cluster_rule, takes_namespace_rule, takes_service_rule,
  takes_external_service, takes_endpoints, checks_store, Reachable, starts, goes_on,
}
use container_egress_service.Controller.System.Begin.{init_as3_tenant-Adds}
use container_egress_service.Controller.System.Workers.{
  process_next_work_item-Adds, Emits-f5_cluster_egress_rule_sync_handler,
  Emits-namespace_egress_rule_sync_handler, Emits-service_egress_rule_sync_handler,
}
use container_egress_service.Controller.System.Services.{Emits-external_service_sync_handler}
use container_egress_service.Controller.System.Addresses.{Emits-endpoints_sync_handler}
use container_egress_service.Io.{World, Effect, attempt}
use container_egress_service.Io.Traces.{Adds, nothing_added, Emits->>=, Emits-attempt}

module _ (r : Registry) (env : Environment) (w : World) (c : Client) where
  frequency-Adds :
      (now : ℕ) (fq : SyncFrequency) (s : List Effect)
      → Adds (Allowed r c) s (frequency env w c now fq s).1
  unfolding frequency store_disk
  frequency-Adds now fq s = elim (Bool-cases (is_due now fq)) [
    | inl due ↦ rw due (
        Emits->>= (Allowed r c) (attempt (store_disk w env c)) _
          (Emits-attempt (Allowed r c) _ (Emits-discard w env (Allowed r c) _ stores))
          (λ result u. nothing_added (Allowed r c) u) s)
    | inr later ↦ rw later (nothing_added (Allowed r c) s)
  ]

  -- every step adds allowed effects
  Steps-Adds : {s t : List Effect} → Steps r env w c s t → Adds (Allowed r c) s t
  unfolding process_next_cluster_egress_rule_worker_item
      process_next_namespace_egress_rule_worker_item process_next_sevice_egress_rule_worker_item
      process_next_external_service_work_item process_next_endpoints_work_item
  Steps-Adds (takes_cluster_rule taken s) =
      process_next_work_item-Adds (Allowed r c) (f5_cluster_egress_rule_sync_handler r env w c)
        (Emits-f5_cluster_egress_rule_sync_handler r env w c) taken s
  Steps-Adds (takes_namespace_rule taken s) =
      process_next_work_item-Adds (Allowed r c) (namespace_egress_rule_sync_handler r env w c)
        (Emits-namespace_egress_rule_sync_handler r env w c) taken s
  Steps-Adds (takes_service_rule taken s) =
      process_next_work_item-Adds (Allowed r c) (service_egress_rule_sync_handler r env w c)
        (Emits-service_egress_rule_sync_handler r env w c) taken s
  Steps-Adds (takes_external_service taken s) =
      process_next_work_item-Adds (Allowed r c) (external_service_sync_handler r env w c)
        (Emits-external_service_sync_handler r env w c) taken s
  Steps-Adds (takes_endpoints taken s) =
      process_next_work_item-Adds (Allowed r c) (endpoints_sync_handler r env w c)
        (Emits-endpoints_sync_handler r env w c) taken s
  Steps-Adds (checks_store now fq s) = frequency-Adds now fq s

  -- From the start of the program on, whatever the queues hand out, in whatever order the five workers take it, and whatever the
  -- world answers: every effect of the program is a permitted request of a synchronisation of a
  -- configured tenant, an update of a list of source addresses in the partition of a configured
  -- tenant, a store, or an effect that BIG-IP does not see.
  pub Reachable-Allowed : {s : List Effect} → Reachable r env w c s → All (Allowed r c) s
  Reachable-Allowed (starts parsed ces_namespace s e) =
      let adds = init_as3_tenant-Adds env w c r parsed ces_namespace s e in
      subst (All (Allowed r c)) (sym adds.is_after) adds.each_one
  Reachable-Allowed (goes_on {s} {t} before step) =
      let adds = Steps-Adds step in
      subst (All (Allowed r c)) (sym adds.is_after)
        (All-append (Allowed r c) s adds.added (Reachable-Allowed before) adds.each_one)
