-- ===== src/Controller/Wiring/Tests.antt =====
-- The theorems on the workers' loops and on `Run` at concrete inputs.
use container_egress_service.Prelude.{
  String, ◌≡◌, refl, Bool, true, false, Option, none, some, List, [], ◌∷◌, ◌++◌, all, if◌then◌else◌,
}
use container_egress_service.Kube.{ClusterEgressRule}
use container_egress_service.Controller.Queue.{
  Taken, shutdown, no_key, object, process_next_work_item,
}
use container_egress_service.Controller.Update.{cluster_rules}
use container_egress_service.Controller.Wiring.{
  Part, Event, shuts_down, of_namespace_rules, updated, on_event, waits_for, run, run_worker,
}
use container_egress_service.Controller.Wiring.Balance.{
  Balanced, EndsWith, handle_all, is_panic, run_worker-Balanced, run_worker-ends,
}
use container_egress_service.Controller.Wiring.Start.{
  all_of, served, caches, queues, until_failure, run_lem, GoesRight, on_event-GoesRight,
}
use container_egress_service.Io.{kube, normal, cluster_rule, Effect, Io, fail, emit}
use container_egress_service.Samples.{registry, cluster_rule as sample}

-- a handler that fails for an object whose key does not split
abbrev handler : Option (String × String) → ClusterEgressRule → Io (Unit {0})
handler none rule = fail kube
handler (some key) rule = emit (normal (cluster_rule rule))

abbrev handed_out : List (Taken ClusterEgressRule)
handed_out = object none sample ∷ no_key ∷ object (some ("", "all")) sample ∷ []

run_worker-Balanced_example :
    Balanced handed_out (run_worker (process_next_work_item handler) handed_out [])
run_worker-Balanced_example = run_worker-Balanced handler handed_out []

never_panics :
    (key : Option (String × String)) (rule : ClusterEgressRule) (t : List Effect)
    → is_panic (handler key rule t).0 ≡ false
never_panics none rule t = refl
never_panics (some key) rule t = refl

run_worker-ends_example : EndsWith handler (handle_all handler handed_out []) (
    run_worker
      (process_next_work_item handler)
      (handed_out ++ shutdown ∷ object (some ("", "late")) sample ∷ [])
      [])
run_worker-ends_example =
    run_worker-ends handler handed_out (object (some ("", "late")) sample ∷ []) [] never_panics refl

-- the cache of the namespace rules does not get in step
abbrev synced : Part → Bool
synced of_namespace_rules = false
synced _ = true

run_lem_example : run synced ≡ (
  all synced caches,
  (all_of waits_for (until_failure synced caches) ++ (if all synced caches then served else []))
      ++ all_of shuts_down queues,
)
run_lem_example = run_lem synced

abbrev change : Event
change = updated (cluster_rules sample sample)

on_event-GoesRight_example : GoesRight registry change (on_event registry change)
on_event-GoesRight_example = on_event-GoesRight registry change
