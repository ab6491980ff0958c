-- ===== src/Controller/Wiring.antt =====
-- pkg/controller/controller.go: the event handlers that `NewController` registers, `Run`, and the
-- loops of the workers. The informers and the queues belong to client-go: an informer calls the
-- handlers, and `Get` of a queue hands out what it likes until the queue is shut down.
pub mod Balance
pub mod Start
mod Tests
use container_egress_service.Prelude.{
  Bool, true, false, Option, none, some, List, [], ◌∷◌, ◌++◌, if◌then◌else◌,
}
use container_egress_service.As3.Config.{Registry}
use container_egress_service.Controller.Queue.{Taken, QueueOp, Processed}
use container_egress_service.Controller.Update.{
  Change, cluster_rules, namespace_rules, service_rules, external_services, endpoints, is_update,
}
use container_egress_service.Io.{
  Subject, cluster_rule, namespace_rule, service_rule, external_service, Effect,
}

-- The five informers, each with its queue and its worker.
pub data Part : Type 0 where
  of_endpoints of_external_services of_cluster_rules of_namespace_rules of_service_rules : Part

-- What an informer reports. A deletion that it has missed comes as a tombstone, which is no object.
pub data Event : Type 0 where
  added : Subject → Event
  updated : Change → Event
  deleted : Subject → Event
  missed_deletion : Part → Event

-- what is put into a queue
pub data Queued : Type 0 where
  holds : Subject → Queued
  tombstone : Queued

-- the informer that reports an object
unfoldable pub part_of : Subject → Part
part_of (cluster_rule _) = of_cluster_rules
part_of (namespace_rule _) = of_namespace_rules
part_of (service_rule _) = of_service_rules
part_of (external_service _) = of_external_services
part_of (Subject.endpoints _) = of_endpoints

abbrev enqueue_endpoints : Queued → Part × Queued
enqueue_endpoints obj = (of_endpoints, obj)

abbrev enqueue_external_service : Queued → Part × Queued
enqueue_external_service obj = (of_external_services, obj)

abbrev enqueue_cluster_egress_rule : Queued → Part × Queued
enqueue_cluster_egress_rule obj = (of_cluster_rules, obj)

abbrev enqueue_namespace_egress_rule : Queued → Part × Queued
enqueue_namespace_egress_rule obj = (of_namespace_rules, obj)

abbrev enqueue_sevice_egress_rule : Queued → Part × Queued
enqueue_sevice_egress_rule obj = (of_service_rules, obj)

-- AddFunc of each informer: new endpoints and new external services have none.
unfoldable pub add_func : Subject → Option (Part × Queued)
add_func (Subject.endpoints ep) = none
add_func (external_service exsvc) = none
add_func (cluster_rule rule) = some (enqueue_cluster_egress_rule (holds (cluster_rule rule)))
add_func (namespace_rule rule) = some (enqueue_namespace_egress_rule (holds (namespace_rule rule)))
add_func (service_rule rule) = some (enqueue_sevice_egress_rule (holds (service_rule rule)))

-- UpdateFunc of each informer, once `isUpdate` has let the change through
unfoldable pub enqueue_new : Change → Part × Queued
enqueue_new (endpoints old new) = enqueue_endpoints (holds (Subject.endpoints new))
enqueue_new (external_services old new) = enqueue_external_service (holds (external_service new))
enqueue_new (cluster_rules old new) = enqueue_cluster_egress_rule (holds (cluster_rule new))
enqueue_new (namespace_rules old new) = enqueue_namespace_egress_rule (holds (namespace_rule new))
enqueue_new (service_rules old new) = enqueue_sevice_egress_rule (holds (service_rule new))

unfoldable pub update_func : Registry → Change → Option (Part × Queued)
unfolding is_update enqueue_new
update_func r change = if is_update r change then some (enqueue_new change) else none

-- DeleteFunc of each informer
unfoldable pub delete_func : Part → Queued → Part × Queued
delete_func of_endpoints = enqueue_endpoints
delete_func of_external_services = enqueue_external_service
delete_func of_cluster_rules = enqueue_cluster_egress_rule
delete_func of_namespace_rules = enqueue_namespace_egress_rule
delete_func of_service_rules = enqueue_sevice_egress_rule

-- the queue that an event goes into, and what is added to it
unfoldable pub on_event : Registry → Event → Option (Part × Queued)
unfolding add_func update_func delete_func part_of
on_event r (added s) = add_func s
on_event r (updated change) = update_func r change
on_event r (deleted s) = some (delete_func (part_of s) (holds s))
on_event r (missed_deletion part) = some (delete_func part tombstone)

-- How a worker's loop stands: `Get` waits for an object, the queue is shut down, or a panic has
-- ended the program.
pub data LoopState : Type 0 where
  waits ends crashes : LoopState

-- what a worker has done
pub record Run : Type 0 where
  pub loop : LoopState
  pub ops : List QueueOp
  pub effects : List Effect

abbrev pub after : List QueueOp → Run → Run
after ops rest = record rest { ops = ops ++ rest.ops }

abbrev pub next_run : Processed → Run → Run
next_run p rest = elim p.go_on [
  | none ↦ record { loop = crashes; ops = p.ops; effects = p.effects }
  | some false ↦ record { loop = ends; ops = p.ops; effects = p.effects }
  | some true ↦ after p.ops rest
]

module _ {A : Type 0} (process_next : Taken A → List Effect → Processed) where
  -- `for c.processNext…() {}`, on what `Get` gives one after another
  unfoldable pub run_worker : List (Taken A) → List Effect → Run
  run_worker [] s = record { loop = waits; ops = []; effects = s }
  run_worker (t ∷ ts) s =
      let p = process_next t s in let rest = run_worker ts p.effects in next_run p rest

-- What `Run` does, in order.
pub data Action : Type 0 where
  waits_for starts_worker shuts_down : Part → Action
  waits_for_stop : Action

abbrev pub parts : List Part
parts =
    of_endpoints ∷ of_external_services ∷ of_cluster_rules ∷ of_namespace_rules ∷ of_service_rules
    ∷ []

abbrev pub each_of : (Part → Action) → List Part → List Action
each_of f [] = []
each_of f (p ∷ ps) = f p ∷ each_of f ps

-- the workers, and then one receive from the channel for each
abbrev pub work : List Action
work =
    each_of starts_worker parts
    ++ (waits_for_stop ∷ waits_for_stop ∷ waits_for_stop ∷ waits_for_stop ∷ waits_for_stop ∷ [])

-- The caches are waited for one after another. `synced` is what cache.WaitForCacheSync gives; the
-- first failure ends the function with an error.
unfoldable pub wait_for : (Part → Bool) → List Part → Bool × List Action
wait_for synced [] = (true, work)
wait_for synced (p ∷ ps) =
    let (ok, rest) = wait_for synced ps in
    if synced p then (ok, waits_for p ∷ rest) else (false, waits_for p ∷ [])

-- the deferred calls, last first
abbrev pub shut_downs : List Action
shut_downs =
    shuts_down of_service_rules
    ∷ shuts_down of_namespace_rules
    ∷ shuts_down of_cluster_rules
    ∷ shuts_down of_external_services
    ∷ shuts_down of_endpoints
    ∷ []

-- the result is false for an error
unfoldable pub run : (Part → Bool) → Bool × List Action
unfolding wait_for
run synced = let (ok, actions) = wait_for synced parts in (ok, actions ++ shut_downs)
