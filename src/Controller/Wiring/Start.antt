-- ===== src/Controller/Wiring/Start.antt =====
-- What `Run` does, and which queue an event goes into.
use container_egress_service.Prelude.{
  ◌≡◌, refl, ap, not, Bool, true, false, inl, inr, Option, none, some, List, [], ◌∷◌, ◌++◌, all,
  Bool-cases, if◌then◌else◌,
}
use container_egress_service.As3.Config.{Registry}
use container_egress_service.Controller.Update.{
  Change, cluster_rules, namespace_rules, service_rules, external_services, endpoints, is_update,
}
use container_egress_service.Controller.Wiring.{
  Action, starts_worker, shuts_down, waits_for_stop, Part, of_endpoints, of_external_services,
  of_cluster_rules, of_namespace_rules, of_service_rules, Event, added, updated, deleted,
  missed_deletion, Queued, holds, tombstone, part_of, add_func, enqueue_new, update_func,
  delete_func, on_event, waits_for, each_of, work, wait_for, run,
}
use container_egress_service.Io.{
  Subject, cluster_rule, namespace_rule, service_rule, external_service,
}

-- the parts up to the first whose cache does not get in step
abbrev pub until_failure : (Part → Bool) → List Part → List Part
until_failure synced [] = []
until_failure synced (p ∷ ps) = if synced p then p ∷ until_failure synced ps else p ∷ []

abbrev pub all_of : (Part → Action) → List Part → List Action
all_of f [] = []
all_of f (p ∷ ps) = f p ∷ all_of f ps

each_of_lem : (ps : List Part) → each_of waits_for ps ≡ all_of waits_for ps
each_of_lem [] = refl
each_of_lem (p ∷ ps) = ap (λ l. waits_for p ∷ l) (each_of_lem ps)

wait_for_lem :
    (synced : Part → Bool) (ps : List Part)
    → wait_for synced ps ≡ (
      all synced ps,
      each_of waits_for (until_failure synced ps) ++ (if all synced ps then work else []),
    )
unfolding wait_for
wait_for_lem synced [] = refl
wait_for_lem synced (p ∷ ps) = elim (Bool-cases (synced p)) [
  | inl e ↦ rw (e, wait_for_lem synced ps) refl
  | inr e ↦ rw e refl
]

-- What `Run` is to do after the caches: five workers, and five receives from the channel.
abbrev pub served : List Action
served =
    starts_worker of_endpoints
    ∷ starts_worker of_external_services
    ∷ starts_worker of_cluster_rules
    ∷ starts_worker of_namespace_rules
    ∷ starts_worker of_service_rules
    ∷ waits_for_stop
    ∷ waits_for_stop
    ∷ waits_for_stop
    ∷ waits_for_stop
    ∷ waits_for_stop
    ∷ []

-- the caches in the order in which they are waited for
abbrev pub caches : List Part
caches =
    of_endpoints ∷ of_external_services ∷ of_cluster_rules ∷ of_namespace_rules ∷ of_service_rules
    ∷ []

-- the queues in the order in which they are shut down
abbrev pub queues : List Part
queues =
    of_service_rules ∷ of_namespace_rules ∷ of_cluster_rules ∷ of_external_services ∷ of_endpoints
    ∷ []

-- `Run` fails exactly if some cache does not get in step. It waits for the caches in their order up
-- to the first failure, starts the workers only after the last of them, and in every case ends by
-- shutting down the five queues.
pub run_lem :
    (synced : Part → Bool)
    → run synced ≡ (
      all synced caches,
      (all_of waits_for (until_failure synced caches) ++ (if all synced caches then served else []))
          ++ all_of shuts_down queues,
    )
unfolding run
run_lem synced = rw (wait_for_lem synced caches, each_of_lem (until_failure synced caches)) refl

-- the new version in a change
abbrev pub new_of : Change → Subject
new_of (cluster_rules old new) = cluster_rule new
new_of (namespace_rules old new) = namespace_rule new
new_of (service_rules old new) = service_rule new
new_of (external_services old new) = external_service new
new_of (endpoints old new) = Subject.endpoints new

-- the object that an event is about
abbrev pub object_of : Event → Option Subject
object_of (added s) = some s
object_of (updated change) = some (new_of change)
object_of (deleted s) = some s
object_of (missed_deletion part) = none

-- the objects whose addition is left to their rules
abbrev pub is_passive : Subject → Bool
is_passive (Subject.endpoints ep) = true
is_passive (external_service exsvc) = true
is_passive _ = false

module _ (r : Registry) where
  -- the events that put nothing into a queue
  abbrev pub is_ignored : Event → Bool
  is_ignored (added s) = is_passive s
  is_ignored (updated change) = not (is_update r change)
  is_ignored (deleted s) = false
  is_ignored (missed_deletion part) = false

  -- what a queue gets for an event: the object, which is of the kind that the queue is for, or a
  -- tombstone for a deletion that its own informer has missed
  abbrev pub GoesRight : Event → Option (Part × Queued) → Type 0
  GoesRight event none = is_ignored event ≡ true
  GoesRight event (some (part, holds s)) =
      (is_ignored event ≡ false) × (object_of event ≡ some s) × (part_of s ≡ part)
  GoesRight event (some (part, tombstone)) = event ≡ missed_deletion part

  add_func-GoesRight : (s : Subject) → GoesRight (added s) (add_func s)
  unfolding add_func part_of
  add_func-GoesRight (Subject.endpoints ep) = refl
  add_func-GoesRight (external_service exsvc) = refl
  add_func-GoesRight (cluster_rule rule) = (refl, refl, refl)
  add_func-GoesRight (namespace_rule rule) = (refl, refl, refl)
  add_func-GoesRight (service_rule rule) = (refl, refl, refl)

  enqueue_new-GoesRight :
      (change : Change)
      → is_update r change ≡ true
      → GoesRight (updated change) (some (enqueue_new change))
  unfolding enqueue_new part_of
  enqueue_new-GoesRight (endpoints old new) h = (ap not h, refl, refl)
  enqueue_new-GoesRight (external_services old new) h = (ap not h, refl, refl)
  enqueue_new-GoesRight (cluster_rules old new) h = (ap not h, refl, refl)
  enqueue_new-GoesRight (namespace_rules old new) h = (ap not h, refl, refl)
  enqueue_new-GoesRight (service_rules old new) h = (ap not h, refl, refl)

  delete_func-GoesRight :
      (s : Subject) → GoesRight (deleted s) (some (delete_func (part_of s) (holds s)))
  unfolding delete_func part_of
  delete_func-GoesRight (Subject.endpoints ep) = (refl, refl, refl)
  delete_func-GoesRight (external_service exsvc) = (refl, refl, refl)
  delete_func-GoesRight (cluster_rule rule) = (refl, refl, refl)
  delete_func-GoesRight (namespace_rule rule) = (refl, refl, refl)
  delete_func-GoesRight (service_rule rule) = (refl, refl, refl)

  tombstone-GoesRight :
      (part : Part) → GoesRight (missed_deletion part) (some (delete_func part tombstone))
  unfolding delete_func
  tombstone-GoesRight of_endpoints = refl
  tombstone-GoesRight of_external_services = refl
  tombstone-GoesRight of_cluster_rules = refl
  tombstone-GoesRight of_namespace_rules = refl
  tombstone-GoesRight of_service_rules = refl

  -- An event puts its object, in the new version, into the queue of the worker that expects objects of
  -- that kind. Nothing is put into a queue exactly for new endpoints, for new external services and
  -- for changes that `isUpdate` holds back. A deletion that an informer has missed puts a tombstone
  -- into the queue of that informer, and no other event puts one into a queue.
  pub on_event-GoesRight : (event : Event) → GoesRight event (on_event r event)
  unfolding on_event update_func
  on_event-GoesRight (added s) = add_func-GoesRight s
  on_event-GoesRight (updated change) = elim (Bool-cases (is_update r change)) [
    | inl passed ↦ rw passed (enqueue_new-GoesRight change passed)
    | inr kept ↦ rw kept (ap not kept)
  ]
  on_event-GoesRight (deleted s) = delete_func-GoesRight s
  on_event-GoesRight (missed_deletion part) = tombstone-GoesRight part
