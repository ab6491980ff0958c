-- ===== src/Controller/Sync.antt =====
-- What the handlers of the three kinds of rules share: the loop that labels the external services
-- of a rule, and the steps around the request to BIG-IP.
pub mod Effects
pub mod Settled
pub mod Tests
use container_egress_service.Prelude.{
  String, Bool, true, false, Option, none, some, List, [], ◌∷◌, ◌++◌, ◌&&◌, not, ◌==◌,
  if◌then◌else◌,
}
use container_egress_service.Prelude.GoMap.{GoMap, lookup, insert, delete}
use container_egress_service.Kube.{ObjectMeta, ExternalService, phase_success, phase_syncing}
use container_egress_service.As3.Types.{rule_type_label}
use container_egress_service.As3.Config.{Registry}
use container_egress_service.As3.Environment.{Environment}
use container_egress_service.As3.Rules.{As3Post}
use container_egress_service.As3.Client.{Client}
use container_egress_service.As3.Request.{as3_request}
use container_egress_service.Io.{
  Error, kube, Subject, update_external_service, update_status, normal, warning, Found, found,
  not_found, unavailable, World, Effect, Io, Step, done, failed, panicked, continue, Reply, ok, err,
  pure, fail, ask, emit, check, attempt, ◌>>=◌, ◌>>◌,
}

-- A kind of rule: what the three handlers do not have in common.
pub record Kind (A : Type 0) : Type 0 where
  pub subject : A → Subject
  pub phase : A → String
  pub with_phase : String → A → A
  pub send_status : World → List Effect → A → A × Option Error
  pub rule_type : String

abbrev label_of : String → GoMap String → String
label_of k m = elim (lookup k m) [ none ↦ "" | some v ↦ v ]

abbrev pub with_labels : GoMap String → ExternalService → ExternalService
with_labels labels exsvc = record exsvc { meta = record exsvc.meta { labels = labels } }

module _ (w : World) where
  abbrev send_exsvc : ExternalService → Io (Unit {0})
  send_exsvc exsvc = do
    e ← ask (λ s. w.update_external_service s exsvc)
    emit (update_external_service exsvc)
    check e

  -- The label with the type of the rule is taken away with the rule, and else set if it is another.
  unfoldable pub relabel : Bool → String → ExternalService → Io ExternalService
  relabel is_delete rule_type exsvc =
      if is_delete
      then (do
        let changed = with_labels (delete rule_type_label exsvc.labels) exsvc
        send_exsvc changed
        pure changed)
      else if not (label_of rule_type_label exsvc.labels == rule_type)
      then (do
        let changed = with_labels (insert rule_type_label rule_type exsvc.labels) exsvc
        send_exsvc changed
        pure changed)
      else pure exsvc

  abbrev label_found : Bool → String → Found ExternalService → Io (List ExternalService)
  label_found is_delete rule_type (found exsvc) = do
    changed ← relabel is_delete rule_type exsvc
    pure (changed ∷ [])
  label_found is_delete rule_type not_found = pure []
  label_found is_delete rule_type unavailable = fail kube

  -- The loop over the external services of a rule: one that does not exist is passed over.
  unfoldable pub label_exsvcs : String → Bool → String → List String → Io (List ExternalService)
  unfolding relabel
  label_exsvcs namespace is_delete rule_type [] = pure []
  label_exsvcs namespace is_delete rule_type (name ∷ names) = do
    got ← ask (λ s. w.external_service s namespace name)
    first ← label_found is_delete rule_type got
    rest ← label_exsvcs namespace is_delete rule_type names
    pure (first ++ rest)

  module _ {A : Type 0} (kind : Kind A) where
    -- UpdateStatus: the rule that the API server sends back, and its error
    unfoldable pub set_phase : String → A → Io (A × Option Error)
    set_phase phase rule = do
      let changed = kind.with_phase phase rule
      answer ← ask (λ s. kind.send_status w s changed)
      emit (update_status (kind.subject changed))
      pure answer

    abbrev pub warn_and_fail : A → Error → Io (Unit {0})
    warn_and_fail rule e = do emit (warning (kind.subject rule)); fail e

    abbrev pub fail_if : A → Option Error → Io (Unit {0})
    fail_if rule none = pure tt
    fail_if rule (some e) = warn_and_fail rule e

    -- the phase Syncing, once; not for a rule that is gone
    unfoldable pub begin_sync : Bool → A → Io A
    unfolding set_phase
    begin_sync is_delete rule =
        if not is_delete && not (kind.phase rule == phase_syncing)
        then (do answer ← set_phase phase_syncing rule; fail_if answer.0 answer.1; pure answer.0)
        else pure rule

    -- the phase Success and its event
    unfoldable pub end_sync : Bool → A → Io (Unit {0})
    unfolding set_phase
    end_sync is_delete rule =
        if not is_delete
        then (do
          answer ← set_phase phase_success rule
          fail_if (kind.with_phase phase_success rule) answer.1
          emit (normal (kind.subject (kind.with_phase phase_success rule))))
        else pure tt

    abbrev pub on_error : A → Reply (Unit {0}) → Io (Unit {0})
    on_error rule (ok _) = pure tt
    on_error rule (err e) = warn_and_fail rule e

    abbrev pub warn_if : Bool → A → Io (Unit {0})
    warn_if pending rule = if pending then emit (warning (kind.subject rule)) else pure tt

    module _ (r : Registry) (env : Environment) (c : Client) where
      abbrev pub sync_found :
          Bool
          → Bool
          → (A → List ExternalService → As3Post)
          → A
          → Reply (List ExternalService)
          → Io (Unit {0})
      sync_found is_delete pending post rule (err e) = do warn_if pending rule; fail e
      sync_found is_delete pending post rule (ok []) = warn_if pending rule
      sync_found is_delete pending post rule (ok (exsvc ∷ exsvcs)) = do
        begun ← begin_sync is_delete rule
        result ←
            attempt (as3_request r env w c (post begun (exsvc ∷ exsvcs)) kind.rule_type is_delete)
        on_error begun result
        end_sync is_delete begun

      -- The handler from its loop on. `pending` says that the variable `err` which the deferred
      -- function reads still holds the error of a lookup: that of the loop is another variable.
      unfoldable pub sync_rule :
          Bool
          → Bool
          → String
          → List String
          → (A → List ExternalService → As3Post)
          → A
          → Io (Unit {0})
      unfolding label_exsvcs begin_sync end_sync as3_request
      sync_rule is_delete pending namespace names post rule = do
        exsvcs ← attempt (label_exsvcs namespace is_delete kind.rule_type names)
        sync_found is_delete pending post rule exsvcs
