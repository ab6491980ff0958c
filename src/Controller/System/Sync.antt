-- ===== src/Controller/System/Sync.antt =====
-- The effects that the synchronisation of a rule may have, whether it is deleted or not.
use container_egress_service.Prelude.{
  String, ◌≡◌, refl, Bool, true, false, Bool-cases, inl, inr, Option, none, some, List, [], ◌∷◌,
  ◌==◌,
}
use container_egress_service.Kube.{ExternalService, phase_success, phase_syncing}
use container_egress_service.As3.Types.{TenantConfig}
use container_egress_service.As3.Config.{Registry}
use container_egress_service.As3.Environment.{Environment}
use container_egress_service.As3.Rules.{As3Post}
use container_egress_service.As3.Declaration.{generate_as3_resource_declaration}
use container_egress_service.As3.Client.{Client}
use container_egress_service.As3.Request.{as3_request}
use container_egress_service.As3.Request.Permitted.{as3_request-Permitted}
use container_egress_service.Controller.Sync.{
  Kind, label_exsvcs, set_phase, warn_and_fail, fail_if, begin_sync, end_sync, on_error, warn_if,
  sync_found, sync_rule,
}
use container_egress_service.Controller.Sync.Effects.{Emits-label_exsvcs}
use container_egress_service.Controller.System.{IsConfigured, Allowed, synchronises, locally}
use container_egress_service.Io.{
  Error, Subject, update_external_service, update_status, normal, warning, World, Effect, Io, Reply,
  ok, err, pure, fail, emit, attempt, lift, ◌>>◌,
}
use container_egress_service.Io.Traces.{
  Emits, nothing_added, Emits-emit, Emits-lift, Emits->>=, Emits-attempt, Emits-weaken,
}

-- the tenant of a request is one of the configuration, if there is one
abbrev pub Configured : Registry → As3Post → Type 0
Configured r ac = (t : TenantConfig) → ac.tenant_config ≡ some t → IsConfigured r t

module _ (r : Registry) (env : Environment) (w : World) (c : Client) where
  abbrev P : Effect → Type 0
  P = Allowed r c

  request_of :
      (ac : As3Post) (ty : String) (is_delete : Bool) (tenant : Option TenantConfig)
      → ac.tenant_config ≡ tenant
      → Configured r ac
      → Emits P (as3_request r env w c ac ty is_delete)
  unfolding as3_request
  request_of ac ty is_delete none e h =
      Emits->>= P (lift (generate_as3_resource_declaration r env ac [])) _ (Emits-lift P _)
        λ delta_adc. rw e λ s. nothing_added P s
  request_of ac ty is_delete (some tenant) e h =
      Emits-weaken (λ x. synchronises tenant ty x (h tenant e))
        (as3_request r env w c ac ty is_delete)
        (as3_request-Permitted r env w c tenant ty ac is_delete e)

  -- whatever tenant a request has
  pub as3_request-Allowed :
      (ac : As3Post) (ty : String) (is_delete : Bool)
      → Configured r ac
      → Emits P (as3_request r env w c ac ty is_delete)
  as3_request-Allowed ac ty is_delete = request_of ac ty is_delete ac.tenant_config refl

  pub Emits-warning :
      {A : Type 0} (subject : Subject) (m : Io A)
      → Emits P m
      → Emits P (do emit (warning subject); m)
  Emits-warning subject m h =
      Emits->>= P (emit (warning subject)) (λ u. m)
        (Emits-emit P (warning subject) (locally (warning subject) refl)) λ u. h

  module _ {A : Type 0} (kind : Kind A) where
    Emits-warn_and_fail : (rule : A) (e : Error) → Emits P (warn_and_fail w kind rule e)
    Emits-warn_and_fail rule e =
        Emits-warning (kind.subject rule) (fail {A = Unit {0}} e) λ s. nothing_added P s

    Emits-fail_if : (rule : A) (e : Option Error) → Emits P (fail_if w kind rule e)
    Emits-fail_if rule none = λ s. nothing_added P s
    Emits-fail_if rule (some e) = Emits-warn_and_fail rule e

    Emits-on_error : (rule : A) (reply : Reply (Unit {0})) → Emits P (on_error w kind rule reply)
    Emits-on_error rule (ok u) = λ s. nothing_added P s
    Emits-on_error rule (err e) = Emits-warn_and_fail rule e

    Emits-warn_if : (pending : Bool) (rule : A) → Emits P (warn_if w kind pending rule)
    Emits-warn_if true rule = Emits-emit P _ (locally _ refl)
    Emits-warn_if false rule = λ s. nothing_added P s

    Emits-set_phase : (phase : String) (rule : A) → Emits P (set_phase w kind phase rule)
    unfolding set_phase
    Emits-set_phase phase rule = λ s.
        let changed = kind.with_phase phase rule in
        Emits->>= P (emit (update_status (kind.subject changed)))
          (λ u. pure (kind.send_status w s changed)) (Emits-emit P _ (locally _ refl))
          (λ u t. nothing_added P t) s

    Emits-begin_sync : (is_delete : Bool) (rule : A) → Emits P (begin_sync w kind is_delete rule)
    unfolding begin_sync
    Emits-begin_sync true rule = λ s. nothing_added P s
    Emits-begin_sync false rule = elim (Bool-cases (kind.phase rule == phase_syncing)) [
      | inl same ↦ rw same (λ s. nothing_added P s)
      | inr other ↦ rw other (
          Emits->>= P (set_phase w kind phase_syncing rule)
            (λ answer. do fail_if w kind answer.0 answer.1; pure answer.0)
            (Emits-set_phase phase_syncing rule)
            λ answer.
              Emits->>= P (fail_if w kind answer.0 answer.1) (λ u. pure answer.0)
                (Emits-fail_if answer.0 answer.1) λ u s. nothing_added P s)
    ]

    Emits-end_sync : (is_delete : Bool) (rule : A) → Emits P (end_sync w kind is_delete rule)
    unfolding end_sync
    Emits-end_sync true rule = λ s. nothing_added P s
    Emits-end_sync false rule =
        let synced = kind.with_phase phase_success rule in
        Emits->>= P (set_phase w kind phase_success rule)
          (λ answer. do fail_if w kind synced answer.1; emit (normal (kind.subject synced)))
          (Emits-set_phase phase_success rule)
          λ answer.
            Emits->>= P (fail_if w kind synced answer.1) (λ u. emit (normal (kind.subject synced)))
              (Emits-fail_if synced answer.1)
              λ u.
                Emits-emit P (normal (kind.subject synced))
                  (locally (normal (kind.subject synced)) refl)

    module _ (post : A → List ExternalService → As3Post) (is_delete : Bool)
        (own : (a : A) (exsvcs : List ExternalService) → Configured r (post a exsvcs)) where
      Emits-sync_found :
          (pending : Bool) (rule : A) (reply : Reply (List ExternalService))
          → Emits P (sync_found w kind r env c is_delete pending post rule reply)
      Emits-sync_found pending rule (err e) =
          Emits->>= P (warn_if w kind pending rule) (λ u. fail {A = Unit {0}} e)
            (Emits-warn_if pending rule) λ u s. nothing_added P s
      Emits-sync_found pending rule (ok []) = Emits-warn_if pending rule
      Emits-sync_found pending rule (ok (exsvc ∷ exsvcs)) =
          Emits->>= P (begin_sync w kind is_delete rule) _ (Emits-begin_sync is_delete rule)
            λ begun.
              Emits->>= P
                (attempt
                  (as3_request r env w c (post begun (exsvc ∷ exsvcs)) kind.rule_type is_delete))
                _
                (Emits-attempt P _ (
                  as3_request-Allowed (post begun (exsvc ∷ exsvcs)) kind.rule_type is_delete
                    (own begun (exsvc ∷ exsvcs))))
                λ result.
                  Emits->>= P (on_error w kind begun result) _ (Emits-on_error begun result)
                    λ u. Emits-end_sync is_delete begun

      pub Emits-sync_rule :
          (pending : Bool) (namespace : String) (names : List String) (rule : A)
          → Emits P (sync_rule w kind r env c is_delete pending namespace names post rule)
      unfolding sync_rule
      Emits-sync_rule pending namespace names rule =
          Emits->>= P (attempt (label_exsvcs w namespace is_delete kind.rule_type names)) _
            (Emits-attempt P _ (
              Emits-label_exsvcs w P (λ x. locally (update_external_service x) refl) namespace
                is_delete kind.rule_type names))
            λ exsvcs. Emits-sync_found pending rule exsvcs
