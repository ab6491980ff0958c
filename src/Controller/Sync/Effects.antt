-- ===== src/Controller/Sync/Effects.antt =====
-- What the synchronisation of a rule does to the world.
use container_egress_service.Prelude.{
  String, ◌≡◌, Bool, true, false, Bool-cases, inl, inr, some, List, [], ◌∷◌, ◌==◌,
}
use container_egress_service.Kube.{ExternalService}
use container_egress_service.As3.Types.{TenantConfig, rule_type_label}
use container_egress_service.As3.Config.{Registry}
use container_egress_service.As3.Environment.{Environment}
use container_egress_service.As3.Rules.{As3Post}
use container_egress_service.As3.Client.{Client}
use container_egress_service.As3.Request.{as3_request}
use container_egress_service.As3.Request.Permitted.{Permitted, as3_request-Permitted}
use container_egress_service.Controller.Sync.{
  Kind, label_of, send_exsvc, relabel, label_found, label_exsvcs, warn_and_fail, begin_sync,
  end_sync, on_error, warn_if, sync_found, sync_rule,
}
use container_egress_service.Io.{
  Error, Subject, update_external_service, warning, Found, found, not_found, unavailable, World,
  Effect, Reply, ok, err, pure, fail, emit, check, attempt, ◌>>◌,
}
use container_egress_service.Io.Traces.{
  Emits, nothing_added, Emits-emit, Emits-check, Emits->>=, Emits-attempt, Emits-weaken,
}

module _ (w : World) (P : Effect → Type 0)
    (allow : (x : ExternalService) → P (update_external_service x)) where
  Emits-send_exsvc : (exsvc : ExternalService) → Emits P (send_exsvc w exsvc)
  Emits-send_exsvc exsvc s =
      Emits->>= P (emit (update_external_service exsvc))
        (λ u. check (w.update_external_service s exsvc))
        (Emits-emit P (update_external_service exsvc) (allow exsvc))
        (λ u. Emits-check P (w.update_external_service s exsvc)) s

  Emits-changed : (exsvc : ExternalService) → Emits P (do send_exsvc w exsvc; pure exsvc)
  Emits-changed exsvc =
      Emits->>= P (send_exsvc w exsvc) _ (Emits-send_exsvc exsvc) λ u s. nothing_added P s

  Emits-relabel :
      (is_delete : Bool) (ty : String) (exsvc : ExternalService)
      → Emits P (relabel w is_delete ty exsvc)
  unfolding relabel
  Emits-relabel true ty exsvc = Emits-changed _
  Emits-relabel false ty exsvc = elim (Bool-cases (label_of rule_type_label exsvc.labels == ty)) [
    | inl same ↦ rw same (λ s. nothing_added P s)
    | inr other ↦ rw other (Emits-changed _)
  ]

  Emits-label_found :
      (is_delete : Bool) (ty : String) (got : Found ExternalService)
      → Emits P (label_found w is_delete ty got)
  Emits-label_found is_delete ty (found exsvc) =
      Emits->>= P (relabel w is_delete ty exsvc) _ (Emits-relabel is_delete ty exsvc)
        λ u s. nothing_added P s
  Emits-label_found is_delete ty not_found = λ s. nothing_added P s
  Emits-label_found is_delete ty unavailable = λ s. nothing_added P s

  pub Emits-label_exsvcs :
      (namespace : String) (is_delete : Bool) (ty : String) (names : List String)
      → Emits P (label_exsvcs w namespace is_delete ty names)
  unfolding label_exsvcs
  Emits-label_exsvcs namespace is_delete ty [] = λ s. nothing_added P s
  Emits-label_exsvcs namespace is_delete ty (name ∷ names) = λ s.
      Emits->>= P (label_found w is_delete ty (w.external_service s namespace name)) _
        (Emits-label_found is_delete ty (w.external_service s namespace name))
        (λ first.
          Emits->>= P (label_exsvcs w namespace is_delete ty names) _
            (Emits-label_exsvcs namespace is_delete ty names) λ rest t. nothing_added P t)
        s

-- A rule that is gone is not written to: there is no update of its status and no event of success.
pub data OfDeletion (c : Client) (tenant : TenantConfig) (ty : String) : Effect → Type 0 where
  requests : (e : Effect) → Permitted c tenant ty e → OfDeletion c tenant ty e
  unlabels : (exsvc : ExternalService) → OfDeletion c tenant ty (update_external_service exsvc)
  warns : (subject : Subject) → OfDeletion c tenant ty (warning subject)

module _ {A : Type 0} (r : Registry) (env : Environment) (w : World) (c : Client) (kind : Kind A)
    (tenant : TenantConfig) where
  abbrev P : Effect → Type 0
  P = OfDeletion c tenant kind.rule_type

  Emits-warn_and_fail : (rule : A) (e : Error) → Emits P (warn_and_fail w kind rule e)
  Emits-warn_and_fail rule e =
      Emits->>= P (emit (warning (kind.subject rule))) (λ u. fail {A = Unit {0}} e)
        (Emits-emit P (warning (kind.subject rule)) (warns (kind.subject rule)))
        λ u s. nothing_added P s

  Emits-on_error : (rule : A) (reply : Reply (Unit {0})) → Emits P (on_error w kind rule reply)
  Emits-on_error rule (ok u) = λ s. nothing_added P s
  Emits-on_error rule (err e) = Emits-warn_and_fail rule e

  Emits-warn_if : (pending : Bool) (rule : A) → Emits P (warn_if w kind pending rule)
  Emits-warn_if true rule = Emits-emit P (warning (kind.subject rule)) (warns (kind.subject rule))
  Emits-warn_if false rule = λ s. nothing_added P s

  module _ (post : A → List ExternalService → As3Post) (rule : A)
      (own : (exsvcs : List ExternalService) → (post rule exsvcs).tenant_config ≡ some tenant) where
    Emits-sync_found :
        (pending : Bool) (reply : Reply (List ExternalService))
        → Emits P (sync_found w kind r env c true pending post rule reply)
    unfolding begin_sync end_sync
    Emits-sync_found pending (err e) =
        Emits->>= P (warn_if w kind pending rule) (λ u. fail {A = Unit {0}} e)
          (Emits-warn_if pending rule) λ u s. nothing_added P s
    Emits-sync_found pending (ok []) = Emits-warn_if pending rule
    Emits-sync_found pending (ok (exsvc ∷ exsvcs)) =
        Emits->>= P
          (attempt (as3_request r env w c (post rule (exsvc ∷ exsvcs)) kind.rule_type true)) _
          (Emits-attempt P _ (
            Emits-weaken requests
              (as3_request r env w c (post rule (exsvc ∷ exsvcs)) kind.rule_type true)
              (as3_request-Permitted r env w c tenant kind.rule_type (post rule (exsvc ∷ exsvcs))
                true (own (exsvc ∷ exsvcs)))))
          λ result.
            Emits->>= P (on_error w kind rule result) (λ u. pure tt) (Emits-on_error rule result)
              λ u s. nothing_added P s

    -- The deletion of a rule, for all that the world answers, has no effects but permitted requests
    -- about the rule's tenant, updates of external services and warnings: it neither writes the
    -- status of the rule nor reports a success.
    pub sync_rule-OfDeletion :
        (pending : Bool) (namespace : String) (names : List String)
        → Emits
            (OfDeletion c tenant kind.rule_type)
            (sync_rule w kind r env c true pending namespace names post rule)
    unfolding sync_rule
    sync_rule-OfDeletion pending namespace names =
        Emits->>= P (attempt (label_exsvcs w namespace true kind.rule_type names)) _
          (Emits-attempt P _ (Emits-label_exsvcs w P unlabels namespace true kind.rule_type names))
          λ exsvcs. Emits-sync_found pending exsvcs
