-- ===== src/Controller/System/Addresses.antt =====
-- The effects that the worker of endpoints may have.
use container_egress_service.Prelude.{String, ◌≡◌, refl, inr, Option, none, some, List, [], ◌∷◌}
use container_egress_service.Kube.{ServiceEgressRule, Endpoints}
use container_egress_service.As3.Types.{TenantConfig}
use container_egress_service.As3.Config.{Registry, get_tenant_config_for_namespace}
use container_egress_service.As3.Attrs.{get_as3_src_address_attr}
use container_egress_service.As3.Environment.{Environment}
use container_egress_service.As3.Client.{Client, patch_f5_reource}
use container_egress_service.As3.Client.Requests.{Emits-discard}
use container_egress_service.As3.Request.{source_address_body, update_big_ip_source_address}
use container_egress_service.Controller.Endpoint.{
  all_addresses, first_for_service, warn_and_fail, send_addresses, sync_rules,
  endpoints_sync_handler,
}
use container_egress_service.Controller.System.{IsConfigured, Allowed, sets_addresses, locally}
use container_egress_service.Controller.System.Sync.{Emits-warning}
use container_egress_service.Io.{
  Error, kube, no_addresses, Subject, touch_source_address, World, Effect, Found, found, not_found,
  unavailable, pure, fail, panic, ask, emit, attempt, ◌>>=◌,
}
use container_egress_service.Io.Traces.{Emits, nothing_added, Emits-emit, Emits->>=, Emits-attempt}

module _ (r : Registry) (env : Environment) (w : World) (c : Client) where
  abbrev P : Effect → Type 0
  P = Allowed r c

  module _ (ep : Endpoints) (tenant : TenantConfig) (own : IsConfigured r tenant) where
    Emits-update_big_ip_source_address :
        (addresses : List String) (namespace rule_name svc_name : String)
        → Emits P
            (update_big_ip_source_address r env w c addresses tenant namespace rule_name svc_name)
    unfolding update_big_ip_source_address patch_f5_reource
    Emits-update_big_ip_source_address addresses namespace rule_name svc_name =
        let attr = get_as3_src_address_attr r "svc" namespace rule_name svc_name in
        let body = source_address_body r env w c tenant addresses in
        Emits->>= P (patch_f5_reource w env c body _) (λ u. emit touch_source_address)
          (Emits-discard w env P _ (sets_addresses tenant attr body own))
          λ u. Emits-emit P touch_source_address (locally touch_source_address refl)

    Emits-warn_and_fail : (e : Error) → Emits P (warn_and_fail r env w c ep e)
    Emits-warn_and_fail e =
        Emits-warning r env w c (Subject.endpoints ep) (fail {A = Unit {0}} e)
          λ s. nothing_added P s

    Emits-send_addresses :
        (namespace : String) (rule : ServiceEgressRule) (addresses : List String)
        → Emits P (send_addresses r env w c ep tenant namespace rule addresses)
    Emits-send_addresses namespace rule [] = Emits-warn_and_fail no_addresses
    Emits-send_addresses namespace rule (a ∷ rest) =
        Emits->>= P
          (attempt (
            update_big_ip_source_address r env w c (a ∷ rest) tenant namespace rule.meta.name
              ep.meta.name))
          _
          (Emits-attempt P _
            (Emits-update_big_ip_source_address (a ∷ rest) namespace rule.meta.name ep.meta.name))
          λ u s. nothing_added P s

    for_rule :
        (namespace : String) (rule : Option ServiceEgressRule)
        → Emits {0} P (elim rule [
          | none ↦ pure tt
          | some rule ↦ send_addresses r env w c ep tenant namespace rule (all_addresses ep.subsets)
        ])
    for_rule namespace none = λ s. nothing_added P s
    for_rule namespace (some rule) = Emits-send_addresses namespace rule (all_addresses ep.subsets)

    Emits-sync_rules :
        (namespace name : String) (listed : Option (List ServiceEgressRule))
        → Emits P (sync_rules r env w c ep tenant namespace name listed)
    Emits-sync_rules namespace name none = Emits-warn_and_fail kube
    Emits-sync_rules namespace name (some rules) = for_rule namespace (first_for_service name rules)

  endpoints_found :
      (tenant : TenantConfig) (namespace name : String) (got : Found Endpoints)
      → IsConfigured r tenant
      → Emits {0} P (elim got [
        | not_found ↦ pure tt
        | unavailable ↦ panic
        | found ep ↦ (do
          listed ← ask (λ s. w.service_rules s namespace)
          sync_rules r env w c ep tenant namespace name listed)
      ])
  endpoints_found tenant namespace name not_found own = λ s. nothing_added P s
  endpoints_found tenant namespace name unavailable own = λ s. nothing_added P s
  endpoints_found tenant namespace name (found ep) own =
      λ s. Emits-sync_rules ep tenant own namespace name (w.service_rules s namespace) s

  pub Emits-endpoints_sync_handler :
      (key : Option (String × String)) (given : Endpoints)
      → Emits P (endpoints_sync_handler r env w c key given)
  unfolding endpoints_sync_handler
  Emits-endpoints_sync_handler none given = λ s. nothing_added P s
  Emits-endpoints_sync_handler (some (namespace, name)) given =
      watched (get_tenant_config_for_namespace r namespace) refl
    where
      watched :
          (tenant : Option TenantConfig)
          → get_tenant_config_for_namespace r namespace ≡ tenant
          → Emits {0} P (elim tenant [
            | none ↦ pure tt
            | some ns_config ↦ (do
              got ← ask (λ s. w.endpoints s namespace name)
              elim got [
                | not_found ↦ pure tt
                | unavailable ↦ panic
                | found ep ↦ (do
                  listed ← ask (λ s. w.service_rules s namespace)
                  sync_rules r env w c ep ns_config namespace name listed)
              ])
          ])
      watched none e = λ s. nothing_added P s
      watched (some tenant) e = λ s.
          endpoints_found tenant namespace name (w.endpoints s namespace name) (inr (namespace, e))
            s
