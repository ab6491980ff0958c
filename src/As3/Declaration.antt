-- ===== src/As3/Declaration.antt =====
-- Whole declarations: `newAs3Obj`, `initDefaultAS3` and `generateAS3ResourceDeclaration` of
-- pkg/as3/utils.go.
use container_egress_service.Prelude.{String, none, some, [], ◌∷◌, ◌&&◌, not, ◌==◌, if◌then◌else◌}
use container_egress_service.Prelude.Outcome.{Outcome, returns, ◌>>=◌, deref}
use container_egress_service.Prelude.GoMap.{GoMap, lookup, insert, delete}
use container_egress_service.Json.{Json, text, object}
use container_egress_service.As3.Types.{default_partition}
use container_egress_service.As3.Config.{Registry, get_schema_version}
use container_egress_service.As3.Resource.{App, encode_app}
use container_egress_service.As3.Environment.{Environment}
use container_egress_service.As3.Rules.{As3Post}
use container_egress_service.As3.Firewall.{new_policies_decl}
use container_egress_service.As3.Services.{
  new_gw_pool_decl, new_log_pool_decl, new_virtual_address_decl, new_service_decl,
}
use container_egress_service.As3.Tenant.{As3Tenant, tenant_json, tenant_init_default}

module _ (r : Registry) where
  -- the object `declaration` of a new request, which holds the partition Common
  unfoldable pub default_adc : Outcome (GoMap Json)
  unfolding tenant_init_default get_schema_version
  default_adc = do
    tenant ← tenant_init_default r default_partition
    returns (
        insert "updateMode" (text "selective") (
          insert "schemaVersion" (text (get_schema_version r)) (
            insert "id" (text "k8s-ces-controller") (
              insert "class" (text "ADC") (
                insert default_partition
                  (tenant_json tenant.default_route_domain (object (encode_app tenant.shared)))
                  [])))))

  abbrev as3_object : GoMap Json → Json
  as3_object adc = object (
      (
        "$schema",
        text
            "https://raw.githubusercontent.com/F5Networks/f5-appsvcs-extension/master/schema/latest/as3-schema.json",
      )
      ∷ ("class", text "AS3")
      ∷ ("declaration", object adc)
      ∷ [])

  unfoldable pub init_default_as3 : Outcome Json
  unfolding default_adc
  init_default_as3 = do adc ← default_adc; returns (as3_object adc)

  -- the object `declaration` of `newAs3Obj`
  unfoldable pub new_adc : String → Json → Outcome (GoMap Json)
  unfolding default_adc tenant_init_default
  new_adc partition share_application = do
    adc ← default_adc
    tenant ← tenant_init_default r partition
    let full = insert partition (tenant_json tenant.default_route_domain share_application) adc
    returns (
        if r.is_support_route_domain && not (partition == default_partition)
        then delete default_partition full
        else full)

  unfoldable pub new_as3_obj : String → Json → Outcome Json
  unfolding new_adc
  new_as3_obj partition share_application = do
    adc ← new_adc partition share_application
    returns (as3_object adc)

  unfoldable pub process_resources_for_as3 : Environment → As3Post → App → Outcome App
  unfolding new_policies_decl new_gw_pool_decl new_log_pool_decl new_virtual_address_decl
      new_service_decl
  process_resources_for_as3 env ac shared_app = do
    with_policies ← new_policies_decl r env ac shared_app
    with_gw_pool ← new_gw_pool_decl r ac with_policies
    with_log_pool ← new_log_pool_decl r env ac with_gw_pool
    with_address ← new_virtual_address_decl r env ac with_log_pool
    new_service_decl r env ac with_address

  -- the tenant, with its defaults if the declaration has none yet
  abbrev pub tenant_or_default : GoMap As3Tenant → String → Outcome As3Tenant
  tenant_or_default adc tenant = elim (lookup tenant adc) [
    | some t ↦ returns t
    | none ↦ tenant_init_default r tenant
  ]

  unfoldable pub generate_as3_resource_declaration :
      Environment → As3Post → GoMap As3Tenant → Outcome (GoMap As3Tenant)
  unfolding tenant_init_default process_resources_for_as3
  generate_as3_resource_declaration env ac adc = do
    tntcfg ← deref ac.tenant_config
    tenant ← tenant_or_default adc tntcfg.name
    shared_app ← process_resources_for_as3 env ac tenant.shared
    returns (insert tntcfg.name (record tenant { shared = shared_app }) adc)
