-- ===== src/As3/Request.antt =====
-- pkg/as3/request.go: a synchronisation of one partition, and the quick way for source addresses.
-- The lock that the client holds makes a request one step of the program.
pub mod Permitted
pub mod Order
pub mod Settled
use container_egress_service.Prelude.{
  String, Bool, true, false, Option, none, some, List, [], ◌∷◌, not, map, ◌==◌, if◌then◌else◌,
}
use container_egress_service.Prelude.Int.{ℤ, pos, int_eq}
use container_egress_service.Prelude.Outcome.{Outcome, returns, deref}
use container_egress_service.Prelude.GoMap.{GoMap, lookup}
use container_egress_service.Prelude.Text.{◌⊕◌}
use container_egress_service.Json.{Json, text, object, array}
use container_egress_service.As3.Types.{TenantConfig, rule_type_global, rule_type_namespace}
use container_egress_service.As3.Config.{Registry}
use container_egress_service.As3.Attrs.{
  get_as3_policy_attr, get_as3_use_path_for_partition, get_as3_src_address_attr,
}
use container_egress_service.As3.Environment.{
  Environment, Decoded, failed, nil_map, decoded, validate_json_text,
}
use container_egress_service.As3.Rules.{As3Post}
use container_egress_service.As3.Declaration.{generate_as3_resource_declaration}
use container_egress_service.As3.Merge.{full_resource}
use container_egress_service.As3.Client.{
  Client, get_partition, post_declaration, get_f5_resource, patch_f5_reource, store_disk,
}
use container_egress_service.Io.{
  bad_json, World, touch_source_address, Io, pure, fail, panic, lift, emit, ◌>>=◌, ◌>>◌, Step, done,
  continue,
}

module _ (r : Registry) (env : Environment) (w : World) (c : Client) where
  abbrev source_adc : Decoded → Io (GoMap Json)
  source_adc failed = fail bad_json
  source_adc nil_map = pure []
  source_adc (decoded m) = pure m

  -- val.(string)
  abbrev is_enforced : String → Option Json → Io Bool
  is_enforced path none = pure false
  is_enforced path (some (text s)) = pure (s == path)
  is_enforced path (some _) = panic

  -- A policy takes effect once an object of BIG-IP names it under `key`.
  unfoldable pub enforce : String → String → String → Io (Unit {0})
  unfolding get_f5_resource patch_f5_reource store_disk
  enforce key path url = do
    response ← get_f5_resource w env c url
    is_exist ← is_enforced path (lookup key response)
    if is_exist
        then pure tt
        else do patch_f5_reource w env c (object ((key, text path) ∷ [])) url; store_disk w env c

  unfoldable pub enforce_policy : TenantConfig → String → Io (Unit {0})
  unfolding enforce get_as3_policy_attr get_as3_use_path_for_partition
  enforce_policy tenant_config ty =
      let partition = tenant_config.name in
      let domain = tenant_config.route_domain.name in
      if ty == rule_type_global
      then enforce "enforcedPolicy"
          (get_as3_use_path_for_partition partition (get_as3_policy_attr r rule_type_global domain))
          "/mgmt/tm/security/firewall/global-rules"
      else if ty == rule_type_namespace
      then enforce "fwEnforcedPolicy"
          (get_as3_use_path_for_partition partition (get_as3_policy_attr r "ns" domain))
          ("/mgmt/tm/net/route-domain/~" ⊕ (partition ⊕ ("~" ⊕ domain)))
      else pure tt

  abbrev send_body : TenantConfig → String → Option Json → Io (Unit {0})
  send_body tenant_config ty none = pure tt
  send_body tenant_config ty (some body) = do
    post_declaration w env c body tenant_config.name
    enforce_policy tenant_config ty

  unfoldable pub as3_request : As3Post → String → Bool → Io (Unit {0})
  unfolding generate_as3_resource_declaration full_resource get_partition validate_json_text
      post_declaration enforce_policy
  as3_request ac ty is_delete = do
    delta_adc ← lift (generate_as3_resource_declaration r env ac [])
    tenant_config ← lift (deref ac.tenant_config)
    adc_str ← get_partition w env c tenant_config.name
    src_adc ← source_adc (validate_json_text env adc_str)
    req_body ← lift (full_resource r env tenant_config.name is_delete src_adc delta_adc)
    send_body tenant_config ty req_body

  -- Every route domain but 0 gets the suffix of route domain 10.
  abbrev address_name : ℤ → String → String
  address_name id name = if not (int_eq id (pos 0)) then name ⊕ "%10" else name

  abbrev named : String → Json
  named name = object (("name", text name) ∷ [])

  unfoldable pub source_address_body : TenantConfig → List String → Json
  source_address_body tntcfg addresses = object (
      ("addresses", array (map (λ a. named (address_name tntcfg.route_domain.id a)) addresses))
      ∷ [])

  unfoldable pub update_big_ip_source_address :
      List String → TenantConfig → String → String → String → Io (Unit {0})
  unfolding source_address_body get_as3_src_address_attr patch_f5_reource
  update_big_ip_source_address addresses tntcfg namespace rule_name svc_name = do
    patch_f5_reource w env c (source_address_body tntcfg addresses) (
        "/mgmt/tm/security/firewall/address-list/~"
        ⊕ (tntcfg.name
            ⊕ ("~Shared~" ⊕ get_as3_src_address_attr r "svc" namespace rule_name svc_name)))
    emit touch_source_address
