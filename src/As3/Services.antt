-- ===== src/As3/Services.antt =====
-- The pools, the virtual address and the virtual server of pkg/as3/utils.go.
use container_egress_service.Prelude.{
  String, Bool, true, false, Option, none, some, List, [], ◌∷◌, map, not, ◌==◌, if◌then◌else◌,
}
use container_egress_service.Prelude.Int.{ℤ, pos}
use container_egress_service.Prelude.Outcome.{Outcome, returns, panics, ◌>>=◌, deref}
use container_egress_service.Prelude.GoMap.{GoMap, insert, delete, has}
use container_egress_service.Prelude.Text.{◌⊕◌, split, replace_all, is_blank, atoi}
use container_egress_service.Json.{Json, text, obj, Fields, entries, field?, object, array}
use container_egress_service.As3.Types.{
  Use, Member, VirtualServer, VirtualServerVa, LogPool, TenantConfig, default_partition, class_pool,
  class_security_log_profile, class_log_publisher,
}
use container_egress_service.As3.Config.{
  Registry, get_log_pool, get_master_cluster, is_config_log_profile,
}
use container_egress_service.As3.Attrs.{
  get_as3_policy_attr, get_as3_gw_pool_attr, get_as3_vs_attr, get_as3_vs_va_attr,
  get_as3_use_path_for_partition,
}
use container_egress_service.As3.Resource.{
  App, pool, virtual_server, virtual_address, json, use_json,
}
use container_egress_service.As3.Environment.{
  Environment, Decoded, failed, nil_map, decoded, validate_json_text,
}
use container_egress_service.As3.Rules.{As3Post}

abbrev pub is_text : String → Option Json → Bool
is_text s (some (text t)) = t == s
is_text s _ = false

abbrev port_or : ℤ → Option ℤ → ℤ
port_or p none = p
port_or p (some q) = q

abbrev log_member_of : List String → Member
log_member_of [] = record { server_addresses = "" ∷ []; enable = true; service_port = pos 514 }
log_member_of (ip ∷ []) = record {
  server_addresses = ip ∷ [];
  enable = true;
  service_port = pos 514;
}
log_member_of (ip ∷ port ∷ _) = record {
  server_addresses = ip ∷ [];
  enable = true;
  service_port = port_or (pos 514) (atoi port);
}

-- A server address is "ip" or "ip:port"; the port is 514 if it is missing or no number.
unfoldable pub log_member : String → Member
log_member v = log_member_of (split b':' v)

abbrev log_members : List String → List Member
log_members [] =
    record { server_addresses = "0.0.0.0" ∷ []; enable = true; service_port = pos 514 } ∷ []
log_members (v ∷ vs) = map log_member (v ∷ vs)

abbrev pub local_db : Json
local_db = array (object (("bigip", text "/Common/local-db") ∷ []) ∷ [])

abbrev pub local_log_entry : String → Fields → App → App
local_log_entry k fs app =
    if is_text class_security_log_profile (field? "class" fs)
    then insert k (json (obj fs)) app
    else if is_text class_log_publisher (field? "class" fs)
    then insert k (json (object (insert "destinations" local_db (entries fs)))) app
    else app

-- The loop for local logs. It ends, and the whole function with it, at a value that is no object:
-- the test says whether the loop went through.
unfoldable pub local_log_entries : GoMap Json → App → Bool × App
local_log_entries [] app = (true, app)
local_log_entries ((k, obj fs) ∷ rest) app = local_log_entries rest (local_log_entry k fs app)
local_log_entries ((k, _) ∷ rest) app = (false, app)

unfoldable pub remote_log_entries : GoMap Json → App → App
remote_log_entries [] app = app
remote_log_entries ((k, v) ∷ rest) app = remote_log_entries rest (insert k (json v) app)

abbrev pub contents : Decoded → Option (GoMap Json)
contents failed = none
contents nil_map = some []
contents (decoded m) = some m

module _ (r : Registry) where
  -- Create AS3 Pools
  unfoldable pub new_gw_pool_decl : As3Post → App → Outcome App
  unfolding get_as3_gw_pool_attr
  new_gw_pool_decl ac app = do
    tntcfg ← deref ac.tenant_config
    returns (
        insert (get_as3_gw_pool_attr r)
          (pool (record {
            class = class_pool;
            members =
                record { server_addresses = tntcfg.gwpool; enable = true; service_port = pos 0 }
                ∷ [];
            monitors = "/Common/gateway_icmp" ∷ [];
          }))
          app)

  abbrev log_pool_attr : String
  log_pool_attr = get_master_cluster r ⊕ "_log_pool"

  abbrev pub add_log_pool : LogPool → App → App
  add_log_pool log = insert log_pool_attr (
      pool (record {
        class = class_pool;
        members = log_members log.server_addresses;
        monitors = ("/" ⊕ (default_partition ⊕ ("/" ⊕ log.health_monitor))) ∷ [];
      }))

  abbrev pub add_log_objects : LogPool → App → Option (GoMap Json) → App
  add_log_objects log app none = app
  add_log_objects log app (some logpool) =
      if not log.enable_remote_log
      then (let (complete, app') = local_log_entries logpool app in
          if complete then add_log_pool log app' else app')
      else add_log_pool log (remote_log_entries logpool app)

  unfoldable pub fill_template : String → String → String
  unfolding get_master_cluster
  fill_template template tenant =
      replace_all (replace_all template "k8s" (get_master_cluster r)) "{{tenant}}" tenant

  unfoldable pub new_log_pool_decl : Environment → As3Post → App → Outcome App
  unfolding get_log_pool is_config_log_profile fill_template local_log_entries remote_log_entries
      log_member
  new_log_pool_decl env ac app = if not (is_config_log_profile r) then returns app else do
    tntcfg ← deref ac.tenant_config
    let log = get_log_pool r
    let template = fill_template log.template tntcfg.name
    returns (add_log_objects log app (contents (validate_json_text env template)))

  -- the text, or a default where it is empty
  abbrev text_or : String → String → String
  text_or d s = if s == "" then d else s

  abbrev is_valid : Decoded → Bool
  is_valid failed = false
  is_valid _ = true

  -- Create VS ARP. A template that is valid JSON fixes the echo and the ARP to their defaults.
  unfoldable pub new_virtual_address_decl : Environment → As3Post → App → Outcome App
  unfolding get_as3_vs_va_attr validate_json_text
  new_virtual_address_decl env ac app = do
    tntcfg ← deref ac.tenant_config
    let given = tntcfg.virtual_service.virtual_addresses
    let default_va : VirtualServerVa = record {
      class = "Service_Address";
      virtual_address = text_or "0.0.0.0" given.virtual_address;
      icmp_echo = "disable";
      arp_enabled = false;
    }
    let attr = get_as3_vs_va_attr r
    let with_template =
        if not (is_blank given.template)
        then (if is_valid (validate_json_text env given.template)
            then insert attr (virtual_address default_va) app
            else app)
        else app
    let final = if has attr with_template then default_va else record default_va {
      virtual_address = text_or default_va.virtual_address given.virtual_address;
      icmp_echo = text_or default_va.icmp_echo given.icmp_echo;
      arp_enabled = given.arp_enabled;
    }
    returns (insert attr (virtual_address final) with_template)

  abbrev one_path : String → Use
  one_path p = record { path = p }

  unfoldable pub default_vs : TenantConfig → String → VirtualServer
  unfolding get_as3_use_path_for_partition get_as3_vs_va_attr get_as3_gw_pool_attr
      is_config_log_profile
  default_vs tntcfg svc_policy_path = record {
    layer4 = "any";
    translate_server_address = false;
    translate_server_port = false;
    virtual_addresses =
        one_path (get_as3_use_path_for_partition tntcfg.name (get_as3_vs_va_attr r)) ∷ [];
    policy_firewall_enforced = one_path svc_policy_path;
    security_log_profiles =
        if is_config_log_profile r
        then one_path (
            get_as3_use_path_for_partition tntcfg.name
              (replace_all "k8s_afm_hsl_log_profile" "k8s" (get_master_cluster r)))
          ∷ []
        else [];
    virtual_port = pos 0;
    snat = "auto";
    class = "Service_L4";
    pool = get_as3_gw_pool_attr r;
  }

  -- what the code writes over a virtual server that comes from a template
  unfoldable pub complete_vs : TenantConfig → String → GoMap Json → GoMap Json
  unfolding get_as3_use_path_for_partition get_as3_vs_va_attr get_as3_gw_pool_attr
      is_config_log_profile
  complete_vs tntcfg svc_policy_path vs =
      let named =
        insert "pool" (text (get_as3_gw_pool_attr r))
          (insert "policyFirewallEnforced" (use_json (one_path svc_policy_path)) vs) in
      let logged = if is_config_log_profile r then named else delete "securityLogProfiles" named in
      insert "virtualAddresses"
        (array (
          use_json (one_path (get_as3_use_path_for_partition tntcfg.name (get_as3_vs_va_attr r)))
          ∷ []))
        logged

  abbrev pub add_vs : TenantConfig → String → App → Decoded → Outcome App
  add_vs tntcfg svc_policy_path app failed =
      returns (insert (get_as3_vs_attr r) (virtual_server (default_vs tntcfg svc_policy_path)) app)
  -- an assignment to an entry of a nil map panics
  add_vs tntcfg svc_policy_path app nil_map = panics
  add_vs tntcfg svc_policy_path app (decoded vs) =
      returns
        (insert (get_as3_vs_attr r) (json (object (complete_vs tntcfg svc_policy_path vs))) app)

  -- Create AS3 Service for Route
  unfoldable pub new_service_decl : Environment → As3Post → App → Outcome App
  unfolding default_vs complete_vs get_as3_vs_attr get_as3_policy_attr fill_template
      validate_json_text
  new_service_decl env ac app = do
    tntcfg ← deref ac.tenant_config
    let svc_policy_path =
        get_as3_use_path_for_partition tntcfg.name
          (get_as3_policy_attr r "svc" tntcfg.route_domain.name)
    let template = tntcfg.virtual_service.template
    add_vs tntcfg svc_policy_path app (
        if is_blank template
        then failed
        else validate_json_text env (fill_template template tntcfg.name))
