-- ===== src/As3/Attrs.antt =====
-- The names of the objects in a declaration, and the paths by which they refer to one another
-- (the functions getAs3…Attr and getAs3UsePath… of pkg/as3/utils.go).
pub mod Paths
use container_egress_service.Prelude.{String, List, ◌∷◌, not, ◌==◌, if◌then◌else◌}
use container_egress_service.Prelude.Outcome.{Outcome, returns, ◌>>=◌, deref}
use container_egress_service.Prelude.Text.{◌⊕◌, split}
use container_egress_service.As3.Types.{default_partition}
use container_egress_service.As3.Config.{
  Registry, get_cluster, get_master_cluster, get_tenant_config_for_namespace,
}

-- `ty_ns` of the source
unfoldable pub type_and_namespace : String → String → String
type_and_namespace ty namespace = if ty == "global" then ty else ty ⊕ ("_" ⊕ namespace)

module _ (r : Registry) where
  unfoldable pub get_as3_dest_port_attr : String → String → String → String → String → String
  unfolding type_and_namespace
  get_as3_dest_port_attr ty namespace rule_name exsvc_name protocol =
      get_cluster r
      ⊕ ("_"
          ⊕ (type_and_namespace ty namespace
              ⊕ ("_" ⊕ (rule_name ⊕ ("_ext_" ⊕ (exsvc_name ⊕ ("_ports_" ⊕ protocol)))))))

  unfoldable pub get_as3_dest_addr_attr : String → String → String → String → String
  unfolding type_and_namespace
  get_as3_dest_addr_attr ty namespace rule_name exsvc_name =
      get_cluster r
      ⊕ ("_"
          ⊕ (type_and_namespace ty namespace
              ⊕ ("_" ⊕ (rule_name ⊕ ("_ext_" ⊕ (exsvc_name ⊕ "_address"))))))

  unfoldable pub get_as3_src_address_attr : String → String → String → String → String
  get_as3_src_address_attr ty namespace rule_name endpoint_name =
      let ty_ns = ty ⊕ ("_" ⊕ namespace) in
      if ty == "global"
      then ""
      else if ty == "ns"
      then get_cluster r ⊕ ("_" ⊕ (ty_ns ⊕ ("_" ⊕ (rule_name ⊕ "_src_address"))))
      else get_cluster r
        ⊕ ("_" ⊕ (ty_ns ⊕ ("_" ⊕ (rule_name ⊕ ("_ep_" ⊕ (endpoint_name ⊕ "_src_address"))))))

  unfoldable pub get_as3_rule_list_attr : String → String → String → String → String
  unfolding type_and_namespace
  get_as3_rule_list_attr ty namespace rule_name exsvc_name =
      get_cluster r
      ⊕ ("_"
          ⊕ (type_and_namespace ty namespace
              ⊕ ("_" ⊕ (rule_name ⊕ ("_ext_" ⊕ (exsvc_name ⊕ "_rule_list"))))))

  unfoldable pub get_as3_policy_attr : String → String → String
  unfolding get_master_cluster
  get_as3_policy_attr ty route_domain =
      let domain = if not r.is_support_route_domain then "rd" else route_domain in
      if ty == "global"
      then get_master_cluster r ⊕ "_system_global_policy"
      else get_master_cluster r ⊕ ("_" ⊕ (ty ⊕ ("_policy_" ⊕ domain)))

  unfoldable pub get_all_deny_rule_list_attr : String
  unfolding get_master_cluster
  get_all_deny_rule_list_attr = get_master_cluster r ⊕ "_svc_deny_all_rule_list"

  unfoldable pub get_as3_gw_pool_attr : String
  unfolding get_master_cluster
  get_as3_gw_pool_attr = get_master_cluster r ⊕ "_gw_pool"

  unfoldable pub get_as3_vs_attr : String
  unfolding get_master_cluster
  get_as3_vs_attr = get_master_cluster r ⊕ "_outbound_vs"

  unfoldable pub get_as3_vs_va_attr : String
  unfolding get_master_cluster
  get_as3_vs_va_attr = get_master_cluster r ⊕ "_outbound_va"

-- fmt.Sprintf("/%s/Shared/%s", partition, attr)
unfoldable pub shared_path : String → String → String
shared_path partition attr = "/" ⊕ (partition ⊕ ("/Shared/" ⊕ attr))

unfoldable pub get_as3_use_path_for_partition : String → String → String
unfolding shared_path
get_as3_use_path_for_partition partition attr =
    if attr == ""
    then ""
    else shared_path (if partition == "" then default_partition else partition) attr

-- It panics for a namespace that has no configuration.
unfoldable pub get_as3_use_path_for_namespace : Registry → String → String → Outcome String
unfolding shared_path get_tenant_config_for_namespace
get_as3_use_path_for_namespace r namespace attr =
    if attr == ""
    then returns ""
    else if namespace == ""
    then returns (shared_path default_partition attr)
    else do
      tntcfg ← deref (get_tenant_config_for_namespace r namespace)
      returns (shared_path tntcfg.name attr)

abbrev fourth : List String → String
fourth (a ∷ b ∷ c ∷ d ∷ rest) = d
fourth _ = ""

unfoldable pub get_origin_attr_of_use_path : String → String
get_origin_attr_of_use_path use_path = fourth (split b'/' use_path)
