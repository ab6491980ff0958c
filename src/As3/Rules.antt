-- ===== src/As3/Rules.antt =====
-- `dealRule` and `dealExsvc` of pkg/as3/utils.go: which rules a request is about, with the external
-- services and the source addresses of each.
pub mod Ports
pub mod Services
use container_egress_service.Prelude.{
  String, Bool, Option, none, some, List, [], ◌∷◌, ◌++◌, ◌&&◌, map, keep, ◌==◌, is_empty,
  if◌then◌else◌,
}
use container_egress_service.Prelude.Outcome.{Outcome, returns, ◌>>=◌, deref}
use container_egress_service.Prelude.GoMap.{GoMap, lookup, insert}
use container_egress_service.Prelude.Text.{split, to_lower}
use container_egress_service.Kube.{
  ExternalServicePort, ExternalService, ClusterEgressRule, NamespaceEgressRule, ServiceEgressRule,
  Endpoints, ips, Namespace,
}
use container_egress_service.As3.Types.{
  TenantConfig, PortIrule, ExsvcDate, RuleData, default_partition, namespace_cidr,
}
use container_egress_service.As3.Config.{Registry, get_cluster_svc_ext_namespace}

-- `tenant_config` is a pointer
pub record As3Post : Type 0 where
  pub service_egress_list : List ServiceEgressRule
  pub namespace_egress_list : List NamespaceEgressRule
  pub cluster_egress_list : List ClusterEgressRule
  pub external_service_list : List ExternalService
  pub endpoint_list : List Endpoints
  pub namespace_list : List Namespace
  pub tenant_config : Option TenantConfig

abbrev or_nil {ℓ} : {A : Type ℓ} → Option (List A) → List A
or_nil none = []
or_nil (some l) = l

-- A list that is not given is empty.
unfoldable pub new_as3_post :
    Option (List ServiceEgressRule)
    → Option (List NamespaceEgressRule)
    → Option (List ClusterEgressRule)
    → Option (List ExternalService)
    → Option (List Endpoints)
    → Option (List Namespace)
    → Option TenantConfig
    → As3Post
new_as3_post svc ns cls exsvc ep nsl tntcfg = record {
  service_egress_list = or_nil svc;
  namespace_egress_list = or_nil ns;
  cluster_egress_list = or_nil cls;
  external_service_list = or_nil exsvc;
  endpoint_list = or_nil ep;
  namespace_list = or_nil nsl;
  tenant_config = tntcfg;
}

-- The key under which a port is filed: its protocol, or its name if its bandwidth differs from
-- that of the protocol's entry.
unfoldable pub port_key : GoMap PortIrule → ExternalServicePort → String
port_key ptl_map pt =
    let ptl = to_lower pt.protocol in
    elim (lookup ptl ptl_map) [
      | some v ↦ if v.irule == pt.bandwidth then ptl else pt.name
      | none ↦ if pt.bandwidth == "" then ptl else pt.name
    ]

unfoldable pub ports_at : String → GoMap PortIrule → List String
ports_at key ptl_map = elim (lookup key ptl_map) [ none ↦ [] | some v ↦ v.ports ]

-- the body of the loop over the ports
unfoldable pub add_port : GoMap PortIrule → ExternalServicePort → GoMap PortIrule
unfolding port_key ports_at
add_port ptl_map pt =
    if pt.port == ""
    then ptl_map
    else let key = port_key ptl_map pt in
      insert key
        (record {
          protocol = to_lower pt.protocol;
          irule = pt.bandwidth;
          ports = ports_at key ptl_map ++ split b',' pt.port;
        })
        ptl_map

unfoldable pub add_ports : GoMap PortIrule → List ExternalServicePort → GoMap PortIrule
add_ports ptl_map [] = ptl_map
add_ports ptl_map (pt ∷ rest) = add_ports (add_port ptl_map pt) rest

abbrev or_any : GoMap PortIrule → GoMap PortIrule
or_any [] = ("any", record { protocol = ""; irule = ""; ports = [] }) ∷ []
or_any (e ∷ m) = e ∷ m

unfoldable pub deal_exsvc : ExternalService → ExsvcDate
unfolding add_ports
deal_exsvc exsvc = record {
  name = exsvc.name;
  dest_ports = or_any (add_ports [] exsvc.ports);
  dest_address = exsvc.addresses;
}

-- the two nested loops that attach the external services of a rule, by name and namespace
unfoldable pub exsvcs_of : String → List String → List ExternalService → List ExsvcDate
unfolding deal_exsvc
exsvcs_of namespace [] exsvcs = []
exsvcs_of namespace (name ∷ names) exsvcs =
    map deal_exsvc (keep (λ exsvc. (name == exsvc.name) && (exsvc.namespace == namespace)) exsvcs)
    ++ exsvcs_of namespace names exsvcs

unfoldable pub deal_cluster_rule : Registry → List ExternalService → ClusterEgressRule → RuleData
unfolding exsvcs_of get_cluster_svc_ext_namespace
deal_cluster_rule r exsvcs rule = record {
  ty = "global";
  name = rule.name;
  namespace = "";
  action = rule.action;
  logging = rule.logging;
  src_addr = [];
  ep_name = "";
  exsvcs = exsvcs_of (get_cluster_svc_ext_namespace r) rule.external_services exsvcs;
}

-- a map gives "" for an annotation that is not set
abbrev annotation : String → GoMap String → String
annotation k m = elim (lookup k m) [ none ↦ "" | some v ↦ v ]

-- the last namespace of the rule's name counts
unfoldable pub source_of_namespace : String → List String → List Namespace → List String
source_of_namespace namespace found [] = found
source_of_namespace namespace found (ns ∷ rest) =
    source_of_namespace namespace
      (if ns.name == namespace then annotation namespace_cidr ns.annotations ∷ [] else found) rest

unfoldable pub deal_namespace_rule :
    List ExternalService → List Namespace → NamespaceEgressRule → RuleData
unfolding exsvcs_of source_of_namespace
deal_namespace_rule exsvcs namespaces rule = record {
  ty = "ns";
  name = rule.name;
  namespace = rule.namespace;
  action = rule.action;
  logging = rule.logging;
  src_addr = source_of_namespace rule.namespace [] namespaces;
  ep_name = "";
  exsvcs = exsvcs_of rule.namespace rule.external_services exsvcs;
}

abbrev concat : List (List String) → List String
concat [] = []
concat (xs ∷ xss) = xs ++ concat xss

unfoldable pub is_endpoint_of : ServiceEgressRule → Endpoints → Bool
is_endpoint_of rule ep = (ep.namespace == rule.namespace) && (ep.name == rule.service)

unfoldable pub source_of_service : ServiceEgressRule → List Endpoints → List String
unfolding is_endpoint_of
source_of_service rule [] = []
source_of_service rule (ep ∷ rest) =
    (if is_endpoint_of rule ep then concat (map ips ep.subsets) else [])
    ++ source_of_service rule rest

unfoldable pub ep_name_of_service : ServiceEgressRule → List Endpoints → String
unfolding is_endpoint_of
ep_name_of_service rule eps = if is_empty (keep (is_endpoint_of rule) eps) then "" else rule.service

unfoldable pub deal_service_rule :
    List ExternalService → List Endpoints → ServiceEgressRule → RuleData
unfolding exsvcs_of source_of_service ep_name_of_service
deal_service_rule exsvcs endpoints rule = record {
  ty = "svc";
  name = rule.name;
  namespace = rule.namespace;
  action = rule.action;
  logging = rule.logging;
  src_addr = source_of_service rule endpoints;
  ep_name = ep_name_of_service rule endpoints;
  exsvcs = exsvcs_of rule.namespace rule.external_services exsvcs;
}

-- Cluster rules belong to the partition Common alone.
unfoldable pub deal_rule : Registry → As3Post → Outcome (List RuleData)
unfolding deal_cluster_rule deal_namespace_rule deal_service_rule
deal_rule r ac = do
  tnt_cfg ← deref ac.tenant_config
  let cluster_rules =
      if tnt_cfg.name == default_partition
      then map (deal_cluster_rule r ac.external_service_list) ac.cluster_egress_list
      else []
  returns (
      cluster_rules
      ++ (map (deal_namespace_rule ac.external_service_list ac.namespace_list)
            ac.namespace_egress_list
          ++ map (deal_service_rule ac.external_service_list ac.endpoint_list)
              ac.service_egress_list))
