-- ===== src/As3/Types.antt =====
-- pkg/as3/types.go and pkg/as3/const.go: the data of the declarations and of the configuration.
use container_egress_service.Prelude.{String, Bool, List}
use container_egress_service.Prelude.Int.{ℤ}
use container_egress_service.Prelude.GoMap.{GoMap}

pub record Use : Type 0 where
  pub path : String

pub record FirewallAddressList : Type 0 where
  pub class : String
  pub fqdns : List String
  pub addresses : List String

pub record FirewallPortList : Type 0 where
  pub class : String
  pub ports : List String

-- FirewallSource has the same fields
pub record FirewallDestination : Type 0 where
  pub address_lists : List Use
  pub port_lists : List Use

-- `irule` is the field `bigip` of the IRule, "" where the pointer is nil
pub record FirewallRule : Type 0 where
  pub protocol : String
  pub name : String
  pub irule : String
  pub destination : FirewallDestination
  pub source : FirewallDestination
  pub action : String
  pub logging_enabled : Bool

pub record FirewallRuleList : Type 0 where
  pub class : String
  pub rules : List FirewallRule

pub record FirewallPolicy : Type 0 where
  pub class : String
  pub rules : List Use

pub record Member : Type 0 where
  pub server_addresses : List String
  pub enable : Bool
  pub service_port : ℤ

-- a Monitor is its field `bigip`
pub record Pool : Type 0 where
  pub class : String
  pub members : List Member
  pub monitors : List String

pub record VirtualServer : Type 0 where
  pub layer4 : String
  pub translate_server_address : Bool
  pub translate_server_port : Bool
  pub virtual_addresses : List Use
  pub policy_firewall_enforced : Use
  pub security_log_profiles : List Use
  pub virtual_port : ℤ
  pub snat : String
  pub class : String
  pub pool : String

pub record VirtualServerVa : Type 0 where
  pub class : String
  pub virtual_address : String
  pub icmp_echo : String
  pub arp_enabled : Bool

pub record LogPool : Type 0 where
  pub logging_enabled : Bool
  pub enable_remote_log : Bool
  pub health_monitor : String
  pub template : String
  pub server_addresses : List String

pub record RouteDomain : Type 0 where
  pub id : ℤ
  pub name : String
  pub partition : String

pub record VirtualAddresses : Type 0 where
  pub virtual_address : String
  pub icmp_echo : String
  pub arp_enabled : Bool
  pub template : String

pub record VirtualService : Type 0 where
  pub template : String
  pub virtual_addresses : VirtualAddresses

-- `gwpool` is the list of server addresses of the Gwpool
pub record TenantConfig : Type 0 where
  pub name : String
  pub namespaces : String
  pub route_domain : RouteDomain
  pub gwpool : List String
  pub virtual_service : VirtualService

pub record As3Config : Type 0 where
  pub schema_version : String
  pub cluster_name : String
  pub master_cluster : String
  pub is_support_route_domain : Bool
  pub irule : List String
  pub tenant : List TenantConfig
  pub log_pool : LogPool

pub record PortIrule : Type 0 where
  pub protocol : String
  pub irule : String
  pub ports : List String

pub record ExsvcDate : Type 0 where
  pub name : String
  pub dest_ports : GoMap PortIrule
  pub dest_address : List String

pub record RuleData : Type 0 where
  pub ty : String
  pub name : String
  pub namespace : String
  pub action : String
  pub logging : Bool
  pub src_addr : List String
  pub ep_name : String
  pub exsvcs : List ExsvcDate

abbrev pub default_partition : String
default_partition = "Common"

abbrev pub class_firewall_address_list : String
class_firewall_address_list = "Firewall_Address_List"

abbrev pub class_firewall_port_list : String
class_firewall_port_list = "Firewall_Port_List"

abbrev pub class_firewall_rule_list : String
class_firewall_rule_list = "Firewall_Rule_List"

abbrev pub class_firewall_policy : String
class_firewall_policy = "Firewall_Policy"

abbrev pub class_pool : String
class_pool = "Pool"

abbrev pub class_security_log_profile : String
class_security_log_profile = "Security_Log_Profile"

abbrev pub class_log_publisher : String
class_log_publisher = "Log_Publisher"

abbrev pub rule_type_label : String
rule_type_label = "cpaas.io/ruleType"

abbrev pub rule_type_global : String
rule_type_global = "global"

abbrev pub rule_type_namespace : String
rule_type_namespace = "namespace"

abbrev pub rule_type_service : String
rule_type_service = "service"

abbrev pub namespace_cidr : String
namespace_cidr = "ovn.kubernetes.io/cidr"
