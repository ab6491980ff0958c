-- ===== src/As3/Resource.antt =====
-- The values of a shared application (`as3Application` of pkg/as3/types.go), and their JSON by the
-- tags of the structs. A nil slice and an empty one are one list here.
use container_egress_service.Prelude.{
  String, Bool, true, false, List, [], ◌∷◌, ◌++◌, map, ◌==◌, if◌then◌else◌,
}
use container_egress_service.Prelude.GoMap.{GoMap}
use container_egress_service.Json.{Json, bool, num, text, object, array}
use container_egress_service.As3.Types.{
  Use, FirewallAddressList, FirewallPortList, FirewallDestination, FirewallRule, FirewallRuleList,
  FirewallPolicy, Member, Pool, VirtualServer, VirtualServerVa,
}

-- `plain` is a string, `json` what a template decodes to
pub data Resource : Type 0 where
  plain : String → Resource
  address_list : FirewallAddressList → Resource
  port_list : FirewallPortList → Resource
  rule_list : FirewallRuleList → Resource
  policy : FirewallPolicy → Resource
  pool : Pool → Resource
  virtual_server : VirtualServer → Resource
  virtual_address : VirtualServerVa → Resource
  json : Json → Resource

-- as3Application
abbrev pub App : Type 0
App = GoMap Resource

-- the tag `omitempty`
abbrev omit_text : String → String → GoMap Json
omit_text k s = if s == "" then [] else (k, text s) ∷ []

abbrev omit_list : String → List Json → GoMap Json
omit_list k [] = []
omit_list k (x ∷ xs) = (k, array (x ∷ xs)) ∷ []

abbrev omit_false : String → Bool → GoMap Json
omit_false k false = []
omit_false k true = (k, bool true) ∷ []

unfoldable pub use_json : Use → Json
use_json u = object (("use", text u.path) ∷ [])

unfoldable pub destination_json : FirewallDestination → Json
unfolding use_json
destination_json d = object (
    omit_list "addressLists" (map use_json d.address_lists)
    ++ omit_list "portLists" (map use_json d.port_lists))

abbrev irule_json : String → GoMap Json
irule_json irule = if irule == "" then [] else ("iRule", object (("bigip", text irule) ∷ [])) ∷ []

unfoldable pub rule_json : FirewallRule → Json
unfolding destination_json
rule_json rule = object (
    ("destination", destination_json rule.destination)
    ∷ ("source", destination_json rule.source)
    ∷ (omit_text "protocol" rule.protocol
        ++ (omit_text "name" rule.name
            ++ (irule_json rule.irule
                ++ (omit_text "action" rule.action
                    ++ omit_false "loggingEnabled" rule.logging_enabled)))))

unfoldable pub policy_json : FirewallPolicy → Json
unfolding use_json
policy_json p = object (("rules", array (map use_json p.rules)) ∷ omit_text "class" p.class)

abbrev member_json : Member → Json
member_json m = object (
    ("serverAddresses", array (map text m.server_addresses))
    ∷ ("enable", bool m.enable)
    ∷ ("servicePort", num m.service_port)
    ∷ [])

abbrev monitor_json : String → Json
monitor_json bigip = object (("bigip", text bigip) ∷ [])

unfoldable pub virtual_server_json : VirtualServer → Json
unfolding use_json
virtual_server_json v = object (
    ("layer4", text v.layer4)
    ∷ ("translateServerAddress", bool v.translate_server_address)
    ∷ ("translateServerPort", bool v.translate_server_port)
    ∷ ("virtualAddresses", array (map use_json v.virtual_addresses))
    ∷ ("policyFirewallEnforced", use_json v.policy_firewall_enforced)
    ∷ ("virtualPort", num v.virtual_port)
    ∷ ("snat", text v.snat)
    ∷ ("class", text v.class)
    ∷ ("pool", text v.pool)
    ∷ omit_list "securityLogProfiles" (map use_json v.security_log_profiles))

-- json.Marshal of a value of the application
unfoldable pub encode : Resource → Json
unfolding rule_json policy_json virtual_server_json
encode (plain s) = text s
encode (address_list l) = object (
    omit_text "class" l.class
    ++ (omit_list "fqdns" (map text l.fqdns) ++ omit_list "addresses" (map text l.addresses)))
encode (port_list l) = object (omit_text "class" l.class ++ omit_list "ports" (map text l.ports))
encode (rule_list l) =
    object (omit_text "class" l.class ++ omit_list "rules" (map rule_json l.rules))
encode (policy p) = policy_json p
encode (pool p) = object (
    ("class", text p.class)
    ∷ ("members", array (map member_json p.members))
    ∷ ("monitors", array (map monitor_json p.monitors))
    ∷ [])
encode (virtual_server v) = virtual_server_json v
encode (virtual_address v) = object (
    ("class", text v.class)
    ∷ ("virtualAddress", text v.virtual_address)
    ∷ ("icmpEcho", text v.icmp_echo)
    ∷ ("arpEnabled", bool v.arp_enabled)
    ∷ [])
encode (json j) = j

-- json.Marshal of an application
unfoldable pub encode_app : App → GoMap Json
unfolding encode
encode_app [] = []
encode_app ((k, v) ∷ app) = (k, encode v) ∷ encode_app app
