-- ===== src/As3/Patch/Tests.antt =====
-- The theorems on patches at concrete inputs.
use container_egress_service.Prelude.{
  String, ◌≡◌, refl, true, false, some, none, List, [], ◌∷◌, map,
}
use container_egress_service.Prelude.Outcome.{returns, each}
use container_egress_service.Prelude.GoMap.{GoMap, lookup}
use container_egress_service.Prelude.Text.{contains}
use container_egress_service.Json.{Json, text, object, array, entries, fields, field?}
use container_egress_service.As3.Types.{Use, FirewallPolicy}
use container_egress_service.As3.Resource.{json, encode_app}
use container_egress_service.As3.Tenant.{As3Tenant}
use container_egress_service.As3.Patch.{append_rule, policy_change, patch_resouce, patch_request}
use container_egress_service.As3.Patch.Policy.{names_allowed, policy_change-all_deny}
use container_egress_service.As3.Patch.Deletion.{patch_resouce-delete}
use container_egress_service.Io.{unreachable, done}
use container_egress_service.Samples.{registry, environment, deny, world, client}

abbrev rule : String → Use
rule path = record { path = path }

abbrev denied : Use
denied = rule "/Common/Shared/k8s_svc_deny_all_rule_list"

abbrev on_big_ip : List Use
on_big_ip = rule "/Common/Shared/a" ∷ rule "/Common/Shared/b" ∷ denied ∷ []

abbrev asked : List Use
asked = denied ∷ rule "/Common/Shared/b" ∷ []

abbrev policy_json : List Use → Json
policy_json rules = object (
    ("class", text "Firewall_Policy")
    ∷ ("rules", array (map (λ u. object (("use", text u.path) ∷ [])) rules))
    ∷ [])

abbrev policy_with : List Use → FirewallPolicy
policy_with rules = record { class = "Firewall_Policy"; rules = rules }

allows_nothing : names_allowed deny (denied ∷ []) ≡ false
unfolding contains
allows_nothing = refl

policy_change-all_deny_example :
    policy_change deny false on_big_ip (denied ∷ []) ≡ append_rule (rule "")
policy_change-all_deny_example =
    policy_change-all_deny deny on_big_ip (denied ∷ []) allows_nothing refl refl

abbrev pool_a : Json
pool_a = object (("class", text "Pool") ∷ [])

abbrev source : GoMap Json
source = ("Common", object (("Shared", object (("a", pool_a) ∷ [])) ∷ [])) ∷ []

abbrev wanted : GoMap As3Tenant
wanted = ("Common", record { default_route_domain = none; shared = ("a", json pool_a) ∷ [] }) ∷ []

deleted : patch_resouce registry environment "Common" true source wanted ≡ returns (some [])
unfolding patch_resouce lookup each entries fields field? encode_app
deleted = refl

patch_resouce-delete_example :
    patch_request (world unreachable) environment client [] [] ≡ (done tt, [])
patch_resouce-delete_example =
    patch_resouce-delete registry environment "Common" (world unreachable) client source wanted []
      deleted []
