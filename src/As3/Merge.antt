-- ===== src/As3/Merge.antt =====
-- How a new declaration is made from the one on BIG-IP and the generated one: `fullResource` and
-- `isDiff` of pkg/as3/utils.go, `skipDeleteShareApplicationClassOrAttr` of pkg/as3/init.go.
pub mod Policy
pub mod Order
pub mod Members
pub mod Contents
pub mod References
pub mod Flags
pub mod Unreferenced
pub mod Entries
pub mod Maps
pub mod Full
mod Tests
mod FullTests
pub mod Cleanup
use container_egress_service.Prelude.{
  String, Bool, true, false, Option, none, some, List, [], ◌∷◌, ◌&&◌, ◌||◌, not, any, ◌==◌, mem,
  if◌then◌else◌,
}
use container_egress_service.Prelude.Outcome.{Outcome, returns, panics, ◌>>=◌, each}
use container_egress_service.Prelude.GoMap.{GoMap, lookup, insert, delete, has}
use container_egress_service.Json.{Json, null, text, obj, Fields, field?, object, deep_equal}
use container_egress_service.As3.Types.{class_firewall_policy}
use container_egress_service.As3.Config.{Registry, get_tenant_config_for_partition}
use container_egress_service.As3.Attrs.{
  get_as3_vs_attr, get_as3_vs_va_attr, get_as3_gw_pool_attr, get_all_deny_rule_list_attr,
}
use container_egress_service.As3.Resource.{App, encode_app}
use container_egress_service.As3.Environment.{
  Environment, Decoded, failed, nil_map, decoded, validate_json_value,
}
use container_egress_service.As3.Rules.{new_as3_post}
use container_egress_service.As3.Services.{new_log_pool_decl}
use container_egress_service.As3.Tenant.{As3Tenant, own_shared_app, get_as3_shared_app}
use container_egress_service.As3.Declaration.{new_as3_obj}
use Policy.{policy_merge_full_json}
use Cleanup.{clear_up_unreference_policy}

-- x.(string)
abbrev pub as_text : Option Json → Outcome String
as_text (some (text s)) = returns s
as_text _ = panics

-- A new entry counts if the old map has none under its key, or another value. Entries that only the
-- old map has do not count.
abbrev pub is_changed : GoMap Json → String × Json → Bool
is_changed old (k, v) = elim (lookup k old) [ none ↦ true | some v1 ↦ not (deep_equal v v1) ]

abbrev pub is_diff_decoded : Decoded → Decoded → Bool
is_diff_decoded failed _ = true
is_diff_decoded _ failed = true
is_diff_decoded nil_map nil_map = false
is_diff_decoded nil_map (decoded new) = any (is_changed []) new
is_diff_decoded (decoded old) nil_map = false
is_diff_decoded (decoded old) (decoded new) = any (is_changed old) new

unfoldable pub is_diff : Json → Json → Bool
unfolding validate_json_value
is_diff old new = is_diff_decoded (validate_json_value old) (validate_json_value new)

module _ (r : Registry) (env : Environment) where
  -- What a deletion leaves alone.
  unfoldable pub skip_delete_share_application_class_or_attr : String → String → Outcome Bool
  unfolding new_log_pool_decl get_as3_vs_attr get_as3_vs_va_attr get_as3_gw_pool_attr
      get_all_deny_rule_list_attr
  skip_delete_share_application_class_or_attr partition attr = do
    let ac =
        new_as3_post none none none none none none (get_tenant_config_for_partition r partition)
    share_app ← new_log_pool_decl r env ac []
    returns (
        mem attr (
          "class"
          ∷ "template"
          ∷ get_as3_vs_attr r
          ∷ get_as3_vs_va_attr r
          ∷ get_as3_gw_pool_attr r
          ∷ get_all_deny_rule_list_attr r
          ∷ [])
        || has attr share_app)

  module _ (partition : String) (is_delete : Bool) where
    abbrev pub is_skipped : String → Outcome Bool
    is_skipped key =
        if is_delete
        then skip_delete_share_application_class_or_attr partition key
        else returns false

    -- an entry whose class is not that of a policy
    abbrev pub replace_entry : GoMap Json → String → Json → GoMap Json
    replace_entry src_app key delta_value =
        if is_delete then delete key src_app else insert key delta_value src_app

    abbrev pub merge_object : GoMap Json → String → Json → Fields → Outcome (GoMap Json)
    merge_object src_app key delta_value child = do
      skip ← is_skipped key
      if skip then returns src_app else do
        class ← as_text (field? "class" child)
        returns (
            if class == class_firewall_policy
            then insert key (policy_merge_full_json r (obj child) delta_value is_delete) src_app
            else replace_entry src_app key delta_value)

    abbrev pub merge_found : GoMap Json → String → Json → Option Json → Outcome (GoMap Json)
    merge_found src_app key delta_value none =
        returns (if is_delete then src_app else insert key delta_value src_app)
    merge_found src_app key delta_value (some (obj child)) =
        merge_object src_app key delta_value child
    merge_found src_app key delta_value (some _) = returns src_app

    -- the body of the loop over the generated application
    unfoldable pub merge_entry : GoMap Json → String × Json → Outcome (GoMap Json)
    unfolding skip_delete_share_application_class_or_attr policy_merge_full_json
    merge_entry src_app (key, delta_value) =
        merge_found src_app key delta_value (lookup key src_app)

    -- the JSON of a shared application that may be a nil map
    abbrev pub map_json : Option (GoMap Json) → Json
    map_json none = null
    map_json (some m) = object m

    abbrev pub shared_json : Option App → Json
    shared_json none = null
    shared_json (some app) = object (encode_app app)

    -- A nil map is one with no entries; it is written back as `null`.
    abbrev pub entries_of : Decoded → GoMap Json
    entries_of (decoded m) = m
    entries_of _ = []

    abbrev written : Decoded → GoMap Json → Json
    written nil_map [] = null
    written _ m = object m

    abbrev pub merge_decoded : GoMap Json → Json → Decoded → Decoded → Outcome (Option Json)
    merge_decoded src_adc origin failed _ = returns none
    merge_decoded src_adc origin _ failed = returns (some (object src_adc))
    merge_decoded src_adc origin src delta = do
      merged ← each merge_entry (entries_of src) (entries_of delta)
      cleaned ← clear_up_unreference_policy r merged
      if not (is_diff origin (written src cleaned)) && not is_delete
          then returns none
          else do body ← new_as3_obj r partition (written src cleaned); returns (some body)

    -- `src` is the shared application that BIG-IP has, `delta` the generated one
    abbrev pub full_application :
        GoMap Json → Option (GoMap Json) → Option App → Outcome (Option Json)
    full_application src_adc none delta =
        if not is_delete
        then (do body ← new_as3_obj r partition (shared_json delta); returns (some body))
        else merge_decoded src_adc null (validate_json_value null)
            (validate_json_value (shared_json delta))
    full_application src_adc (some app) delta =
        merge_decoded src_adc (object app) (validate_json_value (object app))
          (validate_json_value (shared_json delta))

  -- `none` where nothing needs to be sent
  unfoldable pub full_resource :
      String → Bool → GoMap Json → GoMap As3Tenant → Outcome (Option Json)
  unfolding merge_entry clear_up_unreference_policy new_as3_obj is_diff get_as3_shared_app
  full_resource partition is_delete src_adc delta_adc =
      full_application partition is_delete src_adc (get_as3_shared_app src_adc partition)
        (own_shared_app delta_adc partition)
