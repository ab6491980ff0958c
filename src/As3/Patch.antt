-- ===== src/As3/Patch.antt =====
-- The way by JSON patches (RFC 6902): `patchResouce` and `policyPatchJson` of pkg/as3/utils.go, the
-- items of pkg/as3/types.go and `patch` of pkg/as3/client.go. `As3Request` does not take this way.
pub mod Policy
pub mod Deletion
mod Tests
use container_egress_service.Prelude.{
  ℕ, suc, String, Bool, true, false, Option, none, some, List, [], ◌∷◌, ◌++◌, map, not, is_empty,
  ◌==◌, if◌then◌else◌,
}
use container_egress_service.Prelude.Outcome.{Outcome, returns, ◌>>=◌, each}
use container_egress_service.Prelude.GoMap.{GoMap, lookup}
use container_egress_service.Prelude.Text.{◌⊕◌, contains, decimal}
use container_egress_service.Json.{Json, null, text, obj, Fields, field?, object, array, deep_equal}
use container_egress_service.As3.Types.{Use, FirewallPolicy, class_firewall_policy}
use container_egress_service.As3.Config.{Registry}
use container_egress_service.As3.Attrs.{
  get_all_deny_rule_list_attr, get_as3_use_path_for_partition, get_as3_vs_attr,
}
use container_egress_service.As3.Environment.{Environment, validate_json_value}
use container_egress_service.As3.Resource.{encode_app, use_json}
use container_egress_service.As3.Tenant.{As3Tenant, tenant_json, own_shared_app, get_as3_shared_app}
use container_egress_service.As3.Merge.{
  as_text, entries_of, map_json, shared_json, skip_delete_share_application_class_or_attr,
}
use container_egress_service.As3.Merge.Policy.{decode_policy}
use container_egress_service.As3.Client.{Client, discard}
use container_egress_service.Io.{World, patch, Io, pure}

abbrev pub op_add : String
op_add = "add"

abbrev pub op_remove : String
op_remove = "remove"

abbrev pub op_replace : String
op_replace = "replace"

-- `value` is `none` where the interface is nil
pub record PatchItem : Type 0 where
  pub op : String
  pub path : String
  pub value : Option Json

-- PatchBody
abbrev pub PatchBody : Type 0
PatchBody = List PatchItem

abbrev omit_nil : Option Json → GoMap Json
omit_nil none = []
omit_nil (some v) = ("value", v) ∷ []

abbrev omit_empty : String → String → GoMap Json
omit_empty k s = if s == "" then [] else (k, text s) ∷ []

-- json.Marshal of an item
unfoldable pub item_json : PatchItem → Json
item_json i = object (omit_empty "op" i.op ++ (omit_empty "path" i.path ++ omit_nil i.value))

-- What becomes of the rules of a policy: a rule goes, by its index, or one is put at the end.
pub data PolicyChange : Type 0 where
  unchanged : PolicyChange
  remove_rule : ℕ → PolicyChange
  append_rule : Use → PolicyChange

-- the first rule that is not the one that denies all; the empty one, if there is none
unfoldable pub first_allowed : String → List Use → Use
first_allowed deny [] = record { path = "" }
first_allowed deny (v ∷ vs) = if contains v.path deny then first_allowed deny vs else v

-- the loop over the rules of the source, from the index `i` on
unfoldable pub find_rule : Bool → Use → ℕ → List Use → PolicyChange
find_rule is_delete val i [] = if is_delete then unchanged else append_rule val
find_rule is_delete val i (sr ∷ rest) =
    if val.path == sr.path
    then (if is_delete then remove_rule i else unchanged)
    else find_rule is_delete val (suc i) rest

unfoldable pub policy_change : String → Bool → List Use → List Use → PolicyChange
unfolding first_allowed find_rule
policy_change deny is_delete src delta =
    if is_empty delta then unchanged else find_rule is_delete (first_allowed deny delta) 0 src

unfoldable pub change_items : String → PolicyChange → PatchBody
change_items path unchanged = []
change_items path (remove_rule i) =
    record { op = op_remove; path = path ⊕ ("/rules/" ⊕ decimal i); value = none } ∷ []
change_items path (append_rule val) =
    record { op = op_add; path = path ⊕ "/rules/-"; value = some (use_json val) } ∷ []

abbrev policy_items :
    String → String → Bool → Option FirewallPolicy → Option FirewallPolicy → PatchBody
policy_items deny path is_delete (some src_policy) (some delta_policy) =
    change_items path (policy_change deny is_delete src_policy.rules delta_policy.rules)
policy_items deny path is_delete _ _ = []

module _ (r : Registry) where
  -- what is no policy gives no item
  unfoldable pub policy_patch_json : Json → Json → String → PatchBody → Bool → PatchBody
  unfolding change_items policy_change decode_policy get_all_deny_rule_list_attr
  policy_patch_json src delta path patch_body is_delete =
      patch_body
      ++ policy_items (get_all_deny_rule_list_attr r) path is_delete (decode_policy src)
          (decode_policy delta)

  module _ (env : Environment) (partition : String) (is_delete : Bool) where
    abbrev replace_item : String → Json → PatchItem
    replace_item key delta_value = record {
      op = op_replace;
      path = get_as3_use_path_for_partition partition key;
      value = some delta_value;
    }

    abbrev remove_item : String → PatchItem
    remove_item key = record {
      op = op_remove;
      path = get_as3_use_path_for_partition partition key;
      value = none;
    }

    -- an entry of another class than that of a policy
    abbrev other_items : String → Json → Json → PatchBody
    other_items key delta_value src_value =
        if is_delete
        then remove_item key ∷ []
        else if deep_equal delta_value src_value
        then []
        else replace_item key delta_value ∷ []

    abbrev class_items : PatchBody → String → Json → Fields → Outcome PatchBody
    class_items path_body key delta_value child = do
      class ← as_text (field? "class" child)
      returns (
          if class == class_firewall_policy
          then policy_patch_json (obj child) delta_value
              (get_as3_use_path_for_partition partition key) path_body is_delete
          else path_body ++ other_items key delta_value (obj child))

    -- A deletion leaves the loop's body on both branches of its test.
    abbrev pub object_items : PatchBody → String → Json → Fields → Outcome PatchBody
    object_items path_body key delta_value child =
        if key == get_all_deny_rule_list_attr r
        then returns path_body
        else if is_delete
        then (do
          skip ← skip_delete_share_application_class_or_attr r env partition key
          if skip then returns path_body else returns path_body)
        else class_items path_body key delta_value child

    abbrev pub found_items : PatchBody → String → Json → Option Json → Outcome PatchBody
    found_items path_body key delta_value none = returns (
        if is_delete
        then path_body
        else path_body
          ++ record {
            op = op_add;
            path = get_as3_use_path_for_partition partition key;
            value = some delta_value;
          }
            ∷ [])
    found_items path_body key delta_value (some (obj child)) =
        object_items path_body key delta_value child
    found_items path_body key delta_value (some _) = returns path_body

    -- the body of the loop over the generated application
    unfoldable pub patch_entry : GoMap Json → PatchBody → String × Json → Outcome PatchBody
    unfolding policy_patch_json get_as3_use_path_for_partition get_all_deny_rule_list_attr
        skip_delete_share_application_class_or_attr
    patch_entry src_app path_body (key, delta_value) =
        found_items path_body key delta_value (lookup key src_app)

    -- the JSON of a partition of the generated declaration
    abbrev own_partition : Option As3Tenant → Json
    own_partition none = null
    own_partition (some t) = tenant_json t.default_route_domain (object (encode_app t.shared))

    abbrev pub partition_items : GoMap As3Tenant → Option (GoMap Json) → Outcome (Option PatchBody)
    partition_items delta_adc none = returns (
        if is_delete
        then none
        else some (
            record {
              op = op_add;
              path = "/" ⊕ partition;
              value = some (own_partition (lookup partition delta_adc));
            }
            ∷ []))
    partition_items delta_adc (some src) = do
      let delta = shared_json r env partition is_delete (own_shared_app delta_adc partition)
      items ←
          each
            (patch_entry (entries_of r env partition is_delete (validate_json_value (object src))))
            [] (entries_of r env partition is_delete (validate_json_value delta))
      returns (some items)

    -- `none` is a nil result
    unfoldable pub patch_resouce : GoMap Json → GoMap As3Tenant → Outcome (Option PatchBody)
    unfolding patch_entry get_as3_shared_app own_shared_app validate_json_value tenant_json
    patch_resouce src_adc delta_adc =
        partition_items delta_adc (get_as3_shared_app src_adc partition)

-- `patch` of the client
unfoldable pub patch_request : World → Environment → Client → PatchBody → Io (Unit {0})
unfolding discard item_json
patch_request w env c [] = pure tt
patch_request w env c (i ∷ is) =
    discard w env
      (record { method = patch; url = c.url; body = some (array (map item_json (i ∷ is))) })
