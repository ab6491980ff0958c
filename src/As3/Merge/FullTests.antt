-- ===== src/As3/Merge/FullTests.antt =====
-- The theorems on whole applications at concrete inputs.
use container_egress_service.Prelude.{
  String, ◌≡◌, ◌≢◌, refl, Bool, true, false, not, Bool-cases, inl, inr, eq_iff, ◌==◌, Option, none,
  some, List, [], ◌∷◌, arith,
}
use container_egress_service.Prelude.Outcome.{Outcome, returns, panics, each}
use container_egress_service.Prelude.Text.{split}
use container_egress_service.Prelude.GoMap.{GoMap, lookup, insert, delete, IsMap}
use container_egress_service.Json.{
  Json, null, text, object, array, entries, fields, field?, elems, items,
}
use container_egress_service.As3.Resource.{App, plain, policy, encode_app}
use container_egress_service.As3.Tenant.{As3Tenant, own_shared_app, get_as3_shared_app}
use container_egress_service.Json.{deep_equal, size}
use container_egress_service.As3.Merge.{is_diff, merge_entry, full_resource}
use container_egress_service.As3.Merge.Cleanup.{clear_up_unreference_policy, delete_unflagged}
use container_egress_service.As3.Merge.Unreferenced.{kept, lookup-clear_up}
use container_egress_service.As3.Merge.Entries.{
  merged_by, lookup-each-merge_entry, each-merge_entry-order,
}
use container_egress_service.As3.Merge.Full.{
  Inputs, full_resource-delete, full_resource-quiet, still_there,
}
use container_egress_service.Samples.{registry, environment}

abbrev use_of : String → Json
use_of path = object (("use", text path) ∷ [])

abbrev policy_of : List Json → Json
policy_of rules = object (("rules", array rules) ∷ ("class", text "Firewall_Policy") ∷ [])

abbrev address_list : Json
address_list =
    object
      (("class", text "Firewall_Address_List") ∷ ("addresses", array (text "10.1.1.1" ∷ [])) ∷ [])

-- a rule list with one rule, for one address list
abbrev rule_list_for : String → Json
rule_list_for path = object (
    ("class", text "Firewall_Rule_List")
    ∷ (
      "rules",
      array (
          object (("destination", object (("addressLists", array (use_of path ∷ [])) ∷ [])) ∷ [])
          ∷ []),
    )
    ∷ [])

-- one address list is referred to, the other is not
abbrev on_big_ip : GoMap Json
on_big_ip =
    ("class", text "Application")
    ∷ ("k8s_policy", policy_of (use_of "/Common/Shared/k8s_rules" ∷ []))
    ∷ ("k8s_rules", rule_list_for "/Common/Shared/k8s_used")
    ∷ ("k8s_used", address_list)
    ∷ ("k8s_stale", address_list)
    ∷ []

abbrev generated : App
generated =
    ("class", plain "Application")
    ∷ (
      "k8s_policy",
      policy (record {
        class = "Firewall_Policy";
        rules = record { path = "/Common/Shared/k8s_more" } ∷ [];
      }),
    )
    ∷ []

abbrev adc_on_big_ip : GoMap Json
adc_on_big_ip = ("Common", object (("Shared", object on_big_ip) ∷ [])) ∷ []

abbrev generated_adc : GoMap As3Tenant
generated_adc = ("Common", record { default_route_domain = none; shared = generated }) ∷ []

-- the request that would change nothing
abbrev idle_adc : GoMap As3Tenant
idle_adc =
    ("Common", record { default_route_domain = none; shared = ("class", plain "Application") ∷ [] })
    ∷ []

abbrev map_of : Outcome (GoMap Json) → GoMap Json
map_of (returns m) = m
map_of panics = []

abbrev body_of : Outcome (Option Json) → Json
body_of (returns (some j)) = j
body_of _ = null

abbrev cleaned : GoMap Json
cleaned = map_of (clear_up_unreference_policy registry on_big_ip)

on_big_ip-IsMap : IsMap on_big_ip
unfolding lookup
on_big_ip-IsMap = (refl, (refl, (refl, (refl, (refl, tt)))))

clean_returns : clear_up_unreference_policy registry on_big_ip ≡ returns cleaned
unfolding clear_up_unreference_policy each lookup field? fields elems items
clean_returns = refl

lookup-clear_up_example :
    lookup "k8s_stale" cleaned ≡ kept registry on_big_ip "k8s_stale" (lookup "k8s_stale" on_big_ip)
lookup-clear_up_example =
    lookup-clear_up registry "k8s_stale" on_big_ip cleaned on_big_ip-IsMap clean_returns

-- The address list that no rule names is gone.
stale_is_gone :
    (lookup "k8s_stale" cleaned ≡ none) × (lookup "k8s_used" cleaned ≡ some address_list)
unfolding clear_up_unreference_policy delete_unflagged delete split each lookup field? fields elems
    items
stale_is_gone = (refl, refl)

abbrev delta_map : GoMap Json
delta_map = encode_app generated

delta_map-IsMap : IsMap delta_map
unfolding lookup encode_app
delta_map-IsMap = (refl, (refl, tt))

abbrev swapped : GoMap Json
swapped =
    (
      "k8s_policy",
      object (
          ("rules", array (use_of "/Common/Shared/k8s_more" ∷ []))
          ∷ ("class", text "Firewall_Policy")
          ∷ []),
    )
    ∷ ("class", text "Application")
    ∷ []

swapped-IsMap : IsMap swapped
unfolding lookup
swapped-IsMap = (refl, (refl, tt))

abbrev merged_with : GoMap Json → GoMap Json
merged_with delta = map_of (each (merge_entry registry environment "Common" false) on_big_ip delta)

merge_returns :
    each (merge_entry registry environment "Common" false) on_big_ip delta_map
    ≡ returns (merged_with delta_map)
unfolding each encode_app merge_entry lookup field? fields
merge_returns = refl

swapped_returns :
    each (merge_entry registry environment "Common" false) on_big_ip swapped
    ≡ returns (merged_with swapped)
unfolding each merge_entry lookup field? fields insert
swapped_returns = refl

lookup-each-merge_entry_example :
    merged_by registry environment "Common" false "k8s_policy"
      (lookup "k8s_policy" delta_map)
      (lookup "k8s_policy" on_big_ip)
    ≡ returns (lookup "k8s_policy" (merged_with delta_map))
lookup-each-merge_entry_example =
    lookup-each-merge_entry registry environment "Common" false "k8s_policy" on_big_ip delta_map
      (merged_with delta_map) delta_map-IsMap merge_returns

abbrev body : Json
body = body_of (full_resource registry environment "Common" false adc_on_big_ip generated_adc)

deltas_agree : (k : String) → lookup k delta_map ≡ lookup k swapped
unfolding lookup encode_app
deltas_agree k = elim (Bool-cases ("class" == k)) [
  | inl is_class ↦ rw (← (eq_iff "class" k).0 is_class) refl
  | inr e ↦ rw e refl
]

each-merge_entry-order_example :
    lookup "k8s_policy" (merged_with delta_map) ≡ lookup "k8s_policy" (merged_with swapped)
each-merge_entry-order_example =
    each-merge_entry-order registry environment "Common" false on_big_ip delta_map swapped
      (merged_with delta_map) (merged_with swapped) delta_map-IsMap swapped-IsMap deltas_agree
      merge_returns swapped_returns "k8s_policy"

abbrev idle : App
idle = ("class", plain "Application") ∷ []

-- what BIG-IP has if every address list is referred to
abbrev settled : GoMap Json
settled =
    ("class", text "Application")
    ∷ ("k8s_rules", rule_list_for "/Common/Shared/k8s_used")
    ∷ ("k8s_used", address_list)
    ∷ []

abbrev settled_adc : GoMap Json
settled_adc = ("Common", object (("Shared", object settled) ∷ [])) ∷ []

deletion-Inputs :
    Inputs registry environment "Common" true adc_on_big_ip generated_adc on_big_ip generated
unfolding lookup get_as3_shared_app own_shared_app encode_app fields entries
deletion-Inputs = record {
  src = refl;
  own = refl;
  src_map = on_big_ip-IsMap;
  delta_map = delta_map-IsMap;
}

full_resource-delete_example :
    full_resource registry environment "Common" true adc_on_big_ip generated_adc ≢ returns none
full_resource-delete_example =
    full_resource-delete registry environment "Common" true adc_on_big_ip generated_adc on_big_ip
      generated deletion-Inputs refl

settled-IsMap : IsMap settled
unfolding lookup
settled-IsMap = (refl, (refl, (refl, tt)))

idle-IsMap : IsMap (encode_app idle)
unfolding lookup encode_app
idle-IsMap = (refl, tt)

idle-Inputs : Inputs registry environment "Common" false settled_adc idle_adc settled idle
unfolding lookup get_as3_shared_app own_shared_app fields entries
idle-Inputs = record { src = refl; own = refl; src_map = settled-IsMap; delta_map = idle-IsMap }

idle_returns : full_resource registry environment "Common" false settled_adc idle_adc ≡ returns none
unfolding full_resource lookup entries fields own_shared_app each encode_app field? insert elems
    items delete_unflagged split delete get_as3_shared_app merge_entry clear_up_unreference_policy
    container_egress_service.Json.deep_equal container_egress_service.Json.size
    container_egress_service.Prelude.Text.contains
    container_egress_service.As3.Environment.validate_json_value
    container_egress_service.As3.Declaration.new_as3_obj container_egress_service.As3.Merge.is_diff
    container_egress_service.As3.Config.get_schema_version
    container_egress_service.As3.Declaration.new_adc
    container_egress_service.As3.Declaration.default_adc
    container_egress_service.As3.Merge.skip_delete_share_application_class_or_attr
idle_returns = refl

full_resource-quiet_example :
    (merged : GoMap Json) × ((k : String)
      → merged_by registry environment "Common" false k
          (lookup k (encode_app idle))
          (lookup k settled)
        ≡ returns (lookup k merged))
    × ((k : String)
        → still_there (kept registry merged k (lookup k merged)) (lookup k settled) ≡ true)
full_resource-quiet_example =
    full_resource-quiet registry environment "Common" false settled_adc idle_adc settled idle
      idle-Inputs idle_returns
