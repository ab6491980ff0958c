-- ===== src/As3/Merge/Policy.antt =====
-- `policyMergeFullJson` of pkg/as3/utils.go: the rules of a policy, with those of a request added or
-- removed.
use container_egress_service.Prelude.{
  String, Bool, true, false, Option, none, some, List, [], ◌∷◌, ◌++◌, any, not, ◌&&◌, ◌==◌,
  if◌then◌else◌,
}
use container_egress_service.Prelude.Text.{contains}
use container_egress_service.Json.{Json, null, text, arr, obj, field?, elems}
use container_egress_service.As3.Types.{Use, FirewallPolicy}
use container_egress_service.As3.Config.{Registry}
use container_egress_service.As3.Attrs.{get_all_deny_rule_list_attr}
use container_egress_service.As3.Resource.{policy_json}

-- json.Unmarshal into the structs: `none` is the error for a value of another kind. A missing field
-- and a JSON `null` give the zero value.
abbrev decode_text : Option Json → Option String
decode_text none = some ""
decode_text (some null) = some ""
decode_text (some (text s)) = some s
decode_text (some _) = none

abbrev use_of : Option String → Option Use
use_of none = none
use_of (some s) = some (record { path = s })

abbrev decode_use : Json → Option Use
decode_use null = some (record { path = "" })
decode_use (obj fs) = use_of (decode_text (field? "use" fs))
decode_use _ = none

abbrev cons? : Option Use → Option (List Use) → Option (List Use)
cons? (some u) (some us) = some (u ∷ us)
cons? _ _ = none

unfoldable pub decode_uses : List Json → Option (List Use)
decode_uses [] = some []
decode_uses (j ∷ js) = cons? (decode_use j) (decode_uses js)

abbrev decode_rules : Option Json → Option (List Use)
decode_rules none = some []
decode_rules (some null) = some []
decode_rules (some (arr xs)) = decode_uses (elems xs)
decode_rules (some _) = none

abbrev policy_of : Option String → Option (List Use) → Option FirewallPolicy
policy_of (some class) (some rules) = some (record { class = class; rules = rules })
policy_of _ _ = none

unfoldable pub decode_policy : Json → Option FirewallPolicy
unfolding decode_uses
decode_policy null = some (record { class = ""; rules = [] })
decode_policy (obj fs) =
    policy_of (decode_text (field? "class" fs)) (decode_rules (field? "rules" fs))
decode_policy _ = none

-- The loop over the rules of the source for one rule of the request: whether it is there, and the
-- rules that are left. `deny` is the name of the rule list that denies all, which stays.
unfoldable pub scan_rules : String → Bool → Use → List Use → Bool × List Use
scan_rules deny is_delete delta_rule [] = (false, [])
scan_rules deny is_delete delta_rule (src_rule ∷ rest) =
    let (is_exist, left) = scan_rules deny is_delete delta_rule rest in
    if delta_rule.path == src_rule.path
    then (if is_delete
        then (if contains delta_rule.path deny then (true, src_rule ∷ left) else (true, rest))
        else (true, src_rule ∷ rest))
    else (is_exist, src_rule ∷ left)

unfoldable pub merge_rule : String → Bool → List Use → Use → List Use
unfolding scan_rules
merge_rule deny is_delete rules delta_rule =
    let (is_exist, left) = scan_rules deny is_delete delta_rule rules in
    if not is_exist && not is_delete then left ++ delta_rule ∷ [] else left

unfoldable pub merge_rules : String → Bool → List Use → List Use → List Use
merge_rules deny is_delete rules [] = rules
merge_rules deny is_delete rules (delta_rule ∷ rest) =
    merge_rules deny is_delete (merge_rule deny is_delete rules delta_rule) rest

abbrev pub is_deny : String → Use → Bool
is_deny deny u = contains u.path deny

abbrev pub last_or : Use → List Use → Use
last_or u [] = u
last_or u (v ∷ vs) = last_or v vs

-- all but the last of `u ∷ us`, and then `d`
abbrev pub with_last : Use → List Use → Use → List Use
with_last u [] d = d ∷ []
with_last u (v ∷ vs) d = u ∷ with_last v vs d

-- `rules[i]` and `rules[last]` change places, for `rules = d ∷ rest` and `i = 0`
abbrev pub swap_with_last : Use → List Use → List Use
swap_with_last d [] = d ∷ []
swap_with_last d (v ∷ vs) = last_or v vs ∷ with_last v vs d

-- The loop from the end: the last rule that denies all changes places with the last rule. Such a
-- rule further on in the list is met first.
unfoldable pub deny_to_end : String → List Use → List Use
deny_to_end deny [] = []
deny_to_end deny (u ∷ us) =
    let rest = deny_to_end deny us in
    if any (is_deny deny) us
    then u ∷ rest
    else if is_deny deny u
    then swap_with_last u us
    else u ∷ us

unfoldable pub merge_policy : String → Bool → FirewallPolicy → FirewallPolicy → FirewallPolicy
unfolding merge_rule merge_rules deny_to_end
merge_policy deny is_delete src delta = record src {
  rules = deny_to_end deny (merge_rules deny is_delete src.rules delta.rules);
}

abbrev merge_or_source : String → Json → Bool → Option FirewallPolicy → Option FirewallPolicy → Json
merge_or_source deny src is_delete (some src_policy) (some delta_policy) =
    policy_json (merge_policy deny is_delete src_policy delta_policy)
merge_or_source deny src is_delete _ _ = src

-- the source stays as it is if one of the two is no policy
unfoldable pub policy_merge_full_json : Registry → Json → Json → Bool → Json
unfolding decode_policy merge_policy policy_json get_all_deny_rule_list_attr
policy_merge_full_json r src delta is_delete =
    merge_or_source (get_all_deny_rule_list_attr r) src is_delete (decode_policy src)
      (decode_policy delta)
