-- ===== src/As3/Merge/Cleanup.antt =====
-- `clearUpUnreferencePolicy` of pkg/as3/utils.go: address lists and port lists that no rule names are
-- dropped.
use container_egress_service.Prelude.{
  String, Option, none, some, List, [], ◌∷◌, ◌++◌, ◌||◌, not, ◌==◌, mem, if◌then◌else◌,
}
use container_egress_service.Prelude.Outcome.{Outcome, returns, panics, ◌>>=◌, each}
use container_egress_service.Prelude.GoMap.{GoMap, delete}
use container_egress_service.Json.{Json, null, text, arr, obj, Fields, field?, elems}
use container_egress_service.As3.Types.{
  class_firewall_address_list, class_firewall_port_list, class_firewall_rule_list,
  class_security_log_profile, class_log_publisher,
}
use container_egress_service.As3.Config.{Registry, is_config_log_profile}
use container_egress_service.As3.Attrs.{get_origin_attr_of_use_path}

-- x.(string), as the name that the path ends in
abbrev pub name_in : Option Json → Outcome String
name_in (some (text s)) = returns (get_origin_attr_of_use_path s)
name_in _ = panics

-- x.(map[string]interface{})["use"]
abbrev pub use_name : Json → Outcome String
use_name (obj fs) = name_in (field? "use" fs)
use_name _ = panics

unfoldable pub use_names : List Json → Outcome (List String)
unfolding get_origin_attr_of_use_path
use_names [] = returns []
use_names (j ∷ js) = do name ← use_name j; names ← use_names js; returns (name ∷ names)

-- a list that may be missing
abbrev pub list_names : Option Json → Outcome (List String)
list_names none = returns []
list_names (some (arr xs)) = use_names (elems xs)
list_names (some _) = panics

abbrev pub source_names : Option Json → Outcome (List String)
source_names (some (obj fs)) = list_names (field? "addressLists" fs)
source_names _ = returns []

abbrev pub destination_names : Option Json → Outcome (List String)
destination_names (some (obj fs)) = do
  addresses ← list_names (field? "addressLists" fs)
  ports ← list_names (field? "portLists" fs)
  returns (addresses ++ ports)
destination_names _ = panics

-- the names that one rule refers to
unfoldable pub rule_names : Json → Outcome (List String)
unfolding use_names
rule_names (obj fs) = do
  dest ← destination_names (field? "destination" fs)
  src ← source_names (field? "source" fs)
  returns (dest ++ src)
rule_names _ = panics

unfoldable pub all_rule_names : List Json → Outcome (List String)
unfolding rule_names
all_rule_names [] = returns []
all_rule_names (rule ∷ rules) = do
  names ← rule_names rule
  more ← all_rule_names rules
  returns (names ++ more)

abbrev pub rules_names : Option Json → Outcome (List String)
rules_names (some (arr xs)) = all_rule_names (elems xs)
rules_names _ = panics

-- `flag1` holds the names that rules refer to, `flag2` the address lists and port lists, and
-- `share_app` what is left of the application.
pub record Flags : Type 0 where
  pub flag1 : List String
  pub flag2 : List String
  pub share_app : GoMap Json

module _ (r : Registry) where
  abbrev pub flag_class : Flags → String → Fields → String → Outcome Flags
  flag_class s key fs class =
      if class == class_firewall_rule_list
      then (do
        names ← rules_names (field? "rules" fs)
        returns (record s { flag1 = s.flag1 ++ names }))
      else if ((class == class_firewall_address_list) || (class == class_firewall_port_list))
      then returns (record s { flag2 = s.flag2 ++ key ∷ [] })
      else if ((class == class_security_log_profile) || (class == class_log_publisher))
      then (if not (is_config_log_profile r)
          then returns (record s { share_app = delete key s.share_app })
          else returns s)
      else returns s

  abbrev pub flag_object : Flags → String → Fields → Option Json → Outcome Flags
  flag_object s key fs none = returns s
  flag_object s key fs (some null) = returns s
  flag_object s key fs (some (text class)) = flag_class s key fs class
  flag_object s key fs (some _) = panics

  -- the body of the loop over the application
  unfoldable pub flag_entry : Flags → String × Json → Outcome Flags
  unfolding all_rule_names is_config_log_profile
  flag_entry s (key, obj fs) = flag_object s key fs (field? "class" fs)
  flag_entry s (key, _) = returns s

  unfoldable pub delete_unflagged : List String → List String → GoMap Json → GoMap Json
  delete_unflagged flag1 [] app = app
  delete_unflagged flag1 (k ∷ flag2) app =
      delete_unflagged flag1 flag2 (if mem k flag1 then app else delete k app)

  unfoldable pub clear_up_unreference_policy : GoMap Json → Outcome (GoMap Json)
  unfolding flag_entry
  clear_up_unreference_policy share_app = do
    s ← each flag_entry (record { flag1 = []; flag2 = []; share_app = share_app }) share_app
    returns (delete_unflagged s.flag1 s.flag2 s.share_app)
