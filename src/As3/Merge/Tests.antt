-- ===== src/As3/Merge/Tests.antt =====
-- The theorems on the merge at concrete inputs, and tests of its functions.
use container_egress_service.Prelude.{String, ◌≡◌, refl, true, false, not, [], ◌∷◌, ◌&&◌, ◌||◌, any}
use container_egress_service.Prelude.Text.{contains}
use container_egress_service.As3.Types.{Use, FirewallPolicy}
use container_egress_service.As3.Merge.Policy.{is_deny, merge_policy}
use container_egress_service.As3.Merge.Order.{last_is}
use container_egress_service.As3.Merge.Members.{has_path}
use container_egress_service.As3.Merge.Contents.{
  merge_policy-deny_last, has_path-merge_policy-add, has_path-merge_policy-delete,
  merge_policy-add_idem,
}
use container_egress_service.Samples.{deny}

abbrev rule_of : String → Use
rule_of path = record { path = path }

abbrev deny_rule : Use
deny_rule = rule_of "/Common/Shared/k8s_svc_deny_all_rule_list"

abbrev on_big_ip : FirewallPolicy
on_big_ip = record {
  class = "Firewall_Policy";
  rules = rule_of "/Common/Shared/a" ∷ deny_rule ∷ [];
}

abbrev requested : FirewallPolicy
requested = record {
  class = "Firewall_Policy";
  rules = rule_of "/Common/Shared/b" ∷ rule_of "/Common/Shared/c" ∷ deny_rule ∷ [];
}

-- The swap puts the rule that denies all last, and the last of the added rules before the others.
added :
    (merge_policy deny false on_big_ip requested).rules
    ≡ rule_of "/Common/Shared/a"
      ∷ rule_of "/Common/Shared/c"
      ∷ rule_of "/Common/Shared/b"
      ∷ deny_rule
      ∷ []
unfolding merge_policy contains
added = refl

deleted : (merge_policy deny true requested on_big_ip).rules ≡ requested.rules
unfolding merge_policy contains
deleted = refl

merge_policy-deny_last_example :
    any (is_deny deny) (merge_policy deny false on_big_ip requested).rules
    ≡ last_is (is_deny deny) (merge_policy deny false on_big_ip requested).rules
merge_policy-deny_last_example = merge_policy-deny_last deny false on_big_ip requested

has_path-merge_policy-add_example :
    has_path "/Common/Shared/b" (merge_policy deny false on_big_ip requested).rules
    ≡ (has_path "/Common/Shared/b" on_big_ip.rules || has_path "/Common/Shared/b" requested.rules)
has_path-merge_policy-add_example =
    has_path-merge_policy-add deny "/Common/Shared/b" on_big_ip requested

has_path-merge_policy-delete_example :
    has_path "/Common/Shared/b" (merge_policy deny true requested requested).rules ≡ (
      has_path "/Common/Shared/b" requested.rules
      && not
          (has_path "/Common/Shared/b" requested.rules && not (contains "/Common/Shared/b" deny)))
has_path-merge_policy-delete_example =
    has_path-merge_policy-delete deny "/Common/Shared/b" requested requested
      (refl, (refl, (refl, tt)))

merge_policy-add_idem_example :
    merge_policy deny false (merge_policy deny false on_big_ip requested) requested
    ≡ merge_policy deny false on_big_ip requested
merge_policy-add_idem_example = merge_policy-add_idem deny on_big_ip requested
