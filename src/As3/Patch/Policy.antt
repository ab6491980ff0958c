-- ===== src/As3/Patch/Policy.antt =====
-- What the patch for a policy does to its rules, by the meaning of the operations in RFC 6902.
use container_egress_service.Prelude.{
  ℕ, suc, String, ◌≡◌, refl, ◌∙◌, Bool, true, false, none, some, not, inl, inr, List, [], ◌∷◌, ◌++◌,
  any, arith, length, is_empty, Bool-cases, if◌then◌else◌,
}
use container_egress_service.Prelude.Text.{◌⊕◌, contains, decimal}
use container_egress_service.Json.{Json, text, object}
use container_egress_service.As3.Types.{Use}
use container_egress_service.As3.Merge.Policy.{is_deny}
use container_egress_service.As3.Merge.Members.{has_path}
use container_egress_service.As3.Patch.{
  PatchItem, PatchBody, unchanged, append_rule, first_allowed, find_rule, policy_change,
}

-- The operation of RFC 6902 in an item, for the array of rules of the policy at `path`: `remove` at an
-- index, and `add` at the end.
pub data Applies (path : String) : PatchItem → List Use → List Use → Type 0 where
  removes :
      (before rest : List Use) (u : Use)
      → Applies path
          (record {
            op = "remove";
            path = path ⊕ ("/rules/" ⊕ decimal (length before));
            value = none;
          })
          (before ++ u ∷ rest)
          (before ++ rest)
  adds :
      (rules : List Use) (u : Use)
      → Applies path
          (record {
            op = "add";
            path = path ⊕ "/rules/-";
            value = some (object (("use", text u.path) ∷ []));
          })
          rules
          (rules ++ u ∷ [])

-- the operations of a body, one after another
abbrev pub AppliesAll : String → PatchBody → List Use → List Use → Type 0
AppliesAll path [] rules rules' = rules ≡ rules'
AppliesAll path (item ∷ items) rules rules' =
    (next : List Use) × Applies path item rules next × AppliesAll path items next rules'

abbrev pub names_allowed : String → List Use → Bool
names_allowed deny = any (λ v. not (is_deny deny v))

find_rule-add :
    (val : Use) (i : ℕ) (rules : List Use)
    → find_rule false val i rules ≡ (if has_path val.path rules then unchanged else append_rule val)
unfolding find_rule
find_rule-add val i [] = refl
find_rule-add val i (sr ∷ rest) = ground (arith, find_rule-add val (suc i) rest)

first_allowed-none :
    (deny : String) (delta : List Use)
    → names_allowed deny delta ≡ false
    → first_allowed deny delta ≡ record { path = "" }
unfolding first_allowed
first_allowed-none deny [] h = refl
first_allowed-none deny (v ∷ vs) h = elim (Bool-cases (contains v.path deny)) [
  | inl hit ↦ rw hit (first_allowed-none deny vs (rw hit at h))
  | inr miss ↦ let absurd : true ≡ false = rw miss at h in cc
]

-- A request that names nothing but the rule that denies all adds a rule without a path, unless the
-- policy on BIG-IP has one.
pub policy_change-all_deny :
    (deny : String) (src delta : List Use)
    → names_allowed deny delta ≡ false
    → is_empty delta ≡ false
    → has_path "" src ≡ false
    → policy_change deny false src delta ≡ append_rule (record { path = "" })
unfolding policy_change
policy_change-all_deny deny src [] h some_rule absent = cc
policy_change-all_deny deny src (d ∷ ds) h some_rule absent =
    rw (first_allowed-none deny (d ∷ ds) h)
      (find_rule-add (record { path = "" }) 0 src ∙ rw absent refl)
