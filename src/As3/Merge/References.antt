-- ===== src/As3/Merge/References.antt =====
-- Which address lists and port lists the rules of a rule list refer to: a description that is
-- independent of the loops of `clearUpUnreferencePolicy` of pkg/as3/utils.go.
use container_egress_service.Prelude.{
  String, ◌≡◌, sym, ◌∙◌, ap, Bool, false, Option, none, some, List, [], ◌∷◌, ◌++◌, ◌||◌, any,
  any-append, mem, arith, ◌==◌,
}
use container_egress_service.Prelude.Outcome.{Outcome, returns, >>=-eq-returns}
use container_egress_service.Json.{Json, null, bool, num, text, arr, obj, field?, elems}
use container_egress_service.As3.Attrs.{get_origin_attr_of_use_path}
use container_egress_service.As3.Merge.Cleanup.{
  name_in, use_name, use_names, list_names, source_names, destination_names, rule_names,
  all_rule_names, rules_names,
}

-- a path whose last part is `k`
abbrev pub ends_in : String → Option Json → Bool
ends_in k (some (text s)) = get_origin_attr_of_use_path s == k
ends_in k _ = false

-- an object with such a path under "use"
abbrev pub uses : String → Json → Bool
uses k (obj fs) = ends_in k (field? "use" fs)
uses k _ = false

abbrev pub lists_use : String → Option Json → Bool
lists_use k (some (arr xs)) = any (uses k) (elems xs)
lists_use k _ = false

-- the list under `key` of the source or the destination of a rule
abbrev pub end_uses : String → String → Option Json → Bool
end_uses k key (some (obj fs)) = lists_use k (field? key fs)
end_uses k key _ = false

-- A rule refers to the address lists and port lists of its destination, and to the address lists of
-- its source.
abbrev pub rule_uses : String → Json → Bool
rule_uses k (obj fs) =
    end_uses k "addressLists" (field? "destination" fs)
    || (end_uses k "portLists" (field? "destination" fs)
        || end_uses k "addressLists" (field? "source" fs))
rule_uses k _ = false

abbrev pub rules_use : String → Option Json → Bool
rules_use k (some (arr xs)) = any (rule_uses k) (elems xs)
rules_use k _ = false

module _ (k : String) where
  mem-append : (xs ys : List String) → mem k (xs ++ ys) ≡ (mem k xs || mem k ys)
  mem-append xs ys = any-append (λ t. t == k) xs ys

  name_in-ends_in :
      (o : Option Json) (name : String) → name_in o ≡ returns name → (name == k) ≡ ends_in k o
  name_in-ends_in (some (text s)) name h =
      let same : get_origin_attr_of_use_path s ≡ name = cc in ap (λ t. t == k) (sym same)
  name_in-ends_in none name h = cc
  name_in-ends_in (some null) name h = cc
  name_in-ends_in (some (bool _)) name h = cc
  name_in-ends_in (some (num _)) name h = cc
  name_in-ends_in (some (arr _)) name h = cc
  name_in-ends_in (some (obj _)) name h = cc

  use_name-uses : (j : Json) (name : String) → use_name j ≡ returns name → (name == k) ≡ uses k j
  use_name-uses (obj fs) name h = name_in-ends_in (field? "use" fs) name h
  use_name-uses null name h = cc
  use_name-uses (bool _) name h = cc
  use_name-uses (num _) name h = cc
  use_name-uses (text _) name h = cc
  use_name-uses (arr _) name h = cc

  use_names-uses :
      (js : List Json) (names : List String)
      → use_names js ≡ returns names
      → mem k names ≡ any (uses k) js
  unfolding use_names
  use_names-uses [] names h = let same : [] ≡ names = cc in ap (mem k) (sym same)
  use_names-uses (j ∷ js) names h =
      let (name, first, h1) = >>=-eq-returns (use_name j) _ h in
      let (more, rest, h2) = >>=-eq-returns (use_names js) _ h1 in
      let same : name ∷ more ≡ names = cc in
      ap (mem k) (sym same)
      ∙ ground (arith, use_name-uses j name first, use_names-uses js more rest)

  list_names-lists_use :
      (o : Option Json) (names : List String)
      → list_names o ≡ returns names
      → mem k names ≡ lists_use k o
  list_names-lists_use none names h = let same : [] ≡ names = cc in ap (mem k) (sym same)
  list_names-lists_use (some (arr xs)) names h = use_names-uses (elems xs) names h
  list_names-lists_use (some null) names h = cc
  list_names-lists_use (some (bool _)) names h = cc
  list_names-lists_use (some (num _)) names h = cc
  list_names-lists_use (some (text _)) names h = cc
  list_names-lists_use (some (obj _)) names h = cc

  none_named :
      (names : List String)
      → ◌≡◌ {A = Outcome (List String)} (returns []) (returns names)
      → mem k names ≡ false
  none_named names h = let same : [] ≡ names = cc in ap (mem k) (sym same)

  source_names-end_uses :
      (o : Option Json) (names : List String)
      → source_names o ≡ returns names
      → mem k names ≡ end_uses k "addressLists" o
  source_names-end_uses (some (obj fs)) names h =
      list_names-lists_use (field? "addressLists" fs) names h
  source_names-end_uses none names h = none_named names h
  source_names-end_uses (some null) names h = none_named names h
  source_names-end_uses (some (bool _)) names h = none_named names h
  source_names-end_uses (some (num _)) names h = none_named names h
  source_names-end_uses (some (text _)) names h = none_named names h
  source_names-end_uses (some (arr _)) names h = none_named names h

  destination_names-end_uses :
      (o : Option Json) (names : List String)
      → destination_names o ≡ returns names
      → mem k names ≡ (end_uses k "addressLists" o || end_uses k "portLists" o)
  destination_names-end_uses (some (obj fs)) names h =
      let (addresses, a, h1) = >>=-eq-returns (list_names (field? "addressLists" fs)) _ h in
      let (ports, p, h2) = >>=-eq-returns (list_names (field? "portLists" fs)) _ h1 in
      let same : addresses ++ ports ≡ names = cc in
      ap (mem k) (sym same)
      ∙ ground (
        arith,
        mem-append addresses ports,
        list_names-lists_use (field? "addressLists" fs) addresses a,
        list_names-lists_use (field? "portLists" fs) ports p,
      )
  destination_names-end_uses none names h = cc
  destination_names-end_uses (some null) names h = cc
  destination_names-end_uses (some (bool _)) names h = cc
  destination_names-end_uses (some (num _)) names h = cc
  destination_names-end_uses (some (text _)) names h = cc
  destination_names-end_uses (some (arr _)) names h = cc

  rule_names-rule_uses :
      (j : Json) (names : List String) → rule_names j ≡ returns names → mem k names ≡ rule_uses k j
  unfolding rule_names
  rule_names-rule_uses (obj fs) names h =
      let (dest, d, h1) = >>=-eq-returns (destination_names (field? "destination" fs)) _ h in
      let (src, s, h2) = >>=-eq-returns (source_names (field? "source" fs)) _ h1 in
      let same : dest ++ src ≡ names = cc in
      ap (mem k) (sym same)
      ∙ ground (
        arith,
        mem-append dest src,
        destination_names-end_uses (field? "destination" fs) dest d,
        source_names-end_uses (field? "source" fs) src s,
      )
  rule_names-rule_uses null names h = cc
  rule_names-rule_uses (bool _) names h = cc
  rule_names-rule_uses (num _) names h = cc
  rule_names-rule_uses (text _) names h = cc
  rule_names-rule_uses (arr _) names h = cc

  all_rule_names-rule_uses :
      (js : List Json) (names : List String)
      → all_rule_names js ≡ returns names
      → mem k names ≡ any (rule_uses k) js
  unfolding all_rule_names
  all_rule_names-rule_uses [] names h = none_named names h
  all_rule_names-rule_uses (j ∷ js) names h =
      let (first, f, h1) = >>=-eq-returns (rule_names j) _ h in
      let (more, m, h2) = >>=-eq-returns (all_rule_names js) _ h1 in
      let same : first ++ more ≡ names = cc in
      ap (mem k) (sym same)
      ∙ ground (
        arith,
        mem-append first more,
        rule_names-rule_uses j first f,
        all_rule_names-rule_uses js more m,
      )

  -- The names that the loop collects are those of the lists to which the rules refer.
  pub rules_names-rules_use :
      (o : Option Json) (names : List String)
      → rules_names o ≡ returns names
      → mem k names ≡ rules_use k o
  rules_names-rules_use (some (arr xs)) names h = all_rule_names-rule_uses (elems xs) names h
  rules_names-rules_use none names h = cc
  rules_names-rules_use (some null) names h = cc
  rules_names-rules_use (some (bool _)) names h = cc
  rules_names-rules_use (some (num _)) names h = cc
  rules_names-rules_use (some (text _)) names h = cc
  rules_names-rules_use (some (obj _)) names h = cc
