-- ===== src/As3/Merge/Entries.antt =====
-- The loop of `fullResource` of pkg/as3/utils.go over the generated application, key by key.
use container_egress_service.Prelude.{
  String, ◌≡◌, refl, sym, ◌∙◌, ap, Bool, true, false, inl, inr, Option, none, some, [], ◌∷◌, arith,
  eq_iff, ◌==◌, Bool-cases, if◌then◌else◌,
}
use mathlib.Core.Path.{subst}
use container_egress_service.Prelude.Outcome.{Outcome, returns, ◌>>=◌, each, >>=-eq-returns}
use container_egress_service.Prelude.GoMap.{
  GoMap, lookup, insert, delete, lookup-insert, lookup-delete, IsMap, lookup_first,
}
use container_egress_service.Json.{Json, obj, Fields, field?}
use container_egress_service.As3.Types.{class_firewall_policy}
use container_egress_service.As3.Config.{Registry}
use container_egress_service.As3.Environment.{Environment}
use container_egress_service.As3.Merge.Policy.{policy_merge_full_json}
use container_egress_service.As3.Merge.{
  as_text, is_skipped, replace_entry, merge_object, merge_found, merge_entry,
}

-- what one round does: `key` gets a value, and no other key is touched
record Becomes (key : String) (o : Option Json) (app app' : GoMap Json) : Type 0 where
  here : lookup key app' ≡ o
  there : (k : String) → (key == k) ≡ false → lookup k app' ≡ lookup k app

insert-Becomes :
    (key : String) (v : Json) (app : GoMap Json) → Becomes key (some v) app (insert key v app)
insert-Becomes key v app = record {
  here = ground (arith, lookup-insert key key v app, eq_iff key key);
  there = λ k e. ground (arith, lookup-insert key k v app);
}

delete-Becomes : (key : String) (app : GoMap Json) → Becomes key none app (delete key app)
delete-Becomes key app = record {
  here = ground (arith, lookup-delete key key app, eq_iff key key);
  there = λ k e. ground (arith, lookup-delete key k app);
}

same-Becomes : (key : String) (app : GoMap Json) → Becomes key (lookup key app) app app
same-Becomes key app = record { here = refl; there = λ k e. refl }

-- the round returned `t`, which is `app'`
ended :
    (key : String) (o : Option Json) (app t app' : GoMap Json)
    → returns t ≡ returns app'
    → Becomes key o app t
    → Becomes key o app app'
ended key o app t app' e b = let same : t ≡ app' = cc in subst (Becomes key o app) same b

module _ (r : Registry) (env : Environment) (partition : String) (is_delete : Bool) where
  -- What becomes of an entry of BIG-IP that is an object, when the request has `d` under its key: a
  -- policy is merged, anything else is replaced or deleted.
  abbrev pub object_value : String → Json → Fields → Outcome (Option Json)
  object_value key d child = do
    skip ← is_skipped r env partition is_delete key
    if skip then returns (some (obj child)) else do
      class ← as_text (field? "class" child)
      returns (
          if class == class_firewall_policy
          then some (policy_merge_full_json r (obj child) d is_delete)
          else if is_delete
          then none
          else some d)

  -- What becomes of what BIG-IP has under a key of the request.
  abbrev pub merged_value : String → Json → Option Json → Outcome (Option Json)
  merged_value key d none = returns (if is_delete then none else some d)
  merged_value key d (some (obj child)) = object_value key d child
  merged_value key d (some v) = returns (some v)

  abbrev Merged : String → Json → Option Json → GoMap Json → GoMap Json → Type 0
  Merged key d old app app' =
      (o : Option Json) × (merged_value key d old ≡ returns o) × Becomes key o app app'

  abbrev class_value : String → Json → Fields → String → Option Json
  class_value key d child class =
      if class == class_firewall_policy
      then some (policy_merge_full_json r (obj child) d is_delete)
      else if is_delete
      then none
      else some d

  abbrev pub class_map : String → Json → Fields → String → GoMap Json → GoMap Json
  class_map key d child class app =
      if class == class_firewall_policy
      then insert key (policy_merge_full_json r (obj child) d is_delete) app
      else replace_entry r env partition is_delete app key d

  class-Becomes :
      (key : String) (d : Json) (child : Fields) (class : String) (app : GoMap Json)
      → Becomes key (class_value key d child class) app (class_map key d child class app)
  class-Becomes key d child class app = elim (Bool-cases (class == class_firewall_policy)) [
    | inl is_policy ↦
        rw is_policy (insert-Becomes key (policy_merge_full_json r (obj child) d is_delete) app)
    | inr e ↦ elim (Bool-cases is_delete) [
      | inl del ↦ rw (e, del) (delete-Becomes key app)
      | inr add ↦ rw (e, add) (insert-Becomes key d app)
    ]
  ]

  object-Merged :
      (key : String) (d : Json) (child : Fields) (app app' : GoMap Json)
      → lookup key app ≡ some (obj child)
      → merge_object r env partition is_delete app key d child ≡ returns app'
      → Merged key d (some (obj child)) app app'
  object-Merged key d child app app' e h =
      let (skip, skipped, rest) = >>=-eq-returns (is_skipped r env partition is_delete key) _ h in
      rw skipped (after_skip skip rest)
    where
      after_skip :
          (skip : Bool)
          → (if skip
              then returns app
              else (as_text (field? "class" child) >>= λ class.
                  returns (class_map key d child class app)))
            ≡ returns app'
          → (o : Option Json) × ((if skip
                then returns (some (obj child))
                else (as_text (field? "class" child) >>= λ class.
                    returns (class_value key d child class)))
              ≡ returns o)
            × Becomes key o app app'
      after_skip true rest =
          (some (obj child), refl, ended key _ app app app' rest (rw e at (same-Becomes key app)))
      after_skip false rest =
          let (class, is_class, last) = >>=-eq-returns (as_text (field? "class" child)) _ rest in
          (
            class_value key d child class,
            rw is_class refl,
            ended key _ app (class_map key d child class app) app' last
                (class-Becomes key d child class app),
          )

  found-Merged :
      (key : String) (d : Json) (old : Option Json) (app app' : GoMap Json)
      → lookup key app ≡ old
      → merge_found r env partition is_delete app key d old ≡ returns app'
      → Merged key d old app app'
  found-Merged key d none app app' e h = elim (Bool-cases is_delete) [
    | inl del ↦
        rw del (none, refl, ended key _ app app app' (rw del at h) (rw e at (same-Becomes key app)))
    | inr add ↦ rw add (
      some d,
      refl,
      ended key _ app (insert key d app) app' (rw add at h) (insert-Becomes key d app),
    )
  ]
  found-Merged key d (some (obj child)) app app' e h = object-Merged key d child app app' e h
  found-Merged key d (some v) app app' e h =
      (some v, refl, ended key _ app app app' h (rw e at (same-Becomes key app)))

  -- The loop over a map `delta`, at one key.
  abbrev pub merged_by : String → Option Json → Option Json → Outcome (Option Json)
  merged_by k none old = returns old
  merged_by k (some d) old = merged_value k d old

  first_round :
      (j k : String) (d : Json) (app t out : GoMap Json)
      → j ≡ k
      → Merged j d (lookup j app) app t
      → lookup k t ≡ lookup k out
      → merged_value k d (lookup k app) ≡ returns (lookup k out)
  first_round j k d app t out e m same =
      subst
        (λ i. lookup i t ≡ lookup i out → merged_value i d (lookup i app) ≡ returns (lookup i out))
        e (λ ends. m.1 ∙ ap returns (sym m.2.here ∙ ends)) same

  later_round :
      (k : String) (o : Option Json) (app t out : GoMap Json)
      → lookup k t ≡ lookup k app
      → merged_by k o (lookup k t) ≡ returns (lookup k out)
      → merged_by k o (lookup k app) ≡ returns (lookup k out)
  later_round k o app t out e h = subst (λ old. merged_by k o old ≡ returns (lookup k out)) e h

  -- If the loop over the generated application returns, then under every key stands what the rule
  -- for one key gives: the entry of BIG-IP where the request has no such key, and else the added,
  -- replaced, merged or deleted entry. The order of the loop does not show.
  pub lookup-each-merge_entry :
      (k : String) (app delta out : GoMap Json)
      → IsMap delta
      → each (merge_entry r env partition is_delete) app delta ≡ returns out
      → merged_by k (lookup k delta) (lookup k app) ≡ returns (lookup k out)
  unfolding each lookup merge_entry
  lookup-each-merge_entry k app [] out h e =
      let same : app ≡ out = cc in ap (λ m. returns (lookup k m)) same
  lookup-each-merge_entry k app ((j, d) ∷ delta) out h e =
      let (t, first, rest) =
        >>=-eq-returns (merge_entry r env partition is_delete app (j, d))
          (λ u. each (merge_entry r env partition is_delete) u delta) e in
      let m = found-Merged j d (lookup j app) app t refl first in
      let ih = lookup-each-merge_entry k t delta out h.1 rest in
      elim (Bool-cases (j == k)) [
        | inl hit ↦
            let (_, absent) = lookup_first k j d delta h.0 hit in
            let kept : lookup k t ≡ lookup k out =
              let e' : returns (lookup k t) ≡ returns (lookup k out) = rw absent at ih in cc in
            rw hit (first_round j k d app t out ((eq_iff j k).0 hit) m kept)
        | inr miss ↦ rw miss (later_round k (lookup k delta) app t out (m.2.there k miss) ih)
      ]

  -- Two orders of the generated application give the same entries: if the loop returns for two maps
  -- with the same entries, then its results have the same entries.
  pub each-merge_entry-order :
      (app delta delta' out out' : GoMap Json)
      → IsMap delta
      → IsMap delta'
      → ((k : String) → lookup k delta ≡ lookup k delta')
      → each (merge_entry r env partition is_delete) app delta ≡ returns out
      → each (merge_entry r env partition is_delete) app delta' ≡ returns out'
      → (k : String) → lookup k out ≡ lookup k out'
  each-merge_entry-order app delta delta' out out' h h' same e e' k =
      let first = lookup-each-merge_entry k app delta out h e in
      let second = lookup-each-merge_entry k app delta' out' h' e' in cc (first, second, same k)
