-- ===== src/Controller/Update/Changes.antt =====
-- Which changes of a rule, an external service or endpoints `isUpdate` passes on.
use mathlib.Core.Path.{ap₂}
use container_egress_service.Prelude.{
  ◌↔◌, sym, refl, ◌∷◌, List, [], ◌==◌, ◌&&◌, Bool, true, false, String, ◌≡◌, true, false, ◌&&◌,
  ◌==◌, bool_eq, eq_iff, arith,
}
use container_egress_service.Kube.{ClusterEgressRule, NamespaceEgressRule, ServiceEgressRule}
use container_egress_service.As3.Config.{Registry}
use container_egress_service.Controller.Update.{
  Change, cluster_rules, namespace_rules, service_rules, external_services, endpoints, is_watched,
  is_update, texts_equal,
}

-- the versions before and after
abbrev pub old_version : Change → String
old_version (cluster_rules old new) = old.resource_version
old_version (namespace_rules old new) = old.resource_version
old_version (service_rules old new) = old.resource_version
old_version (external_services old new) = old.resource_version
old_version (endpoints old new) = old.resource_version

abbrev pub new_version : Change → String
new_version (cluster_rules old new) = new.resource_version
new_version (namespace_rules old new) = new.resource_version
new_version (service_rules old new) = new.resource_version
new_version (external_services old new) = new.resource_version
new_version (endpoints old new) = new.resource_version

texts_equal-eq : (xs ys : List String) → texts_equal xs ys ≡ true → xs ≡ ys
texts_equal-eq [] [] h = refl
texts_equal-eq [] (y ∷ ys) h = ground arith
texts_equal-eq (x ∷ xs) [] h = ground arith
texts_equal-eq (x ∷ xs) (y ∷ ys) h =
    ap₂ (λ t ts. t ∷ ts) ((eq_iff x y).0 (ground arith)) (texts_equal-eq xs ys (ground arith))

texts_equal_refl : (xs : List String) → texts_equal xs xs ≡ true
texts_equal_refl [] = refl
texts_equal_refl (x ∷ xs) = ground (arith, eq_iff x x, texts_equal_refl xs)

bool_eq-eq : (a b : Bool) → bool_eq a b ≡ true → a ≡ b
bool_eq-eq true true h = refl
bool_eq-eq true false h = sym h
bool_eq-eq false true h = h
bool_eq-eq false false h = refl

bool_eq_refl : (a : Bool) → bool_eq a a ≡ true
bool_eq_refl true = refl
bool_eq_refl false = refl

-- the part of a rule that `isUpdate` compares
abbrev same_spec : String → String → Bool → Bool → List String → List String → Bool
same_spec a b l m xs ys = (a == b) && bool_eq l m && texts_equal xs ys

same_spec-eq :
    (a b : String) (l m : Bool) (xs ys : List String)
    → (same_spec a b l m xs ys ≡ true) ↔ ((a ≡ b) × (l ≡ m) × (xs ≡ ys))
same_spec-eq a b l m xs ys = (
  λ h. (
    (eq_iff a b).0 (ground arith),
    bool_eq-eq l m (ground arith),
    texts_equal-eq xs ys (ground arith),
  ),
  λ (e, f, g). rw (e, f, g) (ground (arith, eq_iff b b, bool_eq_refl m, texts_equal_refl ys)),
)

module _ (r : Registry) where
  -- A new version of a cluster rule is held back exactly if it has the action, the logging and the
  -- external services of the old one.
  pub is_update-cluster_rules :
      (old new : ClusterEgressRule)
      → (old.resource_version == new.resource_version) ≡ false
      → (is_update r (cluster_rules old new) ≡ false) ↔ (
          (old.action ≡ new.action)
          × (old.logging ≡ new.logging)
          × (old.external_services ≡ new.external_services))
  unfolding is_update
  is_update-cluster_rules old new v =
      let (to, from) =
        same_spec-eq old.action new.action old.logging new.logging old.external_services
          new.external_services in
      (λ h. to (ground arith), λ same. let e = from same in ground arith)

  -- A new version of a rule of a namespace that a tenant watches is held back exactly if it has the
  -- action, the logging and the external services of the old one.
  pub is_update-namespace_rules :
      (old new : NamespaceEgressRule)
      → is_watched r old.namespace ≡ true
      → (old.resource_version == new.resource_version) ≡ false
      → (is_update r (namespace_rules old new) ≡ false) ↔ (
          (old.action ≡ new.action)
          × (old.logging ≡ new.logging)
          × (old.external_services ≡ new.external_services))
  unfolding is_update
  is_update-namespace_rules old new watched v =
      let (to, from) =
        same_spec-eq old.action new.action old.logging new.logging old.external_services
          new.external_services in
      (λ h. to (ground arith), λ same. let e = from same in ground arith)

  -- A new version of a service rule with the same action, logging and external services is never
  -- passed on, whatever service it names.
  pub is_update-service_rules :
      (old new : ServiceEgressRule)
      → (old.action == new.action) ≡ true
      → bool_eq old.logging new.logging ≡ true
      → texts_equal old.external_services new.external_services ≡ true
      → is_update r (service_rules old new) ≡ false
  unfolding is_update
  is_update-service_rules old new action logging services =
      ground (arith, eq_iff old.service old.service)

  -- A change that is passed on is one to a new version, whatever the object is.
  pub is_update-version :
      (c : Change) → is_update r c ≡ true → (old_version c == new_version c) ≡ false
  unfolding is_update
  is_update-version (cluster_rules old new) h = ground arith
  is_update-version (namespace_rules old new) h = ground arith
  is_update-version (service_rules old new) h = ground arith
  is_update-version (external_services old new) h = ground arith
  is_update-version (endpoints old new) h = ground arith
