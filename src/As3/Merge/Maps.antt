-- ===== src/As3/Merge/Maps.antt =====
-- The loop of `fullResource` of pkg/as3/utils.go keeps the application a map: no key stands twice.
use container_egress_service.Prelude.{
  String, ◌≡◌, Bool, true, false, inl, inr, Option, none, some, ◌==◌, Bool-cases, if◌then◌else◌,
}
use mathlib.Core.Path.{subst}
use container_egress_service.Prelude.Outcome.{returns, ◌>>=◌, each, >>=-eq-returns, each-keeps}
use container_egress_service.Prelude.GoMap.{
  GoMap, lookup, insert, IsMap, insert-IsMap, delete-IsMap,
}
use container_egress_service.Json.{Json, obj, Fields, field?}
use container_egress_service.As3.Types.{class_firewall_policy}
use container_egress_service.As3.Config.{Registry}
use container_egress_service.As3.Environment.{Environment}
use container_egress_service.As3.Merge.{as_text, is_skipped, merge_object, merge_found, merge_entry}
use container_egress_service.As3.Merge.Entries.{class_map}

module _ (r : Registry) (env : Environment) (partition : String) (is_delete : Bool) where
  carried : (t app' : GoMap Json) → returns t ≡ returns app' → IsMap t → IsMap app'
  carried t app' e h = let same : t ≡ app' = cc in subst IsMap same h

  class_map-IsMap :
      (key : String) (d : Json) (child : Fields) (class : String) (app : GoMap Json)
      → IsMap app
      → IsMap (class_map r env partition is_delete key d child class app)
  class_map-IsMap key d child class app h = elim (Bool-cases (class == class_firewall_policy)) [
    | inl is_policy ↦ rw is_policy (insert-IsMap key _ app h)
    | inr e ↦ elim (Bool-cases is_delete) [
      | inl del ↦ rw (e, del) (delete-IsMap key app h)
      | inr add ↦ rw (e, add) (insert-IsMap key d app h)
    ]
  ]

  object-IsMap :
      (key : String) (d : Json) (child : Fields) (app app' : GoMap Json)
      → merge_object r env partition is_delete app key d child ≡ returns app'
      → IsMap app
      → IsMap app'
  object-IsMap key d child app app' e h =
      let (skip, skipped, rest) = >>=-eq-returns (is_skipped r env partition is_delete key) _ e in
      after_skip skip rest
    where
      after_skip :
          (skip : Bool)
          → (if skip
              then returns app
              else (as_text (field? "class" child) >>= λ class.
                  returns (class_map r env partition is_delete key d child class app)))
            ≡ returns app'
          → IsMap app'
      after_skip true rest = carried app app' rest h
      after_skip false rest =
          let (class, is_class, last) = >>=-eq-returns (as_text (field? "class" child)) _ rest in
          carried _ app' last (class_map-IsMap key d child class app h)

  found-IsMap :
      (key : String) (d : Json) (old : Option Json) (app app' : GoMap Json)
      → merge_found r env partition is_delete app key d old ≡ returns app'
      → IsMap app
      → IsMap app'
  found-IsMap key d none app app' e h = elim (Bool-cases is_delete) [
    | inl del ↦ carried app app' (rw del at e) h
    | inr add ↦ carried (insert key d app) app' (rw add at e) (insert-IsMap key d app h)
  ]
  found-IsMap key d (some (obj child)) app app' e h = object-IsMap key d child app app' e h
  found-IsMap key d (some v) app app' e h = carried app app' e h

  entry-IsMap :
      (app app' : GoMap Json) (e : String × Json)
      → merge_entry r env partition is_delete app e ≡ returns app'
      → IsMap app
      → IsMap app'
  unfolding merge_entry
  entry-IsMap app app' (key, d) e h = found-IsMap key d (lookup key app) app app' e h

  -- The merged application is a map again.
  pub each-merge_entry-IsMap :
      (app delta out : GoMap Json)
      → each (merge_entry r env partition is_delete) app delta ≡ returns out
      → IsMap app
      → IsMap out
  each-merge_entry-IsMap app delta out e h =
      each-keeps IsMap (merge_entry r env partition is_delete) entry-IsMap delta app out e h
