-- ===== src/As3/Patch/Deletion.antt =====
-- Deletions by the way of JSON patches.
use container_egress_service.Prelude.{
  String, ◌≡◌, refl, sym, ◌∙◌, Bool, true, false, inl, inr, Option, none, some, List, [], ◌==◌,
  Bool-cases, if◌then◌else◌,
}
use container_egress_service.Prelude.Outcome.{
  returns, each, returns-injective, >>=-eq-returns, each-keeps,
}
use container_egress_service.Prelude.GoMap.{GoMap, lookup}
use container_egress_service.Json.{Json, null, bool, num, text, arr, obj, Fields}
use container_egress_service.As3.Config.{Registry}
use container_egress_service.As3.Attrs.{get_all_deny_rule_list_attr}
use container_egress_service.As3.Environment.{Environment}
use container_egress_service.As3.Tenant.{As3Tenant, get_as3_shared_app}
use container_egress_service.As3.Merge.{skip_delete_share_application_class_or_attr}
use container_egress_service.As3.Client.{Client}
use container_egress_service.Io.{World, Effect, done}
use container_egress_service.As3.Patch.{
  PatchBody, object_items, found_items, patch_entry, partition_items, patch_resouce, patch_request,
}

module _ (r : Registry) (env : Environment) (partition : String) where
  if_same :
      (b : Bool) (body body' : PatchBody)
      → (if b then returns body else returns body) ≡ returns body'
      → body ≡ body'
  if_same true body body' e = returns-injective e
  if_same false body body' e = returns-injective e

  object_items-delete :
      (body body' : PatchBody) (key : String) (delta : Json) (child : Fields)
      → object_items r env partition true body key delta child ≡ returns body'
      → body ≡ body'
  object_items-delete body body' key delta child e =
      elim (Bool-cases (key == get_all_deny_rule_list_attr r)) [
        | inl deny ↦ returns-injective (rw deny at e)
        | inr other ↦
            let (skip, got, e1) =
              >>=-eq-returns (skip_delete_share_application_class_or_attr r env partition key)
                (λ b. if b then returns body else returns body) (rw other at e) in
            if_same skip body body' e1
      ]

  found_items-delete :
      (body body' : PatchBody) (key : String) (delta : Json) (found : Option Json)
      → found_items r env partition true body key delta found ≡ returns body'
      → body ≡ body'
  found_items-delete body body' key delta none e = returns-injective e
  found_items-delete body body' key delta (some (obj child)) e =
      object_items-delete body body' key delta child e
  found_items-delete body body' key delta (some null) e = returns-injective e
  found_items-delete body body' key delta (some (bool _)) e = returns-injective e
  found_items-delete body body' key delta (some (num _)) e = returns-injective e
  found_items-delete body body' key delta (some (text _)) e = returns-injective e
  found_items-delete body body' key delta (some (arr _)) e = returns-injective e

  patch_entry-delete :
      (src_app : GoMap Json) (body body' : PatchBody) (entry : String × Json)
      → patch_entry r env partition true src_app body entry ≡ returns body'
      → body ≡ []
      → body' ≡ []
  unfolding patch_entry
  patch_entry-delete src_app body body' (key, delta) e empty =
      sym (found_items-delete body body' key delta (lookup key src_app) e) ∙ empty

  partition_items-delete :
      (delta_adc : GoMap As3Tenant) (src : Option (GoMap Json)) (items : PatchBody)
      → partition_items r env partition true delta_adc src ≡ returns (some items)
      → items ≡ []
  partition_items-delete delta_adc none items e =
      let q : none ≡ some items = returns-injective e in cc
  partition_items-delete delta_adc (some src) items e =
      let (made, looped, e1) =
        >>=-eq-returns (each (patch_entry r env partition true _) [] _) _ e in
      let q : some made ≡ some items = returns-injective e1 in
      let same : made ≡ items = cc in
      sym same
      ∙ each-keeps (λ s. s ≡ []) (patch_entry r env partition true _)
          (λ s s' a. patch_entry-delete _ s s' a) _ [] made looped refl

  -- A deletion by patches sends no request, whatever is on BIG-IP and whatever is to be deleted:
  -- the list of patches is always empty.
  pub patch_resouce-delete :
      (w : World) (c : Client) (src_adc : GoMap Json) (delta_adc : GoMap As3Tenant)
      (items : PatchBody)
      → patch_resouce r env partition true src_adc delta_adc ≡ returns (some items)
      → (s : List Effect) → patch_request w env c items s ≡ (done tt, s)
  unfolding patch_resouce patch_request
  patch_resouce-delete w c src_adc delta_adc items e s =
      rw (partition_items-delete delta_adc (get_as3_shared_app src_adc partition) items e) refl
