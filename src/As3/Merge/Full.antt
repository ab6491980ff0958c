-- ===== src/As3/Merge/Full.antt =====
-- `fullResource` of pkg/as3/utils.go as a whole: what is sent, and when nothing is.
use container_egress_service.Prelude.{
  String, ◌≡◌, ◌≢◌, refl, sym, ◌∙◌, ap, Bool, true, false, not, inl, inr, Option, none, some, [],
  ◌∷◌, ◌&&◌, ◌||◌, ◌==◌, eq_iff, any, arith, Bool-cases, if◌then◌else◌,
}
use mathlib.Core.Path.{ap₂, subst₂}
use container_egress_service.Prelude.Outcome.{Outcome, returns, ◌>>=◌, each, >>=-eq-returns}
use container_egress_service.Prelude.GoMap.{GoMap, lookup, IsMap}
use container_egress_service.Json.{Json, entries-fields, object, deep_equal}
use container_egress_service.As3.Config.{Registry}
use container_egress_service.As3.Environment.{Environment, decoded, validate_json_value}
use container_egress_service.As3.Resource.{App, encode_app}
use container_egress_service.As3.Tenant.{As3Tenant, own_shared_app, get_as3_shared_app}
use container_egress_service.As3.Declaration.{new_as3_obj}
use container_egress_service.As3.Merge.{
  is_changed, is_diff_decoded, is_diff, merge_entry, merge_decoded, full_application, full_resource,
}
use container_egress_service.As3.Merge.Cleanup.{clear_up_unreference_policy}
use container_egress_service.As3.Merge.Unreferenced.{kept, lookup-clear_up}
use container_egress_service.As3.Merge.Entries.{merged_by, lookup-each-merge_entry}
use container_egress_service.As3.Merge.Maps.{each-merge_entry-IsMap}

-- the value of BIG-IP is there and is equal
abbrev pub same_value : Json → Option Json → Bool
same_value v none = false
same_value v (some w) = deep_equal v w

-- an entry, if there is one, is on BIG-IP with an equal value
abbrev pub still_there : Option Json → Option Json → Bool
still_there none old = true
still_there (some v) old = same_value v old

decode-object : (m : GoMap Json) → validate_json_value (object m) ≡ decoded m
unfolding validate_json_value
decode-object m = ap decoded (entries-fields m)

pub is_diff-object :
    (old new : GoMap Json) → is_diff (object old) (object new) ≡ any (is_changed old) new
unfolding is_diff
is_diff-object old new = ap₂ is_diff_decoded (decode-object old) (decode-object new)

module _ (r : Registry) (env : Environment) (partition : String) (is_delete : Bool)
    (src_adc : GoMap Json) (delta_adc : GoMap As3Tenant) where
  -- the two applications that are merged: that of BIG-IP and the generated one
  pub record Inputs (app : GoMap Json) (delta : App) : Type 0 where
    pub src : get_as3_shared_app src_adc partition ≡ some app
    pub own : own_shared_app delta_adc partition ≡ some delta
    pub src_map : IsMap app
    pub delta_map : IsMap (encode_app delta)

  full_resource-merge :
      (app : GoMap Json) (delta : App)
      → Inputs app delta
      → full_resource r env partition is_delete src_adc delta_adc
        ≡ merge_decoded r env partition is_delete src_adc
            (object app)
            (decoded app)
            (decoded (encode_app delta))
  unfolding full_resource
  full_resource-merge app delta i =
      ap₂ (full_application r env partition is_delete src_adc) i.src i.own
      ∙ ap₂ (merge_decoded r env partition is_delete src_adc (object app)) (decode-object app)
          (decode-object (encode_app delta))

  -- What a request that is sent stands for: the application of BIG-IP, merged and cleaned up.
  pub record Sent (app : GoMap Json) (delta : App) (body : Json) : Type 0 where
    pub merged : GoMap Json
    pub cleaned : GoMap Json
    pub merge :
        (k : String)
        → merged_by r env partition is_delete k (lookup k (encode_app delta)) (lookup k app)
          ≡ returns (lookup k merged)
    pub clean : (k : String) → lookup k cleaned ≡ kept r merged k (lookup k merged)
    pub wrapped : new_as3_obj r partition (object cleaned) ≡ returns body
    pub worth : (is_diff (object app) (object cleaned) || is_delete) ≡ true

  -- the end of the function, once the clean-up is done
  abbrev ending : GoMap Json → GoMap Json → Outcome (Option Json)
  ending app cleaned =
      if not (is_diff (object app) (object cleaned)) && not is_delete
      then returns none
      else (do body ← new_as3_obj r partition (object cleaned); returns (some body))

  ending-none : (app cleaned : GoMap Json) → is_delete ≡ true → ending app cleaned ≢ returns none
  ending-none app cleaned del e =
      elim (Bool-cases (not (is_diff (object app) (object cleaned)) && not is_delete)) [
        | inl quiet ↦ ground arith
        | inr loud ↦
            let (b, made, last) =
              >>=-eq-returns (new_as3_obj r partition (object cleaned)) (λ b. returns (some b))
                (rw loud at e) in
            cc
      ]

  -- A deletion from a partition that BIG-IP has is always sent, if the function returns.
  pub full_resource-delete :
      (app : GoMap Json) (delta : App)
      → Inputs app delta
      → is_delete ≡ true
      → full_resource r env partition is_delete src_adc delta_adc ≢ returns none
  full_resource-delete app delta i del e =
      let (merged, merging, rest) =
        >>=-eq-returns (each (merge_entry r env partition is_delete) app (encode_app delta)) _
          (sym (full_resource-merge app delta i) ∙ e) in
      let (cleaned, cleaning, last) =
        >>=-eq-returns (clear_up_unreference_policy r merged) (ending app) rest in
      ending-none app cleaned del last

  same_of_unchanged :
      (old : GoMap Json) (k : String) (v : Json)
      → is_changed old (k, v) ≡ false
      → same_value v (lookup k old) ≡ true
  same_of_unchanged old k v h = ground arith

  unchanged_entry :
      (old new : GoMap Json) (k : String) (v : Json)
      → any (is_changed old) new ≡ false
      → lookup k new ≡ some v
      → same_value v (lookup k old) ≡ true
  unfolding lookup
  unchanged_entry old [] k v h e = cc
  unchanged_entry old ((j, w) ∷ new) k v h e = elim (Bool-cases (j == k)) [
    | inl hit ↦
        let same : some w ≡ some v = rw hit at e in
        let value : w ≡ v = cc in
        let key : j ≡ k = (eq_iff j k).0 hit in
        subst₂ (λ i x. same_value x (lookup i old) ≡ true) key value
          (same_of_unchanged old j w (ground arith))
    | inr miss ↦ unchanged_entry old new k v (ground arith) (rw miss at e)
  ]

  all_there :
      (old new : GoMap Json) (k : String) (o : Option Json)
      → any (is_changed old) new ≡ false
      → lookup k new ≡ o
      → still_there o (lookup k old) ≡ true
  all_there old new k none h e = refl
  all_there old new k (some v) h e = unchanged_entry old new k v h e

  ending-quiet :
      (app cleaned : GoMap Json)
      → ending app cleaned ≡ returns none
      → is_diff (object app) (object cleaned) ≡ false
  ending-quiet app cleaned e =
      elim (Bool-cases (not (is_diff (object app) (object cleaned)) && not is_delete)) [
        | inl quiet ↦ ground arith
        | inr loud ↦
            let (b, made, last) =
              >>=-eq-returns (new_as3_obj r partition (object cleaned)) (λ b. returns (some b))
                (rw loud at e) in
            cc
      ]

  -- Nothing is sent about a partition that BIG-IP has only if each entry that would be sent, merged
  -- and cleaned up, stands on BIG-IP already, with an equal value.
  pub full_resource-quiet :
      (app : GoMap Json) (delta : App)
      → Inputs app delta
      → full_resource r env partition is_delete src_adc delta_adc ≡ returns none
      → (merged : GoMap Json) × ((k : String)
          → merged_by r env partition is_delete k (lookup k (encode_app delta)) (lookup k app)
            ≡ returns (lookup k merged))
        × ((k : String) → still_there (kept r merged k (lookup k merged)) (lookup k app) ≡ true)
  full_resource-quiet app delta i e =
      let (merged, merging, rest) =
        >>=-eq-returns (each (merge_entry r env partition is_delete) app (encode_app delta)) _
          (sym (full_resource-merge app delta i) ∙ e) in
      let (cleaned, cleaning, last) =
        >>=-eq-returns (clear_up_unreference_policy r merged) (ending app) rest in
      let merged_map =
        each-merge_entry-IsMap r env partition is_delete app (encode_app delta) merged merging
          i.src_map in
      (
        merged,
        λ k.
            lookup-each-merge_entry r env partition is_delete k app (encode_app delta) merged
              i.delta_map merging,
        λ k. rw (← lookup-clear_up r k merged cleaned merged_map cleaning) (
            all_there app cleaned k (lookup k cleaned)
              (sym (is_diff-object app cleaned) ∙ ending-quiet app cleaned last) refl),
      )
