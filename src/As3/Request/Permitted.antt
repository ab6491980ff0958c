-- ===== src/As3/Request/Permitted.antt =====
-- The requests that a synchronisation of a partition sends.
use container_egress_service.Prelude.{
  String, ◌≡◌, refl, Bool, true, false, Bool-cases, inl, inr, Option, none, some, [], ◌∷◌, ◌==◌,
  if◌then◌else◌,
}
use container_egress_service.Prelude.GoMap.{lookup}
use container_egress_service.Prelude.Text.{◌⊕◌}
use container_egress_service.Json.{Json, text, object}
use container_egress_service.As3.Types.{TenantConfig, rule_type_global, rule_type_namespace}
use container_egress_service.As3.Config.{Registry}
use container_egress_service.As3.Environment.{
  Environment, Decoded, failed, nil_map, decoded, validate_json_text,
}
use container_egress_service.As3.Rules.{As3Post}
use container_egress_service.As3.Declaration.{generate_as3_resource_declaration}
use container_egress_service.As3.Merge.{full_resource}
use container_egress_service.As3.Client.{
  Client, get_partition, post_declaration, get_f5_resource, patch_f5_reource, store_disk,
}
use container_egress_service.As3.Client.Requests.{Emits-call, Emits-discard, Emits-get_partition}
use container_egress_service.As3.Request.{
  source_adc, is_enforced, enforce, enforce_policy, send_body, as3_request,
}
use container_egress_service.Io.{get, post, patch, Effect, http, World, ◌>>◌, pure, lift}
use container_egress_service.Io.Traces.{Emits, nothing_added, Emits-lift, Emits->>=}

-- the object of BIG-IP that names the policy which is in force for the rules of a type
abbrev pub enforced_at : TenantConfig → String → Option String
enforced_at tenant ty =
    if ty == rule_type_global
    then some "/mgmt/tm/security/firewall/global-rules"
    else if ty == rule_type_namespace
    then some ("/mgmt/tm/net/route-domain/~" ⊕ (tenant.name ⊕ ("~" ⊕ tenant.route_domain.name)))
    else none

-- A synchronisation reads and declares its own partition, and changes nothing else but the object
-- that names the policy, if its type of rules has one; then it saves the configuration.
pub data Permitted (c : Client) (tenant : TenantConfig) (ty : String) : Effect → Type 0 where
  reads :
      Permitted c tenant ty (http (record { method = get; url = c.url ⊕ tenant.name; body = none }))
  declares :
      (body : Json)
      → Permitted c tenant ty (
          http (record {
            method = post;
            url = c.host ⊕ ("/mgmt/shared/appsvcs/declare/" ⊕ tenant.name);
            body = some body;
          }))
  asks_policy :
      (url : String)
      → enforced_at tenant ty ≡ some url
      → Permitted c tenant ty (http (record { method = get; url = c.host ⊕ url; body = none }))
  sets_policy :
      (url : String) (body : Json)
      → enforced_at tenant ty ≡ some url
      → Permitted c tenant ty
          (http (record { method = patch; url = c.host ⊕ url; body = some body }))
  saves :
      (url : String)
      → enforced_at tenant ty ≡ some url
      → Permitted c tenant ty (
          http (record {
            method = post;
            url = c.host ⊕ "/mgmt/tm/sys/config";
            body = some (object (("command", text "save") ∷ []));
          }))

module _ (r : Registry) (env : Environment) (w : World) (c : Client) (tenant : TenantConfig)
    (ty : String) where
  abbrev P : Effect → Type 0
  P = Permitted c tenant ty

  Emits-enforce :
      (key path url : String)
      → enforced_at tenant ty ≡ some url
      → Emits P (enforce r env w c key path url)
  unfolding enforce get_f5_resource patch_f5_reource store_disk
  Emits-enforce key path url h =
      Emits->>= P (get_f5_resource w env c url) _ (Emits-call w env P _ (asks_policy url h))
        λ response.
          Emits->>= P (is_enforced r env w c path (lookup key response)) _
            (asking (lookup key response)) λ is_exist. setting is_exist
    where
      asking : (j : Option Json) → Emits P (is_enforced r env w c path j)
      asking none = λ s. nothing_added P s
      asking (some (text t)) = λ s. nothing_added P s
      asking (some _) = λ s. nothing_added P s

      setting :
          (is_exist : Bool)
          → Emits P (
              if is_exist then pure tt else do
                patch_f5_reource w env c (object ((key, text path) ∷ [])) url
                store_disk w env c)
      setting true = λ s. nothing_added P s
      setting false =
          Emits->>= P (patch_f5_reource w env c _ url) _
            (Emits-discard w env P _ (sets_policy url _ h))
            λ ok. Emits-discard w env P _ (saves url h)

  Emits-enforce_policy : Emits P (enforce_policy r env w c tenant ty)
  unfolding enforce_policy
  Emits-enforce_policy = elim (Bool-cases (ty == rule_type_global)) [
    | inl global ↦ rw global (Emits-enforce _ _ _ (rw global refl))
    | inr e ↦ elim (Bool-cases (ty == rule_type_namespace)) [
      | inl ns ↦ rw (e, ns) (Emits-enforce _ _ _ (rw (e, ns) refl))
      | inr f ↦ rw (e, f) (λ s. nothing_added P s)
    ]
  ]

  Emits-send_body : (body : Option Json) → Emits P (send_body r env w c tenant ty body)
  unfolding post_declaration
  Emits-send_body none s = nothing_added P s
  Emits-send_body (some body) s =
      Emits->>= P (post_declaration w env c body tenant.name) _
        (Emits-discard w env P _ (declares body)) (λ ok. Emits-enforce_policy) s

  Emits-source_adc : (d : Decoded) → Emits P (source_adc r env w c d)
  Emits-source_adc failed s = nothing_added P s
  Emits-source_adc nil_map s = nothing_added P s
  Emits-source_adc (decoded m) s = nothing_added P s

  -- For all that BIG-IP answers, a synchronisation of a partition sends permitted requests only, and
  -- has no other effect.
  pub as3_request-Permitted :
      (ac : As3Post) (is_delete : Bool)
      → ac.tenant_config ≡ some tenant
      → Emits (Permitted c tenant ty) (as3_request r env w c ac ty is_delete)
  unfolding as3_request
  as3_request-Permitted ac is_delete own =
      Emits->>= P (lift (generate_as3_resource_declaration r env ac [])) _ (Emits-lift P _)
        λ delta_adc. rw own (
          Emits->>= P (get_partition w env c tenant.name) _
            (Emits-get_partition w env P c tenant.name reads)
            λ adc_str.
              Emits->>= P (source_adc r env w c (validate_json_text env adc_str)) _
                (Emits-source_adc (validate_json_text env adc_str))
                λ src_adc.
                  Emits->>= P (lift (full_resource r env tenant.name is_delete src_adc delta_adc)) _
                    (Emits-lift P _) λ req_body. Emits-send_body req_body)
