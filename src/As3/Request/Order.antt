-- ===== src/As3/Request/Order.antt =====
-- What a synchronisation sends, in which order.
use container_egress_service.Prelude.{
  String, ◌≡◌, refl, Bool, true, false, Bool-cases, inl, inr, Option, none, some, List, [], ◌∷◌,
  ◌++◌, ◌==◌, if◌then◌else◌,
}
use container_egress_service.Prelude.Text.{◌⊕◌}
use container_egress_service.Prelude.GoMap.{lookup}
use container_egress_service.Json.{Json, text, object}
use container_egress_service.As3.Types.{TenantConfig, rule_type_global, rule_type_namespace}
use container_egress_service.As3.Config.{Registry}
use container_egress_service.As3.Environment.{
  Environment, Decoded, failed, nil_map, decoded, validate_json_text,
}
use container_egress_service.As3.Rules.{As3Post}
use container_egress_service.As3.Declaration.{generate_as3_resource_declaration}
use container_egress_service.As3.Merge.{full_resource}
use container_egress_service.As3.Client.{
  Client, get_partition, post_declaration, get_f5_resource, patch_f5_reource, store_disk,
}
use container_egress_service.As3.Client.Scripts.{Sends-call, Sends-discard, Sends-get_partition}
use container_egress_service.As3.Request.{
  source_adc, is_enforced, enforce, enforce_policy, send_body, as3_request,
}
use container_egress_service.Io.{
  Method, get, post, patch, Effect, http, World, Io, ◌>>◌, pure, lift,
}
use container_egress_service.Io.Scripts.{
  Script, Follows, Quiet, nothing_new, Quiet-lift, Follows-after, Follows-then,
}

-- a request without a body, and one with some body
abbrev pub Reads : String → Effect → Type 0
Reads url e = e ≡ http (record { method = get; url = url; body = none })

abbrev pub Submits : Method → String → Effect → Type 0
Submits method url e =
    (body : Json) × (e ≡ http (record { method = method; url = url; body = some body }))

module _ (c : Client) where
  -- ask for the object that names the policy, set its policy, and store that to disk
  abbrev pub enforcing : String → Script
  enforcing url =
      Reads (c.host ⊕ url)
      ∷ Submits patch (c.host ⊕ url)
      ∷ Submits post (c.host ⊕ "/mgmt/tm/sys/config")
      ∷ []

  abbrev pub enforcing_policy : TenantConfig → String → Script
  enforcing_policy tenant ty =
      if ty == "global"
      then enforcing "/mgmt/tm/security/firewall/global-rules"
      else if ty == "namespace"
      then enforcing
          ("/mgmt/tm/net/route-domain/~" ⊕ (tenant.name ⊕ ("~" ⊕ tenant.route_domain.name)))
      else []

  -- read the partition, post its declaration, and put the policy in force
  abbrev pub script : TenantConfig → String → Script
  script tenant ty =
      Reads (c.url ⊕ tenant.name)
      ∷ Submits post (c.host ⊕ ("/mgmt/shared/appsvcs/declare/" ⊕ tenant.name))
      ∷ enforcing_policy tenant ty

module _ (r : Registry) (env : Environment) (w : World) (c : Client) (ty : String) where
  Follows-enforce :
      (key path url : String) → Follows (enforcing c url) (enforce r env w c key path url)
  unfolding enforce get_f5_resource patch_f5_reource store_disk
  Follows-enforce key path url =
      Follows-then _ _ _ (get_f5_resource w env c url) _ (Sends-call w env _) refl λ response.
        Follows-after _ (is_enforced r env w c path (lookup key response)) _
          (asking (lookup key response)) λ is_exist. setting is_exist
    where
      asking : (j : Option Json) → Quiet (is_enforced r env w c path j)
      asking none = λ s. refl
      asking (some (text t)) = λ s. refl
      asking (some _) = λ s. refl

      storing :
          (e : Effect)
          → Submits post (c.host ⊕ "/mgmt/tm/sys/config") e
          → (m : Io (Unit {0})) → ((s : List Effect) → (m s).1 ≡ s ++ e ∷ [])
          → Follows (Submits post (c.host ⊕ "/mgmt/tm/sys/config") ∷ []) m
      storing e allowed m h s = record { added = e ∷ []; is_after = h s; in_order = (allowed, tt) }

      setting :
          (is_exist : Bool)
          → Follows
              (Submits patch (c.host ⊕ url) ∷ Submits post (c.host ⊕ "/mgmt/tm/sys/config") ∷ [])
              (if is_exist then pure tt else do
                patch_f5_reource w env c (object ((key, text path) ∷ [])) url
                store_disk w env c)
      setting true = nothing_new _
      setting false =
          Follows-then _ _ _ (patch_f5_reource w env c _ url) _ (Sends-discard w env _) (_, refl)
            λ ok. storing _ (_, refl) (store_disk w env c) (Sends-discard w env _)

  Follows-enforce_policy :
      (tenant : TenantConfig)
      → Follows (enforcing_policy c tenant ty) (enforce_policy r env w c tenant ty)
  unfolding enforce_policy
  Follows-enforce_policy tenant = elim (Bool-cases (ty == rule_type_global)) [
    | inl global ↦ rw global (Follows-enforce _ _ _)
    | inr e ↦ elim (Bool-cases (ty == rule_type_namespace)) [
      | inl ns ↦ rw (e, ns) (Follows-enforce _ _ _)
      | inr f ↦ rw (e, f) (nothing_new [])
    ]
  ]

  Follows-send_body :
      (tenant : TenantConfig) (body : Option Json)
      → Follows
          (Submits post (c.host ⊕ ("/mgmt/shared/appsvcs/declare/" ⊕ tenant.name))
            ∷ enforcing_policy c tenant ty)
          (send_body r env w c tenant ty body)
  unfolding post_declaration
  Follows-send_body tenant none = nothing_new _
  Follows-send_body tenant (some body) =
      Follows-then _ _ _ (post_declaration w env c body tenant.name) _ (Sends-discard w env _)
        (body, refl) λ ok. Follows-enforce_policy tenant

  Quiet-source_adc : (d : Decoded) → Quiet (source_adc r env w c d)
  Quiet-source_adc failed s = refl
  Quiet-source_adc nil_map s = refl
  Quiet-source_adc (decoded m) s = refl

  -- A synchronisation of a partition sends at most these requests, each at most once and in this
  -- order, whatever BIG-IP answers: it reads the partition, posts its declaration, and for a cluster
  -- rule or a rule of a namespace asks for the object that names the policy, sets its policy and
  -- stores that to disk. It skips none of the requests before one that it sends.
  pub as3_request-Follows :
      (tenant : TenantConfig) (ac : As3Post) (is_delete : Bool)
      → ac.tenant_config ≡ some tenant
      → Follows (script c tenant ty) (as3_request r env w c ac ty is_delete)
  unfolding as3_request
  as3_request-Follows tenant ac is_delete own =
      Follows-after _ (lift (generate_as3_resource_declaration r env ac [])) _ (Quiet-lift _)
        λ delta_adc. rw own (
          Follows-then _ _ _ (get_partition w env c tenant.name) _
            (Sends-get_partition w env c tenant.name) refl
            λ adc_str.
              Follows-after _ (source_adc r env w c (validate_json_text env adc_str)) _
                (Quiet-source_adc (validate_json_text env adc_str))
                λ src_adc.
                  Follows-after _
                    (lift (full_resource r env tenant.name is_delete src_adc delta_adc)) _
                    (Quiet-lift _) λ req_body. Follows-send_body tenant req_body)
