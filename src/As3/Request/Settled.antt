-- ===== src/As3/Request/Settled.antt =====
-- What a synchronisation that is done has done.
use container_egress_service.Prelude.{
  String, ◌≡◌, Bool, ◌⊎◌, inl, inr, Option, none, some, List, [],
}
use container_egress_service.Prelude.Outcome.{Outcome, returns, panics, deref}
use container_egress_service.Prelude.GoMap.{GoMap}
use container_egress_service.Prelude.Text.{◌⊕◌}
use container_egress_service.Json.{Json}
use container_egress_service.As3.Types.{TenantConfig}
use container_egress_service.As3.Config.{Registry}
use container_egress_service.As3.Environment.{
  Environment, Decoded, failed, nil_map, decoded, validate_json_text,
}
use container_egress_service.As3.Rules.{As3Post}
use container_egress_service.As3.Tenant.{As3Tenant}
use container_egress_service.As3.Declaration.{generate_as3_resource_declaration}
use container_egress_service.As3.Merge.{full_resource}
use container_egress_service.As3.Client.{Client, get_partition, post_declaration}
use container_egress_service.As3.Client.Answers.{Answered, post_declaration-Answered}
use container_egress_service.As3.Request.{source_adc, send_body, enforce_policy, as3_request}
use container_egress_service.Io.{post, Effect, World, done, lift, ◌>>=◌}
use container_egress_service.Io.Traces.{>>=-eq-done}

module _ (r : Registry) (env : Environment) (w : World) (c : Client) where
  -- A declaration was posted, and BIG-IP has accepted it.
  pub record Accepted (tenant : TenantConfig) (body : Json) : Type 0 where
    pub when : List Effect
    pub answer :
        Answered w
          (record {
            method = post;
            url = c.host ⊕ ("/mgmt/shared/appsvcs/declare/" ⊕ tenant.name);
            body = some body;
          })
          when

  -- The partition was read after `start`, and what was generated differs from it in nothing, or the
  -- merged declaration was accepted.
  pub record Settled (ac : As3Post) (is_delete : Bool) (start : List Effect) : Type 0 where
    pub delta : GoMap As3Tenant
    pub generated : generate_as3_resource_declaration r env ac [] ≡ returns delta
    pub tenant : TenantConfig
    pub own : ac.tenant_config ≡ some tenant
    pub adc_str : String
    pub reading : (get_partition w env c tenant.name start).0 ≡ done adc_str
    pub src_adc : GoMap Json
    pub parsed : (source_adc r env w c (validate_json_text env adc_str) []).0 ≡ done src_adc
    pub settled :
        (full_resource r env tenant.name is_delete src_adc delta ≡ returns none)
        ⊎ ((body : Json) × (full_resource r env tenant.name is_delete src_adc delta
              ≡ returns (some body))
            × Accepted tenant body)

  send_body-done :
      (tenant : TenantConfig) (ty : String) (o : Option Json) (made : Outcome (Option Json))
      (s : List Effect)
      → made ≡ returns o
      → (send_body r env w c tenant ty o s).0 ≡ done tt
      → (made ≡ returns none)
        ⊎ ((body : Json) × (made ≡ returns (some body)) × Accepted tenant body)
  send_body-done tenant ty none made s e h = inl e
  send_body-done tenant ty (some body) made s e h =
      let (u, posted, rest) =
        >>=-eq-done (post_declaration w env c body tenant.name)
          (λ u. enforce_policy r env w c tenant ty) s h in
      inr (
        body,
        e,
        record { when = s; answer = post_declaration-Answered w env c body tenant.name s posted },
      )

  lift-done :
      {A : Type 0} (o : Outcome A) (s : List Effect) (a : A) → (lift o s).0 ≡ done a → o ≡ returns a
  lift-done (returns b) s a h = cc
  lift-done panics s a h = cc

  deref-returns : {A : Type 0} (o : Option A) (a : A) → deref o ≡ returns a → o ≡ some a
  deref-returns none a h = cc
  deref-returns (some b) a h = cc

  source_adc-quiet :
      (d : Decoded) (t : List Effect) (m : GoMap Json)
      → (source_adc r env w c d t).0 ≡ done m
      → (source_adc r env w c d []).0 ≡ done m
  source_adc-quiet failed t m h = cc
  source_adc-quiet nil_map t m h = h
  source_adc-quiet (decoded n) t m h = h

  module _ (ac : As3Post) (ty : String) (is_delete : Bool) (s : List Effect) where
    -- from the reading of the partition on
    Settled-read :
        (delta : GoMap As3Tenant) (tenant : TenantConfig)
        → generate_as3_resource_declaration r env ac [] ≡ returns delta
        → ac.tenant_config ≡ some tenant
        → ((do
          adc_str ← get_partition w env c tenant.name
          src_adc ← source_adc r env w c (validate_json_text env adc_str)
          req_body ← lift (full_resource r env tenant.name is_delete src_adc delta)
          send_body r env w c tenant ty req_body)
            s).0
          ≡ done tt
        → Settled ac is_delete s
    Settled-read delta tenant made own h =
        let (adc_str, got, h1) = >>=-eq-done (get_partition w env c tenant.name) _ s h in
        let (src_adc, parses, h2) =
          >>=-eq-done (source_adc r env w c (validate_json_text env adc_str)) _ _ h1 in
        let (body, merged, h3) =
          >>=-eq-done (lift (full_resource r env tenant.name is_delete src_adc delta)) _ _ h2 in
        record {
          delta = delta;
          generated = made;
          tenant = tenant;
          own = own;
          adc_str = adc_str;
          reading = got;
          src_adc = src_adc;
          parsed = source_adc-quiet (validate_json_text env adc_str) _ src_adc parses;
          settled =
              send_body-done tenant ty body
                (full_resource r env tenant.name is_delete src_adc delta) _
                (lift-done (full_resource r env tenant.name is_delete src_adc delta) _ body merged)
                h3;
        }

    -- A synchronisation that is done has found nothing to send, or BIG-IP has accepted the merged
    -- declaration.
    pub as3_request-Settled :
        (as3_request r env w c ac ty is_delete s).0 ≡ done tt → Settled ac is_delete s
    unfolding as3_request
    as3_request-Settled h =
        let (delta, made, h1) =
          >>=-eq-done (lift (generate_as3_resource_declaration r env ac [])) _ s h in
        let (tenant, derefs, h2) = >>=-eq-done (lift (deref ac.tenant_config)) _ _ h1 in
        let gen = lift-done (generate_as3_resource_declaration r env ac []) s delta made in
        let own =
          deref-returns ac.tenant_config tenant
            (lift-done (deref ac.tenant_config) _ tenant derefs) in
        Settled-read delta tenant gen own (rw (gen, own) at h)
