-- ===== src/Controller/System/Services.antt =====
-- The effects that the workers of external services and of endpoints may have.
use container_egress_service.Prelude.{
  String, ◌≡◌, refl, Bool, true, false, Bool-cases, inl, inr, Option, none, some, List, [], ◌∷◌,
  ◌==◌, if◌then◌else◌,
}
use mathlib.Core.Path.{subst}
use container_egress_service.Prelude.GoMap.{lookup}
use container_egress_service.Kube.{ExternalService, ServiceEgressRule}
use container_egress_service.As3.Types.{
  default_partition, rule_type_label, rule_type_global, rule_type_namespace, rule_type_service,
}
use container_egress_service.As3.Config.{Registry, get_tenant_config_for_namespace}
use container_egress_service.As3.Environment.{Environment}
use container_egress_service.As3.Rules.{As3Post, new_as3_post}
use container_egress_service.As3.Client.{Client}
use container_egress_service.As3.Request.{as3_request}
use container_egress_service.Controller.External.{
  from_api, from_lister, first_naming, text_of, global_post, namespaced_post, serving_post,
  related_post, on_reply, request, verify_extenal_service, sync_external_service,
  external_service_sync_handler,
}
use container_egress_service.Controller.System.{Allowed, locally}
use container_egress_service.Controller.System.Sync.{Configured, as3_request-Allowed, Emits-warning}
use container_egress_service.Io.{
  Error, kube, invalid_bandwidth, external_service, normal, World, Effect, Found, found, not_found,
  unavailable, Io, done, Reply, ok, err, pure, fail, ask, attempt, ◌>>=◌,
}
use container_egress_service.Io.Traces.{
  Emits, nothing_added, Emits-emit, Emits->>=, Emits-given, Emits-attempt,
}

module _ (r : Registry) (env : Environment) (w : World) (c : Client) where
  abbrev P : Effect → Type 0
  P = Allowed r c

  -- a request that is found, if any, has a tenant of the configuration
  abbrev MayConfigured : Option As3Post → Type 0
  MayConfigured none = Unit
  MayConfigured (some ac) = Configured r ac

  -- a call without effects, whose request has a tenant of the configuration
  record Finds (m : Io (Option As3Post)) : Type 0 where
    quiet : Emits P m
    configured : (s : List Effect) (o : Option As3Post) → (m s).0 ≡ done o → MayConfigured o

  Finds-pure : (o : Option As3Post) → MayConfigured o → Finds (pure o)
  Finds-pure o h = record {
    quiet = λ s. nothing_added P s;
    configured = λ s o' e. let q : o ≡ o' = cc in subst MayConfigured q h;
  }

  Finds-fail : (e : Error) → Finds (fail e)
  Finds-fail e = record { quiet = λ s. nothing_added P s; configured = λ s o h. cc }

  Finds-from_api :
      {A : Type 0} (listed : Option A) (f : A → Io (Option As3Post))
      → ((a : A) → Finds (f a))
      → Finds (from_api listed >>= f)
  Finds-from_api none f h = Finds-fail kube
  Finds-from_api (some a) f h = h a

  Finds-from_lister :
      {A : Type 0} (got : Found A) (f : A → Io (Option As3Post))
      → ((a : A) → Finds (f a))
      → Finds (from_lister got >>= f)
  Finds-from_lister (found a) f h = h a
  Finds-from_lister not_found f h = Finds-fail kube
  Finds-from_lister unavailable f h = Finds-fail kube

  -- a call that looks at the world first
  Finds-ask :
      (m : List Effect → Io (Option As3Post))
      → ((s : List Effect) → Finds (m s))
      → Finds (λ s. m s s)
  Finds-ask m h = record {
    quiet = λ s. (h s).quiet s;
    configured = λ s o e. (h s).configured s o e;
  }

  -- the first rule that names the service, with its request
  MayConfigured-first :
      {A : Type 0} (rule : Option A) (ac : A → As3Post)
      → ((a : A) → Configured r (ac a))
      → MayConfigured (elim rule [ none ↦ none | some a ↦ some (ac a) ])
  MayConfigured-first none ac h = tt
  MayConfigured-first (some a) ac h = h a

  module _ (service : ExternalService) where
    Finds-global_post : Finds (global_post r env w c service)
    unfolding new_as3_post
    Finds-global_post = Finds-ask _ λ s. Finds-from_api (w.cluster_rules s) _ λ rules.
        Finds-pure _ (
          MayConfigured-first (first_naming (λ rule. rule.external_services) service.name rules) _
            λ rule t e. inl (default_partition, e))

    Finds-namespaced_post : Finds (namespaced_post r env w c service)
    unfolding new_as3_post
    Finds-namespaced_post = Finds-ask _ λ s.
        Finds-from_api (w.namespace_rules s service.namespace) _ λ rules. Finds-ask _ λ t.
          Finds-from_lister (w.namespace t service.namespace) _ λ ns. Finds-pure _ (
            MayConfigured-first (first_naming (λ rule. rule.external_services) service.name rules) _
              λ rule u e. inr (service.namespace, e))

    served :
        (rule : Option ServiceEgressRule)
        → Finds (elim rule [
          | none ↦ pure none
          | some rule ↦ (do
            got ← ask (λ s. w.endpoints s service.namespace rule.service)
            ep ← from_lister got
            pure (
                some (
                  new_as3_post
                    (some (rule ∷ []))
                    none
                    none
                    (some (service ∷ []))
                    (some (ep ∷ []))
                    none
                    (get_tenant_config_for_namespace r service.namespace))))
        ])
    unfolding new_as3_post
    served none = Finds-pure none tt
    served (some rule) = Finds-ask _ λ s.
        Finds-from_lister (w.endpoints s service.namespace rule.service) _
          λ ep. Finds-pure (some _) λ t e. inr (service.namespace, e)

    Finds-serving_post : Finds (serving_post r env w c service)
    Finds-serving_post = Finds-ask _ λ s.
        Finds-from_api (w.service_rules s service.namespace) _
          λ rules. served (first_naming (λ rule. rule.external_services) service.name rules)

    Finds-if :
        (b : Bool) (m k : Io (Option As3Post)) → Finds m → Finds k → Finds (if b then m else k)
    Finds-if true m k f g = f
    Finds-if false m k f g = g

    Finds-related_post : (rule_type : String) → Finds (related_post r env w c service rule_type)
    unfolding related_post
    Finds-related_post rule_type = Finds-if (rule_type == rule_type_global) _ _ Finds-global_post (
        Finds-if (rule_type == rule_type_namespace) _ _ Finds-namespaced_post
          (Finds-if (rule_type == rule_type_service) _ _ Finds-serving_post (Finds-pure none tt)))

    Emits-on_reply : (reply : Reply (Unit {0})) → Emits P (on_reply r env w c service reply)
    Emits-on_reply (ok u) =
        Emits-emit P (normal (external_service service))
          (locally (normal (external_service service)) refl)
    Emits-on_reply (err e) =
        Emits-warning r env w c (external_service service) (fail {A = Unit {0}} e)
          λ s. nothing_added P s

    Emits-request :
        (rule_type : String) (is_delete : Bool) (post : Option As3Post)
        → MayConfigured post
        → Emits P (request r env w c service rule_type is_delete post)
    Emits-request rule_type is_delete none h = λ s. nothing_added P s
    Emits-request rule_type is_delete (some ac) h =
        Emits->>= P (attempt (as3_request r env w c ac rule_type is_delete)) _
          (Emits-attempt P _ (as3_request-Allowed r env w c ac rule_type is_delete h))
          λ result. Emits-on_reply result

    Emits-sync_external_service :
        (is_delete : Bool) → Emits P (sync_external_service r env w c service is_delete)
    unfolding sync_external_service
    Emits-sync_external_service is_delete =
        let rule_type = text_of (lookup rule_type_label service.labels) in
        let found_post = Finds-related_post rule_type in
        elim (Bool-cases (verify_extenal_service r service)) [
          | inl valid ↦ rw valid (
              Emits-given P (related_post r env w c service rule_type)
                (request r env w c service rule_type is_delete) found_post.quiet
                λ s post e. Emits-request rule_type is_delete post (found_post.configured s post e))
          | inr invalid ↦ rw invalid (
              Emits-warning r env w c (external_service service)
                (fail {A = Unit {0}} invalid_bandwidth) λ s. nothing_added P s)
        ]

  service_found :
      (got : Found ExternalService) (service : ExternalService)
      → Emits P (elim got [
        | unavailable ↦ fail kube
        | not_found ↦ sync_external_service r env w c service true
        | found current ↦ sync_external_service r env w c current false
      ])
  service_found unavailable service = λ s. nothing_added P s
  service_found not_found service = Emits-sync_external_service service true
  service_found (found current) service = Emits-sync_external_service current false

  pub Emits-external_service_sync_handler :
      (key : Option (String × String)) (service : ExternalService)
      → Emits P (external_service_sync_handler r env w c key service)
  unfolding external_service_sync_handler
  Emits-external_service_sync_handler none service = λ s. nothing_added P s
  Emits-external_service_sync_handler (some (namespace, name)) service =
      λ s. service_found (w.external_service s namespace name) service s
