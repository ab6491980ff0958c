-- ===== src/Controller/System/Workers.antt =====
-- The effects that each of the five workers may have.
use container_egress_service.Prelude.{
  String, ◌≡◌, refl, sym, ◌∙◌, Bool, true, false, inl, inr, Option, none, some, List,
}
use container_egress_service.Kube.{
  ExternalService, ClusterEgressRule, NamespaceEgressRule, ServiceEgressRule, Endpoints, Namespace,
}
use container_egress_service.As3.Types.{TenantConfig, default_partition}
use container_egress_service.As3.Config.{
  Registry, get_tenant_config_for_namespace, get_cluster_svc_ext_namespace,
}
use container_egress_service.As3.Environment.{Environment}
use container_egress_service.As3.Rules.{As3Post, new_as3_post}
use container_egress_service.As3.Client.{Client}
use container_egress_service.Controller.Queue.{
  Taken, shutdown, no_key, wrong_type, object, processed, process_next_work_item,
}
use container_egress_service.Controller.Sync.{sync_rule}
use container_egress_service.Controller.Handlers.{
  cluster_kind, namespace_kind, service_kind, cluster_post, namespace_post, service_post,
  sync_cluster, sync_namespace, sync_service, f5_cluster_egress_rule_sync_handler,
  namespace_egress_rule_sync_handler, service_egress_rule_sync_handler,
}
use container_egress_service.Controller.System.{Allowed}
use container_egress_service.Controller.System.Sync.{Configured, Emits-warning, Emits-sync_rule}
use container_egress_service.Io.{
  kube, Subject, namespace_rule, service_rule, warning, World, Effect, Found, found, not_found,
  unavailable, Io, Step, done, failed, panicked, pure, fail, emit, ◌>>◌,
}
use container_egress_service.Io.Traces.{Adds, Emits, nothing_added}

processed-Adds :
    (P : Effect → Type 0) (s : List Effect) (x : Step (Unit {0})) (t : List Effect)
    → Adds P s t
    → Adds P s (processed (x, t)).effects
processed-Adds P s (done u) t h = h
processed-Adds P s (failed e) t h = h
processed-Adds P s panicked t h = h

-- A worker has the effects of its handler.
pub process_next_work_item-Adds :
    {A : Type 0} (P : Effect → Type 0) (handler : Option (String × String) → A → Io (Unit {0}))
    → ((key : Option (String × String)) (a : A) → Emits P (handler key a))
    → (taken : Taken A) (s : List Effect)
    → Adds P s (process_next_work_item handler taken s).effects
unfolding process_next_work_item
process_next_work_item-Adds P handler h shutdown s = nothing_added P s
process_next_work_item-Adds P handler h no_key s = nothing_added P s
process_next_work_item-Adds P handler h wrong_type s = nothing_added P s
process_next_work_item-Adds P handler h (object key a) s =
    processed-Adds P s (handler key a s).0 (handler key a s).1 (h key a s)

module _ (r : Registry) (env : Environment) (w : World) (c : Client) where
  abbrev P : Effect → Type 0
  P = Allowed r c

  Configured-cluster_post :
      (rule : ClusterEgressRule) (exsvcs : List ExternalService)
      → Configured r (cluster_post r env w c rule exsvcs)
  unfolding new_as3_post
  Configured-cluster_post rule exsvcs t e = inl (default_partition, e)

  Emits-sync_cluster :
      (is_delete : Bool) (rule : ClusterEgressRule)
      → Emits P (sync_cluster r env w c is_delete rule)
  Emits-sync_cluster is_delete rule =
      Emits-sync_rule r env w c cluster_kind (cluster_post r env w c) is_delete
        Configured-cluster_post is_delete (get_cluster_svc_ext_namespace r) rule.external_services
        rule

  cluster_found :
      (got : Found ClusterEgressRule) (rule : ClusterEgressRule)
      → Emits P (elim got [
        | unavailable ↦ fail kube
        | not_found ↦ sync_cluster r env w c true rule
        | found current ↦ sync_cluster r env w c false current
      ])
  cluster_found unavailable rule = λ s. nothing_added P s
  cluster_found not_found rule = Emits-sync_cluster true rule
  cluster_found (found current) rule = Emits-sync_cluster false current

  pub Emits-f5_cluster_egress_rule_sync_handler :
      (key : Option (String × String)) (rule : ClusterEgressRule)
      → Emits P (f5_cluster_egress_rule_sync_handler r env w c key rule)
  unfolding f5_cluster_egress_rule_sync_handler
  Emits-f5_cluster_egress_rule_sync_handler none rule = λ s. nothing_added P s
  Emits-f5_cluster_egress_rule_sync_handler (some (namespace, name)) rule =
      λ s. cluster_found (w.cluster_rule s name) rule s

  pub Configured-of_namespace :
      (namespace : String) (ac : As3Post)
      → ac.tenant_config ≡ get_tenant_config_for_namespace r namespace
      → Configured r ac
  Configured-of_namespace namespace ac own t e = inr (namespace, sym own ∙ e)

  pub warn_and_fail_kube :
      (subject : Subject) → Emits P (do emit (warning subject); fail {A = Unit {0}} kube)
  warn_and_fail_kube subject =
      Emits-warning r env w c subject (fail {A = Unit {0}} kube) λ s. nothing_added P s

  Emits-sync_namespace :
      (is_delete : Bool) (namespace : String) (rule : NamespaceEgressRule)
      → Emits P (sync_namespace r env w c is_delete namespace rule)
  unfolding new_as3_post
  Emits-sync_namespace is_delete namespace rule = λ s. in_namespace (w.namespace s namespace) s
    where
      in_namespace :
          (got : Found Namespace)
          → Emits P (elim got [
            | found ns ↦
                sync_rule w namespace_kind r env c is_delete false rule.namespace
                  rule.external_services
                  (namespace_post r env w c namespace ns)
                  rule
            | _ ↦ (do emit (warning (namespace_rule rule)); fail kube)
          ])
      in_namespace (found ns) =
          Emits-sync_rule r env w c namespace_kind (namespace_post r env w c namespace ns) is_delete
            (λ a exsvcs.
              Configured-of_namespace namespace (namespace_post r env w c namespace ns a exsvcs)
                refl)
            false rule.namespace rule.external_services rule
      in_namespace not_found = warn_and_fail_kube (namespace_rule rule)
      in_namespace unavailable = warn_and_fail_kube (namespace_rule rule)

  namespace_found :
      (namespace : String) (got : Found NamespaceEgressRule) (rule : NamespaceEgressRule)
      → Emits P (elim got [
        | unavailable ↦ fail kube
        | not_found ↦ sync_namespace r env w c true namespace rule
        | found current ↦ sync_namespace r env w c false namespace current
      ])
  namespace_found namespace unavailable rule = λ s. nothing_added P s
  namespace_found namespace not_found rule = Emits-sync_namespace true namespace rule
  namespace_found namespace (found current) rule = Emits-sync_namespace false namespace current

  -- what is done under a configured tenant, or else nothing
  when_watched :
      (tenant : Option TenantConfig) (m : Io (Unit {0}))
      → Emits P m
      → Emits {0} P (elim tenant [ none ↦ pure tt | some _ ↦ m ])
  when_watched none m h = λ s. nothing_added P s
  when_watched (some t) m h = h

  pub Emits-namespace_egress_rule_sync_handler :
      (key : Option (String × String)) (rule : NamespaceEgressRule)
      → Emits P (namespace_egress_rule_sync_handler r env w c key rule)
  unfolding namespace_egress_rule_sync_handler
  Emits-namespace_egress_rule_sync_handler none rule = λ s. nothing_added P s
  Emits-namespace_egress_rule_sync_handler (some (namespace, name)) rule =
      when_watched (get_tenant_config_for_namespace r namespace) _
        λ s. namespace_found namespace (w.namespace_rule s namespace name) rule s

  Emits-sync_service :
      (is_delete : Bool) (namespace : String) (rule : ServiceEgressRule)
      → Emits P (sync_service r env w c is_delete namespace rule)
  unfolding new_as3_post
  Emits-sync_service is_delete namespace rule = λ s. behind (w.endpoints s namespace rule.service) s
    where
      behind :
          (got : Found Endpoints)
          → Emits P (elim got [
            | found ep ↦
                sync_rule w service_kind r env c is_delete false rule.namespace
                  rule.external_services
                  (service_post r env w c namespace ep)
                  rule
            | _ ↦ (do emit (warning (service_rule rule)); fail kube)
          ])
      behind (found ep) =
          Emits-sync_rule r env w c service_kind (service_post r env w c namespace ep) is_delete
            (λ a exsvcs.
              Configured-of_namespace namespace (service_post r env w c namespace ep a exsvcs) refl)
            false rule.namespace rule.external_services rule
      behind not_found = warn_and_fail_kube (service_rule rule)
      behind unavailable = warn_and_fail_kube (service_rule rule)

  service_found :
      (namespace : String) (got : Found ServiceEgressRule) (rule : ServiceEgressRule)
      → Emits P (elim got [
        | unavailable ↦ fail kube
        | not_found ↦ sync_service r env w c true namespace rule
        | found current ↦ sync_service r env w c false namespace current
      ])
  service_found namespace unavailable rule = λ s. nothing_added P s
  service_found namespace not_found rule = Emits-sync_service true namespace rule
  service_found namespace (found current) rule = Emits-sync_service false namespace current

  pub Emits-service_egress_rule_sync_handler :
      (key : Option (String × String)) (rule : ServiceEgressRule)
      → Emits P (service_egress_rule_sync_handler r env w c key rule)
  unfolding service_egress_rule_sync_handler
  Emits-service_egress_rule_sync_handler none rule = λ s. nothing_added P s
  Emits-service_egress_rule_sync_handler (some (namespace, name)) rule =
      when_watched (get_tenant_config_for_namespace r namespace) _
        λ s. service_found namespace (w.service_rule s namespace name) rule s
