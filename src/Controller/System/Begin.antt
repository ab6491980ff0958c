-- ===== src/Controller/System/Begin.antt =====
-- The effects of `InitAs3Tenant`.
use container_egress_service.Prelude.{
  String, ◌≡◌, refl, ap, inl, inr, Option, none, some, List, [], ◌==◌, Bool-cases,
}
use mathlib.Core.Path.{subst}
use container_egress_service.Prelude.Text.{◌⊕◌}
use container_egress_service.Json.{Json}
use container_egress_service.As3.Types.{TenantConfig, As3Config, default_partition}
use container_egress_service.As3.Config.{
  Registry, init_tenant_config, get_tenant_config_for_partition, get_master_cluster, get_cluster,
}
use container_egress_service.As3.Config.Partitions.{get_tenant_config_for_partition-name}
use container_egress_service.As3.Environment.{Environment}
use container_egress_service.As3.Declaration.{init_default_as3}
use container_egress_service.As3.Client.{Client, get_partition, post_declaration}
use container_egress_service.As3.Client.Requests.{Emits-discard, Emits-get_partition}
use container_egress_service.As3.Init.{declare_default, init_common, init_as3_tenant}
use container_egress_service.As3.Request.Permitted.{reads, declares}
use container_egress_service.Controller.System.{IsConfigured, Allowed, synchronises}
use container_egress_service.Io.{
  no_common, get, post, http, World, Effect, done, failed, panicked, pure, lift, ◌>>=◌,
}
use container_egress_service.Io.Traces.{
  Adds, Emits, nothing_added, Emits-lift, Emits->>=, >>=-eq-done,
}

module _ (env : Environment) (w : World) (c : Client) where
  module _ (r : Registry) (tenant : TenantConfig) (named : tenant.name ≡ default_partition)
      (own : IsConfigured r tenant) where
    abbrev P : Effect → Type 0
    P = Allowed r c

    reads_common : P (http (record { method = get; url = c.url ⊕ default_partition; body = none }))
    reads_common =
        subst (λ n. P (http (record { method = get; url = c.url ⊕ n; body = none }))) named
          (synchronises tenant "" _ own reads)

    declares_common :
        (body : Json)
        → P (
            http (record {
              method = post;
              url = c.host ⊕ ("/mgmt/shared/appsvcs/declare/" ⊕ default_partition);
              body = some body;
            }))
    declares_common body =
        subst
          (λ n. P (
            http (record {
              method = post;
              url = c.host ⊕ ("/mgmt/shared/appsvcs/declare/" ⊕ n);
              body = some body;
            })))
          named (synchronises tenant "" _ own (declares body))

    Emits-declare_default : (as3_str : String) → Emits P (declare_default env w c r as3_str)
    unfolding post_declaration
    Emits-declare_default as3_str = elim (Bool-cases (as3_str == "{}")) [
      | inl empty ↦ rw empty (
          Emits->>= P (lift (init_default_as3 r))
            (λ body. post_declaration w env c body default_partition)
            (Emits-lift P (init_default_as3 r))
            λ body. Emits-discard w env P _ (declares_common body))
      | inr there ↦ rw there (λ s. nothing_added P s)
    ]

    Emits-init_common : Emits P (init_common env w c r (some tenant))
    Emits-init_common = elim (Bool-cases (get_master_cluster r == get_cluster r)) [
      | inl master ↦ rw master (
          Emits->>= P (get_partition w env c default_partition) (declare_default env w c r)
            (Emits-get_partition w env P c default_partition reads_common)
            λ as3_str. Emits-declare_default as3_str)
      | inr slave ↦ rw slave (λ s. nothing_added P s)
    ]

  with_common :
      (r0 r : Registry) (o : Option TenantConfig) (s : List Effect)
      → ((t : TenantConfig)
          → get_tenant_config_for_partition r0 default_partition ≡ some t
          → t.name ≡ default_partition)
      → get_tenant_config_for_partition r0 default_partition ≡ o
      → (init_common env w c r0 o >>= λ u. pure r0) [] ≡ (done r, s)
      → Adds (Allowed r c) [] s
  with_common r0 r none s named own e = let q : failed no_common ≡ done r = ap (λ x. x.0) e in cc
  with_common r0 r (some t) s named own e =
      let (u, ran, kept) =
        >>=-eq-done (init_common env w c r0 (some t)) (λ u. pure r0) [] (ap (λ x. x.0) e) in
      let same : r0 ≡ r = cc in
      let adds =
        Emits->>= (Allowed r0 c) (init_common env w c r0 (some t)) (λ u. pure r0)
          (Emits-init_common r0 t (named t own) (inl (default_partition, own)))
          (λ u s. nothing_added (Allowed r0 c) s) [] in
      let there : Adds (Allowed r0 c) [] s =
        subst (Adds (Allowed r0 c) []) (ap (λ x. x.1) e) adds in
      subst (λ r. Adds (Allowed r c) [] s) same there

  pub init_as3_tenant-Adds :
      (r : Registry) (parsed : Option As3Config) (ces_namespace : String) (s : List Effect)
      → init_as3_tenant env w c parsed ces_namespace [] ≡ (done r, s)
      → Adds (Allowed r c) [] s
  unfolding init_as3_tenant
  init_as3_tenant-Adds r none ces_namespace s e = let q : panicked ≡ done r = ap (λ x. x.0) e in cc
  init_as3_tenant-Adds r (some cfg) ces_namespace s e =
      let r0 = init_tenant_config cfg ces_namespace none in
      with_common r0 r (get_tenant_config_for_partition r0 default_partition) s
        (get_tenant_config_for_partition-name cfg ces_namespace) refl e
