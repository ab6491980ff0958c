-- ===== src/As3/Config/Caches.antt =====
-- What the two caches of tenants hold after the configuration is read.
use container_egress_service.Prelude.{
  String, ◌≡◌, refl, ap, ◌∙◌, Bool, Bool-cases, inl, inr, Option, none, some, List, [], ◌∷◌, ◌==◌,
  ◌&&◌, not, mem, arith, if◌then◌else◌,
}
use container_egress_service.Prelude.GoMap.{lookup, lookup-insert}
use container_egress_service.Prelude.Text.{split, is_blank}
use container_egress_service.As3.Types.{TenantConfig, As3Config}
use container_egress_service.As3.Config.{
  Registry, or_empty, cache_tenant_config_for_partition, cache_tenant_config_for_namespace,
  cache_namespaces, with_default_domain, init_tenant, init_tenants, regist_values,
  init_tenant_config, get_tenant_config_for_partition, get_tenant_config_for_namespace,
}
use container_egress_service.Prelude.Int.{pos}

-- the namespaces that a tenant lists
abbrev pub lists : String → TenantConfig → Bool
lists ns t = not (is_blank t.namespaces) && mem ns (split b',' t.namespaces)

-- a tenant of the file; that of Common always has the route domain 0
abbrev pub fixed : TenantConfig → TenantConfig
fixed t =
    if t.name == "Common"
    then record t { route_domain = record { id = pos 0; name = "0"; partition = "" } }
    else t

-- the last tenant that lists the namespace, and else what was there
abbrev pub last_listing : String → List TenantConfig → Option TenantConfig → Option TenantConfig
last_listing ns [] found = found
last_listing ns (t ∷ rest) found =
    last_listing ns rest (if lists ns t then some (fixed t) else found)

abbrev pub tenant_of : String → Registry → Option TenantConfig
tenant_of ns r = lookup ns (or_empty r.namespace_cache)

cached_namespaces :
    (t : TenantConfig) (nss : List String) (r : Registry) (ns : String)
    → tenant_of ns (cache_namespaces t nss r) ≡ (if mem ns nss then some t else tenant_of ns r)
unfolding cache_namespaces cache_tenant_config_for_namespace
cached_namespaces t [] r ns = refl
cached_namespaces t (n ∷ nss) r ns = ground (
  arith,
  cached_namespaces t nss (cache_tenant_config_for_namespace n t r) ns,
  lookup-insert n ns t (or_empty r.namespace_cache),
)

same_namespaces : (t : TenantConfig) → (with_default_domain t).namespaces ≡ t.namespaces
unfolding with_default_domain
same_namespaces t = elim (Bool-cases (t.name == "Common")) [ inl e ↦ rw e refl | inr e ↦ rw e refl ]

init_tenant-lists :
    (given : TenantConfig) (r : Registry) (ns : String)
    → tenant_of ns (init_tenant given r)
      ≡ (if lists ns given then some (fixed given) else tenant_of ns r)
unfolding init_tenant cache_tenant_config_for_partition with_default_domain
init_tenant-lists given r ns =
    rw (same_namespaces given) (elim (Bool-cases (is_blank given.namespaces)) [
      | inl blank ↦ rw blank refl
      | inr e ↦ rw e (
          cached_namespaces (with_default_domain given) (split b',' given.namespaces)
            (cache_tenant_config_for_partition (with_default_domain given).name
              (with_default_domain given) r)
            ns)
    ])

init_tenants-lists :
    (ts : List TenantConfig) (r : Registry) (ns : String)
    → tenant_of ns (init_tenants ts r) ≡ last_listing ns ts (tenant_of ns r)
unfolding init_tenants
init_tenants-lists [] r ns = refl
init_tenants-lists (t ∷ ts) r ns =
    init_tenants-lists ts (init_tenant t r) ns ∙ ap (last_listing ns ts) (init_tenant-lists t r ns)

abbrev pub before : String → Option Registry → Option TenantConfig
before ns none = none
before ns (some r) = tenant_of ns r

cached_support :
    (t : TenantConfig) (nss : List String) (r : Registry)
    → (cache_namespaces t nss r).is_support_route_domain ≡ r.is_support_route_domain
unfolding cache_namespaces cache_tenant_config_for_namespace
cached_support t [] r = refl
cached_support t (n ∷ nss) r = cached_support t nss (cache_tenant_config_for_namespace n t r)

init_tenant-support :
    (given : TenantConfig) (r : Registry)
    → (init_tenant given r).is_support_route_domain ≡ r.is_support_route_domain
unfolding init_tenant cache_tenant_config_for_partition
init_tenant-support given r = elim (Bool-cases (is_blank (with_default_domain given).namespaces)) [
  | inl blank ↦ rw blank refl
  | inr e ↦ rw e (cached_support (with_default_domain given) _ _)
]

init_tenants-support :
    (ts : List TenantConfig) (r : Registry)
    → (init_tenants ts r).is_support_route_domain ≡ r.is_support_route_domain
unfolding init_tenants
init_tenants-support [] r = refl
init_tenants-support (t ∷ ts) r =
    init_tenants-support ts (init_tenant t r) ∙ init_tenant-support t r

-- The tenant that a namespace belongs to: without support for route domains, it is that of Common.
abbrev pub belongs : Bool → Option TenantConfig → Option TenantConfig → Option TenantConfig
belongs support common none = none
belongs support common (some t) = if support then some t else common

get_tenant_config_for_namespace-belongs :
    (r : Registry) (ns : String)
    → get_tenant_config_for_namespace r ns
      ≡ belongs r.is_support_route_domain
          (get_tenant_config_for_partition r "Common")
          (tenant_of ns r)
unfolding get_tenant_config_for_namespace lookup
get_tenant_config_for_namespace-belongs r ns = ground arith

init_tenant_config-tenant_of :
    (cfg : As3Config) (ces_namespace : String) (old : Option Registry) (ns : String)
    → tenant_of ns (init_tenant_config cfg ces_namespace old)
      ≡ last_listing ns cfg.tenant (before ns old)
unfolding init_tenant_config regist_values lookup
init_tenant_config-tenant_of cfg ces_namespace none ns = init_tenants-lists cfg.tenant _ ns
init_tenant_config-tenant_of cfg ces_namespace (some r) ns = init_tenants-lists cfg.tenant _ ns

-- After the configuration is read, for the first time or again, GetTenantConfigForNamespace gives
-- for a namespace the last tenant of the file that lists it, that of Common with the route domain 0; a
-- namespace that no tenant lists keeps the tenant that it had before. Where route domains are not
-- supported, it gives the configuration of the partition Common instead of any such tenant.
pub get_tenant_config_for_namespace-init_tenant_config :
    (cfg : As3Config) (ces_namespace : String) (old : Option Registry) (ns : String)
    → get_tenant_config_for_namespace (init_tenant_config cfg ces_namespace old) ns
      ≡ belongs cfg.is_support_route_domain
          (get_tenant_config_for_partition (init_tenant_config cfg ces_namespace old) "Common")
          (last_listing ns cfg.tenant (before ns old))
unfolding init_tenant_config regist_values
get_tenant_config_for_namespace-init_tenant_config cfg ces_namespace old ns =
    let r = init_tenant_config cfg ces_namespace old in
    let support : r.is_support_route_domain ≡ cfg.is_support_route_domain =
      init_tenants-support cfg.tenant _ in
    get_tenant_config_for_namespace-belongs r ns
    ∙ ap (λ b. belongs b (get_tenant_config_for_partition r "Common") (tenant_of ns r)) support
    ∙ ap (belongs cfg.is_support_route_domain (get_tenant_config_for_partition r "Common"))
        (init_tenant_config-tenant_of cfg ces_namespace old ns)
