-- ===== src/As3/Config/Partitions.antt =====
-- The cache of tenants by partition, after the configuration is read.
use container_egress_service.Prelude.{
  String, ◌≡◌, Bool, true, false, Bool-cases, inl, inr, Option, none, some, List, [], ◌∷◌, ◌==◌,
  not, eq_iff, if◌then◌else◌,
}
use container_egress_service.Prelude.GoMap.{GoMap, lookup, lookup-insert}
use container_egress_service.Prelude.Text.{split, is_blank}
use container_egress_service.As3.Types.{TenantConfig, As3Config, default_partition}
use container_egress_service.As3.Config.{
  Registry, or_empty, cache_tenant_config_for_partition, cache_tenant_config_for_namespace,
  cache_namespaces, with_default_domain, init_tenant, init_tenants, init_tenant_config,
  regist_values, get_tenant_config_for_partition,
}

-- every tenant stands under its own name
abbrev pub ByName : Registry → Type 0
ByName r =
    (p : String) (t : TenantConfig) → lookup p (or_empty r.partition_cache) ≡ some t → t.name ≡ p

cache_namespaces-ByName :
    (t : TenantConfig) (nss : List String) (r : Registry)
    → ByName r
    → ByName (cache_namespaces t nss r)
unfolding cache_namespaces cache_tenant_config_for_namespace
cache_namespaces-ByName t [] r h = h
cache_namespaces-ByName t (ns ∷ nss) r h =
    cache_namespaces-ByName t nss (cache_tenant_config_for_namespace ns t r) h

cached-ByName :
    (t : TenantConfig) (r : Registry)
    → ByName r
    → ByName (cache_tenant_config_for_partition t.name t r)
unfolding cache_tenant_config_for_partition
cached-ByName t r h p t' e =
    let looked = lookup-insert t.name p t (or_empty r.partition_cache) in
    elim (Bool-cases (t.name == p)) [
      | inl hit ↦
          let q : some t ≡ some t' = rw (looked, hit) at e in
          let same : t ≡ t' = cc in rw (← same) ((eq_iff t.name p).0 hit)
      | inr miss ↦ h p t' (rw (looked, miss) at e)
    ]

init_tenant-ByName : (given : TenantConfig) (r : Registry) → ByName r → ByName (init_tenant given r)
unfolding init_tenant
init_tenant-ByName given r h =
    let t = with_default_domain given in
    let cached = cached-ByName t r h in
    elim (Bool-cases (is_blank t.namespaces)) [
      | inl blank ↦ rw blank cached
      | inr listed ↦ rw listed (
          cache_namespaces-ByName t (split b',' t.namespaces)
            (cache_tenant_config_for_partition t.name t r) cached)
    ]

init_tenants-ByName :
    (ts : List TenantConfig) (r : Registry) → ByName r → ByName (init_tenants ts r)
unfolding init_tenants
init_tenants-ByName [] r h = h
init_tenants-ByName (t ∷ ts) r h =
    init_tenants-ByName ts (init_tenant t r) (init_tenant-ByName t r h)

init_tenant_config-ByName :
    (cfg : As3Config) (ces_namespace : String) → ByName (init_tenant_config cfg ces_namespace none)
unfolding init_tenant_config regist_values lookup
init_tenant_config-ByName cfg ces_namespace = init_tenants-ByName cfg.tenant _ λ p t e. cc

-- with or without route domains
looked_up :
    (p : String) (t : TenantConfig) (b : Bool) (cache : Option (GoMap TenantConfig))
    → elim cache [ none ↦ none | some m ↦ if not b then lookup p m else lookup p m ] ≡ some t
    → lookup p (or_empty cache) ≡ some t
looked_up p t b none e = cc
looked_up p t true (some m) e = e
looked_up p t false (some m) e = e

common_named :
    (r : Registry) (t : TenantConfig)
    → ByName r
    → get_tenant_config_for_partition r default_partition ≡ some t
    → t.name ≡ default_partition
unfolding get_tenant_config_for_partition
common_named r t h e =
    h default_partition t
      (looked_up default_partition t r.is_support_route_domain r.partition_cache e)

-- The tenant for the partition Common is named so.
pub get_tenant_config_for_partition-name :
    (cfg : As3Config) (ces_namespace : String) (t : TenantConfig)
    → get_tenant_config_for_partition (init_tenant_config cfg ces_namespace none) default_partition
      ≡ some t
    → t.name ≡ default_partition
get_tenant_config_for_partition-name cfg ces_namespace t =
    common_named (init_tenant_config cfg ces_namespace none) t
      (init_tenant_config-ByName cfg ces_namespace)
