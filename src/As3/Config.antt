-- ===== src/As3/Config.antt =====
-- pkg/as3/init.go and register.go: the process-wide configuration. The sync.Map is a record with a
-- field for each of its keys; `none` is a key that is not registered.
pub mod Caches
pub mod Partitions
use container_egress_service.Prelude.{
  String, Bool, true, false, Option, none, some, List, [], ◌∷◌, not, ◌||◌, ◌==◌, if◌then◌else◌,
}
use container_egress_service.Prelude.Int.{pos}
use container_egress_service.Prelude.GoMap.{GoMap, lookup, insert}
use container_egress_service.Prelude.Text.{split, is_blank, join}
use container_egress_service.As3.Types.{TenantConfig, LogPool, As3Config, default_partition}

-- The cluster and the route-domain switch are read by unchecked type assertions, so the record
-- stands for the store once `InitAs3Tenant`, the first thing that the program runs, has filled it.
pub record Registry : Type 0 where
  pub schema_version : Option String
  pub current_cluster : String
  pub master_cluster : Option String
  pub is_support_route_domain : Bool
  pub log_pool : Option LogPool
  pub irules : Option (List String)
  pub cluster_svc_ext_namespace : Option String
  pub partition_cache : Option (GoMap TenantConfig)
  pub namespace_cache : Option (GoMap TenantConfig)

abbrev pub or_empty : Option (GoMap TenantConfig) → GoMap TenantConfig
or_empty none = []
or_empty (some m) = m

unfoldable pub cache_tenant_config_for_partition : String → TenantConfig → Registry → Registry
cache_tenant_config_for_partition partition tntcfg r = record r {
  partition_cache = some (insert partition tntcfg (or_empty r.partition_cache));
}

unfoldable pub cache_tenant_config_for_namespace : String → TenantConfig → Registry → Registry
cache_tenant_config_for_namespace namespace tntcfg r = record r {
  namespace_cache = some (insert namespace tntcfg (or_empty r.namespace_cache));
}

unfoldable pub cache_namespaces : TenantConfig → List String → Registry → Registry
cache_namespaces tntconf [] r = r
cache_namespaces tntconf (ns ∷ rest) r =
    cache_namespaces tntconf rest (cache_tenant_config_for_namespace ns tntconf r)

-- The route domain of the partition Common is fixed.
unfoldable pub with_default_domain : TenantConfig → TenantConfig
with_default_domain tntconf =
    if tntconf.name == default_partition
    then record tntconf { route_domain = record { id = pos 0; name = "0"; partition = "" } }
    else tntconf

unfoldable pub init_tenant : TenantConfig → Registry → Registry
init_tenant given r =
    let tntconf = with_default_domain given in
    let cached = cache_tenant_config_for_partition tntconf.name tntconf r in
    if is_blank tntconf.namespaces
    then cached
    else cache_namespaces tntconf (split b',' tntconf.namespaces) cached

unfoldable pub init_tenants : List TenantConfig → Registry → Registry
init_tenants [] r = r
init_tenants (tntconf ∷ rest) r = init_tenants rest (init_tenant tntconf r)

abbrev caches_of :
    (Registry → Option (GoMap TenantConfig)) → Option Registry → Option (GoMap TenantConfig)
caches_of f none = none
caches_of f (some r) = f r

-- `old` is what an earlier run registered, when the file is read again after a change.
unfoldable pub regist_values : As3Config → String → Option Registry → Registry
regist_values as3_config ces_namespace old = record {
  schema_version = some as3_config.schema_version;
  current_cluster = as3_config.cluster_name;
  master_cluster =
      if as3_config.master_cluster == ""
      then some as3_config.cluster_name
      else some as3_config.master_cluster;
  is_support_route_domain = as3_config.is_support_route_domain;
  log_pool = some as3_config.log_pool;
  irules = some as3_config.irule;
  cluster_svc_ext_namespace = some ces_namespace;
  partition_cache = caches_of (λ r. r.partition_cache) old;
  namespace_cache = caches_of (λ r. r.namespace_cache) old;
}

unfoldable pub init_tenant_config : As3Config → String → Option Registry → Registry
init_tenant_config as3_config ces_namespace old =
    init_tenants as3_config.tenant (regist_values as3_config ces_namespace old)

module _ (r : Registry) where
  unfoldable pub get_tenant_config_for_partition : String → Option TenantConfig
  get_tenant_config_for_partition partition = elim r.partition_cache [
    | none ↦ none
    | some cache_map ↦
        if not r.is_support_route_domain
        then lookup default_partition cache_map
        else lookup partition cache_map
  ]

  unfoldable pub get_tenant_config_for_namespace : String → Option TenantConfig
  get_tenant_config_for_namespace namespace = elim r.namespace_cache [
    | none ↦ none
    | some cache_map ↦ elim (lookup namespace cache_map) [
      | none ↦ none
      | some tntcfg ↦
          if not r.is_support_route_domain
          then get_tenant_config_for_partition default_partition
          else some tntcfg
    ]
  ]

  abbrev pub get_cluster : String
  get_cluster = r.current_cluster

  unfoldable pub get_log_pool : LogPool
  get_log_pool = elim r.log_pool [
    | none ↦ record {
      logging_enabled = false;
      enable_remote_log = false;
      health_monitor = "";
      template = "";
      server_addresses = [];
    }
    | some log ↦ log
  ]

  unfoldable pub get_master_cluster : String
  get_master_cluster = elim r.master_cluster [ none ↦ get_cluster | some c ↦ c ]

  unfoldable pub get_irules : List String
  get_irules = elim r.irules [ none ↦ [] | some l ↦ l ]

  unfoldable pub get_irules_text : String
  unfolding get_irules
  get_irules_text = join "," get_irules

  unfoldable pub get_schema_version : String
  get_schema_version = elim r.schema_version [ none ↦ "3.29.0" | some v ↦ v ]

  unfoldable pub is_config_log_profile : Bool
  unfolding get_log_pool
  is_config_log_profile =
      if not get_log_pool.logging_enabled || (get_log_pool.template == "") then false else true

  unfoldable pub get_cluster_svc_ext_namespace : String
  get_cluster_svc_ext_namespace = elim r.cluster_svc_ext_namespace [
    | none ↦ "kube-system"
    | some ns ↦ ns
  ]
