-- ===== src/As3/Init.antt =====
-- `InitAs3Tenant` of pkg/as3/init.go: what the program does with its configuration at its start.
use container_egress_service.Prelude.{String, Option, none, some, ◌==◌, if◌then◌else◌}
use container_egress_service.As3.Types.{TenantConfig, As3Config, default_partition}
use container_egress_service.As3.Config.{
  Registry, init_tenant_config, get_tenant_config_for_partition, get_master_cluster, get_cluster,
}
use container_egress_service.As3.Environment.{Environment}
use container_egress_service.As3.Declaration.{init_default_as3}
use container_egress_service.As3.Client.{Client, get_partition, post_declaration}
use container_egress_service.Io.{no_common, World, Io, pure, fail, panic, lift, ◌>>=◌, ◌>>◌}

module _ (env : Environment) (w : World) (c : Client) where
  -- the first declaration, if BIG-IP has none
  abbrev pub declare_default : Registry → String → Io (Unit {0})
  declare_default r as3_str =
      if as3_str == "{}"
      then (do body ← lift (init_default_as3 r); post_declaration w env c body default_partition)
      else pure tt

  -- only the master cluster looks after the partition Common at the start
  abbrev pub init_common : Registry → Option TenantConfig → Io (Unit {0})
  init_common r none = fail no_common
  init_common r (some ns_config) =
      if get_master_cluster r == get_cluster r
      then (do as3_str ← get_partition w env c default_partition; declare_default r as3_str)
      else pure tt

  -- `parsed` is what viper makes of the configuration file, `none` where that fails. The result is
  -- the registry that the program goes on with.
  unfoldable pub init_as3_tenant : Option As3Config → String → Io Registry
  unfolding init_default_as3 get_partition post_declaration init_tenant_config
      get_tenant_config_for_partition get_master_cluster
  init_as3_tenant none ces_namespace = panic
  init_as3_tenant (some as3_config) ces_namespace = do
    let r = init_tenant_config as3_config ces_namespace none
    init_common r (get_tenant_config_for_partition r default_partition)
    pure r

-- the function that runs again, in a goroutine, when the file has changed
unfoldable pub init_config_func : Option As3Config → String → Registry → Io Registry
unfolding init_tenant_config
init_config_func none ces_namespace r = panic
init_config_func (some as3_config) ces_namespace r =
    pure (init_tenant_config as3_config ces_namespace (some r))
