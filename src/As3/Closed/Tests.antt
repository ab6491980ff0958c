-- ===== src/As3/Closed/Tests.antt =====
-- The theorem on closed declarations at the cluster rule of the samples.
use container_egress_service.Prelude.{String, ◌≡◌, refl, sym, ap, Option, none, some, [], ◌∷◌}
use container_egress_service.Prelude.Outcome.{Outcome, returns, panics, each}
use container_egress_service.Prelude.GoMap.{GoMap, lookup, insert}
use container_egress_service.Prelude.Text.{split, is_blank, to_lower}
use container_egress_service.As3.Rules.{As3Post, add_port}
use container_egress_service.As3.Attrs.{get_as3_dest_port_attr}
use container_egress_service.As3.Tenant.{As3Tenant}
use container_egress_service.As3.Declaration.{generate_as3_resource_declaration}
use container_egress_service.As3.Types.{TenantConfig}
use container_egress_service.As3.Closed.{IsClosed}
use container_egress_service.As3.Closed.Tenants.{generate_as3_resource_declaration-IsClosed}
use container_egress_service.Samples.{
  registry, environment, common, exsvc, cluster_rule, empty_post,
}

abbrev rule_post : As3Post
rule_post = record empty_post {
  cluster_egress_list = cluster_rule ∷ [];
  external_service_list = exsvc ∷ [];
}

abbrev adc_of : Outcome (GoMap As3Tenant) → GoMap As3Tenant
adc_of (returns m) = m
adc_of panics = []

abbrev generated : GoMap As3Tenant
generated = adc_of (generate_as3_resource_declaration registry environment rule_post [])

abbrev tenant_in : Option As3Tenant → As3Tenant
tenant_in none = record { default_route_domain = none; shared = [] }
tenant_in (some t) = t

generated_returns :
    generate_as3_resource_declaration registry environment rule_post [] ≡ returns generated
unfolding generate_as3_resource_declaration lookup each is_blank split add_port insert to_lower
    get_as3_dest_port_attr
generated_returns = refl

has_common : lookup "Common" generated ≡ some (tenant_in (lookup "Common" generated))
unfolding generate_as3_resource_declaration lookup each is_blank split add_port insert to_lower
    get_as3_dest_port_attr
has_common = refl

no_tenants : (name : String) (t : As3Tenant) → lookup name [] ≡ some t → IsClosed name t.shared
unfolding lookup
no_tenants name t e = cc

is_common : (t : TenantConfig) → rule_post.tenant_config ≡ some t → t.name ≡ "Common"
is_common t e = let same : common ≡ t = cc in ap (λ t. t.name) (sym same)

generate_as3_resource_declaration-IsClosed_example :
    IsClosed "Common" (tenant_in (lookup "Common" generated)).shared
generate_as3_resource_declaration-IsClosed_example =
    generate_as3_resource_declaration-IsClosed registry environment rule_post common [] generated
      refl refl (record { owned = is_common; of_namespaces = tt; of_services = tt })
      generated_returns no_tenants "Common" (tenant_in (lookup "Common" generated)) has_common
