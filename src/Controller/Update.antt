-- ===== src/Controller/Update.antt =====
-- `isUpdate` of pkg/controller/controller.go: whether a change of an object is to be synchronised.
pub mod Changes
use container_egress_service.Prelude.{
  String, Bool, true, false, Option, none, some, List, [], ◌∷◌, ◌&&◌, not, ◌==◌, bool_eq, is_empty,
  if◌then◌else◌,
}
use container_egress_service.Kube.{
  ExternalServicePort, ExternalService, ClusterEgressRule, NamespaceEgressRule, ServiceEgressRule,
  ObjectReference, EndpointAddress, EndpointPort, EndpointSubset, Endpoints,
}
use container_egress_service.Prelude.Int.{int_eq}
use container_egress_service.As3.Types.{TenantConfig}
use container_egress_service.As3.Config.{Registry, get_tenant_config_for_namespace}

-- An old object and its new version, which an informer hands over as two of one type.
pub data Change : Type 0 where
  cluster_rules : ClusterEgressRule → ClusterEgressRule → Change
  namespace_rules : NamespaceEgressRule → NamespaceEgressRule → Change
  service_rules : ServiceEgressRule → ServiceEgressRule → Change
  external_services : ExternalService → ExternalService → Change
  endpoints : Endpoints → Endpoints → Change

module _ {ℓ} {A : Type ℓ} where
  -- reflect.DeepEqual of two slices
  abbrev pub slices_equal : (A → A → Bool) → List A → List A → Bool
  slices_equal eq [] [] = true
  slices_equal eq (x ∷ xs) (y ∷ ys) = eq x y && slices_equal eq xs ys
  slices_equal eq _ _ = false

abbrev pub texts_equal : List String → List String → Bool
texts_equal = slices_equal (λ s t. s == t)

abbrev pub ports_equal : ExternalServicePort → ExternalServicePort → Bool
ports_equal p q =
    (p.name == q.name)
    && (p.protocol == q.protocol)
    && (p.port == q.port)
    && (p.bandwidth == q.bandwidth)

abbrev same_option {ℓ} : {A : Type ℓ} → (A → A → Bool) → Option A → Option A → Bool
same_option eq none none = true
same_option eq (some a) (some b) = eq a b
same_option eq _ _ = false

abbrev references_equal : ObjectReference → ObjectReference → Bool
references_equal p q =
    (p.kind == q.kind)
    && (p.namespace == q.namespace)
    && (p.name == q.name)
    && (p.uid == q.uid)
    && (p.api_version == q.api_version)
    && (p.resource_version == q.resource_version)
    && (p.field_path == q.field_path)

abbrev addresses_equal : EndpointAddress → EndpointAddress → Bool
addresses_equal p q =
    (p.ip == q.ip)
    && (p.hostname == q.hostname)
    && same_option (λ s t. s == t) p.node_name q.node_name
    && same_option references_equal p.target_ref q.target_ref

abbrev endpoint_ports_equal : EndpointPort → EndpointPort → Bool
endpoint_ports_equal p q =
    (p.name == q.name)
    && int_eq p.port q.port
    && (p.protocol == q.protocol)
    && same_option (λ s t. s == t) p.app_protocol q.app_protocol

abbrev pub subsets_equal : EndpointSubset → EndpointSubset → Bool
subsets_equal p q =
    slices_equal addresses_equal p.addresses q.addresses
    && slices_equal addresses_equal p.not_ready_addresses q.not_ready_addresses
    && slices_equal endpoint_ports_equal p.ports q.ports

module _ (r : Registry) where
  abbrev pub is_watched : String → Bool
  is_watched namespace = elim (get_tenant_config_for_namespace r namespace) [
    | none ↦ false
    | some _ ↦ true
  ]

  unfoldable pub is_update : Change → Bool
  unfolding get_tenant_config_for_namespace
  is_update (cluster_rules old new) =
      if old.resource_version == new.resource_version
      then false
      else if not (old.action == new.action)
      then true
      else if not (bool_eq old.logging new.logging)
      then true
      else if not (texts_equal old.external_services new.external_services)
      then true
      else false
  is_update (namespace_rules old new) =
      if not (is_watched old.namespace)
      then false
      else if old.resource_version == new.resource_version
      then false
      else if not (old.action == new.action)
      then true
      else if not (bool_eq old.logging new.logging)
      then true
      else if not (texts_equal old.external_services new.external_services)
      then true
      else false
  -- the source compares the service of the old rule with itself
  is_update (service_rules old new) =
      if not (is_watched old.namespace)
      then false
      else if old.resource_version == new.resource_version
      then false
      else if not (old.action == new.action)
      then true
      else if not (bool_eq old.logging new.logging)
      then true
      else if not (old.service == old.service)
      then true
      else if not (texts_equal old.external_services new.external_services)
      then true
      else false
  is_update (external_services old new) =
      if old.resource_version == new.resource_version
      then false
      else if old.resource_version == new.resource_version
      then true
      else if not (texts_equal old.addresses new.addresses)
      then true
      else if not (slices_equal ports_equal old.ports new.ports)
      then true
      else false
  is_update (endpoints old new) =
      if old.namespace == "kube-system"
      then false
      else if not (is_watched old.namespace)
      then false
      else if old.resource_version == new.resource_version
      then false
      else if is_empty new.subsets
      then false
      else if not (slices_equal subsets_equal old.subsets new.subsets)
      then true
      else false
