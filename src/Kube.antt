-- ===== src/Kube.antt =====
-- The custom resources of pkg/apis/kubeovn.io/v1alpha1, and the fields of the Kubernetes objects
-- that the controller reads (their types are defined outside the repository).
use container_egress_service.Prelude.{String, Bool, List, Option, map}
use container_egress_service.Prelude.Int.{ℤ}
use container_egress_service.Prelude.GoMap.{GoMap}

-- metav1.ObjectMeta
pub record ObjectMeta : Type 0 where
  pub name : String
  pub namespace : String
  pub resource_version : String
  pub labels : GoMap String
  pub annotations : GoMap String

pub record ExternalServicePort : Type 0 where
  pub name : String
  pub protocol : String
  pub port : String
  pub bandwidth : String

pub record ExternalService : Type 0 where
  pub meta : ObjectMeta
  pub open meta use *
  pub addresses : List String
  pub ports : List ExternalServicePort

-- The spec and the status of a rule stand beside its metadata. A phase is a string, as in the source.
pub record ClusterEgressRule : Type 0 where
  pub meta : ObjectMeta
  pub open meta use *
  pub action : String
  pub logging : Bool
  pub external_services : List String
  pub phase : String

pub record NamespaceEgressRule : Type 0 where
  pub meta : ObjectMeta
  pub open meta use *
  pub action : String
  pub logging : Bool
  pub external_services : List String
  pub phase : String

pub record ServiceEgressRule : Type 0 where
  pub meta : ObjectMeta
  pub open meta use *
  pub action : String
  pub logging : Bool
  pub service : String
  pub external_services : List String
  pub phase : String

abbrev pub phase_success : String
phase_success = "Success"

abbrev pub phase_syncing : String
phase_syncing = "Syncing"

-- corev1.ObjectReference
pub record ObjectReference : Type 0 where
  pub kind : String
  pub namespace : String
  pub name : String
  pub uid : String
  pub api_version : String
  pub resource_version : String
  pub field_path : String

-- corev1.EndpointAddress
pub record EndpointAddress : Type 0 where
  pub ip : String
  pub hostname : String
  pub node_name : Option String
  pub target_ref : Option ObjectReference

-- corev1.EndpointPort
pub record EndpointPort : Type 0 where
  pub name : String
  pub port : ℤ
  pub protocol : String
  pub app_protocol : Option String

-- corev1.EndpointSubset
pub record EndpointSubset : Type 0 where
  pub addresses : List EndpointAddress
  pub not_ready_addresses : List EndpointAddress
  pub ports : List EndpointPort

-- addr.IP of the addresses of a subset
abbrev pub ips : EndpointSubset → List String
ips subset = map (λ addr. addr.ip) subset.addresses

-- corev1.Endpoints
pub record Endpoints : Type 0 where
  pub meta : ObjectMeta
  pub open meta use *
  pub subsets : List EndpointSubset

-- corev1.Namespace
pub record Namespace : Type 0 where
  pub meta : ObjectMeta
  pub open meta use *
