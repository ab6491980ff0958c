-- ===== src/Io.antt =====
-- What the program does to the world, one effect after another, and what the world answers. A Go
-- call returns a value or an error, or it panics; what it did before stays done.
pub mod Traces
pub mod Scripts
use container_egress_service.Prelude.{ℕ, String, ◌≡◌, refl, Option, none, some, List, [], ◌∷◌, ◌++◌}
use container_egress_service.Prelude.Outcome.{Outcome, returns, panics}
use container_egress_service.Json.{Json}
use container_egress_service.Kube.{
  ExternalService, ClusterEgressRule, NamespaceEgressRule, ServiceEgressRule, Endpoints, Namespace,
}

-- Errors by what they are about; the texts of the messages are not modelled.
pub data Error : Type 0 where
  transport bad_json big_ip_error big_ip_status : Error
  as3_status : ℕ → Error
  kube invalid_bandwidth no_addresses bad_object no_common : Error

pub data Method : Type 0 where
  get post patch : Method

pub record Request : Type 0 where
  pub method : Method
  pub url : String
  pub body : Option Json

-- `unreachable`: there is no response, or its body cannot be read
pub data Response : Type 0 where
  unreachable : Response
  answered : ℕ → String → Response

-- The subject of a recorded event
pub data Subject : Type 0 where
  cluster_rule : ClusterEgressRule → Subject
  namespace_rule : NamespaceEgressRule → Subject
  service_rule : ServiceEgressRule → Subject
  external_service : ExternalService → Subject
  endpoints : Endpoints → Subject

-- recorder.Event: `normal` is SuccessSynced, `warning` carries the error
pub data Effect : Type 0 where
  http : Request → Effect
  update_external_service : ExternalService → Effect
  update_status : Subject → Effect
  normal : Subject → Effect
  warning : Subject → Effect
  touch_source_address : Effect

-- A lister or the API server finds an object, or not, or fails otherwise.
pub data Found {ℓ} (A : Type ℓ) : Type ℓ where
  found : A → Found A
  not_found : Found A
  unavailable : Found A

-- What the program does not implement: BIG-IP, the API server and the informers' caches. An answer
-- may depend on all that happened before.
pub record World : Type 0 where
  pub respond : List Effect → Request → Response
  pub external_service : List Effect → String → String → Found ExternalService
  pub cluster_rule : List Effect → String → Found ClusterEgressRule
  pub namespace_rule : List Effect → String → String → Found NamespaceEgressRule
  pub service_rule : List Effect → String → String → Found ServiceEgressRule
  pub endpoints : List Effect → String → String → Found Endpoints
  pub namespace : List Effect → String → Found Namespace
  pub cluster_rules : List Effect → Option (List ClusterEgressRule)
  pub namespace_rules : List Effect → String → Option (List NamespaceEgressRule)
  pub service_rules : List Effect → String → Option (List ServiceEgressRule)
  pub update_external_service : List Effect → ExternalService → Option Error
  pub update_cluster_status : List Effect → ClusterEgressRule → ClusterEgressRule × Option Error
  pub update_namespace_status :
      List Effect → NamespaceEgressRule → NamespaceEgressRule × Option Error
  pub update_service_status : List Effect → ServiceEgressRule → ServiceEgressRule × Option Error

pub data Step {ℓ} (A : Type ℓ) : Type ℓ where
  done : A → Step A
  failed : Error → Step A
  panicked : Step A

-- The effects so far, and those after the call.
abbrev pub Io {ℓ} : Type ℓ → Type ℓ
Io A = List Effect → Step A × List Effect

module _ {ℓ} {A : Type ℓ} where
  abbrev pub pure : A → Io A
  pure a s = (done a, s)

  abbrev pub fail : Error → Io A
  fail e s = (failed e, s)

  abbrev pub panic : Io A
  panic s = (panicked, s)

  abbrev pub lift : Outcome A → Io A
  lift (returns a) s = (done a, s)
  lift panics s = (panicked, s)

  -- what the world says now
  abbrev pub ask : (List Effect → A) → Io A
  ask f s = (done (f s), s)

abbrev pub emit : Effect → Io (Unit {0})
emit e s = (done tt, s ++ e ∷ [])

abbrev pub continue {ℓ κ} :
    {A : Type ℓ} {B : Type κ} → Step A → (A → Io B) → List Effect → Step B × List Effect
continue (done a) f s = f a s
continue (failed e) f s = (failed e, s)
continue panicked f s = (panicked, s)

infixl 5 ◌>>=◌ ◌>>◌
abbrev pub ◌>>=◌ {ℓ κ} : {A : Type ℓ} {B : Type κ} → Io A → (A → Io B) → Io B
◌>>=◌ m f s = let (r, s') = m s in continue r f s'

abbrev pub ◌>>◌ {ℓ} : {B : Type ℓ} → Io (Unit {0}) → Io B → Io B
m >> k = m >>= λ _. k

-- an `error` that is nil, or not
abbrev pub check : Option Error → Io (Unit {0})
check none = pure tt
check (some e) = fail e

pub data Reply {ℓ} (A : Type ℓ) : Type ℓ where
  ok : A → Reply A
  err : Error → Reply A

abbrev pub reply_of {ℓ} : {A : Type ℓ} → Step A × List Effect → Step (Reply A) × List Effect
reply_of (done a, s) = (done (ok a), s)
reply_of (failed e, s) = (done (err e), s)
reply_of (panicked, s) = (panicked, s)

-- a call whose error the caller looks at
abbrev pub attempt {ℓ} : {A : Type ℓ} → Io A → Io (Reply A)
attempt m s = reply_of (m s)
