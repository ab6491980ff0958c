-- ===== src/As3/Rules/Services.antt =====
-- Which external services a rule gets (the nested loops of `dealRule` in pkg/as3/utils.go).
use container_egress_service.Prelude.{
  String, ◌≡◌, refl, Bool, List, [], ◌∷◌, ◌&&◌, any, any-append, map, keep, mem, ◌==◌, eq_iff,
  arith,
}
use container_egress_service.Kube.{ExternalService}
use container_egress_service.As3.Types.{ExsvcDate}
use container_egress_service.As3.Rules.{deal_exsvc, exsvcs_of}

-- an external service of that name in the namespace
abbrev pub is_named : String → String → ExternalService → Bool
is_named namespace name exsvc = (name == exsvc.name) && (exsvc.namespace == namespace)

abbrev pub has_data : String → List ExsvcDate → Bool
has_data name = any (λ d. name == d.name)

has_data-kept :
    (namespace wanted name : String) (exsvcs : List ExternalService)
    → has_data wanted (map deal_exsvc (keep (is_named namespace name) exsvcs))
      ≡ ((name == wanted) && any (is_named namespace wanted) exsvcs)
unfolding deal_exsvc
has_data-kept namespace wanted name [] = ground arith
has_data-kept namespace wanted name (x ∷ exsvcs) = ground (
  arith,
  has_data-kept namespace wanted name exsvcs,
  eq_iff name wanted,
  eq_iff name x.name,
  eq_iff wanted x.name,
)

-- A rule gets exactly the external services that it names and that exist in its namespace.
pub has_data-exsvcs_of :
    (namespace wanted : String) (names : List String) (exsvcs : List ExternalService)
    → has_data wanted (exsvcs_of namespace names exsvcs)
      ≡ (mem wanted names && any (is_named namespace wanted) exsvcs)
unfolding exsvcs_of
has_data-exsvcs_of namespace wanted [] exsvcs = refl
has_data-exsvcs_of namespace wanted (name ∷ names) exsvcs = ground (
  arith,
  any-append (λ d. wanted == d.name) (map deal_exsvc (keep (is_named namespace name) exsvcs))
      (exsvcs_of namespace names exsvcs),
  has_data-kept namespace wanted name exsvcs,
  has_data-exsvcs_of namespace wanted names exsvcs,
)
