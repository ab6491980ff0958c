-- ===== src/As3/Closed/Rules.antt =====
-- The rule lists that `newRulesDecl` of pkg/as3/utils.go adds to a shared application.
use container_egress_service.Prelude.{
  String, ◌≡◌, ap, ◌∙◌, sym, Bool, true, false, ◌||◌, inl, inr, Option, none, some, List, [], ◌∷◌,
  All, ◌==◌, Bool-cases, eq_iff, if◌then◌else◌,
}
use Prim.Native.Char.{Char}
use text.Mathlib.TextLemmas.{nil-append, cons-append}
use container_egress_service.Prelude.Outcome.{returns, deref, >>=-eq-returns}
use container_egress_service.Prelude.GoMap.{has}
use container_egress_service.Prelude.Text.{◌⊕◌}
use container_egress_service.As3.Types.{Use, FirewallRule, default_partition}
use container_egress_service.As3.Config.{Registry, get_tenant_config_for_namespace}
use container_egress_service.As3.Attrs.{shared_path, get_as3_use_path_for_namespace}
use container_egress_service.As3.Resource.{App}
use container_egress_service.As3.Firewall.{source_lists, new_firewall_rule}
use container_egress_service.As3.Closed.{Refers, RuleRefers, Local}

pub deref-returns : {A : Type 0} (o : Option A) (a : A) → deref o ≡ returns a → o ≡ some a
deref-returns none a h = cc
deref-returns (some b) a h = cc

abbrev is_blank_text : String → Bool
is_blank_text String.[] = true
is_blank_text (String.◌∷◌ c s) = false

cons_not_empty : (c : Char) (s : String) → (String.◌∷◌ c s == "") ≡ false
cons_not_empty c s = elim (Bool-cases (String.◌∷◌ c s == "")) [
  | inl hit ↦ let same : false ≡ true = ap is_blank_text ((eq_iff (String.◌∷◌ c s) "").0 hit) in cc
  | inr miss ↦ miss
]

-- A text is not empty if one of its parts is not.
pub append_not_empty : (s t : String) → (t == "") ≡ false → (s ⊕ t == "") ≡ false
append_not_empty String.[] t h = rw (nil-append t) h
append_not_empty (String.◌∷◌ c s) t h = rw (cons-append c s t) (cons_not_empty c (s ⊕ t))

-- the attributes of a declaration are joined by underscores
pub joined_not_empty : (s t : String) → (s ⊕ ("_" ⊕ t) == "") ≡ false
joined_not_empty s t =
    append_not_empty s ("_" ⊕ t)
      (ap (λ x. x == "") (cons-append "_" "" t) ∙ cons_not_empty "_" ("" ⊕ t))

module _ (home : String) where
  module _ (r : Registry) (app : App) where
    named-Refers :
        (partition attr path : String)
        → partition ≡ home
        → returns (shared_path partition attr) ≡ returns path
        → has attr app ≡ true
        → (Refers home) app (record { path = path })
    named-Refers partition attr path own e h =
        let same : shared_path partition attr ≡ path = cc in
        record { attr = attr; is_path = sym same ∙ ap (λ p. shared_path p attr) own; is_there = h }

    pub get_as3_use_path_for_namespace-Refers :
        (namespace attr path : String)
        → Local home r namespace
        → (attr == "") ≡ false
        → get_as3_use_path_for_namespace r namespace attr ≡ returns path
        → has attr app ≡ true
        → (Refers home) app (record { path = path })
    unfolding get_as3_use_path_for_namespace
    get_as3_use_path_for_namespace-Refers namespace attr path own n e h =
        elim (Bool-cases (namespace == "")) [
          | inl global ↦
              named-Refers default_partition attr path (sym (own.global global))
                (rw (n, global) at e) h
          | inr local ↦
              let (tntcfg, got, made) =
                >>=-eq-returns (deref (get_tenant_config_for_namespace r namespace))
                  (λ t. returns (shared_path t.name attr)) (rw (n, local) at e) in
              named-Refers tntcfg.name attr path
                (own.configured tntcfg local
                  (deref-returns (get_tenant_config_for_namespace r namespace) tntcfg got))
                made h
        ]

    source_lists-Refers :
        (namespace attr : String) (uses : List Use)
        → Local home r namespace
        → source_lists r namespace attr ≡ returns uses
        → ((attr == "") || has attr app) ≡ true
        → All ((Refers home) app) uses
    source_lists-Refers namespace attr uses own e h = elim (Bool-cases (attr == "")) [
      | inl none_given ↦
          let q : [] ≡ uses = (let q' : returns [] ≡ returns uses = rw none_given at e in cc) in
          rw (← q) tt
      | inr n ↦
          let (path, got, made) =
            >>=-eq-returns (get_as3_use_path_for_namespace r namespace attr)
              (λ p. returns (record { path = p } ∷ [])) (rw n at e) in
          let q : (record { path = path } ∷ []) ≡ uses = cc in
          rw (← q)
            (get_as3_use_path_for_namespace-Refers namespace attr path own n got (rw n at h), tt)
    ]

    port_lists-Refers :
        (protocol path : String)
        → ((protocol == "") ≡ false → (Refers home) app (record { path = path }))
        → All ((Refers home) app) (if protocol == "" then [] else record { path = path } ∷ [])
    port_lists-Refers protocol path h = elim (Bool-cases (protocol == "")) [
      | inl e ↦ rw e tt
      | inr e ↦ rw e (h e, tt)
    ]

    -- A rule refers to lists that are there, if the lists of its names are.
    pub new_firewall_rule-RuleRefers :
        (fwr_name protocol namespace action exsvc_name irule dest_attr port_attr src_attr : String)
        (logging : Bool) (rule : FirewallRule)
        → Local home r namespace
        → new_firewall_rule r fwr_name protocol namespace action exsvc_name irule dest_attr
            port_attr src_attr logging
          ≡ returns rule
        → (dest_attr == "") ≡ false
        → has dest_attr app ≡ true
        → (port_attr == "") ≡ false
        → ((protocol == "") || has port_attr app) ≡ true
        → ((src_attr == "") || has src_attr app) ≡ true
        → (RuleRefers home) app rule
    unfolding new_firewall_rule
    new_firewall_rule-RuleRefers fwr_name protocol namespace action exsvc_name irule dest_attr
          port_attr src_attr logging rule own e dn dh pn ph sh =
        let (dest_path, d, e1) =
          >>=-eq-returns (get_as3_use_path_for_namespace r namespace dest_attr) _ e in
        let (port_path, p, e2) =
          >>=-eq-returns (get_as3_use_path_for_namespace r namespace port_attr) _ e1 in
        let (uses, s, e3) = >>=-eq-returns (source_lists r namespace src_attr) _ e2 in
        let q : record {
          protocol = protocol;
          name = action ⊕ ("_" ⊕ (exsvc_name ⊕ ("_" ⊕ fwr_name)));
          irule = if irule == "" then "" else "/Common/" ⊕ irule;
          destination = record {
            address_lists = record { path = dest_path } ∷ [];
            port_lists = if protocol == "" then [] else record { path = port_path } ∷ [];
          };
          source = record { address_lists = uses; port_lists = [] };
          action = action;
          logging_enabled = logging;
        }
            ≡ rule =
          cc in
        rw (← q) (record {
          to_addresses =
              (get_as3_use_path_for_namespace-Refers namespace dest_attr dest_path own dn d dh, tt);
          to_ports = port_lists-Refers protocol port_path λ given.
              get_as3_use_path_for_namespace-Refers namespace port_attr port_path own pn p
                (rw given at ph);
          from_addresses = source_lists-Refers namespace src_attr uses own s sh;
          from_ports = tt;
        })
