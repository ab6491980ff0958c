-- ===== src/As3/Closed.antt =====
-- When a shared application of pkg/as3/utils.go is closed: what its rule lists and its policies use,
-- and the pool and the addresses of its virtual server, stand in it.
pub mod Rules
pub mod RuleLists
pub mod Posts
pub mod RulesDecl
pub mod Policies
pub mod Generated
pub mod Tenants
mod Tests
use container_egress_service.Prelude.{
  String, ◌≡◌, refl, ◌∙◌, Bool, true, false, ◌||◌, inl, inr, Option, none, some, List, [], ◌∷◌,
  ◌++◌, All, All-weaken, ◌==◌, Bool-cases, eq_iff, eq_refl, arith, if◌then◌else◌,
}
use container_egress_service.Prelude.GoMap.{lookup, insert, has, lookup-insert, has-insert}
use container_egress_service.As3.Types.{Use, FirewallRule, TenantConfig}
use container_egress_service.As3.Config.{Registry, get_tenant_config_for_namespace}
use container_egress_service.As3.Attrs.{shared_path}
use container_egress_service.As3.Resource.{
  Resource, App, plain, address_list, port_list, rule_list, policy, pool, virtual_server,
  virtual_address, json,
}

-- every object that was there is there
abbrev pub Grows : App → App → Type 0
Grows app app' = (k : String) → has k app ≡ true → has k app' ≡ true

module _ (k : String) (v : Resource) (app : App) where
  pub insert-Grows : Grows app (insert k v app)
  insert-Grows j h = has-insert k j v app ∙ ground (arith, h)

  pub has-inserted : has k (insert k v app) ≡ true
  has-inserted = has-insert k k v app ∙ rw (eq_refl k) refl

-- The rules of a namespace belong to the partition `home`; a cluster rule has none, and belongs to
-- Common.
pub record Local (home : String) (r : Registry) (namespace : String) : Type 0 where
  pub global : (namespace == "") ≡ true → home ≡ "Common"
  pub configured :
      (t : TenantConfig)
      → (namespace == "") ≡ false
      → get_tenant_config_for_namespace r namespace ≡ some t
      → t.name ≡ home

module _ (home : String) where
  -- A path names an object of the application, in the partition `home`.
  pub record Refers (app : App) (u : Use) : Type 0 where
    pub attr : String
    pub is_path : u.path ≡ shared_path home attr
    pub is_there : has attr app ≡ true

  -- the lists of a rule
  pub record RuleRefers (app : App) (rule : FirewallRule) : Type 0 where
    pub to_addresses : All (Refers app) rule.destination.address_lists
    pub to_ports : All (Refers app) rule.destination.port_lists
    pub from_addresses : All (Refers app) rule.source.address_lists
    pub from_ports : All (Refers app) rule.source.port_lists

  abbrev pub Holds : App → Resource → Type 0
  Holds app (rule_list l) = All (RuleRefers app) l.rules
  Holds app (policy p) = All (Refers app) p.rules
  Holds app (virtual_server v) = All (Refers app) v.virtual_addresses × (has v.pool app ≡ true)
  Holds app _ = Unit

  -- what the entries of an application use stands in `big`
  abbrev pub ClosedIn : App → App → Type 0
  ClosedIn big app = (k : String) (v : Resource) → lookup k app ≡ some v → Holds big v

  abbrev pub IsClosed : App → Type 0
  IsClosed app = ClosedIn app app

  -- Nothing goes, and the application stays closed.
  pub record Extends (app app' : App) : Type 0 where
    pub closed : IsClosed app → IsClosed app'
    pub grown : Grows app app'

  pub unchanged : (app : App) → Extends app app
  unchanged app = record { closed = λ h. h; grown = λ k there. there }

  pub Extends-trans : (a b c : App) → Extends a b → Extends b c → Extends a c
  Extends-trans a b c f g = record {
    closed = λ h. g.closed (f.closed h);
    grown = λ k there. g.grown k (f.grown k there);
  }

  pub Extends-if :
      (p : Bool) (app b c : App) → Extends app b → Extends app c → Extends app (if p then b else c)
  Extends-if true app b c f g = f
  Extends-if false app b c f g = g

  module _ (app app' : App) (grows : Grows app app') where
    pub Refers-mono : (u : Use) → Refers app u → Refers app' u
    Refers-mono u h = record {
      attr = h.attr;
      is_path = h.is_path;
      is_there = grows h.attr h.is_there;
    }

    pub RuleRefers-mono : (rule : FirewallRule) → RuleRefers app rule → RuleRefers app' rule
    RuleRefers-mono rule h = record {
      to_addresses = All-weaken Refers-mono _ h.to_addresses;
      to_ports = All-weaken Refers-mono _ h.to_ports;
      from_addresses = All-weaken Refers-mono _ h.from_addresses;
      from_ports = All-weaken Refers-mono _ h.from_ports;
    }

    pub Holds-mono : (v : Resource) → Holds app v → Holds app' v
    Holds-mono (rule_list l) h = All-weaken RuleRefers-mono l.rules h
    Holds-mono (policy p) h = All-weaken Refers-mono p.rules h
    Holds-mono (plain _) h = tt
    Holds-mono (address_list _) h = tt
    Holds-mono (port_list _) h = tt
    Holds-mono (pool _) h = tt
    Holds-mono (virtual_server v) h =
        (All-weaken Refers-mono v.virtual_addresses h.0, grows v.pool h.1)
    Holds-mono (virtual_address _) h = tt
    Holds-mono (json _) h = tt

  module _ (k : String) (v : Resource) (app : App) where
    pub insert-ClosedIn :
        (big : App) → ClosedIn big app → Holds big v → ClosedIn big (insert k v app)
    insert-ClosedIn big closed held j w e = elim (Bool-cases (k == j)) [
      | inl hit ↦
          let q : some v ≡ some w = rw (lookup-insert k j v app, hit) at e in
          let same : v ≡ w = cc in rw (← same) held
      | inr miss ↦ closed j w (rw (lookup-insert k j v app, miss) at e)
    ]

    -- A new entry whose own uses stand in the application keeps it closed.
    pub insert-IsClosed : IsClosed app → Holds app v → IsClosed (insert k v app)
    insert-IsClosed closed held =
        let mono = Holds-mono app (insert k v app) (insert-Grows k v app) in
        insert-ClosedIn (insert k v app) (λ j w e. mono w (closed j w e)) (mono v held)

    pub insert-Extends : Holds app v → Extends app (insert k v app)
    insert-Extends held = record {
      closed = λ closed. insert-IsClosed closed held;
      grown = (insert-Grows k v app);
    }
