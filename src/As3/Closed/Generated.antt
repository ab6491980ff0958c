-- ===== src/As3/Closed/Generated.antt =====
-- The declarations that `generateAS3ResourceDeclaration` of pkg/as3/utils.go makes are closed.
use container_egress_service.Prelude.{
  String, ◌≡◌, refl, sym, true, false, not, inl, inr, Option, none, some, [], ◌∷◌, ◌==◌, Bool-cases,
}
use mathlib.Core.Path.{subst}
use container_egress_service.Prelude.Outcome.{returns, deref, returns-injective, >>=-eq-returns}
use container_egress_service.Prelude.GoMap.{GoMap, insert, has}
use container_egress_service.Json.{
  Json, null, bool, num, text, arr, obj, Fields, field?, object, entries,
}
use container_egress_service.As3.Types.{
  TenantConfig, LogPool, class_security_log_profile, class_log_publisher,
}
use container_egress_service.As3.Config.{
  Registry, is_config_log_profile, get_master_cluster, get_log_pool,
}
use container_egress_service.As3.Attrs.{
  get_as3_use_path_for_partition, get_as3_vs_va_attr, get_as3_gw_pool_attr, get_as3_vs_attr,
}
use container_egress_service.As3.Environment.{
  Environment, validate_json_text, Decoded, failed, nil_map, decoded,
}
use container_egress_service.As3.Resource.{App, virtual_server, json}
use container_egress_service.As3.Rules.{As3Post}
use container_egress_service.As3.Firewall.{new_policies_decl}
use container_egress_service.As3.Services.{
  fill_template, is_text, local_db, local_log_entry, local_log_entries, remote_log_entries,
  add_log_objects, contents, new_gw_pool_decl, new_log_pool_decl, new_virtual_address_decl,
  default_vs, add_vs, new_service_decl,
}
use container_egress_service.As3.Declaration.{process_resources_for_as3}
use container_egress_service.As3.Closed.{
  Refers, IsClosed, Extends, unchanged, Extends-trans, Extends-if, has-inserted, insert-Extends,
}
use container_egress_service.As3.Closed.Rules.{append_not_empty, deref-returns}
use container_egress_service.As3.Closed.Posts.{LocalPost}
use container_egress_service.As3.Closed.Policies.{new_policies_decl-IsClosed}

module _ (home : String) where
  abbrev RefersAt : App → String → String → Type 0
  RefersAt app partition attr =
      (Refers home) app (record { path = get_as3_use_path_for_partition partition attr })

  pub get_as3_use_path_for_partition-Refers :
      (app : App) (partition attr : String)
      → partition ≡ home
      → (home == "") ≡ false
      → (attr == "") ≡ false
      → has attr app ≡ true
      → (Refers home) app (record { path = get_as3_use_path_for_partition partition attr })
  unfolding get_as3_use_path_for_partition
  get_as3_use_path_for_partition-Refers app partition attr own named n h =
      subst (λ p. RefersAt app p attr) (sym own)
        (record { attr = attr; is_path = rw (n, named) refl; is_there = h })

  local_log_entry-Extends :
      (k : String) (fs : Fields) (app : App) → (Extends home) app (local_log_entry k fs app)
  local_log_entry-Extends k fs app =
      let with_destinations = json (object (insert "destinations" local_db (entries fs))) in
      (Extends-if home) (is_text class_security_log_profile (field? "class" fs)) app _ _
        ((insert-Extends home) k (json (obj fs)) app tt)
        ((Extends-if home) (is_text class_log_publisher (field? "class" fs)) app _ app
          ((insert-Extends home) k with_destinations app tt) ((unchanged home) app))

  local_log_entries-Extends :
      (entries : GoMap Json) (app : App) → (Extends home) app (local_log_entries entries app).1
  unfolding local_log_entries
  local_log_entries-Extends [] app = (unchanged home) app
  local_log_entries-Extends ((k, obj fs) ∷ rest) app =
      (Extends-trans home) _ _ _ (local_log_entry-Extends k fs app)
        (local_log_entries-Extends rest _)
  local_log_entries-Extends ((k, null) ∷ rest) app = (unchanged home) app
  local_log_entries-Extends ((k, bool _) ∷ rest) app = (unchanged home) app
  local_log_entries-Extends ((k, num _) ∷ rest) app = (unchanged home) app
  local_log_entries-Extends ((k, text _) ∷ rest) app = (unchanged home) app
  local_log_entries-Extends ((k, arr _) ∷ rest) app = (unchanged home) app

  remote_log_entries-Extends :
      (entries : GoMap Json) (app : App) → (Extends home) app (remote_log_entries entries app)
  unfolding remote_log_entries
  remote_log_entries-Extends [] app = (unchanged home) app
  remote_log_entries-Extends ((k, v) ∷ rest) app =
      (Extends-trans home) _ _ _ ((insert-Extends home) k (json v) app tt)
        (remote_log_entries-Extends rest _)

  module _ (r : Registry) where
    add_log_objects-Extends :
        (log : LogPool) (app : App) (c : Option (GoMap Json))
        → (Extends home) app (add_log_objects r log app c)
    add_log_objects-Extends log app none = (unchanged home) app
    add_log_objects-Extends log app (some logpool) =
        let from_local = (local_log_entries logpool app).1 in
        let from_remote = remote_log_entries logpool app in
        (Extends-if home) (not log.enable_remote_log) app _ _
          ((Extends-if home) (local_log_entries logpool app).0 app _ _
            ((Extends-trans home) app from_local _ (local_log_entries-Extends logpool app)
              ((insert-Extends home) _ _ from_local tt))
            (local_log_entries-Extends logpool app))
          ((Extends-trans home) app from_remote _ (remote_log_entries-Extends logpool app)
            ((insert-Extends home) _ _ from_remote tt))

    new_gw_pool_decl-Extends :
        (ac : As3Post) (app app' : App)
        → new_gw_pool_decl r ac app ≡ returns app'
        → (Extends home) app app' × (has (get_as3_gw_pool_attr r) app' ≡ true)
    unfolding new_gw_pool_decl
    new_gw_pool_decl-Extends ac app app' e =
        let (tntcfg, got, e1) = >>=-eq-returns (deref ac.tenant_config) _ e in
        let attr = get_as3_gw_pool_attr r in
        subst (λ t. (Extends home) app t × (has attr t ≡ true)) (returns-injective e1)
          ((insert-Extends home) attr _ app tt, has-inserted attr _ app)

    new_log_pool_decl-Extends :
        (env : Environment) (ac : As3Post) (app app' : App)
        → new_log_pool_decl r env ac app ≡ returns app'
        → (Extends home) app app'
    unfolding new_log_pool_decl
    new_log_pool_decl-Extends env ac app app' e = elim (Bool-cases (is_config_log_profile r)) [
      | inl on ↦
          let (tntcfg, got, e1) = >>=-eq-returns (deref ac.tenant_config) _ (rw on at e) in
          let log = get_log_pool r in
          let template = fill_template r log.template tntcfg.name in
          subst ((Extends home) app) (returns-injective e1)
            (add_log_objects-Extends log app (contents (validate_json_text env template)))
      | inr off ↦
          subst ((Extends home) app) (returns-injective (rw off at e)) ((unchanged home) app)
    ]

    new_virtual_address_decl-Extends :
        (env : Environment) (ac : As3Post) (app app' : App)
        → new_virtual_address_decl r env ac app ≡ returns app'
        → (Extends home) app app' × (has (get_as3_vs_va_attr r) app' ≡ true)
    unfolding new_virtual_address_decl
    new_virtual_address_decl-Extends env ac app app' e =
        let (tntcfg, got, e1) = >>=-eq-returns (deref ac.tenant_config) _ e in
        let attr = get_as3_vs_va_attr r in
        subst (λ t. (Extends home) app t × (has attr t ≡ true)) (returns-injective e1)
          (
            (Extends-trans home) app _ _
                ((Extends-if home) _ app _ app
                  ((Extends-if home) _ app _ app ((insert-Extends home) attr _ app tt)
                    ((unchanged home) app))
                  ((unchanged home) app))
                ((insert-Extends home) attr _ _ tt),
            has-inserted attr _ _,
          )

    add_vs-Extends :
        (tntcfg : TenantConfig) (path : String) (app app' : App) (vs : Decoded)
        → tntcfg.name ≡ home
        → (home == "") ≡ false
        → add_vs r tntcfg path app vs ≡ returns app'
        → has (get_as3_gw_pool_attr r) app ≡ true
        → has (get_as3_vs_va_attr r) app ≡ true
        → (Extends home) app app'
    unfolding default_vs get_as3_vs_va_attr
    add_vs-Extends tntcfg path app app' failed own named e pool_there va_there =
        subst ((Extends home) app) (returns-injective e) (
          (insert-Extends home) (get_as3_vs_attr r) (virtual_server (default_vs r tntcfg path)) app
            (
              (
                get_as3_use_path_for_partition-Refers app tntcfg.name (get_as3_vs_va_attr r) own
                    named (append_not_empty (get_master_cluster r) "_outbound_va" refl) va_there,
                tt,
              ),
              pool_there,
            ))
    add_vs-Extends tntcfg path app app' nil_map own named e pool_there va_there = cc
    add_vs-Extends tntcfg path app app' (decoded vs) own named e pool_there va_there =
        subst ((Extends home) app) (returns-injective e)
          ((insert-Extends home) (get_as3_vs_attr r) _ app tt)

    new_service_decl-Extends :
        (env : Environment) (ac : As3Post) (app app' : App)
        → LocalPost home r ac
        → (home == "") ≡ false
        → new_service_decl r env ac app ≡ returns app'
        → has (get_as3_gw_pool_attr r) app ≡ true
        → has (get_as3_vs_va_attr r) app ≡ true
        → (Extends home) app app'
    unfolding new_service_decl
    new_service_decl-Extends env ac app app' post named e pool_there va_there =
        let (tntcfg, got, e1) = >>=-eq-returns (deref ac.tenant_config) _ e in
        add_vs-Extends tntcfg _ app app' _
          (post.owned tntcfg (deref-returns ac.tenant_config tntcfg got)) named e1 pool_there
          va_there

    -- processResourcesForAS3 keeps an application closed.
    pub process_resources_for_as3-IsClosed :
        (env : Environment) (ac : As3Post) (app app' : App)
        → LocalPost home r ac
        → (home == "") ≡ false
        → process_resources_for_as3 r env ac app ≡ returns app'
        → (IsClosed home) app
        → (IsClosed home) app'
    unfolding process_resources_for_as3
    process_resources_for_as3-IsClosed env ac app app' post named e closed =
        let (a, got_a, ea) = >>=-eq-returns (new_policies_decl r env ac app) _ e in
        let (b, got_b, eb) = >>=-eq-returns (new_gw_pool_decl r ac a) _ ea in
        let (c, got_c, ec) = >>=-eq-returns (new_log_pool_decl r env ac b) _ eb in
        let (d, got_d, ed) = >>=-eq-returns (new_virtual_address_decl r env ac c) _ ec in
        let (ab, pool_b) = new_gw_pool_decl-Extends ac a b got_b in
        let bc = new_log_pool_decl-Extends env ac b c got_c in
        let (cd, va_d) = new_virtual_address_decl-Extends env ac c d got_d in
        let pool_d = cd.grown (get_as3_gw_pool_attr r) (bc.grown (get_as3_gw_pool_attr r) pool_b) in
        let last = new_service_decl-Extends env ac d app' post named ed pool_d va_d in
        last.closed (
          cd.closed (
            bc.closed
              (ab.closed ((new_policies_decl-IsClosed home) r env ac app a post got_a closed))))
