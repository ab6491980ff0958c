-- ===== src/As3/Merge/Unreferenced.antt =====
-- What `clearUpUnreferencePolicy` of pkg/as3/utils.go leaves of a shared application.
use container_egress_service.Prelude.{
  String, ◌≡◌, refl, sym, ◌∙◌, ap, Bool, false, not, inl, inr, Option, none, some, List, [], ◌∷◌,
  ◌&&◌, ◌||◌, arith, eq_iff, mem, ◌==◌, Bool-cases, if◌then◌else◌,
}
use mathlib.Core.Path.{subst}
use container_egress_service.Prelude.Outcome.{returns, each, >>=-eq-returns}
use container_egress_service.Prelude.GoMap.{
  GoMap, lookup, delete, lookup-delete, IsMap, lookup_first,
}
use container_egress_service.Json.{Json}
use container_egress_service.As3.Config.{Registry, is_config_log_profile}
use container_egress_service.As3.Merge.Cleanup.{
  Flags, flag_entry, delete_unflagged, clear_up_unreference_policy,
}
use container_egress_service.As3.Merge.Flags.{
  kind_of, kind_names, is_list, is_log, Flagged, flag_entry-Flagged,
}

-- whether a rule of the application refers to `k`
abbrev pub is_referenced : String → GoMap Json → Bool
is_referenced k [] = false
is_referenced k ((j, v) ∷ app) = kind_names k (kind_of v) || is_referenced k app

-- What the clean-up keeps of the entry under `k`.
abbrev pub kept : Registry → GoMap Json → String → Option Json → Option Json
kept r app k none = none
kept r app k (some v) =
    if (is_list v && not (is_referenced k app)) || (is_log v && not (is_config_log_profile r))
    then none
    else some v

module _ (r : Registry) (k : String) where
  abbrev is_some_list : Option Json → Bool
  is_some_list none = false
  is_some_list (some v) = is_list v

  abbrev is_some_log : Option Json → Bool
  is_some_log none = false
  is_some_log (some v) = is_log v

  -- the same of the entries that the loop has before it
  abbrev listed : GoMap Json → Bool
  listed [] = false
  listed ((j, v) ∷ app) = ((j == k) && is_list v) || listed app

  abbrev logged : GoMap Json → Bool
  logged [] = false
  logged ((j, v) ∷ app) = ((j == k) && is_log v) || logged app

  record Scanned (s : Flags) (todo : GoMap Json) (s' : Flags) : Type 0 where
    names : mem k s'.flag1 ≡ (mem k s.flag1 || is_referenced k todo)
    lists : mem k s'.flag2 ≡ (mem k s.flag2 || listed todo)
    rest :
        lookup k s'.share_app
        ≡ (if logged todo && not (is_config_log_profile r) then none else lookup k s.share_app)

  Scanned-first :
      (s : Flags) (j : String) (v : Json) (t : Flags) (todo : GoMap Json) (s' : Flags)
      → Flagged r k s j (kind_of v) t
      → Scanned t todo s'
      → Scanned s ((j, v) ∷ todo) s'
  Scanned-first s j v t todo s' f h = record {
    names = ground (arith, f.names, h.names);
    lists = ground (arith, f.lists, h.lists);
    rest = ground (arith, f.rest, h.rest);
  }

  each-Scanned :
      (todo : GoMap Json) (s s' : Flags)
      → each (flag_entry r) s todo ≡ returns s'
      → Scanned s todo s'
  unfolding each
  each-Scanned [] s s' h =
      let same : s ≡ s' = cc in
      subst (Scanned s []) same
        (record { names = ground arith; lists = ground arith; rest = ground arith })
  each-Scanned ((j, v) ∷ todo) s s' h =
      let (t, first, later) =
        >>=-eq-returns (flag_entry r s (j, v)) (λ u. each (flag_entry r) u todo) h in
      Scanned-first s j v t todo s' (flag_entry-Flagged r k s j v t first)
        (each-Scanned todo t s' later)

  lookup-delete_unflagged :
      (flag1 flag2 : List String) (app : GoMap Json)
      → lookup k (delete_unflagged r flag1 flag2 app)
        ≡ (if mem k flag2 && not (mem k flag1) then none else lookup k app)
  unfolding delete_unflagged
  lookup-delete_unflagged flag1 [] app = refl
  lookup-delete_unflagged flag1 (j ∷ flag2) app =
      lookup-delete_unflagged flag1 flag2 (if mem j flag1 then app else delete j app)
      ∙ ground (arith, eq_iff j k, lookup-delete j k app)

  -- in a map the entry under `k` is the only one
  listed-lookup : (app : GoMap Json) → IsMap app → listed app ≡ is_some_list (lookup k app)
  unfolding lookup
  listed-lookup [] h = refl
  listed-lookup ((j, v) ∷ app) h = elim (Bool-cases (j == k)) [
    | inl hit ↦
        let (first, absent) = lookup_first k j v app h.0 hit in
        let later : listed app ≡ false = listed-lookup app h.1 ∙ ap is_some_list absent in
        rw (hit, later) (ground arith)
    | inr miss ↦ rw miss (listed-lookup app h.1)
  ]

  logged-lookup : (app : GoMap Json) → IsMap app → logged app ≡ is_some_log (lookup k app)
  unfolding lookup
  logged-lookup [] h = refl
  logged-lookup ((j, v) ∷ app) h = elim (Bool-cases (j == k)) [
    | inl hit ↦
        let (first, absent) = lookup_first k j v app h.0 hit in
        let later : logged app ≡ false = logged-lookup app h.1 ∙ ap is_some_log absent in
        rw (hit, later) (ground arith)
    | inr miss ↦ rw miss (logged-lookup app h.1)
  ]

-- If the clean-up of a shared application returns, then an entry is gone exactly if it is an address
-- list or a port list to which no rule of the application refers, or if it is a log profile or a
-- log publisher and no logging is configured; every other entry is as it was.
pub lookup-clear_up :
    (r : Registry) (k : String) (app out : GoMap Json)
    → IsMap app
    → clear_up_unreference_policy r app ≡ returns out
    → lookup k out ≡ kept r app k (lookup k app)
unfolding clear_up_unreference_policy
lookup-clear_up r k app out h e =
    let start : Flags = record { flag1 = []; flag2 = []; share_app = app } in
    let (s, scanned, ends) =
      >>=-eq-returns (each (flag_entry r) start app)
        (λ t. returns (delete_unflagged r t.flag1 t.flag2 t.share_app)) e in
    let flags = each-Scanned r k app start s scanned in
    let same : delete_unflagged r s.flag1 s.flag2 s.share_app ≡ out = cc in
    ap (lookup k) (sym same)
    ∙ lookup-delete_unflagged r k s.flag1 s.flag2 s.share_app
    ∙ ground (
      arith,
      flags.names,
      flags.lists,
      flags.rest,
      listed-lookup r k app h,
      logged-lookup r k app h,
    )
