-- ===== src/As3/Merge/Flags.antt =====
-- What the loop of `clearUpUnreferencePolicy` of pkg/as3/utils.go does with one entry.
use container_egress_service.Prelude.{
  String, ◌≡◌, refl, sym, ap, ◌∙◌, Bool, true, false, not, inl, inr, Option, none, some, List, [],
  ◌∷◌, ◌++◌, ◌&&◌, ◌||◌, arith, any-append, mem, ◌==◌, Bool-cases, if◌then◌else◌,
}
use mathlib.Core.Path.{subst}
use container_egress_service.Prelude.Outcome.{Outcome, returns, panics, ◌>>=◌}
use container_egress_service.Prelude.GoMap.{lookup, delete, lookup-delete}
use container_egress_service.Json.{Json, null, bool, num, text, arr, obj, Fields, field?}
use container_egress_service.As3.Types.{
  class_firewall_address_list, class_firewall_port_list, class_firewall_rule_list,
  class_security_log_profile, class_log_publisher,
}
use container_egress_service.As3.Config.{Registry, is_config_log_profile}
use container_egress_service.As3.Merge.References.{rules_use, rules_names-rules_use}
use container_egress_service.As3.Merge.Cleanup.{
  Flags, rules_names, flag_class, flag_object, flag_entry,
}

-- What an entry is to the clean-up.
pub data Kind : Type 0 where
  rules_with : Fields → Kind
  list log other : Kind

abbrev pub kind_of_class : String → Fields → Kind
kind_of_class class fs =
    if class == class_firewall_rule_list
    then rules_with fs
    else if ((class == class_firewall_address_list) || (class == class_firewall_port_list))
    then list
    else if ((class == class_security_log_profile) || (class == class_log_publisher))
    then log
    else other

abbrev kind_of_object : Fields → Option Json → Kind
kind_of_object fs (some (text class)) = kind_of_class class fs
kind_of_object fs _ = other

abbrev pub kind_of : Json → Kind
kind_of (obj fs) = kind_of_object fs (field? "class" fs)
kind_of _ = other

-- whether the rules of an entry refer to `k`
abbrev pub kind_names : String → Kind → Bool
kind_names k (rules_with fs) = rules_use k (field? "rules" fs)
kind_names k _ = false

abbrev is_list_kind : Kind → Bool
is_list_kind list = true
is_list_kind _ = false

abbrev is_log_kind : Kind → Bool
is_log_kind log = true
is_log_kind _ = false

-- an address list or a port list
abbrev pub is_list : Json → Bool
is_list v = is_list_kind (kind_of v)

-- a log profile or a log publisher
abbrev pub is_log : Json → Bool
is_log v = is_log_kind (kind_of v)

module _ (r : Registry) (k : String) where
  -- what the loop's body does to the flags, as far as `k` is concerned
  pub record Flagged (s : Flags) (j : String) (kind : Kind) (s' : Flags) : Type 0 where
    pub names : mem k s'.flag1 ≡ (mem k s.flag1 || kind_names k kind)
    pub lists : mem k s'.flag2 ≡ (mem k s.flag2 || ((j == k) && is_list_kind kind))
    pub rest : lookup k s'.share_app ≡ (
        if (j == k) && (is_log_kind kind && not (is_config_log_profile r))
        then none
        else lookup k s.share_app)

  unchanged : (s : Flags) (j : String) → Flagged s j other s
  unchanged s j = record { names = ground arith; lists = ground arith; rest = ground arith }

  moved :
      (s : Flags) (j : String) (kind : Kind) (t s' : Flags)
      → returns t ≡ returns s'
      → Flagged s j kind t
      → Flagged s j kind s'
  moved s j kind t s' e h = let same : t ≡ s' = cc in subst (Flagged s j kind) same h

  with_names :
      (s : Flags) (j : String) (fs : Fields) (names : List String)
      → returns names ≡ rules_names (field? "rules" fs)
      → Flagged s j (rules_with fs) (record s { flag1 = s.flag1 ++ names })
  with_names s j fs names e = record {
    names =
        any-append (λ t. t == k) s.flag1 names
        ∙ ap (λ b. mem k s.flag1 || b) (rules_names-rules_use k (field? "rules" fs) names (sym e));
    lists = ground arith;
    rest = ground arith;
  }

  flag_names :
      (s : Flags) (j : String) (fs : Fields) (o : Outcome (List String)) (s' : Flags)
      → o ≡ rules_names (field? "rules" fs)
      → (o >>= λ names. returns (record s { flag1 = s.flag1 ++ names })) ≡ returns s'
      → Flagged s j (rules_with fs) s'
  flag_names s j fs (returns names) s' e h =
      moved s j (rules_with fs) _ s' h (with_names s j fs names e)
  flag_names s j fs panics s' e h = cc

  as_list : (s : Flags) (j : String) → Flagged s j list (record s { flag2 = s.flag2 ++ j ∷ [] })
  as_list s j = record {
    names = ground arith;
    lists = ground (arith, any-append (λ t. t == k) s.flag2 (j ∷ []));
    rest = ground arith;
  }

  as_log :
      (s : Flags) (j : String)
      → is_config_log_profile r ≡ false
      → Flagged s j log (record s { share_app = delete j s.share_app })
  as_log s j off = record {
    names = ground arith;
    lists = ground arith;
    rest = rw off (lookup-delete j k s.share_app ∙ ground arith);
  }

  as_kept_log : (s : Flags) (j : String) → is_config_log_profile r ≡ true → Flagged s j log s
  as_kept_log s j on = record {
    names = ground arith;
    lists = ground arith;
    rest = rw on (ground arith);
  }

  flag_class-Flagged :
      (s : Flags) (j : String) (fs : Fields) (class : String) (s' : Flags)
      → flag_class r s j fs class ≡ returns s'
      → Flagged s j (kind_of_class class fs) s'
  flag_class-Flagged s j fs class s' h = elim (Bool-cases (class == class_firewall_rule_list)) [
    | inl is_rules ↦ rw is_rules (flag_names s j fs _ s' refl (rw is_rules at h))
    | inr e ↦
        elim (Bool-cases
          ((class == class_firewall_address_list) || (class == class_firewall_port_list))) [
            | inl is_addr ↦
                rw (e, is_addr) (moved s j list _ s' (rw (e, is_addr) at h) (as_list s j))
            | inr e' ↦
                elim (Bool-cases
                  ((class == class_security_log_profile) || (class == class_log_publisher))) [
                    | inl is_logs ↦ elim (Bool-cases (is_config_log_profile r)) [
                      | inl on ↦
                          rw (e, e', is_logs)
                            (moved s j log s s' (rw (e, e', is_logs, on) at h) (as_kept_log s j on))
                      | inr off ↦
                          rw (e, e', is_logs)
                            (moved s j log _ s' (rw (e, e', is_logs, off) at h) (as_log s j off))
                    ]
                    | inr e'' ↦
                        rw (e, e', e'')
                          (moved s j other s s' (rw (e, e', e'') at h) (unchanged s j))
                  ]
          ]
  ]

  flag_object-Flagged :
      (s : Flags) (j : String) (fs : Fields) (o : Option Json) (s' : Flags)
      → flag_object r s j fs o ≡ returns s'
      → Flagged s j (kind_of_object fs o) s'
  flag_object-Flagged s j fs none s' h = moved s j other s s' h (unchanged s j)
  flag_object-Flagged s j fs (some null) s' h = moved s j other s s' h (unchanged s j)
  flag_object-Flagged s j fs (some (text class)) s' h = flag_class-Flagged s j fs class s' h
  flag_object-Flagged s j fs (some (bool _)) s' h = cc
  flag_object-Flagged s j fs (some (num _)) s' h = cc
  flag_object-Flagged s j fs (some (arr _)) s' h = cc
  flag_object-Flagged s j fs (some (obj _)) s' h = cc

  pub flag_entry-Flagged :
      (s : Flags) (j : String) (v : Json) (s' : Flags)
      → flag_entry r s (j, v) ≡ returns s'
      → Flagged s j (kind_of v) s'
  unfolding flag_entry
  flag_entry-Flagged s j (obj fs) s' h = flag_object-Flagged s j fs (field? "class" fs) s' h
  flag_entry-Flagged s j null s' h = moved s j other s s' h (unchanged s j)
  flag_entry-Flagged s j (bool _) s' h = moved s j other s s' h (unchanged s j)
  flag_entry-Flagged s j (num _) s' h = moved s j other s s' h (unchanged s j)
  flag_entry-Flagged s j (text _) s' h = moved s j other s s' h (unchanged s j)
  flag_entry-Flagged s j (arr _) s' h = moved s j other s s' h (unchanged s j)
