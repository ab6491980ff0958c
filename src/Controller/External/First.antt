-- ===== src/Controller/External/First.antt =====
-- Through which rule a changed external service is synchronised.
use container_egress_service.Prelude.{
  String, ◌≡◌, refl, sym, ap, ◌∙◌, Bool, true, false, Bool-cases, inl, inr, Option, none, some,
  List, [], ◌∷◌, ◌++◌, any, mem, arith,
}
use container_egress_service.Controller.External.{first_naming}

module _ {A : Type 0} (services : A → List String) (name : String) where
  abbrev pub names : A → Bool
  names rule = mem name (services rule)

  -- where a rule stands, and that no rule before it names the service
  pub record IsFirst (rules : List A) (rule : A) : Type 0 where
    pub before : List A
    pub after : List A
    pub place : rules ≡ before ++ rule ∷ after
    pub passed_over : any names before ≡ false
    pub named : names rule ≡ true

  later :
      (r : A) (rules : List A) (rule : A)
      → names r ≡ false
      → IsFirst rules rule
      → IsFirst (r ∷ rules) rule
  later r rules rule e f = record {
    before = r ∷ f.before;
    after = f.after;
    place = ap (λ t. r ∷ t) f.place;
    passed_over = let p = f.passed_over in ground arith;
    named = f.named;
  }

  first_found :
      (rules : List A) (rule : A)
      → first_naming services name rules ≡ some rule
      → IsFirst rules rule
  unfolding first_naming
  first_found [] rule h = cc
  first_found (r ∷ rules) rule h = elim (Bool-cases (names r)) [
    | inl hit ↦
        let found : some r ≡ some rule = rw hit at h in
        let same : r ≡ rule = cc in
        record {
          before = [];
          after = rules;
          place = ap (λ t. t ∷ rules) same;
          passed_over = refl;
          named = ap names (sym same) ∙ hit;
        }
    | inr miss ↦ later r rules rule miss (first_found rules rule (rw miss at h))
  ]

  none_names : (rules : List A) → first_naming services name rules ≡ none → any names rules ≡ false
  unfolding first_naming
  none_names [] h = refl
  none_names (r ∷ rules) h = elim (Bool-cases (names r)) [
    | inl hit ↦ let found : some r ≡ none = rw hit at h in cc
    | inr miss ↦ rw miss (none_names rules (rw miss at h))
  ]

  -- what the loop is to find
  abbrev pub Found : List A → Option A → Type 0
  Found rules none = any names rules ≡ false
  Found rules (some rule) = IsFirst rules rule

  -- The loop over the listed rules finds the first rule that names the external service, and finds
  -- nothing only if no rule names it.
  pub first_naming-Found : (rules : List A) → Found rules (first_naming services name rules)
  first_naming-Found rules = go (first_naming services name rules) refl
    where
      go : (o : Option A) → first_naming services name rules ≡ o → Found rules o
      go none e = none_names rules e
      go (some rule) e = first_found rules rule e
