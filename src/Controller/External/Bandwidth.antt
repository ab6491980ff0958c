-- ===== src/Controller/External/Bandwidth.antt =====
-- Which external services pass the check of their bandwidths.
use container_egress_service.Prelude.{
  String, ◌≡◌, refl, sym, ap, ◌∙◌, ◌↔◌, true, Bool-cases, ◌⊎◌, inl, inr, List, [], ◌∷◌, All, all,
  arith,
}
use Prim.Native.Char.{Char}
use text.Mathlib.TextEquality.{starts_with_iff}
use text.Mathlib.TextLemmas.{nil-append, cons-append}
use text.Mathlib.Text.{starts_with}
use container_egress_service.Prelude.Text.{◌⊕◌, contains, is_blank, join}
use container_egress_service.Prelude.Text.Parts.{contains_inside}
use container_egress_service.Kube.{ExternalServicePort, ExternalService}
use container_egress_service.As3.Config.{Registry, get_irules, get_irules_text}
use container_egress_service.Controller.External.{is_valid_port, verify_extenal_service}

-- A text stands somewhere in another.
abbrev pub IsPart : String → String → Type 0
IsPart t s = (before : String) × (after : String) × (s ≡ before ⊕ (t ⊕ after))

at_start : (s t : String) → starts_with s t ≡ true → IsPart t s
at_start s t h = let (u, e) = (starts_with_iff s t).0 h in ("", u, sym (nil-append (t ⊕ u) ∙ e))

later : (c : Char) (s t : String) → IsPart t s → IsPart t (String.◌∷◌ c s)
later c s t (a, b, e) =
    (String.◌∷◌ c a, b, ap (λ u. String.◌∷◌ c u) e ∙ sym (cons-append c a (t ⊕ b)))

contains-IsPart : (s t : String) → contains s t ≡ true → IsPart t s
unfolding contains
contains-IsPart String.[] t h = at_start "" t h
contains-IsPart (String.◌∷◌ c s) t h = elim (Bool-cases (starts_with (String.◌∷◌ c s) t)) [
  | inl hit ↦ at_start (String.◌∷◌ c s) t hit
  | inr miss ↦ later c s t (contains-IsPart s t (rw miss at h))
]

IsPart-contains : (s t : String) → IsPart t s → contains s t ≡ true
IsPart-contains s t (a, b, e) = rw e (contains_inside a t b)

module _ (r : Registry) where
  -- a bandwidth that is blank, or that stands somewhere in the names of the iRules
  abbrev pub Accepted : ExternalServicePort → Type 0
  Accepted port = (is_blank port.bandwidth ≡ true) ⊎ IsPart port.bandwidth (join "," (get_irules r))

  is_valid_port-Accepted :
      (port : ExternalServicePort) → (is_valid_port r port ≡ true) ↔ Accepted port
  unfolding is_valid_port get_irules_text
  is_valid_port-Accepted port = elim (Bool-cases (is_blank port.bandwidth)) [
    | inl blank ↦ rw blank (λ h. inl refl, λ h. refl)
    | inr filled ↦ rw filled (
      λ h. inr (contains-IsPart (join "," (get_irules r)) port.bandwidth h),
      λ h. elim h [
        | inl absurd ↦ cc
        | inr part ↦ IsPart-contains (join "," (get_irules r)) port.bandwidth part
      ],
    )
  ]

  all-Accepted :
      (ports : List ExternalServicePort) → (all (is_valid_port r) ports ≡ true) ↔ All Accepted ports
  all-Accepted [] = (λ h. tt, λ h. refl)
  all-Accepted (p ∷ ports) =
      let (to, from) = is_valid_port-Accepted p in
      let (to_rest, from_rest) = all-Accepted ports in
      (
        λ h. (to (ground arith), to_rest (ground arith)),
        λ (h, rest). ground (arith, from h, from_rest rest),
      )

  -- An external service passes the check exactly if the bandwidth of each of its ports is blank or
  -- stands somewhere in the names of the configured iRules, joined by commas: a part of a name passes,
  -- and so does a text that runs over a comma.
  pub verify_extenal_service-Accepted :
      (exsvc : ExternalService) → (verify_extenal_service r exsvc ≡ true) ↔ All Accepted exsvc.ports
  unfolding verify_extenal_service
  verify_extenal_service-Accepted exsvc = all-Accepted exsvc.ports
