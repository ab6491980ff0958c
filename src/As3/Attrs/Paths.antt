-- ===== src/As3/Attrs/Paths.antt =====
-- The path of an object and its name.
use container_egress_service.Prelude.{String, ◌≡◌, refl, ap, ◌∙◌, true, [], ◌∷◌}
use text.Mathlib.TextLemmas.{nil-append, cons-append, append_assoc}
use container_egress_service.Prelude.Text.{◌⊕◌, split}
use container_egress_service.Prelude.Text.Parts.{is_free, split-free, split-first}
use container_egress_service.As3.Attrs.{shared_path, fourth, get_origin_attr_of_use_path}

slash : (s : String) → "/" ⊕ s ≡ String.◌∷◌ "/" s
slash s = cons-append "/" "" s ∙ ap (String.◌∷◌ "/") (nil-append s)

shared_text : (attr : String) → "/Shared/" ⊕ attr ≡ String.◌∷◌ "/" ("Shared" ⊕ String.◌∷◌ "/" attr)
shared_text attr =
    append_assoc "/" ("Shared" ⊕ "/") attr
    ∙ slash (("Shared" ⊕ "/") ⊕ attr)
    ∙ ap (String.◌∷◌ "/") (append_assoc "Shared" "/" attr ∙ ap (λ t. "Shared" ⊕ t) (slash attr))

split-shared_path :
    (partition attr : String)
    → is_free b'/' partition ≡ true
    → is_free b'/' attr ≡ true
    → split b'/' (shared_path partition attr) ≡ "" ∷ partition ∷ "Shared" ∷ attr ∷ []
unfolding shared_path split
split-shared_path partition attr p a =
    rw
      (
        shared_text attr,
        slash (partition ⊕ String.◌∷◌ "/" ("Shared" ⊕ String.◌∷◌ "/" attr)),
        split-first b'/' "/" partition ("Shared" ⊕ String.◌∷◌ "/" attr) p refl,
        split-first b'/' "/" "Shared" attr refl refl,
        split-free b'/' attr a,
      )
      refl

-- The name of an object is read back from its path, if neither the partition nor the name has a
-- slash.
pub get_origin_attr_of_use_path-shared_path :
    (partition attr : String)
    → is_free b'/' partition ≡ true
    → is_free b'/' attr ≡ true
    → get_origin_attr_of_use_path (shared_path partition attr) ≡ attr
unfolding get_origin_attr_of_use_path
get_origin_attr_of_use_path-shared_path partition attr p a =
    ap fourth (split-shared_path partition attr p a)
