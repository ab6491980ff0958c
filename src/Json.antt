-- ===== src/Json.antt =====
-- The values that package encoding/json decodes into `interface{}`, with the equality that
-- reflect.DeepEqual gives them. Numbers are the integers that the declarations hold.
use container_egress_service.Prelude.{
  ℕ, String, ◌≡◌, refl, Bool, true, false, Option, none, some, List, [], ◌∷◌, ◌&&◌, ◌==◌, nat_eq,
  bool_eq, if◌then◌else◌,
}
use container_egress_service.Prelude.Int.{ℤ, int_eq}
use container_egress_service.Prelude.GoMap.{GoMap}

mutual
  pub data Json : Type 0 where
    null : Json
    bool : Bool → Json
    num : ℤ → Json
    text : String → Json
    arr : Items → Json
    obj : Fields → Json

  pub data Items : Type 0 where
    nil : Items
    cons : Json → Items → Items

  pub data Fields : Type 0 where
    end : Fields
    field : String → Json → Fields → Fields

-- []interface{}
unfoldable pub elems : Items → List Json
elems nil = []
elems (cons x xs) = x ∷ elems xs

unfoldable pub items : List Json → Items
items [] = nil
items (x ∷ xs) = cons x (items xs)

-- map[string]interface{}
unfoldable pub entries : Fields → GoMap Json
entries end = []
entries (field k v fs) = (k, v) ∷ entries fs

unfoldable pub fields : GoMap Json → Fields
fields [] = end
fields ((k, v) ∷ m) = field k v (fields m)

abbrev pub object : GoMap Json → Json
object m = obj (fields m)

abbrev pub array : List Json → Json
array xs = arr (items xs)

unfoldable pub field? : String → Fields → Option Json
field? k end = none
field? k (field j v fs) = if j == k then some v else field? k fs

unfoldable pub size : Fields → ℕ
size end = 0
size (field k v fs) = ℕ.suc (size fs)

abbrev match? : (Json → Bool) → Option Json → Bool
match? p none = false
match? p (some v) = p v

-- reflect.DeepEqual: two maps are equal if they have as many keys and each key of the one has an
-- equal value in the other.
unfoldable mutual
  pub deep_equal : Json → Json → Bool
  deep_equal null null = true
  deep_equal (bool a) (bool b) = bool_eq a b
  deep_equal (num m) (num n) = int_eq m n
  deep_equal (text s) (text t) = s == t
  deep_equal (arr xs) (arr ys) = deep_equal_items xs ys
  deep_equal (obj fs) (obj gs) = nat_eq (size fs) (size gs) && deep_equal_fields fs gs
  deep_equal _ _ = false

  pub deep_equal_items : Items → Items → Bool
  deep_equal_items nil nil = true
  deep_equal_items (cons x xs) (cons y ys) = deep_equal x y && deep_equal_items xs ys
  deep_equal_items _ _ = false

  pub deep_equal_fields : Fields → Fields → Bool
  deep_equal_fields end gs = true
  deep_equal_fields (field k v fs) gs =
      match? (deep_equal v) (field? k gs) && deep_equal_fields fs gs

pub entries-fields : (m : GoMap Json) → entries (fields m) ≡ m
unfolding entries fields
entries-fields [] = refl
entries-fields ((k, v) ∷ m) = rw (entries-fields m)

pub elems-items : (xs : List Json) → elems (items xs) ≡ xs
unfolding elems items
elems-items [] = refl
elems-items (x ∷ xs) = rw (elems-items xs)
