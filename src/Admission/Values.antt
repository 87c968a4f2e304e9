-- ===== src/Admission/Values.antt =====
-- JSON values as Go decodes them: an object is a map, and numbers and arrays are opaque here.
use aggexp.Prelude.{ℕ, ◌≡◌, refl, Bool, Option, none, some, if◌then◌else◌, arith}
use aggexp.Text.{Bytes, str_eq, str_eq_iff, str_eq_refl}

mutual
  pub data Json : Type 0 where
    null : Json
    boolean : Bool → Json
    text : Bytes → Json
    object : Fields → Json
    other : ℕ → Json

  pub data Fields : Type 0 where
    empty : Fields
    field : Bytes → Json → Fields → Fields

unfoldable pub get_field : Bytes → Fields → Option Json
get_field k empty = none
get_field k (field j v m) = if str_eq j k then some v else get_field k m

unfoldable pub set_field : Bytes → Json → Fields → Fields
set_field k v empty = field k v empty
set_field k v (field j w m) = if str_eq j k then field k v m else field j w (set_field k v m)

pub get_field-set_field :
    (k j : Bytes) (v : Json) (m : Fields)
    → get_field j (set_field k v m) ≡ (if str_eq k j then some v else get_field j m)
unfolding get_field set_field
get_field-set_field k j v empty = refl
get_field-set_field k j v (field i w m) =
    ground (arith, str_eq_iff k j, str_eq_iff i k, str_eq_iff i j, get_field-set_field k j v m)

pub get_field-set_field_self :
    (k : Bytes) (v : Json) (m : Fields) → get_field k (set_field k v m) ≡ some v
get_field-set_field_self k v m = rw (get_field-set_field k k v m, str_eq_refl k) refl

pub set_field_twice :
    (k : Bytes) (v w : Json) (m : Fields) → set_field k w (set_field k v m) ≡ set_field k w m
unfolding set_field
set_field_twice k v w empty = rw (str_eq_refl k) refl
set_field_twice k v w (field i x m) = ground (arith, str_eq_refl k, set_field_twice k v w m)

-- Setting what is there changes nothing.
pub set_field_same :
    (k : Bytes) (v : Json) (m : Fields) → get_field k m ≡ some v → set_field k v m ≡ m
unfolding get_field set_field
set_field_same k v empty h = absurd (ground (arith, h))
set_field_same k v (field i w m) h = ground (arith, str_eq_iff i k, h, set_field_same k v m)
