-- ===== src/Admission.antt =====
-- runtime/component/v2/admission/admission.go: mutations along paths and validations by expressions. CEL,
-- the JSON and YAML libraries and the text of errors are parameters or left out; letters are ASCII.
mod Tests
pub mod Values
pub mod Engine
pub mod Paths
pub mod Defaults
pub mod Verdicts
use aggexp.Prelude.{
  ℕ, ◌+◌, ◌-◌, Bool, true, false, not, ◌&&◌, ◌||◌, List, [], ◌∷◌, ◌++◌, Option, none, some, ltb,
  leb, ◌==◌, if◌then◌else◌,
}
use aggexp.Text.{Bytes, codes, str_eq, str_empty, contains, join}
use aggexp.Admission.Values.{
  Json, null, boolean, text, object, other, Fields, empty, field, get_field, set_field,
}

-- Why a mutation or a validation fails.
pub data AdmissionError : Type 0 where
  bad_json empty_path unknown_op bad_expression panicked : AdmissionError
  not_an_object : Bytes → AdmissionError

pub data Outcome {ℓ} (A : Type ℓ) : Type ℓ where
  failed : AdmissionError → Outcome A
  done : A → Outcome A

pub record Mutation : Type 0 where
  pub json_path : Bytes
  pub op : Bytes
  pub value : Json
  pub operations : List Bytes

pub record Validation : Type 0 where
  pub expression : Bytes
  pub message : Bytes
  pub field_path : Bytes
  pub operations : List Bytes

pub record Config : Type 0 where
  pub mutations : List Mutation
  pub validations : List Validation

abbrev pub is_space : ℕ → Bool
is_space c = c == 32 || (leb 9 c && leb c 13)

unfoldable pub trim_left : Bytes → Bytes
trim_left [] = []
trim_left (c ∷ s) = let rest = trim_left s in if is_space c then rest else c ∷ s

unfoldable pub trim_right : Bytes → Bytes
trim_right [] = []
trim_right (c ∷ s) =
    let rest = trim_right s in if str_empty rest && is_space c then [] else c ∷ rest

abbrev pub upper : ℕ → ℕ
upper c = if leb 97 c && leb c 122 then c - 32 else c

unfoldable pub to_upper : Bytes → Bytes
to_upper [] = []
to_upper (c ∷ s) = upper c ∷ to_upper s

unfoldable pub normalize_ops : List Bytes → List Bytes
normalize_ops [] = []
normalize_ops (op ∷ l) = to_upper (trim_right (trim_left op)) ∷ normalize_ops l

abbrev pub normalize_mutations : List Mutation → List Mutation
normalize_mutations [] = []
normalize_mutations (m ∷ l) =
    record m { operations = normalize_ops m.operations } ∷ normalize_mutations l

abbrev pub normalize_validations : List Validation → List Validation
normalize_validations [] = []
normalize_validations (v ∷ l) =
    record v { operations = normalize_ops v.operations } ∷ normalize_validations l

unfoldable pub normalize : Config → Config
normalize c = record {
  mutations = normalize_mutations c.mutations;
  validations = normalize_validations c.validations;
}

-- No operations are all operations.
unfoldable pub applies_to : List Bytes → Bytes → Bool
applies_to [] op = true
applies_to (o ∷ l) op = contains (o ∷ l) op

-- strings.Split(p, ".")
unfoldable pub split_dots : Bytes → List Bytes
split_dots [] = [] ∷ []
split_dots (c ∷ s) = step c (split_dots s)
  where
    step : ℕ → List Bytes → List Bytes
    step c [] = (c ∷ []) ∷ []
    step c (part ∷ parts) = if c == 46 then [] ∷ part ∷ parts else (c ∷ part) ∷ parts

abbrev pub is_metadata_map : Bytes → Bytes → Bool
is_metadata_map a b =
    str_eq a (codes "metadata") && (str_eq b (codes "annotations") || str_eq b (codes "labels"))

abbrev pub keep_name_whole : List Bytes → List Bytes
keep_name_whole (a ∷ b ∷ c ∷ rest) =
    if is_metadata_map a b then a ∷ b ∷ join 46 (c ∷ rest) ∷ [] else a ∷ b ∷ c ∷ rest
keep_name_whole parts = parts

-- The name of an annotation or a label may hold dots.
unfoldable pub split_path : Bytes → List Bytes
split_path p = keep_name_whole (split_dots p)

-- Whether "default" replaces the value.
unfoldable pub is_blank : Option Json → Bool
is_blank none = true
is_blank (some null) = true
is_blank (some (text s)) = str_empty s
is_blank (some (object empty)) = true
is_blank (some (object (field k v m))) = false
is_blank (some (boolean b)) = false
is_blank (some (other j)) = false

unfoldable pub apply_leaf : Fields → Bytes → Bytes → Json → Outcome Fields
apply_leaf parent key op value =
    if str_eq op (codes "set")
    then done (set_field key value parent)
    else if str_eq op (codes "default")
    then done (if is_blank (get_field key parent) then set_field key value parent else parent)
    else failed unknown_op

-- The object to descend into: a new one where there is nothing.
abbrev pub child_of : Bytes → Option Json → Outcome Fields
child_of part none = done empty
child_of part (some null) = done empty
child_of part (some (object m)) = done m
child_of part (some (text s)) = failed (not_an_object part)
child_of part (some (boolean b)) = failed (not_an_object part)
child_of part (some (other j)) = failed (not_an_object part)

abbrev pub put_child : Bytes → Fields → Outcome Fields → Outcome Fields
put_child part parent (failed e) = failed e
put_child part parent (done m) = done (set_field part (object m) parent)

abbrev pub inside : Outcome Fields → (Fields → Outcome Fields) → Outcome Fields
inside (failed e) change = failed e
inside (done m) change = change m

-- The objects on the way are changed in place.
unfoldable pub walk_and_apply : Fields → List Bytes → Bytes → Json → Outcome Fields
walk_and_apply obj [] op value = failed empty_path
walk_and_apply obj (key ∷ []) op value = apply_leaf obj key op value
walk_and_apply obj (part ∷ next ∷ rest) op value =
    put_child part obj
      (inside (child_of part (get_field part obj)) (λ m. walk_and_apply m (next ∷ rest) op value))

unfoldable pub mutate_path : Fields → Bytes → Bytes → Json → Outcome Fields
mutate_path obj path op value =
    if str_empty path then failed empty_path else walk_and_apply obj (split_path path) op value
