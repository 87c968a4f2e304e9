-- ===== src/Admission/Tests.antt =====
-- The theorems on runtime/component/v2/admission at concrete inputs.
use aggexp.Prelude.{
  ◌≡◌, refl, ◌↔◌, false, not, List, [], ◌∷◌, Option, none, some, All, if◌then◌else◌,
}
use aggexp.Text.{Bytes, codes, str_eq}
use aggexp.Admission.Values.{Json, text, object, Fields, empty, field, get_field, set_field}
use aggexp.Admission.{Outcome, done, walk_and_apply, apply_leaf, is_blank, Validation}
use aggexp.Admission.Engine.{Engine, Verdict, verdict, validate}
use aggexp.Admission.Paths.{read_path, Diverge, walk_and_apply_set}
use aggexp.Admission.Defaults.{walk_and_apply_default}
use aggexp.Admission.Verdicts.{Passes, validate-allows}

-- {"spec": {"size": "4"}}
abbrev widget : Fields
widget = field (codes "spec") (object (field (codes "size") (text (codes "4")) empty)) empty

abbrev color_path : List Bytes
color_path = codes "spec" ∷ codes "color" ∷ []

abbrev red : Json
red = text (codes "red")

abbrev colored : Fields
colored =
    field (codes "spec")
      (object (field (codes "size") (text (codes "4")) (field (codes "color") red empty))) empty

paints : walk_and_apply widget color_path (codes "set") red ≡ done colored
unfolding walk_and_apply apply_leaf get_field set_field str_eq
paints = refl

walk_and_apply_set_example :
    (read_path colored color_path ≡ some red)
    × ((q : List Bytes) → Diverge color_path q → read_path colored q ≡ read_path widget q)
    × (walk_and_apply colored color_path (codes "set") red ≡ done colored)
walk_and_apply_set_example = walk_and_apply_set widget color_path red colored paints

walk_and_apply_default_example :
    walk_and_apply widget (codes "spec" ∷ codes "size" ∷ []) (codes "default") red ≡ (
      if is_blank (read_path widget (codes "spec" ∷ codes "size" ∷ []))
      then walk_and_apply widget (codes "spec" ∷ codes "size" ∷ []) (codes "set") red
      else done widget)
walk_and_apply_default_example =
    walk_and_apply_default widget (codes "spec") (codes "size" ∷ []) red

abbrev sized : Validation
sized = record {
  expression = codes "has(object.spec)";
  message = codes "no spec";
  field_path = codes "spec";
  operations = codes "CREATE" ∷ [];
}

abbrev has_spec : Option Fields → Option (Option Fields) → Verdict
has_spec none old = verdict false
has_spec (some m) old = verdict (not (is_blank (get_field (codes "spec") m)))

abbrev engine : Engine
engine = record { mutations = []; validations = record { rule = sized; program = has_spec } ∷ [] }

abbrev decode : Bytes → Outcome (Option Fields)
decode raw = done (some widget)

validate-allows_example :
    (validate decode engine (codes "CREATE") (codes "{}") [] ≡ done [])
    ↔ All (Passes (codes "CREATE") (some widget) none) engine.validations
validate-allows_example =
    validate-allows decode engine (codes "CREATE") (codes "{}") [] (some widget) none refl refl
