-- ===== src/Library/FieldSelector.antt =====
-- runtime/library/fieldsel.go: which fields may be selected on, and which objects match.
pub mod Meaning
use aggexp.Prelude.{
  Bool, true, false, ◌||◌, ◌&&◌, not, List, [], ◌∷◌, Option, none, some, keep, if◌then◌else◌,
}
use aggexp.Text.{Bytes, codes, str_eq, contains}
use aggexp.Kube.{Accessor, ObjList, Requirement, FieldSelector, Result, ok, err, bad_request}

-- The accessor returns `none` for `("", false)`.
pub record FieldSelectorConfig (Obj : Type 0) : Type 0 where
  pub selectable_fields : List Bytes
  pub accessor : Option (Obj → Bytes → Option Bytes)

abbrev pub metadata_name : Bytes
metadata_name = codes "metadata.name"

abbrev pub metadata_namespace : Bytes
metadata_namespace = codes "metadata.namespace"

module _ {Obj : Type 0} (c : FieldSelectorConfig Obj) where
  unfoldable pub is_known : Bytes → Bool
  is_known f =
      str_eq f metadata_name || str_eq f metadata_namespace || contains c.selectable_fields f

  unfoldable pub check_requirements : List Requirement → Result (Unit {0})
  check_requirements [] = ok tt
  check_requirements (r ∷ rest) =
      let others = check_requirements rest in if is_known r.field then others else err bad_request

  unfoldable pub validate : Option FieldSelector → Result (Unit {0})
  validate none = ok tt
  validate (some sel) = if sel.is_empty then ok tt else check_requirements sel.requirements

unfoldable pub custom_value :
    {Obj : Type 0} → Option (Obj → Bytes → Option Bytes) → Obj → Bytes → Option Bytes
custom_value none obj field = none
custom_value (some f) obj field = f obj field

unfoldable pub compare_value : Requirement → Option Bytes → Bool
compare_value r none = false
compare_value r (some val) =
    if str_eq r.operator (codes "=") || str_eq r.operator (codes "==")
    then str_eq val r.value
    else if str_eq r.operator (codes "!=")
    then not (str_eq val r.value)
    else false

module _ {Obj : Type 0} (k : Accessor Obj) (c : FieldSelectorConfig Obj) where
  -- The value of a field; `none` is an early `return false`.
  unfoldable pub field_value : Obj → Bytes → Option Bytes
  field_value obj field =
      if str_eq field metadata_name
      then some (if k.is_accessible obj then k.name obj else [])
      else if str_eq field metadata_namespace
      then some (if k.is_accessible obj then k.namespace obj else [])
      else custom_value c.accessor obj field

  unfoldable pub meets : Obj → List Requirement → Bool
  meets obj [] = true
  meets obj (r ∷ rest) = compare_value r (field_value obj r.field) && meets obj rest

  unfoldable pub matches_field : Option FieldSelector → Obj → Bool
  matches_field none obj = true
  matches_field (some sel) obj = if sel.is_empty then true else meets obj sel.requirements

  unfoldable pub filter_list_by_field : Option FieldSelector → ObjList Obj → ObjList Obj
  filter_list_by_field sel l =
      if l.is_list then record l { items = keep (matches_field sel) l.items } else l
