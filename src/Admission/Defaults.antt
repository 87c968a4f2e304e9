-- ===== src/Admission/Defaults.antt =====
-- What a default along a path does to the object.
use aggexp.Prelude.{
  ◌≡◌, refl, ap, inl, inr, true, List, [], ◌∷◌, Option, none, some, if_ind, if◌then◌else◌,
  Bool-cases,
}
use aggexp.Text.{Bytes, codes, str_eq}
use aggexp.Admission.Values.{
  Json, null, boolean, text, object, other, Fields, empty, get_field, set_field, set_field_same,
}
use aggexp.Admission.{
  Outcome, done, is_blank, apply_leaf, child_of, put_child, inside, walk_and_apply,
}
use aggexp.Admission.Paths.{fields_of, read_path, set_op}

abbrev default_op : Bytes
default_op = codes "default"

default_leaf :
    (obj : Fields) (key : Bytes) (v : Json)
    → apply_leaf obj key default_op v
      ≡ (if is_blank (get_field key obj) then apply_leaf obj key set_op v else done obj)
unfolding apply_leaf str_eq
default_leaf obj key v =
    if_ind
      (λ x.
        done x ≡ (if is_blank (get_field key obj) then done (set_field key v obj) else done obj))
      (is_blank (get_field key obj)) _ _ (λ e. rw e refl) (λ e. rw e refl)

read_path_empty : (next : Bytes) (rest : List Bytes) → read_path empty (next ∷ rest) ≡ none
unfolding read_path get_field
read_path_empty next [] = refl
read_path_empty next (c ∷ rest) = read_path_empty c rest

-- The object behind a node of the path that reads `o`.
abbrev under : Fields → Bytes → (Fields → Outcome Fields) → Option Json → Outcome Fields
under obj part change o = put_child part obj (inside (child_of part o) change)

node_default :
    (obj : Fields) (part next : Bytes) (rest : List Bytes) (v : Json)
    → ((m : Fields)
        → walk_and_apply m (next ∷ rest) default_op v ≡ (
            if is_blank (read_path m (next ∷ rest))
            then walk_and_apply m (next ∷ rest) set_op v
            else done m))
    → (o : Option Json) → get_field part obj ≡ o
    → under obj part (λ m. walk_and_apply m (next ∷ rest) default_op v) o ≡ (
        if is_blank (read_path (fields_of o) (next ∷ rest))
        then under obj part (λ m. walk_and_apply m (next ∷ rest) set_op v) o
        else done obj)
unfolding is_blank
node_default obj part next rest v each o e = by_child o e
  where
    nothing : is_blank (read_path empty (next ∷ rest)) ≡ true
    nothing = ap is_blank (read_path_empty next rest)

    fresh : put_child part obj (walk_and_apply empty (next ∷ rest) default_op v) ≡ (
        if is_blank (read_path empty (next ∷ rest))
        then put_child part obj (walk_and_apply empty (next ∷ rest) set_op v)
        else done obj)
    fresh = rw (each empty, nothing) refl

    no_object :
        (x : Outcome Fields)
        → x ≡ (if is_blank (read_path empty (next ∷ rest)) then x else done obj)
    no_object x = rw nothing refl

    by_child :
        (o : Option Json)
        → get_field part obj ≡ o
        → under obj part (λ m. walk_and_apply m (next ∷ rest) default_op v) o ≡ (
            if is_blank (read_path (fields_of o) (next ∷ rest))
            then under obj part (λ m. walk_and_apply m (next ∷ rest) set_op v) o
            else done obj)
    by_child none e = fresh
    by_child (some null) e = fresh
    by_child (some (text s)) e = no_object _
    by_child (some (boolean b)) e = no_object _
    by_child (some (other n)) e = no_object _
    by_child (some (object m)) e = elim (Bool-cases (is_blank (read_path m (next ∷ rest)))) [
      | inl t ↦ rw (each m, t) refl
      | inr t ↦ rw (each m, t) (ap done (set_field_same part (object m) obj e))
    ]

-- A "default" along a path is the "set" where the path reads nothing, null or an empty text or object, and
-- changes nothing elsewhere.
pub walk_and_apply_default :
    (obj : Fields) (key : Bytes) (rest : List Bytes) (v : Json)
    → walk_and_apply obj (key ∷ rest) (codes "default") v ≡ (
        if is_blank (read_path obj (key ∷ rest))
        then walk_and_apply obj (key ∷ rest) (codes "set") v
        else done obj)
unfolding walk_and_apply read_path
walk_and_apply_default obj key [] v = default_leaf obj key v
walk_and_apply_default obj part (next ∷ rest) v =
    node_default obj part next rest v (λ m. walk_and_apply_default m next rest v)
      (get_field part obj) refl
