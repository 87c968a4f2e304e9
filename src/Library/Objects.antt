-- ===== src/Library/Objects.antt =====
-- runtime/library/helpers.go, bookmark.go and uid.go: metadata of objects and lists.
use aggexp.Prelude.{
  ℕ, ◌+◌, ◌/◌, ◌%◌, Bool, true, List, [], ◌∷◌, ◌++◌, Option, none, some, ltb, keep, take, drop,
  if◌then◌else◌,
}
use aggexp.Text.{Bytes, codes, join}
use aggexp.Kube.{Accessor, ObjList, LabelSelector, Result, ok, err, internal, Event, bookmark}

-- `schema.GroupResource`.
pub record GroupResource : Type 0 where
  pub group : Bytes
  pub resource : Bytes

-- A failing `meta.ExtractList`.
unfoldable pub extract_list : {Obj : Type 0} → ObjList Obj → Result (List Obj)
extract_list l = if l.is_list then ok l.items else err internal

module _ {Obj : Type 0} (k : Accessor Obj) where
  unfoldable pub stamp_rv : Obj → Bytes → Obj
  stamp_rv obj rv = if k.is_accessible obj then k.set_resource_version obj rv else obj

  unfoldable pub object_name : Obj → Bytes
  object_name obj = if k.is_accessible obj then k.name obj else []

  unfoldable pub object_namespace : Obj → Bytes
  object_namespace obj = if k.is_accessible obj then k.namespace obj else []

  unfoldable pub matches_labels : Option LabelSelector → Obj → Bool
  matches_labels none obj = true
  matches_labels (some sel) obj =
      if sel.is_empty
      then true
      else if k.is_accessible obj
      then sel.matches (k.labels obj)
      else true

  unfoldable pub filter_list : Option LabelSelector → ObjList Obj → ObjList Obj
  filter_list sel l =
      if l.is_list then record l { items = keep (matches_labels sel) l.items } else l

  -- The carrier is the object that the backend's factory returns.
  unfoldable pub make_bookmark_event : Obj → Bytes → Event Obj
  make_bookmark_event obj rv = record {
    event_type = bookmark;
    object =
        if k.is_accessible obj
        then k.set_annotations (k.set_resource_version obj rv)
            ((codes "k8s.io/initial-events-end", codes "true") ∷ [])
        else obj;
  }

unfoldable pub set_list_rv : {Obj : Type 0} → ObjList Obj → Bytes → ObjList Obj
set_list_rv l rv = record l { resource_version = rv }

-- `%x` of one byte, and of a byte slice.
abbrev hex_digit : ℕ → ℕ
hex_digit d = if ltb d 10 then d + 48 else d + 87

unfoldable pub hex : List ℕ → Bytes
hex [] = []
hex (b ∷ s) = hex_digit (b / 16) ∷ hex_digit (b % 16) ∷ hex s

-- The hash is a parameter: sha256 is not modelled.
unfoldable pub deterministic_uid : (Bytes → List ℕ) → GroupResource → Bytes → Bytes → Bytes
deterministic_uid sha256 gr namespace name =
    let hash = sha256 (gr.group ++ 47 ∷ gr.resource ++ 47 ∷ namespace ++ 47 ∷ name) in
    join 45 (
      hex (take 4 hash)
      ∷ hex (take 2 (drop 4 hash))
      ∷ hex (take 2 (drop 6 hash))
      ∷ hex (take 2 (drop 8 hash))
      ∷ hex (take 6 (drop 10 hash))
      ∷ [])
