-- ===== src/Library/Occ.antt =====
-- runtime/library/occ.go: the last resource version given to each object, and the conflict check.
use aggexp.Prelude.{Option, none, some, map, if◌then◌else◌}
use aggexp.Text.{Bytes, codes, str_eq, str_empty}
use aggexp.GoMap.{GoMap, lookup, insert, delete}
use aggexp.Kube.{Accessor, ObjList, Result, ok, err, conflict, upstream}

abbrev pub OccTracker : Type 0
OccTracker = GoMap Bytes

module _ {Obj : Type 0} (k : Accessor Obj) where
  unfoldable pub record_rv : OccTracker → Obj → OccTracker
  record_rv t obj =
      if k.is_accessible obj then insert (k.name obj) (k.resource_version obj) t else t

  abbrev pub stamp : Obj → Option Bytes → Obj
  stamp obj none = obj
  stamp obj (some rv) = if k.is_accessible obj then k.set_resource_version obj rv else obj

  unfoldable pub stamp_tracked : OccTracker → Obj → Bytes → Obj
  stamp_tracked t obj name = stamp obj (lookup name t)

  unfoldable pub stamp_item : OccTracker → Obj → Obj
  unfolding stamp_tracked
  stamp_item t item = if k.is_accessible item then stamp_tracked t item (k.name item) else item

  unfoldable pub stamp_list_rvs : OccTracker → ObjList Obj → ObjList Obj
  unfolding stamp_item
  stamp_list_rvs t l = if l.is_list then record l { items = map (stamp_item t) l.items } else l

  unfoldable pub check_conflict : Bytes → Obj → Obj → Result (Unit {0})
  check_conflict name current updated =
      if k.is_accessible current
      then if k.is_accessible updated
        then if str_empty (k.resource_version updated)
          then err (conflict name)
          else if str_eq (k.resource_version updated) (k.resource_version current)
          then ok tt
          else err (conflict name)
        else err (upstream (codes "cannot access updated object metadata"))
      else err (upstream (codes "cannot access current object metadata"))

unfoldable pub delete_rv : OccTracker → Bytes → OccTracker
delete_rv t name = delete name t
