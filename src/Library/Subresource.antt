-- ===== src/Library/Subresource.antt =====
-- runtime/library/subresource.go: updates that keep one half of the stored object. The main store is the
-- adapter; the updater, which takes the new and the old object, is a parameter.
pub mod Keeps
use aggexp.Prelude.{Bool, Option, none, some}
use aggexp.Text.{Bytes}
use aggexp.Kube.{Accessor, Result, ok, err}
use aggexp.Library.Rest.{Options, Rest}
use aggexp.Library.Rest.Writing.{UpdateCall, update}

module _ {Obj : Type 0} where
  abbrev pub apply_updater : Option (Obj → Obj → Obj) → Obj → Option Obj → Obj
  apply_updater none new_obj old_obj = new_obj
  apply_updater (some updater) new_obj none = new_obj
  apply_updater (some updater) new_obj (some old_obj) = updater new_obj old_obj

  abbrev pub after_inner : Option (Obj → Obj → Obj) → Option Obj → Result Obj → Result Obj
  after_inner updater old_obj (err e) = err e
  after_inner updater old_obj (ok new_obj) = ok (apply_updater updater new_obj old_obj)

  unfoldable pub subresource_updated_object :
      Option (Obj → Obj → Obj) → (Option Obj → Result Obj) → Option Obj → Result Obj
  subresource_updated_object updater inner old_obj = after_inner updater old_obj (inner old_obj)

module _ {Obj User Store : Type 0} (k : Accessor Obj) (opts : Options Obj User Store)
    (updater : Option (Obj → Obj → Obj)) where
  -- `StatusREST.Update`, and `SpecREST.Update` over a store that is an updater.
  unfoldable pub subresource_update :
      Rest Obj Store → Option User → Bytes → UpdateCall Obj → Rest Obj Store × Result (Obj × Bool)
  subresource_update r u name c =
      update k opts r u name
        (record c { updated_object = subresource_updated_object updater c.updated_object })
