-- ===== src/Library/Rest/Writing.antt =====
-- The write half of runtime/library/adapter.go: Create, Update and Delete.
use aggexp.Prelude.{Bool, true, false, Option, none, some, if◌then◌else◌}
use aggexp.Text.{Bytes, codes}
use aggexp.Kube.{
  Accessor, Result, ok, err, ◌>>=◌, ◌>>◌, ApiError, method_not_supported, is_not_found,
}
use aggexp.Storage.{Writes}
use aggexp.Library.Objects.{deterministic_uid}
use aggexp.Library.Occ.{OccTracker, check_conflict}
use aggexp.Library.Rest.{Options, Rest, publish_added, publish_modified, publish_deleted, stamp_if}

-- `rest.ValidateObjectFunc` and `rest.ValidateObjectUpdateFunc`; `none` is nil.
abbrev pub Validation : Type 0 → Type 0
Validation Obj = Option (Obj → Result (Unit {0}))

abbrev pub UpdateValidation : Type 0 → Type 0
UpdateValidation Obj = Option (Obj → Obj → Result (Unit {0}))

abbrev pub run_validation : {Obj : Type 0} → Validation Obj → Obj → Result (Unit {0})
run_validation none obj = ok tt
run_validation (some f) obj = f obj

abbrev pub run_update_validation :
    {Obj : Type 0} → UpdateValidation Obj → Obj → Obj → Result (Unit {0})
run_update_validation none updated current = ok tt
run_update_validation (some f) updated current = f updated current

-- The arguments of an update that are the API server's: `rest.UpdatedObjectInfo`, the validations
-- and whether the update may create.
pub record UpdateCall (Obj : Type 0) : Type 0 where
  pub updated_object : Option Obj → Result Obj
  pub create_validation : Validation Obj
  pub update_validation : UpdateValidation Obj
  pub force_allow_create : Bool

-- The outcome of the read that starts an update.
pub data Current (Obj : Type 0) : Type 0 where
  found : Obj → Current Obj
  missing failed : ApiError → Current Obj

abbrev pub classify : {Obj : Type 0} → Result Obj → Current Obj
classify (ok obj) = found obj
classify (err e) = if is_not_found e then missing e else failed e

module _ {Obj User Store : Type 0} (k : Accessor Obj) (opts : Options Obj User Store) where
  unfoldable pub stamp_uid : Obj → Obj
  stamp_uid obj =
      if opts.deterministic_uids
      then if k.is_accessible obj
        then k.set_uid obj
            (deterministic_uid opts.sha256 opts.group_resource (k.namespace obj) (k.name obj))
        else obj
      else obj

  abbrev pub publish_stored :
      (Rest Obj Store → Obj → Rest Obj Store × Obj)
      → Rest Obj Store
      → Store × Result Obj
      → Rest Obj Store × Result Obj
  publish_stored publish r (s, err e) = (record r { store = s }, err e)
  publish_stored publish r (s, ok stored) =
      let (r', stamped) = publish (record r { store = s }) stored in (r', ok stamped)

  abbrev pub create_valid :
      Writes Obj User Store
      → Rest Obj Store
      → Option User
      → Obj
      → Result (Unit {0})
      → Rest Obj Store × Result Obj
  create_valid w r u obj (err e) = (r, err e)
  create_valid w r u obj (ok _) =
      publish_stored (publish_added k) r (w.create r.store u (stamp_uid obj))

  abbrev pub create_with :
      Option (Writes Obj User Store)
      → Rest Obj Store
      → Option User
      → Obj
      → Validation Obj
      → Rest Obj Store × Result Obj
  create_with none r u obj valid = (r, err (method_not_supported (codes "create")))
  create_with (some w) r u obj valid = create_valid w r u obj (run_validation valid obj)

  unfoldable pub create :
      Rest Obj Store → Option User → Obj → Validation Obj → Rest Obj Store × Result Obj
  create r u obj valid = create_with opts.writable r u obj valid

  abbrev pub occ_check : Option OccTracker → Bytes → Obj → Obj → Result (Unit {0})
  occ_check none name current updated = ok tt
  occ_check (some t) name current updated = check_conflict k name current updated

  -- The object to store, when there is a current one.
  unfoldable pub prepare_found :
      Rest Obj Store → Bytes → (Option Obj → Result Obj) → UpdateValidation Obj → Obj → Result Obj
  prepare_found r name updated_object valid existing = do
    let current = stamp_if k r.occ name existing
    updated ← updated_object (some current)
    occ_check r.occ name current updated
    run_update_validation valid updated current
    ok updated

  -- The object to store, when the update may create it.
  unfoldable pub prepare_missing :
      (Option Obj → Result Obj) → Validation Obj → Bool → ApiError → Result Obj
  prepare_missing updated_object valid force e = do
    updated ← updated_object none
    if force then (do run_validation valid updated; ok (stamp_uid updated)) else err e

  abbrev pub publish_updated :
      Rest Obj Store → Store × Result (Obj × Bool) → Rest Obj Store × Result (Obj × Bool)
  publish_updated r (s, err e) = (record r { store = s }, err e)
  publish_updated r (s, ok (stored, true)) =
      let (r', stamped) = publish_added k (record r { store = s }) stored in
      (r', ok (stamped, true))
  publish_updated r (s, ok (stored, false)) =
      let (r', stamped) = publish_modified k (record r { store = s }) stored in
      (r', ok (stamped, false))

  abbrev pub store_update :
      Writes Obj User Store
      → Rest Obj Store
      → Option User
      → Bytes
      → Bool
      → Result Obj
      → Rest Obj Store × Result (Obj × Bool)
  store_update w r u name force (err e) = (r, err e)
  store_update w r u name force (ok updated) =
      publish_updated r (w.update r.store u name updated force)

  abbrev pub update_current :
      Writes Obj User Store
      → Rest Obj Store
      → Option User
      → Bytes
      → UpdateCall Obj
      → Current Obj
      → Rest Obj Store × Result (Obj × Bool)
  update_current w r u name c (failed e) = (r, err e)
  update_current w r u name c (found existing) =
      store_update w r u name c.force_allow_create
        (prepare_found r name c.updated_object c.update_validation existing)
  update_current w r u name c (missing e) =
      store_update w r u name c.force_allow_create
        (prepare_missing c.updated_object c.create_validation c.force_allow_create e)

  abbrev pub update_with :
      Option (Writes Obj User Store)
      → Rest Obj Store
      → Option User
      → Bytes
      → UpdateCall Obj
      → Rest Obj Store × Result (Obj × Bool)
  update_with none r u name c = (r, err (method_not_supported (codes "update")))
  update_with (some w) r u name c =
      update_current w r u name c (classify (opts.backend.get r.store u name))

  unfoldable pub update :
      Rest Obj Store → Option User → Bytes → UpdateCall Obj → Rest Obj Store × Result (Obj × Bool)
  update r u name c = update_with opts.writable r u name c

  abbrev pub publish_removed :
      Rest Obj Store → Store × Result (Obj × Bool) → Rest Obj Store × Result (Obj × Bool)
  publish_removed r (s, err e) = (record r { store = s }, err e)
  publish_removed r (s, ok (stored, false)) = (record r { store = s }, ok (stored, false))
  publish_removed r (s, ok (stored, true)) =
      let (r', stamped) = publish_deleted k (record r { store = s }) stored in
      (r', ok (stamped, true))

  abbrev pub delete_valid :
      Writes Obj User Store
      → Rest Obj Store
      → Option User
      → Bytes
      → Result (Unit {0})
      → Rest Obj Store × Result (Obj × Bool)
  delete_valid w r u name (err e) = (r, err e)
  delete_valid w r u name (ok _) = publish_removed r (w.delete r.store u name)

  abbrev pub delete_with :
      Option (Writes Obj User Store)
      → Rest Obj Store
      → Option User
      → Bytes
      → Validation Obj
      → Rest Obj Store × Result (Obj × Bool)
  delete_with none r u name valid = (r, err (method_not_supported (codes "delete")))
  delete_with (some w) r u name valid =
      delete_valid w r u name (opts.backend.get r.store u name >>= λ obj. run_validation valid obj)

  unfoldable pub delete :
      Rest Obj Store → Option User → Bytes → Validation Obj → Rest Obj Store × Result (Obj × Bool)
  delete r u name valid = delete_with opts.writable r u name valid
