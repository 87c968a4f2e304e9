-- ===== src/Library/Rest/Outcomes.antt =====
-- What each write does to the adapter, on every branch.
use aggexp.Prelude.{
  ◌+◌, ◌%◌, ◌^◌, ◌≡◌, refl, Bool, true, false, [], ◌∷◌, ◌++◌, Option, none, some, arith,
}
use aggexp.Text.{Bytes}
use aggexp.Decimal.{format_uint}
use aggexp.GoMap.{lookup, lookup-insert_self, lookup-delete_self}
use aggexp.Kube.{Accessor, IsLawful, Result, ok, err, EventType, added, modified, deleted}
use aggexp.Storage.{Writes}
use aggexp.Library.Objects.{object_name}
use aggexp.Library.Occ.{OccTracker, record_rv, delete_rv}
use aggexp.Library.Rest.{
  Options, Rest, publish_recorded, publish_added, publish_modified, publish_deleted, record_in,
  forget_in,
}
use aggexp.Library.Rest.Writing
use aggexp.Library.Rest.Writing.{
  UpdateCall, Validation, create, create_with, create_valid, publish_stored, update, update_with,
  update_current, store_update, publish_updated, Current, found, missing, failed, delete_with,
  delete_valid, publish_removed, run_validation, stamp_uid,
}
use aggexp.Library.Rest.Steps.{stamp_rv-version}

module _ {Obj Store : Type 0} (k : Accessor Obj) (r : Rest Obj Store) where
  -- Nothing but the backend's state may have changed.
  abbrev pub Silent : Rest Obj Store → Type 0
  Silent r' = (r'.published ≡ r.published) × (r'.rv ≡ r.rv) × (r'.occ ≡ r.occ)

  -- One event more, of the object as it is returned, which carries the fresh version.
  abbrev pub Emitted : EventType → Rest Obj Store → Obj → Type 0
  Emitted et r' obj =
      (r'.published ≡ r.published ++ record { event_type = et; object = obj } ∷ [])
      × (r'.rv ≡ (r.rv + 1) % 2 ^ 64)
      × (k.is_accessible obj ≡ true → k.resource_version obj ≡ format_uint r'.rv)

  -- The tracker has the version that the object carries.
  abbrev pub Tracked : Rest Obj Store → Obj → Type 0
  Tracked r' obj =
      (t : OccTracker)
      → r'.occ ≡ some t
      → k.is_accessible obj ≡ true
      → lookup (k.name obj) t ≡ some (k.resource_version obj)

  -- The tracker has no version of the object's name.
  abbrev pub Untracked : Rest Obj Store → Obj → Type 0
  Untracked r' obj = (t : OccTracker) → r'.occ ≡ some t → lookup (object_name k obj) t ≡ none

  abbrev pub CreateOutcome : Rest Obj Store × Result Obj → Type 0
  CreateOutcome (r', err e) = Silent r'
  CreateOutcome (r', ok obj) = Emitted added r' obj × Tracked r' obj

  abbrev pub UpdateOutcome : Rest Obj Store × Result (Obj × Bool) → Type 0
  UpdateOutcome (r', err e) = Silent r'
  UpdateOutcome (r', ok (obj, true)) = Emitted added r' obj × Tracked r' obj
  UpdateOutcome (r', ok (obj, false)) = Emitted modified r' obj × Tracked r' obj

  abbrev pub DeleteOutcome : Rest Obj Store × Result (Obj × Bool) → Type 0
  DeleteOutcome (r', err e) = Silent r'
  DeleteOutcome (r', ok (obj, true)) = Emitted deleted r' obj × Untracked r' obj
  DeleteOutcome (r', ok (obj, false)) = Silent r'

module _ {Obj : Type 0} (k : Accessor Obj) where
  record_in_tracks :
      (o : Option OccTracker) (obj : Obj) (t : OccTracker)
      → record_in k o obj ≡ some t
      → k.is_accessible obj ≡ true
      → lookup (k.name obj) t ≡ some (k.resource_version obj)
  unfolding record_rv
  record_in_tracks none obj t e h = absurd (ground arith)
  record_in_tracks (some u) obj t e h =
      ground (arith, lookup-insert_self (k.name obj) (k.resource_version obj) u)

  forget_in_forgets :
      (o : Option OccTracker) (obj : Obj) (t : OccTracker)
      → forget_in k o obj ≡ some t
      → lookup (object_name k obj) t ≡ none
  unfolding delete_rv
  forget_in_forgets none obj t e = absurd (ground arith)
  forget_in_forgets (some u) obj t e = ground (arith, lookup-delete_self (object_name k obj) u)

module _ {Obj User Store : Type 0} (k : Accessor Obj) (law : IsLawful k)
    (opts : Options Obj User Store) (r : Rest Obj Store) where
  recorded :
      (et : EventType) (s : Store) (obj : Obj)
      → let out = publish_recorded k et (record r { store = s }) obj in
        Emitted k r et out.0 out.1 × Tracked k r out.0 out.1
  unfolding publish_recorded
  recorded et s obj =
      ((refl, refl, stamp_rv-version k law obj _), λ t. record_in_tracks k r.occ _ t)

  removed :
      (s : Store) (obj : Obj)
      → let out = publish_deleted k (record r { store = s }) obj in
        Emitted k r deleted out.0 out.1 × Untracked k r out.0 out.1
  unfolding publish_deleted
  removed s obj = ((refl, refl, stamp_rv-version k law obj _), λ t. forget_in_forgets k r.occ _ t)

  silent : Silent k r r
  silent = (refl, refl, refl)

  publish_stored-outcome :
      (out : Store × Result Obj) → CreateOutcome k r (publish_stored k opts (publish_added k) r out)
  unfolding publish_added
  publish_stored-outcome (s, err e) = (refl, refl, refl)
  publish_stored-outcome (s, ok obj) = recorded added s obj

  create_valid-outcome :
      (w : Writes Obj User Store) (u : Option User) (obj : Obj) (v : Result (Unit {0}))
      → CreateOutcome k r (create_valid k opts w r u obj v)
  create_valid-outcome w u obj (err e) = silent
  create_valid-outcome w u obj (ok _) =
      publish_stored-outcome (w.create r.store u (stamp_uid k opts obj))

  create_with-outcome :
      (w : Option (Writes Obj User Store)) (u : Option User) (obj : Obj) (v : Validation Obj)
      → CreateOutcome k r (create_with k opts w r u obj v)
  create_with-outcome none u obj v = silent
  create_with-outcome (some w) u obj v = create_valid-outcome w u obj (run_validation v obj)

  publish_updated-outcome :
      (out : Store × Result (Obj × Bool)) → UpdateOutcome k r (publish_updated k opts r out)
  unfolding publish_added publish_modified
  publish_updated-outcome (s, err e) = (refl, refl, refl)
  publish_updated-outcome (s, ok (obj, true)) = recorded added s obj
  publish_updated-outcome (s, ok (obj, false)) = recorded modified s obj

  store_update-outcome :
      (w : Writes Obj User Store) (u : Option User) (name : Bytes) (force : Bool) (obj : Result Obj)
      → UpdateOutcome k r (store_update k opts w r u name force obj)
  store_update-outcome w u name force (err e) = silent
  store_update-outcome w u name force (ok obj) =
      publish_updated-outcome (w.update r.store u name obj force)

  update_current-outcome :
      (w : Writes Obj User Store) (u : Option User) (name : Bytes) (c : UpdateCall Obj)
      (current : Current Obj)
      → UpdateOutcome k r (update_current k opts w r u name c current)
  update_current-outcome w u name c (failed e) = silent
  update_current-outcome w u name c (found obj) =
      store_update-outcome w u name c.force_allow_create _
  update_current-outcome w u name c (missing e) =
      store_update-outcome w u name c.force_allow_create _

  update_with-outcome :
      (w : Option (Writes Obj User Store)) (u : Option User) (name : Bytes) (c : UpdateCall Obj)
      → UpdateOutcome k r (update_with k opts w r u name c)
  update_with-outcome none u name c = silent
  update_with-outcome (some w) u name c = update_current-outcome w u name c _

  publish_removed-outcome :
      (out : Store × Result (Obj × Bool)) → DeleteOutcome k r (publish_removed k opts r out)
  publish_removed-outcome (s, err e) = (refl, refl, refl)
  publish_removed-outcome (s, ok (obj, false)) = (refl, refl, refl)
  publish_removed-outcome (s, ok (obj, true)) = removed s obj

  delete_valid-outcome :
      (w : Writes Obj User Store) (u : Option User) (name : Bytes) (v : Result (Unit {0}))
      → DeleteOutcome k r (delete_valid k opts w r u name v)
  delete_valid-outcome w u name (err e) = silent
  delete_valid-outcome w u name (ok _) = publish_removed-outcome (w.delete r.store u name)

  delete_with-outcome :
      (w : Option (Writes Obj User Store)) (u : Option User) (name : Bytes) (v : Validation Obj)
      → DeleteOutcome k r (delete_with k opts w r u name v)
  delete_with-outcome none u name v = silent
  delete_with-outcome (some w) u name v = delete_valid-outcome w u name _

  -- Create, on every branch: an error (no write half, a failed validation, the backend's) publishes
  -- nothing and moves no version; a success publishes exactly one ADDED event, of the object that
  -- is returned, under the next version, and that version is the one tracked for its name.
  pub create-outcome :
      (u : Option User) (obj : Obj) (v : Validation Obj)
      → CreateOutcome k r (create k opts r u obj v)
  unfolding create
  create-outcome u obj v = create_with-outcome opts.writable u obj v

  -- Update, on every branch: an error publishes nothing and moves no version; a success publishes
  -- exactly one event, ADDED when the backend created the object and MODIFIED otherwise, of the
  -- object that is returned, under the next version, which is the one tracked for its name.
  pub update-outcome :
      (u : Option User) (name : Bytes) (c : UpdateCall Obj)
      → UpdateOutcome k r (update k opts r u name c)
  unfolding update
  update-outcome u name c = update_with-outcome opts.writable u name c

  -- Delete, on every branch: an error and a pending delete publish nothing and move no version; a
  -- completed one publishes exactly one DELETED event under the next version, and no version is
  -- tracked for the object's name after it.
  pub delete-outcome :
      (u : Option User) (name : Bytes) (v : Validation Obj)
      → DeleteOutcome k r (Writing.delete k opts r u name v)
  unfolding Writing.delete
  delete-outcome u name v = delete_with-outcome opts.writable u name v
