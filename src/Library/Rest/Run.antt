-- ===== src/Library/Rest/Run.antt =====
-- Every sequence of calls keeps the adapter valid.
use aggexp.Prelude.{
  ◌+◌, ◌≤◌, ◌<◌, ◌≡◌, Bool, true, false, List, [], ◌∷◌, Option, none, some, arith, length,
  if◌then◌else◌,
}
use aggexp.Text.{Bytes}
use aggexp.Decimal.{max_u64}
use aggexp.GoMap.{lookup}
use aggexp.Library.Occ.{OccTracker}
use aggexp.Kube.{Accessor, IsLawful, Result, ok, err, added, modified}
use aggexp.Storage.{Writes}
use aggexp.Library.Rest.{Options, Rest, new, publish_added, publish_modified, publish_deleted}
use aggexp.Library.Rest.Writing
use aggexp.Library.Rest.Writing.{
  UpdateCall, Validation, create, create_with, create_valid, publish_stored, update, update_with,
  update_current, store_update, publish_updated, Current, found, missing, failed, classify,
  delete_with, delete_valid, publish_removed, run_validation, prepare_found, prepare_missing,
  stamp_uid,
}
use aggexp.Library.Rest.Steps.{
  Call, creates, updates, deletes, publishes_added, publishes_modified, publishes_deleted, step,
  run, Version, IsValid, Advances, publish_recorded-Advances, publish_deleted-Advances,
}

module _ {Obj User Store : Type 0} (k : Accessor Obj) (law : IsLawful k)
    (opts : Options Obj User Store) (r : Rest Obj Store) (valid : IsValid k r)
    (room : r.rv < max_u64) where
  stays : Advances k r r
  stays = (valid, omega arith)

  stored : (s : Store) → IsValid k (record r { store = s })
  stored s = record { rising = valid.rising; tracked = valid.tracked }

  added-Advances :
      (s : Store) (obj : Obj) → Advances k r (publish_added k (record r { store = s }) obj).0
  unfolding publish_added
  added-Advances s obj =
      publish_recorded-Advances k law (record r { store = s }) (stored s) room added obj

  modified-Advances :
      (s : Store) (obj : Obj) → Advances k r (publish_modified k (record r { store = s }) obj).0
  unfolding publish_modified
  modified-Advances s obj =
      publish_recorded-Advances k law (record r { store = s }) (stored s) room modified obj

  deleted-Advances :
      (s : Store) (obj : Obj) → Advances k r (publish_deleted k (record r { store = s }) obj).0
  deleted-Advances s obj =
      publish_deleted-Advances k law (record r { store = s }) (stored s) room obj

  publish_stored-Advances :
      (out : Store × Result Obj) → Advances k r (publish_stored k opts (publish_added k) r out).0
  publish_stored-Advances (s, err e) = (stored s, omega arith)
  publish_stored-Advances (s, ok obj) = added-Advances s obj

  create_valid-Advances :
      (w : Writes Obj User Store) (u : Option User) (obj : Obj) (v : Result (Unit {0}))
      → Advances k r (create_valid k opts w r u obj v).0
  create_valid-Advances w u obj (err e) = stays
  create_valid-Advances w u obj (ok _) =
      publish_stored-Advances (w.create r.store u (stamp_uid k opts obj))

  create-Advances :
      (w : Option (Writes Obj User Store)) (u : Option User) (obj : Obj) (v : Validation Obj)
      → Advances k r (create_with k opts w r u obj v).0
  create-Advances none u obj v = stays
  create-Advances (some w) u obj v = create_valid-Advances w u obj (run_validation v obj)

  publish_updated-Advances :
      (out : Store × Result (Obj × Bool)) → Advances k r (publish_updated k opts r out).0
  publish_updated-Advances (s, err e) = (stored s, omega arith)
  publish_updated-Advances (s, ok (obj, true)) = added-Advances s obj
  publish_updated-Advances (s, ok (obj, false)) = modified-Advances s obj

  store_update-Advances :
      (w : Writes Obj User Store) (u : Option User) (name : Bytes) (force : Bool) (obj : Result Obj)
      → Advances k r (store_update k opts w r u name force obj).0
  store_update-Advances w u name force (err e) = stays
  store_update-Advances w u name force (ok obj) =
      publish_updated-Advances (w.update r.store u name obj force)

  update_current-Advances :
      (w : Writes Obj User Store) (u : Option User) (name : Bytes) (c : UpdateCall Obj)
      (current : Current Obj)
      → Advances k r (update_current k opts w r u name c current).0
  update_current-Advances w u name c (failed e) = stays
  update_current-Advances w u name c (found existing) =
      store_update-Advances w u name c.force_allow_create _
  update_current-Advances w u name c (missing e) =
      store_update-Advances w u name c.force_allow_create _

  update-Advances :
      (w : Option (Writes Obj User Store)) (u : Option User) (name : Bytes) (c : UpdateCall Obj)
      → Advances k r (update_with k opts w r u name c).0
  update-Advances none u name c = stays
  update-Advances (some w) u name c = update_current-Advances w u name c _

  publish_removed-Advances :
      (out : Store × Result (Obj × Bool)) → Advances k r (publish_removed k opts r out).0
  publish_removed-Advances (s, err e) = (stored s, omega arith)
  publish_removed-Advances (s, ok (obj, false)) = (stored s, omega arith)
  publish_removed-Advances (s, ok (obj, true)) = deleted-Advances s obj

  delete_valid-Advances :
      (w : Writes Obj User Store) (u : Option User) (name : Bytes) (v : Result (Unit {0}))
      → Advances k r (delete_valid k opts w r u name v).0
  delete_valid-Advances w u name (err e) = stays
  delete_valid-Advances w u name (ok _) = publish_removed-Advances (w.delete r.store u name)

  delete-Advances :
      (w : Option (Writes Obj User Store)) (u : Option User) (name : Bytes) (v : Validation Obj)
      → Advances k r (delete_with k opts w r u name v).0
  delete-Advances none u name v = stays
  delete-Advances (some w) u name v = delete_valid-Advances w u name _

  step-Advances : (c : Call Obj User) → Advances k r (step k opts r c)
  unfolding step create update Writing.delete
  step-Advances (creates u obj v) = create-Advances opts.writable u obj v
  step-Advances (updates u name c) = update-Advances opts.writable u name c
  step-Advances (deletes u name v) = delete-Advances opts.writable u name v
  step-Advances (publishes_added obj) = added-Advances r.store obj
  step-Advances (publishes_modified obj) = modified-Advances r.store obj
  step-Advances (publishes_deleted obj) = deleted-Advances r.store obj

new_tracks_nothing :
    (b : Bool) (t : OccTracker) (name v : Bytes)
    → (if b then some [] else none) ≡ some t
    → lookup name t ≡ some v
    → Version 1 v
unfolding lookup
new_tracks_nothing true t name v e h = absurd (ground arith)
new_tracks_nothing false t name v e h = absurd (ground arith)

module _ {Obj User Store : Type 0} (k : Accessor Obj) (law : IsLawful k) where
  run-IsValid :
      (opts : Options Obj User Store) (r : Rest Obj Store) (cs : List (Call Obj User))
      → IsValid k r
      → r.rv + length cs ≤ max_u64
      → IsValid k (run k opts r cs)
  unfolding run
  run-IsValid opts r [] v h = v
  run-IsValid opts r (c ∷ cs) v h =
      let next = step-Advances k law opts r v (omega arith) c in
      run-IsValid opts (step k opts r c) cs next.0 (omega (arith, next.1))

  new-IsValid : (opts : Options Obj User Store) (s : Store) → IsValid k (new opts s)
  unfolding new
  new-IsValid opts s = record {
    rising = omega arith;
    tracked = new_tracks_nothing opts.optimistic_concurrency;
  }

  -- From a new adapter, whatever calls are made on it in whatever order (fewer than 2^64 - 1 of
  -- them), the events it has published carry resource versions that rise strictly, all above 1, and
  -- every tracked version is one that has been given out.
  pub run-new-IsValid :
      (opts : Options Obj User Store) (s : Store) (cs : List (Call Obj User))
      → length cs < max_u64
      → IsValid k (run k opts (new opts s) cs)
  unfolding new
  run-new-IsValid opts s cs h = run-IsValid opts (new opts s) cs (new-IsValid opts s) (omega arith)
