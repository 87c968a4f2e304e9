-- ===== src/Library/Subresource/Keeps.antt =====
-- A status update keeps the spec, a spec update the status.
use aggexp.Prelude.{◌≡◌, refl, ◌∙◌, Bool, true, false, Option, none, some, Bool-cases, inl, inr}
use aggexp.Text.{Bytes}
use aggexp.GoMap.{lookup}
use aggexp.Kube.{Accessor, Result, ok, err, ◌>>=◌, ◌>>◌}
use aggexp.Storage.{Writes}
use aggexp.Library.Objects.{stamp_rv}
use aggexp.Library.Occ.{OccTracker, stamp_tracked, stamp}
use aggexp.Library.Rest.{Options, Rest, publish_added, publish_modified, publish_recorded, stamp_if}
use aggexp.Library.Rest.Writing.{
  UpdateCall, UpdateValidation, update, prepare_found, store_update, publish_updated, occ_check,
  run_update_validation,
}
use aggexp.Library.Subresource.{after_inner, subresource_updated_object, subresource_update}

module _ {Obj User Store Part : Type 0} (k : Accessor Obj) (opts : Options Obj User Store)
    (kept : Obj → Part) where
  -- What the returned object keeps of the given one.
  abbrev KeptBy : Obj → Result Obj → Type 0
  KeptBy old (ok obj) = kept obj ≡ kept old
  KeptBy old (err e) = Unit

  abbrev pub KeptStored : Obj → Result (Obj × Bool) → Type 0
  KeptStored old (ok (obj, created)) = kept obj ≡ kept old
  KeptStored old (err e) = Unit

  module _ (updater : Obj → Obj → Obj)
      (keeps : (new_obj old_obj : Obj) → kept (updater new_obj old_obj) ≡ kept old_obj)
      (version_apart : (o : Obj) (v : Bytes) → kept (k.set_resource_version o v) ≡ kept o)
      (w : Writes Obj User Store)
      (stores : (s : Store) (u : Option User) (name : Bytes) (o : Obj) (force : Bool)
        → KeptStored o (w.update s u name o force).1) where
    kept-stamp_rv : (o : Obj) (v : Bytes) → kept (stamp_rv k o v) ≡ kept o
    unfolding stamp_rv
    kept-stamp_rv o v = elim (Bool-cases (k.is_accessible o)) [
      | inl e ↦ simp e (version_apart o v)
      | inr e ↦ simp e refl
    ]

    kept-stamp : (o : Obj) (v : Option Bytes) → kept (stamp k o v) ≡ kept o
    kept-stamp o none = refl
    kept-stamp o (some v) = elim (Bool-cases (k.is_accessible o)) [
      | inl e ↦ simp e (version_apart o v)
      | inr e ↦ simp e refl
    ]

    kept-stamp_if :
        (occ : Option OccTracker) (name : Bytes) (o : Obj) → kept (stamp_if k occ name o) ≡ kept o
    kept-stamp_if none name o = refl
    kept-stamp_if (some t) name o = unfold stamp_tracked in kept-stamp o (lookup name t)

    KeptBy-checked :
        (old new_obj : Obj) (a b : Result (Unit {0}))
        → kept new_obj ≡ kept old
        → KeptBy old (a >> (b >> ok new_obj))
    KeptBy-checked old new_obj (err e) b same = tt
    KeptBy-checked old new_obj (ok _) (err e) same = tt
    KeptBy-checked old new_obj (ok _) (ok _) same = same

    KeptBy-after :
        (old cur : Obj) (inner : Result Obj) (a b : Obj → Result (Unit {0}))
        → kept cur ≡ kept old
        → KeptBy old (
            after_inner (some updater) (some cur) inner >>= λ new_obj.
            a new_obj >> (b new_obj >> ok new_obj))
    KeptBy-after old cur (err e) a b same = tt
    KeptBy-after old cur (ok new_obj) a b same =
        KeptBy-checked old (updater new_obj cur) _ _ (keeps new_obj cur ∙ same)

    KeptBy-prepare_found :
        (r : Rest Obj Store) (name : Bytes) (inner : Option Obj → Result Obj)
        (v : UpdateValidation Obj) (old : Obj)
        → KeptBy old
            (prepare_found k opts r name (subresource_updated_object (some updater) inner) v old)
    unfolding prepare_found subresource_updated_object
    KeptBy-prepare_found r name inner v old =
        let cur = stamp_if k r.occ name old in
        KeptBy-after old cur (inner (some cur)) (occ_check k opts r.occ name cur)
          (λ new_obj. run_update_validation v new_obj cur) (kept-stamp_if r.occ name old)

    KeptStored-via :
        (old o : Obj) (out : Result (Obj × Bool))
        → kept o ≡ kept old
        → KeptStored o out
        → KeptStored old out
    KeptStored-via old o (err e) same h = tt
    KeptStored-via old o (ok (obj, created)) same h = h ∙ same

    KeptStored-published :
        (old : Obj) (r : Rest Obj Store) (out : Store × Result (Obj × Bool))
        → KeptStored old out.1
        → KeptStored old (publish_updated k opts r out).1
    unfolding publish_added publish_modified publish_recorded
    KeptStored-published old r (s, err e) h = tt
    KeptStored-published old r (s, ok (stored, true)) h = kept-stamp_rv stored _ ∙ h
    KeptStored-published old r (s, ok (stored, false)) h = kept-stamp_rv stored _ ∙ h

    KeptStored-store_update :
        (old : Obj) (r : Rest Obj Store) (u : Option User) (name : Bytes) (force : Bool)
        (prep : Result Obj)
        → KeptBy old prep
        → KeptStored old (store_update k opts w r u name force prep).1
    KeptStored-store_update old r u name force (err e) h = tt
    KeptStored-store_update old r u name force (ok o) h =
        KeptStored-published old r (w.update r.store u name o force)
          (KeptStored-via old o _ h (stores r.store u name o force))

    -- When the updater takes a part of the object from the old one, stamping a version leaves that part,
    -- and the backend stores and returns it as it is given, then a subresource update of an existing
    -- object that succeeds returns an object with the part of the existing one, whatever the client sent.
    pub subresource_update-KeptStored :
        (r : Rest Obj Store) (u : Option User) (name : Bytes) (c : UpdateCall Obj) (existing : Obj)
        → opts.writable ≡ some w
        → opts.backend.get r.store u name ≡ ok existing
        → KeptStored existing (subresource_update k opts (some updater) r u name c).1
    unfolding subresource_update update
    subresource_update-KeptStored r u name c existing writable read =
        simp (writable, read)
          (KeptStored-store_update existing r u name c.force_allow_create _
            (KeptBy-prepare_found r name c.updated_object c.update_validation existing))
