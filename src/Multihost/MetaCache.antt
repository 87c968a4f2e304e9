-- ===== src/Multihost/MetaCache.antt =====
-- runtime/library/multihost/metastore.go behind `Start`: the reads from the informer's cache, `Put` and
-- `Delete`. The dynamic client and the lister are parameters.
use aggexp.Prelude.{
  ℕ, Bool, true, false, not, ◌&&◌, List, [], ◌∷◌, Option, none, some, if◌then◌else◌,
}
use aggexp.Text.{Bytes, str_eq, str_lt, str_empty}
use aggexp.Kube.{Result, ok, err, is_not_found}
use aggexp.ResourceVersion.{rv_less}
use aggexp.Multihost.Ref.{ResourceRef, record_name}
use aggexp.Multihost.Signature.{MetaRecord}
use aggexp.Multihost.MetaStore.{
  Raw, Record, MetaApi, wire_lock, decode_record, get_direct, as_record,
}

-- The resources of all references: `at` is the client on the one that `RecordName` gives.
pub record MetaStore (World : Type 0) : Type 0 where
  pub group : Bytes
  pub resource : Bytes
  pub sha256 : Bytes → List ℕ
  pub at : ResourceRef → MetaApi World MetaRecord
  pub delete : World → Bytes → World × Result (Unit {0})
  pub lister_get : World → Bytes → Result (Raw MetaRecord)
  pub lister_list : World → Result (List (Raw MetaRecord))

-- The record with the version of the resource that it was read from.
abbrev pub full : Record MetaRecord → MetaRecord
full r = record (r.content) { record_rv = r.record_rv }

module _ {World : Type 0} (s : MetaStore World) where
  abbrev pub decoded_at : ResourceRef → Raw MetaRecord → Option MetaRecord
  decoded_at ref raw = found (decode_record (s.at ref) raw)
    where
      found : Result (Record MetaRecord) → Option MetaRecord
      found (ok r) = some (full r)
      found (err e) = none

  abbrev pub cached_record : ResourceRef → Result (Raw MetaRecord) → Option MetaRecord
  cached_record ref (ok raw) = decoded_at ref raw
  cached_record ref (err e) = none

  -- The callers take every error as an absent record.
  unfoldable pub get_from_cache : World → ResourceRef → Option MetaRecord
  get_from_cache w ref = cached_record ref (s.lister_get w (record_name s.sha256 ref))

  abbrev pub full_or_nil : World × Result (Option (Record MetaRecord)) → World × Option MetaRecord
  full_or_nil (w, ok (some r)) = (w, some (full r))
  full_or_nil (w, ok none) = (w, none)
  full_or_nil (w, err e) = (w, none)

  unfoldable pub get_record_direct : World → ResourceRef → World × Option MetaRecord
  get_record_direct w ref = full_or_nil (get_direct (s.at ref) w)

  abbrev pub is_ours : ResourceRef → Bool
  is_ours ref = str_eq ref.group s.group && str_eq ref.resource s.resource

  abbrev pub add_record : Option MetaRecord → List MetaRecord → List MetaRecord
  add_record none l = l
  add_record (some r) l = r ∷ l

  unfoldable pub decode_ours : List (Raw MetaRecord) → List MetaRecord
  decode_ours [] = []
  decode_ours (raw ∷ l) =
      let rest = decode_ours l in
      if is_ours raw.content.ref then add_record (decoded_at raw.content.ref raw) rest else rest

  unfoldable pub insert_by_name : MetaRecord → List MetaRecord → List MetaRecord
  insert_by_name a [] = a ∷ []
  insert_by_name a (b ∷ l) =
      let rest = insert_by_name a l in if str_lt b.ref.name a.ref.name then b ∷ rest else a ∷ b ∷ l

  unfoldable pub sort_records : List MetaRecord → List MetaRecord
  sort_records [] = []
  sort_records (a ∷ l) = insert_by_name a (sort_records l)

  abbrev pub listed_records : Result (List (Raw MetaRecord)) → List MetaRecord
  listed_records (ok l) = sort_records (decode_ours l)
  listed_records (err e) = []

  -- `ListFromCache` without its version, which no caller uses; a failed list counts as empty.
  unfoldable pub list_from_cache : World → List MetaRecord
  list_from_cache w = listed_records (s.lister_list w)

  abbrev pub max_rv : Bytes → List (Raw MetaRecord) → Bytes
  max_rv m [] = m
  max_rv m (raw ∷ l) = max_rv (if rv_less m raw.resource_version then raw.resource_version else m) l

  abbrev pub max_of : Result (List (Raw MetaRecord)) → Bytes
  max_of (ok l) = max_rv [] l
  max_of (err e) = []

  -- `cur_rv` is the highest version that `handle` has seen.
  unfoldable pub high_water_rv : World → Bytes → Bytes
  high_water_rv w cur_rv = if not (str_empty cur_rv) then cur_rv else max_of (s.lister_list w)

  -- `handle`: the version seen after an event on a resource, and whether the event is for this store.
  unfoldable pub handle_rv : Bytes → Raw MetaRecord → Bytes × Bool
  handle_rv cur_rv raw =
      if is_ours raw.content.ref
      then ((if rv_less cur_rv raw.resource_version then raw.resource_version else cur_rv), true)
      else (cur_rv, false)

  abbrev pub encode_record : Bytes → MetaRecord → Raw MetaRecord
  encode_record rv rec = record { resource_version = rv; lock = wire_lock rec.lock; content = rec }

  abbrev pub full_result : World × Result (Record MetaRecord) → World × Result MetaRecord
  full_result (w, ok r) = (w, ok (full r))
  full_result (w, err e) = (w, err e)

  abbrev pub put_on : MetaRecord → World × Result (Raw MetaRecord) → World × Result MetaRecord
  put_on rec (w, err e) =
      if is_not_found e
      then full_result (as_record (s.at rec.ref) ((s.at rec.ref).create w (encode_record [] rec)))
      else (w, err e)
  put_on rec (w, ok existing) = full_result (
      as_record (s.at rec.ref)
        ((s.at rec.ref).update w (encode_record existing.resource_version rec)))

  -- Create or update, without the lock.
  unfoldable pub put : World → MetaRecord → World × Result MetaRecord
  put w rec = put_on rec ((s.at rec.ref).get w)

  abbrev pub absent_ok : World × Result (Unit {0}) → World × Result (Unit {0})
  absent_ok (w, ok done) = (w, ok tt)
  absent_ok (w, err e) = (w, if is_not_found e then ok tt else err e)

  unfoldable pub delete_record : World → ResourceRef → World × Result (Unit {0})
  delete_record w ref = absent_ok (s.delete w (record_name s.sha256 ref))
