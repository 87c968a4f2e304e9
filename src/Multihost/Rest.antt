-- ===== src/Multihost/Rest.antt =====
-- runtime/library/multihost/adapter.go: the adapter of a replica, its stitching, adoption and collection.
-- The converter, the API server, the informers' caches, UUIDs and the clock are parameters.
pub mod Reads
pub mod Txn
pub mod Writes
pub mod Allowed
pub mod Stale
pub mod Watching
use aggexp.Prelude.{
  ℕ, ◌+◌, ◌-◌, Bool, true, false, not, ◌&&◌, List, [], ◌∷◌, ◌++◌, Option, none, some, ltb, leb,
  if◌then◌else◌,
}
use aggexp.Text.{Bytes, codes, str_empty}
use aggexp.GoMap.{GoMap}
use aggexp.Kube.{Accessor, StringMap, Result, ok, err}
use aggexp.ResourceVersion.{rv_less}
use aggexp.Multihost.Ref.{ResourceRef, User, Body, IdentityGate}
use aggexp.Multihost.Signature.{MetaRecord}
use aggexp.Multihost.BodyStore.{BodyCr, BodyApi, NegCache}
use aggexp.Multihost.Lock.{Locker}
use aggexp.Multihost.MetaCache.{
  MetaStore, get_from_cache, get_record_direct, high_water_rv, put, delete_record,
}

-- The setters of `metav1.Object` that the adapter adds. The two that take raw JSON leave the object as it
-- is when the text does not parse.
pub record MetaSetters (Obj : Type 0) : Type 0 where
  pub access : Accessor Obj
  pub has_creation_timestamp : Obj → Bool
  pub set_name : Obj → Bytes → Obj
  pub set_namespace : Obj → Bytes → Obj
  pub set_creation_timestamp : Obj → ℕ → Obj
  pub set_deletion_timestamp : Obj → Option ℕ → Obj
  pub set_labels : Obj → StringMap → Obj
  pub set_finalizers : Obj → List Bytes → Obj
  pub set_managed_fields : Obj → Bytes → Obj
  pub set_owner_references : Obj → Bytes → Obj

pub record Rest (World Json Obj : Type 0) : Type 0 where
  pub store : MetaStore World
  pub bodies : BodyApi World Json
  pub body_cache : World → GoMap (BodyCr Json)
  pub sha256 : Bytes → List ℕ
  pub show : Json → Bytes
  pub setters : MetaSetters Obj
  pub conv_new : Obj
  pub conv_stitch : ResourceRef → Body Json → Option MetaRecord → Obj
  pub conv_body : Obj → Body Json
  pub conv_record : Obj → ResourceRef → Option MetaRecord
  pub new_uuid : World → World × Bytes
  pub now : World → ℕ
  pub gate : IdentityGate
  pub locker : Option Locker
  pub reconcile : Bool
  pub min_age : ℕ
  pub adopt : Bool
  pub gc : Bool

pub record Counters : Type 0 where
  pub served_get : ℕ
  pub served_list : ℕ
  pub adopt_inline : ℕ
  pub adopt_sweep : ℕ
  pub collect_inline : ℕ
  pub collect_sweep : ℕ
  pub collect_skipped_age : ℕ
  pub write_ok : ℕ
  pub write_conflict : ℕ
  pub write_retry : ℕ
  pub max_write_depth : ℕ

-- What a replica keeps, in the world it works on. `hub_rv` and `store_rv` are the highest versions that
-- the hub and the metadata store have seen.
pub record Replica (World : Type 0) : Type 0 where
  pub world : World
  pub neg : NegCache
  pub hub_rv : Bytes
  pub store_rv : Bytes
  pub counters : Counters

module _ {World Json Obj : Type 0} (r : Rest World Json Obj) where
  abbrev pub at_world : Replica World → World → Replica World
  at_world s w = record s { world = w }

  unfoldable pub ref_for : Bytes → Bytes → ResourceRef
  ref_for namespace name = record {
    group = r.store.group;
    resource = r.store.resource;
    namespace = namespace;
    name = name;
  }

  unfoldable pub current_resource_version : Replica World → Bytes
  current_resource_version s =
      let hw = high_water_rv r.store s.world s.store_rv in
      if rv_less s.hub_rv hw then hw else s.hub_rv

  -- Name and namespace are filled in when the converter left them empty.
  unfoldable pub named : ResourceRef → Obj → Obj
  named ref obj =
      let k = r.setters.access in
      let o = if str_empty (k.name obj) then r.setters.set_name obj ref.name else obj in
      if str_empty (k.namespace o) then r.setters.set_namespace o ref.namespace else o

  -- Without a record: a synthetic UID, the current version and the current time, where they are missing.
  unfoldable pub synthetic : Replica World → Obj → Replica World × Obj
  synthetic s obj =
      let k = r.setters.access in
      let (w, uuid) = r.new_uuid s.world in
      let (t, o) =
        if str_empty (k.uid obj)
        then (at_world s w, k.set_uid obj (codes "synthetic-" ++ uuid))
        else (s, obj) in
      let p =
        if str_empty (k.resource_version o)
        then k.set_resource_version o (current_resource_version t)
        else o in
      (
        t,
        if r.setters.has_creation_timestamp p
            then p
            else r.setters.set_creation_timestamp p (r.now t.world),
      )

  abbrev pub set_created : Obj → Option ℕ → Obj
  set_created obj none = obj
  set_created obj (some t) = r.setters.set_creation_timestamp obj t

  abbrev pub set_raw : (Obj → Bytes → Obj) → Obj → Bytes → Obj
  set_raw set obj text = if str_empty text then obj else set obj text

  -- With a record, its metadata is the object's, and its version the one of the host.
  unfoldable pub overlay : MetaRecord → Obj → Obj
  overlay rec obj =
      let k = r.setters.access in
      let stamped = k.set_resource_version (k.set_uid obj rec.uid) rec.record_rv in
      let timed =
        r.setters.set_deletion_timestamp (set_created stamped rec.creation_timestamp)
          rec.deletion_timestamp in
      let described =
        r.setters.set_finalizers
          (k.set_annotations (r.setters.set_labels timed rec.labels) rec.annotations)
          rec.finalizers in
      set_raw r.setters.set_owner_references
        (set_raw r.setters.set_managed_fields described rec.managed_fields) rec.owner_references

  abbrev pub stitch_on : Replica World → Obj → Option MetaRecord → Replica World × Obj
  stitch_on s obj none = synthetic s obj
  stitch_on s obj (some rec) = (s, overlay rec obj)

  unfoldable pub stitch :
      Replica World → ResourceRef → Body Json → Option MetaRecord → Replica World × Obj
  stitch s ref body rec =
      let obj = r.conv_stitch ref body rec in
      if r.setters.access.is_accessible obj then stitch_on s (named ref obj) rec else (s, obj)

  abbrev pub cached_or_direct :
      Replica World → ResourceRef → Option MetaRecord → Replica World × Option MetaRecord
  cached_or_direct s ref (some rec) = (s, some rec)
  cached_or_direct s ref none =
      let (w, rec) = get_record_direct r.store s.world ref in (at_world s w, rec)

  unfoldable pub find_record : Replica World → ResourceRef → Replica World × Option MetaRecord
  find_record s ref = cached_or_direct s ref (get_from_cache r.store s.world ref)

  abbrev pub or_default : ResourceRef → ResourceRef
  or_default ref =
      if str_empty ref.namespace then record ref { namespace = codes "default" } else ref

  abbrev pub adopted_by : Bool → Bytes
  adopted_by from_sweep = if from_sweep then codes "sweep" else codes "read"

  abbrev pub adopted_record : ResourceRef → Bool → Bytes → ℕ → MetaRecord
  adopted_record ref from_sweep uuid now = record {
    ref = or_default ref;
    record_uid = [];
    record_rv = [];
    uid = uuid;
    creation_timestamp = some now;
    deletion_timestamp = none;
    labels = [];
    annotations =
        (codes "aggexp.io/adopted", codes "true")
        ∷ (codes "aggexp.io/adopted-by", adopted_by from_sweep)
        ∷ [];
    finalizers = [];
    managed_fields = [];
    owner_references = [];
    body_hash = [];
    lock = none;
  }

  abbrev pub adopted :
      Replica World → Bool → World × Result MetaRecord → Replica World × Option MetaRecord
  adopted s from_sweep (w, err e) = (at_world s w, none)
  adopted s from_sweep (w, ok rec) = (
    record s {
      world = w;
      counters =
          if from_sweep
          then record (s.counters) { adopt_sweep = s.counters.adopt_sweep + 1 }
          else record (s.counters) { adopt_inline = s.counters.adopt_inline + 1 };
    },
    some rec,
  )

  unfoldable pub adopt_record :
      Replica World → ResourceRef → Bool → Replica World × Option MetaRecord
  adopt_record s ref from_sweep =
      let (w, uuid) = r.new_uuid s.world in
      if r.adopt
      then adopted s from_sweep (put r.store w (adopted_record ref from_sweep uuid (r.now w)))
      else (s, none)

  -- A record without a creation time counts as old.
  unfoldable pub is_young : Replica World → Option ℕ → Bool
  is_young s none = false
  is_young s (some t) = ltb (r.now s.world - t) r.min_age

  abbrev pub collected : Replica World → Bool → World × Result (Unit {0}) → Replica World × Bool
  collected s from_sweep (w, err e) = (at_world s w, false)
  collected s from_sweep (w, ok done) = (
    record s {
      world = w;
      counters =
          if from_sweep
          then record (s.counters) { collect_sweep = s.counters.collect_sweep + 1 }
          else record (s.counters) { collect_inline = s.counters.collect_inline + 1 };
    },
    true,
  )

  unfoldable pub collect : Replica World → ResourceRef → MetaRecord → Bool → Replica World × Bool
  collect s ref rec from_sweep =
      if not r.gc
      then (s, false)
      else if is_young s rec.creation_timestamp
      then (
        record s {
          counters = record (s.counters) {
            collect_skipped_age = s.counters.collect_skipped_age + 1;
          };
        },
        false,
      )
      else collected s from_sweep (delete_record r.store s.world ref)
