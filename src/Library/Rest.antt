-- ===== src/Library/Rest.antt =====
-- runtime/library/adapter.go and options.go: the adapter's state, its publisher and its reads.
-- A handler runs as one step; the watch broadcaster is the list of the events published to it.
pub mod Reading
pub mod Writing
pub mod Steps
pub mod Run
pub mod Outcomes
pub mod Conflict
pub mod Listing
use aggexp.Prelude.{
  ℕ, ◌+◌, ◌%◌, ◌^◌, Bool, true, false, List, [], ◌∷◌, ◌++◌, Option, none, some, if◌then◌else◌,
}
use aggexp.Text.{Bytes}
use aggexp.Decimal.{format_uint}
use aggexp.Kube.{Accessor, ObjList, Result, ok, err, Event, EventType, added, modified, deleted}
use aggexp.Storage.{Backend, Writes}
use aggexp.Library.Objects.{GroupResource, stamp_rv, object_name}
use aggexp.Library.Occ.{OccTracker, record_rv, stamp_tracked, delete_rv}
use aggexp.Library.FieldSelector.{FieldSelectorConfig}

-- What `New` takes, with the backend's write half when it has one.
pub record Options (Obj User Store : Type 0) : Type 0 where
  pub backend : Backend Obj User Store
  pub writable : Option (Writes Obj User Store)
  pub group_resource : GroupResource
  pub deterministic_uids : Bool
  pub pagination : Bool
  pub optimistic_concurrency : Bool
  pub bookmark : Bool
  pub field_selectors : Option (FieldSelectorConfig Obj)
  pub sha256 : Bytes → List ℕ

pub record Rest (Obj Store : Type 0) : Type 0 where
  pub rv : ℕ
  pub occ : Option OccTracker
  pub published : List (Event Obj)
  pub store : Store

unfoldable pub new : {Obj User Store : Type 0} → Options Obj User Store → Store → Rest Obj Store
new opts s = record {
  rv = 1;
  occ = if opts.optimistic_concurrency then some [] else none;
  published = [];
  store = s;
}

module _ {Obj Store : Type 0} where
  unfoldable pub current_resource_version : Rest Obj Store → Bytes
  current_resource_version r = format_uint r.rv

  -- `atomic.Uint64.Add(1)`
  unfoldable pub bump : Rest Obj Store → Rest Obj Store
  bump r = record r { rv = (r.rv + 1) % 2 ^ 64 }

  unfoldable pub broadcast : Rest Obj Store → EventType → Obj → Rest Obj Store
  broadcast r et obj = record r {
    published = r.published ++ record { event_type = et; object = obj } ∷ [];
  }

module _ {Obj : Type 0} (k : Accessor Obj) where
  abbrev record_in : Option OccTracker → Obj → Option OccTracker
  record_in none obj = none
  record_in (some t) obj = some (record_rv k t obj)

  abbrev forget_in : Option OccTracker → Obj → Option OccTracker
  forget_in none obj = none
  forget_in (some t) obj = some (delete_rv t (object_name k obj))

  abbrev pub stamp_if : Option OccTracker → Bytes → Obj → Obj
  stamp_if none name obj = obj
  stamp_if (some t) name obj = stamp_tracked k t obj name

  abbrev pub stamp_result : Option OccTracker → Bytes → Result Obj → Result Obj
  stamp_result occ name (ok obj) = ok (stamp_if occ name obj)
  stamp_result occ name (err e) = err e

module _ {Obj Store : Type 0} (k : Accessor Obj) where
  -- Stamp a fresh version, record it, emit. The object is stamped in place, so it is returned.
  unfoldable pub publish_recorded : EventType → Rest Obj Store → Obj → Rest Obj Store × Obj
  unfolding bump broadcast current_resource_version
  publish_recorded et r obj =
      let r' = bump r in
      let stamped = stamp_rv k obj (current_resource_version r') in
      (broadcast (record r' { occ = record_in k r'.occ stamped }) et stamped, stamped)

  unfoldable pub publish_added : Rest Obj Store → Obj → Rest Obj Store × Obj
  unfolding publish_recorded
  publish_added = publish_recorded added

  unfoldable pub publish_modified : Rest Obj Store → Obj → Rest Obj Store × Obj
  unfolding publish_recorded
  publish_modified = publish_recorded modified

  unfoldable pub publish_deleted : Rest Obj Store → Obj → Rest Obj Store × Obj
  unfolding bump broadcast current_resource_version
  publish_deleted r obj =
      let r' = bump r in
      let stamped = stamp_rv k obj (current_resource_version r') in
      (broadcast (record r' { occ = forget_in k r'.occ stamped }) deleted stamped, stamped)

module _ {Obj User Store : Type 0} (k : Accessor Obj) (opts : Options Obj User Store) where
  unfoldable pub get : Rest Obj Store → Option User → Bytes → Result Obj
  get r u name = stamp_result k r.occ name (opts.backend.get r.store u name)
