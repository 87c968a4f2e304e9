-- ===== src/Multihost/Rest/Writes.antt =====
-- Create, Update and Delete of runtime/library/multihost/adapter.go.
-- Validation and the patch are parameters.
use aggexp.Prelude.{ℕ, ◌+◌, Bool, true, false, [], Option, none, some, leb, if◌then◌else◌}
use aggexp.Text.{Bytes, str_empty}
use aggexp.Kube.{
  ApiError, Result, ok, err, bad_request, internal, already_exists, not_found, is_conflict,
  is_not_found,
}
use aggexp.Multihost.Ref.{ResourceRef, User, Body}
use aggexp.Multihost.BodyStore.{get_direct, delete_body}
use aggexp.Multihost.MetaCache.{delete_record}
use aggexp.Multihost.Rest.{Rest, Replica, at_world, ref_for, stitch}
use aggexp.Multihost.Rest.Reads.{get}
use aggexp.Multihost.Rest.Txn.{Written, write}

module _ {World Json Obj : Type 0} (r : Rest World Json Obj) where
  abbrev pub count_conflict : Replica World → ApiError → Replica World
  count_conflict s e =
      if is_conflict e
      then record s {
        counters = record (s.counters) { write_conflict = s.counters.write_conflict + 1 };
      }
      else s

  unfoldable pub record_write_outcome : Replica World → ℕ → Replica World
  record_write_outcome s depth = record s {
    counters = record (s.counters) {
      write_ok = s.counters.write_ok + 1;
      max_write_depth =
          if leb depth s.counters.max_write_depth then s.counters.max_write_depth else depth;
    };
  }

  abbrev pub answer : ResourceRef → Body Json → Replica World → Written → Replica World × Result Obj
  answer ref body s done =
      let (t, obj) = stitch r (record_write_outcome s done.depth) ref body (some done.stored) in
      (t, ok obj)

  abbrev pub created :
      ResourceRef → Body Json → Replica World × Result Written → Replica World × Result Obj
  created ref body (s, ok done) = answer ref body s done
  created ref body (s, err e) =
      let (w, cleaned) = delete_body r.sha256 r.bodies s.world ref.namespace ref.name in
      (count_conflict (at_world r s w) e, err e)

  abbrev pub owner_name : Option User → Bytes
  owner_name none = []
  owner_name (some u) = u.user_name

  abbrev pub owned : Bytes → Body Json → Body Json
  owned owner body = record body { owner = owner }

  abbrev pub create_absent :
      (World → ℕ → World)
      → Option User
      → ResourceRef
      → Obj
      → Replica World × Option (Body Json)
      → Replica World × Result Obj
  create_absent pause u ref obj (s, some body) = (s, err (already_exists ref.name))
  create_absent pause u ref obj (s, none) =
      let body = owned (owner_name u) (r.conv_body obj) in
      created ref body (write r pause s ref obj body [])

  abbrev pub peek : Replica World → ResourceRef → Replica World × Option (Body Json)
  peek s ref =
      let (w, body) = get_direct r.sha256 r.bodies s.world ref.namespace ref.name in
      (at_world r s w, body)

  -- The namespace of the request, where the object has none.
  abbrev pub in_request : Bytes → Obj → Obj
  in_request namespace obj =
      if str_empty (r.setters.access.namespace obj)
      then r.setters.set_namespace obj namespace
      else obj

  abbrev pub create_named :
      (World → ℕ → World) → Replica World → Option User → Obj → Replica World × Result Obj
  create_named pause s u obj =
      let k = r.setters.access in
      let ref = ref_for r (k.namespace obj) (k.name obj) in
      if str_empty (k.name obj)
      then (s, err bad_request)
      else create_absent pause u ref obj (peek s ref)

  abbrev pub create_valid :
      (World → ℕ → World)
      → Replica World
      → Option User
      → Bytes
      → Obj
      → Result (Unit {0})
      → Replica World × Result Obj
  create_valid pause s u namespace obj (err e) = (s, err e)
  create_valid pause s u namespace obj (ok valid) =
      if r.setters.access.is_accessible obj
      then create_named pause s u (in_request namespace obj)
      else (s, err bad_request)

  unfoldable pub create :
      (World → ℕ → World)
      → Replica World
      → Option User
      → Bytes
      → (Obj → Result (Unit {0}))
      → Obj
      → Replica World × Result Obj
  create pause s u namespace validate obj = create_valid pause s u namespace obj (validate obj)

  abbrev pub updated :
      ResourceRef → Body Json → Replica World × Result Written → Replica World × Result Obj
  updated ref body (s, ok done) = answer ref body s done
  updated ref body (s, err e) = (count_conflict s e, err e)

  abbrev pub owner_in : Option (Body Json) → Bytes
  owner_in none = []
  owner_in (some body) = body.owner

  -- `name` is the request's; the object's own namespace counts.
  abbrev pub update_existing :
      (World → ℕ → World) → Replica World → Bytes → Obj → Replica World × Result Obj
  update_existing pause s name obj =
      let k = r.setters.access in
      let ref = ref_for r (k.namespace obj) name in
      let (t, prior) = peek s ref in
      let body = owned (owner_in prior) (r.conv_body obj) in
      updated ref body (write r pause t ref obj body (k.resource_version obj))

  abbrev pub named_as : Bytes → Obj → Obj
  named_as name obj =
      if str_empty (r.setters.access.name obj) then r.setters.set_name obj name else obj

  abbrev pub found_or_none : Replica World × Result Obj → Replica World × Result (Option Obj)
  found_or_none (s, ok obj) = (s, ok (some obj))
  found_or_none (s, err e) = (s, if is_not_found e then ok none else err e)

  -- `current` is what the caller may see; the answer says whether the object was created.
  abbrev pub update_on :
      (World → ℕ → World)
      → Replica World
      → Option User
      → Bytes
      → Bool
      → (Obj → Result (Unit {0}))
      → (Obj → Obj → Result (Unit {0}))
      → Option Obj
      → Obj
      → Replica World × (Result Obj × Bool)
  update_on pause s u name force_create create_validation update_validation none obj =
      let (t, result) =
        create_valid pause s u (r.setters.access.namespace obj) obj (create_validation obj) in
      if force_create then (t, (result, is_ok result)) else (s, (err (not_found name), false))
    where
      is_ok : Result Obj → Bool
      is_ok (ok o) = true
      is_ok (err e) = false
  update_on pause s u name force_create create_validation update_validation (some current) obj =
      checked (update_validation obj current)
    where
      checked : Result (Unit {0}) → Replica World × (Result Obj × Bool)
      checked (err e) = (s, (err e, false))
      checked (ok valid) =
          let (t, result) = update_existing pause s name obj in (t, (result, false))

  abbrev pub update_patched :
      (World → ℕ → World)
      → Replica World
      → Option User
      → Bytes
      → Bytes
      → Bool
      → (Obj → Result (Unit {0}))
      → (Obj → Obj → Result (Unit {0}))
      → Option Obj
      → Result Obj
      → Replica World × (Result Obj × Bool)
  update_patched pause s u namespace name force_create create_validation update_validation current
        (err e) =
      (s, (err e, false))
  update_patched pause s u namespace name force_create create_validation update_validation current
        (ok obj) =
      if r.setters.access.is_accessible obj
      then update_on pause s u name force_create create_validation update_validation current
          (named_as name (in_request namespace obj))
      else (s, (err bad_request, false))

  abbrev pub update_read :
      (World → ℕ → World)
      → Option User
      → Bytes
      → Bytes
      → (Option Obj → Result Obj)
      → Bool
      → (Obj → Result (Unit {0}))
      → (Obj → Obj → Result (Unit {0}))
      → Replica World × Result (Option Obj)
      → Replica World × (Result Obj × Bool)
  update_read pause u namespace name patch force_create create_validation update_validation
        (s, err e) =
      (s, (err e, false))
  update_read pause u namespace name patch force_create create_validation update_validation
        (s, ok current) =
      update_patched pause s u namespace name force_create create_validation update_validation
        current (patch current)

  unfoldable pub update :
      (World → ℕ → World)
      → Replica World
      → Option User
      → Bytes
      → Bytes
      → (Option Obj → Result Obj)
      → Bool
      → (Obj → Result (Unit {0}))
      → (Obj → Obj → Result (Unit {0}))
      → Replica World × (Result Obj × Bool)
  update pause s u namespace name patch force_create create_validation update_validation =
      update_read pause u namespace name patch force_create create_validation update_validation
        (found_or_none (get r s u namespace name))

  abbrev pub deleted :
      Obj → Bytes → Bytes → Replica World → World × Result (Unit {0}) → Replica World × Result Obj
  deleted prior namespace name s (w, err e) = (at_world r s w, err internal)
  deleted prior namespace name s (w, ok done) =
      let (v, body_gone) = delete_body r.sha256 r.bodies w namespace name in
      (at_world r s v, ok prior)

  abbrev pub delete_valid :
      Bytes → Bytes → Replica World → Obj → Result (Unit {0}) → Replica World × Result Obj
  delete_valid namespace name s prior (err e) = (s, err e)
  delete_valid namespace name s prior (ok valid) =
      deleted prior namespace name s (delete_record r.store s.world (ref_for r namespace name))

  abbrev pub delete_read :
      Bytes
      → Bytes
      → (Obj → Result (Unit {0}))
      → Replica World × Result Obj
      → Replica World × Result Obj
  delete_read namespace name validate (s, err e) = (s, err e)
  delete_read namespace name validate (s, ok prior) =
      delete_valid namespace name s prior (validate prior)

  -- The record first, with its lock, and then the body, whose failure is only logged.
  unfoldable pub delete :
      Replica World
      → Option User
      → Bytes
      → Bytes
      → (Obj → Result (Unit {0}))
      → Replica World × Result Obj
  delete s u namespace name validate =
      delete_read namespace name validate (get r s u namespace name)
