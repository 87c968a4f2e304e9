-- ===== src/Multihost/MetaStore.antt =====
-- The lock surface of runtime/library/multihost/metastore.go, and the types of ref.go. The host's API
-- server is a parameter: a world, reads and writes of one metadata resource, and a clock.
use aggexp.Prelude.{ℕ, ◌*◌, ◌/◌, ◌^◌, Bool, false, not, [], Option, none, some, if◌then◌else◌}
use aggexp.Text.{Bytes, str_empty}
use aggexp.Kube.{Result, ok, err, is_not_found}

-- Times are in nanoseconds; an unset or zero time is `none`.
pub record LockState : Type 0 where
  pub holder_identity : Bytes
  pub acquired_at : Option ℕ
  pub renewed_at : Option ℕ
  pub lease_duration_seconds : ℕ

unfoldable pub held : Option LockState → Bool
held none = false
held (some l) = not (str_empty l.holder_identity)

-- The metadata resource: the lock of its spec, and the rest of the spec as `Content`.
pub record Raw (Content : Type 0) : Type 0 where
  pub resource_version : Bytes
  pub lock : Option LockState
  pub content : Content

-- What `decodeRecord` and `encodeRecord` carry over: the content (reference, metadata and body hash, as
-- one value) and the version.
pub record Record (Content : Type 0) : Type 0 where
  pub record_rv : Bytes
  pub content : Content

pub record MetaApi (World Content : Type 0) : Type 0 where
  pub get : World → World × Result (Raw Content)
  pub create : World → Raw Content → World × Result (Raw Content)
  pub update : World → Raw Content → World × Result (Raw Content)
  pub now : World → ℕ
  -- How often the ticker of a held lock fires at this point.
  pub ticks : World → ℕ
  -- The spec of a fresh resource: its reference and nothing else.
  pub bare : Content
  -- What `decodeRecord` (Encoding) reads of what the server returned, which may be malformed.
  pub decode_content : Content → Result Content

abbrev pub second : ℕ
second = 10 ^ 9

-- RFC 3339 without fractions: whole seconds.
abbrev pub to_wire : Option ℕ → Option ℕ
to_wire none = none
to_wire (some t) = some (t / second * second)

abbrev pub wire_lock : Option LockState → Option LockState
wire_lock none = none
wire_lock (some l) =
    if str_empty l.holder_identity
    then none
    else some (record l { acquired_at = to_wire l.acquired_at; renewed_at = to_wire l.renewed_at })

abbrev pub present : LockState → Option LockState
present l = if str_empty l.holder_identity then none else some l

abbrev pub read_lock : Option LockState → Option LockState
read_lock none = none
read_lock (some l) = present l

module _ {Content : Type 0} where
  unfoldable pub set_lock_on : Raw Content → Option LockState → Raw Content
  set_lock_on raw l = record raw { lock = wire_lock l }

  unfoldable pub lock_from_raw : Raw Content → Option LockState
  lock_from_raw raw = read_lock raw.lock

module _ {World Content : Type 0} (api : MetaApi World Content) where
  abbrev pub or_absent : World × Result (Raw Content) → World × Result (Option (Raw Content))
  or_absent (w, ok raw) = (w, ok (some raw))
  or_absent (w, err e) = (w, if is_not_found e then ok none else err e)

  unfoldable pub get_raw_direct : World → World × Result (Option (Raw Content))
  get_raw_direct w = or_absent (api.get w)

  abbrev pub at_version : Bytes → Result Content → Result (Record Content)
  at_version rv (ok content) = ok (record { record_rv = rv; content = content })
  at_version rv (err e) = err e

  unfoldable pub decode_record : Raw Content → Result (Record Content)
  decode_record raw = at_version raw.resource_version (api.decode_content raw.content)

  abbrev pub present_record : Result (Record Content) → Result (Option (Record Content))
  present_record (ok rec) = ok (some rec)
  present_record (err e) = err e

  abbrev pub decoded : World × Result (Raw Content) → World × Result (Option (Record Content))
  decoded (w, ok raw) = (w, present_record (decode_record raw))
  decoded (w, err e) = (w, if is_not_found e then ok none else err e)

  unfoldable pub get_direct : World → World × Result (Option (Record Content))
  get_direct w = decoded (api.get w)

  unfoldable pub create_raw_with_lock : World → LockState → World × Result (Raw Content)
  create_raw_with_lock w l =
      api.create w
        (set_lock_on (record { resource_version = []; lock = none; content = api.bare }) (some l))

  unfoldable pub update_raw : World → Raw Content → World × Result (Raw Content)
  update_raw w raw = api.update w raw

  abbrev pub as_record : World × Result (Raw Content) → World × Result (Record Content)
  as_record (w, ok raw) = (w, decode_record raw)
  as_record (w, err e) = (w, err e)

  -- One write that stores the record and drops the lock, on the held version.
  unfoldable pub commit_body_hash_and_meta :
      World → Raw Content → Record Content → World × Result (Record Content)
  commit_body_hash_and_meta w raw rec =
      as_record (api.update w (record raw { lock = none; content = rec.content }))
