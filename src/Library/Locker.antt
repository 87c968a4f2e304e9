-- ===== src/Library/Locker.antt =====
-- runtime/library/locker.go: a backend whose writes hold a Lease. The coordination API and the wrapped
-- backend are parameters over one world; lease durations are below 2^31 seconds.
pub mod Names
pub mod Holding
pub mod Guarded
mod Tests
use aggexp.Prelude.{
  ℕ, zero, suc, ◌+◌, ◌*◌, ◌/◌, ◌^◌, Bool, true, false, List, [], ◌∷◌, ◌++◌, Option, none, some, ltb,
  leb, ◌==◌, length, take, if◌then◌else◌,
}
use aggexp.Text.{Bytes, codes, str_eq, str_empty}
use aggexp.Kube.{
  Accessor, ApiError, conflict, Result, ok, err, is_already_exists, is_not_found, is_conflict,
}
use aggexp.Storage.{Writes}
use aggexp.Library.Objects.{GroupResource, object_name, object_namespace, hex}

pub data LockMode : Type 0 where
  per_object per_resource : LockMode

abbrev pub second : ℕ
second = 10 ^ 9

-- The spec of a Lease; times in nanoseconds. `version` is its resource version.
pub record Lease : Type 0 where
  pub version : Bytes
  pub holder_identity : Option Bytes
  pub lease_duration_seconds : Option ℕ
  pub acquire_time : Option ℕ
  pub renew_time : Option ℕ

-- Leases of one namespace, by name.
pub record LeaseApi (World : Type 0) : Type 0 where
  pub create : World → Bytes → Lease → World × Result Lease
  pub get : World → Bytes → World × Result Lease
  pub update : World → Bytes → Lease → World × Result Lease
  pub delete : World → Bytes → World × Result (Unit {0})
  pub now : World → ℕ

pub record LockedBackend : Type 0 where
  pub mode : LockMode
  pub identity : Bytes
  pub gr : GroupResource
  pub lease_duration : ℕ
  pub lock_namespace : Bytes

-- `NewLockedBackend`; `host_identity` is POD_NAME or else the host's name.
unfoldable pub new_locked_backend :
    LockMode → GroupResource → ℕ → Bytes → Bytes → Bytes → LockedBackend
new_locked_backend mode gr duration namespace identity host_identity = record {
  mode = mode;
  identity = if str_empty identity then host_identity else identity;
  gr = gr;
  lease_duration = if duration == 0 then 15 * second else duration;
  lock_namespace = if str_empty namespace then codes "aggexp-locks" else namespace;
}

abbrev pub raw_name : GroupResource → Bytes → Bytes → Bytes
raw_name gr ns name = gr.group ++ 46 ∷ (gr.resource ++ 46 ∷ (ns ++ 46 ∷ name))

abbrev short_name : (Bytes → List ℕ) → Bytes → Bytes
short_name sha256 raw =
    if leb (length raw) 63 then raw else take 40 raw ++ 45 ∷ hex (take 11 (sha256 raw))

-- The name is hashed by sha256, a parameter, when it is longer than 63 bytes.
unfoldable pub lock_name : (Bytes → List ℕ) → LockMode → GroupResource → Bytes → Bytes → Bytes
lock_name sha256 per_resource gr ns name = gr.group ++ 46 ∷ gr.resource
lock_name sha256 per_object gr ns name = short_name sha256 (raw_name gr ns name)

abbrev pub fresh_until : Option ℕ → Option ℕ → ℕ → Bool
fresh_until none duration now = false
fresh_until (some renewed) none now = false
fresh_until (some renewed) (some duration) now = ltb now (renewed + duration * second)

abbrev pub holder_text : Option Bytes → Bytes
holder_text none = []
holder_text (some h) = h

-- How one turn of the loop of `acquire` ends.
pub data Turn : Type 0 where
  got again : Turn
  refused : ApiError → Turn

module _ {World : Type 0} (leases : LeaseApi World) (lb : LockedBackend) (lease_name : Bytes) where
  -- What a holder writes into a lease, at the time taken before the loop.
  unfoldable pub claim : ℕ → Lease → Lease
  claim now lease = record lease {
    holder_identity = some lb.identity;
    acquire_time = some now;
    renew_time = some now;
    lease_duration_seconds = some (lb.lease_duration / second);
  }

  abbrev pub new_lease : Lease
  new_lease = record {
    version = [];
    holder_identity = none;
    lease_duration_seconds = none;
    acquire_time = none;
    renew_time = none;
  }

  abbrev pub after_takeover : World × Result Lease → World × Turn
  after_takeover (w, ok lease) = (w, got)
  after_takeover (w, err e) =
      (w, if is_conflict e then again else if is_not_found e then again else refused e)

  unfoldable pub take_over : ℕ → World → Lease → World × Turn
  take_over now w existing =
      if str_eq (holder_text existing.holder_identity) lb.identity
      then (w, got)
      else if fresh_until existing.renew_time existing.lease_duration_seconds (leases.now w)
      then (w, refused (conflict lease_name))
      else after_takeover (leases.update w lease_name (claim now existing))

  abbrev pub after_get : ℕ → World × Result Lease → World × Turn
  after_get now (w, err e) = (w, if is_not_found e then again else refused e)
  after_get now (w, ok existing) = take_over now w existing

  abbrev pub after_exists : ℕ → World → Bool → ApiError → World × Turn
  after_exists now w false e = (w, refused e)
  after_exists now w true e = after_get now (leases.get w lease_name)

  abbrev pub after_create : ℕ → World × Result Lease → World × Turn
  after_create now (w, ok lease) = (w, got)
  after_create now (w, err e) = after_exists now w (is_already_exists e) e

  unfoldable pub turn : ℕ → World → World × Turn
  turn now w = after_create now (leases.create w lease_name (claim now new_lease))

  abbrev pub settle : (World → World × Result (Unit {0})) → World × Turn → World × Result (Unit {0})
  settle next (w, got) = (w, ok tt)
  settle next (w, again) = next w
  settle next (w, refused e) = (w, err e)

  unfoldable pub turns : ℕ → ℕ → World → World × Result (Unit {0})
  turns now zero w = (w, err (conflict lease_name))
  turns now (suc n) w = settle (turns now n) (turn now w)

  -- Three turns.
  unfoldable pub acquire : World → World × Result (Unit {0})
  acquire w = turns (leases.now w) 3 w

  -- The outcome is only logged.
  unfoldable pub release : World → World
  release w = (leases.delete w lease_name).0

  abbrev pub release_after : {A : Type 0} → World × Result A → World × Result A
  release_after (w, r) = (release w, r)

  abbrev pub when_acquired :
      {A : Type 0} → (World → World × Result A) → World × Result (Unit {0}) → World × Result A
  when_acquired op (w, err e) = (w, err e)
  when_acquired op (w, ok done) = release_after (op w)

  -- Acquire, call, release.
  unfoldable pub under_lock : {A : Type 0} → (World → World × Result A) → World → World × Result A
  under_lock op w = when_acquired op (acquire w)

module _ {World Obj User : Type 0} (k : Accessor Obj) (sha256 : Bytes → List ℕ)
    (leases : LeaseApi World) (lb : LockedBackend) (inner : Writes Obj User World) where
  abbrev pub name_of : Bytes → Bytes → Bytes
  name_of ns name = lock_name sha256 lb.mode lb.gr ns name

  unfoldable pub create : World → Option User → Obj → World × Result Obj
  create w u obj =
      under_lock leases lb (name_of (object_namespace k obj) (object_name k obj))
        (λ w'. inner.create w' u obj) w

  unfoldable pub update : World → Option User → Bytes → Obj → Bool → World × Result (Obj × Bool)
  update w u name obj force =
      under_lock leases lb (name_of (object_namespace k obj) name)
        (λ w'. inner.update w' u name obj force) w

  -- The namespace is always empty.
  unfoldable pub delete : World → Option User → Bytes → World × Result (Obj × Bool)
  delete w u name = under_lock leases lb (name_of [] name) (λ w'. inner.delete w' u name) w
