-- ===== src/Multihost/Lock.antt =====
-- runtime/library/multihost/lock.go: the embedded lock of an object and the locked-write
-- transaction. `renew` is one turn of the renewal goroutine, and `renewals` are those at one point.
pub mod Txn
pub mod Taken
pub mod Retries
pub mod Cas
pub mod Exclusion
pub mod Refusal
use aggexp.Prelude.{
  ℕ, zero, suc, ◌+◌, ◌*◌, Bool, true, false, not, ◌&&◌, ◌||◌, List, [], ◌∷◌, Option, none, some,
  ltb, leb, if◌then◌else◌,
}
use aggexp.Text.{Bytes, str_eq, str_empty}
use aggexp.Kube.{
  ApiError, conflict, internal, panicked, Result, ok, err, is_conflict, is_already_exists,
}
use aggexp.Multihost.MetaStore.{
  LockState, held, Raw, Record, MetaApi, second, set_lock_on, lock_from_raw, get_raw_direct,
  get_direct, create_raw_with_lock, update_raw, commit_body_hash_and_meta,
}

pub record Locker : Type 0 where
  pub identity : Bytes
  pub lease_duration_seconds : ℕ
  pub renew_enabled : Bool
  pub txn_enabled : Bool
  pub txn_attempts : ℕ

-- `NewLocker`: 15 seconds and 5 attempts by default.
unfoldable pub new_locker : Bytes → ℕ → Bool → Bool → ℕ → Locker
new_locker identity duration renew_on txn attempts = record {
  identity = identity;
  lease_duration_seconds = if leb duration 0 then 15 else duration;
  renew_enabled = renew_on;
  txn_enabled = txn;
  txn_attempts = if leb attempts 0 then 5 else attempts;
}

-- A held lock: the resource as its last write returned it, and the version before the acquire.
pub record Handle (Content : Type 0) : Type 0 where
  pub raw : Option (Raw Content)
  pub pre_acquire_rv : Bytes

abbrev pub past_expiry : Option ℕ → ℕ → ℕ → Bool
past_expiry none duration now = true
past_expiry (some renewed) duration now = leb duration 0 || ltb (renewed + duration * second) now

unfoldable pub lock_expired : Option LockState → ℕ → Bool
lock_expired none now = true
lock_expired (some l) now = past_expiry l.renewed_at l.lease_duration_seconds now

-- How one round of `Acquire` ends.
pub data Round (Content : Type 0) : Type 0 where
  taken : Handle Content → Round Content
  again failed : ApiError → Round Content

module _ {World Content : Type 0} (api : MetaApi World Content) (l : Locker) (name : Bytes) where
  unfoldable pub desired : ℕ → LockState
  desired now = record {
    holder_identity = l.identity;
    acquired_at = some now;
    renewed_at = some now;
    lease_duration_seconds = l.lease_duration_seconds;
  }

  abbrev pub created_round : World × Result (Raw Content) → World × Round Content
  created_round (w, ok raw) = (w, taken (record { raw = some raw; pre_acquire_rv = [] }))
  created_round (w, err e) = (w, if is_already_exists e then again e else failed internal)

  abbrev pub updated_round : Bytes → World × Result (Raw Content) → World × Round Content
  updated_round pre (w, ok raw) = (w, taken (record { raw = some raw; pre_acquire_rv = pre }))
  updated_round pre (w, err e) = (w, if is_conflict e then again e else failed internal)

  abbrev pub own_lock : Option LockState → Bool
  own_lock none = false
  own_lock (some existing) = str_eq existing.holder_identity l.identity

  -- Write the desired lock on the version that was read.
  unfoldable pub take_lock : World → Raw Content → World × Round Content
  take_lock w raw =
      updated_round raw.resource_version
        (update_raw api w (set_lock_on raw (some (desired (api.now w)))))

  -- A lock of another holder that has not expired refuses at once.
  unfoldable pub try_existing : World → Raw Content → World × Round Content
  try_existing w raw =
      if own_lock (lock_from_raw raw)
      then take_lock w raw
      else if held (lock_from_raw raw) && not (lock_expired (lock_from_raw raw) (api.now w))
      then (w, failed (conflict name))
      else take_lock w raw

  abbrev pub try_read : World × Result (Option (Raw Content)) → World × Round Content
  try_read (w, err e) = (w, again e)
  try_read (w, ok none) = created_round (create_raw_with_lock api w (desired (api.now w)))
  try_read (w, ok (some raw)) = try_existing w raw

  unfoldable pub acquire_round : World → World × Round Content
  acquire_round w = try_read (get_raw_direct api w)

  abbrev pub exhausted : Option ApiError → ApiError
  exhausted none = internal
  exhausted (some e) = if is_conflict e then conflict name else internal

  abbrev pub settle_round :
      (ApiError → World → World × Result (Handle Content))
      → World × Round Content
      → World × Result (Handle Content)
  settle_round next (w, taken h) = (w, ok h)
  settle_round next (w, failed e) = (w, err e)
  settle_round next (w, again e) = next e w

  unfoldable pub acquire_rounds : ℕ → Option ApiError → World → World × Result (Handle Content)
  acquire_rounds zero last w = (w, err (exhausted last))
  acquire_rounds (suc n) last w = settle_round (λ e. acquire_rounds n (some e)) (acquire_round w)

  -- At most three rounds.
  unfoldable pub acquire : World → World × Result (Handle Content)
  acquire w = acquire_rounds 3 none w

  abbrev pub release_raw : World → Option (Raw Content) → World
  release_raw w none = w
  release_raw w (some raw) = (update_raw api w (set_lock_on raw none)).0

  -- Best effort: the outcome of the write is only logged.
  unfoldable pub release : World → Handle Content → World
  release w h = release_raw w h.raw

  abbrev pub commit_raw :
      World → Option (Raw Content) → Record Content → World × Result (Record Content)
  commit_raw w none rec = (w, err panicked)
  commit_raw w (some raw) rec = commit_body_hash_and_meta api w raw rec

  unfoldable pub commit : World → Handle Content → Record Content → World × Result (Record Content)
  commit w h rec = commit_raw w h.raw rec

  abbrev pub or_now : Option ℕ → ℕ → Option ℕ
  or_now none now = some now
  or_now (some t) now = some t

  abbrev pub lock_acquired_at : Option LockState → ℕ → Option ℕ
  lock_acquired_at none now = some now
  lock_acquired_at (some held_lock) now = or_now held_lock.acquired_at now

  unfoldable pub renewal : Raw Content → ℕ → LockState
  renewal raw now = record {
    holder_identity = l.identity;
    acquired_at = lock_acquired_at (lock_from_raw raw) now;
    renewed_at = some now;
    lease_duration_seconds = l.lease_duration_seconds;
  }

  -- The handle's resource is replaced by what a read after a conflict finds.
  abbrev pub after_reread :
      Handle Content
      → World × Result (Option (Raw Content))
      → World × (Handle Content × Result (Unit {0}))
  after_reread h (w, err e) = (w, (h, ok tt))
  after_reread h (w, ok none) = (w, (h, ok tt))
  after_reread h (w, ok (some fresh)) = (w, (record h { raw = some fresh }, ok tt))

  abbrev pub after_renewal :
      Handle Content → World × Result (Raw Content) → World × (Handle Content × Result (Unit {0}))
  after_renewal h (w, ok updated) = (w, (record h { raw = some updated }, ok tt))
  after_renewal h (w, err e) =
      if is_conflict e then after_reread h (get_raw_direct api w) else (w, (h, err e))

  -- The lock is set on the handle's resource in place, before the write.
  abbrev pub renew_raw :
      World → Handle Content → Option (Raw Content) → World × (Handle Content × Result (Unit {0}))
  renew_raw w h none = (w, (h, ok tt))
  renew_raw w h (some raw) =
      let locked = set_lock_on raw (some (renewal raw (api.now w))) in
      after_renewal (record h { raw = some locked }) (update_raw api w locked)

  unfoldable pub renew : World → Handle Content → World × (Handle Content × Result (Unit {0}))
  renew w h = renew_raw w h h.raw

  -- One turn of the goroutine that `newHandle` starts, when renewal is on; a failure is only logged.
  unfoldable pub tick : World → Handle Content → World × Handle Content
  tick w h = let out = renew w h in if l.renew_enabled then (out.0, out.1.0) else (w, h)

  unfoldable pub tick_times : ℕ → World → Handle Content → World × Handle Content
  tick_times zero w h = (w, h)
  tick_times (suc n) w h = let out = tick w h in tick_times n out.0 out.1

  unfoldable pub renewals : World → Handle Content → World × Handle Content
  renewals w h = tick_times (api.ticks w) w h

-- What happens while a lock is held: a turn of its renewal, or anything that others do.
pub data Turn (World : Type 0) : Type 0 where
  ticks : Turn World
  elsewhere : World → Turn World

module _ {World Content : Type 0} (api : MetaApi World Content) (l : Locker) (name : Bytes) where
  unfoldable pub hold : World → Handle Content → List (Turn World) → World × Handle Content
  hold w h [] = (w, h)
  hold w h (ticks ∷ t) = let out = tick api l name w h in hold out.0 out.1 t
  hold w h (elsewhere v ∷ t) = hold v h t
