-- ===== src/Multihost/Lock/Taken.antt =====
-- A handle that `Acquire` of runtime/library/multihost/lock.go returns has a resource to commit on.
use aggexp.Prelude.{
  ℕ, zero, suc, Bool, true, false, not, ◌&&◌, Option, none, some, if◌then◌else◌, if_ind,
}
use aggexp.Text.{Bytes}
use aggexp.Kube.{ApiError, internal, Result, ok, err, is_conflict, is_already_exists}
use aggexp.Multihost.MetaStore.{held, Raw, MetaApi, lock_from_raw, get_raw_direct}
use aggexp.Multihost.Lock.{
  Locker, Handle, Round, taken, again, failed, lock_expired, created_round, updated_round, own_lock,
  take_lock, try_existing, try_read, acquire_round, settle_round, acquire_rounds, acquire,
  after_reread, after_renewal, renew_raw, renew, tick, tick_times, renewals,
}

abbrev pub HasRaw : {Content : Type 0} → Option (Raw Content) → Type 0
HasRaw none = ⊥
HasRaw (some raw) = Unit

module _ {World Content : Type 0} (api : MetaApi World Content) (l : Locker) (name : Bytes) where
  abbrev Taken : World × Round Content → Type 0
  Taken (w, taken h) = HasRaw h.raw
  Taken (w, again e) = Unit
  Taken (w, failed e) = Unit

  abbrev pub AcquiredRaw : Result (Handle Content) → Type 0
  AcquiredRaw (ok h) = HasRaw h.raw
  AcquiredRaw (err e) = Unit

  Taken-if :
      (b : Bool) (x y : World × Round Content) → Taken x → Taken y → Taken (if b then x else y)
  Taken-if true x y hx hy = hx
  Taken-if false x y hx hy = hy

  Taken-refused :
      (w : World) (b : Bool) (e : ApiError) → Taken (w, if b then again e else failed internal)
  Taken-refused w true e = tt
  Taken-refused w false e = tt

  Taken-created : (out : World × Result (Raw Content)) → Taken (created_round api l name out)
  Taken-created (w, ok raw) = tt
  Taken-created (w, err e) = Taken-refused w (is_already_exists e) e

  Taken-updated :
      (pre : Bytes) (out : World × Result (Raw Content)) → Taken (updated_round api l name pre out)
  Taken-updated pre (w, ok raw) = tt
  Taken-updated pre (w, err e) = Taken-refused w (is_conflict e) e

  Taken-take_lock : (w : World) (raw : Raw Content) → Taken (take_lock api l name w raw)
  unfolding take_lock
  Taken-take_lock w raw = Taken-updated raw.resource_version _

  Taken-try_read : (out : World × Result (Option (Raw Content))) → Taken (try_read api l name out)
  unfolding try_existing
  Taken-try_read (w, err e) = tt
  Taken-try_read (w, ok none) = Taken-created _
  Taken-try_read (w, ok (some raw)) =
      Taken-if (own_lock api l name (lock_from_raw raw)) _ _ (Taken-take_lock w raw) (
        Taken-if (held (lock_from_raw raw) && not (lock_expired (lock_from_raw raw) (api.now w))) _
          _ tt (Taken-take_lock w raw))

  AcquiredRaw-settle_round :
      (next : ApiError → World → World × Result (Handle Content)) (out : World × Round Content)
      → Taken out
      → ((e : ApiError) (w : World) → AcquiredRaw (next e w).1)
      → AcquiredRaw (settle_round api l name next out).1
  AcquiredRaw-settle_round next (w, taken h) held later = held
  AcquiredRaw-settle_round next (w, failed e) held later = tt
  AcquiredRaw-settle_round next (w, again e) held later = later e w

  acquire_rounds-AcquiredRaw :
      (n : ℕ) (last : Option ApiError) (w : World)
      → AcquiredRaw (acquire_rounds api l name n last w).1
  unfolding acquire_rounds acquire_round
  acquire_rounds-AcquiredRaw zero last w = tt
  acquire_rounds-AcquiredRaw (suc n) last w =
      AcquiredRaw-settle_round (λ e. acquire_rounds api l name n (some e))
        (acquire_round api l name w) (Taken-try_read (get_raw_direct api w))
        (λ e w'. acquire_rounds-AcquiredRaw n (some e) w')

  pub acquire-AcquiredRaw : (w : World) → AcquiredRaw (acquire api l name w).1
  unfolding acquire
  acquire-AcquiredRaw w = acquire_rounds-AcquiredRaw 3 none w

  HasRaw-after_reread :
      (h : Handle Content) (out : World × Result (Option (Raw Content)))
      → HasRaw h.raw
      → HasRaw (after_reread api l name h out).1.0.raw
  HasRaw-after_reread h (w, err e) has = has
  HasRaw-after_reread h (w, ok none) has = has
  HasRaw-after_reread h (w, ok (some fresh)) has = tt

  HasRaw-after_renewal :
      (h : Handle Content) (out : World × Result (Raw Content))
      → HasRaw h.raw
      → HasRaw (after_renewal api l name h out).1.0.raw
  HasRaw-after_renewal h (w, ok updated) has = tt
  HasRaw-after_renewal h (w, err e) has =
      if_ind (λ (v : World × (Handle Content × Result (Unit {0}))). HasRaw v.1.0.raw)
        (is_conflict e) _ _ (λ _. HasRaw-after_reread h (get_raw_direct api w) has) (λ _. has)

  HasRaw-renew_raw :
      (w : World) (h : Handle Content) (raw : Option (Raw Content))
      → HasRaw raw
      → HasRaw (renew_raw api l name w h raw).1.0.raw
  HasRaw-renew_raw w h none has = absurd has
  HasRaw-renew_raw w h (some raw) has = HasRaw-after_renewal _ _ tt

  HasRaw-tick : (w : World) (h : Handle Content) → HasRaw h.raw → HasRaw (tick api l name w h).1.raw
  unfolding tick renew
  HasRaw-tick w h has =
      if_ind (λ (v : World × Handle Content). HasRaw v.1.raw) l.renew_enabled _ _
        (λ _. HasRaw-renew_raw w h h.raw has) (λ _. has)

  HasRaw-tick_times :
      (n : ℕ) (w : World) (h : Handle Content)
      → HasRaw h.raw
      → HasRaw (tick_times api l name n w h).1.raw
  unfolding tick_times
  HasRaw-tick_times zero w h has = has
  HasRaw-tick_times (suc n) w h has = HasRaw-tick_times n _ _ (HasRaw-tick w h has)

  -- A handle under renewal keeps a resource.
  pub HasRaw-renewals :
      (w : World) (h : Handle Content) → HasRaw h.raw → HasRaw (renewals api l name w h).1.raw
  unfolding renewals
  HasRaw-renewals w h has = HasRaw-tick_times (api.ticks w) w h has
