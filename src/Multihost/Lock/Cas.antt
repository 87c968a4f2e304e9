-- ===== src/Multihost/Lock/Cas.antt =====
-- Compare-and-swap on the metadata resource, and what it gives an acquire of runtime/library/multihost/lock.go.
use aggexp.Prelude.{
  ℕ, zero, suc, ◌≡◌, ap, ◌∙◌, sym, Bool, true, false, not, ◌&&◌, Option, none, some, arith,
  if◌then◌else◌,
}
use aggexp.Text.{Bytes}
use aggexp.Kube.{ApiError, internal, Result, ok, err, is_conflict, is_already_exists}
use aggexp.Multihost.MetaStore.{
  held, Raw, Record, MetaApi, set_lock_on, lock_from_raw, get_raw_direct, create_raw_with_lock,
  update_raw, as_record, at_version, decode_record,
}
use aggexp.Multihost.Lock.{
  Locker, Handle, Round, taken, again, failed, lock_expired, created_round, updated_round, own_lock,
  take_lock, try_existing, try_read, acquire_round, settle_round, acquire_rounds,
}

module _ {World Content : Type 0} (version : World → Option Bytes) where
  abbrev pub Created : World → World × Result (Raw Content) → Type 0
  Created w (w', ok raw) = (version w ≡ none) × (version w' ≡ some raw.resource_version)
  Created w (w', err e) = Unit

  abbrev pub Updated : World → Bytes → World × Result (Raw Content) → Type 0
  Updated w rv (w', ok raw) = (version w ≡ some rv) × (version w' ≡ some raw.resource_version)
  Updated w rv (w', err e) = Unit

  -- Optimistic concurrency of the API server: a create that succeeds found nothing, an update that
  -- succeeds found the version it was sent with, and either leaves the version it returns. Of a
  -- failed write nothing is said.
  pub record IsCas (api : MetaApi World Content) : Type 0 where
    pub create-Created : (w : World) (raw : Raw Content) → Created w (api.create w raw)
    pub update-Updated :
        (w : World) (raw : Raw Content) → Updated w raw.resource_version (api.update w raw)

module _ {World Content : Type 0} (api : MetaApi World Content) (version : World → Option Bytes)
    (cas : IsCas version api) (l : Locker) (name : Bytes) where
  abbrev pub AtVersion : World → Option (Raw Content) → Type 0
  AtVersion w none = Unit
  AtVersion w (some raw) = version w ≡ some raw.resource_version

  abbrev Holds : World × Round Content → Type 0
  Holds (w, taken h) = AtVersion w h.raw
  Holds (w, again e) = Unit
  Holds (w, failed e) = Unit

  Holds-refused :
      (w : World) (b : Bool) (e : ApiError) → Holds (w, if b then again e else failed internal)
  Holds-refused w true e = tt
  Holds-refused w false e = tt

  Holds-Created :
      (w : World) (out : World × Result (Raw Content))
      → Created version w out
      → Holds (created_round api l name out)
  Holds-Created w (w', ok raw) c = c.1
  Holds-Created w (w', err e) c = Holds-refused w' (is_already_exists e) e

  Holds-Updated :
      (w : World) (pre rv : Bytes) (out : World × Result (Raw Content))
      → Updated version w rv out
      → Holds (updated_round api l name pre out)
  Holds-Updated w pre rv (w', ok raw) c = c.1
  Holds-Updated w pre rv (w', err e) c = Holds-refused w' (is_conflict e) e

  Holds-take_lock : (w : World) (raw : Raw Content) → Holds (take_lock api l name w raw)
  unfolding take_lock update_raw set_lock_on
  Holds-take_lock w raw =
      Holds-Updated w raw.resource_version raw.resource_version _ (cas.update-Updated w _)

  Holds-if :
      (b : Bool) (x y : World × Round Content) → Holds x → Holds y → Holds (if b then x else y)
  Holds-if true x y hx hy = hx
  Holds-if false x y hx hy = hy

  Holds-try_read : (out : World × Result (Option (Raw Content))) → Holds (try_read api l name out)
  unfolding create_raw_with_lock try_existing
  Holds-try_read (w, err e) = tt
  Holds-try_read (w, ok none) = Holds-Created w _ (cas.create-Created w _)
  Holds-try_read (w, ok (some raw)) =
      Holds-if (own_lock api l name (lock_from_raw raw)) _ _ (Holds-take_lock w raw) (
        Holds-if (held (lock_from_raw raw) && not (lock_expired (lock_from_raw raw) (api.now w))) _
          _ tt (Holds-take_lock w raw))

  abbrev pub Acquired : World × Result (Handle Content) → Type 0
  Acquired (w, ok h) = AtVersion w h.raw
  Acquired (w, err e) = Unit

  Acquired-settle_round :
      (n : ℕ) (out : World × Round Content)
      → Holds out
      → ((e : ApiError) (w : World) → Acquired (acquire_rounds api l name n (some e) w))
      → Acquired (settle_round api l name (λ e. acquire_rounds api l name n (some e)) out)
  Acquired-settle_round n (w, taken h) held later = held
  Acquired-settle_round n (w, failed e) held later = tt
  Acquired-settle_round n (w, again e) held later = later e w

  pub acquire_rounds-Acquired :
      (n : ℕ) (last : Option ApiError) (w : World) → Acquired (acquire_rounds api l name n last w)
  unfolding acquire_rounds acquire_round
  acquire_rounds-Acquired zero last w = tt
  acquire_rounds-Acquired (suc n) last w =
      Acquired-settle_round n _ (Holds-try_read (get_raw_direct api w))
        (λ e w'. acquire_rounds-Acquired n (some e) w')

  at_version-rv :
      (rv : Bytes) (decoded_content : Result Content) (r : Record Content)
      → at_version api rv decoded_content ≡ ok r
      → r.record_rv ≡ rv
  at_version-rv rv (ok content) r e = ground arith
  at_version-rv rv (err x) r e = absurd (ground arith)

  pub as_record-Updated :
      (w2 : World) (rv : Bytes) (out : World × Result (Raw Content)) (w3 : World)
      (r : Record Content)
      → Updated version w2 rv out
      → as_record api out ≡ (w3, ok r)
      → (version w2 ≡ some rv) × (version w3 ≡ some r.record_rv)
  unfolding decode_record
  as_record-Updated w2 rv (w', err e) w3 r u e2 = absurd (ground arith)
  as_record-Updated w2 rv (w', ok raw) w3 r (before, after) same =
      let version_same =
        at_version-rv raw.resource_version (api.decode_content raw.content) r
          (ap (λ x. x.1) same) in
      (before, rw (← ap (λ x. x.0) same) (after ∙ ap some (sym version_same)))
