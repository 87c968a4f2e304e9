-- ===== src/Library/Locker/Guarded.antt =====
-- The writes of runtime/library/locker.go reach the wrapped backend only under the lease.
use aggexp.Prelude.{◌≡◌, Option, ◌⊎◌}
use aggexp.Text.{Bytes}
use aggexp.Kube.{ApiError, Result, err}
use aggexp.Library.Locker
use aggexp.Library.Locker.{LeaseApi, LockedBackend, acquire, release, holder_text}
use aggexp.Library.Locker.Holding.{IsLeasing}

module _ {World : Type 0} (leases : LeaseApi World) (holder : World → Bytes → Option Bytes)
    (law : IsLeasing leases holder) (lb : LockedBackend) where
  -- The refusal of the lease, or the operation's outcome under the lease.
  abbrev pub Guarded :
      {A : Type 0} → Bytes → (World → World × Result A) → World → World × Result A → Type 0
  Guarded name op w out =
      ((e : ApiError) × (out ≡ ((acquire leases lb name w).0, err e)))
      ⊎ ((w1 : World) × (holder_text (holder w1 name) ≡ lb.identity)
          × (out ≡ (release leases lb name (op w1).0, (op w1).1)))
