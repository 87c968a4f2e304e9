-- ===== src/Library/Locker/Holding.antt =====
-- Who holds a lease after runtime/library/locker.go acquired it.
use aggexp.Prelude.{
  ℕ, zero, suc, ◌≡◌, ap, ◌∙◌, Bool, true, false, Option, some, Bool-cases, inl, inr, if◌then◌else◌,
}
use aggexp.Text.{Bytes, str_eq, str_eq_iff}
use aggexp.Kube.{ApiError, Result, ok, err, is_already_exists, is_conflict, is_not_found}
use aggexp.Library.Locker.{
  Lease, LeaseApi, LockedBackend, Turn, got, again, refused, holder_text, fresh_until, claim,
  new_lease, after_takeover, take_over, after_get, after_exists, after_create, turn, settle, turns,
  acquire,
}

module _ {World : Type 0} (leases : LeaseApi World) (holder : World → Bytes → Option Bytes) where
  abbrev pub Leaves : Bytes → Option Bytes → World × Result Lease → Type 0
  Leaves name h (w, ok lease) = holder w name ≡ h
  Leaves name h (w, err e) = Unit

  abbrev pub Shows : Bytes → World × Result Lease → Type 0
  Shows name (w, ok lease) = holder w name ≡ lease.holder_identity
  Shows name (w, err e) = Unit

  -- The API server: a write that succeeds leaves the holder that it carries, and a read that
  -- succeeds shows the holder there is.
  pub record IsLeasing : Type 0 where
    pub create-Leaves :
        (w : World) (name : Bytes) (l : Lease)
        → Leaves name l.holder_identity (leases.create w name l)
    pub update-Leaves :
        (w : World) (name : Bytes) (l : Lease)
        → Leaves name l.holder_identity (leases.update w name l)
    pub get-Shows : (w : World) (name : Bytes) → Shows name (leases.get w name)

  module _ (law : IsLeasing) (lb : LockedBackend) (name : Bytes) where
    abbrev Owned : World → Type 0
    Owned w = holder_text (holder w name) ≡ lb.identity

    abbrev TurnOwned : World × Turn → Type 0
    TurnOwned (w, got) = Owned w
    TurnOwned (w, again) = Unit
    TurnOwned (w, refused e) = Unit

    abbrev pub Acquired : World × Result (Unit {0}) → Type 0
    Acquired (w, ok done) = holder_text (holder w name) ≡ lb.identity
    Acquired (w, err e) = Unit

    TurnOwned-if :
        (b : Bool) (w : World) (s t : Turn)
        → TurnOwned (w, s)
        → TurnOwned (w, t)
        → TurnOwned (w, if b then s else t)
    TurnOwned-if true w s t hs ht = hs
    TurnOwned-if false w s t hs ht = ht

    after_takeover-TurnOwned :
        (out : World × Result Lease)
        → Leaves name (some lb.identity) out
        → TurnOwned (after_takeover leases lb name out)
    after_takeover-TurnOwned (w, ok lease) h = ap holder_text h
    after_takeover-TurnOwned (w, err e) h =
        TurnOwned-if (is_conflict e) w again _ tt
          (TurnOwned-if (is_not_found e) w again (refused e) tt tt)

    take_over-TurnOwned :
        (now : ℕ) (w : World) (l : Lease)
        → holder w name ≡ l.holder_identity
        → TurnOwned (take_over leases lb name now w l)
    unfolding take_over claim
    take_over-TurnOwned now w l shown =
        elim (Bool-cases (str_eq (holder_text l.holder_identity) lb.identity)) [
          | inl e ↦ rw e (ap holder_text shown ∙ (str_eq_iff _ _).0 e)
          | inr e ↦
              elim (Bool-cases (fresh_until l.renew_time l.lease_duration_seconds (leases.now w))) [
                | inl f ↦ simp (e, f) tt
                | inr f ↦
                    simp (e, f)
                      (after_takeover-TurnOwned _
                        (law.update-Leaves w name (claim leases lb name now l)))
              ]
        ]

    after_get-TurnOwned :
        (now : ℕ) (out : World × Result Lease)
        → Shows name out
        → TurnOwned (after_get leases lb name now out)
    after_get-TurnOwned now (w, ok l) shown = take_over-TurnOwned now w l shown
    after_get-TurnOwned now (w, err e) shown =
        TurnOwned-if (is_not_found e) w again (refused e) tt tt

    after_exists-TurnOwned :
        (now : ℕ) (w : World) (b : Bool) (e : ApiError)
        → TurnOwned (after_exists leases lb name now w b e)
    after_exists-TurnOwned now w false e = tt
    after_exists-TurnOwned now w true e = after_get-TurnOwned now _ (law.get-Shows w name)

    after_create-TurnOwned :
        (now : ℕ) (out : World × Result Lease)
        → Leaves name (some lb.identity) out
        → TurnOwned (after_create leases lb name now out)
    after_create-TurnOwned now (w, ok l) h = ap holder_text h
    after_create-TurnOwned now (w, err e) h = after_exists-TurnOwned now w (is_already_exists e) e

    settle-Acquired :
        (next : World → World × Result (Unit {0})) (out : World × Turn)
        → TurnOwned out
        → ((w : World) → Acquired (next w))
        → Acquired (settle leases lb name next out)
    settle-Acquired next (w, got) h later = h
    settle-Acquired next (w, again) h later = later w
    settle-Acquired next (w, refused e) h later = tt

    turns-Acquired : (now n : ℕ) (w : World) → Acquired (turns leases lb name now n w)
    unfolding turns turn claim
    turns-Acquired now zero w = tt
    turns-Acquired now (suc n) w =
        settle-Acquired (turns leases lb name now n) _
          (after_create-TurnOwned now _
            (law.create-Leaves w name (claim leases lb name now (new_lease leases lb name))))
          (turns-Acquired now n)

    -- On leases whose successful writes leave the holder they carry and whose reads show it, an
    -- acquire that succeeds leaves this replica as the lease's holder, whatever the other replicas
    -- did to the lease before.
    pub acquire-Acquired : (w : World) → Acquired (acquire leases lb name w)
    unfolding acquire
    acquire-Acquired w = turns-Acquired (leases.now w) 3 w
