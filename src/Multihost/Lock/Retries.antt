-- ===== src/Multihost/Lock/Retries.antt =====
-- How `WriteTxn` of runtime/library/multihost/lock.go ends.
use aggexp.Prelude.{
  ℕ, zero, suc, ◌+◌, ◌≡◌, refl, true, Option, none, some, ltb, arith, ◌⊎◌, inl, inr, ap, ◌∙◌,
}
use aggexp.Text.{Bytes}
use aggexp.Kube.{ApiError, conflict, Result, ok, err, is_conflict}
use aggexp.Multihost.Lock.Taken.{HasRaw, AcquiredRaw, acquire-AcquiredRaw, HasRaw-renewals}
use aggexp.Multihost.MetaStore.{Raw, commit_body_hash_and_meta, Record, MetaApi, get_direct}
use aggexp.Multihost.Lock.{Locker, Handle, acquire, commit, commit_raw, renewals}
use aggexp.Multihost.Lock.Txn.{
  WriteOp, TxnResult, Attempt, done, retry, stop, attempts_of, retry_or, after_commit, after_build,
  after_body, after_acquire, critical_section, served_rv, after_check, checked, pause, attempt,
  settle, attempts, write_txn,
}

-- The only error there may be is a conflict.
abbrev pub Conflicting : {A : Type 0} → Result A → Type 0
Conflicting (ok a) = Unit
Conflicting (err e) = is_conflict e ≡ true

abbrev pub Succeeds : {A : Type 0} → Result A → Type 0
Succeeds (ok a) = Unit
Succeeds (err e) = ⊥

-- The error is one that the check gave for some version.
abbrev pub Refused : Option (Bytes → Result (Unit {0})) → ApiError → Type 0
Refused none e = ⊥
Refused (some test) e = (rv : Bytes) × (test rv ≡ err e)

module _ {World Content : Type 0} (api : MetaApi World Content) (l : Locker) (name : Bytes)
    (op : WriteOp World Content) (check : Option (Bytes → Result (Unit {0}))) where
  abbrev Good : Option (Bytes → Result (Unit {0})) → ℕ → Attempt Content → Type 0
  Good cs n (done result) = result.depth ≡ n
  Good cs n (retry e) = Unit
  Good cs n (stop e) = Refused cs e

  abbrev pub Settled : ℕ → Result (TxnResult Content) → Type 0
  Settled bound (ok result) = ltb result.depth bound ≡ true
  Settled bound (err e) = (e ≡ conflict name) ⊎ Refused check e

  Good-retry_or :
      (cs : Option (Bytes → Result (Unit {0}))) (n : ℕ) (e other : ApiError)
      → l.txn_enabled ≡ true
      → is_conflict e ≡ true
      → Good cs n (retry_or api l name op check e other)
  unfolding retry_or
  Good-retry_or cs n e other on c = ground arith

  module _ (on : l.txn_enabled ≡ true)
      (acquires : (w : World) → Conflicting (acquire api l name w).1)
      (writes : (w : World) → Conflicting (op.write_body w).1)
      (builds : (w : World) (n : ℕ) → Succeeds (op.build_record w n).1)
      (commits : (w : World) (raw : Raw Content) (rec : Record Content)
        → Conflicting (commit_body_hash_and_meta api w raw rec).1) where
    Good-commit :
        (cs : Option (Bytes → Result (Unit {0}))) (n : ℕ) (out : World × Result (Record Content))
        → Conflicting out.1
        → Good cs n (after_commit api l name op check n out).1
    Good-commit cs n (w, ok rec) c = refl
    Good-commit cs n (w, err e) c = Good-retry_or cs n e _ on c

    Conflicting-commit_raw :
        (w : World) (raw : Option (Raw Content)) (rec : Record Content)
        → HasRaw raw
        → Conflicting (commit_raw api l name w raw rec).1
    Conflicting-commit_raw w none rec has = absurd has
    Conflicting-commit_raw w (some raw) rec has = commits w raw rec

    Good-build :
        (cs : Option (Bytes → Result (Unit {0}))) (n : ℕ) (h : Handle Content)
        (out : World × Result (Record Content))
        → HasRaw h.raw
        → Succeeds out.1
        → Good cs n (after_build api l name op check n h out).1
    unfolding commit
    Good-build cs n h (w, ok rec) has s =
        let held_on = renewals api l name w h in
        Good-commit cs n (commit_raw api l name held_on.0 held_on.1.raw rec)
          (Conflicting-commit_raw held_on.0 held_on.1.raw rec (HasRaw-renewals api l name w h has))
    Good-build cs n h (w, err e) has s = absurd s

    Good-body :
        (cs : Option (Bytes → Result (Unit {0}))) (n : ℕ) (h : Handle Content)
        (out : World × Result (Unit {0}))
        → HasRaw h.raw
        → Conflicting out.1
        → Good cs n (after_body api l name op check n h out).1
    Good-body cs n h (w, ok _) has c =
        let held_on = renewals api l name w h in
        Good-build cs n held_on.1 (op.build_record held_on.0 n) (HasRaw-renewals api l name w h has)
          (builds held_on.0 n)
    Good-body cs n h (w, err e) has c = Good-retry_or cs n e _ on c

    Good-acquire :
        (cs : Option (Bytes → Result (Unit {0}))) (n : ℕ) (out : World × Result (Handle Content))
        → AcquiredRaw api l name out.1
        → Conflicting out.1
        → Good cs n (after_acquire api l name op check n out).1
    Good-acquire cs n (w, ok h) has c =
        let held_on = renewals api l name w h in
        Good-body cs n held_on.1 (op.write_body held_on.0) (HasRaw-renewals api l name w h has)
          (writes held_on.0)
    Good-acquire cs n (w, err e) has c = Good-retry_or cs n e e on c

    Good-critical :
        (cs : Option (Bytes → Result (Unit {0}))) (w : World) (n : ℕ)
        → Good cs n (critical_section api l name op check w n).1
    unfolding critical_section
    Good-critical cs w n =
        Good-acquire cs n (acquire api l name w) (acquire-AcquiredRaw api l name w) (acquires w)

    Good-check :
        (n : ℕ) (w : World) (rv : Bytes) (test : Bytes → Result (Unit {0}))
        (verdict : Result (Unit {0}))
        → test rv ≡ verdict
        → Good (some test) n (after_check api l name op check n w verdict).1
    Good-check n w rv test (ok _) said = Good-critical (some test) w n
    Good-check n w rv test (err e) said = (rv, said)

    Good-checked :
        (cs : Option (Bytes → Result (Unit {0}))) (w : World) (n : ℕ)
        → Good cs n (checked api l name op check cs w n).1
    Good-checked none w n = Good-critical none w n
    Good-checked (some test) w n =
        Good-check n (get_direct api w).0 (served_rv api l name op check (get_direct api w).1) test
          _ refl

    Good-attempt : (w : World) (n : ℕ) → Good check n (attempt api l name op check w n).1
    unfolding attempt
    Good-attempt w n = Good-checked check (pause api l name op check w n) n

    Settled-next :
        (bound left n : ℕ) (out : World × Attempt Content)
        → Good check n out.1
        → ltb n bound ≡ true
        → ((w : World) → Settled bound (attempts api l name op check left (suc n) w).1)
        → Settled bound
            (settle api l name op check (attempts api l name op check left (suc n)) out).1
    Settled-next bound left n (w, done result) g h later = ap (λ d. ltb d bound) g ∙ h
    Settled-next bound left n (w, stop e) g h later = inr g
    Settled-next bound left n (w, retry e) g h later = later w

    attempts-Settled :
        (bound left n : ℕ) (w : World)
        → n + left ≡ bound
        → Settled bound (attempts api l name op check left n w).1
    unfolding attempts
    attempts-Settled bound zero n w h = inl refl
    attempts-Settled bound (suc left) n w h =
        Settled-next bound left n (attempt api l name op check w n) (Good-attempt w n)
          (ground arith) (λ w'. attempts-Settled bound left (suc n) w' (omega arith))

    -- With the transaction discipline on, when acquiring the lock, writing the body and committing
    -- fail only with conflicts and the record is always built, a transaction either commits, after
    -- fewer retries than the locker's attempts, or ends in a conflict on the resource's name, or
    -- returns an error that the caller's own version check gave: never another error.
    pub write_txn-Settled :
        (w : World) → Settled (attempts_of l) (write_txn api l name op check w).1
    unfolding write_txn
    write_txn-Settled w = attempts-Settled (attempts_of l) (attempts_of l) 0 w (omega arith)
