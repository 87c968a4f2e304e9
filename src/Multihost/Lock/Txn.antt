-- ===== src/Multihost/Lock/Txn.antt =====
-- runtime/library/multihost/lock.go, `WriteTxn`: body write and metadata commit under the lock, retried
-- on a conflict.
use aggexp.Prelude.{ℕ, zero, suc, [], Option, none, some, ◌&&◌, if◌then◌else◌}
use aggexp.Text.{Bytes}
use aggexp.Kube.{ApiError, conflict, internal, Result, ok, err, is_conflict}
use aggexp.Multihost.MetaStore.{Record, MetaApi, get_direct}
use aggexp.Multihost.Lock.{Locker, Handle, acquire, release, commit, renewals}

-- `before_retry` is the hook of a retry and the pause that follows it.
pub record WriteOp (World Content : Type 0) : Type 0 where
  pub write_body : World → World × Result (Unit {0})
  pub build_record : World → ℕ → World × Result (Record Content)
  pub before_retry : World → ℕ → World

pub record TxnResult (Content : Type 0) : Type 0 where
  pub committed : Record Content
  pub depth : ℕ

-- How one pass of the loop ends.
pub data Attempt (Content : Type 0) : Type 0 where
  done : TxnResult Content → Attempt Content
  retry stop : ApiError → Attempt Content

unfoldable pub attempts_of : Locker → ℕ
attempts_of l = if l.txn_enabled then l.txn_attempts else 1

module _ {World Content : Type 0} (api : MetaApi World Content) (l : Locker) (name : Bytes)
    (op : WriteOp World Content) (check : Option (Bytes → Result (Unit {0}))) where
  -- A conflict is retried when the discipline is on; else the error is `other`.
  unfoldable pub retry_or : ApiError → ApiError → Attempt Content
  retry_or e other = if l.txn_enabled && is_conflict e then retry e else stop other

  abbrev pub commit_failed : ApiError → Attempt Content
  commit_failed e = retry_or e (if is_conflict e then e else internal)

  abbrev pub after_commit : ℕ → World × Result (Record Content) → World × Attempt Content
  after_commit n (w, err e) = (w, commit_failed e)
  after_commit n (w, ok rec) = (w, done (record { committed = rec; depth = n }))

  -- `Commit` and `Release` end the renewals; those that come before are counted here.
  abbrev pub renew_and_commit :
      World → Handle Content → Record Content → World × Result (Record Content)
  renew_and_commit w h rec =
      commit api l name (renewals api l name w h).0 (renewals api l name w h).1 rec

  abbrev pub renew_and_release : World → Handle Content → World
  renew_and_release w h = release api l name (renewals api l name w h).0 (renewals api l name w h).1

  abbrev pub after_build :
      ℕ → Handle Content → World × Result (Record Content) → World × Attempt Content
  after_build n h (w, err e) = (renew_and_release w h, stop e)
  after_build n h (w, ok rec) = after_commit n (renew_and_commit w h rec)

  abbrev pub after_body : ℕ → Handle Content → World × Result (Unit {0}) → World × Attempt Content
  after_body n h (w, err e) = (renew_and_release w h, retry_or e internal)
  after_body n h (w, ok done_body) =
      let held_on = renewals api l name w h in after_build n held_on.1 (op.build_record held_on.0 n)

  abbrev pub after_acquire : ℕ → World × Result (Handle Content) → World × Attempt Content
  after_acquire n (w, err e) = (w, retry_or e e)
  after_acquire n (w, ok h) =
      let held_on = renewals api l name w h in after_body n held_on.1 (op.write_body held_on.0)

  unfoldable pub critical_section : World → ℕ → World × Attempt Content
  critical_section w n = after_acquire n (acquire api l name w)

  -- A failed read counts as an absent record.
  abbrev pub served_rv : Result (Option (Record Content)) → Bytes
  served_rv (ok (some rec)) = rec.record_rv
  served_rv (ok none) = []
  served_rv (err e) = []

  abbrev pub after_check : ℕ → World → Result (Unit {0}) → World × Attempt Content
  after_check n w (err e) = (w, stop e)
  after_check n w (ok passed) = critical_section w n

  abbrev pub checked : Option (Bytes → Result (Unit {0})) → World → ℕ → World × Attempt Content
  checked none w n = critical_section w n
  checked (some test) w n =
      after_check n (get_direct api w).0 (test (served_rv (get_direct api w).1))

  abbrev pub pause : World → ℕ → World
  pause w zero = w
  pause w (suc n) = op.before_retry w (suc n)

  unfoldable pub attempt : World → ℕ → World × Attempt Content
  attempt w n = checked check (pause w n) n

  abbrev pub settle :
      (World → World × Result (TxnResult Content))
      → World × Attempt Content
      → World × Result (TxnResult Content)
  settle again (w, done result) = (w, ok result)
  settle again (w, stop e) = (w, err e)
  settle again (w, retry e) = again w

  -- `left` more passes, the next of them numbered `n`.
  unfoldable pub attempts : ℕ → ℕ → World → World × Result (TxnResult Content)
  attempts zero n w = (w, err (conflict name))
  attempts (suc left) n w = settle (attempts left (suc n)) (attempt w n)

  unfoldable pub write_txn : World → World × Result (TxnResult Content)
  write_txn w = attempts (attempts_of l) 0 w
