-- ===== src/Multihost/Tests.antt =====
-- The theorems on the lock of runtime/library/multihost at concrete inputs.
use aggexp.Prelude.{
  List, ◌∷◌, ◌⊎◌, ℕ, zero, suc, ◌+◌, ◌≡◌, refl, ap, true, [], Option, none, some, if◌then◌else◌,
  Bool-cases, inl, inr,
}
use aggexp.Text.{Bytes, codes, str_eq, str_eq_iff, str_empty}
use aggexp.Decimal.{format_uint}
use aggexp.Kube.{Result, ok, err, conflict, not_found, already_exists, is_not_found, is_conflict}
use aggexp.Multihost.MetaStore.{
  LockState, held, Raw, Record, MetaApi, set_lock_on, lock_from_raw, decode_record, get_raw_direct,
  create_raw_with_lock, update_raw, commit_body_hash_and_meta,
}
use aggexp.Multihost.Lock.{
  Locker, Handle, desired, take_lock, try_existing, acquire_round, acquire_rounds, acquire, commit,
  Turn, ticks, elsewhere, hold, tick, renew, renewal,
}
use aggexp.Multihost.Lock.Refusal.{Blocks, acquire-outcome}
use aggexp.Multihost.Lock.Txn.{WriteOp, attempts_of, write_txn}
use aggexp.Multihost.Lock.Retries.{Conflicting, Settled, write_txn-Settled}
use aggexp.Multihost.Lock.Exclusion.{Adopted, Unbroken, commit-acquire}
use aggexp.Multihost.Lock.Cas.{IsCas, Created, Updated}

abbrev locker : Locker
locker = record {
  identity = codes "pod-0";
  lease_duration_seconds = 15;
  renew_enabled = true;
  txn_enabled = true;
  txn_attempts = 5;
}

-- A resource that is always there, unlocked; the first write on it meets a conflict.
abbrev free_raw : Raw ℕ
free_raw = record { resource_version = codes "1"; lock = none; content = 0 }

abbrev busy_update : ℕ → Raw ℕ → ℕ × Result (Raw ℕ)
busy_update zero raw = (1, err (conflict (codes "x")))
busy_update (suc n) raw = (suc (suc n), ok raw)

abbrev busy : MetaApi ℕ ℕ
busy = record {
  get = λ w. (w, ok free_raw);
  create = λ w raw. (w, err (already_exists (codes "x")));
  update = busy_update;
  now = λ w. w;
  ticks = λ w. 1;
  bare = 0;
  decode_content = λ c. ok c;
}

busy-acquires : (w : ℕ) → Conflicting (acquire busy locker (codes "x") w).1
unfolding acquire acquire_rounds acquire_round get_raw_direct try_existing take_lock update_raw
    set_lock_on lock_from_raw held is_conflict
busy-acquires zero = tt
busy-acquires (suc n) = tt

busy-commits :
    (w : ℕ) (raw : Raw ℕ) (rec : Record ℕ)
    → Conflicting (commit_body_hash_and_meta busy w raw rec).1
unfolding commit_body_hash_and_meta is_conflict decode_record
busy-commits zero raw rec = refl
busy-commits (suc n) raw rec = tt

abbrev plain_op : WriteOp ℕ ℕ
plain_op = record {
  write_body = λ w. (w, ok tt);
  build_record = λ w n. (w, ok (record { record_rv = []; content = n }));
  before_retry = λ w n. w;
}

write_txn-Settled_example :
    Settled busy locker
      (codes "x")
      plain_op
      none
      (attempts_of locker)
      (write_txn busy locker (codes "x") plain_op none 0).1
write_txn-Settled_example =
    write_txn-Settled busy locker (codes "x") plain_op none refl busy-acquires (λ w. tt) (λ w n. tt)
      busy-commits 0

-- A resource written by compare-and-swap, with a counter for its versions.
abbrev Cell : Type 0
Cell = Option (Raw ℕ) × ℕ

abbrev cell_get : Cell → Cell × Result (Raw ℕ)
cell_get (none, n) = ((none, n), err (not_found (codes "x")))
cell_get (some raw, n) = ((some raw, n), ok raw)

abbrev stored_as : ℕ → Raw ℕ → Raw ℕ
stored_as n raw = record raw { resource_version = format_uint n }

abbrev cell_create : Cell → Raw ℕ → Cell × Result (Raw ℕ)
cell_create (none, n) raw = ((some (stored_as n raw), n + 1), ok (stored_as n raw))
cell_create (some old, n) raw = ((some old, n), err (already_exists (codes "x")))

abbrev cell_update : Cell → Raw ℕ → Cell × Result (Raw ℕ)
cell_update (none, n) raw = ((none, n), err (not_found (codes "x")))
cell_update (some old, n) raw =
    if str_eq old.resource_version raw.resource_version
    then ((some (stored_as n raw), n + 1), ok (stored_as n raw))
    else ((some old, n), err (conflict (codes "x")))

abbrev cell : MetaApi Cell ℕ
cell = record {
  get = cell_get;
  create = cell_create;
  update = cell_update;
  now = λ w. 0;
  ticks = λ w. 1;
  bare = 0;
  decode_content = λ c. ok c;
}

abbrev cell_version : Cell → Option Bytes
cell_version (none, n) = none
cell_version (some raw, n) = some raw.resource_version

cell-Created : (w : Cell) (raw : Raw ℕ) → Created cell_version w (cell_create w raw)
cell-Created (none, n) raw = (refl, refl)
cell-Created (some old, n) raw = tt

cell-Updated :
    (w : Cell) (raw : Raw ℕ) → Updated cell_version w raw.resource_version (cell_update w raw)
cell-Updated (none, n) raw = tt
cell-Updated (some old, n) raw =
    elim (Bool-cases (str_eq old.resource_version raw.resource_version)) [
      | inl e ↦ rw e (ap some ((str_eq_iff _ _).0 e), refl)
      | inr e ↦ rw e tt
    ]

cell-IsCas : IsCas cell_version cell
cell-IsCas = record { create-Created = cell-Created; update-Updated = cell-Updated }

abbrev own_lock_state : LockState
own_lock_state = record {
  holder_identity = codes "pod-0";
  acquired_at = some 0;
  renewed_at = some 0;
  lease_duration_seconds = 15;
}

abbrev locked : Raw ℕ
locked = record { resource_version = codes "1"; lock = some own_lock_state; content = 0 }

abbrev handle : Handle ℕ
handle = record { raw = some locked; pre_acquire_rv = [] }

acquired : acquire cell locker (codes "x") (none, 1) ≡ ((some locked, 2), ok handle)
unfolding acquire acquire_rounds acquire_round get_raw_direct create_raw_with_lock set_lock_on
    desired is_not_found format_uint str_empty
acquired = refl

abbrev renewed : Raw ℕ
renewed = record locked { resource_version = codes "2" }

-- One renewal, and then somebody who writes elsewhere.
abbrev turns : List (Turn Cell)
turns = ticks ∷ elsewhere (some renewed, 3) ∷ []

abbrev renewed_handle : Handle ℕ
renewed_handle = record { raw = some renewed; pre_acquire_rv = [] }

kept :
    hold cell locker (codes "x") (some locked, 2) handle turns ≡ ((some renewed, 3), renewed_handle)
unfolding hold tick renew renewal update_raw set_lock_on lock_from_raw str_eq str_empty format_uint
kept = refl

abbrev committed : Record ℕ
committed = record { record_rv = codes "3"; content = 7 }

abbrev written : Raw ℕ
written = record { resource_version = codes "3"; lock = none; content = 7 }

committed_then :
    commit cell locker
      (codes "x")
      (some renewed, 3)
      renewed_handle
      (record { record_rv = []; content = 7 })
    ≡ ((some written, 4), ok committed)
unfolding commit commit_body_hash_and_meta decode_record str_eq format_uint
committed_then = refl

commit-acquire_example :
    (cell_version (some written, 4) ≡ some (codes "3"))
    × (Adopted cell cell_version cell-IsCas locker (codes "x") (some locked, 2) handle turns
        ⊎ Unbroken cell cell_version cell-IsCas locker
            (codes "x")
            (some (codes "1"))
            (some locked, 2)
            handle
            turns
            (some (codes "2")))
commit-acquire_example =
    commit-acquire cell cell_version cell-IsCas locker (codes "x") (none, 1) (some locked, 2)
      (some renewed, 3) (some written, 4) handle renewed_handle turns
      (record { record_rv = []; content = 7 }) committed acquired kept committed_then

abbrev other : Locker
other = record locker { identity = codes "pod-1" }

abbrev other_locked : Raw ℕ
other_locked = set_lock_on locked (some (desired cell other (codes "x") 0))

other_writes :
    cell_update (some locked, 2) other_locked
    ≡ ((some (stored_as 2 other_locked), 3), ok (stored_as 2 other_locked))
unfolding set_lock_on desired str_eq format_uint
other_writes = refl

acquire-outcome_example :
    (Blocks cell other (codes "x") (some own_lock_state) 0
      × (acquire cell other (codes "x") (some locked, 2)
          ≡ ((some locked, 2), err (conflict (codes "x")))))
    ⊎ (¬ Blocks cell other (codes "x") (some own_lock_state) 0
        × (acquire cell other (codes "x") (some locked, 2) ≡ (
          (some (stored_as 2 other_locked), 3),
          ok (record { raw = some (stored_as 2 other_locked); pre_acquire_rv = codes "1" }),
        )))
acquire-outcome_example =
    acquire-outcome cell other (codes "x") (some locked, 2) (some locked, 2)
      (some (stored_as 2 other_locked), 3) locked (stored_as 2 other_locked) refl other_writes
