-- ===== src/Multihost/Lock/Refusal.antt =====
-- When `Acquire` of runtime/library/multihost/lock.go refuses and when it takes the lock.
use aggexp.Prelude.{
  ℕ, ◌+◌, ◌*◌, ◌<◌, ◌≤◌, ◌≡◌, ◌≢◌, refl, Bool, true, false, not, ◌&&◌, [], ◌∷◌, Option, none, some,
  arith, ◌⊎◌, inl, inr, if_ind, ltb, leb, Bool-cases,
}
use aggexp.Text.{Bytes, str_eq, str_empty, str_eq_iff}
use aggexp.Kube.{conflict, Result, ok, err}
use aggexp.Multihost.MetaStore.{
  LockState, second, read_lock, held, Raw, MetaApi, set_lock_on, lock_from_raw, get_raw_direct,
  update_raw,
}
use aggexp.Multihost.Lock.{
  Locker, past_expiry, lock_expired, updated_round, own_lock, desired, take_lock, try_existing,
  acquire_round, settle_round, acquire_rounds, acquire,
}

module _ {World Content : Type 0} (api : MetaApi World Content) (l : Locker) (name : Bytes) where
  abbrev pub Unexpired : Option ℕ → ℕ → ℕ → Type 0
  Unexpired none duration now = ⊥
  Unexpired (some renewed) duration now = (0 < duration) × (now ≤ renewed + duration * second)

  -- Another replica's lock that was renewed within its lease.
  abbrev pub Blocks : Option LockState → ℕ → Type 0
  Blocks none now = ⊥
  Blocks (some lock) now =
      (lock.holder_identity ≢ [])
      × ((lock.holder_identity ≢ l.identity)
          × Unexpired lock.renewed_at lock.lease_duration_seconds now)

  Unexpired-past_expiry :
      (renewed : Option ℕ) (duration now : ℕ)
      → (Unexpired renewed duration now × (past_expiry renewed duration now ≡ false))
        ⊎ (¬ Unexpired renewed duration now × (past_expiry renewed duration now ≡ true))
  Unexpired-past_expiry none duration now = inr (λ u. u, refl)
  Unexpired-past_expiry (some renewed) duration now = elim (Bool-cases (leb duration 0)) [
    | inl e ↦ inr (λ (p, q). absurd (ground (arith, e, p)), rw e refl)
    | inr e ↦ elim (Bool-cases (ltb (renewed + duration * second) now)) [
      | inl f ↦ inr (λ (p, q). absurd (ground (arith, f, q)), rw (e, f) refl)
      | inr f ↦ inl ((ground (arith, e), ground (arith, f)), rw (e, f) refl)
    ]
  ]

  abbrev refuses : Option LockState → ℕ → Bool
  refuses o now = held o && not (lock_expired o now)

  abbrev Verdict : Option LockState → ℕ → Type 0
  Verdict o now =
      (Blocks o now
        × (own_lock api l name (read_lock o) ≡ false)
        × (refuses (read_lock o) now ≡ true))
      ⊎ (¬ Blocks o now
          × ((own_lock api l name (read_lock o) ≡ true) ⊎ (refuses (read_lock o) now ≡ false)))

  verdict : (o : Option LockState) (now : ℕ) → Verdict o now
  unfolding held lock_expired
  verdict none now = inr (λ b. b, inr refl)
  verdict (some lock) now = elim (Bool-cases (str_empty lock.holder_identity)) [
    | inl e ↦ inr (λ b. b.0 (empty_nil lock.holder_identity e), rw e (inr refl))
    | inr e ↦ elim (Bool-cases (str_eq lock.holder_identity l.identity)) [
      | inl f ↦ inr (λ b. b.1.0 ((str_eq_iff lock.holder_identity l.identity).0 f), rw e (inl f))
      | inr f ↦ elim (Unexpired-past_expiry lock.renewed_at lock.lease_duration_seconds now) [
        | inl (u, x) ↦ inl (
          (
            λ q. absurd (ground (arith, e, filled lock.holder_identity q)),
            (λ q. absurd (ground (arith, f, str_eq_iff lock.holder_identity l.identity, q)), u),
          ),
          rw e f,
          rw e (rw x (rw e refl)),
        )
        | inr (u, x) ↦ inr (λ b. u b.1.1, rw e (inr (rw x (rw e refl))))
      ]
    ]
  ]
    where
      empty_nil : (s : Bytes) → str_empty s ≡ true → s ≡ []
      empty_nil [] e = refl
      empty_nil (c ∷ s) e = absurd (unfold str_empty in ground (arith, e))

      filled : (s : Bytes) → s ≡ [] → str_empty s ≡ true
      filled [] e = unfold str_empty in refl
      filled (c ∷ s) e = absurd (ground (arith, e))

  acquire_taken :
      (w v : World) (pre : Bytes) (out : World × Result (Raw Content)) (updated : Raw Content)
      → out ≡ (v, ok updated)
      → settle_round api l name
          (λ e. acquire_rounds api l name 2 (some e))
          (updated_round api l name pre out)
        ≡ (v, ok (record { raw = some updated; pre_acquire_rv = pre }))
  acquire_taken w v pre out updated e = rw e refl

  -- When an acquire reads the resource, and the write of its own lock on it would succeed, exactly one of two
  -- things happens: the resource carries a lock of another identity that was renewed within its lease, and
  -- the acquire ends at once in a conflict on the name, in the world that the read left; or it does not, and
  -- the acquire writes its lock and returns a handle on what the write returned, with the version read.
  pub acquire-outcome :
      (w v z : World) (raw updated : Raw Content)
      → api.get w ≡ (v, ok raw)
      → api.update v (set_lock_on raw (some (desired api l name (api.now v)))) ≡ (z, ok updated)
      → (Blocks raw.lock (api.now v) × (acquire api l name w ≡ (v, err (conflict name))))
        ⊎ (¬ Blocks raw.lock (api.now v)
            × (acquire api l name w
                ≡ (z, ok (record { raw = some updated; pre_acquire_rv = raw.resource_version }))))
  unfolding acquire acquire_rounds acquire_round get_raw_direct try_existing take_lock update_raw
      lock_from_raw
  acquire-outcome w v z raw updated got written = elim (verdict raw.lock (api.now v)) [
    | inl (b, other, refusal) ↦ inl (b, rw got (rw (other, refusal) refl))
    | inr (b, inl own) ↦
        inr (b, rw got (rw own (acquire_taken w z raw.resource_version _ updated written)))
    | inr (b, inr free) ↦ inr (
      b,
      rw got (
          if_ind
            (λ x.
              settle_round api l name (λ e. acquire_rounds api l name 2 (some e)) x
              ≡ (z, ok (record { raw = some updated; pre_acquire_rv = raw.resource_version })))
            (own_lock api l name (read_lock raw.lock)) _ _
            (λ _. acquire_taken w z raw.resource_version _ updated written)
            (λ _. rw free (acquire_taken w z raw.resource_version _ updated written))),
    )
  ]
