-- ===== src/Multihost/Hub/Emission.antt =====
-- What holds of a watcher after an emission: the cases of `emit`, `dedupEmit` and the replay.
use aggexp.Prelude.{
  ◌-◌, ◌<◌, ◌≡◌, [], ◌∷◌, ◌++◌, Option, none, some, false, ltb, ltb→lt, length, if_ind, not,
}
use aggexp.Text.{Bytes}
use aggexp.GoMap.{GoMap, lookup}
use aggexp.Kube.{Accessor, Event, EventType, added, modified, deleted, bookmark}
use aggexp.Multihost.Hub.{
  PerWatcher, emit, admit, emit_admitted, dedup_emit, event, is_newer, key_of, replay_one, matches,
}

module _ {Obj : Type 0} where
  pub emit-ind :
      (P : PerWatcher Obj → Type 0) (w : PerWatcher Obj) (ev : Event Obj)
      → P w
      → (w.closed ≡ false
          → length w.sent - w.taken < w.capacity
          → P (record w { sent = w.sent ++ ev ∷ [] }))
      → P (emit w ev)
  unfolding emit
  emit-ind P w ev dropped sent =
      if_ind P w.closed _ _ (λ _. dropped)
        (λ e.
          if_ind P (ltb (length w.sent - w.taken) w.capacity) _ _ (λ f. sent e (ltb→lt _ _ f))
            (λ _. dropped))

module _ {Obj : Type 0} (k : Accessor Obj) where
  -- What the locked part of `dedupEmit` leaves, by its cases.
  pub admit-ind :
      (P : PerWatcher Obj × Option (Event Obj) → Type 0) (w : PerWatcher Obj) (et : EventType)
      (obj : Obj)
      → P (w, none)
      → ((m : GoMap Bytes) → P (record w { emitted = m }, some (event k et obj)))
      → P (admit k w et obj)
  unfolding admit
  admit-ind P w deleted obj skipped h =
      if_ind P (not (k.is_accessible obj)) _ _ (λ _. h w.emitted) (λ _. h _)
  admit-ind P w added obj skipped h =
      if_ind P (not (k.is_accessible obj)) _ _ (λ _. h w.emitted)
        (λ _.
          if_ind P (is_newer k (lookup (key_of k obj) w.emitted) (k.resource_version obj)) _ _
            (λ _. h _) (λ _. skipped))
  admit-ind P w modified obj skipped h =
      if_ind P (not (k.is_accessible obj)) _ _ (λ _. h w.emitted)
        (λ _.
          if_ind P (is_newer k (lookup (key_of k obj) w.emitted) (k.resource_version obj)) _ _
            (λ _. h _) (λ _. skipped))
  admit-ind P w bookmark obj skipped h =
      if_ind P (not (k.is_accessible obj)) _ _ (λ _. h w.emitted)
        (λ _.
          if_ind P (is_newer k (lookup (key_of k obj) w.emitted) (k.resource_version obj)) _ _
            (λ _. h _) (λ _. skipped))

  pub dedup_emit-ind :
      (P : PerWatcher Obj → Type 0) (w : PerWatcher Obj) (et : EventType) (obj : Obj)
      → P w
      → ((m : GoMap Bytes) → P (emit (record w { emitted = m }) (event k et obj)))
      → P (dedup_emit k w et obj)
  unfolding dedup_emit
  dedup_emit-ind P w et obj skipped h = admit-ind (λ x. P (emit_admitted k x)) w et obj skipped h

  pub replay_one-ind :
      (P : PerWatcher Obj → Type 0) (w : PerWatcher Obj) (obj : Obj)
      → P w
      → ((m : GoMap Bytes) → P (emit (record w { emitted = m }) (event k added obj)))
      → P (replay_one k w obj)
  replay_one-ind P w obj skipped h =
      if_ind P (matches k w obj) _ _
        (λ _.
          if_ind (λ v. P (emit v (event k added obj))) (k.is_accessible obj) _ _ (λ _. h _)
            (λ _. h w.emitted))
        (λ _. skipped)
