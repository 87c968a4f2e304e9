-- ===== src/Multihost/Hub/Registry.antt =====
-- The hub in every reachable state.
use aggexp.Prelude.{
  ℕ, ◌+◌, ◌-◌, ◌≡◌, ◌<◌, ◌≤◌, refl, inl, inr, List, [], ◌∷◌, ◌++◌, Option, none, some, arith, true,
  false, not, ◌&&◌, if◌then◌else◌, Bool-cases, All, ◌==◌, if_ind,
}
use aggexp.Text.{Bytes, str_eq, str_empty}
use aggexp.Multihost.BodyStore.Subscriptions.{BodyChangeType}
use aggexp.GoMap.{GoMap}
use aggexp.ResourceVersion.{rv_less}
use aggexp.Kube.{Accessor, EventType, added, modified, deleted, bookmark}
use aggexp.Multihost.Ref.{ResourceRef}
use aggexp.Multihost.Hub.{
  PerWatcher, Hub, WatchStitcher, new_hub, new_watch, stop, close_all, is_open, replay_step,
  replay_next, set_current_resource_version, dedup_emit, event, matches, bookmark_event,
}
use aggexp.Multihost.Hub.Fanout.{
  Pass, on_metadata_event, emit_backend_change, shared_fanout, fan_out, deliver_to, concerns, share,
  unless_suppressed, emit_if_matching, share_found, event_type_of, cached_get, new_pass,
}
use aggexp.Multihost.Hub.System.{
  Step, Reach, elsewhere, watches, observes, informs, shares, replays, loops, receives, stops,
  start, later,
}
use aggexp.Multihost.Hub.Emission.{dedup_emit-ind, replay_one-ind}
use aggexp.Multihost.Hub.Channels.{
  IsChannel, Keeps, Keeps-refl, emit-Keeps, receive-Keeps, EachKeeps, EachKeeps-refl, EachKeeps-at,
  open_count, IdsFrom, IsSound, keeps-IsSound,
}

module _ {World Obj : Type 0} (k : Accessor Obj) (stitcher : WatchStitcher World Obj) where
  with_emitted : (w : PerWatcher Obj) (m : GoMap Bytes) → Keeps w (record w { emitted = m })
  with_emitted w m = record {
    same_id = refl;
    same_closed = refl;
    same_capacity = refl;
    channel = λ h. h;
  }

  dedup_emit-Keeps :
      (w : PerWatcher Obj) (et : EventType) (obj : Obj) → Keeps w (dedup_emit k w et obj)
  dedup_emit-Keeps w et obj =
      dedup_emit-ind k (Keeps w) w et obj (Keeps-refl w)
        (λ m. emit-Keeps w (record w { emitted = m }) (event k et obj) (with_emitted w m))

  replay_next-Keeps :
      (carrier : Obj) (w : PerWatcher Obj) (o : Option (List Obj))
      → Keeps w (replay_next k carrier w o)
  replay_next-Keeps carrier w none = Keeps-refl w
  replay_next-Keeps carrier w (some []) =
      emit-Keeps w (record w { replay = none }) (bookmark_event k carrier w.bookmark_rv)
        (record { same_id = refl; same_closed = refl; same_capacity = refl; channel = λ h. h })
  replay_next-Keeps carrier w (some (obj ∷ rest)) =
      let next = record w { replay = some rest } in
      let same : Keeps w next = record {
        same_id = refl;
        same_closed = refl;
        same_capacity = refl;
        channel = λ h. h;
      } in
      replay_one-ind k (Keeps w) next obj same (λ m.
        emit-Keeps w (record next { emitted = m }) (event k added obj)
          (record { same_id = refl; same_closed = refl; same_capacity = refl; channel = λ h. h }))

  matching-Keeps :
      (w : PerWatcher Obj) (et : EventType) (obj : Obj)
      → Keeps w (if matches k w obj then dedup_emit k w et obj else w)
  matching-Keeps w et obj =
      if_ind (Keeps w) (matches k w obj) _ _ (λ _. dedup_emit-Keeps w et obj) (λ _. Keeps-refl w)

  deliver_to-Keeps :
      (et : EventType) (o : Option Obj) (w : PerWatcher Obj)
      → Keeps w (deliver_to k stitcher et o w)
  unfolding deliver_to
  deliver_to-Keeps et none w = Keeps-refl w
  deliver_to-Keeps deleted (some obj) w = dedup_emit-Keeps w deleted obj
  deliver_to-Keeps added (some obj) w = matching-Keeps w added obj
  deliver_to-Keeps modified (some obj) w = matching-Keeps w modified obj
  deliver_to-Keeps bookmark (some obj) w = matching-Keeps w bookmark obj

  fan_out-EachKeeps :
      (et : EventType) (ref : ResourceRef) (p : Pass World Obj) (l : List (PerWatcher Obj))
      → EachKeeps l (fan_out k stitcher et ref p l).1
  unfolding fan_out
  fan_out-EachKeeps et ref p [] = tt
  fan_out-EachKeeps et ref p (w ∷ l) =
      let got = cached_get k stitcher p w.identity ref.namespace ref.name in
      if_ind
        (λ (v : Pass World Obj × PerWatcher Obj).
          Keeps w v.1 × EachKeeps l (fan_out k stitcher et ref v.0 l).1)
        (concerns k stitcher ref.namespace w) _ _
        (λ _. (deliver_to-Keeps et got.1 w, fan_out-EachKeeps et ref got.0 l))
        (λ _. (Keeps-refl w, fan_out-EachKeeps et ref p l))

  share-EachKeeps :
      (et : EventType) (obj : Obj) (l : List (PerWatcher Obj))
      → EachKeeps l (share k stitcher et obj l)
  unfolding share
  share-EachKeeps et obj [] = tt
  share-EachKeeps et obj (w ∷ l) = (
    if_ind (Keeps w) (not w.closed && matches k w obj) _ _
        (λ _. emit-Keeps w w (event k et obj) (Keeps-refl w)) (λ _. Keeps-refl w),
    share-EachKeeps et obj l,
  )

  seen-IsSound :
      (h : Hub Obj) (rv : Bytes) → IsSound h → IsSound (set_current_resource_version h rv)
  unfolding set_current_resource_version
  seen-IsSound h rv s =
      if_ind IsSound (rv_less h.cur_rv rv) _ _
        (λ _. keeps-IsSound h (record h { cur_rv = rv }) (EachKeeps-refl h.watchers) refl refl s)
        (λ _. s)

  informed-IsSound :
      (w : World) (h : Hub Obj) (et : EventType) (ref : ResourceRef) (o : Option (GoMap Bytes))
      → IsSound h
      → IsSound (unless_suppressed k stitcher w h et ref o).1
  informed-IsSound w h et ref none s = s
  informed-IsSound w h et ref (some sigs) s =
      keeps-IsSound h _ (fan_out-EachKeeps et ref (new_pass k stitcher w) h.watchers) refl refl s

  shared-IsSound :
      (et : EventType) (h : Hub Obj) (got : World × Option Obj)
      → IsSound h
      → IsSound (share_found k stitcher et h got).1
  shared-IsSound et h (w, none) s = s
  shared-IsSound et h (w, some obj) s =
      keeps-IsSound h _ (share-EachKeeps et obj h.watchers) refl refl s

  emit_backend_change-Keeps :
      (w : World) (p : PerWatcher Obj) (ct : BodyChangeType) (namespace name : Bytes)
      → Keeps p (emit_backend_change k stitcher w p ct namespace name).1
  unfolding emit_backend_change
  emit_backend_change-Keeps w p ct namespace name =
      if_ind (λ (v : World × PerWatcher Obj). Keeps p v.1)
        (not (str_empty p.namespace) && not (str_eq p.namespace namespace)) _ _ (λ _. Keeps-refl p)
        (λ _. found (stitcher.stitch_for w p.identity namespace name).1)
    where
      found :
          (o : Option Obj) → Keeps p (emit_if_matching k stitcher (event_type_of k stitcher ct) p o)
      found none = Keeps-refl p
      found (some obj) = matching-Keeps p (event_type_of k stitcher ct) obj

  placed-IsSound :
      (h : Hub Obj) (l m : List (PerWatcher Obj)) (p q : PerWatcher Obj)
      → h.watchers ≡ l ++ p ∷ m
      → Keeps p q
      → IsSound h
      → IsSound (record h { watchers = l ++ q ∷ m })
  placed-IsSound h l m p q e keeps s =
      keeps-IsSound h (record h { watchers = l ++ q ∷ m }) (rw e (EachKeeps-at l m p q keeps)) refl
        refl s

  -- No watcher has an id that is above the last one.
  close_all-above :
      (i n : ℕ) (l : List (PerWatcher Obj))
      → IdsFrom n l
      → n < i
      → (close_all i l ≡ l) × (is_open i l ≡ false)
  unfolding close_all is_open
  close_all-above i n [] ids h = (refl, refl)
  close_all-above i n (w ∷ l) (below, (pos, ids)) h =
      let (same, shut) = close_all-above i (w.id - 1) l ids (omega arith) in
      let other : (w.id == i) ≡ false = ground arith in
      (rw (other, same) refl, rw (other, shut) refl)

  close_all-IdsFrom :
      (i n : ℕ) (l : List (PerWatcher Obj)) → IdsFrom n l → IdsFrom n (close_all i l)
  unfolding close_all
  close_all-IdsFrom i n [] ids = tt
  close_all-IdsFrom i n (w ∷ l) (below, (pos, ids)) =
      if_ind
        (λ (v : PerWatcher Obj). (v.id ≤ n) × ((0 < v.id) × IdsFrom (v.id - 1) (close_all i l)))
        (w.id == i) _ _ (λ _. (below, (pos, close_all-IdsFrom i (w.id - 1) l ids)))
        (λ _. (below, (pos, close_all-IdsFrom i (w.id - 1) l ids)))

  close_all-channels :
      (i : ℕ) (l : List (PerWatcher Obj)) → All IsChannel l → All IsChannel (close_all i l)
  unfolding close_all
  close_all-channels i [] c = tt
  close_all-channels i (w ∷ l) (c, cs) =
      (if_ind IsChannel (w.id == i) _ _ (λ _. c) (λ _. c), close_all-channels i l cs)

  close_all-count :
      (i n : ℕ) (l : List (PerWatcher Obj))
      → IdsFrom n l
      → is_open i l ≡ true
      → 1 + open_count (close_all i l) ≡ open_count l
  unfolding close_all is_open open_count
  close_all-count i n [] ids h = absurd (ground (arith, h))
  close_all-count i n (w ∷ l) (below, (pos, ids)) h = elim (Bool-cases (w.id == i)) [
    | inl e ↦
        let (same, shut) = close_all-above i (w.id - 1) l ids (ground (arith, e)) in
        let live : w.closed ≡ false = ground (arith, h, e, shut) in
        simp (e, same, live) (omega arith)
    | inr e ↦
        let rest = close_all-count i (w.id - 1) l ids (ground (arith, h, e)) in
        simp e (omega (arith, rest))
  ]

  stop-IsSound : (h : Hub Obj) (i : ℕ) → IsSound h → IsSound (stop h i)
  unfolding stop
  stop-IsSound h i s =
      if_ind IsSound (is_open i h.watchers) _ _
        (λ e. record {
          channels = close_all-channels i h.watchers s.channels;
          ids = close_all-IdsFrom i h.next_id h.watchers s.ids;
          gauge = omega (arith, s.gauge, close_all-count i h.next_id h.watchers s.ids e);
        })
        (λ _. s)

  Step-IsSound :
      (sha256 : Bytes → List ℕ) (rfc3339 : ℕ → Bytes) (s t : World × Hub Obj)
      → Step k stitcher sha256 rfc3339 s t
      → IsSound s.1
      → IsSound t.1
  unfolding on_metadata_event shared_fanout new_watch open_count replay_step
  Step-IsSound sha256 rfc3339 _ _ (elsewhere) s = s
  Step-IsSound sha256 rfc3339 _ _ (watches {h = h} u namespace selector initial) s = record {
    channels = (omega arith, s.channels);
    ids = (omega arith, (omega arith, subst_ids h s.ids));
    gauge = omega (arith, s.gauge);
  }
    where
      subst_ids :
          (h : Hub Obj) → IdsFrom h.next_id h.watchers → IdsFrom (h.next_id + 1 - 1) h.watchers
      subst_ids h ids = let same : h.next_id + 1 - 1 ≡ h.next_id = omega arith in rw same ids
  Step-IsSound sha256 rfc3339 _ _ (observes {h = h} rv) s = seen-IsSound h rv s
  Step-IsSound sha256 rfc3339 _ _ (informs {w = w} {h = h} et ref rec rv) s =
      informed-IsSound w (set_current_resource_version h rv) et ref _ (seen-IsSound h rv s)
  Step-IsSound sha256 rfc3339 _ _ (shares {w = w} {h = h} ct namespace name) s =
      shared-IsSound (event_type_of k stitcher ct) h _ s
  Step-IsSound sha256 rfc3339 _ _ (replays {h = h} l m p e) s =
      placed-IsSound h l m p _ e (replay_next-Keeps stitcher.new_bookmark p p.replay) s
  Step-IsSound sha256 rfc3339 _ _ (loops {w = w} {h = h} l m p ct namespace name e done) s =
      placed-IsSound h l m p _ e (emit_backend_change-Keeps w p ct namespace name) s
  Step-IsSound sha256 rfc3339 _ _ (receives {h = h} l m p e) s =
      placed-IsSound h l m p _ e (receive-Keeps p) s
  Step-IsSound sha256 rfc3339 _ _ (stops {h = h} i) s = stop-IsSound h i s

  -- In every state that the hub can reach, whatever its goroutines and clients do and however their steps
  -- are interleaved, each channel holds at most its capacity of unreceived events, no two watchers have the
  -- same id, and the gauge of watchers is the number of those that are open.
  pub Reach-IsSound :
      (sha256 : Bytes → List ℕ) (rfc3339 : ℕ → Bytes) (buffer : ℕ) (s : World × Hub Obj)
      → Reach k stitcher sha256 rfc3339 buffer s
      → IsSound s.1
  unfolding new_hub open_count
  Reach-IsSound sha256 rfc3339 buffer _ start = record { channels = tt; ids = tt; gauge = refl }
  Reach-IsSound sha256 rfc3339 buffer t (later {s = s} r st) =
      Step-IsSound sha256 rfc3339 s t st (Reach-IsSound sha256 rfc3339 buffer s r)
