-- ===== src/Multihost/Hub/Access.antt =====
-- What a metadata event puts on the watchers' channels.
use aggexp.Prelude.{
  ℕ, ◌≡◌, refl, sym, ap, ◌∙◌, ◌⊎◌, inl, inr, List, [], ◌∷◌, ◌++◌, Option, none, some, arith, true,
  false, if◌then◌else◌, Bool-cases, Option-cases,
}
use aggexp.Text.{Bytes, str_eq, str_eq_iff}
use aggexp.GoMap.{GoMap, lookup, insert, lookup-insert}
use aggexp.Kube.{Accessor, Event, EventType, added, modified, deleted, bookmark}
use aggexp.ResourceVersion.{rv_less}
use aggexp.Multihost.Ref.{ResourceRef, User, record_name}
use aggexp.Multihost.Signature.{MetaRecord, visible_signature}
use aggexp.Multihost.Hub.{
  PerWatcher, Hub, WatchStitcher, identity_key, emit, dedup_emit, matches, event,
  set_current_resource_version,
}
use aggexp.Multihost.Hub.Fanout.{
  Pass, cached_get, cache_key, concerns, fan_out, new_pass, deliver_to, on_metadata_event,
  filter_event, unless_suppressed,
}
use aggexp.Multihost.Hub.Emission.{emit-ind, dedup_emit-ind}
use aggexp.Multihost.Hub.Reads.{str_eq-append}

-- The sent events of `after` are those of `before`, with at most the one event behind them.
abbrev pub Gained : {Obj : Type 0} → PerWatcher Obj → PerWatcher Obj → (Event Obj → Type 0) → Type 0
Gained {Obj} before after P =
    (after.sent ≡ before.sent) ⊎ ((ev : Event Obj) × ((after.sent ≡ before.sent ++ ev ∷ []) × P ev))

module _ {World Obj : Type 0} (k : Accessor Obj) (stitcher : WatchStitcher World Obj) where
  -- In some world the stitcher gave the object to a caller whose name is this one.
  abbrev pub IsServedTo : Bytes → Bytes → Option User → Obj → Type 0
  IsServedTo namespace name caller obj =
      (world : World) × ((u : Option User) × ((identity_key u ≡ identity_key caller)
          × ((stitcher.stitch_for world u namespace name).1 ≡ some obj)))

  abbrev pub IsOwed : EventType → ResourceRef → PerWatcher Obj → PerWatcher Obj → Type 0
  IsOwed et ref before after = Gained before after (λ ev.
      (ev.event_type ≡ et)
      × ((before.closed ≡ false) × IsServedTo ref.namespace ref.name before.identity ev.object))

  abbrev pub AreOwed :
      EventType → ResourceRef → List (PerWatcher Obj) → List (PerWatcher Obj) → Type 0
  AreOwed et ref [] [] = Unit
  AreOwed et ref (v ∷ l) (w ∷ m) = IsOwed et ref v w × AreOwed et ref l m
  AreOwed et ref _ _ = ⊥

  abbrev IsCacheServed : ResourceRef → Pass World Obj → Type 0
  IsCacheServed ref p =
      (u : Option User) (obj : Obj)
      → lookup (cache_key k stitcher u ref.namespace ref.name) p.cache ≡ some (some obj)
      → IsServedTo ref.namespace ref.name u obj

  emit-Gained :
      (P : Event Obj → Type 0) (w : PerWatcher Obj) (ev : Event Obj) → P ev → Gained w (emit w ev) P
  emit-Gained P w ev h = emit-ind (λ v. Gained w v P) w ev (inl refl) (λ _ _. inr (ev, (refl, h)))

  dedup_emit-Gained :
      (P : Event Obj → Type 0) (w : PerWatcher Obj) (et : EventType) (obj : Obj)
      → P (event k et obj)
      → Gained w (dedup_emit k w et obj) P
  dedup_emit-Gained P w et obj h =
      dedup_emit-ind k (λ v. Gained w v P) w et obj (inl refl)
        (λ m. emit-Gained P (record w { emitted = m }) (event k et obj) h)

  matching-Gained :
      (P : Event Obj → Type 0) (w : PerWatcher Obj) (et : EventType) (obj : Obj)
      → P (event k et obj)
      → Gained w (if matches k w obj then dedup_emit k w et obj else w) P
  matching-Gained P w et obj h = elim (Bool-cases (matches k w obj)) [
    | inl e ↦ simp e (dedup_emit-Gained P w et obj h)
    | inr e ↦ simp e (inl refl)
  ]

  deliver_to-Gained :
      (P : Event Obj → Type 0) (et : EventType) (o : Option Obj) (w : PerWatcher Obj)
      → ((obj : Obj) → o ≡ some obj → P (event k et obj))
      → Gained w (deliver_to k stitcher et o w) P
  unfolding deliver_to
  deliver_to-Gained P et none w h = inl refl
  deliver_to-Gained P deleted (some obj) w h = dedup_emit-Gained P w deleted obj (h obj refl)
  deliver_to-Gained P added (some obj) w h = matching-Gained P w added obj (h obj refl)
  deliver_to-Gained P modified (some obj) w h = matching-Gained P w modified obj (h obj refl)
  deliver_to-Gained P bookmark (some obj) w h = matching-Gained P w bookmark obj (h obj refl)

  abbrev IsPassServed : ResourceRef → Pass World Obj × Option Obj → Option User → Type 0
  IsPassServed ref (q, o) caller =
      IsCacheServed ref q
      × ((obj : Obj) → o ≡ some obj → IsServedTo ref.namespace ref.name caller obj)

  some-eq : {A : Type 0} (a b : A) → some a ≡ some b → a ≡ b
  some-eq a b e = ap (λ o. elim o [ none ↦ a | some c ↦ c ]) e

  cached_get-IsPassServed :
      (ref : ResourceRef) (p : Pass World Obj) (caller : Option User)
      → IsCacheServed ref p
      → IsPassServed ref (cached_get k stitcher p caller ref.namespace ref.name) caller
  unfolding cached_get
  cached_get-IsPassServed ref p caller h =
      let got = stitcher.stitch_for p.world caller ref.namespace ref.name in
      elim (Option-cases (lookup (cache_key k stitcher caller ref.namespace ref.name) p.cache)) [
        | inr (o, e) ↦ simp e (h, λ obj q. h caller obj (e ∙ ap some q))
        | inl e ↦ simp e (
          λ u obj q. elim (Bool-cases (str_eq (identity_key caller) (identity_key u))) [
            | inl same ↦ (
              p.world,
              (
                caller,
                (
                  (str_eq_iff (identity_key caller) (identity_key u)).0 same,
                  some-eq got.1 (some obj) (sym (after u got.1 ∙ (rw same refl)) ∙ q),
                ),
              ),
            )
            | inr other ↦ h u obj (sym (after u got.1 ∙ (rw other refl)) ∙ q)
          ],
          λ obj q. (p.world, (caller, (refl, q))),
        )
      ]
    where
      after :
          (u : Option User) (o : Option Obj)
          → lookup
              (cache_key k stitcher u ref.namespace ref.name)
              (insert (cache_key k stitcher caller ref.namespace ref.name) o p.cache)
            ≡ (if str_eq (identity_key caller) (identity_key u)
                then some o
                else lookup (cache_key k stitcher u ref.namespace ref.name) p.cache)
      after u o =
          lookup-insert (cache_key k stitcher caller ref.namespace ref.name)
            (cache_key k stitcher u ref.namespace ref.name) o p.cache
          ∙ rw
              (str_eq-append (identity_key caller) (identity_key u)
                (0 ∷ (ref.namespace ++ 0 ∷ ref.name)))
              refl

  concerns-open :
      (namespace : Bytes) (w : PerWatcher Obj)
      → concerns k stitcher namespace w ≡ true
      → w.closed ≡ false
  unfolding concerns
  concerns-open namespace w e = ground (arith, e)

  fan_out-AreOwed :
      (et : EventType) (ref : ResourceRef) (p : Pass World Obj) (l : List (PerWatcher Obj))
      → IsCacheServed ref p
      → AreOwed et ref l (fan_out k stitcher et ref p l).1
  unfolding fan_out
  fan_out-AreOwed et ref p [] h = tt
  fan_out-AreOwed et ref p (w ∷ l) h = elim (Bool-cases (concerns k stitcher ref.namespace w)) [
    | inr e ↦ simp e (inl refl, fan_out-AreOwed et ref p l h)
    | inl e ↦
        let got = cached_get k stitcher p w.identity ref.namespace ref.name in
        let (cache, found) = cached_get-IsPassServed ref p w.identity h in
        simp e (
          deliver_to-Gained _ et got.1 w
              (λ obj q. (refl, (concerns-open ref.namespace w e, found obj q))),
          fan_out-AreOwed et ref got.0 l cache,
        )
  ]

  AreOwed-refl :
      (et : EventType) (ref : ResourceRef) (l : List (PerWatcher Obj)) → AreOwed et ref l l
  AreOwed-refl et ref [] = tt
  AreOwed-refl et ref (w ∷ l) = (inl refl, AreOwed-refl et ref l)

  same_watchers :
      (h : Hub Obj) (rv : Bytes) → (set_current_resource_version h rv).watchers ≡ h.watchers
  unfolding set_current_resource_version
  same_watchers h rv = elim (Bool-cases (rv_less h.cur_rv rv)) [
    | inl e ↦ simp e refl
    | inr e ↦ simp e refl
  ]

  -- Whatever the metadata event, each watcher gets at most one event, of the same type, and only while it is
  -- open; and its object is what the stitcher gave to some caller whose name is that of the watcher's
  -- identity (the stitcher may have been asked for another watcher of that name).
  pub on_metadata_event-AreOwed :
      (sha256 : Bytes → List ℕ) (rfc3339 : ℕ → Bytes) (world : World) (h : Hub Obj) (et : EventType)
      (ref : ResourceRef) (rec : MetaRecord) (rv : Bytes)
      → AreOwed et ref h.watchers
          ((on_metadata_event k stitcher sha256 rfc3339 world h et ref rec rv).1).watchers
  unfolding on_metadata_event
  on_metadata_event-AreOwed sha256 rfc3339 world h et ref rec rv =
      let seen = set_current_resource_version h rv in
      let same = same_watchers h rv in
      by_filter seen same
        (filter_event seen.last_sig et (record_name sha256 ref) (visible_signature rfc3339 rec))
    where
      by_filter :
          (g : Hub Obj)
          → g.watchers ≡ h.watchers
          → (o : Option (GoMap Bytes))
          → AreOwed et ref h.watchers ((unless_suppressed k stitcher world g et ref o).1).watchers
      by_filter g same none = rw same (AreOwed-refl et ref h.watchers)
      by_filter g same (some sigs) = rw same (
          fan_out-AreOwed et ref (new_pass k stitcher world) h.watchers
            (λ u obj q. unfold lookup in absurd (ground (arith, q))))
