-- ===== src/Multihost/Hub/Fanout.antt =====
-- `OnMetadataEvent`, its get cache, `emitBackendChange` and `sharedFanout` of
-- runtime/library/multihost/watch.go.
use aggexp.Prelude.{
  ℕ, ◌+◌, Bool, false, not, ◌&&◌, ◌||◌, List, [], ◌∷◌, ◌++◌, Option, none, some, if◌then◌else◌,
}
use aggexp.Text.{Bytes, codes, str_eq, str_empty}
use aggexp.GoMap.{GoMap, lookup, insert, delete}
use aggexp.Kube.{Accessor, EventType, added, modified, deleted, bookmark}
use aggexp.Multihost.Ref.{ResourceRef, User, record_name}
use aggexp.Multihost.Signature.{MetaRecord, visible_signature}
use aggexp.Multihost.BodyStore.Subscriptions.{
  BodyChangeType, body_added, body_modified, body_deleted,
}
use aggexp.Multihost.Hub.{
  PerWatcher, Hub, HubCounters, WatchStitcher, identity_key, set_current_resource_version,
  dedup_emit, emit, matches, event,
}

-- The get cache of one event, with the world that the stitcher has read.
pub record Pass (World Obj : Type 0) : Type 0 where
  pub world : World
  pub cache : GoMap (Option Obj)
  pub hits : ℕ
  pub misses : ℕ

abbrev pub same_text : Option Bytes → Bytes → Bool
same_text none sig = false
same_text (some prev) sig = str_eq prev sig

-- The emission filter: the signatures after the event, or `none` when it is suppressed.
unfoldable pub filter_event : GoMap Bytes → EventType → Bytes → Bytes → Option (GoMap Bytes)
filter_event last_sig modified name sig =
    if same_text (lookup name last_sig) sig then none else some (insert name sig last_sig)
filter_event last_sig added name sig = some (insert name sig last_sig)
filter_event last_sig deleted name sig = some (delete name last_sig)
filter_event last_sig bookmark name sig = some last_sig

module _ {World Obj : Type 0} (k : Accessor Obj) (stitcher : WatchStitcher World Obj) where
  abbrev pub cache_key : Option User → Bytes → Bytes → Bytes
  cache_key u namespace name = identity_key u ++ 0 ∷ (namespace ++ 0 ∷ name)

  abbrev pub fetched : Pass World Obj → Bytes → World × Option Obj → Pass World Obj × Option Obj
  fetched p key (w, o) =
      (record { world = w; cache = insert key o p.cache; hits = p.hits; misses = p.misses + 1 }, o)

  abbrev pub hit_or_fetch :
      Pass World Obj
      → Option User
      → Bytes
      → Bytes
      → Option (Option Obj)
      → Pass World Obj × Option Obj
  hit_or_fetch p u namespace name (some o) = (record p { hits = p.hits + 1 }, o)
  hit_or_fetch p u namespace name none =
      fetched p (cache_key u namespace name) (stitcher.stitch_for p.world u namespace name)

  -- `getCache.get`
  unfoldable pub cached_get :
      Pass World Obj → Option User → Bytes → Bytes → Pass World Obj × Option Obj
  cached_get p u namespace name =
      hit_or_fetch p u namespace name (lookup (cache_key u namespace name) p.cache)

  unfoldable pub deliver_to : EventType → Option Obj → PerWatcher Obj → PerWatcher Obj
  deliver_to et none w = w
  deliver_to deleted (some obj) w = dedup_emit k w deleted obj
  deliver_to et (some obj) w = if matches k w obj then dedup_emit k w et obj else w

  -- The registered watchers of the namespace, or of all.
  unfoldable pub concerns : Bytes → PerWatcher Obj → Bool
  concerns namespace w = not w.closed && (str_empty w.namespace || str_eq w.namespace namespace)

  abbrev pub visit :
      EventType → ResourceRef → Pass World Obj → PerWatcher Obj → Pass World Obj × PerWatcher Obj
  visit et ref p w =
      let (q, o) = cached_get p w.identity ref.namespace ref.name in
      if concerns ref.namespace w then (q, deliver_to et o w) else (p, w)

  unfoldable pub fan_out :
      EventType
      → ResourceRef
      → Pass World Obj
      → List (PerWatcher Obj)
      → Pass World Obj × List (PerWatcher Obj)
  fan_out et ref p [] = (p, [])
  fan_out et ref p (w ∷ l) =
      let (q, v) = visit et ref p w in let (r, rest) = fan_out et ref q l in (r, v ∷ rest)

  abbrev pub new_pass : World → Pass World Obj
  new_pass w = record { world = w; cache = []; hits = 0; misses = 0 }

  abbrev pub counted : HubCounters → Pass World Obj → HubCounters
  counted c p = record c {
    get_cache_hit = c.get_cache_hit + p.hits;
    get_cache_miss = c.get_cache_miss + p.misses;
    fanout_events = c.fanout_events + 1;
  }

  abbrev pub fanned_out : Hub Obj → Pass World Obj × List (PerWatcher Obj) → World × Hub Obj
  fanned_out h (p, l) = (p.world, record h { watchers = l; counters = counted h.counters p })

  abbrev pub unless_suppressed :
      World → Hub Obj → EventType → ResourceRef → Option (GoMap Bytes) → World × Hub Obj
  unless_suppressed w h et ref none = (w, h)
  unless_suppressed w h et ref (some sigs) =
      fanned_out (record h { last_sig = sigs }) (fan_out et ref (new_pass w) h.watchers)

  -- The watchers are served one after another, in the order of the list (the code's is that of a Go map).
  unfoldable pub on_metadata_event :
      (Bytes → List ℕ)
      → (ℕ → Bytes)
      → World
      → Hub Obj
      → EventType
      → ResourceRef
      → MetaRecord
      → Bytes
      → World × Hub Obj
  on_metadata_event sha256 rfc3339 w h et ref rec rv =
      let seen = set_current_resource_version h rv in
      unless_suppressed w seen et ref
        (filter_event seen.last_sig et (record_name sha256 ref) (visible_signature rfc3339 rec))

  abbrev pub event_type_of : BodyChangeType → EventType
  event_type_of body_added = added
  event_type_of body_modified = modified
  event_type_of body_deleted = deleted

  abbrev pub emit_if_matching : EventType → PerWatcher Obj → Option Obj → PerWatcher Obj
  emit_if_matching et w none = w
  emit_if_matching et w (some obj) = if matches k w obj then dedup_emit k w et obj else w

  abbrev pub with_object : EventType → PerWatcher Obj → World × Option Obj → World × PerWatcher Obj
  with_object et w (world, o) = (world, emit_if_matching et w o)

  -- What the watcher's own push or poll loop does with a change.
  unfoldable pub emit_backend_change :
      World → PerWatcher Obj → BodyChangeType → Bytes → Bytes → World × PerWatcher Obj
  emit_backend_change world w ct namespace name =
      if not (str_empty w.namespace) && not (str_eq w.namespace namespace)
      then (world, w)
      else with_object (event_type_of ct) w (stitcher.stitch_for world w.identity namespace name)

  abbrev pub system_user : Option User
  system_user =
      some (record { user_name = codes "system:masters"; groups = codes "system:masters" ∷ [] })

  unfoldable pub share : EventType → Obj → List (PerWatcher Obj) → List (PerWatcher Obj)
  share et obj [] = []
  share et obj (w ∷ l) =
      (if not w.closed && matches k w obj then emit w (event k et obj) else w) ∷ share et obj l

  abbrev pub share_found : EventType → Hub Obj → World × Option Obj → World × Hub Obj
  share_found et h (world, none) = (world, h)
  share_found et h (world, some obj) = (world, record h { watchers = share et obj h.watchers })

  unfoldable pub shared_fanout : World → Hub Obj → BodyChangeType → Bytes → Bytes → World × Hub Obj
  shared_fanout world h ct namespace name =
      share_found (event_type_of ct) h (stitcher.stitch_for world system_user namespace name)
