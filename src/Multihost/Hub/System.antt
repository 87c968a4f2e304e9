-- ===== src/Multihost/Hub/System.antt =====
-- The hub as a whole: what its goroutines and its clients do, in any order. Admitting and emitting an event are
-- one step here; Hub/Sources has them apart.
use aggexp.Prelude.{ℕ, ◌≡◌, List, ◌∷◌, ◌++◌, Option, none}
use aggexp.Text.{Bytes}
use aggexp.Kube.{Accessor, EventType, LabelSelector}
use aggexp.Multihost.Ref.{ResourceRef, User}
use aggexp.Multihost.Signature.{MetaRecord}
use aggexp.Multihost.BodyStore.Subscriptions.{BodyChangeType}
use aggexp.Multihost.Hub.{
  PerWatcher, Hub, WatchStitcher, new_hub, new_watch, stop, receive, replay_step,
  set_current_resource_version,
}
use aggexp.Multihost.Hub.Fanout.{on_metadata_event, emit_backend_change, shared_fanout}

module _ {World Obj : Type 0} (k : Accessor Obj) (stitcher : WatchStitcher World Obj)
    (sha256 : Bytes → List ℕ) (rfc3339 : ℕ → Bytes) where
  abbrev pub put_back :
      Hub Obj
      → List (PerWatcher Obj)
      → List (PerWatcher Obj)
      → World × PerWatcher Obj
      → World × Hub Obj
  put_back h l m (w, p) = (w, record h { watchers = l ++ p ∷ m })

  -- The world may change between any two steps. A push or poll loop runs behind the replay.
  pub data Step : World × Hub Obj → World × Hub Obj → Type 0 where
    elsewhere : {w v : World} {h : Hub Obj} → Step (w, h) (v, h)
    watches :
        {w : World} {h : Hub Obj} (u : Option User) (namespace : Bytes)
        (selector : Option LabelSelector) (initial : List Obj)
        → Step (w, h) (w, new_watch h u namespace selector initial)
    observes :
        {w : World} {h : Hub Obj} (rv : Bytes) → Step (w, h) (w, set_current_resource_version h rv)
    informs :
        {w : World} {h : Hub Obj} (et : EventType) (ref : ResourceRef) (rec : MetaRecord)
        (rv : Bytes)
        → Step (w, h) (on_metadata_event k stitcher sha256 rfc3339 w h et ref rec rv)
    shares :
        {w : World} {h : Hub Obj} (ct : BodyChangeType) (namespace name : Bytes)
        → Step (w, h) (shared_fanout k stitcher w h ct namespace name)
    replays :
        {w : World} {h : Hub Obj} (l m : List (PerWatcher Obj)) (p : PerWatcher Obj)
        → h.watchers ≡ l ++ p ∷ m
        → Step (w, h) (w, record h { watchers = l ++ replay_step k stitcher.new_bookmark p ∷ m })
    loops :
        {w : World} {h : Hub Obj} (l m : List (PerWatcher Obj)) (p : PerWatcher Obj)
        (ct : BodyChangeType) (namespace name : Bytes)
        → h.watchers ≡ l ++ p ∷ m
        → p.replay ≡ none
        → Step (w, h) (put_back h l m (emit_backend_change k stitcher w p ct namespace name))
    receives :
        {w : World} {h : Hub Obj} (l m : List (PerWatcher Obj)) (p : PerWatcher Obj)
        → h.watchers ≡ l ++ p ∷ m
        → Step (w, h) (w, record h { watchers = l ++ receive p ∷ m })
    stops : {w : World} {h : Hub Obj} (i : ℕ) → Step (w, h) (w, stop h i)

  pub data Reach (buffer : ℕ) : World × Hub Obj → Type 0 where
    start : {w : World} → Reach buffer (w, new_hub buffer)
    later : {s t : World × Hub Obj} → Reach buffer s → Step s t → Reach buffer t
