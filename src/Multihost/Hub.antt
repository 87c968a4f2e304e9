-- ===== src/Multihost/Hub.antt =====
-- runtime/library/multihost/watch.go: the hub of watch pipelines. The stitcher (the adapter) is a parameter
-- that reads a world. Each function below is one step of a goroutine; `dedup_emit` is two, with the lock
-- released between them.
pub mod Fanout
pub mod Poll
pub mod Churn
pub mod Emission
pub mod Reads
pub mod Access
pub mod System
pub mod Channels
pub mod Registry
pub mod Sources
pub mod Replay
use aggexp.Prelude.{
  ℕ, ◌+◌, ◌-◌, Bool, true, false, not, ◌&&◌, ◌||◌, List, [], ◌∷◌, ◌++◌, Option, none, some, ltb,
  leb, ◌==◌, length, if◌then◌else◌,
}
use aggexp.Text.{Bytes, codes, str_eq, str_empty}
use aggexp.ResourceVersion.{rv_less}
use aggexp.GoMap.{GoMap, lookup, insert, delete}
use aggexp.Kube.{Accessor, LabelSelector, Event, EventType, added, modified, deleted, bookmark}
use aggexp.Multihost.Ref.{ResourceRef, User}

-- `sent` is every event that was put on the result channel, the oldest first, and `taken` how many of them
-- the client has received: the others wait in the channel's `capacity` places. `replay` is what the
-- goroutine of `NewWatch` has yet to replay, and `none` once it has sent the bookmark. A watcher is in the
-- registry until it is closed.
pub record PerWatcher (Obj : Type 0) : Type 0 where
  pub id : ℕ
  pub identity : Option User
  pub namespace : Bytes
  pub selector : Option LabelSelector
  pub capacity : ℕ
  pub sent : List (Event Obj)
  pub taken : ℕ
  pub closed : Bool
  pub emitted : GoMap Bytes
  pub replay : Option (List Obj)
  pub bookmark_rv : Bytes

pub record HubCounters : Type 0 where
  pub get_cache_hit : ℕ
  pub get_cache_miss : ℕ
  pub watchers : ℕ
  pub fanout_events : ℕ

-- Ids stay below 2^63.
pub record Hub (Obj : Type 0) : Type 0 where
  pub buffer_size : ℕ
  pub counters : HubCounters
  pub watchers : List (PerWatcher Obj)
  pub next_id : ℕ
  pub cur_rv : Bytes
  pub last_sig : GoMap Bytes
  pub shared_seen : GoMap Bytes

pub record WatchStitcher (World Obj : Type 0) : Type 0 where
  pub stitch_for : World → Option User → Bytes → Bytes → World × Option Obj
  pub new_bookmark : Obj

abbrev pub default_watch_buffer : ℕ
default_watch_buffer = 100

unfoldable pub identity_key : Option User → Bytes
identity_key none = codes "<nil>"
identity_key (some u) = u.user_name

abbrev pub object_key : Bytes → Bytes → Bytes
object_key namespace name = namespace ++ 47 ∷ name

abbrev pub cut_at_slash : Bytes → Option (Bytes × Bytes)
cut_at_slash [] = none
cut_at_slash (c ∷ s) = let rest = cut_at_slash s in if c == 47 then some ([], s) else behind c rest
  where
    behind : ℕ → Option (Bytes × Bytes) → Option (Bytes × Bytes)
    behind c none = none
    behind c (some (namespace, name)) = some (c ∷ namespace, name)

abbrev pub or_unsplit : Bytes → Option (Bytes × Bytes) → Bytes × Bytes
or_unsplit key none = ([], key)
or_unsplit key (some parts) = parts

unfoldable pub split_key : Bytes → Bytes × Bytes
split_key key = or_unsplit key (cut_at_slash key)

module _ {Obj : Type 0} where
  unfoldable pub new_hub : ℕ → Hub Obj
  new_hub buffer_size = record {
    buffer_size = if leb buffer_size 0 then default_watch_buffer else buffer_size;
    counters = record { get_cache_hit = 0; get_cache_miss = 0; watchers = 0; fanout_events = 0 };
    watchers = [];
    next_id = 0;
    cur_rv = [];
    last_sig = [];
    shared_seen = [];
  }

  unfoldable pub set_current_resource_version : Hub Obj → Bytes → Hub Obj
  set_current_resource_version h rv = if rv_less h.cur_rv rv then record h { cur_rv = rv } else h

  -- An event that finds the channel full is dropped.
  unfoldable pub emit : PerWatcher Obj → Event Obj → PerWatcher Obj
  emit w ev =
      if w.closed
      then w
      else if ltb (length w.sent - w.taken) w.capacity
      then record w { sent = w.sent ++ ev ∷ [] }
      else w

  -- The client receives the next event.
  unfoldable pub receive : PerWatcher Obj → PerWatcher Obj
  receive w = if ltb w.taken (length w.sent) then record w { taken = w.taken + 1 } else w

  abbrev pub close_watcher : ℕ → PerWatcher Obj → PerWatcher Obj
  close_watcher i w = if w.id == i then record w { closed = true } else w

  unfoldable pub close_all : ℕ → List (PerWatcher Obj) → List (PerWatcher Obj)
  close_all i [] = []
  close_all i (w ∷ l) = close_watcher i w ∷ close_all i l

  unfoldable pub is_open : ℕ → List (PerWatcher Obj) → Bool
  is_open i [] = false
  is_open i (w ∷ l) = (w.id == i && not w.closed) || is_open i l

  -- `Stop` of the watcher `i`, which has an effect once.
  unfoldable pub stop : Hub Obj → ℕ → Hub Obj
  stop h i =
      if is_open i h.watchers
      then record h {
        watchers = close_all i h.watchers;
        counters = record (h.counters) { watchers = h.counters.watchers - 1 };
      }
      else h

  unfoldable pub new_watch :
      Hub Obj → Option User → Bytes → Option LabelSelector → List Obj → Hub Obj
  new_watch h u namespace selector initial = record h {
    next_id = h.next_id + 1;
    counters = record (h.counters) { watchers = h.counters.watchers + 1 };
    watchers =
        record {
          id = h.next_id + 1;
          identity = u;
          namespace = namespace;
          selector = selector;
          capacity = h.buffer_size;
          sent = [];
          taken = 0;
          closed = false;
          emitted = [];
          replay = some initial;
          bookmark_rv = h.cur_rv;
        }
        ∷ h.watchers;
  }

module _ {Obj : Type 0} (k : Accessor Obj) where
  abbrev pub key_of : Obj → Bytes
  key_of obj = object_key (k.namespace obj) (k.name obj)

  abbrev pub event : EventType → Obj → Event Obj
  event et obj = record { event_type = et; object = obj }

  -- Whether no version has been emitted for the object, or only a lower one.
  abbrev pub is_newer : Option Bytes → Bytes → Bool
  is_newer none rv = true
  is_newer (some prev) rv = rv_less prev rv

  abbrev pub admit_accessible :
      PerWatcher Obj → EventType → Obj → PerWatcher Obj × Option (Event Obj)
  admit_accessible w deleted obj =
      (record w { emitted = delete (key_of obj) w.emitted }, some (event deleted obj))
  admit_accessible w et obj =
      if is_newer (lookup (key_of obj) w.emitted) (k.resource_version obj)
      then (
        record w { emitted = insert (key_of obj) (k.resource_version obj) w.emitted },
        some (event et obj),
      )
      else (w, none)

  -- The part of `dedupEmit` that holds `emu`: the event that is left to emit, if any. The lock is released
  -- before it is emitted.
  unfoldable pub admit : PerWatcher Obj → EventType → Obj → PerWatcher Obj × Option (Event Obj)
  admit w et obj =
      if not (k.is_accessible obj) then (w, some (event et obj)) else admit_accessible w et obj

  abbrev pub emit_admitted : PerWatcher Obj × Option (Event Obj) → PerWatcher Obj
  emit_admitted (w, none) = w
  emit_admitted (w, some ev) = emit w ev

  -- The two parts with nothing between them; Hub/Sources has them apart.
  unfoldable pub dedup_emit : PerWatcher Obj → EventType → Obj → PerWatcher Obj
  dedup_emit w et obj = emit_admitted (admit w et obj)

  abbrev pub admits_labels : Option LabelSelector → Obj → Bool
  admits_labels none obj = true
  admits_labels (some sel) obj = sel.is_empty || sel.matches (k.labels obj)

  unfoldable pub matches : PerWatcher Obj → Obj → Bool
  matches w obj =
      not (k.is_accessible obj)
      || ((str_empty w.namespace || str_eq (k.namespace obj) w.namespace)
          && admits_labels w.selector obj)

  abbrev pub bookmark_event : Obj → Bytes → Event Obj
  bookmark_event obj rv = event bookmark (
      if k.is_accessible obj
      then k.set_annotations (k.set_resource_version obj rv)
          ((codes "k8s.io/initial-events-end", codes "true") ∷ [])
      else obj)

  abbrev pub replay_one : PerWatcher Obj → Obj → PerWatcher Obj
  replay_one w obj =
      if matches w obj
      then emit
          (if k.is_accessible obj
            then record w { emitted = insert (key_of obj) (k.resource_version obj) w.emitted }
            else w)
          (event added obj)
      else w

  abbrev pub replay_next : Obj → PerWatcher Obj → Option (List Obj) → PerWatcher Obj
  replay_next carrier w none = w
  replay_next carrier w (some []) =
      emit (record w { replay = none }) (bookmark_event carrier w.bookmark_rv)
  replay_next carrier w (some (obj ∷ rest)) = replay_one (record w { replay = some rest }) obj

  -- One round of the goroutine of `NewWatch`: the next object, or the bookmark behind the last one.
  unfoldable pub replay_step : Obj → PerWatcher Obj → PerWatcher Obj
  replay_step carrier w = replay_next carrier w w.replay
