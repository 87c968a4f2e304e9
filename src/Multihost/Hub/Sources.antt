-- ===== src/Multihost/Hub/Sources.antt =====
-- The live sources of one watcher: several goroutines in `dedupEmit`, each of which admits an event under the
-- lock and emits it after it has released the lock.
pub mod Once
use aggexp.Prelude.{
  ℕ, ◌+◌, ◌≡◌, ◌<◌, ◌≤◌, refl, sym, ap, ◌∙◌, inl, inr, List, [], ◌∷◌, ◌++◌, Option, none, some,
  arith, Bool, true, false, ◌&&◌, if◌then◌else◌, Bool-cases, ltb, length, ◌⊎◌, append_assoc,
  append-nil, if_ind,
}
use aggexp.Text.{Bytes, str_eq, str_eq_iff}
use aggexp.Decimal.{max_u64, format_uint}
use aggexp.ResourceVersion.{rv_less, rv_less-decimal}
use aggexp.GoMap.{lookup, insert, lookup-insert, lookup-insert_self}
use aggexp.Kube.{Accessor, Event, EventType, added, modified}
use aggexp.Multihost.Hub.{PerWatcher, emit, receive, admit, event, is_newer, key_of}
use aggexp.Multihost.Hub.Emission.{emit-ind}

-- The watcher, and the events that goroutines have admitted and not yet emitted.
pub record Live (Obj : Type 0) : Type 0 where
  pub watcher : PerWatcher Obj
  pub pending : List (Event Obj)

abbrev pub with_pending :
    {Obj : Type 0} → List (Event Obj) → PerWatcher Obj × Option (Event Obj) → Live Obj
with_pending l (w, none) = record { watcher = w; pending = l }
with_pending l (w, some ev) = record { watcher = w; pending = ev ∷ l }

module _ {Obj : Type 0} (k : Accessor Obj) where
  -- The object has metadata, and its version is a decimal uint64, as those of etcd are.
  abbrev pub IsNumbered : Obj → Type 0
  IsNumbered obj =
      (k.is_accessible obj ≡ true)
      × ((n : ℕ) × ((k.resource_version obj ≡ format_uint n) × (n ≤ max_u64)))

  -- Nothing is deleted. Any of the pending events may be emitted next.
  pub data LiveStep (s t : Live Obj) : Type 0 where
    adds :
        (obj : Obj)
        → IsNumbered obj
        → t ≡ with_pending s.pending (admit k s.watcher added obj)
        → LiveStep s t
    modifies :
        (obj : Obj)
        → IsNumbered obj
        → t ≡ with_pending s.pending (admit k s.watcher modified obj)
        → LiveStep s t
    emits :
        (l m : List (Event Obj)) (ev : Event Obj)
        → s.pending ≡ l ++ ev ∷ m
        → t ≡ record { watcher = emit s.watcher ev; pending = l ++ m }
        → LiveStep s t
    receives : t ≡ record s { watcher = receive s.watcher } → LiveStep s t
    stops : t ≡ record s { watcher = record (s.watcher) { closed = true } } → LiveStep s t

  -- From a watcher with nothing pending.
  pub data LiveReach (w : PerWatcher Obj) : Live Obj → Type 0 where
    begins : LiveReach w (record { watcher = w; pending = [] })
    goes : {s t : Live Obj} → LiveReach w s → LiveStep s t → LiveReach w t
