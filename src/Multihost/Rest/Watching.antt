-- ===== src/Multihost/Rest/Watching.antt =====
-- The hub over the adapter: what the watchers of a replica are sent on a metadata event.
use aggexp.Prelude.{ℕ, ◌≡◌, sym, ◌∙◌, inl, inr, false, List, [], ◌∷◌, Option}
use aggexp.Text.{Bytes}
use aggexp.Kube.{EventType}
use aggexp.Multihost.Ref.{ResourceRef, User}
use aggexp.Multihost.Signature.{MetaRecord}
use aggexp.Multihost.Hub.{PerWatcher, Hub, WatchStitcher, identity_key}
use aggexp.Multihost.Hub.Fanout.{on_metadata_event}
use aggexp.Multihost.Hub.Access.{Gained, IsOwed, AreOwed, on_metadata_event-AreOwed}
use aggexp.Multihost.Rest.{Rest, Replica}
use aggexp.Multihost.Rest.Reads.{stitch_for}
use aggexp.Multihost.Rest.Allowed.{IsAllowed, stitch_for-IsAllowed}

module _ {World Json Obj : Type 0} (r : Rest World Json Obj) where
  -- The adapter as the hub's stitcher.
  abbrev pub stitcher : WatchStitcher (Replica World) Obj
  stitcher = record { stitch_for = stitch_for r; new_bookmark = r.conv_new }

  -- The gate looks at the caller's name only.
  abbrev pub GatesByName : Type 0
  GatesByName =
      (u v : Option User) (owner : Bytes)
      → identity_key u ≡ identity_key v
      → r.gate u owner ≡ r.gate v owner

  -- At most one event more, of the type, while the watcher is open, and of an object it may see.
  abbrev pub IsEntitled : EventType → PerWatcher Obj → PerWatcher Obj → Type 0
  IsEntitled et before after = Gained before after (λ ev.
      (ev.event_type ≡ et) × ((before.closed ≡ false) × IsAllowed r before.identity ev.object))

  abbrev pub AreEntitled : EventType → List (PerWatcher Obj) → List (PerWatcher Obj) → Type 0
  AreEntitled et [] [] = Unit
  AreEntitled et (v ∷ l) (w ∷ m) = IsEntitled et v w × AreEntitled et l m
  AreEntitled et _ _ = ⊥

  IsAllowed-by_name :
      (u v : Option User) (obj : Obj)
      → GatesByName
      → identity_key u ≡ identity_key v
      → IsAllowed r u obj
      → IsAllowed r v obj
  IsAllowed-by_name u v obj by_name e (s, (ref, (body, (rec, (admitted, same))))) =
      (s, (ref, (body, (rec, (sym (by_name u v body.owner e) ∙ admitted, same)))))

  owed-IsEntitled :
      (et : EventType) (ref : ResourceRef) (v w : PerWatcher Obj)
      → GatesByName
      → IsOwed r.setters.access stitcher et ref v w
      → IsEntitled et v w
  owed-IsEntitled et ref v w by_name (inl same) = inl same
  owed-IsEntitled et ref v w by_name (inr (ev, (sent, (t, (open_before, (s, (u, (name, got)))))))) =
      inr (
        ev,
        (
          sent,
          (
            t,
            (
              open_before,
              IsAllowed-by_name u v.identity ev.object by_name name
                  (stitch_for-IsAllowed r s u ref.namespace ref.name ev.object got),
            ),
          ),
        ),
      )

  owed-AreEntitled :
      (et : EventType) (ref : ResourceRef) (l m : List (PerWatcher Obj))
      → GatesByName
      → AreOwed r.setters.access stitcher et ref l m
      → AreEntitled et l m
  owed-AreEntitled et ref [] [] by_name h = tt
  owed-AreEntitled et ref [] (w ∷ m) by_name h = elim h [ ]
  owed-AreEntitled et ref (v ∷ l) [] by_name h = elim h [ ]
  owed-AreEntitled et ref (v ∷ l) (w ∷ m) by_name (p, h) =
      (owed-IsEntitled et ref v w by_name p, owed-AreEntitled et ref l m by_name h)

  -- When the gate looks at no more of a caller than the name, a metadata event puts at most one event on
  -- each watcher's channel, of its own type, only while the watcher is open, and of an object that is the
  -- stitching of a body which that watcher may see, although watchers of one name share one read.
  pub on_metadata_event-AreEntitled :
      (sha256 : Bytes → List ℕ) (rfc3339 : ℕ → Bytes) (s : Replica World) (h : Hub Obj)
      (et : EventType) (ref : ResourceRef) (rec : MetaRecord) (rv : Bytes)
      → GatesByName
      → AreEntitled et h.watchers
          ((on_metadata_event r.setters.access stitcher sha256 rfc3339 s h et ref rec rv).1
            ).watchers
  on_metadata_event-AreEntitled sha256 rfc3339 s h et ref rec rv by_name =
      owed-AreEntitled et ref h.watchers _ by_name
        (on_metadata_event-AreOwed r.setters.access stitcher sha256 rfc3339 s h et ref rec rv)
