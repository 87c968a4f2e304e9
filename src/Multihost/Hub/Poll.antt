-- ===== src/Multihost/Hub/Poll.antt =====
-- One round of the loops `runPoll` and `RunSharedPoll` of runtime/library/multihost/watch.go.
use aggexp.Prelude.{List, [], ◌∷◌, ◌++◌, Option, none, some, if◌then◌else◌}
use aggexp.Text.{Bytes, str_eq, contains}
use aggexp.GoMap.{GoMap, lookup, insert}
use aggexp.Kube.{Accessor}
use aggexp.Multihost.Ref.{Body}
use aggexp.Multihost.BodyStore.{BodyRef}
use aggexp.Multihost.BodyStore.Subscriptions.{
  BodyChangeType, body_added, body_modified, body_deleted,
}
use aggexp.Multihost.Hub.{PerWatcher, Hub, WatchStitcher, object_key, split_key}
use aggexp.Multihost.Hub.Fanout.{emit_backend_change, shared_fanout, same_text}

pub record Change : Type 0 where
  pub change_type : BodyChangeType
  pub namespace : Bytes
  pub name : Bytes

module _ {Json : Type 0} (hash : Body Json → Bytes) where
  abbrev pub ref_key : BodyRef Json → Bytes
  ref_key r = object_key r.namespace r.name

  abbrev pub change_of : BodyRef Json → Option Bytes → List Change
  change_of r none =
      record { change_type = body_added; namespace = r.namespace; name = r.name } ∷ []
  change_of r (some prev) =
      if str_eq prev (hash r.body)
      then []
      else record { change_type = body_modified; namespace = r.namespace; name = r.name } ∷ []

  -- The snapshot after the listed bodies, and the changes to emit; a body with the known hash leaves the
  -- snapshot as it is.
  unfoldable pub poll_listed : GoMap Bytes → List (BodyRef Json) → GoMap Bytes × List Change
  poll_listed snap [] = (snap, [])
  poll_listed snap (r ∷ l) =
      let (after, rest) =
        poll_listed
          (if same_text (lookup (ref_key r) snap) (hash r.body)
            then snap
            else insert (ref_key r) (hash r.body) snap)
          l in
      (after, change_of r (lookup (ref_key r) snap) ++ rest)

  abbrev pub keys_seen : List (BodyRef Json) → List Bytes
  keys_seen [] = []
  keys_seen (r ∷ l) = ref_key r ∷ keys_seen l

  abbrev pub gone : Bytes × Bytes → Change
  gone (namespace, name) = record { change_type = body_deleted; namespace = namespace; name = name }

  unfoldable pub poll_gone : List Bytes → GoMap Bytes → GoMap Bytes × List Change
  poll_gone seen [] = ([], [])
  poll_gone seen ((key, h) ∷ snap) =
      let (after, rest) = poll_gone seen snap in
      if contains seen key then ((key, h) ∷ after, rest) else (after, gone (split_key key) ∷ rest)

  unfoldable pub poll_round : GoMap Bytes → List (BodyRef Json) → GoMap Bytes × List Change
  poll_round snap refs =
      let (listed, changes) = poll_listed snap refs in
      let (after, deletions) = poll_gone (keys_seen refs) listed in (after, changes ++ deletions)

module _ {World Obj Json : Type 0} (k : Accessor Obj) (stitcher : WatchStitcher World Obj)
    (hash : Body Json → Bytes) where
  unfoldable pub emit_changes : World → PerWatcher Obj → List Change → World × PerWatcher Obj
  emit_changes world w [] = (world, w)
  emit_changes world w (c ∷ cs) =
      let (next, v) = emit_backend_change k stitcher world w c.change_type c.namespace c.name in
      emit_changes next v cs

  unfoldable pub share_changes : World → Hub Obj → List Change → World × Hub Obj
  share_changes world h [] = (world, h)
  share_changes world h (c ∷ cs) =
      let (next, g) = shared_fanout k stitcher world h c.change_type c.namespace c.name in
      share_changes next g cs

  -- The changes of a round are emitted one by one while the list is read; each emission leaves the
  -- snapshot alone.
  unfoldable pub run_poll_round :
      World
      → PerWatcher Obj
      → GoMap Bytes
      → List (BodyRef Json)
      → GoMap Bytes × (World × PerWatcher Obj)
  run_poll_round world w snap refs =
      let (after, changes) = poll_round hash snap refs in (after, emit_changes world w changes)

  unfoldable pub shared_poll_round : World → Hub Obj → List (BodyRef Json) → World × Hub Obj
  shared_poll_round world h refs =
      let (after, changes) = poll_round hash h.shared_seen refs in
      share_changes world (record h { shared_seen = after }) changes
