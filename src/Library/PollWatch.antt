-- ===== src/Library/PollWatch.antt =====
-- runtime/library/pollwatch.go: a poll diffs the listed objects against a snapshot. The publisher is
-- the list of the events sent to it; a map is swept in the order of its association list.
pub mod Replay
pub mod Runs
use aggexp.Prelude.{Bool, true, false, List, [], ◌∷◌, ◌++◌, map, Option, none, some, if◌then◌else◌}
use aggexp.Text.{Bytes, str_eq, str_empty, contains}
use aggexp.GoMap.{GoMap, lookup, insert}
use aggexp.Kube.{Accessor, Result, ok, err, Event, added, modified, deleted}

pub record PollEntry (Obj : Type 0) : Type 0 where
  pub obj : Obj
  pub hash : Bytes

abbrev pub Snapshot : Type 0 → Type 0
Snapshot Obj = GoMap (PollEntry Obj)

-- `poll_hash` stands for `pollHashObject`, the JSON text of the object.
module _ {Obj : Type 0} (k : Accessor Obj) (poll_hash : Obj → Bytes) where
  unfoldable pub poll_object_name : Obj → Bytes
  poll_object_name obj = if k.is_accessible obj then k.name obj else []

  abbrev pub entry : Obj → PollEntry Obj
  entry obj = record { obj = obj; hash = poll_hash obj }

  abbrev pub compare_entry :
      Snapshot Obj → Obj → Option (PollEntry Obj) → Snapshot Obj × List (Event Obj)
  compare_entry m obj none = (
    insert (poll_object_name obj) (entry obj) m,
    record { event_type = added; object = obj } ∷ [],
  )
  compare_entry m obj (some prev) = if str_eq prev.hash (poll_hash obj) then (m, []) else (
    insert (poll_object_name obj) (entry obj) m,
    record { event_type = modified; object = obj } ∷ [],
  )

  -- One round of the loop over the listed objects.
  unfoldable pub visit : Snapshot Obj → Obj → Snapshot Obj × List (Event Obj)
  visit m obj =
      if str_empty (poll_object_name obj)
      then (m, [])
      else compare_entry m obj (lookup (poll_object_name obj) m)

  unfoldable pub visit_all : Snapshot Obj → List Obj → Snapshot Obj × List (Event Obj)
  visit_all m [] = (m, [])
  visit_all m (obj ∷ rest) =
      let (m', sent) = visit m obj in let (m'', later) = visit_all m' rest in (m'', sent ++ later)

  -- The names marked as seen.
  unfoldable pub seen_names : List Obj → List Bytes
  seen_names [] = []
  seen_names (obj ∷ rest) =
      let others = seen_names rest in
      if str_empty (poll_object_name obj) then others else poll_object_name obj ∷ others

  -- The loop that deletes what was not seen.
  unfoldable pub sweep : List Bytes → Snapshot Obj → Snapshot Obj × List (Event Obj)
  sweep seen [] = ([], [])
  sweep seen ((name, e) ∷ m) =
      let (m', sent) = sweep seen m in
      if contains seen name
      then ((name, e) ∷ m', sent)
      else (m', record { event_type = deleted; object = e.obj } ∷ sent)

  unfoldable pub poll : Snapshot Obj → Result (List Obj) → Snapshot Obj × List (Event Obj)
  poll m (err e) = (m, [])
  poll m (ok items) =
      let (m', sent) = visit_all m items in
      let (m'', removed) = sweep (seen_names items) m' in (m'', sent ++ removed)

  -- `Run`: one poll after another.
  unfoldable pub run : Snapshot Obj → List (Result (List Obj)) → Snapshot Obj × List (Event Obj)
  run m [] = (m, [])
  run m (listed ∷ rest) =
      let (m', sent) = poll m listed in let (m'', later) = run m' rest in (m'', sent ++ later)
