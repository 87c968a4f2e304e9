-- ===== src/Library/PollWatch/Replay.antt =====
-- A client that applies the events of the polls has what was last listed.
use mathlib.Core.Path.{fun_ext}
use aggexp.Prelude.{
  ◌≡◌, refl, ap, ◌∙◌, sym, List, [], ◌∷◌, ◌++◌, Option, none, some, arith, All, if◌then◌else◌,
  Bool-cases, inl, inr,
}
use aggexp.Text.{Bytes, str_eq, str_eq_iff, str_empty, contains}
use aggexp.GoMap.{lookup, insert, lookup-insert}
use aggexp.Kube.{Accessor, ok, Event, EventType, added, modified, deleted, bookmark}
use aggexp.Library.PollWatch.{
  PollEntry, Snapshot, poll_object_name, entry, visit, compare_entry, visit_all, seen_names, sweep,
  poll,
}

-- What is known of each name: the hash of its object, or nothing.
abbrev pub View : Type 0
View = Bytes → Option Bytes

module _ {Obj : Type 0} (k : Accessor Obj) (poll_hash : Obj → Bytes) where
  abbrev pub write : View → Bytes → Option Bytes → View
  write v n h j = if str_eq n j then h else v j

  -- A client that keeps the object of each ADDED and MODIFIED event and drops that of a DELETED one.
  abbrev pub apply_type : EventType → View → Obj → View
  apply_type added v obj = write v (poll_object_name k poll_hash obj) (some (poll_hash obj))
  apply_type modified v obj = write v (poll_object_name k poll_hash obj) (some (poll_hash obj))
  apply_type deleted v obj = write v (poll_object_name k poll_hash obj) none
  apply_type bookmark v obj = v

  abbrev pub replay : View → List (Event Obj) → View
  replay v [] = v
  replay v (e ∷ es) = replay (apply_type e.event_type v e.object) es

  -- The hash of the last listed object of a name.
  abbrev pub latest : List Obj → View → View
  latest [] v = v
  latest (obj ∷ rest) v = latest rest (
      if str_empty (poll_object_name k poll_hash obj)
      then v
      else write v (poll_object_name k poll_hash obj) (some (poll_hash obj)))

  abbrev pub nothing : View
  nothing j = none

  abbrev hash_of : Option (PollEntry Obj) → Option Bytes
  hash_of none = none
  hash_of (some e) = some e.hash

  abbrev pub view : Snapshot Obj → View
  view m j = hash_of (lookup j m)

  -- Each entry stands under its object's name, with its object's hash.
  abbrev pub IsKeyed : Snapshot Obj → Type 0
  IsKeyed m =
      All (λ p. (poll_object_name k poll_hash p.1.obj ≡ p.0) × (poll_hash p.1.obj ≡ p.1.hash)) m

  insert-IsKeyed :
      (obj : Obj) (m : Snapshot Obj)
      → IsKeyed m
      → IsKeyed (insert (poll_object_name k poll_hash obj) (entry k poll_hash obj) m)
  unfolding insert
  insert-IsKeyed obj [] h = ((refl, refl), tt)
  insert-IsKeyed obj ((j, e) ∷ m) h =
      elim (Bool-cases (str_eq j (poll_object_name k poll_hash obj))) [
        | inl same ↦ rw same ((refl, refl), h.1)
        | inr other ↦ rw other (h.0, insert-IsKeyed obj m h.1)
      ]

  view-insert :
      (obj : Obj) (m : Snapshot Obj)
      → view (insert (poll_object_name k poll_hash obj) (entry k poll_hash obj) m)
        ≡ write (view m) (poll_object_name k poll_hash obj) (some (poll_hash obj))
  view-insert obj m = fun_ext λ j.
      ground (arith, lookup-insert (poll_object_name k poll_hash obj) j (entry k poll_hash obj) m)

  pub view_empty : view [] ≡ nothing
  unfolding lookup
  view_empty = refl

  pub replay-append :
      (v : View) (es fs : List (Event Obj)) → replay v (es ++ fs) ≡ replay (replay v es) fs
  replay-append v [] fs = refl
  replay-append v (e ∷ es) fs = replay-append (apply_type e.event_type v e.object) es fs

  -- What one object does to the view.
  abbrev seen_once : View → Obj → View
  seen_once v obj =
      if str_empty (poll_object_name k poll_hash obj)
      then v
      else write v (poll_object_name k poll_hash obj) (some (poll_hash obj))

  abbrev Follows : Snapshot Obj → View → Snapshot Obj × List (Event Obj) → Type 0
  Follows m expected out =
      IsKeyed out.0 × (replay (view m) out.1 ≡ expected) × (view out.0 ≡ expected)

  same_hash :
      (obj : Obj) (m : Snapshot Obj) (prev : PollEntry Obj)
      → lookup (poll_object_name k poll_hash obj) m ≡ some prev
      → prev.hash ≡ poll_hash obj
      → view m ≡ write (view m) (poll_object_name k poll_hash obj) (some (poll_hash obj))
  same_hash obj m prev e h =
      fun_ext λ j. ground (arith, str_eq_iff (poll_object_name k poll_hash obj) j)

  compared :
      (obj : Obj) (m : Snapshot Obj) (found : Option (PollEntry Obj))
      → IsKeyed m
      → lookup (poll_object_name k poll_hash obj) m ≡ found
      → Follows m
          (write (view m) (poll_object_name k poll_hash obj) (some (poll_hash obj)))
          (compare_entry k poll_hash m obj found)
  compared obj m none h e = (insert-IsKeyed obj m h, refl, view-insert obj m)
  compared obj m (some prev) h e = elim (Bool-cases (str_eq prev.hash (poll_hash obj))) [
    | inl same ↦
        let eq = same_hash obj m prev e ((str_eq_iff prev.hash (poll_hash obj)).0 same) in
        rw same (h, eq, eq)
    | inr changed ↦ rw changed (insert-IsKeyed obj m h, refl, view-insert obj m)
  ]

  visit-Follows :
      (m : Snapshot Obj) (obj : Obj)
      → IsKeyed m
      → Follows m (seen_once (view m) obj) (visit k poll_hash m obj)
  unfolding visit
  visit-Follows m obj h = elim (Bool-cases (str_empty (poll_object_name k poll_hash obj))) [
    | inl unnamed ↦ rw unnamed (h, refl, refl)
    | inr named ↦ rw named (compared obj m (lookup (poll_object_name k poll_hash obj) m) h refl)
  ]

  visit_all-Follows :
      (m : Snapshot Obj) (items : List Obj)
      → IsKeyed m
      → Follows m (latest items (view m)) (visit_all k poll_hash m items)
  unfolding visit_all
  visit_all-Follows m [] h = (h, refl, refl)
  visit_all-Follows m (obj ∷ rest) h =
      let first = visit k poll_hash m obj in
      let (keyed, sent, seen) = visit-Follows m obj h in
      let (keyed', later, seen') = visit_all-Follows first.0 rest keyed in
      (
        keyed',
        replay-append (view m) first.1 (visit_all k poll_hash first.0 rest).1
            ∙ ap (λ v. replay v (visit_all k poll_hash first.0 rest).1) (sent ∙ sym seen)
            ∙ later
            ∙ ap (latest rest) seen,
        seen' ∙ ap (latest rest) seen,
      )

  sweep-replay :
      (seen : List Bytes) (m : Snapshot Obj) (v : View) (j : Bytes)
      → IsKeyed m
      → replay v (sweep k poll_hash seen m).1 j
        ≡ (if contains seen j then v j else elim (lookup j m) [ none ↦ v j | some e ↦ none ])
  unfolding sweep lookup
  sweep-replay seen [] v j h = ground arith
  sweep-replay seen ((n, e) ∷ m) v j h = elim (Bool-cases (contains seen n)) [
    | inl kept ↦ rw kept (ground (arith, sweep-replay seen m v j h.1, str_eq_iff n j))
    | inr gone ↦ rw gone (
        ap (λ (n' : Bytes). replay (write v n' none) (sweep k poll_hash seen m).1 j) h.0.0
        ∙ ground (arith, sweep-replay seen m (write v n none) j h.1, str_eq_iff n j))
  ]

  sweep-view :
      (seen : List Bytes) (m : Snapshot Obj) (j : Bytes)
      → view (sweep k poll_hash seen m).0 j ≡ (if contains seen j then view m j else none)
  unfolding sweep lookup
  sweep-view seen [] j = ground arith
  sweep-view seen ((n, e) ∷ m) j = ground (arith, sweep-view seen m j, str_eq_iff n j)

  sweep-IsKeyed :
      (seen : List Bytes) (m : Snapshot Obj) → IsKeyed m → IsKeyed (sweep k poll_hash seen m).0
  unfolding sweep
  sweep-IsKeyed seen [] h = tt
  sweep-IsKeyed seen ((n, e) ∷ m) h = elim (Bool-cases (contains seen n)) [
    | inl kept ↦ rw kept (h.0, sweep-IsKeyed seen m h.1)
    | inr gone ↦ rw gone (sweep-IsKeyed seen m h.1)
  ]

  latest-seen :
      (items : List Obj) (v : View) (j : Bytes)
      → latest items v j
        ≡ (if contains (seen_names k poll_hash items) j then latest items nothing j else v j)
  unfolding seen_names contains
  latest-seen [] v j = refl
  latest-seen (obj ∷ rest) v j = ground (
    arith,
    latest-seen rest (seen_once v obj) j,
    latest-seen rest (seen_once nothing obj) j,
    str_eq_iff (poll_object_name k poll_hash obj) j,
  )

  swept :
      (m : Snapshot Obj) (seen : List Bytes) (j : Bytes)
      → (if contains seen j
          then view m j
          else elim (lookup j m) [ none ↦ view m j | some e ↦ none ])
        ≡ (if contains seen j then view m j else none)
  swept m seen j = ground arith

  -- A successful poll: its events turn what was known into what was listed.
  pub poll-Follows :
      (m : Snapshot Obj) (items : List Obj)
      → IsKeyed m
      → Follows m (latest items nothing) (poll k poll_hash m (ok items))
  unfolding poll
  poll-Follows m items h =
      let all = visit_all k poll_hash m items in
      let seen = seen_names k poll_hash items in
      let (keyed, sent, seen_view) = visit_all-Follows m items h in
      let last : (j : Bytes)
          → (if contains seen j then view all.0 j else none) ≡ latest items nothing j =
        λ j. ground (
          arith,
          ap (λ (v : View). v j) seen_view,
          latest-seen items (view m) j,
          latest-seen items nothing j,
        ) in
      (
        sweep-IsKeyed seen all.0 keyed,
        replay-append (view m) all.1 (sweep k poll_hash seen all.0).1
            ∙ ap (λ v. replay v (sweep k poll_hash seen all.0).1) (sent ∙ sym seen_view)
            ∙ fun_ext
                λ j. sweep-replay seen all.0 (view all.0) j keyed ∙ swept all.0 seen j ∙ last j,
        fun_ext λ j. sweep-view seen all.0 j ∙ last j,
      )
