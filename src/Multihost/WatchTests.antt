-- ===== src/Multihost/WatchTests.antt =====
-- The theorems on the watch hub and the push fan-out of runtime/library/multihost at concrete inputs.
use aggexp.Prelude.{
  ℕ, ◌+◌, ◌≤◌, ◌≡◌, refl, inl, false, List, [], ◌∷◌, ◌++◌, Option, none, some, arith, length,
}
use aggexp.Text.{Bytes, codes, str_eq, str_empty}
use aggexp.GoMap.{lookup, insert}
use aggexp.ResourceVersion.{rv_less}
use aggexp.Decimal.{format_uint, parse_uint}
use aggexp.Kube.{added, modified, Event}
use aggexp.Library.Samples.{Item, item, items}
use aggexp.Multihost.Ref.{ResourceRef, User}
use aggexp.Multihost.BodyStore.{default_identity_gate}
use aggexp.Multihost.MetaStore.{LockState}
use aggexp.Multihost.Signature.{MetaRecord}
use aggexp.Multihost.BodyStore.Subscriptions.{new_fanout, BodyChange, body_added}
use aggexp.Multihost.BodyStore.Subscriptions.Budget.{
  Call, opens, closes, reads, delivers, run, IsBounded, run-new-IsBounded,
}
use aggexp.Multihost.Hub.{
  PerWatcher, Hub, WatchStitcher, new_hub, new_watch, stop, admit, emit, event,
}
use aggexp.Multihost.Hub.Fanout.{on_metadata_event, fan_out, new_pass}
use aggexp.Multihost.Hub.Churn.{SameVisible, IsQuiet, on_modified, on_modified-IsQuiet}
use aggexp.Multihost.Hub.Reads.{firsts, requests, logging, identities, fan_out-reads}
use aggexp.Multihost.Hub.Sources.{Live, with_pending, begins, goes, adds, modifies, emits}
use aggexp.Multihost.Hub.Sources.Once.{tally, LiveReach-once}
use aggexp.Multihost.Hub.Replay.{Replays, replay_rounds, replay_rounds-sent}
use aggexp.Multihost.Hub.System.{watches, stops, start, later}
use aggexp.Multihost.Hub.Registry.{Reach-IsSound}
use aggexp.Multihost.Hub.Channels.{IsSound}

abbrev no_hash : Bytes → List ℕ
no_hash s = []

abbrev time_text : ℕ → Bytes
time_text t = format_uint t

abbrev alice : Option User
alice = some (record { user_name = codes "alice"; groups = [] })

abbrev bob : Option User
bob = some (record { user_name = codes "bob"; groups = [] })

abbrev widget : ResourceRef
widget = record {
  group = codes "example.io";
  resource = codes "widgets";
  namespace = codes "ns";
  name = codes "w";
}

abbrev widget_record : Option LockState → MetaRecord
widget_record lock = record {
  ref = widget;
  record_uid = [];
  record_rv = [];
  uid = codes "u";
  creation_timestamp = some 5;
  deletion_timestamp = none;
  labels = (codes "app", codes "x") ∷ [];
  annotations = [];
  finalizers = [];
  managed_fields = [];
  owner_references = [];
  body_hash = codes "h";
  lock = lock;
}

abbrev pod_lock : Option LockState
pod_lock = some (record {
  holder_identity = codes "pod-0";
  acquired_at = some 5;
  renewed_at = some 5;
  lease_duration_seconds = 15;
})

-- The world counts the reads; everyone may see the widget.
abbrev counting : WatchStitcher ℕ Item
counting = record {
  stitch_for = λ w u namespace name. (w + 1, some (item name (codes "7")));
  new_bookmark = item [] [];
}

abbrev two_watchers : Hub Item
two_watchers =
    new_watch (new_watch (new_hub 10) alice (codes "ns") none []) alice [] none
      (item (codes "w") (codes "5") ∷ [])

abbrev after_added : ℕ × Hub Item
after_added =
    on_metadata_event items counting no_hash time_text 0 two_watchers added widget
      (widget_record none) (codes "7")

abbrev churn : List (MetaRecord × Bytes)
churn = (widget_record pod_lock, codes "8") ∷ (widget_record none, codes "9") ∷ []

same_widget : (lock : Option LockState) → SameVisible (widget_record none) (widget_record lock)
same_widget lock = record {
  same_body = refl;
  same_uid = refl;
  same_deletion = refl;
  same_labels = refl;
  same_annotations = refl;
  same_finalizers = refl;
  same_owners = refl;
}

on_modified-IsQuiet_example :
    IsQuiet after_added (on_modified items counting no_hash time_text after_added widget churn)
on_modified-IsQuiet_example =
    on_modified-IsQuiet items counting no_hash time_text 0 two_watchers added widget
      (widget_record none) (codes "7") churn (inl refl)
      (same_widget pod_lock, (same_widget none, tt))

fan_out-reads_example :
    let pass =
      (fan_out items
        (logging counting)
        added
        widget
        (new_pass items (logging counting) (0, []))
        two_watchers.watchers).0 in
    let asked =
      firsts [] (identities items (logging counting) (codes "ns") two_watchers.watchers) in
    (pass.world.1 ≡ requests (codes "ns") (codes "w") asked)
    × (pass.misses ≡ length asked)
    × (pass.hits + pass.misses
        ≡ length (identities items (logging counting) (codes "ns") two_watchers.watchers))
fan_out-reads_example = fan_out-reads items counting added widget 0 two_watchers.watchers

abbrev watcher : List Item → PerWatcher Item
watcher initial = record {
  id = 1;
  identity = bob;
  namespace = [];
  selector = none;
  capacity = 2;
  sent = [];
  taken = 0;
  closed = false;
  emitted = [];
  replay = some initial;
  bookmark_rv = codes "4";
}

-- Two goroutines: the newer version is admitted second and emitted first.
abbrev five : Item
five = item (codes "w") (format_uint 5)

abbrev twelve : Item
twelve = item (codes "w") (format_uint 12)

abbrev both_admitted : Live Item
both_admitted =
    with_pending (with_pending [] (admit items (watcher []) added five)).pending
      (admit items (with_pending [] (admit items (watcher []) added five)).watcher modified twelve)

abbrev newer_first : Live Item
newer_first = record {
  watcher = emit both_admitted.watcher (event items modified twelve);
  pending = event items added five ∷ [];
}

admitted_both : both_admitted.pending ≡ event items modified twelve ∷ event items added five ∷ []
unfolding admit lookup insert rv_less str_eq format_uint parse_uint str_empty
admitted_both = refl

LiveReach-once_example :
    (new : List (Event Item)) × ((newer_first.watcher.sent ≡ (watcher []).sent ++ new)
      × (tally items (codes "ns/w") (format_uint 12) new ≤ 1))
LiveReach-once_example =
    LiveReach-once items (watcher []) newer_first (codes "ns/w") 12
      (goes
        (goes (goes begins (adds five (refl, (5, (refl, omega arith))) refl))
          (modifies twelve (refl, (12, (refl, omega arith))) refl))
        (emits [] (event items added five ∷ []) (event items modified twelve) admitted_both refl))
      (omega arith)

abbrev two_items : List Item
two_items = item (codes "w") (codes "5") ∷ item (codes "v") (codes "6") ∷ []

abbrev roomy : PerWatcher Item
roomy = record (watcher two_items) { capacity = 3 }

replay_rounds-sent_example :
    (evs : List (Event Item)) × (Replays items (item [] []) [] none (codes "4") two_items evs
      × (((replay_rounds items (item [] []) 3 roomy).sent ≡ [] ++ evs)
          × ((replay_rounds items (item [] []) 3 roomy).replay ≡ none)))
replay_rounds-sent_example =
    replay_rounds-sent items (item [] []) roomy two_items refl refl (omega arith)

abbrev run_state : ℕ × Hub Item
run_state = (0, stop (new_watch (new_hub 10) alice [] none two_items) 1)

Reach-IsSound_example : IsSound run_state.1
Reach-IsSound_example =
    Reach-IsSound items counting no_hash time_text 10 run_state
      (later (later start (watches alice [] none two_items)) (stops 1))

abbrev change : BodyChange ℕ
change = record {
  change_type = body_added;
  namespace = codes "ns";
  name = codes "w";
  body = record { owner = codes "bob"; fields = [] };
}

abbrev fanout_calls : List (Call ℕ)
fanout_calls =
    opens bob 1 ∷ opens alice 1 ∷ delivers change ∷ delivers change ∷ reads 1 ∷ closes 1 ∷ []

run-new-IsBounded_example : IsBounded 1 (run default_identity_gate (new_fanout 1) fanout_calls)
run-new-IsBounded_example = run-new-IsBounded default_identity_gate 1 fanout_calls
