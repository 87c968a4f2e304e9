-- ===== src/Multihost/RestTests.antt =====
-- The theorems on the adapter and the body store of runtime/library/multihost at concrete inputs.
use aggexp.Prelude.{
  ℕ, ◌+◌, ◌≡◌, refl, sym, ap, ◌∙◌, true, false, List, [], ◌∷◌, Option, none, some, All, arith,
  if◌then◌else◌,
}
use aggexp.Text.{Bytes, codes, str_eq, str_eq_refl}
use aggexp.GoMap.{GoMap, lookup}
use aggexp.Kube.{ok, err, conflict, added}
use aggexp.Library.Samples.{Item, item, items}
use aggexp.Multihost.Ref.{ResourceRef, User, Body, text, IdentityGate, body_name}
use aggexp.Multihost.MetaStore.{Raw, MetaApi, get_direct, decode_record}
use aggexp.Multihost.Signature.{MetaRecord}
use aggexp.Multihost.BodyStore.{BodyCr, BodyApi, encode_body, body_from, owner_key, list_for}
use aggexp.Multihost.BodyStore.RoundTrip.{read_owner, body_from-encode_body}
use aggexp.Multihost.BodyStore.Visible.{IsIndexed, Listed, list_for-Listed}
use aggexp.Multihost.Lock.{new_locker}
use aggexp.Multihost.Lock.Txn.{attempts_of}
use aggexp.Multihost.MetaCache.{MetaStore, get_record_direct}
use aggexp.Multihost.Hub.{Hub, new_hub, new_watch, identity_key}
use aggexp.Multihost.Hub.Fanout.{on_metadata_event}
use aggexp.Multihost.Rest.{Rest, Replica, MetaSetters, at_world}
use aggexp.Multihost.Rest.Reads.{get, list, initial_replay, stitch_for}
use aggexp.Multihost.Rest.Txn.{write}
use aggexp.Multihost.Rest.Allowed.{IsAllowed, reads-AreAllowed}
use aggexp.Multihost.Rest.Stale.{read_version, Attempts, write-conflict}
use aggexp.Multihost.Rest.Watching.{
  stitcher, GatesByName, AreEntitled, on_metadata_event-AreEntitled,
}

abbrev no_hash : Bytes → List ℕ
no_hash s = []

abbrev bob : Option User
bob = some (record { user_name = codes "bob"; groups = [] })

-- Everyone sees what is theirs.
abbrev own_gate : IdentityGate
own_gate u owner = str_eq owner (identity_key u)

abbrev bobs_body : Body ℕ
bobs_body = record { owner = codes "bob"; fields = (codes "size", text (codes "4")) ∷ [] }

abbrev bobs_cr : BodyCr ℕ
bobs_cr = encode_body (codes "ns") (codes "w") bobs_body

abbrev cache : GoMap (BodyCr ℕ)
cache = (body_name no_hash (codes "ns") (codes "w"), bobs_cr) ∷ []

cache-IsIndexed : IsIndexed no_hash own_gate cache cache
unfolding lookup encode_body
cache-IsIndexed = (rw (str_eq_refl (body_name no_hash (codes "ns") (codes "w"))) refl, tt)

list_for-Listed_example :
    All
      (Listed no_hash own_gate cache bob (codes "ns"))
      (list_for no_hash own_gate cache bob (codes "ns"))
list_for-Listed_example = list_for-Listed no_hash own_gate cache bob (codes "ns") cache-IsIndexed

body_from-encode_body_example :
    let back = body_from (encode_body (codes "ns") (codes "w") bobs_body) in
    (back.owner ≡ read_owner bobs_body.owner (lookup owner_key bobs_body.fields))
    × (lookup (codes "size") back.fields ≡ (
        if str_eq owner_key (codes "size") then none else lookup (codes "size") bobs_body.fields))
body_from-encode_body_example =
    body_from-encode_body (codes "ns") (codes "w") bobs_body (codes "size")

abbrev widget : ResourceRef
widget = record {
  group = codes "example.io";
  resource = codes "widgets";
  namespace = codes "ns";
  name = codes "w";
}

abbrev widget_record : MetaRecord
widget_record = record {
  ref = widget;
  record_uid = [];
  record_rv = [];
  uid = codes "u";
  creation_timestamp = some 5;
  deletion_timestamp = none;
  labels = [];
  annotations = [];
  finalizers = [];
  managed_fields = [];
  owner_references = [];
  body_hash = [];
  lock = none;
}

abbrev widget_raw : Raw MetaRecord
widget_raw = record { resource_version = codes "7"; lock = none; content = widget_record }

-- A host that serves one record; the world counts the calls.
abbrev meta_client : MetaApi ℕ MetaRecord
meta_client = record {
  get = λ w. (w + 1, ok widget_raw);
  create = λ w raw. (w + 1, ok raw);
  update = λ w raw. (w + 1, ok raw);
  now = λ w. w;
  ticks = λ w. 1;
  bare = widget_record;
  decode_content = λ c. ok c;
}

abbrev body_client : BodyApi ℕ ℕ
body_client = record {
  get = λ w name. (w + 1, ok bobs_cr);
  list = λ w. (w + 1, ok (bobs_cr ∷ []));
  create = λ w name cr. (w + 1, ok cr);
  update = λ w name cr. (w + 1, ok cr);
  delete = λ w name. (w + 1, ok tt);
  now = λ w. w;
}

abbrev item_setters : MetaSetters Item
item_setters = record {
  access = items;
  has_creation_timestamp = λ o. true;
  set_name = λ o v. record o { item_name = v };
  set_namespace = λ o v. record o { item_namespace = v };
  set_creation_timestamp = λ o t. o;
  set_deletion_timestamp = λ o t. o;
  set_labels = λ o m. record o { item_labels = m };
  set_finalizers = λ o l. o;
  set_managed_fields = λ o t. o;
  set_owner_references = λ o t. o;
}

abbrev meta_store : MetaStore ℕ
meta_store = record {
  group = codes "example.io";
  resource = codes "widgets";
  sha256 = no_hash;
  at = λ ref. meta_client;
  delete = λ w name. (w + 1, ok tt);
  lister_get = λ w name. ok widget_raw;
  lister_list = λ w. ok (widget_raw ∷ []);
}

abbrev adapter : Rest ℕ ℕ Item
adapter = record {
  store = meta_store;
  bodies = body_client;
  body_cache = λ w. cache;
  sha256 = no_hash;
  show = λ j. [];
  setters = item_setters;
  conv_new = item [] [];
  conv_stitch = λ ref body rec. item ref.name [];
  conv_body = λ o. bobs_body;
  conv_record = λ o ref. none;
  new_uuid = λ w. (w + 1, codes "uuid");
  now = λ w. w;
  gate = own_gate;
  locker = some (new_locker (codes "pod-0") 0 true true 0);
  reconcile = true;
  min_age = 30;
  adopt = true;
  gc = true;
}

abbrev replica : Replica ℕ
replica = record {
  world = 0;
  neg = record { enabled = true; ttl = 5; entries = [] };
  hub_rv = [];
  store_rv = codes "7";
  counters = record {
    served_get = 0;
    served_list = 0;
    adopt_inline = 0;
    adopt_sweep = 0;
    collect_inline = 0;
    collect_sweep = 0;
    collect_skipped_age = 0;
    write_ok = 0;
    write_conflict = 0;
    write_retry = 0;
    max_write_depth = 0;
  };
}

reads-AreAllowed_example :
    ((obj : Item)
      → (get adapter replica bob (codes "ns") (codes "w")).1 ≡ ok obj
      → IsAllowed adapter bob obj)
    × All (IsAllowed adapter bob) (list adapter replica bob (codes "ns") none).1
    × All (IsAllowed adapter bob) (initial_replay adapter replica false bob (codes "ns") none).1
    × ((obj : Item)
        → (stitch_for adapter replica bob (codes "ns") (codes "w")).1 ≡ some obj
        → IsAllowed adapter bob obj)
reads-AreAllowed_example = reads-AreAllowed adapter replica bob (codes "ns") (codes "w") none

widget_version : (read_version adapter replica widget).1 ≡ codes "7"
unfolding get_record_direct get_direct decode_record
widget_version = refl

locker-Attempts : Attempts adapter adapter.locker
unfolding attempts_of new_locker
locker-Attempts = omega arith

abbrev tail_head : Bytes → ℕ
tail_head [] = 0
tail_head (c ∷ s) = c

differ : (s t : Bytes) (m n : ℕ) → tail_head s ≡ m → tail_head t ≡ n → ¬ (m ≡ n) → ¬ (s ≡ t)
differ s t m n hs ht h e = h (sym hs ∙ ap tail_head e ∙ ht)

write-conflict_example :
    write adapter (λ w n. w) replica widget (item (codes "w") (codes "5")) bobs_body (codes "5")
    ≡ (at_world adapter replica (read_version adapter replica widget).0, err (conflict widget.name))
write-conflict_example =
    write-conflict adapter (λ w n. w) replica widget (item (codes "w") (codes "5")) bobs_body
      (codes "5") locker-Attempts
      (differ (codes "5") [] 53 0 refl refl (λ e. absurd (omega (arith, e))))
      (differ _ [] 55 0 (ap tail_head widget_version) refl (λ e. absurd (omega (arith, e))))
      (differ (codes "5") _ 53 55 refl (ap tail_head widget_version)
        (λ e. absurd (omega (arith, e))))

by_name : GatesByName adapter
by_name u v owner e = ap (str_eq owner) e

abbrev watched : Hub Item
watched = new_watch (new_hub 10) bob (codes "ns") none []

on_metadata_event-AreEntitled_example :
    AreEntitled adapter added watched.watchers
      ((on_metadata_event items
          (stitcher adapter)
          no_hash
          (λ t. [])
          replica
          watched
          added
          widget
          widget_record
          (codes "7")).1
        ).watchers
on_metadata_event-AreEntitled_example =
    on_metadata_event-AreEntitled adapter no_hash (λ t. []) replica watched added widget
      widget_record (codes "7") by_name
