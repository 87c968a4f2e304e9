-- ===== src/Metadata/Tests.antt =====
-- The metadata store of runtime/component/v2 over a host that is a map.
use aggexp.Prelude.{ℕ, ◌*◌, ◌/◌, ◌≡◌, refl, true, [], ◌∷◌, Option, none, some}
use aggexp.Text.{Bytes, codes, str_empty}
use aggexp.GoMap.{GoMap, lookup, insert, delete, lookup-insert_self}
use aggexp.Kube.{Result, ok, err, not_found}
use aggexp.Multihost.Ref.{ResourceRef}
use aggexp.Multihost.Signature.{MetaRecord}
use aggexp.Multihost.MetaStore.{second}
use aggexp.Multihost.Encoding.{RecordCr}
use aggexp.Multihost.Encoding.RecordRoundTrip.{ReadsTimes}
use aggexp.Metadata.{Client, Store, put}
use aggexp.Metadata.ReadBack.{IsFresh, ReadsBack, put-ReadsBack}

abbrev Host : Type 0
Host = GoMap RecordCr

abbrev found : Bytes → Option RecordCr → Result RecordCr
found name none = err (not_found name)
found name (some u) = ok u

abbrev client : Client Host
client = record {
  get = λ w name. (w, found name (lookup name w));
  list = λ w. (w, ok []);
  create = λ w name u. (insert name u w, ok u);
  update = λ w name u. (insert name u w, ok u);
  delete = λ w name. (delete name w, ok tt);
}

-- A time as the number of its seconds.
abbrev show_time : ℕ → Bytes
show_time t = t / second ∷ []

abbrev read_time : Bytes → Option ℕ
read_time [] = none
read_time (n ∷ s) = some (n * second)

shown_times : ReadsTimes show_time read_time
unfolding str_empty
shown_times = record { not_empty = λ t. refl; whole_seconds = λ t. refl }

abbrev store : Store Host
store = record {
  client = client;
  sha256 = λ s. [];
  rfc3339 = show_time;
  parse = read_time;
  is_managed = λ s. true;
  is_owners = λ s. true;
}

shown :
    (w : Host) (name : Bytes) (u : RecordCr)
    → (u.metadata ≡ u.metadata)
      × ((u.ref ≡ u.ref) × (found name (lookup name (insert name u w)) ≡ ok u))
shown w name u = (refl, (refl, rw (lookup-insert_self name u w) refl))

store-IsFresh : IsFresh store
store-IsFresh = record { shows_created = shown; shows_updated = shown }

abbrev widget : ResourceRef
widget = record { group = codes "g"; resource = codes "widgets"; namespace = []; name = codes "w" }

abbrev widget_record : MetaRecord
widget_record = record {
  ref = widget;
  record_uid = [];
  record_rv = [];
  uid = codes "u";
  creation_timestamp = some (5 * second);
  deletion_timestamp = none;
  labels = (codes "app", codes "x") ∷ [];
  annotations = [];
  finalizers = [];
  managed_fields = [];
  owner_references = [];
  body_hash = [];
  lock = none;
}

put-ReadsBack_example : ReadsBack store widget_record (put store [] widget_record)
unfolding str_empty
put-ReadsBack_example = put-ReadsBack store widget_record shown_times refl refl [] store-IsFresh
