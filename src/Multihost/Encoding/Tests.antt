-- ===== src/Multihost/Encoding/Tests.antt =====
-- The round trip of a metadata record at a concrete input.
use aggexp.Prelude.{ℕ, ◌≡◌, ◌*◌, ◌/◌, refl, Bool, true, [], ◌∷◌, Option, none, some}
use aggexp.Text.{Bytes, codes, str_empty}
use aggexp.Kube.{ok}
use aggexp.Multihost.Ref.{ResourceRef}
use aggexp.Multihost.Signature.{MetaRecord}
use aggexp.Multihost.MetaStore.{second}
use aggexp.Multihost.Encoding.{encode_record, decode_record}
use aggexp.Multihost.Encoding.RecordRoundTrip.{ReadsTimes, as_stored, decode_record-encode_record}

-- A time as the number of its seconds.
abbrev show_time : ℕ → Bytes
show_time t = t / second ∷ []

abbrev read_time : Bytes → Option ℕ
read_time [] = none
read_time (n ∷ s) = some (n * second)

shown_times : ReadsTimes show_time read_time
unfolding str_empty
shown_times = record { not_empty = λ t. refl; whole_seconds = λ t. refl }

abbrev any_json : Bytes → Bool
any_json s = true

abbrev widget : ResourceRef
widget = record {
  group = codes "example.io";
  resource = codes "widgets";
  namespace = codes "ns";
  name = codes "w";
}

abbrev stored_record : MetaRecord
stored_record = record {
  ref = widget;
  record_uid = codes "host-uid";
  record_rv = codes "7";
  uid = codes "u";
  creation_timestamp = some 5000000007;
  deletion_timestamp = none;
  labels = (codes "app", codes "x") ∷ [];
  annotations = [];
  finalizers = codes "example.io/keep" ∷ [];
  managed_fields = [];
  owner_references = codes "[]";
  body_hash = codes "h";
  lock = none;
}

decode_record-encode_record_example :
    decode_record read_time any_json any_json (encode_record show_time stored_record) widget
    ≡ ok (as_stored stored_record)
unfolding str_empty
decode_record-encode_record_example =
    decode_record-encode_record show_time read_time any_json any_json stored_record widget
      shown_times refl refl refl
