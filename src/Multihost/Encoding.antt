-- ===== src/Multihost/Encoding.antt =====
-- `encodeRecord` and `decodeRecord` of runtime/library/multihost/metastore.go (`encode` and `decode` of
-- runtime/component/v2/metadatastore have the same text but for the lock and the hash). The text of times
-- and the check that a text is JSON of a type are parameters.
pub mod RecordRoundTrip
mod Tests
use aggexp.Prelude.{
  ℕ, Bool, true, false, not, ◌&&◌, ◌||◌, List, [], ◌∷◌, Option, none, some, if◌then◌else◌,
}
use aggexp.Text.{Bytes, codes, str_empty}
use aggexp.GoMap.{GoMap, lookup}
use aggexp.Kube.{StringMap, Result, ok, err, internal}
use aggexp.Multihost.Ref.{ResourceRef}
use aggexp.Multihost.Signature.{MetaRecord}
use aggexp.Multihost.MetaStore.{LockState, wire_lock, read_lock}

-- A value under `spec.metadata`: a string, a map or an array, whose entries are `none` where they are no
-- strings, or anything else.
pub data MetaValue : Type 0 where
  text : Bytes → MetaValue
  table : List (Bytes × Option Bytes) → MetaValue
  texts : List (Option Bytes) → MetaValue
  other : MetaValue

-- `spec.metadata`: missing, no map, or a map.
pub data Section : Type 0 where
  missing malformed : Section
  section : GoMap MetaValue → Section

-- The metadata resource, as far as the two functions touch it. A missing string is empty.
pub record RecordCr : Type 0 where
  pub cr_uid : Bytes
  pub version : Bytes
  pub ref : ResourceRef
  pub metadata : Section
  pub body_hash : Bytes
  pub lock : Option LockState

abbrev pub unless_empty : Bytes → Option MetaValue
unless_empty s = if str_empty s then none else some (text s)

abbrev pub time_value : (ℕ → Bytes) → Option ℕ → Option MetaValue
time_value rfc3339 none = none
time_value rfc3339 (some t) = some (text (rfc3339 t))

abbrev pub all_texts : StringMap → List (Bytes × Option Bytes)
all_texts [] = []
all_texts ((k, v) ∷ m) = (k, some v) ∷ all_texts m

abbrev pub map_value : StringMap → Option MetaValue
map_value [] = none
map_value (e ∷ m) = some (table (all_texts (e ∷ m)))

abbrev pub all_some : List Bytes → List (Option Bytes)
all_some [] = []
all_some (s ∷ l) = some s ∷ all_some l

abbrev pub list_value : List Bytes → Option MetaValue
list_value [] = none
list_value (s ∷ l) = some (texts (all_some (s ∷ l)))

abbrev pub meta_entries : (ℕ → Bytes) → MetaRecord → List (Bytes × Option MetaValue)
meta_entries rfc3339 rec =
    (codes "uid", unless_empty rec.uid)
    ∷ (codes "creationTimestamp", time_value rfc3339 rec.creation_timestamp)
    ∷ (codes "deletionTimestamp", time_value rfc3339 rec.deletion_timestamp)
    ∷ (codes "labels", map_value rec.labels)
    ∷ (codes "annotations", map_value rec.annotations)
    ∷ (codes "finalizers", list_value rec.finalizers)
    ∷ (codes "managedFields", unless_empty rec.managed_fields)
    ∷ (codes "ownerReferences", unless_empty rec.owner_references)
    ∷ []

-- The entries that are there.
unfoldable pub given : List (Bytes × Option MetaValue) → GoMap MetaValue
given [] = []
given ((k, none) ∷ l) = given l
given ((k, some v) ∷ l) = (k, v) ∷ given l

unfoldable pub encode_record : (ℕ → Bytes) → MetaRecord → RecordCr
encode_record rfc3339 rec = record {
  cr_uid = [];
  version = [];
  ref = rec.ref;
  metadata = section (given (meta_entries rfc3339 rec));
  body_hash = rec.body_hash;
  lock = wire_lock rec.lock;
}

abbrev pub text_in : Option MetaValue → Bytes
text_in (some (text s)) = s
text_in (some (table m)) = []
text_in (some (texts l)) = []
text_in (some other) = []
text_in none = []

-- An empty or unreadable time is none.
abbrev pub time_in : (Bytes → Option ℕ) → Option MetaValue → Option ℕ
time_in parse o = if str_empty (text_in o) then none else parse (text_in o)

abbrev pub only_texts : List (Bytes × Option Bytes) → StringMap
only_texts [] = []
only_texts ((k, some v) ∷ m) = (k, v) ∷ only_texts m
only_texts ((k, none) ∷ m) = only_texts m

abbrev pub map_in : Option MetaValue → StringMap
map_in (some (table m)) = only_texts m
map_in (some (text s)) = []
map_in (some (texts l)) = []
map_in (some other) = []
map_in none = []

abbrev pub only_some : List (Option Bytes) → List Bytes
only_some [] = []
only_some (some s ∷ l) = s ∷ only_some l
only_some (none ∷ l) = only_some l

abbrev pub list_in : Option MetaValue → List Bytes
list_in (some (texts l)) = only_some l
list_in (some (text s)) = []
list_in (some (table m)) = []
list_in (some other) = []
list_in none = []

-- An empty text is not looked at.
abbrev pub is_bad : (Bytes → Bool) → Bytes → Bool
is_bad valid s = not (str_empty s) && not (valid s)

module _ (parse : Bytes → Option ℕ) (is_managed is_owners : Bytes → Bool) where
  unfoldable pub decode_meta : MetaRecord → GoMap MetaValue → Result MetaRecord
  decode_meta rec m =
      let at = λ (k : Bytes). lookup k m in
      if is_bad is_managed (text_in (at (codes "managedFields")))
      then err internal
      else if is_bad is_owners (text_in (at (codes "ownerReferences")))
      then err internal
      else ok (record rec {
        uid = text_in (at (codes "uid"));
        creation_timestamp = time_in parse (at (codes "creationTimestamp"));
        deletion_timestamp = time_in parse (at (codes "deletionTimestamp"));
        labels = map_in (at (codes "labels"));
        annotations = map_in (at (codes "annotations"));
        finalizers = list_in (at (codes "finalizers"));
        managed_fields = text_in (at (codes "managedFields"));
        owner_references = text_in (at (codes "ownerReferences"));
      })

  -- The record before its metadata is read.
  abbrev pub plain_record : RecordCr → ResourceRef → MetaRecord
  plain_record u fallback = record {
    ref = if str_empty u.ref.group then fallback else u.ref;
    record_uid = u.cr_uid;
    record_rv = u.version;
    uid = [];
    creation_timestamp = none;
    deletion_timestamp = none;
    labels = [];
    annotations = [];
    finalizers = [];
    managed_fields = [];
    owner_references = [];
    body_hash = [];
    lock = none;
  }

  abbrev pub with_rest : RecordCr → Result MetaRecord → Result MetaRecord
  with_rest u (err e) = err e
  with_rest u (ok rec) = ok (record rec { body_hash = u.body_hash; lock = read_lock u.lock })

  abbrev pub decode_section : RecordCr → MetaRecord → Section → Result MetaRecord
  decode_section u rec missing = with_rest u (ok rec)
  decode_section u rec malformed = err internal
  decode_section u rec (section m) = with_rest u (decode_meta rec m)

  unfoldable pub decode_record : RecordCr → ResourceRef → Result MetaRecord
  decode_record u fallback = decode_section u (plain_record u fallback) u.metadata
