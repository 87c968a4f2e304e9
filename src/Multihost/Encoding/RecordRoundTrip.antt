-- ===== src/Multihost/Encoding/RecordRoundTrip.antt =====
-- A record that is encoded and decoded.
use aggexp.Prelude.{
  ℕ, ◌≡◌, refl, ap, ◌∙◌, Bool, false, List, [], ◌∷◌, Option, none, some, if_ind, Bool-cases, inl,
  inr, if◌then◌else◌,
}
use aggexp.Text.{Bytes, codes, str_eq, str_empty}
use aggexp.GoMap.{GoMap, lookup}
use aggexp.Kube.{StringMap, ok}
use aggexp.Multihost.Ref.{ResourceRef}
use aggexp.Multihost.Signature.{MetaRecord}
use aggexp.Multihost.MetaStore.{wire_lock, read_lock, to_wire}
use aggexp.Multihost.Encoding.{
  MetaValue, given, meta_entries, unless_empty, time_value, all_texts, map_value, all_some,
  list_value, encode_record, text_in, time_in, only_texts, map_in, only_some, list_in, is_bad,
  decode_meta, decode_record,
}

abbrev or_next : Option MetaValue → Option MetaValue → Option MetaValue
or_next none d = d
or_next (some v) d = some v

abbrev entry : Bytes → List (Bytes × Option MetaValue) → Option MetaValue
entry k [] = none
entry k ((j, o) ∷ l) = or_next (if str_eq j k then o else none) (entry k l)

lookup-given : (k : Bytes) (l : List (Bytes × Option MetaValue)) → lookup k (given l) ≡ entry k l
unfolding lookup given
lookup-given k [] = refl
lookup-given k ((j, none) ∷ l) =
    lookup-given k l
    ∙ if_ind (λ o. entry k l ≡ or_next o (entry k l)) (str_eq j k) none none (λ _. refl) (λ _. refl)
lookup-given k ((j, some v) ∷ l) = elim (Bool-cases (str_eq j k)) [
  | inl e ↦ rw e refl
  | inr e ↦ rw e (lookup-given k l)
]

or_next-none : (o : Option MetaValue) → or_next o none ≡ o
or_next-none none = refl
or_next-none (some v) = refl

text_in-unless_empty : (s : Bytes) → text_in (unless_empty s) ≡ s
unfolding str_empty
text_in-unless_empty [] = refl
text_in-unless_empty (c ∷ s) = refl

only_texts-all_texts : (m : StringMap) → only_texts (all_texts m) ≡ m
only_texts-all_texts [] = refl
only_texts-all_texts ((k, v) ∷ m) = ap (◌∷◌ (k, v)) (only_texts-all_texts m)

map_in-map_value : (m : StringMap) → map_in (map_value m) ≡ m
map_in-map_value [] = refl
map_in-map_value (e ∷ m) = only_texts-all_texts (e ∷ m)

only_some-all_some : (l : List Bytes) → only_some (all_some l) ≡ l
only_some-all_some [] = refl
only_some-all_some (s ∷ l) = ap (◌∷◌ s) (only_some-all_some l)

list_in-list_value : (l : List Bytes) → list_in (list_value l) ≡ l
list_in-list_value [] = refl
list_in-list_value (s ∷ l) = only_some-all_some (s ∷ l)

-- Times are written in whole seconds, and read back as such.
pub record ReadsTimes (rfc3339 : ℕ → Bytes) (parse : Bytes → Option ℕ) : Type 0 where
  pub not_empty : (t : ℕ) → str_empty (rfc3339 t) ≡ false
  pub whole_seconds : (t : ℕ) → parse (rfc3339 t) ≡ to_wire (some t)

time_in-time_value :
    (rfc3339 : ℕ → Bytes) (parse : Bytes → Option ℕ) (o : Option ℕ)
    → ReadsTimes rfc3339 parse
    → time_in parse (time_value rfc3339 o) ≡ to_wire o
unfolding str_empty
time_in-time_value rfc3339 parse none h = refl
time_in-time_value rfc3339 parse (some t) h = rw (h.not_empty t) (h.whole_seconds t)

-- The entry of each key, by its place in the list.
entry_at :
    (rfc3339 : ℕ → Bytes) (rec : MetaRecord) (k : Bytes) (o : Option MetaValue)
    → entry k (meta_entries rfc3339 rec) ≡ or_next o none
    → lookup k (given (meta_entries rfc3339 rec)) ≡ o
entry_at rfc3339 rec k o e = lookup-given k (meta_entries rfc3339 rec) ∙ e ∙ or_next-none o

-- The decoded record: times in whole seconds, the lock as the wire keeps it, and no UID or version, which
-- the host gives.
abbrev pub as_stored : MetaRecord → MetaRecord
as_stored rec = record rec {
  record_uid = [];
  record_rv = [];
  creation_timestamp = to_wire rec.creation_timestamp;
  deletion_timestamp = to_wire rec.deletion_timestamp;
  lock = read_lock (wire_lock rec.lock);
}

-- What the metadata section of an encoded record reads at each key.
pub record ReadsBack (rfc3339 : ℕ → Bytes) (rec : MetaRecord) (m : GoMap MetaValue) : Type 0 where
  pub at_uid : lookup (codes "uid") m ≡ unless_empty rec.uid
  pub at_creation : lookup (codes "creationTimestamp") m ≡ time_value rfc3339 rec.creation_timestamp
  pub at_deletion : lookup (codes "deletionTimestamp") m ≡ time_value rfc3339 rec.deletion_timestamp
  pub at_labels : lookup (codes "labels") m ≡ map_value rec.labels
  pub at_annotations : lookup (codes "annotations") m ≡ map_value rec.annotations
  pub at_finalizers : lookup (codes "finalizers") m ≡ list_value rec.finalizers
  pub at_managed : lookup (codes "managedFields") m ≡ unless_empty rec.managed_fields
  pub at_owners : lookup (codes "ownerReferences") m ≡ unless_empty rec.owner_references

pub given-ReadsBack :
    (rfc3339 : ℕ → Bytes) (rec : MetaRecord)
    → ReadsBack rfc3339 rec (given (meta_entries rfc3339 rec))
unfolding str_eq
given-ReadsBack rfc3339 rec = record {
  at_uid = entry_at rfc3339 rec (codes "uid") _ (next_none _);
  at_creation = entry_at rfc3339 rec (codes "creationTimestamp") _ (next_none _);
  at_deletion = entry_at rfc3339 rec (codes "deletionTimestamp") _ (next_none _);
  at_labels = entry_at rfc3339 rec (codes "labels") _ (next_none _);
  at_annotations = entry_at rfc3339 rec (codes "annotations") _ (next_none _);
  at_finalizers = entry_at rfc3339 rec (codes "finalizers") _ (next_none _);
  at_managed = entry_at rfc3339 rec (codes "managedFields") _ (next_none _);
  at_owners = entry_at rfc3339 rec (codes "ownerReferences") _ (next_none _);
}
  where
    next_none : (o : Option MetaValue) → or_next o none ≡ or_next o none
    next_none o = refl

pub decode_meta-ReadsBack :
    (rfc3339 : ℕ → Bytes) (parse : Bytes → Option ℕ) (is_managed is_owners : Bytes → Bool)
    (base rec : MetaRecord) (m : GoMap MetaValue)
    → ReadsTimes rfc3339 parse
    → is_bad is_managed rec.managed_fields ≡ false
    → is_bad is_owners rec.owner_references ≡ false
    → ReadsBack rfc3339 rec m
    → decode_meta parse is_managed is_owners base m
      ≡ ok (record base {
        uid = rec.uid;
        creation_timestamp = to_wire rec.creation_timestamp;
        deletion_timestamp = to_wire rec.deletion_timestamp;
        labels = rec.labels;
        annotations = rec.annotations;
        finalizers = rec.finalizers;
        managed_fields = rec.managed_fields;
        owner_references = rec.owner_references;
      })
unfolding decode_meta
decode_meta-ReadsBack rfc3339 parse is_managed is_owners base rec m times hm ho back =
    simp
      (
        back.at_uid,
        back.at_creation,
        back.at_deletion,
        back.at_labels,
        back.at_annotations,
        back.at_finalizers,
        back.at_managed,
        back.at_owners,
        text_in-unless_empty rec.uid,
        text_in-unless_empty rec.managed_fields,
        text_in-unless_empty rec.owner_references,
        time_in-time_value rfc3339 parse rec.creation_timestamp times,
        time_in-time_value rfc3339 parse rec.deletion_timestamp times,
        map_in-map_value rec.labels,
        map_in-map_value rec.annotations,
        list_in-list_value rec.finalizers,
        hm,
        ho,
      )
      refl

-- A record of a group that is encoded and decoded is the record again, in whole seconds, with the lock that
-- the wire keeps and without the host's UID and version, when its raw fields are empty or JSON of their
-- types and times are read as they are written.
pub decode_record-encode_record :
    (rfc3339 : ℕ → Bytes) (parse : Bytes → Option ℕ) (is_managed is_owners : Bytes → Bool)
    (rec : MetaRecord) (fallback : ResourceRef)
    → ReadsTimes rfc3339 parse
    → str_empty rec.ref.group ≡ false
    → is_bad is_managed rec.managed_fields ≡ false
    → is_bad is_owners rec.owner_references ≡ false
    → decode_record parse is_managed is_owners (encode_record rfc3339 rec) fallback
      ≡ ok (as_stored rec)
unfolding decode_record encode_record
decode_record-encode_record rfc3339 parse is_managed is_owners rec fallback times hg hm ho =
    rw
      (decode_meta-ReadsBack rfc3339 parse is_managed is_owners _ rec _ times hm ho
        (given-ReadsBack rfc3339 rec))
      (rw hg refl)
