-- ===== src/Metadata.antt =====
-- runtime/component/v2/metadatastore/metadatastore.go: records of metadata in one custom resource per object.
-- The dynamic client is a parameter, as are the text of times and the checks of raw JSON. A record is that of
-- runtime/library/multihost, whose hash and lock this store neither writes nor reads.
pub mod ReadBack
mod Tests
use aggexp.Prelude.{ℕ, Bool, true, ◌&&◌, List, [], ◌∷◌, Option, none, some, if◌then◌else◌}
use aggexp.Text.{Bytes, str_eq, str_empty}
use aggexp.Kube.{Result, ok, err, internal, is_not_found}
use aggexp.Multihost.Ref.{ResourceRef, record_name}
use aggexp.Multihost.Signature.{MetaRecord}
use aggexp.Multihost.Encoding.{
  RecordCr, Section, missing, malformed, section, given, meta_entries, plain_record, decode_meta,
}

pub record Client (World : Type 0) : Type 0 where
  pub get : World → Bytes → World × Result RecordCr
  pub list : World → World × Result (List RecordCr)
  pub create : World → Bytes → RecordCr → World × Result RecordCr
  pub update : World → Bytes → RecordCr → World × Result RecordCr
  pub delete : World → Bytes → World × Result (Unit {0})

pub record Store (World : Type 0) : Type 0 where
  pub client : Client World
  pub sha256 : Bytes → List ℕ
  pub rfc3339 : ℕ → Bytes
  pub parse : Bytes → Option ℕ
  pub is_managed : Bytes → Bool
  pub is_owners : Bytes → Bool

module _ {World : Type 0} (s : Store World) where
  abbrev pub name_of : ResourceRef → Bytes
  name_of ref = record_name s.sha256 ref

  unfoldable pub encode : MetaRecord → RecordCr
  encode rec = record {
    cr_uid = [];
    version = [];
    ref = rec.ref;
    metadata = section (given (meta_entries s.rfc3339 rec));
    body_hash = [];
    lock = none;
  }

  abbrev pub decode_section : MetaRecord → Section → Result MetaRecord
  decode_section rec missing = ok rec
  decode_section rec malformed = err internal
  decode_section rec (section m) = decode_meta s.parse s.is_managed s.is_owners rec m

  unfoldable pub decode : RecordCr → ResourceRef → Result MetaRecord
  decode u fallback =
      decode_section (plain_record s.parse s.is_managed s.is_owners u fallback) u.metadata

  abbrev pub present : Result MetaRecord → Result (Option MetaRecord)
  present (ok rec) = ok (some rec)
  present (err e) = err e

  abbrev pub got : ResourceRef → World × Result RecordCr → World × Result (Option MetaRecord)
  got ref (w, ok u) = (w, present (decode u ref))
  got ref (w, err e) = (w, if is_not_found e then ok none else err e)

  unfoldable pub get : World → ResourceRef → World × Result (Option MetaRecord)
  get w ref = got ref (s.client.get w (name_of ref))

  abbrev pub no_ref : ResourceRef
  no_ref = record { group = []; resource = []; namespace = []; name = [] }

  abbrev pub add_decoded : Result MetaRecord → List MetaRecord → List MetaRecord
  add_decoded (ok rec) l = rec ∷ l
  add_decoded (err e) l = l

  -- A resource that does not decode is skipped.
  unfoldable pub matching : Bytes → Bytes → List RecordCr → List MetaRecord
  matching group resource [] = []
  matching group resource (u ∷ l) =
      let rest = matching group resource l in
      if str_eq u.ref.group group && str_eq u.ref.resource resource
      then add_decoded (decode u no_ref) rest
      else rest

  abbrev pub listed :
      Bytes → Bytes → World × Result (List RecordCr) → World × Result (List MetaRecord)
  listed group resource (w, ok l) = (w, ok (matching group resource l))
  listed group resource (w, err e) = (w, err e)

  unfoldable pub list : World → Bytes → Bytes → World × Result (List MetaRecord)
  list w group resource = listed group resource (s.client.list w)

  abbrev pub stored : ResourceRef → World × Result RecordCr → World × Result MetaRecord
  stored ref (w, ok u) = (w, decode u ref)
  stored ref (w, err e) = (w, err e)

  abbrev pub put_on : MetaRecord → World × Result RecordCr → World × Result MetaRecord
  put_on rec (w, err e) =
      if is_not_found e
      then stored rec.ref (s.client.create w (name_of rec.ref) (encode rec))
      else (w, err e)
  put_on rec (w, ok existing) = stored rec.ref (
      s.client.update w (name_of rec.ref)
        (record (encode rec) { version = existing.version; cr_uid = existing.cr_uid }))

  -- Create or update, on the version that is read first.
  unfoldable pub put : World → MetaRecord → World × Result MetaRecord
  put w rec = put_on rec (s.client.get w (name_of rec.ref))

  abbrev pub absent_ok : World × Result (Unit {0}) → World × Result (Unit {0})
  absent_ok (w, ok done) = (w, ok tt)
  absent_ok (w, err e) = (w, if is_not_found e then ok tt else err e)

  unfoldable pub delete : World → ResourceRef → World × Result (Unit {0})
  delete w ref = absent_ok (s.client.delete w (name_of ref))
