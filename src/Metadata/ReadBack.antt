-- ===== src/Metadata/ReadBack.antt =====
-- Reading what has just been written.
use aggexp.Prelude.{◌≡◌, refl, ap, ◌∙◌, [], none, some, false, ◌⊎◌, inl, inr, if_ind}
use aggexp.Text.{Bytes, str_empty}
use aggexp.Kube.{ApiError, Result, ok, err, is_not_found}
use aggexp.Multihost.Signature.{MetaRecord}
use aggexp.Multihost.MetaStore.{to_wire}
use aggexp.Multihost.Encoding.{RecordCr, is_bad, plain_record}
use aggexp.Multihost.Encoding.RecordRoundTrip.{ReadsTimes, given-ReadsBack, decode_meta-ReadsBack}
use aggexp.Metadata.{
  Client, Store, name_of, decode_section, encode, got, get, decode, stored, put_on, put,
}

-- A successful write returns the reference and the metadata that it was given, and in the world that it leaves
-- the name reads as the resource that it returned. The UID and the version are the host's.
abbrev pub Shown :
    {World : Type 0} → Client World → Bytes → RecordCr → World × Result RecordCr → Type 0
Shown c name sent (v, ok u) =
    (u.metadata ≡ sent.metadata) × ((u.ref ≡ sent.ref) × ((c.get v name).1 ≡ ok u))
Shown c name sent (v, err e) = Unit

module _ {World : Type 0} (s : Store World) where
  pub record IsFresh : Type 0 where
    pub shows_created :
        (w : World) (name : Bytes) (u : RecordCr) → Shown s.client name u (s.client.create w name u)
    pub shows_updated :
        (w : World) (name : Bytes) (u : RecordCr) → Shown s.client name u (s.client.update w name u)

  -- The record as the store keeps it: in whole seconds, with the host's UID and version, and without the
  -- hash and the lock.
  abbrev pub as_kept : MetaRecord → RecordCr → MetaRecord
  as_kept rec u = record rec {
    record_uid = u.cr_uid;
    record_rv = u.version;
    creation_timestamp = to_wire rec.creation_timestamp;
    deletion_timestamp = to_wire rec.deletion_timestamp;
    body_hash = [];
    lock = none;
  }

  -- An error that the host gave for the name.
  abbrev pub IsHostError : Bytes → ApiError → Type 0
  IsHostError name e =
      (w : World) × (((s.client.get w name).1 ≡ err e)
        ⊎ ((u : RecordCr) × (((s.client.create w name u).1 ≡ err e)
              ⊎ ((s.client.update w name u).1 ≡ err e))))

  abbrev pub ReadsBack : MetaRecord → World × Result MetaRecord → Type 0
  ReadsBack rec (v, ok result) =
      (u : RecordCr) × (((s.client.get v (name_of s rec.ref)).1 ≡ ok u)
        × ((result ≡ as_kept rec u) × ((get s v rec.ref).1 ≡ ok (some (as_kept rec u)))))
  ReadsBack rec (v, err e) = IsHostError (name_of s rec.ref) e

  module _ (rec : MetaRecord) (times : ReadsTimes s.rfc3339 s.parse)
      (managed : is_bad s.is_managed rec.managed_fields ≡ false)
      (owners : is_bad s.is_owners rec.owner_references ≡ false) where
    decode_kept :
        (u : RecordCr)
        → u.metadata ≡ (encode s rec).metadata
        → u.ref ≡ rec.ref
        → decode s u rec.ref ≡ ok (as_kept rec u)
    unfolding decode encode
    decode_kept u same named =
        ap (decode_section s (plain_record s.parse s.is_managed s.is_owners u rec.ref)) same
        ∙ decode_meta-ReadsBack s.rfc3339 s.parse s.is_managed s.is_owners _ rec _ times managed
            owners (given-ReadsBack s.rfc3339 rec)
        ∙ ap (λ r. ok (record (as_kept rec u) { ref = r }))
            (if_ind (λ r. r ≡ rec.ref) (str_empty u.ref.group) _ _ (λ _. refl) (λ _. named))

    got-ok :
        (x : World × Result RecordCr) (u : RecordCr)
        → x.1 ≡ ok u
        → decode s u rec.ref ≡ ok (as_kept rec u)
        → (got s rec.ref x).1 ≡ ok (some (as_kept rec u))
    got-ok x u e d = rw e (rw d refl)

    stored-ReadsBack :
        (x : World × Result RecordCr) (sent : RecordCr)
        → sent.metadata ≡ (encode s rec).metadata
        → sent.ref ≡ rec.ref
        → ((e : ApiError) → x.1 ≡ err e → IsHostError (name_of s rec.ref) e)
        → Shown s.client (name_of s rec.ref) sent x
        → ReadsBack rec (stored s rec.ref x)
    unfolding get
    stored-ReadsBack (v, ok u) sent same named fails (kept, (called, shown)) =
        let d = decode_kept u (kept ∙ same) (called ∙ named) in
        rw d (u, (shown, (refl, got-ok (s.client.get v (name_of s rec.ref)) u shown d)))
    stored-ReadsBack (v, err e) sent same named fails h = fails e refl

    put_on-ReadsBack :
        (w : World) (x : World × Result RecordCr)
        → IsFresh
        → s.client.get w (name_of s rec.ref) ≡ x
        → ReadsBack rec (put_on s rec x)
    unfolding encode
    put_on-ReadsBack w (v, ok existing) fresh found =
        stored-ReadsBack _
          (record (encode s rec) { version = existing.version; cr_uid = existing.cr_uid }) refl refl
          (λ e failed. (v, inr (_, inr failed))) (fresh.shows_updated v (name_of s rec.ref) _)
    put_on-ReadsBack w (v, err e) fresh found =
        if_ind (ReadsBack rec) (is_not_found e) _ _
          (λ _.
            stored-ReadsBack _ (encode s rec) refl refl (λ x failed. (v, inr (_, inl failed)))
              (fresh.shows_created v (name_of s rec.ref) _))
          (λ _. (w, inl (ap (λ y. y.1) found)))

    -- On a host that keeps the reference and the metadata of a successful write and shows what it returned, a
    -- put of a record whose raw fields are empty or valid, with times read as they are written, either
    -- returns an error that the host gave for the name, or returns the record in whole seconds, with the
    -- host's UID and version and without hash and lock; and a get right behind it returns just that.
    pub put-ReadsBack : (w : World) → IsFresh → ReadsBack rec (put s w rec)
    unfolding put
    put-ReadsBack w fresh = put_on-ReadsBack w (s.client.get w (name_of s rec.ref)) fresh refl
