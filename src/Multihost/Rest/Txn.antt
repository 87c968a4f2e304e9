-- ===== src/Multihost/Rest/Txn.antt =====
-- `write` of runtime/library/multihost/adapter.go: the locked-write transaction, or a single attempt.
use aggexp.Prelude.{ℕ, ◌+◌, not, ◌&&◌, [], Option, none, some, if◌then◌else◌}
use aggexp.Text.{Bytes, str_eq, str_empty}
use aggexp.Kube.{Result, ok, err, internal, conflict}
use aggexp.Multihost.Ref.{ResourceRef, Body}
use aggexp.Multihost.Signature.{MetaRecord}
use aggexp.Multihost.MetaStore.{Record, MetaApi}
use aggexp.Multihost.BodyStore.{NegCache, put}
use aggexp.Multihost.BodyStore.Hash.{hash_body}
use aggexp.Multihost.Lock.{Locker}
use aggexp.Multihost.Lock.Txn.{WriteOp, TxnResult, write_txn}
use aggexp.Multihost.MetaCache.{full, get_from_cache, get_record_direct, delete_record}
use aggexp.Multihost.MetaCache as MetaCache
use aggexp.Multihost.Rest.{Rest, Replica, at_world}

-- The metadata record, and after how many retries.
pub record Written : Type 0 where
  pub stored : MetaRecord
  pub depth : ℕ

module _ {World Json Obj : Type 0} (r : Rest World Json Obj) where
  -- `occ`: a version of the client's that is not the current one is a conflict; an empty one, on either
  -- side, passes.
  unfoldable pub occ_check : Bytes → Bytes → Bytes → Result (Unit {0})
  occ_check name client_rv cur_rv =
      if not (str_empty client_rv) && (not (str_empty cur_rv) && not (str_eq client_rv cur_rv))
      then err (conflict name)
      else ok tt

  abbrev pub fresh_record : ResourceRef → MetaRecord
  fresh_record ref = record {
    ref = ref;
    record_uid = [];
    record_rv = [];
    uid = [];
    creation_timestamp = none;
    deletion_timestamp = none;
    labels = [];
    annotations = [];
    finalizers = [];
    managed_fields = [];
    owner_references = [];
    body_hash = [];
    lock = none;
  }

  abbrev pub or_fresh : ResourceRef → Option MetaRecord → MetaRecord
  or_fresh ref none = fresh_record ref
  or_fresh ref (some rec) = rec

  abbrev pub or_time : Option ℕ → Option ℕ → Option ℕ
  or_time (some t) d = some t
  or_time none d = d

  -- Identity and times that the object does not carry are those of the record in the cache.
  abbrev pub inherit : MetaRecord → Option MetaRecord → MetaRecord
  inherit rec none = rec
  inherit rec (some prior) = record rec {
    uid = if str_empty rec.uid then prior.uid else rec.uid;
    creation_timestamp = or_time rec.creation_timestamp prior.creation_timestamp;
    deletion_timestamp = or_time rec.deletion_timestamp prior.deletion_timestamp;
  }

  abbrev pub complete : Body Json → Bytes → ℕ → MetaRecord → MetaRecord
  complete body uuid now rec = record rec {
    uid = if str_empty rec.uid then uuid else rec.uid;
    creation_timestamp = or_time rec.creation_timestamp (some now);
    body_hash = hash_body r.sha256 r.show body;
  }

  unfoldable pub build_record :
      Replica World → ResourceRef → Obj → Body Json → Replica World × MetaRecord
  build_record s ref obj body =
      let rec =
        inherit (or_fresh ref (r.conv_record obj ref)) (get_from_cache r.store s.world ref) in
      let (v, uuid) = r.new_uuid s.world in
      if str_empty rec.uid
      then (at_world r s v, complete body uuid (r.now v) rec)
      else (s, complete body uuid (r.now s.world) rec)

  abbrev pub carry : {A : Type 0} → Replica World → World × A → Replica World × A
  carry s (w, a) = (at_world r s w, a)

  -- The client of the metadata store, for a replica that carries its own state along.
  abbrev pub meta_api : ResourceRef → MetaApi (Replica World) MetaRecord
  meta_api ref =
      let api = r.store.at ref in
      record {
        get = λ s. carry s (api.get s.world);
        create = λ s raw. carry s (api.create s.world raw);
        update = λ s raw. carry s (api.update s.world raw);
        now = λ s. api.now s.world;
        ticks = λ s. api.ticks s.world;
        bare = api.bare;
        decode_content = api.decode_content;
      }

  abbrev pub as_commit : Replica World × MetaRecord → Replica World × Result (Record MetaRecord)
  as_commit (s, rec) = (s, ok (record { record_rv = rec.record_rv; content = rec }))

  abbrev pub with_neg :
      Replica World → World × (NegCache × Result (Unit {0})) → Replica World × Result (Unit {0})
  with_neg s (w, (neg, result)) = (record s { world = w; neg = neg }, result)

  abbrev pub write_body :
      ResourceRef → Body Json → Replica World → Replica World × Result (Unit {0})
  write_body ref body s =
      with_neg s (put r.sha256 r.bodies s.world s.neg ref.namespace ref.name body)

  -- A retry is counted, and then the transaction pauses.
  abbrev pub write_op :
      (World → ℕ → World) → ResourceRef → Obj → Body Json → WriteOp (Replica World) MetaRecord
  write_op pause ref obj body = record {
    write_body = write_body ref body;
    build_record = λ s n. as_commit (build_record s ref obj body);
    before_retry = λ s n. record s {
      world = pause s.world n;
      counters = record (s.counters) { write_retry = s.counters.write_retry + 1 };
    };
  }

  abbrev pub as_written :
      Replica World × Result (TxnResult MetaRecord) → Replica World × Result Written
  as_written (s, err e) = (s, err e)
  as_written (s, ok t) = (s, ok (record { stored = full t.committed; depth = t.depth }))

  abbrev pub after_put : Replica World → World × Result MetaRecord → Replica World × Result Written
  after_put s (w, err e) = (at_world r s w, err internal)
  after_put s (w, ok rec) = (at_world r s w, ok (record { stored = rec; depth = 0 }))

  abbrev pub after_body :
      ResourceRef
      → Obj
      → Body Json
      → Replica World × Result (Unit {0})
      → Replica World × Result Written
  after_body ref obj body (s, err e) = (s, err internal)
  after_body ref obj body (s, ok done) =
      let (t, rec) = build_record s ref obj body in after_put t (MetaCache.put r.store t.world rec)

  abbrev pub rv_of : Option MetaRecord → Bytes
  rv_of none = []
  rv_of (some rec) = rec.record_rv

  abbrev pub after_occ :
      Replica World
      → ResourceRef
      → Obj
      → Body Json
      → Result (Unit {0})
      → Replica World × Result Written
  after_occ s ref obj body (err e) = (s, err e)
  after_occ s ref obj body (ok passed) = after_body ref obj body (write_body ref body s)

  abbrev pub write_with :
      (World → ℕ → World)
      → Option Locker
      → Replica World
      → ResourceRef
      → Obj
      → Body Json
      → Bytes
      → Replica World × Result Written
  write_with pause (some l) s ref obj body client_rv = as_written (
      write_txn (meta_api ref) l ref.name (write_op pause ref obj body)
        (some (occ_check ref.name client_rv)) s)
  write_with pause none s ref obj body client_rv =
      let (w, rec) = get_record_direct r.store s.world ref in
      after_occ (at_world r s w) ref obj body (occ_check ref.name client_rv (rv_of rec))

  unfoldable pub write :
      (World → ℕ → World)
      → Replica World
      → ResourceRef
      → Obj
      → Body Json
      → Bytes
      → Replica World × Result Written
  write pause s ref obj body client_rv = write_with pause r.locker s ref obj body client_rv
