-- ===== src/Multihost/Rest/Stale.antt =====
-- Writes from a copy that is out of date.
use aggexp.Prelude.{
  ℕ, zero, suc, ◌≡◌, ◌<◌, refl, sym, ap, [], ◌∷◌, Option, none, some, arith, if◌then◌else◌,
}
use aggexp.Text.{Bytes, str_empty, str_eq-false}
use aggexp.Kube.{Result, ok, err, conflict, is_not_found}
use aggexp.Multihost.Ref.{ResourceRef, Body}
use aggexp.Multihost.Signature.{MetaRecord}
use aggexp.Multihost.MetaStore.{Raw, Record, get_direct, decode_record, decoded, present_record}
use aggexp.Multihost.MetaCache.{get_record_direct, full_or_nil}
use aggexp.Multihost.Lock.{Locker}
use aggexp.Multihost.Lock.Txn.{WriteOp, write_txn, attempts, attempts_of, attempt, served_rv}
use aggexp.Multihost.Rest.{Rest, Replica, at_world}
use aggexp.Multihost.Rest.Txn.{
  occ_check, write, write_with, write_op, meta_api, carry, rv_of, as_written,
}

module _ {World Json Obj : Type 0} (r : Rest World Json Obj) where
  -- What a read of the object's metadata resource returns: the world after it, and the version.
  abbrev pub read_version : Replica World → ResourceRef → World × Bytes
  read_version s ref = let (w, rec) = get_record_direct r.store s.world ref in (w, rv_of r rec)

  occ_check-conflict :
      (name client_rv cur_rv : Bytes)
      → ¬ (client_rv ≡ [])
      → ¬ (cur_rv ≡ [])
      → ¬ (client_rv ≡ cur_rv)
      → occ_check r name client_rv cur_rv ≡ err (conflict name)
  unfolding occ_check str_empty
  occ_check-conflict name [] cur_rv hc hr hn = absurd (hc refl)
  occ_check-conflict name (c ∷ s) [] hc hr hn = absurd (hr refl)
  occ_check-conflict name (c ∷ s) (d ∷ t) hc hr hn = rw (str_eq-false (c ∷ s) (d ∷ t) hn) refl

  same_version :
      (ref : ResourceRef) (l : Locker) (op : WriteOp (Replica World) MetaRecord)
      (c : Option (Bytes → Result (Unit {0}))) (w : World) (o : Result (Option (Record MetaRecord)))
      → ((full_or_nil r.store (w, o)).0 ≡ w)
        × (served_rv (meta_api r ref) l ref.name op c o ≡ rv_of r (full_or_nil r.store (w, o)).1)
  same_version ref l op c w (ok none) = (refl, refl)
  same_version ref l op c w (ok (some rec)) = (refl, refl)
  same_version ref l op c w (err e) = (refl, refl)

  -- The read of the transaction is that of the single attempt.
  decoded-carry :
      (s : Replica World) (ref : ResourceRef) (l : Locker) (op : WriteOp (Replica World) MetaRecord)
      (c : Option (Bytes → Result (Unit {0}))) (x : World × Result (Raw MetaRecord))
      → ((decoded (meta_api r ref) (carry r s x)).0
          ≡ at_world r s (full_or_nil r.store (decoded (r.store.at ref) x)).0)
        × (served_rv (meta_api r ref) l ref.name op c (decoded (meta_api r ref) (carry r s x)).1
            ≡ rv_of r (full_or_nil r.store (decoded (r.store.at ref) x)).1)
  unfolding decode_record
  decoded-carry s ref l op c (w, ok raw) =
      let (same, version) =
        same_version ref l op c w
          (present_record (r.store.at ref) (decode_record (r.store.at ref) raw)) in
      (ap (at_world r s) (sym same), version)
  decoded-carry s ref l op c (w, err e) =
      let (same, version) = same_version ref l op c w (if is_not_found e then ok none else err e) in
      (ap (at_world r s) (sym same), version)

  -- A transaction makes at least one attempt.
  abbrev pub Attempts : Option Locker → Type 0
  Attempts none = Unit
  Attempts (some l) = 0 < attempts_of l

  first_attempt-conflict :
      (pause : World → ℕ → World) (l : Locker) (s : Replica World) (ref : ResourceRef) (obj : Obj)
      (body : Body Json) (client_rv : Bytes) (left : ℕ)
      → occ_check r ref.name client_rv (read_version s ref).1 ≡ err (conflict ref.name)
      → attempts
          (meta_api r ref)
          l
          ref.name
          (write_op r pause ref obj body)
          (some (occ_check r ref.name client_rv))
          (suc left)
          0
          s
        ≡ (at_world r s (read_version s ref).0, err (conflict ref.name))
  unfolding attempts attempt get_direct get_record_direct
  first_attempt-conflict pause l s ref obj body client_rv left stale =
      let (same, version) =
        decoded-carry s ref l (write_op r pause ref obj body)
          (some (occ_check r ref.name client_rv)) ((r.store.at ref).get s.world) in
      rw (version, stale, same) refl

  write_with-conflict :
      (pause : World → ℕ → World) (o : Option Locker) (s : Replica World) (ref : ResourceRef)
      (obj : Obj) (body : Body Json) (client_rv : Bytes)
      → Attempts o
      → occ_check r ref.name client_rv (read_version s ref).1 ≡ err (conflict ref.name)
      → write_with r pause o s ref obj body client_rv
        ≡ (at_world r s (read_version s ref).0, err (conflict ref.name))
  unfolding write_txn
  write_with-conflict pause none s ref obj body client_rv tried stale = rw stale refl
  write_with-conflict pause (some l) s ref obj body client_rv tried stale =
      by_count (attempts_of l) tried
    where
      by_count :
          (n : ℕ)
          → 0 < n
          → as_written r (
              attempts
                (meta_api r ref)
                l
                ref.name
                (write_op r pause ref obj body)
                (some (occ_check r ref.name client_rv))
                n
                0
                s)
            ≡ (at_world r s (read_version s ref).0, err (conflict ref.name))
      by_count zero h = absurd (omega (arith, h))
      by_count (suc n) h =
          ap (as_written r) (first_attempt-conflict pause l s ref obj body client_rv n stale)

  -- With a lock or without, a write whose client names another version than the one that the object's
  -- record is read with, neither of them empty, is refused with a conflict; the read is all that has
  -- happened then: neither lock, body nor record has been written.
  pub write-conflict :
      (pause : World → ℕ → World) (s : Replica World) (ref : ResourceRef) (obj : Obj)
      (body : Body Json) (client_rv : Bytes)
      → Attempts r.locker
      → ¬ (client_rv ≡ [])
      → ¬ ((read_version s ref).1 ≡ [])
      → ¬ (client_rv ≡ (read_version s ref).1)
      → write r pause s ref obj body client_rv
        ≡ (at_world r s (read_version s ref).0, err (conflict ref.name))
  unfolding write
  write-conflict pause s ref obj body client_rv tried hc hr hn =
      write_with-conflict pause r.locker s ref obj body client_rv tried
        (occ_check-conflict ref.name client_rv (read_version s ref).1 hc hr hn)
