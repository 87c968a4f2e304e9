-- ===== src/Multihost/Rest/Reads.antt =====
-- runtime/library/multihost/adapter.go: Get, List, ReconcileList, StitchFor and the replay of a watch.
use aggexp.Prelude.{
  ◌+◌, Bool, true, false, not, ◌&&◌, ◌||◌, List, [], ◌∷◌, ◌++◌, Option, none, some, if◌then◌else◌,
}
use aggexp.Text.{Bytes, str_eq, str_empty, contains}
use aggexp.GoMap.{GoMap, lookup, insert}
use aggexp.Kube.{LabelSelector, Result, ok, err, not_found}
use aggexp.Multihost.Ref.{ResourceRef, User, Body}
use aggexp.Multihost.Signature.{MetaRecord}
use aggexp.Multihost.BodyStore.{
  BodyRef, NegCache, cache_get, get_for, list_for, get_authoritative, list_authoritative,
}
use aggexp.Multihost.BodyStore as BodyStore
use aggexp.Multihost.Hub.{object_key}
use aggexp.Multihost.MetaCache.{list_from_cache}
use aggexp.Multihost.Rest.{
  Rest, Replica, at_world, ref_for, stitch, find_record, adopt_record, collect,
}

module _ {World Json Obj : Type 0} (r : Rest World Json Obj) where
  -- Without a record: adopted when that is on, absent under read-path reconcile, else synthetic.
  abbrev pub get_stitched :
      Replica World → ResourceRef → Body Json → Option MetaRecord → Replica World × Result Obj
  get_stitched s ref body (some rec) = let (t, obj) = stitch r s ref body (some rec) in (t, ok obj)
  get_stitched s ref body none =
      let (a, rec) = adopt_record r s ref false in
      let (t, obj) = stitch r a ref body rec in
      let (p, plain) = stitch r s ref body none in
      if r.reconcile && r.adopt
      then (t, ok obj)
      else if r.reconcile
      then (s, err (not_found ref.name))
      else (p, ok plain)

  -- Behind the read of a body that is there.
  unfoldable pub get_gated :
      Replica World → Option User → ResourceRef → Body Json → Replica World × Result Obj
  get_gated s u ref body =
      let (t, rec) = find_record r s ref in
      if r.gate u body.owner then get_stitched t ref body rec else (s, err (not_found ref.name))

  abbrev pub collect_orphan : Replica World × Option MetaRecord → ResourceRef → Replica World
  collect_orphan (s, none) ref = s
  collect_orphan (s, some rec) ref = (collect r s ref rec false).0

  abbrev pub get_present :
      Replica World → Option User → ResourceRef → Option (Body Json) → Replica World × Result Obj
  get_present s u ref (some body) = get_gated s u ref body
  get_present s u ref none =
      if r.reconcile
      then (collect_orphan (find_record r s ref) ref, err (not_found ref.name))
      else (s, err (not_found ref.name))

  abbrev pub with_neg :
      Replica World → World × (NegCache × Option (Body Json)) → Replica World × Option (Body Json)
  with_neg s (w, (neg, body)) = (record s { world = w; neg = neg }, body)

  -- From the backend under read-path reconcile, else from the informer's cache.
  unfoldable pub read_body : Replica World → Bytes → Bytes → Replica World × Option (Body Json)
  read_body s namespace name =
      if r.reconcile
      then with_neg s (get_authoritative r.sha256 r.bodies s.world s.neg namespace name)
      else (s, cache_get r.sha256 r.gate (r.body_cache s.world) namespace name)

  unfoldable pub get : Replica World → Option User → Bytes → Bytes → Replica World × Result Obj
  get s u namespace name =
      let counted = record s {
        counters = record (s.counters) { served_get = s.counters.served_get + 1 };
      } in
      let (t, body) = read_body counted namespace name in
      get_present t u (ref_for r namespace name) body

  unfoldable pub matches_sel : Option LabelSelector → Obj → Bool
  matches_sel none obj = true
  matches_sel (some sel) obj =
      sel.is_empty
      || (not (r.setters.access.is_accessible obj) || sel.matches (r.setters.access.labels obj))

  abbrev pub records_by_key : Bytes → List MetaRecord → GoMap MetaRecord → GoMap MetaRecord
  records_by_key namespace [] m = m
  records_by_key namespace (rec ∷ l) m = records_by_key namespace l (
      if not (str_empty namespace) && not (str_eq rec.ref.namespace namespace)
      then m
      else insert (object_key rec.ref.namespace rec.ref.name) rec m)

  abbrev pub key_of_ref : BodyRef Json → Bytes
  key_of_ref br = object_key br.namespace br.name

  abbrev pub add_adopted :
      Bytes
      → GoMap MetaRecord
      → Replica World × Option MetaRecord
      → Replica World × GoMap MetaRecord
  add_adopted key m (s, none) = (s, m)
  add_adopted key m (s, some rec) = (s, insert key rec m)

  abbrev pub adopt_missing :
      Replica World
      → GoMap MetaRecord
      → BodyRef Json
      → Bool
      → Option MetaRecord
      → Replica World × GoMap MetaRecord
  adopt_missing s m br from_sweep (some rec) = (s, m)
  adopt_missing s m br from_sweep none =
      add_adopted (key_of_ref br) m (adopt_record r s (ref_for r br.namespace br.name) from_sweep)

  unfoldable pub adopt_all :
      Replica World
      → GoMap MetaRecord
      → List (BodyRef Json)
      → Bool
      → Replica World × GoMap MetaRecord
  adopt_all s m [] from_sweep = (s, m)
  adopt_all s m (br ∷ l) from_sweep =
      let (t, n) = adopt_missing s m br from_sweep (lookup (key_of_ref br) m) in
      adopt_all t n l from_sweep

  abbrev pub backend_keys : List (BodyRef Json) → List Bytes
  backend_keys [] = []
  backend_keys (br ∷ l) = key_of_ref br ∷ backend_keys l

  abbrev pub unless_gone :
      Bytes → MetaRecord → Replica World × Bool → Replica World × GoMap MetaRecord
  unless_gone key rec (s, gone) = (s, if gone then [] else (key, rec) ∷ [])

  abbrev pub keep_or_collect :
      Replica World → List Bytes → Bytes → MetaRecord → Bool → Replica World × GoMap MetaRecord
  keep_or_collect s keys key rec from_sweep =
      if contains keys key
      then (s, (key, rec) ∷ [])
      else unless_gone key rec (collect r s rec.ref rec from_sweep)

  -- The records of the map that are left; the code deletes while it ranges over the map.
  unfoldable pub collect_all :
      Replica World → List Bytes → GoMap MetaRecord → Bool → Replica World × GoMap MetaRecord
  collect_all s keys [] from_sweep = (s, [])
  collect_all s keys ((key, rec) ∷ m) from_sweep =
      let (t, kept) = keep_or_collect s keys key rec from_sweep in
      let (after, rest) = collect_all t keys m from_sweep in (after, kept ++ rest)

  abbrev pub backend_refs :
      Replica World → Bytes → Result (List (BodyRef Json)) → List (BodyRef Json)
  backend_refs s namespace (ok refs) = refs
  backend_refs s namespace (err e) = BodyStore.list r.sha256 r.gate (r.body_cache s.world) namespace

  unfoldable pub reconcile_list :
      Replica World → Bytes → Bool → Replica World × (List (BodyRef Json) × GoMap MetaRecord)
  reconcile_list s namespace from_sweep =
      let (w, listed) = list_authoritative r.sha256 r.bodies s.world namespace in
      let t = at_world r s w in
      let refs = backend_refs t namespace listed in
      let known = records_by_key namespace (list_from_cache r.store w) [] in
      let (a, with_adopted) = if r.adopt then adopt_all t known refs from_sweep else (t, known) in
      let (c, left) =
        if r.gc
        then collect_all a (backend_keys refs) with_adopted from_sweep
        else (a, with_adopted) in
      (c, (refs, left))

  abbrev pub is_missing : Option MetaRecord → Bool
  is_missing none = true
  is_missing (some rec) = false

  abbrev pub matching : Option LabelSelector → Replica World × Obj → Replica World × List Obj
  matching sel (s, obj) = (s, if matches_sel sel obj then obj ∷ [] else [])

  abbrev pub item_of :
      Replica World
      → (BodyRef Json → Option MetaRecord → Bool)
      → Option LabelSelector
      → BodyRef Json
      → Option MetaRecord
      → Replica World × List Obj
  item_of s wanted sel br rec =
      if wanted br rec
      then matching sel (stitch r s (ref_for r br.namespace br.name) br.body rec)
      else (s, [])

  -- The items of a list: bodies that `wanted` lets through, stitched and filtered by labels.
  unfoldable pub collect_items :
      Replica World
      → (BodyRef Json → Option MetaRecord → Bool)
      → Option LabelSelector
      → GoMap MetaRecord
      → List (BodyRef Json)
      → Replica World × List Obj
  collect_items s wanted sel recs [] = (s, [])
  collect_items s wanted sel recs (br ∷ l) =
      let (t, found) = item_of s wanted sel br (lookup (key_of_ref br) recs) in
      let (after, rest) = collect_items t wanted sel recs l in (after, found ++ rest)

  abbrev pub admits : Option User → BodyRef Json → Option MetaRecord → Bool
  admits u br rec = not (is_missing rec && not r.adopt) && r.gate u br.body.owner

  abbrev pub all_admitted : BodyRef Json → Option MetaRecord → Bool
  all_admitted br rec = true

  -- `List`: the items, before the list object is filled.
  unfoldable pub list :
      Replica World → Option User → Bytes → Option LabelSelector → Replica World × List Obj
  list s u namespace sel =
      let counted = record s {
        counters = record (s.counters) { served_list = s.counters.served_list + 1 };
      } in
      let (t, (refs, recs)) = reconcile_list counted namespace false in
      if r.reconcile
      then collect_items t (admits u) sel recs refs
      else collect_items counted all_admitted sel
          (records_by_key namespace (list_from_cache r.store s.world) [])
          (list_for r.sha256 r.gate (r.body_cache s.world) u namespace)

  abbrev pub stitch_found :
      Replica World → ResourceRef → Option (Body Json) → Replica World × Option Obj
  stitch_found s ref none = (s, none)
  stitch_found s ref (some body) =
      let (t, rec) = find_record r s ref in let (p, obj) = stitch r t ref body rec in (p, some obj)

  unfoldable pub stitch_for :
      Replica World → Option User → Bytes → Bytes → Replica World × Option Obj
  stitch_for s u namespace name =
      stitch_found s (ref_for r namespace name)
        (get_for r.sha256 r.gate (r.body_cache s.world) u namespace name)

  unfoldable pub initial_replay :
      Replica World → Bool → Option User → Bytes → Option LabelSelector → Replica World × List Obj
  initial_replay s shared_poll u namespace sel =
      collect_items s all_admitted sel (records_by_key [] (list_from_cache r.store s.world) []) (
        if shared_poll
        then BodyStore.list r.sha256 r.gate (r.body_cache s.world) namespace
        else list_for r.sha256 r.gate (r.body_cache s.world) u namespace)
