-- ===== src/Multihost/Rest/Allowed.antt =====
-- What the adapter's reads and its watches show, against what the identity gate allows.
use aggexp.Prelude.{
  ◌≡◌, refl, ap, Bool, true, false, ◌&&◌, List, [], ◌∷◌, ◌++◌, Option, none, some, All, arith,
  if_ind, keep, ◌+◌, if◌then◌else◌,
}
use aggexp.Text.{Bytes}
use aggexp.GoMap.{GoMap, lookup}
use aggexp.Kube.{LabelSelector, Result, ok, err}
use aggexp.Multihost.Ref.{ResourceRef, User, Body}
use aggexp.Multihost.Signature.{MetaRecord}
use aggexp.Multihost.BodyStore.{
  BodyRef, get_for, cache_get, visible_to, in_namespace, list_for, cache_list,
}
use aggexp.Multihost.BodyStore.Visible.{All-sort_body_refs}
use aggexp.Multihost.Rest.{Rest, Replica, ref_for, stitch, find_record, adopt_record}
use aggexp.Multihost.Rest.Reads.{
  get, get_gated, get_stitched, get_present, read_body, list, collect_items, item_of, matches_sel,
  admits, initial_replay, all_admitted, stitch_for, stitch_found, key_of_ref,
}

module _ {World Json Obj : Type 0} (r : Rest World Json Obj) where
  -- The object is the stitching of a body that the caller may see, in some state of the replica.
  abbrev pub IsAllowed : Option User → Obj → Type 0
  IsAllowed u obj =
      (s : Replica World) × ((ref : ResourceRef) × ((body : Body Json) × ((rec : Option MetaRecord)
            × ((r.gate u body.owner ≡ true) × ((stitch r s ref body rec).1 ≡ obj)))))

  abbrev IsAnswerAllowed : Option User → Result Obj → Type 0
  IsAnswerAllowed u (ok obj) = IsAllowed u obj
  IsAnswerAllowed u (err e) = Unit

  get_stitched-allowed :
      (s : Replica World) (u : Option User) (ref : ResourceRef) (body : Body Json)
      (rec : Option MetaRecord)
      → r.gate u body.owner ≡ true
      → IsAnswerAllowed u (get_stitched r s ref body rec).1
  get_stitched-allowed s u ref body (some rec) h = (s, (ref, (body, (some rec, (h, refl)))))
  get_stitched-allowed s u ref body none h =
      let (a, rec) = adopt_record r s ref false in
      if_ind (λ (x : Replica World × Result Obj). IsAnswerAllowed u x.1) (r.reconcile && r.adopt) _
        _ (λ _. (a, (ref, (body, (rec, (h, refl))))))
        (λ _.
          if_ind (λ (x : Replica World × Result Obj). IsAnswerAllowed u x.1) r.reconcile _ _
            (λ _. tt) (λ _. (s, (ref, (body, (none, (h, refl)))))))

  get_gated-allowed :
      (s : Replica World) (u : Option User) (ref : ResourceRef) (body : Body Json)
      → IsAnswerAllowed u (get_gated r s u ref body).1
  unfolding get_gated
  get_gated-allowed s u ref body =
      if_ind (λ (x : Replica World × Result Obj). IsAnswerAllowed u x.1) (r.gate u body.owner) _ _
        (λ e. get_stitched-allowed (find_record r s ref).0 u ref body (find_record r s ref).1 e)
        (λ _. tt)

  get_present-allowed :
      (s : Replica World) (u : Option User) (ref : ResourceRef) (body : Option (Body Json))
      → IsAnswerAllowed u (get_present r s u ref body).1
  get_present-allowed s u ref (some body) = get_gated-allowed s u ref body
  get_present-allowed s u ref none =
      if_ind (λ (x : Replica World × Result Obj). IsAnswerAllowed u x.1) r.reconcile _ _ (λ _. tt)
        (λ _. tt)

  answered :
      (u : Option User) (a : Result Obj) (obj : Obj)
      → IsAnswerAllowed u a
      → a ≡ ok obj
      → IsAllowed u obj
  answered u a obj h e = rw e at h

  both : (a b : Bool) → (a && b) ≡ true → (a ≡ true) × (b ≡ true)
  both a b h = ground arith

  get-IsAllowed :
      (s : Replica World) (u : Option User) (namespace name : Bytes) (obj : Obj)
      → (get r s u namespace name).1 ≡ ok obj
      → IsAllowed u obj
  unfolding get
  get-IsAllowed s u namespace name obj e =
      let counted = record s {
        counters = record (s.counters) { served_get = s.counters.served_get + 1 };
      } in
      let (t, body) = read_body r counted namespace name in
      answered u (get_present r t u (ref_for r namespace name) body).1 obj
        (get_present-allowed t u (ref_for r namespace name) body) e

  abbrev Admitted : Option User → BodyRef Json → Type 0
  Admitted u br = r.gate u br.body.owner ≡ true

  All-append : {A : Type 0} (P : A → Type 0) (l m : List A) → All P l → All P m → All P (l ++ m)
  All-append P [] m h q = q
  All-append P (x ∷ l) m (p, h) q = (p, All-append P l m h q)

  item_of-IsAllowed :
      (s : Replica World) (u : Option User) (wanted : BodyRef Json → Option MetaRecord → Bool)
      (sel : Option LabelSelector) (br : BodyRef Json) (rec : Option MetaRecord)
      → (wanted br rec ≡ true → Admitted u br)
      → All (IsAllowed u) (item_of r s wanted sel br rec).1
  item_of-IsAllowed s u wanted sel br rec h =
      let ref = ref_for r br.namespace br.name in
      if_ind (λ (x : Replica World × List Obj). All (IsAllowed u) x.1) (wanted br rec) _ _
        (λ e.
          if_ind (All (IsAllowed u)) (matches_sel r sel (stitch r s ref br.body rec).1) _ _
            (λ _. ((s, (ref, (br.body, (rec, (h e, refl))))), tt)) (λ _. tt))
        (λ _. tt)

  abbrev OnlyAdmits :
      Option User → (BodyRef Json → Option MetaRecord → Bool) → BodyRef Json → Type 0
  OnlyAdmits u wanted br = (rec : Option MetaRecord) → wanted br rec ≡ true → Admitted u br

  collect_items-IsAllowed :
      (s : Replica World) (u : Option User) (wanted : BodyRef Json → Option MetaRecord → Bool)
      (sel : Option LabelSelector) (recs : GoMap MetaRecord) (l : List (BodyRef Json))
      → All (OnlyAdmits u wanted) l
      → All (IsAllowed u) (collect_items r s wanted sel recs l).1
  unfolding collect_items
  collect_items-IsAllowed s u wanted sel recs [] h = tt
  collect_items-IsAllowed s u wanted sel recs (br ∷ l) (p, h) =
      let rec = lookup (key_of_ref r br) recs in
      All-append (IsAllowed u) _ _ (item_of-IsAllowed s u wanted sel br rec (p rec))
        (collect_items-IsAllowed (item_of r s wanted sel br rec).0 u wanted sel recs l h)

  admits-admitted : (u : Option User) (l : List (BodyRef Json)) → All (OnlyAdmits u (admits r u)) l
  admits-admitted u [] = tt
  admits-admitted u (br ∷ l) = (λ rec e. (both _ _ e).1, admits-admitted u l)

  kept-admitted :
      (u : Option User) (namespace : Bytes) (l : List (BodyRef Json))
      → All
          (OnlyAdmits u (all_admitted r))
          (keep (λ br. in_namespace namespace br && r.gate u br.body.owner) l)
  kept-admitted u namespace [] = tt
  kept-admitted u namespace (br ∷ l) =
      if_ind (All (OnlyAdmits u (all_admitted r)))
        (in_namespace namespace br && r.gate u br.body.owner) _ _
        (λ e. (λ rec _. (both _ _ e).1, kept-admitted u namespace l))
        (λ _. kept-admitted u namespace l)

  list_for-admitted :
      (w : World) (u : Option User) (namespace : Bytes)
      → All (OnlyAdmits u (all_admitted r)) (list_for r.sha256 r.gate (r.body_cache w) u namespace)
  unfolding list_for cache_list
  list_for-admitted w u namespace = All-sort_body_refs _ _ (kept-admitted u namespace _)

  list-IsAllowed :
      (s : Replica World) (u : Option User) (namespace : Bytes) (sel : Option LabelSelector)
      → All (IsAllowed u) (list r s u namespace sel).1
        × All (IsAllowed u) (initial_replay r s false u namespace sel).1
  unfolding list initial_replay
  list-IsAllowed s u namespace sel = (
    if_ind (λ (x : Replica World × List Obj). All (IsAllowed u) x.1) r.reconcile _ _
        (λ _. collect_items-IsAllowed _ u (admits r u) sel _ _ (admits-admitted u _))
        (λ _.
          collect_items-IsAllowed _ u (all_admitted r) sel _ _
            (list_for-admitted s.world u namespace)),
    collect_items-IsAllowed _ u (all_admitted r) sel _ _ (list_for-admitted s.world u namespace),
  )

  visible-admitted :
      (s : Replica World) (u : Option User) (ref : ResourceRef) (o : Option (Body Json)) (obj : Obj)
      → (stitch_found r s ref (visible_to r.sha256 r.gate (r.body_cache s.world) u o)).1 ≡ some obj
      → IsAllowed u obj
  visible-admitted s u ref none obj e = absurd (ground (arith, e))
  visible-admitted s u ref (some body) obj e = seen (r.gate u body.owner) refl e
    where
      or_else : Obj → Option Obj → Obj
      or_else d none = d
      or_else d (some o) = o

      seen :
          (b : Bool)
          → r.gate u body.owner ≡ b
          → (stitch_found r s ref (if b then some body else none)).1 ≡ some obj
          → IsAllowed u obj
      seen true admitted e =
          let (t, rec) = find_record r s ref in
          (t, (ref, (body, (rec, (admitted, ap (or_else (stitch r t ref body rec).1) e)))))
      seen false admitted e = absurd (ground (arith, e))

  -- What the adapter stitches for a watcher is the stitching of a body that the watcher may see.
  pub stitch_for-IsAllowed :
      (s : Replica World) (u : Option User) (namespace name : Bytes) (obj : Obj)
      → (stitch_for r s u namespace name).1 ≡ some obj
      → IsAllowed u obj
  unfolding stitch_for get_for
  stitch_for-IsAllowed s u namespace name obj e =
      visible-admitted s u (ref_for r namespace name)
        (cache_get r.sha256 r.gate (r.body_cache s.world) namespace name) obj e

  -- Whether bodies are read from the backend or from the cache, and whether records are adopted or not, what
  -- a caller gets is the stitching of a body that the gate lets the caller see: the object of a Get, every
  -- item of a List, every object of the replay of a watch outside shared-poll mode, and what is stitched
  -- for a watcher.
  pub reads-AreAllowed :
      (s : Replica World) (u : Option User) (namespace name : Bytes) (sel : Option LabelSelector)
      → ((obj : Obj) → (get r s u namespace name).1 ≡ ok obj → IsAllowed u obj)
        × All (IsAllowed u) (list r s u namespace sel).1
        × All (IsAllowed u) (initial_replay r s false u namespace sel).1
        × ((obj : Obj) → (stitch_for r s u namespace name).1 ≡ some obj → IsAllowed u obj)
  reads-AreAllowed s u namespace name sel =
      let (listed, replayed) = list-IsAllowed s u namespace sel in
      (get-IsAllowed s u namespace name, listed, replayed, stitch_for-IsAllowed s u namespace name)
