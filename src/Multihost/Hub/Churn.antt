-- ===== src/Multihost/Hub/Churn.antt =====
-- What reaches the watchers when a metadata resource is written and nothing visible changes.
use aggexp.Prelude.{
  ℕ, ◌≡◌, refl, sym, ap, ◌∙◌, ◌⊎◌, inl, inr, List, [], ◌∷◌, Option, none, some, All, if◌then◌else◌,
  Bool-cases,
}
use aggexp.Text.{Bytes, str_eq, str_eq_refl, str_eq_iff}
use aggexp.GoMap.{GoMap, lookup, insert, lookup-insert_self}
use aggexp.Kube.{Accessor, EventType, added, modified}
use aggexp.ResourceVersion.{rv_less}
use aggexp.Multihost.Ref.{ResourceRef, record_name}
use aggexp.Multihost.Signature.{MetaRecord, visible_signature}
use aggexp.Multihost.Hub.{Hub, WatchStitcher, set_current_resource_version}
use aggexp.Multihost.Hub.Fanout.{on_metadata_event, filter_event, same_text}

-- Two records that a client cannot tell apart; version, lock, UID of the resource, creation time and
-- managed fields are left open.
pub record SameVisible (r s : MetaRecord) : Type 0 where
  pub same_body : s.body_hash ≡ r.body_hash
  pub same_uid : s.uid ≡ r.uid
  pub same_deletion : s.deletion_timestamp ≡ r.deletion_timestamp
  pub same_labels : s.labels ≡ r.labels
  pub same_annotations : s.annotations ≡ r.annotations
  pub same_finalizers : s.finalizers ≡ r.finalizers
  pub same_owners : s.owner_references ≡ r.owner_references

visible_signature-SameVisible :
    (rfc3339 : ℕ → Bytes) (r s : MetaRecord)
    → SameVisible r s
    → visible_signature rfc3339 s ≡ visible_signature rfc3339 r
unfolding visible_signature
visible_signature-SameVisible rfc3339 r s h =
    simp
      (
        h.same_body, h.same_uid, h.same_deletion, h.same_labels, h.same_annotations,
        h.same_finalizers, h.same_owners,
      )
      refl

-- What both the watchers and the metrics can see of an event: all of the hub but its version.
pub record IsQuiet {World Obj : Type 0} (before after : World × Hub Obj) : Type 0 where
  pub same_world : after.0 ≡ before.0
  pub same_watchers : (after.1).watchers ≡ (before.1).watchers
  pub same_counters : (after.1).counters ≡ (before.1).counters
  pub same_signatures : (after.1).last_sig ≡ (before.1).last_sig

module _ {World Obj : Type 0} (k : Accessor Obj) (stitcher : WatchStitcher World Obj)
    (sha256 : Bytes → List ℕ) (rfc3339 : ℕ → Bytes) where
  unfoldable pub on_modified :
      World × Hub Obj → ResourceRef → List (MetaRecord × Bytes) → World × Hub Obj
  on_modified (w, h) ref [] = (w, h)
  on_modified (w, h) ref ((rec, rv) ∷ l) =
      on_modified (on_metadata_event k stitcher sha256 rfc3339 w h modified ref rec rv) ref l

  seen_sig : (h : Hub Obj) (rv : Bytes) → (set_current_resource_version h rv).last_sig ≡ h.last_sig
  unfolding set_current_resource_version
  seen_sig h rv = elim (Bool-cases (rv_less h.cur_rv rv)) [
    | inl e ↦ simp e refl
    | inr e ↦ simp e refl
  ]

  seen_IsQuiet :
      (w : World) (h : Hub Obj) (rv : Bytes) → IsQuiet (w, h) (w, set_current_resource_version h rv)
  unfolding set_current_resource_version
  seen_IsQuiet w h rv = elim (Bool-cases (rv_less h.cur_rv rv)) [
    | inl e ↦ simp e (record {
      same_world = refl;
      same_watchers = refl;
      same_counters = refl;
      same_signatures = refl;
    })
    | inr e ↦ simp e (record {
      same_world = refl;
      same_watchers = refl;
      same_counters = refl;
      same_signatures = refl;
    })
  ]

  IsQuiet-trans : (a b c : World × Hub Obj) → IsQuiet a b → IsQuiet b c → IsQuiet a c
  IsQuiet-trans a b c p q = record {
    same_world = q.same_world ∙ p.same_world;
    same_watchers = q.same_watchers ∙ p.same_watchers;
    same_counters = q.same_counters ∙ p.same_counters;
    same_signatures = q.same_signatures ∙ p.same_signatures;
  }

  abbrev Knows : Hub Obj → ResourceRef → MetaRecord → Type 0
  Knows h ref r = lookup (record_name sha256 ref) h.last_sig ≡ some (visible_signature rfc3339 r)

  suppressed :
      (sigs : GoMap Bytes) (name sig : Bytes)
      → lookup name sigs ≡ some sig
      → filter_event sigs modified name sig ≡ none
  unfolding filter_event
  suppressed sigs name sig e = rw (e, str_eq_refl sig) refl

  modified-IsQuiet :
      (w : World) (h : Hub Obj) (ref : ResourceRef) (r s : MetaRecord) (rv : Bytes)
      → Knows h ref r
      → SameVisible r s
      → IsQuiet (w, h) (on_metadata_event k stitcher sha256 rfc3339 w h modified ref s rv)
  unfolding on_metadata_event
  modified-IsQuiet w h ref r s rv known same =
      rw
        (suppressed (set_current_resource_version h rv).last_sig (record_name sha256 ref)
          (visible_signature rfc3339 s)
          (ap (lookup (record_name sha256 ref)) (seen_sig h rv)
            ∙ known
            ∙ ap some (sym (visible_signature-SameVisible rfc3339 r s same))))
        (seen_IsQuiet w h rv)

  churn-IsQuiet :
      (w : World) (h : Hub Obj) (ref : ResourceRef) (r : MetaRecord) (l : List (MetaRecord × Bytes))
      → Knows h ref r
      → All (λ e. SameVisible r e.0) l
      → IsQuiet (w, h) (on_modified (w, h) ref l)
  unfolding on_modified
  churn-IsQuiet w h ref r [] known same = record {
    same_world = refl;
    same_watchers = refl;
    same_counters = refl;
    same_signatures = refl;
  }
  churn-IsQuiet w h ref r ((s, rv) ∷ l) known (here, there) =
      let after = on_metadata_event k stitcher sha256 rfc3339 w h modified ref s rv in
      let quiet = modified-IsQuiet w h ref r s rv known here in
      IsQuiet-trans (w, h) after (on_modified after ref l) quiet
        (churn-IsQuiet after.0 after.1 ref r l
          (ap (lookup (record_name sha256 ref)) quiet.same_signatures ∙ known) there)

  -- The event types that the metadata informer reports for a resource that is there.
  abbrev pub IsWrite : EventType → Type 0
  IsWrite et = (et ≡ added) ⊎ (et ≡ modified)

  filtered-Knows :
      (sigs : GoMap Bytes) (et : EventType) (name sig : Bytes)
      → IsWrite et
      → (filter_event sigs et name sig ≡ some (insert name sig sigs))
        ⊎ ((filter_event sigs et name sig ≡ none) × (lookup name sigs ≡ some sig))
  unfolding filter_event
  filtered-Knows sigs et name sig (inl e) = rw e (inl refl)
  filtered-Knows sigs et name sig (inr e) = rw e (known (lookup name sigs) refl)
    where
      known :
          (o : Option Bytes)
          → lookup name sigs ≡ o
          → ((if same_text (lookup name sigs) sig then none else some (insert name sig sigs))
              ≡ some (insert name sig sigs))
            ⊎ (((if same_text (lookup name sigs) sig then none else some (insert name sig sigs))
                  ≡ none)
                × (lookup name sigs ≡ some sig))
      known none q = rw q (inl refl)
      known (some prev) q = elim (Bool-cases (str_eq prev sig)) [
        | inl t ↦ rw (q, t) (inr (refl, ap some ((str_eq_iff prev sig).0 t)))
        | inr t ↦ rw (q, t) (inl refl)
      ]

  write-Knows :
      (w : World) (h : Hub Obj) (et : EventType) (ref : ResourceRef) (r : MetaRecord) (rv : Bytes)
      → IsWrite et
      → Knows (on_metadata_event k stitcher sha256 rfc3339 w h et ref r rv).1 ref r
  unfolding on_metadata_event
  write-Knows w h et ref r rv wrote =
      let name = record_name sha256 ref in
      let sig = visible_signature rfc3339 r in
      let seen = set_current_resource_version h rv in
      elim (filtered-Knows seen.last_sig et name sig wrote) [
        | inl e ↦ rw e (lookup-insert_self name sig seen.last_sig)
        | inr (e, q) ↦ rw e q
      ]

  -- Once the hub has handled an ADDED or MODIFIED event of a record, any number of MODIFIED events of the
  -- same resource that change nothing visible (taking, renewing or releasing its lock) send nothing to any
  -- watcher, read no body, count no fan-out and leave the remembered signatures as they are.
  pub on_modified-IsQuiet :
      (w : World) (h : Hub Obj) (et : EventType) (ref : ResourceRef) (r : MetaRecord) (rv : Bytes)
      (l : List (MetaRecord × Bytes))
      → IsWrite et
      → All (λ e. SameVisible r e.0) l
      → let after = on_metadata_event k stitcher sha256 rfc3339 w h et ref r rv in
        IsQuiet after (on_modified after ref l)
  on_modified-IsQuiet w h et ref r rv l wrote same =
      let after = on_metadata_event k stitcher sha256 rfc3339 w h et ref r rv in
      churn-IsQuiet after.0 after.1 ref r l (write-Knows w h et ref r rv wrote) same
