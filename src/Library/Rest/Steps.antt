-- ===== src/Library/Rest/Steps.antt =====
-- Calls of the adapter as steps, and what every sequence of them keeps.
use aggexp.Prelude.{
  ℕ, ◌+◌, ◌%◌, ◌^◌, ◌≤◌, ◌<◌, ◌≡◌, refl, true, List, [], ◌∷◌, ◌++◌, Option, none, some, arith,
  Bool-cases, inl, inr,
}
use aggexp.Text.{Bytes, str_eq}
use aggexp.Decimal.{max_u64, format_uint}
use aggexp.GoMap.{lookup, lookup-insert, lookup-delete}
use aggexp.Kube.{Accessor, IsLawful, Event, EventType}
use aggexp.Library.Objects.{stamp_rv, object_name}
use aggexp.Library.Occ.{OccTracker, record_rv, delete_rv}
use aggexp.Library.Rest.{
  Options, Rest, publish_recorded, publish_added, publish_modified, publish_deleted, record_in,
  forget_in,
}
use aggexp.Library.Rest.Writing.{
  Validation, UpdateCall, create, create_with, create_valid, publish_stored, update, update_with,
  update_current, store_update, publish_updated, Current, found, missing, failed, classify,
  delete_with, delete_valid, publish_removed, run_validation, prepare_found, prepare_missing,
}
use aggexp.Library.Rest.Writing

-- A call of the adapter, by a client or by the publisher.
pub data Call (Obj User : Type 0) : Type 0 where
  creates : Option User → Obj → Validation Obj → Call Obj User
  updates : Option User → Bytes → UpdateCall Obj → Call Obj User
  deletes : Option User → Bytes → Validation Obj → Call Obj User
  publishes_added publishes_modified publishes_deleted : Obj → Call Obj User

module _ {Obj User Store : Type 0} (k : Accessor Obj) (opts : Options Obj User Store) where
  unfoldable pub step : Rest Obj Store → Call Obj User → Rest Obj Store
  step r (creates u obj valid) = (create k opts r u obj valid).0
  step r (updates u name c) = (update k opts r u name c).0
  step r (deletes u name valid) = (Writing.delete k opts r u name valid).0
  step r (publishes_added obj) = (publish_added k r obj).0
  step r (publishes_modified obj) = (publish_modified k r obj).0
  step r (publishes_deleted obj) = (publish_deleted k r obj).0

  unfoldable pub run : Rest Obj Store → List (Call Obj User) → Rest Obj Store
  run r [] = r
  run r (c ∷ cs) = run (step r c) cs

-- The text of a number up to `n`.
abbrev pub Version : ℕ → Bytes → Type 0
Version n v = (m : ℕ) × (v ≡ format_uint m) × (m ≤ n)

module _ {Obj : Type 0} (k : Accessor Obj) where
  -- The events carry versions that rise strictly, above `lo` and up to `hi`.
  abbrev pub Rising : ℕ → ℕ → List (Event Obj) → Type 0
  Rising lo hi [] = lo ≤ hi
  Rising lo hi (e ∷ es) =
      (m : ℕ) × (lo < m)
      × (k.is_accessible e.object ≡ true → k.resource_version e.object ≡ format_uint m)
      × Rising m hi es

  Rising-snoc :
      (lo hi : ℕ) (es : List (Event Obj)) (e : Event Obj)
      → Rising lo hi es
      → (k.is_accessible e.object ≡ true → k.resource_version e.object ≡ format_uint (hi + 1))
      → Rising lo (hi + 1) (es ++ e ∷ [])
  Rising-snoc lo hi [] e h v = (hi + 1, omega arith, v, omega arith)
  Rising-snoc lo hi (d ∷ es) e h v = (h.0, h.1, h.2, Rising-snoc h.0 hi es e h.3 v)

pub record IsValid {Obj Store : Type 0} (k : Accessor Obj) (r : Rest Obj Store) : Type 0 where
  pub rising : Rising k 1 r.rv r.published
  pub tracked :
      (t : OccTracker) (name v : Bytes) → r.occ ≡ some t → lookup name t ≡ some v → Version r.rv v

Version-suc : (n : ℕ) (v : Bytes) → Version n v → Version (n + 1) v
Version-suc n v h = (h.0, h.1, omega arith)

module _ {Obj : Type 0} (k : Accessor Obj) (law : IsLawful k) where
  pub stamp_rv-version :
      (obj : Obj) (v : Bytes)
      → k.is_accessible (stamp_rv k obj v) ≡ true
      → k.resource_version (stamp_rv k obj v) ≡ v
  unfolding stamp_rv
  stamp_rv-version obj v h = ground (arith, law.rv-set_rv obj v, law.accessible-set_rv obj v)

  -- What the tracker holds after it has recorded a stamped object.
  record_in-tracked :
      (n : ℕ) (o : Option OccTracker) (obj : Obj) (t : OccTracker) (name v : Bytes)
      → ((u : OccTracker) → o ≡ some u → lookup name u ≡ some v → Version n v)
      → record_in k o (stamp_rv k obj (format_uint (n + 1))) ≡ some t
      → lookup name t ≡ some v
      → Version (n + 1) v
  unfolding record_rv
  record_in-tracked n none obj t name v old e h = absurd (ground arith)
  record_in-tracked n (some u) obj t name v old e h =
      let new_rv = format_uint (n + 1) in
      let stamped = stamp_rv k obj new_rv in
      elim (Bool-cases (k.is_accessible stamped)) [
        | inl yes_meta ↦ elim (Bool-cases (str_eq (k.name stamped) name)) [
          | inl same ↦ (
            n + 1,
            ground (
              arith,
              stamp_rv-version obj new_rv,
              lookup-insert (k.name stamped) name (k.resource_version stamped) u,
            ),
            omega arith,
          )
          | inr other ↦ Version-suc n v (
              old u refl (
                ground (arith, lookup-insert (k.name stamped) name (k.resource_version stamped) u)))
        ]
        | inr no_meta ↦ Version-suc n v (old u refl (ground arith))
      ]

  forget_in-tracked :
      (n : ℕ) (o : Option OccTracker) (obj : Obj) (t : OccTracker) (name v : Bytes)
      → ((u : OccTracker) → o ≡ some u → lookup name u ≡ some v → Version n v)
      → forget_in k o obj ≡ some t
      → lookup name t ≡ some v
      → Version (n + 1) v
  unfolding delete_rv
  forget_in-tracked n none obj t name v old e h = absurd (ground arith)
  forget_in-tracked n (some u) obj t name v old e h =
      Version-suc n v (old u refl (ground (arith, lookup-delete (object_name k obj) name u)))

no_wrap : (n : ℕ) → n < max_u64 → (n + 1) % 2 ^ 64 ≡ n + 1
no_wrap n h = omega arith

-- A step of the adapter: it keeps validity, and gives out at most one version.
abbrev pub Advances : {Obj Store : Type 0} → Accessor Obj → Rest Obj Store → Rest Obj Store → Type 0
Advances k r r' = IsValid k r' × (r'.rv ≤ r.rv + 1)

module _ {Obj Store : Type 0} (k : Accessor Obj) (law : IsLawful k) (r : Rest Obj Store)
    (valid : IsValid k r) (room : r.rv < max_u64) where
  pub publish_recorded-Advances :
      (et : EventType) (obj : Obj) → Advances k r (publish_recorded k et r obj).0
  unfolding publish_recorded
  publish_recorded-Advances et obj = (
    record {
      rising = rw (no_wrap r.rv room) (
          Rising-snoc k 1 r.rv r.published _ valid.rising
            (stamp_rv-version k law obj (format_uint (r.rv + 1))));
      tracked = λ t name v.
          rw (no_wrap r.rv room)
            (record_in-tracked k law r.rv r.occ obj t name v (λ u. valid.tracked u name v));
    },
    omega arith,
  )

  pub publish_deleted-Advances : (obj : Obj) → Advances k r (publish_deleted k r obj).0
  unfolding publish_deleted
  publish_deleted-Advances obj = (
    record {
      rising = rw (no_wrap r.rv room) (
          Rising-snoc k 1 r.rv r.published _ valid.rising
            (stamp_rv-version k law obj (format_uint (r.rv + 1))));
      tracked = λ t name v.
          rw (no_wrap r.rv room)
            (forget_in-tracked k law r.rv r.occ _ t name v (λ u. valid.tracked u name v));
    },
    omega arith,
  )
