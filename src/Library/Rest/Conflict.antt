-- ===== src/Library/Rest/Conflict.antt =====
-- Optimistic concurrency: a writer that has not seen the last write is refused.
use aggexp.Prelude.{
  ℕ, ◌+◌, ◌%◌, ◌^◌, ◌≤◌, ◌<◌, ◌≡◌, ◌≢◌, ap, sym, ◌∙◌, Bool, true, false, Option, some, arith,
}
use aggexp.Text.{Bytes, str_eq-false}
use aggexp.Decimal.{max_u64, format_uint, parse_uint}
use aggexp.Decimal.RoundTrip.{parse_uint-format_uint}
use aggexp.GoMap.{lookup}
use aggexp.Kube.{Accessor, IsLawful, ok, err, conflict}
use aggexp.Storage.{Writes}
use aggexp.Library.Occ.{OccTracker, check_conflict, stamp_tracked}
use aggexp.Library.Rest.{Options, Rest}
use aggexp.Library.Rest.Writing.{UpdateCall, update, prepare_found}
use aggexp.Library.Rest.Steps.{Version}
use aggexp.Library.Rest.Outcomes.{UpdateOutcome, update-outcome}

-- What a client read before it wrote: the call's object carries the version `v`, and whatever object
-- it is given the call returns one that has metadata.
pub record Writer {Obj : Type 0} (k : Accessor Obj) (c : UpdateCall Obj) (v : Bytes) : Type 0 where
  pub submitted : Obj → Obj
  pub gives : (current : Obj) → c.updated_object (some current) ≡ ok (submitted current)
  pub has_metadata : (current : Obj) → k.is_accessible (submitted current) ≡ true
  pub carries : (current : Obj) → k.resource_version (submitted current) ≡ v

format_uint_inj : (m n : ℕ) → m ≤ max_u64 → n ≤ max_u64 → format_uint m ≡ format_uint n → m ≡ n
format_uint_inj m n hm hn e =
    ground (arith, parse_uint-format_uint m hm, parse_uint-format_uint n hn, ap parse_uint e)

-- A version given out before is not the next one.
old-ne-next : (n : ℕ) (v : Bytes) → n < max_u64 → Version n v → v ≢ format_uint ((n + 1) % 2 ^ 64)
old-ne-next n v h (m, e, le) p =
    absurd
      (omega (arith, format_uint_inj m ((n + 1) % 2 ^ 64) (omega arith) (omega arith) (sym e ∙ p)))

module _ {Obj : Type 0} (k : Accessor Obj) (law : IsLawful k) where
  stamped_version :
      (t : OccTracker) (obj : Obj) (name v : Bytes)
      → lookup name t ≡ some v
      → k.is_accessible obj ≡ true
      → (k.resource_version (stamp_tracked k t obj name) ≡ v)
        × (k.is_accessible (stamp_tracked k t obj name) ≡ true)
  unfolding stamp_tracked
  stamped_version t obj name v e h =
      rw (e, h) (law.rv-set_rv obj v, law.accessible-set_rv obj v ∙ h)

  refused :
      (name : Bytes) (current updated : Obj) (v w : Bytes)
      → k.is_accessible current ≡ true
      → k.is_accessible updated ≡ true
      → k.resource_version current ≡ w
      → k.resource_version updated ≡ v
      → v ≢ w
      → check_conflict k name current updated ≡ err (conflict name)
  unfolding check_conflict
  refused name current updated v w hc hu ec eu ne = ground (arith, str_eq-false v w ne)

module _ {Obj User Store : Type 0} (k : Accessor Obj) (law : IsLawful k)
    (opts : Options Obj User Store) (writes : Writes Obj User Store)
    (writable : opts.writable ≡ some writes) where
  -- With concurrency control on, a write to an existing object whose tracked version is `w` is refused
  -- with a conflict on its name, and changes nothing at all, when the object that the writer submits has
  -- metadata and carries any other version (or none).
  pub update-conflict :
      (r : Rest Obj Store) (u : Option User) (name : Bytes) (c : UpdateCall Obj) (v w : Bytes)
      (t : OccTracker) (current : Obj)
      → r.occ ≡ some t
      → lookup name t ≡ some w
      → opts.backend.get r.store u name ≡ ok current
      → k.is_accessible current ≡ true
      → Writer k c v
      → v ≢ w
      → update k opts r u name c ≡ (r, err (conflict name))
  unfolding update prepare_found
  update-conflict r u name c v w t current eo el eg ha writer ne =
      let (rv, meta) = stamped_version k law t current name w el ha in
      let cur = stamp_tracked k t current name in
      rw (
        writable,
        eg,
        eo,
        writer.gives cur,
        refused k law name cur (writer.submitted cur) v w meta (writer.has_metadata cur) rv
            (writer.carries cur) ne,
      )

  tracked_after :
      (r r' : Rest Obj Store) (obj : Obj) (created : Bool) (t : OccTracker)
      → UpdateOutcome k r (r', ok (obj, created))
      → r'.occ ≡ some t
      → k.is_accessible obj ≡ true
      → lookup (k.name obj) t ≡ some (format_uint ((r.rv + 1) % 2 ^ 64))
  tracked_after r r' obj true t (out, tracked) e h =
      tracked t e h ∙ ap some (out.2 h ∙ ap format_uint out.1)
  tracked_after r r' obj false t (out, tracked) e h =
      tracked t e h ∙ ap some (out.2 h ∙ ap format_uint out.1)

  -- No update is lost: when a write to an object has succeeded, a second writer of the same object
  -- whose copy carries any version given out before that write is refused with a conflict, and the
  -- adapter and the backend stay as the first write left them.
  pub no_lost_update :
      (r r' : Rest Obj Store) (u u' : Option User) (name : Bytes) (c c' : UpdateCall Obj)
      (stored current : Obj) (created : Bool) (t : OccTracker) (v : Bytes)
      → r.rv < max_u64
      → update k opts r u name c ≡ (r', ok (stored, created))
      → r'.occ ≡ some t
      → k.is_accessible stored ≡ true
      → k.name stored ≡ name
      → opts.backend.get r'.store u' name ≡ ok current
      → k.is_accessible current ≡ true
      → Writer k c' v
      → Version r.rv v
      → update k opts r' u' name c' ≡ (r', err (conflict name))
  no_lost_update r r' u u' name c c' stored current created t v room first eo hs en eg hc writer
        old =
      let out : UpdateOutcome k r (r', ok (stored, created)) =
        rw first at (update-outcome k law opts r u name c) in
      update-conflict r' u' name c' v (format_uint ((r.rv + 1) % 2 ^ 64)) t current eo
        (rw en at (tracked_after r r' stored created t out eo hs)) eg hc writer
        (old-ne-next r.rv v room old)
