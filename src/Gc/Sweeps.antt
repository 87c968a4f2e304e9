-- ===== src/Gc/Sweeps.antt =====
-- The report of a sweep of runtime/component/v2/gc/gc.go.
use aggexp.Prelude.{
  ℕ, suc, ◌+◌, ◌≤◌, ◌≡◌, refl, ap, ◌∙◌, Bool, List, [], ◌∷◌, Option, none, some, keep, length,
  length-append, arith, inl, inr, Bool-cases,
}
use aggexp.Text.{str_lt}
use aggexp.Kube.{Result, ok, err}
use aggexp.Gc.{
  Ref, MetaRecord, Services, Config, Reason, RunResult, backend_keys, is_orphan, insert_by_name,
  by_name, decide, skip, after_delete, apply_decision, collect, with_objects, with_records, sweep,
  no_result,
}

length-insert_by_name :
    (a : MetaRecord) (l : List MetaRecord) → length (insert_by_name a l) ≡ suc (length l)
unfolding insert_by_name
length-insert_by_name a [] = refl
length-insert_by_name a (b ∷ l) = elim (Bool-cases (str_lt b.ref.name a.ref.name)) [
  | inl e ↦ rw e (ap suc (length-insert_by_name a l))
  | inr e ↦ rw e refl
]

length-by_name : (l : List MetaRecord) → length (by_name l) ≡ length l
unfolding by_name
length-by_name [] = refl
length-by_name (a ∷ l) = length-insert_by_name a (by_name l) ∙ ap suc (length-by_name l)

length-keep : (test : MetaRecord → Bool) (l : List MetaRecord) → length (keep test l) ≤ length l
length-keep test [] = omega arith
length-keep test (a ∷ l) = elim (Bool-cases (test a)) [
  | inl e ↦ rw e (omega (arith, length-keep test l))
  | inr e ↦ rw e (omega (arith, length-keep test l))
]

-- The report adds up.
abbrev pub IsConsistent : RunResult → Type 0
IsConsistent res =
    (res.deleted ≡ length res.deletions)
    × (res.deleted + length res.skipped ≡ res.orphans)
    × (res.orphans ≤ res.seen)

module _ {World : Type 0} (s : Services World) (c : Config) where
  -- With `left` orphans still to come.
  abbrev Counted : ℕ → RunResult → Type 0
  Counted left res =
      (res.deleted ≡ length res.deletions)
      × (res.deleted + length res.skipped + left ≡ res.orphans)
      × (res.orphans ≤ res.seen)

  Counted-skip :
      (left : ℕ) (rec : MetaRecord) (reason : Reason) (res : RunResult)
      → Counted (suc left) res
      → Counted left (skip s c rec reason res)
  Counted-skip left rec reason res (d, n, m) = (
    d,
    omega (
      arith,
      n,
      length-append res.skipped (record { name = s.record_name rec.ref; reason = reason } ∷ []),
    ),
    m,
  )

  Counted-delete :
      (left : ℕ) (rec : MetaRecord) (res : RunResult) (out : World × Result (Unit {0}))
      → Counted (suc left) res
      → Counted left (after_delete s c rec res out).1
  Counted-delete left rec res (w, err e) h = Counted-skip left rec _ res h
  Counted-delete left rec res (w, ok _) (d, n, m) =
      (omega (arith, d, length-append res.deletions (s.record_name rec.ref ∷ [])), omega arith, m)

  Counted-apply :
      (left : ℕ) (rec : MetaRecord) (res : RunResult) (w : World) (o : Option Reason)
      → Counted (suc left) res
      → Counted left (apply_decision s c rec res w o).1
  Counted-apply left rec res w none h = Counted-delete left rec res (s.delete w rec.ref) h
  Counted-apply left rec res w (some reason) h = Counted-skip left rec reason res h

  collect-Counted :
      (now : ℕ) (l : List MetaRecord) (w : World) (res : RunResult)
      → Counted (length l) res
      → Counted 0 (collect s c now l w res).1
  unfolding collect
  collect-Counted now [] w res h = h
  collect-Counted now (rec ∷ l) w res h =
      collect-Counted now l _ _ (Counted-apply (length l) rec res w (decide c rec now) h)

  Counted-IsConsistent : (res : RunResult) → Counted 0 res → IsConsistent res
  Counted-IsConsistent res (d, n, m) = (d, omega (arith, n), m)

  with_objects-IsConsistent :
      (records : List MetaRecord) (out : World × Result (List Ref))
      → IsConsistent (with_objects s c records (record no_result { seen = length records }) out).1
  with_objects-IsConsistent records (w, err e) = (refl, refl, omega arith)
  with_objects-IsConsistent records (w, ok objs) =
      let orphans = keep (is_orphan (backend_keys objs)) records in
      let start : RunResult = record no_result {
        seen = length records;
        backend = length (backend_keys objs);
        orphans = length (by_name orphans);
      } in
      Counted-IsConsistent (collect s c (s.now w) (by_name orphans) w start).1 (
        collect-Counted (s.now w) (by_name orphans) w start (
          refl,
          omega arith,
          omega
              (arith, length-by_name orphans, length-keep (is_orphan (backend_keys objs)) records),
        ))

  with_records-IsConsistent :
      (out : World × Result (List MetaRecord)) → IsConsistent (with_records s c out).1
  with_records-IsConsistent (w, err e) = (refl, refl, omega arith)
  with_records-IsConsistent (w, ok records) = with_objects-IsConsistent records (s.objects w)

  -- Every sweep, one that fails included, reports as many deletions as it names, as many deletions
  -- and skipped records together as orphans, and no more orphans than records.
  pub sweep-IsConsistent : (w : World) → IsConsistent (sweep s c w).1
  unfolding sweep
  sweep-IsConsistent w = with_records-IsConsistent (s.records w)
