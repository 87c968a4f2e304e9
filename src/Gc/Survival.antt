-- ===== src/Gc/Survival.antt =====
-- The records that a sweep of runtime/component/v2/gc/gc.go leaves in the store.
use aggexp.Prelude.{
  ◌≢◌, ◌<◌, ◌+◌, ltb, length, ℕ, ℕ, ◌≡◌, refl, sym, ap, ◌∙◌, Bool, true, false, not, List, [], ◌∷◌,
  if_ind, Option, none, some, All, keep, length, arith, ◌⊎◌, inl, inr, Bool-cases,
}
use aggexp.Text.{Bytes, str_lt, str_eq, str_eq_refl}
use aggexp.Kube.{Result, ok, err}
use aggexp.Gc.{
  is_set, younger, Ref, MetaRecord, Services, Config, Reason, RunResult, key, has_key, backend_keys,
  is_orphan, insert_by_name, by_name, decide, after_delete, apply_decision, collect, with_objects,
  sweep, no_result,
}

module _ (P : MetaRecord → Type 0) where
  All-insert_by_name :
      (a : MetaRecord) (l : List MetaRecord) → P a → All P l → All P (insert_by_name a l)
  unfolding insert_by_name
  All-insert_by_name a [] p h = (p, tt)
  All-insert_by_name a (b ∷ l) p (q, h) = elim (Bool-cases (str_lt b.ref.name a.ref.name)) [
    | inl e ↦ rw e (q, All-insert_by_name a l p h)
    | inr e ↦ rw e (p, (q, h))
  ]

  All-by_name : (l : List MetaRecord) → All P l → All P (by_name l)
  unfolding by_name
  All-by_name [] h = tt
  All-by_name (a ∷ l) (p, h) = All-insert_by_name a (by_name l) p (All-by_name l h)

  All-keep_if :
      (test : MetaRecord → Bool) (l : List MetaRecord)
      → All (λ a. test a ≡ true → P a) l
      → All P (keep test l)
  All-keep_if test [] h = tt
  All-keep_if test (a ∷ l) (p, h) = elim (Bool-cases (test a)) [
    | inl e ↦ rw e (p e, All-keep_if test l h)
    | inr e ↦ rw e (All-keep_if test l h)
  ]

-- The reference is that of a listed object.
abbrev pub Listed : Ref → List Ref → Type 0
Listed r [] = ⊥
Listed r (o ∷ l) = (o ≡ r) ⊎ Listed r l

has_key-cons : (k x : Bytes) (l : List Bytes) → has_key k l ≡ true → has_key k (x ∷ l) ≡ true
unfolding has_key
has_key-cons k x l h = if_ind (λ b. b ≡ true) (str_eq k x) _ _ (λ _. refl) (λ _. h)

has_key_self : (k : Bytes) (l : List Bytes) → has_key k (k ∷ l) ≡ true
unfolding has_key
has_key_self k l = rw (str_eq_refl k) refl

has_key-backend_keys :
    (r : Ref) (objs : List Ref) → Listed r objs → has_key (key r) (backend_keys objs) ≡ true
unfolding backend_keys
has_key-backend_keys r [] h = absurd h
has_key-backend_keys r (o ∷ l) (inl e) =
    if_ind (λ x. has_key (key r) x ≡ true) (has_key (key o) (backend_keys l)) _ _
      (λ there. ap (λ a. has_key (key a) (backend_keys l)) (sym e) ∙ there)
      (λ _.
        ap (λ a. has_key (key r) (key a ∷ backend_keys l)) e
        ∙ has_key_self (key r) (backend_keys l))
has_key-backend_keys r (o ∷ l) (inr h) =
    let rest = has_key-backend_keys r l h in
    if_ind (λ x. has_key (key r) x ≡ true) (has_key (key o) (backend_keys l)) _ _ (λ _. rest)
      (λ _. has_key-cons (key r) (key o) (backend_keys l) rest)

module _ {World : Type 0} (s : Services World) (c : Config)
    (stored : World → MetaRecord → Type 0) where
  -- The store's promise: a delete, whether it succeeds or fails, leaves every record of another
  -- reference, and listings leave every record.
  pub record IsKeeping : Type 0 where
    pub delete-stored :
        (w : World) (r : Ref) (rec : MetaRecord)
        → stored w rec
        → ¬ (rec.ref ≡ r)
        → stored (s.delete w r).0 rec
    pub records-stored : (w : World) (rec : MetaRecord) → stored w rec → stored (s.records w).0 rec
    pub objects-stored : (w : World) (rec : MetaRecord) → stored w rec → stored (s.objects w).0 rec

  module _ (law : IsKeeping) (rec : MetaRecord) where
    -- A deletion of `a` is not one of `rec`.
    abbrev Spares : ℕ → MetaRecord → Type 0
    Spares now a = decide c a now ≡ none → ¬ (rec.ref ≡ a.ref)

    after_delete-stored :
        (a : MetaRecord) (res : RunResult) (out : World × Result (Unit {0}))
        → stored out.0 rec
        → stored (after_delete s c a res out).0 rec
    after_delete-stored a res (w, err e) h = h
    after_delete-stored a res (w, ok _) h = h

    apply_decision-stored :
        (a : MetaRecord) (res : RunResult) (w : World) (o : Option Reason)
        → (o ≡ none → ¬ (rec.ref ≡ a.ref))
        → stored w rec
        → stored (apply_decision s c a res w o).0 rec
    apply_decision-stored a res w none spares h =
        after_delete-stored a res (s.delete w a.ref) (law.delete-stored w a.ref rec h (spares refl))
    apply_decision-stored a res w (some reason) spares h = h

    collect-stored :
        (now : ℕ) (l : List MetaRecord) (w : World) (res : RunResult)
        → All (Spares now) l
        → stored w rec
        → stored (collect s c now l w res).0 rec
    unfolding collect
    collect-stored now [] w res spares h = h
    collect-stored now (a ∷ l) w res (spare, spares) h =
        collect-stored now l _ _ spares (apply_decision-stored a res w (decide c a now) spare h)

    -- Too young, with finalizers, with owners, or being deleted already.
    abbrev pub Shielded : ℕ → Type 0
    Shielded now =
        ((t : ℕ) × (rec.creation_timestamp ≡ some t) × (now < t + c.min_age))
        ⊎ ((rec.finalizers ≢ []) ⊎ ((rec.owner_references ≢ []) ⊎ (rec.deletion_timestamp ≢ none)))

    nonempty-length : {A : Type 0} (l : List A) → l ≢ [] → ltb 0 (length l) ≡ true
    nonempty-length [] h = absurd (h refl)
    nonempty-length (x ∷ l) h = ground arith

    set-is_set : (o : Option ℕ) → o ≢ none → is_set o ≡ true
    set-is_set none h = absurd (h refl)
    set-is_set (some t) h = refl

    Shielded-decide : (now : ℕ) → Shielded now → ¬ (decide c rec now ≡ none)
    unfolding decide
    Shielded-decide now (inl (t, e, young)) gone =
        absurd (ground (arith, ap (λ o. younger o c.min_age now) e))
    Shielded-decide now (inr (inl f)) gone =
        absurd (ground (arith, nonempty-length rec.finalizers f))
    Shielded-decide now (inr (inr (inl o))) gone =
        absurd (ground (arith, nonempty-length rec.owner_references o))
    Shielded-decide now (inr (inr (inr d))) gone =
        absurd (ground (arith, set-is_set rec.deletion_timestamp d))

    -- Protected: an object of its namespace and name is listed, or it is shielded.
    abbrev pub Protected : List Ref → ℕ → Type 0
    Protected objs now = Listed rec.ref objs ⊎ Shielded now

    Protected-Spares :
        (objs : List Ref) (now : ℕ) (a : MetaRecord)
        → Protected objs now
        → (a.ref ≡ rec.ref → a ≡ rec)
        → is_orphan (backend_keys objs) a ≡ true
        → Spares now a
    unfolding is_orphan
    Protected-Spares objs now a (inl listed) only orphan gone same =
        let e : true ≡ false =
          sym orphan
          ∙ sym (ap (λ r. not (has_key (key r) (backend_keys objs))) same)
          ∙ ap not (has_key-backend_keys rec.ref objs listed) in
        absurd (ground arith)
    Protected-Spares objs now a (inr kept) only orphan gone same =
        Shielded-decide now kept (ap (λ x. decide c x now) (sym (only (sym same))) ∙ gone)

    with_objects-stored :
        (records : List MetaRecord) (res : RunResult) (w : World) (objs : List Ref)
        → Protected objs (s.now w)
        → All (λ a. a.ref ≡ rec.ref → a ≡ rec) records
        → stored w rec
        → stored (with_objects s c records res (w, ok objs)).0 rec
    with_objects-stored records res w objs protected only h =
        let keys = backend_keys objs in
        let orphans = keep (is_orphan keys) records in
        let spared : All (Spares (s.now w)) orphans =
          All-keep_if (Spares (s.now w)) (is_orphan keys) records (spare_all records only) in
        collect-stored (s.now w) (by_name orphans) w _
          (All-by_name (Spares (s.now w)) orphans spared) h
      where
        spare_all :
            (l : List MetaRecord)
            → All (λ a. a.ref ≡ rec.ref → a ≡ rec) l
            → All (λ a. is_orphan (backend_keys objs) a ≡ true → Spares (s.now w) a) l
        spare_all [] t = tt
        spare_all (a ∷ l) (one, t) =
            (Protected-Spares objs (s.now w) a protected one, spare_all l t)

    -- A stored record survives a sweep that gets both listings when an object of its namespace and name
    -- is among the listed ones, or when the sweep's rules skip it at the time they are applied (too young, finalizers,
    -- owners or a deletion under way), provided the store keeps records of other references on a
    -- delete and lists no other record under the same reference.
    pub sweep-stored :
        (w w1 w2 : World) (records : List MetaRecord) (objs : List Ref)
        → s.records w ≡ (w1, ok records)
        → s.objects w1 ≡ (w2, ok objs)
        → Protected objs (s.now w2)
        → All (λ a. a.ref ≡ rec.ref → a ≡ rec) records
        → stored w rec
        → stored (sweep s c w).0 rec
    unfolding sweep
    sweep-stored w w1 w2 records objs got listed protected only h =
        let h1 = rw got at (law.records-stored w rec h) in
        let h2 = rw listed at (law.objects-stored w1 rec h1) in
        rw (got, listed)
          (with_objects-stored records (record no_result { seen = length records }) w2 objs
            protected only h2)
