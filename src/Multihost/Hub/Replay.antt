-- ===== src/Multihost/Hub/Replay.antt =====
-- The replay of a new watch: what it sends, and its end.
use aggexp.Prelude.{
  ℕ, zero, suc, ◌+◌, ◌-◌, ◌≡◌, ◌<◌, refl, sym, ap, ◌∙◌, inl, inr, List, [], ◌∷◌, ◌++◌, Option, none,
  some, arith, true, false, ◌||◌, ◌⊎◌, Bool-cases, ltb, length, length-append, append_assoc, subst,
}
use aggexp.Text.{Bytes, str_eq, str_eq_iff, str_empty}
use aggexp.GoMap.{GoMap, insert}
use aggexp.Kube.{Accessor, Event, LabelSelector, added}
use aggexp.Multihost.Hub.{
  PerWatcher, emit, matches, admits_labels, event, key_of, replay_one, replay_next, replay_step,
  bookmark_event,
}

module _ {Obj : Type 0} (k : Accessor Obj) where
  abbrev pub WantsLabels : Option LabelSelector → Obj → Type 0
  WantsLabels none obj = Unit
  WantsLabels (some sel) obj = (sel.is_empty ≡ true) ⊎ (sel.matches (k.labels obj) ≡ true)

  -- The watch is for the object: it has no metadata to tell otherwise, or its namespace and labels are those
  -- asked for.
  abbrev pub Wants : Bytes → Option LabelSelector → Obj → Type 0
  Wants namespace selector obj =
      (k.is_accessible obj ≡ false)
      ⊎ (((namespace ≡ []) ⊎ (k.namespace obj ≡ namespace)) × WantsLabels selector obj)

  empty_cases :
      (s : Bytes) → ((s ≡ []) × (str_empty s ≡ true)) ⊎ (¬ (s ≡ []) × (str_empty s ≡ false))
  unfolding str_empty
  empty_cases [] = inl (refl, refl)
  empty_cases (c ∷ s) = inr (λ e. absurd (ground (arith, e)), refl)

  WantsLabels-cases :
      (selector : Option LabelSelector) (obj : Obj)
      → (WantsLabels selector obj × (admits_labels k selector obj ≡ true))
        ⊎ (¬ WantsLabels selector obj × (admits_labels k selector obj ≡ false))
  WantsLabels-cases none obj = inl (tt, refl)
  WantsLabels-cases (some sel) obj = elim (Bool-cases sel.is_empty) [
    | inl e ↦ inl (inl e, rw e refl)
    | inr e ↦ elim (Bool-cases (sel.matches (k.labels obj))) [
      | inl m ↦ inl (inr m, rw (e, m) refl)
      | inr m ↦ inr (λ h. elim h [ inl a ↦ cc | inr a ↦ cc ], rw (e, m) refl)
    ]
  ]

  namespace_cases :
      (namespace : Bytes) (obj : Obj)
      → (((namespace ≡ []) ⊎ (k.namespace obj ≡ namespace))
          × ((str_empty namespace || str_eq (k.namespace obj) namespace) ≡ true))
        ⊎ (¬ ((namespace ≡ []) ⊎ (k.namespace obj ≡ namespace))
            × ((str_empty namespace || str_eq (k.namespace obj) namespace) ≡ false))
  namespace_cases namespace obj = elim (empty_cases namespace) [
    | inl (e, t) ↦ inl (inl e, rw t refl)
    | inr (ne, t) ↦ elim (Bool-cases (str_eq (k.namespace obj) namespace)) [
      | inl m ↦ inl (inr ((str_eq_iff _ _).0 m), rw (t, m) refl)
      | inr m ↦ inr (
        λ h. elim h [
          | inl a ↦ ne a
          | inr a ↦ absurd (ground (arith, m, str_eq_iff (k.namespace obj) namespace, a))
        ],
        rw (t, m) refl,
      )
    ]
  ]

  Wants-cases :
      (w : PerWatcher Obj) (obj : Obj)
      → (Wants w.namespace w.selector obj × (matches k w obj ≡ true))
        ⊎ (¬ Wants w.namespace w.selector obj × (matches k w obj ≡ false))
  unfolding matches
  Wants-cases w obj = elim (Bool-cases (k.is_accessible obj)) [
    | inr e ↦ inl (inl e, rw e refl)
    | inl e ↦ elim (namespace_cases w.namespace obj) [
      | inr (out, t) ↦ inr (λ h. elim h [ inl a ↦ cc | inr a ↦ out a.0 ], rw (e, t) refl)
      | inl (in_it, t) ↦ elim (WantsLabels-cases w.selector obj) [
        | inl (yes_l, l) ↦ inl (inr (in_it, yes_l), rw (e, t, l) refl)
        | inr (no_l, l) ↦ inr (λ h. elim h [ inl a ↦ cc | inr a ↦ no_l a.1 ], rw (e, t, l) refl)
      ]
    ]
  ]

  -- The events of a replay: an ADDED event for each object that the watch is for, in order, and then the
  -- bookmark of the version that the hub knew when the watch began.
  abbrev pub Replays :
      Obj → Bytes → Option LabelSelector → Bytes → List Obj → List (Event Obj) → Type 0
  Replays carrier namespace selector rv [] evs = evs ≡ bookmark_event k carrier rv ∷ []
  Replays carrier namespace selector rv (obj ∷ l) evs =
      ((rest : List (Event Obj)) × (Wants namespace selector obj
          × ((evs ≡ event k added obj ∷ rest) × Replays carrier namespace selector rv l rest)))
      ⊎ (¬ Wants namespace selector obj × Replays carrier namespace selector rv l evs)

  unfoldable pub replay_rounds : Obj → ℕ → PerWatcher Obj → PerWatcher Obj
  replay_rounds carrier zero w = w
  replay_rounds carrier (suc n) w = replay_rounds carrier n (replay_step k carrier w)

  emit-room :
      (w : PerWatcher Obj) (ev : Event Obj)
      → w.closed ≡ false
      → length w.sent - w.taken < w.capacity
      → emit w ev ≡ record w { sent = w.sent ++ ev ∷ [] }
  unfolding emit
  emit-room w ev live room =
      let fits : ltb (length w.sent - w.taken) w.capacity ≡ true = ground (arith, room) in
      rw live (rw fits refl)

  -- A round that sends: the resulting watcher, but for the versions it remembers.
  replay_one-wanted :
      (w : PerWatcher Obj) (obj : Obj)
      → matches k w obj ≡ true
      → w.closed ≡ false
      → length w.sent - w.taken < w.capacity
      → (m : GoMap Bytes) × (replay_one k w obj
          ≡ record w { emitted = m; sent = w.sent ++ event k added obj ∷ [] })
  replay_one-wanted w obj wanted live room = elim (Bool-cases (k.is_accessible obj)) [
    | inl e ↦ (
      insert (key_of k obj) (k.resource_version obj) w.emitted,
      rw wanted (
          rw e (
            emit-room
              (record w { emitted = insert (key_of k obj) (k.resource_version obj) w.emitted })
              (event k added obj) live room)),
    )
    | inr e ↦ (w.emitted, rw wanted (rw e (emit-room w (event k added obj) live room)))
  ]

  abbrev Ended : Obj → PerWatcher Obj → List Obj → PerWatcher Obj → Type 0
  Ended carrier w initial v =
      (evs : List (Event Obj)) × (Replays carrier w.namespace w.selector w.bookmark_rv initial evs
        × ((v.sent ≡ w.sent ++ evs) × (v.replay ≡ none)))

  -- When the channel of an open watcher has room for all of them and no one else sends, the rounds of its
  -- replay, one more than there are objects, send an ADDED event for each object of the namespace and labels
  -- asked for, or without metadata, in order, then the bookmark of the version that the hub knew, and nothing
  -- else; and then the replay is over.
  pub replay_rounds-sent :
      (carrier : Obj) (w : PerWatcher Obj) (initial : List Obj)
      → w.replay ≡ some initial
      → w.closed ≡ false
      → length w.sent - w.taken + length initial < w.capacity
      → Ended carrier w initial (replay_rounds carrier (suc (length initial)) w)
  unfolding replay_rounds replay_step matches
  replay_rounds-sent carrier w [] e live room =
      let steps =
        ap (replay_next k carrier w) e
        ∙ emit-room (record w { replay = none }) (bookmark_event k carrier w.bookmark_rv) live
            (omega (arith, room)) in
      subst (λ v. Ended carrier w [] v) (sym steps)
        (bookmark_event k carrier w.bookmark_rv ∷ [], (refl, (refl, refl)))
  replay_rounds-sent carrier w (obj ∷ rest) e live room = elim (Wants-cases w obj) [
    | inl (wants, t) ↦
        let (m, sends) =
          replay_one-wanted (record w { replay = some rest }) obj t live (omega (arith, room)) in
        let next : PerWatcher Obj = record w {
          replay = some rest;
          emitted = m;
          sent = w.sent ++ event k added obj ∷ [];
        } in
        subst (λ v. Ended carrier w (obj ∷ rest) (replay_rounds carrier (suc (length rest)) v))
          (sym (ap (replay_next k carrier w) e ∙ sends))
          (extended (replay_rounds carrier (suc (length rest)) next) m wants (
            replay_rounds-sent carrier next rest refl live
              (omega (arith, room, length-append w.sent (event k added obj ∷ [])))))
    | inr (other, t) ↦
        let skips : replay_one k (record w { replay = some rest }) obj
            ≡ record w { replay = some rest } =
          rw t refl in
        subst (λ v. Ended carrier w (obj ∷ rest) (replay_rounds carrier (suc (length rest)) v))
          (sym (ap (replay_next k carrier w) e ∙ skips))
          (skipped (replay_rounds carrier (suc (length rest)) (record w { replay = some rest }))
            other
            (replay_rounds-sent carrier (record w { replay = some rest }) rest refl live
              (omega (arith, room))))
  ]
    where
      extended :
          (v : PerWatcher Obj) (m : GoMap Bytes)
          → Wants w.namespace w.selector obj
          → Ended carrier
              (record w {
                replay = some rest;
                emitted = m;
                sent = w.sent ++ event k added obj ∷ [];
              })
              rest
              v
          → Ended carrier w (obj ∷ rest) v
      extended v m wants (evs, (plays, (sends, over))) = (
        event k added obj ∷ evs,
        (
          inl (evs, (wants, (refl, plays))),
          (sends ∙ append_assoc w.sent (event k added obj ∷ []) evs, over),
        ),
      )

      skipped :
          (v : PerWatcher Obj)
          → ¬ Wants w.namespace w.selector obj
          → Ended carrier (record w { replay = some rest }) rest v
          → Ended carrier w (obj ∷ rest) v
      skipped v other (evs, (plays, (sends, over))) = (evs, (inr (other, plays), (sends, over)))
