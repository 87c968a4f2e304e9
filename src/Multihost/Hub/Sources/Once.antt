-- ===== src/Multihost/Hub/Sources/Once.antt =====
-- Of the live sources of one watcher, each version is sent once.
use aggexp.Prelude.{
  ℕ, ◌+◌, ◌≡◌, ◌<◌, ◌≤◌, refl, sym, ap, ◌∙◌, inl, inr, List, [], ◌∷◌, ◌++◌, Option, none, some,
  arith, Bool, true, false, ◌&&◌, if◌then◌else◌, Bool-cases, ltb, length, ◌⊎◌, append_assoc,
  append-nil, if_ind,
}
use aggexp.Text.{Bytes, str_eq, str_eq_iff}
use aggexp.Decimal.{max_u64, format_uint}
use aggexp.ResourceVersion.{rv_less, rv_less-decimal}
use aggexp.GoMap.{lookup, insert, lookup-insert, lookup-insert_self}
use aggexp.Kube.{Accessor, Event, EventType, added, modified}
use aggexp.Multihost.Hub.{PerWatcher, emit, receive, admit, event, is_newer, key_of}
use aggexp.Multihost.Hub.Emission.{emit-ind}
use aggexp.Multihost.Hub.Sources.{
  Live, with_pending, IsNumbered, LiveStep, adds, modifies, emits, receives, stops, LiveReach,
  begins, goes,
}

abbrev pub one_if : Bool → ℕ
one_if true = 1
one_if false = 0

module _ {Obj : Type 0} (k : Accessor Obj) where
  -- How many of the events are of the object and the version.
  abbrev pub is_of : Bytes → Bytes → Event Obj → Bool
  is_of key rv ev = str_eq key (key_of k ev.object) && str_eq rv (k.resource_version ev.object)

  abbrev pub tally : Bytes → Bytes → List (Event Obj) → ℕ
  tally key rv [] = 0
  tally key rv (ev ∷ l) = one_if (is_of key rv ev) + tally key rv l

  tally-append :
      (key rv : Bytes) (l m : List (Event Obj))
      → tally key rv (l ++ m) ≡ tally key rv l + tally key rv m
  tally-append key rv [] m = omega arith
  tally-append key rv (ev ∷ l) m = omega (arith, tally-append key rv l m)

  -- The version is at most the one recorded for the object.
  abbrev Recorded : PerWatcher Obj → Bytes → ℕ → Type 0
  Recorded w key n =
      (m : ℕ) × ((lookup key w.emitted ≡ some (format_uint m)) × ((m ≤ max_u64) × (n ≤ m)))

  -- With `new` sent since the start, what is sent or pending is recorded, and once.
  record IsOnce (w : PerWatcher Obj) (s : Live Obj) : Type 0 where
    new : List (Event Obj)
    since : s.watcher.sent ≡ w.sent ++ new
    once :
        (key : Bytes) (n : ℕ)
        → n ≤ max_u64
        → tally key (format_uint n) new + tally key (format_uint n) s.pending ≤ 1
    recorded :
        (key : Bytes) (n : ℕ)
        → n ≤ max_u64
        → 0 < tally key (format_uint n) new + tally key (format_uint n) s.pending
        → Recorded s.watcher key n

  newer_less :
      (o : Option Bytes) (n m : ℕ)
      → o ≡ some (format_uint n)
      → n ≤ max_u64
      → m ≤ max_u64
      → is_newer k o (format_uint m) ≡ true
      → n < m
  newer_less o n m e hn hm t =
      let less : rv_less (format_uint n) (format_uint m) ≡ true =
        sym (ap (λ p. is_newer k p (format_uint m)) e) ∙ t in
      ground (arith, rv_less-decimal n m [] hn hm, less)

  -- What the lock leaves of an admitted object.
  abbrev remembers : PerWatcher Obj → Obj → PerWatcher Obj
  remembers w obj = record w { emitted = insert (key_of k obj) (k.resource_version obj) w.emitted }

  module _ (w : PerWatcher Obj) (s : Live Obj) (obj : Obj) (et : EventType) (num : IsNumbered k obj)
      (newer : is_newer k (lookup (key_of k obj) s.watcher.emitted) (k.resource_version obj) ≡ true)
      (h : IsOnce w s) where
    abbrev ev : Event Obj
    ev = event k et obj

    abbrev count : Bytes → ℕ → ℕ
    count key n = tally key (format_uint n) h.new + tally key (format_uint n) s.pending

    -- A recorded version of the object is below its own.
    below :
        (n m : ℕ)
        → m ≤ max_u64
        → k.resource_version obj ≡ format_uint m
        → Recorded s.watcher (key_of k obj) n
        → n < m
    below n m hm q (p, (e, (hp, le))) =
        let less =
          newer_less _ p m e hp hm
            (ap (is_newer k (lookup (key_of k obj) s.watcher.emitted)) (sym q) ∙ newer) in
        omega (arith, less, le)

    split_of :
        (key rv : Bytes)
        → is_of key rv ev ≡ true
        → (key ≡ key_of k obj) × (rv ≡ k.resource_version obj)
    split_of key rv e = (
      (str_eq_iff key (key_of k obj)).0 (ground (arith, e)),
      (str_eq_iff rv (k.resource_version obj)).0 (ground (arith, e)),
    )

    fresh :
        (key : Bytes) (n : ℕ) → n ≤ max_u64 → is_of key (format_uint n) ev ≡ true → count key n ≡ 0
    fresh key n hn e = elim (Bool-cases (ltb 0 (count key n))) [
      | inr z ↦ ground (arith, z)
      | inl pos ↦
          let (same_key, same_rv) = split_of key (format_uint n) e in
          let seen : Recorded s.watcher key n = h.recorded key n hn (ground (arith, pos)) in
          let less : n < n =
            below n n hn (sym same_rv) (moved key (key_of k obj) same_key n seen) in
          absurd (omega (arith, less))
    ]
      where
        moved : (a b : Bytes) → a ≡ b → (i : ℕ) → Recorded s.watcher a i → Recorded s.watcher b i
        moved a b same i r = rw same at r

    Recorded-at :
        (key : Bytes) (n : ℕ)
        → n ≤ max_u64
        → (is_of key (format_uint n) ev ≡ true) ⊎ (0 < count key n)
        → Recorded (remembers s.watcher obj) key n
    Recorded-at key n hn (inl e) =
        let (same_key, same_rv) = split_of key (format_uint n) e in
        (
          n,
          (
            ap (λ a. lookup a (remembers s.watcher obj).emitted) same_key
                ∙ lookup-insert_self (key_of k obj) (k.resource_version obj) s.watcher.emitted
                ∙ ap some (sym same_rv),
            (hn, omega arith),
          ),
        )
    Recorded-at key n hn (inr pos) = elim (Bool-cases (str_eq (key_of k obj) key)) [
      | inr other ↦
          let (p, (e, bounds)) = h.recorded key n hn pos in
          (
            p,
            (
              lookup-insert (key_of k obj) key (k.resource_version obj) s.watcher.emitted
                  ∙ ap
                      (λ t.
                        if t then some (k.resource_version obj) else lookup key s.watcher.emitted)
                      other
                  ∙ e,
              bounds,
            ),
          )
      | inl same ↦
          let same_key = (str_eq_iff (key_of k obj) key).0 same in
          let (m, (q, hm)) = num.1 in
          let less : n < m =
            below n m hm q (moved key (key_of k obj) (sym same_key) n (h.recorded key n hn pos)) in
          (
            m,
            (
              ap (λ a. lookup a (remembers s.watcher obj).emitted) (sym same_key)
                  ∙ lookup-insert_self (key_of k obj) (k.resource_version obj) s.watcher.emitted
                  ∙ ap some q,
              (hm, omega (arith, less)),
            ),
          )
    ]
      where
        moved : (a b : Bytes) → a ≡ b → (i : ℕ) → Recorded s.watcher a i → Recorded s.watcher b i
        moved a b same i r = rw same at r

    admitted-IsOnce :
        IsOnce w (record { watcher = remembers s.watcher obj; pending = ev ∷ s.pending })
    admitted-IsOnce = record {
      new = h.new;
      since = h.since;
      once = λ key n hn. elim (Bool-cases (is_of key (format_uint n) ev)) [
        | inl e ↦ rw e (omega (arith, fresh key n hn e))
        | inr e ↦ rw e (omega (arith, h.once key n hn))
      ];
      recorded = λ key n hn pos. elim (Bool-cases (is_of key (format_uint n) ev)) [
        | inl e ↦ Recorded-at key n hn (inl e)
        | inr e ↦ let old = rw e at pos in Recorded-at key n hn (inr (omega (arith, old)))
      ];
    }

  admit-IsOnce :
      (w : PerWatcher Obj) (s : Live Obj) (obj : Obj) (et : EventType)
      → IsNumbered k obj
      → admit k s.watcher et obj ≡ (
          if is_newer k (lookup (key_of k obj) s.watcher.emitted) (k.resource_version obj)
          then (remembers s.watcher obj, some (event k et obj))
          else (s.watcher, none))
      → IsOnce w s
      → IsOnce w (with_pending s.pending (admit k s.watcher et obj))
  admit-IsOnce w s obj et num e h = rw e (
      if_ind (λ x. IsOnce w (with_pending s.pending x))
        (is_newer k (lookup (key_of k obj) s.watcher.emitted) (k.resource_version obj)) _ _
        (λ newer. admitted-IsOnce w s obj et num newer h) (λ _. h))

  emitted-IsOnce :
      (w : PerWatcher Obj) (s : Live Obj) (l m : List (Event Obj)) (ev : Event Obj)
      → s.pending ≡ l ++ ev ∷ m
      → IsOnce w s
      → IsOnce w (record { watcher = emit s.watcher ev; pending = l ++ m })
  emitted-IsOnce w s l m ev e h =
      emit-ind (λ v. IsOnce w (record { watcher = v; pending = l ++ m })) s.watcher ev
        (record {
          new = h.new;
          since = h.since;
          once = λ key n hn.
              omega (arith, h.once key n hn, parts key n, tally-append key (format_uint n) l m);
          recorded = λ key n hn pos.
              h.recorded key n hn
                (omega (arith, pos, parts key n, tally-append key (format_uint n) l m));
        })
        (λ _ _. record {
          new = h.new ++ ev ∷ [];
          since = ap (λ x. x ++ ev ∷ []) h.since ∙ append_assoc w.sent h.new (ev ∷ []);
          once = λ key n hn. omega (
            arith,
            h.once key n hn,
            parts key n,
            tally-append key (format_uint n) l m,
            tally-append key (format_uint n) h.new (ev ∷ []),
          );
          recorded = λ key n hn pos. h.recorded key n hn (
              omega (
                arith,
                pos,
                parts key n,
                tally-append key (format_uint n) l m,
                tally-append key (format_uint n) h.new (ev ∷ []),
              ));
        })
    where
      parts :
          (key : Bytes) (n : ℕ)
          → tally key (format_uint n) s.pending
            ≡ tally key (format_uint n) l
              + (one_if (is_of key (format_uint n) ev) + tally key (format_uint n) m)
      parts key n = ap (tally key (format_uint n)) e ∙ tally-append key (format_uint n) l (ev ∷ m)

  receive-sent : (v : PerWatcher Obj) → (receive v).sent ≡ v.sent
  unfolding receive
  receive-sent v =
      if_ind (λ (x : PerWatcher Obj). x.sent ≡ v.sent) (ltb v.taken (length v.sent)) _ _ (λ _. refl)
        (λ _. refl)

  receive-emitted : (v : PerWatcher Obj) → (receive v).emitted ≡ v.emitted
  unfolding receive
  receive-emitted v =
      if_ind (λ (x : PerWatcher Obj). x.emitted ≡ v.emitted) (ltb v.taken (length v.sent)) _ _
        (λ _. refl) (λ _. refl)

  LiveStep-IsOnce : (w : PerWatcher Obj) (s t : Live Obj) → LiveStep k s t → IsOnce w s → IsOnce w t
  unfolding admit
  LiveStep-IsOnce w s t (adds obj num e) h =
      rw e (admit-IsOnce w s obj added num (simp num.0 refl) h)
  LiveStep-IsOnce w s t (modifies obj num e) h =
      rw e (admit-IsOnce w s obj modified num (simp num.0 refl) h)
  LiveStep-IsOnce w s t (emits l m ev p e) h = rw e (emitted-IsOnce w s l m ev p h)
  LiveStep-IsOnce w s t (receives e) h = rw e (record {
    new = h.new;
    since = receive-sent s.watcher ∙ h.since;
    once = h.once;
    recorded = λ key n hn pos.
        let (m, (q, bounds)) = h.recorded key n hn pos in
        (m, (ap (lookup key) (receive-emitted s.watcher) ∙ q, bounds));
  })
  LiveStep-IsOnce w s t (stops e) h =
      rw e (record { new = h.new; since = h.since; once = h.once; recorded = h.recorded })

  LiveReach-IsOnce : (w : PerWatcher Obj) (t : Live Obj) → LiveReach k w t → IsOnce w t
  LiveReach-IsOnce w _ begins = record {
    new = [];
    since = sym (append-nil w.sent);
    once = λ key n hn. omega arith;
    recorded = λ key n hn pos. absurd (omega (arith, pos));
  }
  LiveReach-IsOnce w t (goes {s = s} r st) = LiveStep-IsOnce w s t st (LiveReach-IsOnce w s r)

  -- Behind the replay of a watcher and without a shared poll, as long as objects carry decimal versions and
  -- nothing is deleted, however many goroutines emit its live events, each of which admits its event under
  -- the lock and emits it at any later time, in any order, and whatever is dropped, received or stopped
  -- meanwhile: each version of an object is put on the channel at most once.
  pub LiveReach-once :
      (w : PerWatcher Obj) (t : Live Obj) (key : Bytes) (n : ℕ)
      → LiveReach k w t
      → n ≤ max_u64
      → (new : List (Event Obj)) × ((t.watcher.sent ≡ w.sent ++ new)
          × (tally key (format_uint n) new ≤ 1))
  LiveReach-once w t key n r hn =
      let h = LiveReach-IsOnce w t r in (h.new, (h.since, omega (arith, h.once key n hn)))
