-- ===== src/Multihost/Lock/Exclusion.antt =====
-- What compare-and-swap on the metadata resource gives the lock of runtime/library/multihost/lock.go, whose holder
-- renews it while others act.
use aggexp.Prelude.{
  ◌≡◌, refl, ap, ◌∙◌, sym, List, [], ◌∷◌, Option, none, some, arith, ◌⊎◌, inl, inr, true, if_ind,
}
use aggexp.Text.{Bytes}
use aggexp.Kube.{ApiError, Result, ok, err, is_conflict, is_not_found}
use aggexp.Multihost.MetaStore.{
  Raw, Record, MetaApi, set_lock_on, get_raw_direct, update_raw, commit_body_hash_and_meta,
  or_absent,
}
use aggexp.Multihost.Lock.{
  Locker, Handle, acquire, commit_raw, commit, renewal, after_reread, after_renewal, renew_raw,
  renew, tick, Turn, ticks, elsewhere, hold,
}
use aggexp.Multihost.Lock.Taken.{HasRaw}
use aggexp.Multihost.Lock.Cas.{
  IsCas, Updated, AtVersion, acquire_rounds-Acquired, as_record-Updated,
}

module _ {World Content : Type 0} (api : MetaApi World Content) (version : World → Option Bytes)
    (cas : IsCas version api) (l : Locker) (name : Bytes) where
  -- The handle is on the version that `left` says.
  abbrev OnVersion : Option Bytes → Option (Raw Content) → Type 0
  OnVersion left none = Unit
  OnVersion left (some raw) = left ≡ some raw.resource_version

  -- A turn of renewal, which is on, whose write met a conflict and that then read a resource.
  abbrev pub Adopts : World → Handle Content → Type 0
  Adopts w h =
      (l.renew_enabled ≡ true)
      × ((raw : Raw Content) × ((h.raw ≡ some raw)
            × ((v : World) × ((e : ApiError) × ((update_raw api w
                        (set_lock_on raw (some (renewal api l name raw (api.now w))))
                      ≡ (v, err e))
                    × ((is_conflict e ≡ true)
                        × ((z : World) × ((fresh : Raw Content) × (api.get v
                                ≡ (z, ok fresh))))))))))

  -- A turn either wrote on the version that was left and leaves its own, or leaves the handle where it was.
  abbrev pub Turned : Option Bytes → World → World → Handle Content → Type 0
  Turned left w v g = ((version w ≡ left) × OnVersion (version v) g.raw) ⊎ OnVersion left g.raw

  abbrev Read : World → World × Result (Option (Raw Content)) → Type 0
  Read v (z, err e) = Unit
  Read v (z, ok none) = Unit
  Read v (z, ok (some fresh)) = api.get v ≡ (z, ok fresh)

  or_absent-Read :
      (v : World) (out : World × Result (Raw Content))
      → api.get v ≡ out
      → Read v (or_absent api out)
  or_absent-Read v (z, ok raw) e = e
  or_absent-Read v (z, err x) e =
      if_ind (λ (r : Result (Option (Raw Content))). Read v (z, r)) (is_not_found x) _ _ (λ _. tt)
        (λ _. tt)

  module _ (left : Option Bytes) (w : World) (h : Handle Content) (raw : Raw Content)
      (on : left ≡ some raw.resource_version) (has : h.raw ≡ some raw)
      (enabled : l.renew_enabled ≡ true) where
    abbrev sent : Raw Content
    sent = set_lock_on raw (some (renewal api l name raw (api.now w)))

    sent-OnVersion : OnVersion left (some sent)
    unfolding set_lock_on
    sent-OnVersion = on

    Turned-reread :
        (v : World) (e : ApiError) (out : World × Result (Option (Raw Content)))
        → update_raw api w sent ≡ (v, err e)
        → is_conflict e ≡ true
        → Read v out
        → Adopts w h
          ⊎ Turned left w
              (after_reread api l name (record h { raw = some sent }) out).0
              (after_reread api l name (record h { raw = some sent }) out).1.0
    Turned-reread v e (z, err x) refused c r = inr (inr sent-OnVersion)
    Turned-reread v e (z, ok none) refused c r = inr (inr sent-OnVersion)
    Turned-reread v e (z, ok (some fresh)) refused c r =
        inl (enabled, (raw, (has, (v, (e, (refused, (c, (z, (fresh, r)))))))))

    Turned-failed :
        (v : World) (e : ApiError)
        → update_raw api w sent ≡ (v, err e)
        → Adopts w h
          ⊎ Turned left w
              (after_renewal api l name (record h { raw = some sent }) (v, err e)).0
              (after_renewal api l name (record h { raw = some sent }) (v, err e)).1.0
    unfolding get_raw_direct
    Turned-failed v e refused =
        if_ind
          (λ (x : World × (Handle Content × Result (Unit {0}))).
            Adopts w h ⊎ Turned left w x.0 x.1.0)
          (is_conflict e) _ _
          (λ c. Turned-reread v e (or_absent api (api.get v)) refused c (or_absent-Read v _ refl))
          (λ _. inr (inr sent-OnVersion))

    Turned-out :
        (out : World × Result (Raw Content))
        → update_raw api w sent ≡ out
        → Updated version w sent.resource_version out
        → Adopts w h
          ⊎ Turned left w
              (after_renewal api l name (record h { raw = some sent }) out).0
              (after_renewal api l name (record h { raw = some sent }) out).1.0
    Turned-out (v, ok updated) e (before, after) = inr (inl (before ∙ sym sent-OnVersion, after))
    Turned-out (v, err e) refused u = Turned-failed v e refused

  tick-Turned :
      (left : Option Bytes) (w : World) (h : Handle Content)
      → OnVersion left h.raw
      → Adopts w h ⊎ Turned left w (tick api l name w h).0 (tick api l name w h).1
  unfolding tick renew update_raw
  tick-Turned left w h on =
      if_ind (λ (x : World × Handle Content). Adopts w h ⊎ Turned left w x.0 x.1) l.renew_enabled _
        _ (λ enabled. cases enabled h.raw refl on) (λ _. inr (inr on))
    where
      cases :
          (enabled : l.renew_enabled ≡ true) (o : Option (Raw Content))
          → h.raw ≡ o
          → OnVersion left o
          → Adopts w h
            ⊎ Turned left w (renew_raw api l name w h o).0 (renew_raw api l name w h o).1.0
      cases enabled none has on = inr (inr (rw has tt))
      cases enabled (some raw) has on =
          Turned-out left w h raw on has enabled _ refl
            (cas.update-Updated w (sent left w h raw on has enabled))

  -- Every own write met the version that the own write before it left, up to the version at the end; a turn
  -- whose write did not go through is passed over.
  abbrev pub Unbroken :
      Option Bytes → World → Handle Content → List (Turn World) → Option Bytes → Type 0
  Unbroken left w h [] end = end ≡ left
  Unbroken left w h (elsewhere v ∷ t) end = Unbroken left v h t end
  Unbroken left w h (ticks ∷ t) end =
      let (v, g) = tick api l name w h in
      ((version w ≡ left) × Unbroken (version v) v g t end) ⊎ Unbroken left v g t end

  abbrev pub Adopted : World → Handle Content → List (Turn World) → Type 0
  Adopted w h [] = ⊥
  Adopted w h (elsewhere v ∷ t) = Adopted v h t
  Adopted w h (ticks ∷ t) = let (v, g) = tick api l name w h in Adopts w h ⊎ Adopted v g t

  hold-Unbroken :
      (left end : Option Bytes) (w : World) (h : Handle Content) (turns : List (Turn World))
      → OnVersion left h.raw
      → ((raw : Raw Content)
          → (hold api l name w h turns).1.raw ≡ some raw
          → end ≡ some raw.resource_version)
      → HasRaw (hold api l name w h turns).1.raw
      → Adopted w h turns ⊎ Unbroken left w h turns end
  unfolding hold
  hold-Unbroken left end w h [] on last has = inr (at_end h.raw refl on has)
    where
      at_end : (o : Option (Raw Content)) → h.raw ≡ o → OnVersion left o → HasRaw o → end ≡ left
      at_end none e on has = absurd has
      at_end (some raw) e on has = last raw e ∙ sym on
  hold-Unbroken left end w h (elsewhere v ∷ t) on last has =
      hold-Unbroken left end v h t on last has
  hold-Unbroken left end w h (ticks ∷ t) on last has =
      after (tick-Turned left w h on)
        (λ f. hold-Unbroken left end (tick api l name w h).0 (tick api l name w h).1 t f last has)
        (λ f.
          hold-Unbroken (version (tick api l name w h).0) end (tick api l name w h).0
            (tick api l name w h).1 t f last has)
    where
      after :
          Adopts w h ⊎ Turned left w (tick api l name w h).0 (tick api l name w h).1
          → (OnVersion left (tick api l name w h).1.raw
              → Adopted (tick api l name w h).0 (tick api l name w h).1 t
                ⊎ Unbroken left (tick api l name w h).0 (tick api l name w h).1 t end)
          → (OnVersion (version (tick api l name w h).0) (tick api l name w h).1.raw
              → Adopted (tick api l name w h).0 (tick api l name w h).1 t
                ⊎ Unbroken
                    (version (tick api l name w h).0)
                    (tick api l name w h).0
                    (tick api l name w h).1
                    t
                    end)
          → Adopted w h (ticks ∷ t) ⊎ Unbroken left w h (ticks ∷ t) end
      after (inl a) kept wrote = inl (inl a)
      after (inr (inr f)) kept wrote = elim (kept f) [ inl a ↦ inl (inr a) | inr u ↦ inr (inr u) ]
      after (inr (inl (met, f))) kept wrote = elim (wrote f) [
        | inl a ↦ inl (inr a)
        | inr u ↦ inr (inl (met, u))
      ]

  -- What a commit that succeeds met and left.
  Met : World → World → Option (Raw Content) → Record Content → Type 0
  Met w2 w3 o r =
      HasRaw o
      × (((raw : Raw Content) → o ≡ some raw → version w2 ≡ some raw.resource_version)
          × (version w3 ≡ some r.record_rv))

  commit_raw-Met :
      (w2 w3 : World) (o : Option (Raw Content)) (rec r : Record Content)
      → commit_raw api l name w2 o rec ≡ (w3, ok r)
      → Met w2 w3 o r
  unfolding commit_body_hash_and_meta Met
  commit_raw-Met w2 w3 none rec r e = absurd (ground arith)
  commit_raw-Met w2 w3 (some raw) rec r e =
      let (before, after) =
        as_record-Updated api version cas l name w2 raw.resource_version _ w3 r
          (cas.update-Updated w2 _) e in
      (tt, (λ other same. before ∙ ap version_of (same_raw raw other same), after))
    where
      version_of : Raw Content → Option Bytes
      version_of x = some x.resource_version

      same_raw : (a b : Raw Content) → some a ≡ some b → a ≡ b
      same_raw a b e = ground arith

  -- When the resource is written by compare-and-swap, a commit that succeeds, on the handle of an acquire that
  -- succeeded and after any turns of its renewal and of everybody else, leaves the version that it returns;
  -- and unless renewal is on and a turn of it has met a conflict and adopted what it then read, no write of anybody else came
  -- between: the commit and each renewal that was written met the very version that the own write before it,
  -- in the end that of the acquire, had left.
  pub commit-acquire :
      (w w1 w2 w3 : World) (h h2 : Handle Content) (turns : List (Turn World))
      (rec r : Record Content)
      → acquire api l name w ≡ (w1, ok h)
      → hold api l name w1 h turns ≡ (w2, h2)
      → commit api l name w2 h2 rec ≡ (w3, ok r)
      → (version w3 ≡ some r.record_rv)
        × (Adopted w1 h turns ⊎ Unbroken (version w1) w1 h turns (version w2))
  unfolding acquire commit Met
  commit-acquire w w1 w2 w3 h h2 turns rec r got kept done =
      let (has, (met, left)) = commit_raw-Met w2 w3 h2.raw rec r done in
      let on : OnVersion (version w1) h.raw =
        on_acquired h.raw (simp got at (acquire_rounds-Acquired api version cas l name 3 none w)) in
      let same : (hold api l name w1 h turns).1.raw ≡ h2.raw = ap (λ x. x.1.raw) kept in
      (
        left,
        hold-Unbroken (version w1) (version w2) w1 h turns on (λ raw e. met raw (sym same ∙ e))
            (rw same has),
      )
    where
      on_acquired :
          (o : Option (Raw Content))
          → AtVersion api version cas l name w1 o
          → OnVersion (version w1) o
      on_acquired none a = tt
      on_acquired (some raw) a = a
