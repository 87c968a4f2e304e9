-- ===== src/Multihost/Hub/Channels.antt =====
-- What holds of the channels and the registry in every reachable state of the hub.
use aggexp.Prelude.{
  ℕ, ◌+◌, ◌-◌, ◌≡◌, ◌<◌, ◌≤◌, refl, sym, ◌∙◌, List, [], ◌∷◌, ◌++◌, arith, if◌then◌else◌, All, ltb,
  length, length-append, if_ind,
}
use aggexp.Kube.{Event}
use aggexp.Multihost.Hub.{PerWatcher, Hub, receive, emit}
use aggexp.Multihost.Hub.Emission.{emit-ind}

-- The channel holds at most its capacity, and no more has been received than sent.
abbrev pub IsChannel : {Obj : Type 0} → PerWatcher Obj → Type 0
IsChannel w = (w.taken ≤ length w.sent) × (length w.sent ≤ w.taken + w.capacity)

module _ {Obj : Type 0} where
  -- A step that leaves the watcher's registration, and its channel when that is closed.
  pub record Keeps (w v : PerWatcher Obj) : Type 0 where
    pub same_id : v.id ≡ w.id
    pub same_closed : v.closed ≡ w.closed
    pub same_capacity : v.capacity ≡ w.capacity
    pub channel : IsChannel w → IsChannel v

  pub Keeps-refl : (w : PerWatcher Obj) → Keeps w w
  Keeps-refl w = record {
    same_id = refl;
    same_closed = refl;
    same_capacity = refl;
    channel = λ h. h;
  }

  pub emit-Keeps : (w v : PerWatcher Obj) (ev : Event Obj) → Keeps w v → Keeps w (emit v ev)
  emit-Keeps w v ev h = emit-ind (Keeps w) v ev h (λ _ space. record {
    same_id = h.same_id;
    same_closed = h.same_closed;
    same_capacity = h.same_capacity;
    channel = λ c. omega (arith, h.channel c, space, length-append v.sent (ev ∷ []));
  })

  pub receive-Keeps : (w : PerWatcher Obj) → Keeps w (receive w)
  unfolding receive
  receive-Keeps w =
      if_ind (Keeps w) (ltb w.taken (length w.sent)) _ _
        (λ e. record {
          same_id = refl;
          same_closed = refl;
          same_capacity = refl;
          channel = λ c. ground (arith, c, e);
        })
        (λ _. Keeps-refl w)

  -- The watchers and those that take their places.
  abbrev pub EachKeeps : List (PerWatcher Obj) → List (PerWatcher Obj) → Type 0
  EachKeeps [] [] = Unit
  EachKeeps (w ∷ l) (v ∷ m) = Keeps w v × EachKeeps l m
  EachKeeps _ _ = ⊥

  pub EachKeeps-refl : (l : List (PerWatcher Obj)) → EachKeeps l l
  EachKeeps-refl [] = tt
  EachKeeps-refl (w ∷ l) = (Keeps-refl w, EachKeeps-refl l)

  pub EachKeeps-at :
      (l m : List (PerWatcher Obj)) (w v : PerWatcher Obj)
      → Keeps w v
      → EachKeeps (l ++ w ∷ m) (l ++ v ∷ m)
  EachKeeps-at [] m w v h = (h, EachKeeps-refl m)
  EachKeeps-at (u ∷ l) m w v h = (Keeps-refl u, EachKeeps-at l m w v h)

  unfoldable pub open_count : List (PerWatcher Obj) → ℕ
  open_count [] = 0
  open_count (w ∷ l) = (if w.closed then 0 else 1) + open_count l

  abbrev pub IdsFrom : ℕ → List (PerWatcher Obj) → Type 0
  IdsFrom n [] = Unit
  IdsFrom n (w ∷ l) = (w.id ≤ n) × ((0 < w.id) × IdsFrom (w.id - 1) l)

  -- The channels are sound, the ids fall along the list from the last one given, and the gauge is the
  -- number of open watchers.
  pub record IsSound (h : Hub Obj) : Type 0 where
    pub channels : All IsChannel h.watchers
    pub ids : IdsFrom h.next_id h.watchers
    pub gauge : h.counters.watchers ≡ open_count h.watchers

  kept_facts :
      (n : ℕ) (l m : List (PerWatcher Obj))
      → EachKeeps l m
      → All IsChannel l
      → IdsFrom n l
      → All IsChannel m × (IdsFrom n m × (open_count m ≡ open_count l))
  unfolding open_count
  kept_facts n [] [] h c i = (tt, (tt, refl))
  kept_facts n [] (v ∷ m) h c i = elim h [ ]
  kept_facts n (w ∷ l) [] h c i = elim h [ ]
  kept_facts n (w ∷ l) (v ∷ m) (h, hs) (c, cs) (below, (pos, i)) =
      let (channels, (ids, same)) = kept_facts (w.id - 1) l m hs cs i in
      (
        (h.channel c, channels),
        (
          (omega (arith, h.same_id, below), (omega (arith, h.same_id, pos), rw h.same_id ids)),
          rw (h.same_closed, same) refl,
        ),
      )

  pub keeps-IsSound :
      (h g : Hub Obj)
      → EachKeeps h.watchers g.watchers
      → g.next_id ≡ h.next_id
      → g.counters.watchers ≡ h.counters.watchers
      → IsSound h
      → IsSound g
  keeps-IsSound h g each next gauge s =
      let (channels, (ids, same)) =
        kept_facts h.next_id h.watchers g.watchers each s.channels s.ids in
      record { channels = channels; ids = rw next ids; gauge = gauge ∙ s.gauge ∙ sym same }
