-- ===== src/Multihost/BodyStore/Subscriptions/Budget.antt =====
-- The bounds on subscriptions that every order of calls keeps.
use aggexp.Prelude.{
  ℕ, ◌≤◌, ◌≡◌, refl, Bool, not, ◌&&◌, List, [], ◌∷◌, Option, All, arith, length, length-append,
  keep, ltb, leb, ◌==◌, Bool-cases, inl, inr, ◌⊎◌,
}
use aggexp.Multihost.Ref.{User, IdentityGate}
use aggexp.Multihost.BodyStore.Subscriptions.{
  BodyChange, Subscriber, Fanout, new_fanout, watch_for, close, wants, offer, offer_all, deliver,
  rest_pending, take_from,
}

-- What watchers, the informer and the readers do to the fan-out.
pub data Call (Json : Type 0) : Type 0 where
  opens : Option User → ℕ → Call Json
  closes reads : ℕ → Call Json
  delivers : BodyChange Json → Call Json

module _ {Json : Type 0} (gate : IdentityGate) where
  unfoldable pub step : Fanout Json → Call Json → Fanout Json
  step f (opens u n) = (watch_for gate f u n).0
  step f (closes i) = close f i
  step f (reads i) = record f { subscribers = take_from i f.subscribers }
  step f (delivers c) = deliver f c

  unfoldable pub run : Fanout Json → List (Call Json) → Fanout Json
  run f [] = f
  run f (c ∷ cs) = run (step f c) cs

abbrev pub FitsBuffer : {Json : Type 0} → Subscriber Json → Type 0
FitsBuffer s = length s.pending ≤ s.capacity

-- At most `budget` subscriptions, unless it is 0, and no buffer over its capacity.
pub record IsBounded {Json : Type 0} (budget : ℕ) (f : Fanout Json) : Type 0 where
  pub same_budget : f.upstream_budget ≡ budget
  pub within : (budget ≡ 0) ⊎ (length f.subscribers ≤ budget)
  pub buffers : All FitsBuffer f.subscribers

module _ {Json : Type 0} where
  length-keep :
      (p : Subscriber Json → Bool) (l : List (Subscriber Json)) → length (keep p l) ≤ length l
  length-keep p [] = omega arith
  length-keep p (s ∷ l) = elim (Bool-cases (p s)) [
    | inl e ↦ rw e (omega (arith, length-keep p l))
    | inr e ↦ rw e (omega (arith, length-keep p l))
  ]

  All-keep :
      (p : Subscriber Json → Bool) (l : List (Subscriber Json))
      → All FitsBuffer l
      → All FitsBuffer (keep p l)
  All-keep p [] h = tt
  All-keep p (s ∷ l) (q, h) = elim (Bool-cases (p s)) [
    | inl e ↦ rw e (q, All-keep p l h)
    | inr e ↦ rw e (All-keep p l h)
  ]

  offer-FitsBuffer :
      (c : BodyChange Json) (s : Subscriber Json) → FitsBuffer s → FitsBuffer (offer c s)
  unfolding offer
  offer-FitsBuffer c s h = elim (Bool-cases (wants s c && ltb (length s.pending) s.capacity)) [
    | inl e ↦ simp e (ground (arith, length-append s.pending (c ∷ [])))
    | inr e ↦ simp e h
  ]

  offer_all-FitsBuffer :
      (c : BodyChange Json) (l : List (Subscriber Json))
      → All FitsBuffer l
      → All FitsBuffer (offer_all c l) × (length (offer_all c l) ≡ length l)
  unfolding offer_all
  offer_all-FitsBuffer c [] h = (tt, refl)
  offer_all-FitsBuffer c (s ∷ l) (q, h) =
      let (fits, same) = offer_all-FitsBuffer c l h in
      ((offer-FitsBuffer c s q, fits), omega (arith, same))

  length-rest_pending : (l : List (BodyChange Json)) → length (rest_pending l) ≤ length l
  length-rest_pending [] = omega arith
  length-rest_pending (c ∷ l) = omega arith

  take_from-FitsBuffer :
      (i : ℕ) (l : List (Subscriber Json))
      → All FitsBuffer l
      → All FitsBuffer (take_from i l) × (length (take_from i l) ≡ length l)
  unfolding take_from
  take_from-FitsBuffer i [] h = (tt, refl)
  take_from-FitsBuffer i (s ∷ l) (q, h) =
      let (fits, same) = take_from-FitsBuffer i l h in
      elim (Bool-cases (s.id == i)) [
        | inl e ↦ simp e ((omega (arith, length-rest_pending s.pending), fits), omega (arith, same))
        | inr e ↦ simp e ((q, fits), omega (arith, same))
      ]

  watch_for-IsBounded :
      (gate : IdentityGate) (budget : ℕ) (f : Fanout Json) (u : Option User) (n : ℕ)
      → IsBounded budget f
      → IsBounded budget (watch_for gate f u n).0
  unfolding watch_for
  watch_for-IsBounded gate budget f u n h =
      elim (Bool-cases (ltb 0 f.upstream_budget && leb f.upstream_budget (length f.subscribers))) [
        | inl e ↦ simp e h
        | inr e ↦ simp e (record {
          same_budget = h.same_budget;
          within = ground (arith, h.same_budget, h.within);
          buffers = (omega arith, h.buffers);
        })
      ]

  step-IsBounded :
      (gate : IdentityGate) (budget : ℕ) (f : Fanout Json) (c : Call Json)
      → IsBounded budget f
      → IsBounded budget (step gate f c)
  unfolding step close deliver
  step-IsBounded gate budget f (opens u n) h = watch_for-IsBounded gate budget f u n h
  step-IsBounded gate budget f (closes i) h = record {
    same_budget = h.same_budget;
    within =
        ground
          (arith, h.within, length-keep (λ (s : Subscriber Json). not (s.id == i)) f.subscribers);
    buffers = All-keep _ f.subscribers h.buffers;
  }
  step-IsBounded gate budget f (reads i) h =
      let (fits, same) = take_from-FitsBuffer i f.subscribers h.buffers in
      record {
        same_budget = h.same_budget;
        within = ground (arith, h.within, same);
        buffers = fits;
      }
  step-IsBounded gate budget f (delivers c) h =
      let (fits, same) = offer_all-FitsBuffer c f.subscribers h.buffers in
      record {
        same_budget = h.same_budget;
        within = ground (arith, h.within, same);
        buffers = fits;
      }

  run-IsBounded :
      (gate : IdentityGate) (budget : ℕ) (f : Fanout Json) (cs : List (Call Json))
      → IsBounded budget f
      → IsBounded budget (run gate f cs)
  unfolding run
  run-IsBounded gate budget f [] h = h
  run-IsBounded gate budget f (c ∷ cs) h =
      run-IsBounded gate budget (step gate f c) cs (step-IsBounded gate budget f c h)

  -- From a new body store, after subscriptions, closes, deliveries and reads in any order, there are never
  -- more subscriptions than a positive budget, and no buffer holds more changes than its capacity.
  pub run-new-IsBounded :
      (gate : IdentityGate) (budget : ℕ) (cs : List (Call Json))
      → IsBounded budget (run gate (new_fanout budget) cs)
  unfolding new_fanout
  run-new-IsBounded gate budget cs =
      run-IsBounded gate budget (new_fanout budget) cs
        (record { same_budget = refl; within = inr (omega arith); buffers = tt })
