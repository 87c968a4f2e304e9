-- ===== src/Multihost/Hub/Reads.antt =====
-- How often one metadata event reads a body.
use aggexp.Prelude.{
  ℕ, ◌+◌, ◌≡◌, refl, sym, ap, ◌∙◌, inl, inr, List, [], ◌∷◌, ◌++◌, Option, none, some, arith, Bool,
  true, false, if◌then◌else◌, Bool-cases, Option-cases, length, length-append, append_assoc,
  append-nil,
}
use aggexp.Text.{Bytes, str_eq, str_eq_refl, str_eq-false, contains}
use aggexp.GoMap.{GoMap, lookup, insert, lookup-insert}
use aggexp.Kube.{Accessor, EventType}
use aggexp.Multihost.Ref.{ResourceRef}
use aggexp.Multihost.Hub.{PerWatcher, WatchStitcher, identity_key}
use aggexp.Multihost.Hub.Fanout.{Pass, cached_get, cache_key, concerns, fetched, fan_out, new_pass}

abbrev pub is_some : {A : Type 0} → Option A → Bool
is_some none = false
is_some (some a) = true

-- The strings that are not in `seen`, each where it stands first.
unfoldable pub firsts : List Bytes → List Bytes → List Bytes
firsts seen [] = []
firsts seen (x ∷ xs) =
    let later = firsts seen xs in
    let new = firsts (x ∷ seen) xs in if contains seen x then later else x ∷ new

-- What a stitcher is asked for: an identity, by name, with a namespace and a name.
abbrev pub Request : Type 0
Request = Bytes × (Bytes × Bytes)

abbrev pub requests : Bytes → Bytes → List Bytes → List Request
requests namespace name [] = []
requests namespace name (u ∷ l) = (u, (namespace, name)) ∷ requests namespace name l

-- The same stitcher, with every call of it written down behind the world.
abbrev pub logging :
    {World Obj : Type 0} → WatchStitcher World Obj → WatchStitcher (World × List Request) Obj
logging s = record {
  stitch_for = λ w u namespace name.
      let (v, o) = s.stitch_for w.0 u namespace name in
      ((v, w.1 ++ (identity_key u, (namespace, name)) ∷ []), o);
  new_bookmark = s.new_bookmark;
}

length_eq : (a b : Bytes) → a ≡ b → length a ≡ length b
length_eq a b e = ap length e

no_longer : (s : Bytes) (d : ℕ) (t : Bytes) → ¬ (s ≡ d ∷ (t ++ s))
no_longer s d t e = absurd (omega (arith, length_eq _ _ e, length-append t s))

pub str_eq-append : (a b s : Bytes) → str_eq (a ++ s) (b ++ s) ≡ str_eq a b
unfolding str_eq
str_eq-append [] [] s = str_eq_refl s
str_eq-append [] (d ∷ t) s = str_eq-false s (d ∷ (t ++ s)) (no_longer s d t)
str_eq-append (c ∷ a) [] s = str_eq-false (c ∷ (a ++ s)) s (λ e. no_longer s c a (sym e))
str_eq-append (c ∷ a) (d ∷ b) s = rw (str_eq-append a b s) refl

module _ {World Obj : Type 0} (k : Accessor Obj) (stitcher : WatchStitcher World Obj) where
  -- The identities of the watchers that an event in the namespace concerns, by name.
  unfoldable pub identities : Bytes → List (PerWatcher Obj) → List Bytes
  identities namespace [] = []
  identities namespace (w ∷ l) =
      let rest = identities namespace l in
      if concerns k stitcher namespace w then identity_key w.identity ∷ rest else rest

  -- The cache of an event on one object holds an entry for each identity in `seen`.
  abbrev Covers : Bytes → Bytes → List Bytes → GoMap (Option Obj) → Type 0
  Covers namespace name seen cache =
      (u : Bytes) → is_some (lookup (u ++ 0 ∷ (namespace ++ 0 ∷ name)) cache) ≡ contains seen u

  Covers-insert :
      (namespace name : Bytes) (seen : List Bytes) (cache : GoMap (Option Obj)) (u : Bytes)
      (o : Option Obj)
      → Covers namespace name seen cache
      → Covers namespace name (u ∷ seen) (insert (u ++ 0 ∷ (namespace ++ 0 ∷ name)) o cache)
  unfolding contains
  Covers-insert namespace name seen cache u o h v =
      let s = 0 ∷ (namespace ++ 0 ∷ name) in
      rw (lookup-insert (u ++ s) (v ++ s) o cache, str_eq-append u v s)
        (elim (Bool-cases (str_eq u v)) [ inl e ↦ rw e refl | inr e ↦ rw e (h v) ])

module _ {World Obj : Type 0} (k : Accessor Obj) (plain : WatchStitcher World Obj) where
  abbrev stitcher : WatchStitcher (World × List Request) Obj
  stitcher = logging plain

  abbrev Counts :
      Bytes
      → Bytes
      → Pass (World × List Request) Obj
      → List Bytes
      → List (PerWatcher Obj)
      → Pass (World × List Request) Obj
      → Type 0
  Counts namespace name p seen l q =
      let asked = firsts seen (identities k stitcher namespace l) in
      (q.world.1 ≡ p.world.1 ++ requests namespace name asked)
      × (q.misses ≡ p.misses + length asked)
      × (q.hits + q.misses ≡ p.hits + p.misses + length (identities k stitcher namespace l))

  fan_out-Counts :
      (et : EventType) (ref : ResourceRef) (p : Pass (World × List Request) Obj) (seen : List Bytes)
      (l : List (PerWatcher Obj))
      → Covers k stitcher ref.namespace ref.name seen p.cache
      → Counts ref.namespace ref.name p seen l (fan_out k stitcher et ref p l).0
  unfolding fan_out identities firsts cached_get
  fan_out-Counts et ref p seen [] h = (sym (append-nil p.world.1), omega arith, omega arith)
  fan_out-Counts et ref p seen (w ∷ l) h = elim (Bool-cases (concerns k stitcher ref.namespace w)) [
    | inr e ↦ simp e (fan_out-Counts et ref p seen l h)
    | inl e ↦
        elim (Option-cases
          (lookup (cache_key k stitcher w.identity ref.namespace ref.name) p.cache)) [
            | inr (o, q) ↦
                simp (e, hit o q, q)
                  (let (asks, m, t) =
                      fan_out-Counts et ref (record p { hits = p.hits + 1 }) seen l h in
                    (asks, m, omega (arith, t)))
            | inl q ↦
                simp (e, fetch q, q)
                  (let got = stitcher.stitch_for p.world w.identity ref.namespace ref.name in
                    let (asks, m, t) =
                      fan_out-Counts et ref
                        (fetched k stitcher p
                          (cache_key k stitcher w.identity ref.namespace ref.name) got).0
                        (identity_key w.identity ∷ seen) l
                        (Covers-insert k stitcher ref.namespace ref.name seen p.cache
                          (identity_key w.identity) got.1 h) in
                    (asks ∙ append_assoc p.world.1 _ _, omega (arith, m), omega (arith, t)))
          ]
  ]
    where
      hit :
          (o : Option Obj)
          → lookup (cache_key k stitcher w.identity ref.namespace ref.name) p.cache ≡ some o
          → contains seen (identity_key w.identity) ≡ true
      hit o q = sym (h (identity_key w.identity)) ∙ ap is_some q

      fetch :
          lookup (cache_key k stitcher w.identity ref.namespace ref.name) p.cache ≡ none
          → contains seen (identity_key w.identity) ≡ false
      fetch q = sym (h (identity_key w.identity)) ∙ ap is_some q

  -- The calls of the stitcher that one event causes are, in the order of the watchers, exactly one for each
  -- identity, by name, among the open watchers of the object's namespace or of all, each for the object of
  -- the event; the misses count these calls, and hits and misses together are these watchers.
  pub fan_out-reads :
      (et : EventType) (ref : ResourceRef) (world : World) (l : List (PerWatcher Obj))
      → let pass =
          (fan_out k (logging plain) et ref (new_pass k (logging plain) (world, [])) l).0 in
        let asked = firsts [] (identities k (logging plain) ref.namespace l) in
        (pass.world.1 ≡ requests ref.namespace ref.name asked)
        × (pass.misses ≡ length asked)
        × (pass.hits + pass.misses ≡ length (identities k (logging plain) ref.namespace l))
  fan_out-reads et ref world l =
      let (asks, m, t) =
        fan_out-Counts et ref (new_pass k stitcher (world, [])) [] l
          (λ u. unfold contains lookup in refl) in
      (asks, omega (arith, m), omega (arith, t))
