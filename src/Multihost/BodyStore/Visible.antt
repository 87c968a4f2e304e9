-- ===== src/Multihost/BodyStore/Visible.antt =====
-- The two reads of a caller agree: what it is listed it can get, and it sees nothing else.
use aggexp.Prelude.{
  ◌≡◌, refl, ap, ◌∙◌, ℕ, Bool, true, ◌&&◌, List, [], ◌∷◌, Option, some, All, keep, arith,
  Bool-cases, inl, inr,
}
use aggexp.Text.{Bytes}
use aggexp.GoMap.{GoMap, lookup}
use aggexp.Multihost.Ref.{User, IdentityGate, body_name}
use aggexp.Multihost.BodyStore.{
  BodyCr, BodyRef, body_from, ref_from, refs_of, body_ref_less, insert_ref, sort_body_refs,
  in_namespace, decoded, cache_get, visible_to, get_for, cached, cache_list, list_for,
}

module _ {Json : Type 0} (P : BodyRef Json → Type 0) where
  All-insert_ref :
      (a : BodyRef Json) (l : List (BodyRef Json)) → P a → All P l → All P (insert_ref a l)
  unfolding insert_ref
  All-insert_ref a [] p h = (p, tt)
  All-insert_ref a (b ∷ l) p (q, h) = elim (Bool-cases (body_ref_less b a)) [
    | inl e ↦ rw e (q, All-insert_ref a l p h)
    | inr e ↦ rw e (p, (q, h))
  ]

  pub All-sort_body_refs : (l : List (BodyRef Json)) → All P l → All P (sort_body_refs l)
  unfolding sort_body_refs
  All-sort_body_refs [] h = tt
  All-sort_body_refs (a ∷ l) (p, h) = All-insert_ref a (sort_body_refs l) p (All-sort_body_refs l h)

module _ {Json : Type 0} (sha256 : Bytes → List ℕ) (gate : IdentityGate)
    (cache : GoMap (BodyCr Json)) where
  -- Every cached resource is stored under the name of its reference, and found there.
  abbrev pub IsIndexed : GoMap (BodyCr Json) → Type 0
  IsIndexed [] = Unit
  IsIndexed ((k, u) ∷ l) =
      (lookup (body_name sha256 u.ref_namespace u.ref_name) cache ≡ some u) × IsIndexed l

  -- The caller may see the object, and gets it by its reference.
  abbrev pub Gettable : Option User → BodyRef Json → Type 0
  Gettable u r =
      (gate u r.body.owner ≡ true) × (get_for sha256 gate cache u r.namespace r.name ≡ some r.body)

  -- Of a reference: the namespace fits, and the caller gets it.
  abbrev pub Listed : Option User → Bytes → BodyRef Json → Type 0
  Listed u namespace r = (in_namespace namespace r ≡ true) × Gettable u r

  gettable :
      (u : Option User) (cr : BodyCr Json)
      → lookup (body_name sha256 cr.ref_namespace cr.ref_name) cache ≡ some cr
      → gate u (body_from cr).owner ≡ true
      → get_for sha256 gate cache u cr.ref_namespace cr.ref_name ≡ some (body_from cr)
  unfolding get_for cache_get
  gettable u cr found admitted =
      ap (λ o. visible_to sha256 gate cache u (decoded sha256 gate cache o)) found
      ∙ rw admitted refl

  both : (a b : Bool) → (a && b) ≡ true → (a ≡ true) × (b ≡ true)
  both a b h = ground arith

  kept-Listed :
      (u : Option User) (namespace : Bytes) (l : GoMap (BodyCr Json))
      → IsIndexed l
      → All (Listed u namespace) (
          keep
            (λ r. in_namespace namespace r && gate u r.body.owner)
            (refs_of (cached sha256 gate cache l)))
  kept-Listed u namespace [] h = tt
  kept-Listed u namespace ((k, cr) ∷ l) (found, h) =
      elim (Bool-cases (in_namespace namespace (ref_from cr) && gate u (body_from cr).owner)) [
        | inl e ↦
            let (fits, admitted) = both _ _ e in
            rw e ((fits, (admitted, gettable u cr found admitted)), kept-Listed u namespace l h)
        | inr e ↦ rw e (kept-Listed u namespace l h)
      ]

  -- When every cached resource is found under the name of its reference, each object that a caller is
  -- listed is in the namespace asked for (or any, for none), is one that the gate lets it see, and is
  -- what a get by its reference gives the caller.
  pub list_for-Listed :
      (u : Option User) (namespace : Bytes)
      → IsIndexed cache
      → All (Listed u namespace) (list_for sha256 gate cache u namespace)
  unfolding list_for cache_list
  list_for-Listed u namespace h =
      All-sort_body_refs (Listed u namespace) _ (kept-Listed u namespace cache h)
