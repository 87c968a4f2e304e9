-- ===== src/Multihost/BodyStore/RoundTrip.antt =====
-- What a body is after it has been written to its resource and read back.
use aggexp.Prelude.{
  ◌≡◌, refl, ◌∙◌, ap, Bool, true, false, [], ◌∷◌, Option, none, some, arith, if◌then◌else◌,
}
use aggexp.Text.{Bytes, str_eq, str_eq_refl}
use aggexp.GoMap.{GoMap, lookup, lookup-insert, lookup-delete}
use aggexp.Multihost.Ref.{Value, text, Body}
use aggexp.Multihost.BodyStore.{owner_key, text_of, insert_fields, encode_body, body_from}

module _ {Json : Type 0} where
  abbrev pub or_else : Option (Value Json) → Option (Value Json) → Option (Value Json)
  or_else (some v) d = some v
  or_else none d = d

  lookup-insert_fields :
      (j : Bytes) (l m : GoMap (Value Json))
      → lookup j (insert_fields l m) ≡ or_else (lookup j l) (lookup j m)
  unfolding insert_fields lookup
  lookup-insert_fields j [] m = refl
  lookup-insert_fields j ((k, v) ∷ l) m =
      ground (arith, lookup-insert k j v (insert_fields l m), lookup-insert_fields j l m)

  -- A field named "owner" takes the place of the owner.
  abbrev pub read_owner : Bytes → Option (Value Json) → Bytes
  read_owner owner none = owner
  read_owner owner (some v) = text_of (some v)

  read_owner-text_of :
      (b : Body Json) (o : Option (Value Json))
      → text_of (or_else o (some (text b.owner))) ≡ read_owner b.owner o
  read_owner-text_of b none = refl
  read_owner-text_of b (some v) = refl

  owner_lookup :
      (b : Body Json)
      → lookup {V = Value Json} owner_key ((owner_key, text b.owner) ∷ []) ≡ some (text b.owner)
  unfolding lookup
  owner_lookup b = rw (str_eq_refl owner_key) refl

  other_lookup :
      (j : Bytes) (b : Body Json)
      → str_eq owner_key j ≡ false
      → lookup {V = Value Json} j ((owner_key, text b.owner) ∷ []) ≡ none
  unfolding lookup
  other_lookup j b e = rw e refl

  or_else-none : (o : Option (Value Json)) → or_else o none ≡ o
  or_else-none none = refl
  or_else-none (some v) = refl

  fields_same :
      (j : Bytes) (b : Body Json) (test : Bool)
      → str_eq owner_key j ≡ test
      → (if test
          then none
          else lookup {V = Value Json} j (insert_fields b.fields ((owner_key, text b.owner) ∷ [])))
        ≡ (if test then none else lookup j b.fields)
  fields_same j b true e = refl
  fields_same j b false e =
      lookup-insert_fields j b.fields _
      ∙ ap (or_else (lookup j b.fields)) (other_lookup j b e)
      ∙ or_else-none (lookup j b.fields)

  -- A body that is written and read back has every field but one named "owner" as it was; and its owner
  -- is the body's own unless there is a field of that name, whose text (empty if it is none) replaces it.
  pub body_from-encode_body :
      (namespace name : Bytes) (b : Body Json) (j : Bytes)
      → let back = body_from (encode_body namespace name b) in
        (back.owner ≡ read_owner b.owner (lookup owner_key b.fields))
        × (lookup j back.fields ≡ (if str_eq owner_key j then none else lookup j b.fields))
  unfolding body_from encode_body
  body_from-encode_body namespace name b j = (
    ap text_of (
          lookup-insert_fields owner_key b.fields _
          ∙ ap (or_else (lookup owner_key b.fields)) (owner_lookup b))
        ∙ read_owner-text_of b (lookup owner_key b.fields),
    lookup-delete owner_key j _ ∙ fields_same j b (str_eq owner_key j) refl,
  )
