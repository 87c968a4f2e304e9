-- ===== src/Admission/Paths.antt =====
-- What a mutation along a path does to the object.
use aggexp.Prelude.{
  ◌≡◌, refl, sym, ap, ◌∙◌, ◌⊎◌, inl, inr, false, List, [], ◌∷◌, Option, none, some, arith,
}
use aggexp.Text.{Bytes, codes, str_eq}
use aggexp.Admission.Values.{
  Json, null, boolean, text, object, other, Fields, empty, get_field, set_field,
  get_field-set_field, get_field-set_field_self, set_field_twice,
}
use aggexp.Admission.{
  Outcome, failed, done, apply_leaf, child_of, put_child, inside, walk_and_apply,
}

-- What stands at a path: nothing behind what is no object.
abbrev pub fields_of : Option Json → Fields
fields_of (some (object m)) = m
fields_of (some null) = empty
fields_of (some (boolean b)) = empty
fields_of (some (text s)) = empty
fields_of (some (other n)) = empty
fields_of none = empty

unfoldable pub read_path : Fields → List Bytes → Option Json
read_path obj [] = some (object obj)
read_path obj (key ∷ []) = get_field key obj
read_path obj (part ∷ next ∷ rest) = read_path (fields_of (get_field part obj)) (next ∷ rest)

-- The paths part ways: neither begins with the other.
abbrev pub Diverge : List Bytes → List Bytes → Type 0
Diverge [] q = ⊥
Diverge (a ∷ p) [] = ⊥
Diverge (a ∷ p) (b ∷ q) = (str_eq a b ≡ false) ⊎ ((a ≡ b) × Diverge p q)

done-eq : {A : Type 0} (a b : A) → done a ≡ done b → a ≡ b
done-eq a b e = ap (λ (o : Outcome _). value_or a o) e
  where
    value_or : {A : Type 0} → A → Outcome A → A
    value_or d (failed e) = d
    value_or d (done x) = x

-- Behind a step that succeeded: the change inside the child, and the object with it.
Inside : Fields → Bytes → (Fields → Outcome Fields) → Fields → Type 0
Inside obj part change after =
    (m : Fields) × ((change (fields_of (get_field part obj)) ≡ done m)
      × (set_field part (object m) obj ≡ after))

stepped :
    (obj : Fields) (part : Bytes) (change : Fields → Outcome Fields) (after : Fields)
    → put_child part obj (inside (child_of part (get_field part obj)) change) ≡ done after
    → Inside obj part change after
unfolding Inside
stepped obj part change after h = by_child (get_field part obj) refl h
  where
    changed :
        (o : Outcome Fields)
        → put_child part obj o ≡ done after
        → (m : Fields) × ((o ≡ done m) × (set_field part (object m) obj ≡ after))
    changed (failed e) q = absurd (ground (arith, q))
    changed (done m) q = (m, (refl, done-eq _ _ q))

    by_child :
        (o : Option Json)
        → get_field part obj ≡ o
        → put_child part obj (inside (child_of part o) change) ≡ done after
        → (m : Fields) × ((change (fields_of (get_field part obj)) ≡ done m)
            × (set_field part (object m) obj ≡ after))
    by_child none e q = rw e (changed (change empty) q)
    by_child (some null) e q = rw e (changed (change empty) q)
    by_child (some (object m)) e q = rw e (changed (change m) q)
    by_child (some (text s)) e q = absurd (ground (arith, q))
    by_child (some (boolean b)) e q = absurd (ground (arith, q))
    by_child (some (other n)) e q = absurd (ground (arith, q))

abbrev pub set_op : Bytes
set_op = codes "set"

set_leaf :
    (obj : Fields) (key : Bytes) (v : Json)
    → apply_leaf obj key set_op v ≡ done (set_field key v obj)
unfolding apply_leaf str_eq
set_leaf obj key v = refl

get_other :
    (k j : Bytes) (v : Json) (m : Fields)
    → str_eq k j ≡ false
    → get_field j (set_field k v m) ≡ get_field j m
get_other k j v m e = get_field-set_field k j v m ∙ rw e refl

-- What holds of an object after a "set" at the path.
abbrev WasSet : Fields → List Bytes → Json → Fields → Type 0
WasSet obj p v after =
    (read_path after p ≡ some v)
    × ((q : List Bytes) → Diverge p q → read_path after q ≡ read_path obj q)
    × (walk_and_apply after p set_op v ≡ done after)

leaf-WasSet :
    (obj : Fields) (key : Bytes) (v : Json) → WasSet obj (key ∷ []) v (set_field key v obj)
unfolding read_path walk_and_apply
leaf-WasSet obj key v = (
  get_field-set_field_self key v obj,
  apart,
  set_leaf (set_field key v obj) key v ∙ ap done (set_field_twice key v v obj),
)
  where
    apart :
        (q : List Bytes)
        → Diverge (key ∷ []) q
        → read_path (set_field key v obj) q ≡ read_path obj q
    apart [] d = elim d [ ]
    apart (b ∷ []) (inl e) = get_other key b v obj e
    apart (b ∷ []) (inr (e, d)) = elim d [ ]
    apart (b ∷ c ∷ r) (inl e) = ap (λ o. read_path (fields_of o) (c ∷ r)) (get_other key b v obj e)
    apart (b ∷ c ∷ r) (inr (e, d)) = elim d [ ]

node-WasSet :
    (obj : Fields) (part next : Bytes) (rest : List Bytes) (v : Json) (m : Fields)
    → WasSet (fields_of (get_field part obj)) (next ∷ rest) v m
    → WasSet obj (part ∷ next ∷ rest) v (set_field part (object m) obj)
unfolding read_path walk_and_apply
node-WasSet obj part next rest v m (here, frame, again) = (
  ap (λ o. read_path (fields_of o) (next ∷ rest)) (get_field-set_field_self part (object m) obj)
      ∙ here,
  apart,
  ap
        (λ o.
          put_child part (set_field part (object m) obj)
            (inside (child_of part o) (λ c. walk_and_apply c (next ∷ rest) set_op v)))
        (get_field-set_field_self part (object m) obj)
      ∙ ap (put_child part (set_field part (object m) obj)) again
      ∙ ap done (set_field_twice part (object m) (object m) obj),
)
  where
    apart :
        (q : List Bytes)
        → Diverge (part ∷ next ∷ rest) q
        → read_path (set_field part (object m) obj) q ≡ read_path obj q
    apart [] d = elim d [ ]
    apart (b ∷ []) (inl e) = get_other part b (object m) obj e
    apart (b ∷ []) (inr (e, d)) = elim d [ ]
    apart (b ∷ c ∷ r) (inl e) =
        ap (λ o. read_path (fields_of o) (c ∷ r)) (get_other part b (object m) obj e)
    apart (b ∷ c ∷ r) (inr (e, d)) =
        ap (λ j. read_path (fields_of (get_field j (set_field part (object m) obj))) (c ∷ r))
          (sym e)
        ∙ ap (λ o. read_path (fields_of o) (c ∷ r)) (get_field-set_field_self part (object m) obj)
        ∙ frame (c ∷ r) d
        ∙ ap (λ j. read_path (fields_of (get_field j obj)) (c ∷ r)) e

-- When a "set" along a path succeeds, the value stands at the path, every path that parts ways with it reads
-- what it read before, and the same mutation applied again changes nothing.
pub walk_and_apply_set :
    (obj : Fields) (p : List Bytes) (v : Json) (after : Fields)
    → walk_and_apply obj p (codes "set") v ≡ done after
    → (read_path after p ≡ some v)
      × ((q : List Bytes) → Diverge p q → read_path after q ≡ read_path obj q)
      × (walk_and_apply after p (codes "set") v ≡ done after)
unfolding walk_and_apply Inside
walk_and_apply_set obj [] v after h = absurd (ground (arith, h))
walk_and_apply_set obj (key ∷ []) v after h =
    rw (← done-eq _ _ (sym (set_leaf obj key v) ∙ h)) (leaf-WasSet obj key v)
walk_and_apply_set obj (part ∷ next ∷ rest) v after h =
    let (m, (inner, same)) =
      stepped obj part (λ c. walk_and_apply c (next ∷ rest) set_op v) after h in
    rw (← same) (
      node-WasSet obj part next rest v m
        (walk_and_apply_set (fields_of (get_field part obj)) (next ∷ rest) v m inner))
