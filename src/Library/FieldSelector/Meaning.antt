-- ===== src/Library/FieldSelector/Meaning.antt =====
-- What a field selector selects, stated without the loop.
use aggexp.Prelude.{
  ◌≡◌, ◌≢◌, ◌↔◌, ◌⊎◌, inl, inr, refl, true, false, List, [], ◌∷◌, some, none, arith, All,
  Option-cases, Bool-cases,
}
use aggexp.Text.{Bytes, codes, str_eq_iff}
use aggexp.Kube.{Accessor, Requirement, FieldSelector}
use aggexp.Library.FieldSelector.{
  FieldSelectorConfig, field_value, compare_value, meets, matches_field,
}

-- The operator's relation between the field's value and the requirement's.
abbrev pub Holds : Requirement → Bytes → Type 0
Holds r val =
    (((r.operator ≡ codes "=") ⊎ (r.operator ≡ codes "==")) × (val ≡ r.value))
    ⊎ ((r.operator ≡ codes "!=") × (val ≢ r.value))

compare_value-none : (r : Requirement) → compare_value r none ≡ false
unfolding compare_value
compare_value-none r = refl

compare_value-Holds :
    (r : Requirement) (val : Bytes) → (compare_value r (some val) ≡ true) ↔ Holds r val
unfolding compare_value
compare_value-Holds r val = (
  λ h. ground (
    arith,
    str_eq_iff r.operator (codes "="),
    str_eq_iff r.operator (codes "=="),
    str_eq_iff r.operator (codes "!="),
    str_eq_iff val r.value,
  ),
  λ h. ground (
    arith,
    str_eq_iff r.operator (codes "="),
    str_eq_iff r.operator (codes "=="),
    str_eq_iff r.operator (codes "!="),
    str_eq_iff val r.value,
  ),
)

module _ {Obj : Type 0} (k : Accessor Obj) (c : FieldSelectorConfig Obj) where
  abbrev pub Meets : Obj → Requirement → Type 0
  Meets obj r = (val : Bytes) × (field_value k c obj r.field ≡ some val) × Holds r val

  meets_sound : (obj : Obj) (rs : List Requirement) → meets k c obj rs ≡ true → All (Meets obj) rs
  unfolding meets
  meets_sound obj [] h = tt
  meets_sound obj (r ∷ rs) h = elim (Option-cases (field_value k c obj r.field)) [
    | inl e ↦ absurd (ground (arith, compare_value-none r))
    | inr (val, e) ↦
        ((val, e, (compare_value-Holds r val).0 (ground arith)), meets_sound obj rs (ground arith))
  ]

  meets_complete :
      (obj : Obj) (rs : List Requirement) → All (Meets obj) rs → meets k c obj rs ≡ true
  unfolding meets
  meets_complete obj [] h = refl
  meets_complete obj (r ∷ rs) h =
      let (val, e, holds) = h.0 in
      rw (e, (compare_value-Holds r val).1 holds, meets_complete obj rs h.1)

  -- An object matches a selector exactly when every requirement is met: the field has a value (the
  -- object's name, its namespace, or what the accessor returns), and the value stands in the
  -- relation of the operator `=`, `==` or `!=`. No selector and an empty one match every object.
  pub matches_field_iff :
      (sel : FieldSelector) (obj : Obj)
      → ((matches_field k c (some sel) obj ≡ true)
          ↔ ((sel.is_empty ≡ true) ⊎ All (Meets obj) sel.requirements))
        × (matches_field k c none obj ≡ true)
  unfolding matches_field
  matches_field_iff sel obj = (
    (
      λ h. elim (Bool-cases sel.is_empty) [
        | inl e ↦ inl e
        | inr e ↦ inr (meets_sound obj sel.requirements (ground arith))
      ],
      λ h. elim h [
        | inl e ↦ rw e
        | inr ms ↦ let m = meets_complete obj sel.requirements ms in ground arith
      ],
    ),
    refl,
  )
