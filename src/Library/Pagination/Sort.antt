-- ===== src/Library/Pagination/Sort.antt =====
-- The items of a page come in the order of their names.
use mathlib.Core.List.{Perm}
use mathlib.Core.List.Perm
use aggexp.Prelude.{
  suc, ◌≡◌, refl, ap, ◌∙◌, true, false, List, [], ◌∷◌, arith, All, length, Bool-cases, inl, inr,
}
use aggexp.Text.Order.{str_lt_irrefl, str_lt_trans, str_lt_total}
use aggexp.Kube.{Accessor}
use aggexp.Library.Pagination.{name_less, insert_sorted, sort_by_name}

module _ {Obj : Type 0} (k : Accessor Obj) where
  -- No object of the list has a name before that of the object.
  abbrev pub NotAbove : Obj → List Obj → Type 0
  NotAbove a l = All (λ b. name_less k b a ≡ false) l

  -- Each object's name is not after the name of any later one.
  abbrev pub IsOrdered : List Obj → Type 0
  IsOrdered [] = Unit
  IsOrdered (a ∷ l) = NotAbove a l × IsOrdered l

  abbrev pub Accessible : List Obj → Type 0
  Accessible l = All (λ o. k.is_accessible o ≡ true) l

  length-insert_sorted : (a : Obj) (l : List Obj) → length (insert_sorted k a l) ≡ suc (length l)
  unfolding insert_sorted
  length-insert_sorted a [] = refl
  length-insert_sorted a (b ∷ l) = ground (arith, length-insert_sorted a l)

  pub length-sort_by_name : (l : List Obj) → length (sort_by_name k l) ≡ length l
  unfolding sort_by_name
  length-sort_by_name [] = refl
  length-sort_by_name (a ∷ l) =
      length-insert_sorted a (sort_by_name k l) ∙ ap suc (length-sort_by_name l)

  insert_sorted-perm : (a : Obj) (l : List Obj) → Perm (insert_sorted k a l) (a ∷ l)
  unfolding insert_sorted
  insert_sorted-perm a [] = Perm.refl (a ∷ [])
  insert_sorted-perm a (b ∷ l) = elim (Bool-cases (name_less k b a)) [
    | inl e ↦ rw e (Perm.trans (Perm.cons b (insert_sorted-perm a l)) (Perm.swap a b l))
    | inr e ↦ rw e (Perm.refl (a ∷ b ∷ l))
  ]

  -- Sorting loses no item and makes none up.
  pub sort_by_name-perm : (l : List Obj) → Perm (sort_by_name k l) l
  unfolding sort_by_name
  sort_by_name-perm [] = Perm.refl []
  sort_by_name-perm (a ∷ l) =
      Perm.trans (insert_sorted-perm a (sort_by_name k l)) (Perm.cons a (sort_by_name-perm l))

  name_less_asym : (a b : Obj) → name_less k b a ≡ true → name_less k a b ≡ false
  unfolding name_less
  name_less_asym a b h =
      ground (arith, str_lt_trans (k.name b) (k.name a) (k.name b), str_lt_irrefl (k.name b))

  -- Not being above passes on through an object that is not above.
  name_le_trans :
      (a b c : Obj)
      → k.is_accessible b ≡ true
      → name_less k b a ≡ false
      → name_less k c b ≡ false
      → name_less k c a ≡ false
  unfolding name_less
  name_le_trans a b c hb h h' =
      ground
        (arith, str_lt_total (k.name b) (k.name a), str_lt_trans (k.name c) (k.name a) (k.name b))

  NotAbove-insert :
      (a b : Obj) (l : List Obj)
      → name_less k a b ≡ false
      → NotAbove b l
      → NotAbove b (insert_sorted k a l)
  unfolding insert_sorted
  NotAbove-insert a b [] h n = (h, tt)
  NotAbove-insert a b (c ∷ l) h n = elim (Bool-cases (name_less k c a)) [
    | inl e ↦ rw e (n.0, NotAbove-insert a b l h n.1)
    | inr e ↦ rw e (h, n)
  ]

  NotAbove-trans :
      (a b : Obj) (l : List Obj)
      → k.is_accessible b ≡ true
      → name_less k b a ≡ false
      → NotAbove b l
      → NotAbove a l
  NotAbove-trans a b [] hb h n = tt
  NotAbove-trans a b (c ∷ l) hb h n = (name_le_trans a b c hb h n.0, NotAbove-trans a b l hb h n.1)

  insert_sorted-Accessible :
      (a : Obj) (l : List Obj)
      → k.is_accessible a ≡ true
      → Accessible l
      → Accessible (insert_sorted k a l)
  unfolding insert_sorted
  insert_sorted-Accessible a [] ha h = (ha, tt)
  insert_sorted-Accessible a (b ∷ l) ha h = elim (Bool-cases (name_less k b a)) [
    | inl e ↦ rw e (h.0, insert_sorted-Accessible a l ha h.1)
    | inr e ↦ rw e (ha, h)
  ]

  insert_sorted-IsOrdered :
      (a : Obj) (l : List Obj) → Accessible l → IsOrdered l → IsOrdered (insert_sorted k a l)
  unfolding insert_sorted
  insert_sorted-IsOrdered a [] h o = (tt, tt)
  insert_sorted-IsOrdered a (b ∷ l) h o = elim (Bool-cases (name_less k b a)) [
    | inl e ↦
        rw e (NotAbove-insert a b l (name_less_asym a b e) o.0, insert_sorted-IsOrdered a l h.1 o.1)
    | inr e ↦ rw e ((e, NotAbove-trans a b l h.0 e o.0), o)
  ]

  sort_by_name-Accessible : (l : List Obj) → Accessible l → Accessible (sort_by_name k l)
  unfolding sort_by_name
  sort_by_name-Accessible [] h = tt
  sort_by_name-Accessible (a ∷ l) h =
      insert_sorted-Accessible a (sort_by_name k l) h.0 (sort_by_name-Accessible l h.1)

  pub sort_by_name-IsOrdered : (l : List Obj) → Accessible l → IsOrdered (sort_by_name k l)
  unfolding sort_by_name
  sort_by_name-IsOrdered [] h = tt
  sort_by_name-IsOrdered (a ∷ l) h =
      insert_sorted-IsOrdered a (sort_by_name k l) (sort_by_name-Accessible l h.1)
        (sort_by_name-IsOrdered l h.1)

  -- When every item has metadata, sorting gives the same items, as often, in the order of names.
  pub sort_by_name_lem :
      (l : List Obj) → Accessible l → Perm (sort_by_name k l) l × IsOrdered (sort_by_name k l)
  sort_by_name_lem l h = (sort_by_name-perm l, sort_by_name-IsOrdered l h)
