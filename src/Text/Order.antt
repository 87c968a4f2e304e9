-- ===== src/Text/Order.antt =====
-- `<` on Go strings is a strict total order.
use aggexp.Prelude.{◌≡◌, ◌⊎◌, inl, inr, refl, true, false, [], ◌∷◌, arith}
use aggexp.Text.{Bytes, str_lt}

pub str_lt_irrefl : (s : Bytes) → str_lt s s ≡ false
unfolding str_lt
str_lt_irrefl [] = refl
str_lt_irrefl (c ∷ s) = ground (arith, str_lt_irrefl s)

pub str_lt_trans : (s t u : Bytes) → str_lt s t ≡ true → str_lt t u ≡ true → str_lt s u ≡ true
unfolding str_lt
str_lt_trans [] [] u h k = absurd (ground arith)
str_lt_trans [] (d ∷ t) [] h k = absurd (ground arith)
str_lt_trans [] (d ∷ t) (e ∷ u) h k = refl
str_lt_trans (c ∷ s) [] u h k = absurd (ground arith)
str_lt_trans (c ∷ s) (d ∷ t) [] h k = absurd (ground arith)
str_lt_trans (c ∷ s) (d ∷ t) (e ∷ u) h k = ground (arith, str_lt_trans s t u)

pub str_lt_total : (s t : Bytes) → (str_lt s t ≡ true) ⊎ ((str_lt t s ≡ true) ⊎ (s ≡ t))
unfolding str_lt
str_lt_total [] [] = inr (inr refl)
str_lt_total [] (d ∷ t) = inl refl
str_lt_total (c ∷ s) [] = inr (inl refl)
str_lt_total (c ∷ s) (d ∷ t) = ground (arith, str_lt_total s t)
