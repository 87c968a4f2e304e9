-- ===== src/ResourceVersion.antt =====
-- `rvLess` of runtime/library/helpers.go (runtime/library/multihost/ref.go has the same text).
pub mod Tests
use aggexp.Prelude.{
  ℕ, ◌≤◌, ◌<◌, ◌≡◌, refl, Bool, true, false, Option, none, some, [], ◌∷◌, arith, ltb, not,
  if◌then◌else◌, Option-cases, inl, inr,
}
use aggexp.Text.{Bytes, str_lt, str_empty}
use aggexp.Text.Order.{str_lt_irrefl}
use aggexp.Decimal.{max_u64, format_uint, parse_uint}
use aggexp.Decimal.RoundTrip.{parse_uint-format_uint, format_uint_shape}

-- Numerically when both texts are numbers, bytewise otherwise.
by_number : Option ℕ → Option ℕ → Bool → Bool
by_number (some m) (some n) lexical = ltb m n
by_number (some m) none lexical = lexical
by_number none n lexical = lexical

unfoldable pub rv_less : Bytes → Bytes → Bool
unfolding by_number
rv_less a b =
    if str_empty a
    then not (str_empty b)
    else if str_empty b
    then false
    else by_number (parse_uint a) (parse_uint b) (str_lt a b)

pub str_empty-format : (n : ℕ) → str_empty (format_uint n) ≡ false
unfolding str_empty
str_empty-format n = let (c, s, e, _) = format_uint_shape n in rw e

-- On the decimal texts of two uint64 values `rv_less` is `<` of the values, whatever their number
-- of digits; the empty text is below every decimal text; and no text is below itself.
pub rv_less-decimal :
    (m n : ℕ) (s : Bytes)
    → m ≤ max_u64
    → n ≤ max_u64
    → (rv_less (format_uint m) (format_uint n) ≡ ltb m n)
      × (rv_less [] (format_uint n) ≡ true)
      × (rv_less s s ≡ false)
unfolding rv_less
rv_less-decimal m n s hm hn = (
  rw (
    str_empty-format m,
    str_empty-format n,
    parse_uint-format_uint m hm,
    parse_uint-format_uint n hn,
  ),
  unfold str_empty in rw (str_empty-format n),
  ground (arith, str_lt_irrefl s),
)
