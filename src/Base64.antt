-- ===== src/Base64.antt =====
-- `base64.StdEncoding` of Go's encoding/base64 on lists of bytes. The decoder skips line ends and
-- does not check the bits behind the last byte, as the package documents.
pub mod RoundTrip
use aggexp.Prelude.{
  ℕ, ◌+◌, ◌-◌, ◌*◌, ◌/◌, ◌%◌, Bool, ◌||◌, ◌&&◌, not, List, [], ◌∷◌, ◌++◌, Option, none, some, ltb,
  leb, ◌==◌, if◌then◌else◌, keep,
}
use aggexp.Text.{Bytes}

-- The alphabet: A-Z, a-z, 0-9, +, /.
unfoldable pub char_of : ℕ → ℕ
char_of v =
    if ltb v 26
    then v + 65
    else if ltb v 52
    then v + 71
    else if ltb v 62
    then v - 4
    else if v == 62
    then 43
    else 47

unfoldable pub value_of : ℕ → Option ℕ
value_of c =
    if leb 65 c && leb c 90
    then some (c - 65)
    else if leb 97 c && leb c 122
    then some (c - 71)
    else if leb 48 c && leb c 57
    then some (c + 4)
    else if c == 43
    then some 62
    else if c == 47
    then some 63
    else none

unfoldable pub encode : Bytes → Bytes
unfolding char_of
encode [] = []
encode (a ∷ []) = char_of (a / 4) ∷ char_of (a % 4 * 16) ∷ 61 ∷ 61 ∷ []
encode (a ∷ b ∷ []) =
    char_of (a / 4) ∷ char_of (a % 4 * 16 + b / 16) ∷ char_of (b % 16 * 4) ∷ 61 ∷ []
encode (a ∷ b ∷ c ∷ s) =
    char_of (a / 4)
    ∷ char_of (a % 4 * 16 + b / 16)
    ∷ char_of (b % 16 * 4 + c / 64)
    ∷ char_of (c % 64)
    ∷ encode s

first_byte : ℕ → ℕ → ℕ
first_byte v w = v * 4 + w / 16

second_byte : ℕ → ℕ → ℕ
second_byte w x = w % 16 * 16 + x / 4

third_byte : ℕ → ℕ → ℕ
third_byte x y = x % 4 * 64 + y

-- The last quantum: two characters and two pads, three and one, or four characters.
abbrev last_bytes : Option ℕ → Option ℕ → Bytes → Option Bytes
last_bytes (some v) (some w) [] = some (first_byte v w ∷ [])
last_bytes _ _ _ = none

abbrev two_bytes : Option ℕ → Option ℕ → Option ℕ → Bytes → Option Bytes
two_bytes (some v) (some w) (some x) [] = some (first_byte v w ∷ second_byte w x ∷ [])
two_bytes _ _ _ _ = none

abbrev three_bytes : Option ℕ → Option ℕ → Option ℕ → Option ℕ → Option Bytes → Option Bytes
three_bytes (some v) (some w) (some x) (some y) (some rest) =
    some (first_byte v w ∷ second_byte w x ∷ third_byte x y ∷ rest)
three_bytes _ _ _ _ _ = none

unfoldable pub quanta : Bytes → Option Bytes
unfolding value_of first_byte second_byte third_byte
quanta [] = some []
quanta (c ∷ d ∷ e ∷ f ∷ s) =
    let rest = quanta s in
    if e == 61
    then (if f == 61 then last_bytes (value_of c) (value_of d) s else none)
    else if f == 61
    then two_bytes (value_of c) (value_of d) (value_of e) s
    else three_bytes (value_of c) (value_of d) (value_of e) (value_of f) rest
quanta _ = none

abbrev pub is_line_end : ℕ → Bool
is_line_end c = c == 10 || c == 13

unfoldable pub decode : Bytes → Option Bytes
unfolding quanta
decode s = quanta (keep (λ c. not (is_line_end c)) s)
