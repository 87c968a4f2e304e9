-- ===== src/Decimal.antt =====
-- `strconv`: decimal text of unsigned and signed 64-bit integers.
pub mod RoundTrip
use aggexp.Prelude.{
  ℕ, zero, suc, ◌+◌, ◌-◌, ◌*◌, ◌/◌, ◌%◌, ◌^◌, Bool, ◌&&◌, List, [], ◌∷◌, ◌++◌, Option, none, some,
  ltb, leb, if◌then◌else◌,
}
use aggexp.Text.{Bytes}

abbrev pub max_u64 : ℕ
max_u64 = 2 ^ 64 - 1

-- The digits of `n`, most significant first; the fuel bounds the number of divisions by ten.
unfoldable pub decimal : ℕ → ℕ → Bytes
decimal zero n = []
decimal (suc f) n =
    let more = decimal f (n / 10) ++ (48 + n % 10) ∷ [] in if ltb n 10 then (48 + n) ∷ [] else more

-- strconv.FormatUint(n, 10)
unfoldable pub format_uint : ℕ → Bytes
unfolding decimal
format_uint n = decimal (suc n) n

abbrev pub is_digit : ℕ → Bool
is_digit c = leb 48 c && leb c 57

-- Reads digits behind the value `n`; a value above `limit` is the range error.
unfoldable pub scan : ℕ → ℕ → Bytes → Option ℕ
scan limit n [] = some n
scan limit n (c ∷ s) =
    let m = n * 10 + (c - 48) in
    let rest = scan limit m s in if is_digit c then (if ltb limit m then none else rest) else none

-- strconv.ParseUint(s, 10, 64); `none` is any error.
unfoldable pub parse_uint : Bytes → Option ℕ
unfolding scan
parse_uint [] = none
parse_uint (c ∷ s) = scan max_u64 0 (c ∷ s)
