-- ===== src/Decimal/RoundTrip.antt =====
-- A printed number is read back, and is one or more digits.
use aggexp.Prelude.{
  ℕ, zero, suc, ◌+◌, ◌-◌, ◌*◌, ◌/◌, ◌%◌, ◌≤◌, ◌<◌, ◌≡◌, refl, ap, ◌∙◌, true, [], ◌∷◌, ◌++◌,
  append_assoc, append-nil, sym, some, arith, ltb, All, Bool-cases, inl, inr,
}
use aggexp.Text.{Bytes}
use aggexp.Decimal.{max_u64, decimal, format_uint, is_digit, scan, parse_uint}

All-snoc :
    (s : Bytes) (d : ℕ)
    → All (λ c. is_digit c ≡ true) s
    → is_digit d ≡ true
    → All (λ c. is_digit c ≡ true) (s ++ d ∷ [])
All-snoc [] d h k = (k, tt)
All-snoc (c ∷ s) d h k = (h.0, All-snoc s d h.1 k)

scan_last :
    (limit n : ℕ) (rest : Bytes)
    → n ≤ limit
    → scan limit (n / 10) ((48 + n % 10) ∷ rest) ≡ scan limit n rest
unfolding scan
scan_last limit n rest h =
    let e : n / 10 * 10 + (48 + n % 10 - 48) ≡ n = omega arith in rw e (ground arith)

scan-decimal :
    (limit f n : ℕ) (rest : Bytes)
    → n < f
    → n ≤ limit
    → scan limit 0 (decimal f n ++ rest) ≡ scan limit n rest
unfolding decimal
scan-decimal limit zero n rest h fits = absurd (omega arith)
scan-decimal limit (suc f) n rest h fits = elim (Bool-cases (ltb n 10)) [
  | inl small ↦ rw small (unfold scan in ground arith)
  | inr big ↦
      rw (big, append_assoc (decimal f (n / 10)) ((48 + n % 10) ∷ []) rest)
        (scan-decimal limit f (n / 10) ((48 + n % 10) ∷ rest) (ground arith) (omega arith)
          ∙ scan_last limit n rest fits)
]

decimal_shape :
    (f n : ℕ)
    → n < f
    → (c : ℕ) × (s : Bytes) × (decimal f n ≡ c ∷ s) × All (λ d. is_digit d ≡ true) (c ∷ s)
unfolding decimal
decimal_shape zero n h = absurd (omega arith)
decimal_shape (suc f) n h = elim (Bool-cases (ltb n 10)) [
  | inl small ↦ rw small (48 + n, [], refl, (ground arith, tt))
  | inr big ↦
      let (c, s, e, d) = decimal_shape f (n / 10) (ground arith) in
      rw (big, e) (c, s ++ (48 + n % 10) ∷ [], refl, (d.0, All-snoc s _ d.1 (ground arith)))
]

-- What `FormatUint` prints is one or more digits.
pub format_uint_shape :
    (n : ℕ) → (c : ℕ) × (s : Bytes) × (format_uint n ≡ c ∷ s) × All (λ d. is_digit d ≡ true) (c ∷ s)
unfolding format_uint
format_uint_shape n = decimal_shape (suc n) n (omega arith)

pub scan-format_uint :
    (limit n : ℕ) (rest : Bytes)
    → n ≤ limit
    → scan limit 0 (format_uint n ++ rest) ≡ scan limit n rest
unfolding format_uint
scan-format_uint limit n rest h = scan-decimal limit (suc n) n rest (omega arith) h

parse_uint-scan : (c : ℕ) (s : Bytes) → parse_uint (c ∷ s) ≡ scan max_u64 0 (c ∷ s)
unfolding parse_uint
parse_uint-scan c s = refl

-- Every uint64 is read back from its decimal text.
pub parse_uint-format_uint : (n : ℕ) → n ≤ max_u64 → parse_uint (format_uint n) ≡ some n
parse_uint-format_uint n h =
    let (c, s, e, _) = format_uint_shape n in
    rw e (parse_uint-scan c s)
    ∙ ap (scan max_u64 0) (sym e)
    ∙ ap (scan max_u64 0) (sym (append-nil (format_uint n)))
    ∙ scan-format_uint max_u64 n [] h
    ∙ unfold scan in refl
