-- ===== src/Library/Pagination/Token.antt =====
-- Continue tokens: what is encoded is decoded.
use aggexp.Prelude.{
  ℕ, ◌≤◌, ◌<◌, ◌≡◌, ◌≢◌, refl, ap, sym, ◌∙◌, true, [], ◌∷◌, ◌++◌, append-nil, some, arith, All,
}
use aggexp.Prelude.Int.{pos}
use aggexp.Text.{Bytes}
use aggexp.Decimal.{format_uint, is_digit, scan}
use aggexp.Decimal.RoundTrip.{format_uint_shape, scan-format_uint}
use aggexp.Base64.RoundTrip.{IsByte, decode-encode}
use aggexp.Library.Pagination.{
  max_i64, atoi, split_once, encode_continue_token, decode_continue_token,
}

-- A byte that is no colon.
abbrev pub IsTokenByte : ℕ → Type 0
IsTokenByte c = (c < 256) × (c ≢ 58)

split_once-append : (s t : Bytes) → All IsTokenByte s → split_once 58 (s ++ 58 ∷ t) ≡ some (s, t)
unfolding split_once
split_once-append [] t h = refl
split_once-append (c ∷ s) t h = ground (arith, split_once-append s t h.1)

bytes-append : (s t : Bytes) → All IsTokenByte s → All IsByte t → All IsByte (s ++ 58 ∷ t)
bytes-append [] t h k = (omega arith, k)
bytes-append (c ∷ s) t h k = (h.0.0, bytes-append s t h.1 k)

digits_are_bytes : (s : Bytes) → All (λ d. is_digit d ≡ true) s → All IsByte s
digits_are_bytes [] h = tt
digits_are_bytes (c ∷ s) h = (ground arith, digits_are_bytes s h.1)

pub digits_are_token_bytes : (s : Bytes) → All (λ d. is_digit d ≡ true) s → All IsTokenByte s
digits_are_token_bytes [] h = tt
digits_are_token_bytes (c ∷ s) h = ((ground arith, ground arith), digits_are_token_bytes s h.1)

pub format_uint-IsTokenByte : (n : ℕ) → All IsTokenByte (format_uint n)
format_uint-IsTokenByte n =
    let (c, s, e, d) = format_uint_shape n in rw e (digits_are_token_bytes (c ∷ s) d)

atoi-digits :
    (c : ℕ) (s : Bytes) (n : ℕ)
    → is_digit c ≡ true
    → scan max_i64 0 (c ∷ s) ≡ some n
    → atoi (c ∷ s) ≡ some (pos n)
unfolding atoi
atoi-digits c s n d e = ground arith

atoi-format_uint : (n : ℕ) → n ≤ max_i64 → atoi (format_uint n) ≡ some (pos n)
atoi-format_uint n h =
    let (c, s, e, d) = format_uint_shape n in
    rw e (
      atoi-digits c s n d.0 (
        ap (scan max_i64 0) (sym e)
        ∙ ap (scan max_i64 0) (sym (append-nil (format_uint n)))
        ∙ scan-format_uint max_i64 n [] h
        ∙ unfold scan in refl))

-- A token gives back the resource version and the offset that it was made from: for every resource
-- version of bytes other than a colon, and every offset that an int64 holds.
pub decode-encode_continue_token :
    (rv : Bytes) (offset : ℕ)
    → All IsTokenByte rv
    → offset ≤ max_i64
    → decode_continue_token (encode_continue_token rv offset) ≡ some (rv, pos offset)
unfolding decode_continue_token encode_continue_token
decode-encode_continue_token rv offset plain fits =
    let (c, s, e, d) = format_uint_shape offset in
    let bytes : All IsByte (format_uint offset) = rw e (digits_are_bytes (c ∷ s) d) in
    rw (
      decode-encode (rv ++ 58 ∷ format_uint offset)
          (bytes-append rv (format_uint offset) plain bytes),
      split_once-append rv (format_uint offset) plain,
      atoi-format_uint offset fits,
    )
