-- ===== src/Base64/RoundTrip.antt =====
-- Decoding undoes encoding, for every byte string.
use aggexp.Prelude.{
  ℕ, ◌+◌, ◌*◌, ◌/◌, ◌%◌, ◌<◌, ◌≡◌, ◌≢◌, refl, ap, ◌∙◌, [], ◌∷◌, some, arith, All, keep, not, false,
  ◌==◌,
}
use aggexp.Text.{Bytes}
use aggexp.Base64.{
  char_of, value_of, encode, first_byte, second_byte, third_byte, quanta, decode, is_line_end,
}

abbrev pub IsByte : ℕ → Type 0
IsByte c = c < 256

value_of-char_of : (v : ℕ) → v < 64 → value_of (char_of v) ≡ some v
unfolding value_of char_of
value_of-char_of v h = ground arith

char_of_plain : (v : ℕ) → v < 64 → ((char_of v == 61) ≡ false) × (is_line_end (char_of v) ≡ false)
unfolding char_of
char_of_plain v h = (ground arith, ground arith)

-- What the bytes of one quantum become.
first_of : (a k : ℕ) → IsByte a → k < 16 → first_byte (a / 4) (a % 4 * 16 + k) ≡ a
unfolding first_byte
first_of a k ha h = omega arith

second_of : (a b k : ℕ) → IsByte b → k < 4 → second_byte (a % 4 * 16 + b / 16) (b % 16 * 4 + k) ≡ b
unfolding second_byte
second_of a b k hb h = omega arith

third_of : (b c : ℕ) → IsByte c → third_byte (b % 16 * 4 + c / 64) (c % 64) ≡ c
unfolding third_byte
third_of b c hc = omega arith

first_alone : (a : ℕ) → IsByte a → first_byte (a / 4) (a % 4 * 16) ≡ a
unfolding first_byte
first_alone a ha = omega arith

second_last : (a b : ℕ) → IsByte b → second_byte (a % 4 * 16 + b / 16) (b % 16 * 4) ≡ b
unfolding second_byte
second_last a b hb = omega arith

abbrev IsPlain : ℕ → Type 0
IsPlain c = is_line_end c ≡ false

plain : (v : ℕ) → v < 64 → IsPlain (char_of v)
plain v h = (char_of_plain v h).1

encode-IsPlain : (s : Bytes) → All IsByte s → All IsPlain (encode s)
unfolding encode
encode-IsPlain [] h = tt
encode-IsPlain (a ∷ []) h =
    (plain (a / 4) (omega arith), (plain (a % 4 * 16) (omega arith), (refl, (refl, tt))))
encode-IsPlain (a ∷ b ∷ []) h = (
  plain (a / 4) (omega arith),
  (plain (a % 4 * 16 + b / 16) (omega arith), (plain (b % 16 * 4) (omega arith), (refl, tt))),
)
encode-IsPlain (a ∷ b ∷ c ∷ s) h = (
  plain (a / 4) (omega arith),
  (
    plain (a % 4 * 16 + b / 16) (omega arith),
    (
      plain (b % 16 * 4 + c / 64) (omega arith),
      (plain (c % 64) (omega arith), encode-IsPlain s h.1.1.1),
    ),
  ),
)

keep-plain : (s : Bytes) → All IsPlain s → keep (λ c. not (is_line_end c)) s ≡ s
keep-plain [] h = refl
keep-plain (c ∷ s) h = rw (h.0, keep-plain s h.1)

quanta-encode : (s : Bytes) → All IsByte s → quanta (encode s) ≡ some s
unfolding quanta encode
quanta-encode [] h = refl
quanta-encode (a ∷ []) h =
    rw (value_of-char_of (a / 4) (omega arith), value_of-char_of (a % 4 * 16) (omega arith))
      (ap (λ x. some (x ∷ [])) (first_alone a h.0))
quanta-encode (a ∷ b ∷ []) h = rw (
  value_of-char_of (a / 4) (omega arith),
  value_of-char_of (a % 4 * 16 + b / 16) (omega arith),
  value_of-char_of (b % 16 * 4) (omega arith),
  (char_of_plain (b % 16 * 4) (omega arith)).0,
  first_of a (b / 16) h.0 (omega arith),
  second_last a b h.1.0,
)
quanta-encode (a ∷ b ∷ c ∷ s) h = rw (
  (char_of_plain (b % 16 * 4 + c / 64) (omega arith)).0,
  (char_of_plain (c % 64) (omega arith)).0,
  value_of-char_of (a / 4) (omega arith),
  value_of-char_of (a % 4 * 16 + b / 16) (omega arith),
  value_of-char_of (b % 16 * 4 + c / 64) (omega arith),
  value_of-char_of (c % 64) (omega arith),
  quanta-encode s h.1.1.1,
  first_of a (b / 16) h.0 (omega arith),
  second_of a b (c / 64) h.1.0 (omega arith),
  third_of b c h.1.1.0,
)

pub decode-encode : (s : Bytes) → All IsByte s → decode (encode s) ≡ some s
unfolding decode
decode-encode s h = ap quanta (keep-plain (encode s) (encode-IsPlain s h)) ∙ quanta-encode s h

pub encode-cons-ne-nil : (c : ℕ) (s : Bytes) → encode (c ∷ s) ≢ []
unfolding encode
encode-cons-ne-nil c [] = λ e. cc e
encode-cons-ne-nil c (d ∷ []) = λ e. cc e
encode-cons-ne-nil c (d ∷ e ∷ s) = λ q. cc q
