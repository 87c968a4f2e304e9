-- ===== src/Authority/Monotone.antt =====
-- The versions that the authority of runtime/component/v2/watch/watch.go hands out.
use aggexp.Prelude.{
  ℕ, ◌+◌, ◌%◌, ◌^◌, ◌≤◌, ◌<◌, ◌≡◌, sym, ◌∙◌, true, List, [], ◌∷◌, Option, none, some, arith, All,
  Bool-cases, inl, inr,
}
use aggexp.Text.{Bytes, str_empty}
use aggexp.Decimal.{max_u64, format_uint, parse_uint}
use aggexp.Decimal.RoundTrip.{parse_uint-format_uint}
use aggexp.ResourceVersion.{rv_less, str_empty-format}
use aggexp.Authority.{next, current, raised, observe, resolve}

pub data Call : Type 0 where
  next_rv current_rv : Call
  observed resolved : Bytes → Call

-- The counter after a call, and the version that the call returns or is given.
unfoldable pub step : ℕ → Call → ℕ × Bytes
step n next_rv = next n
step n current_rv = (n, current n)
step n (observed rv) = (observe n rv, rv)
step n (resolved rv) = resolve n rv

unfoldable pub final : ℕ → List Call → ℕ
final n [] = n
final n (c ∷ l) = final (step n c).0 l

unfoldable pub versions : ℕ → List Call → List Bytes
versions n [] = []
versions n (c ∷ l) = (step n c).1 ∷ versions (step n c).0 l

-- The counter never gets to the last uint64.
unfoldable pub Fits : ℕ → List Call → Type 0
Fits n [] = n < max_u64
Fits n (c ∷ l) = (n < max_u64) × Fits (step n c).0 l

-- A version that is a number is at most `n`.
abbrev AtMost : ℕ → Bytes → Type 0
AtMost n rv = (v : ℕ) → parse_uint rv ≡ some v → v ≤ n

AtMost-format : (n : ℕ) → n ≤ max_u64 → AtMost n (format_uint n)
AtMost-format n h v e =
    let same : some n ≡ some v = sym (parse_uint-format_uint n h) ∙ e in ground arith

raised-bound : (n : ℕ) (o : Option ℕ) → (n ≤ raised n o) × ((v : ℕ) → o ≡ some v → v ≤ raised n o)
raised-bound n none = (omega arith, λ v e. absurd (ground arith))
raised-bound n (some m) = (ground arith, λ v e. ground arith)

step-bound :
    (n : ℕ) (c : Call) → n < max_u64 → (n ≤ (step n c).0) × AtMost (step n c).0 (step n c).1
unfolding step next current observe resolve
step-bound n next_rv h =
    let e : (n + 1) % 2 ^ 64 ≡ n + 1 = omega arith in
    rw e (omega arith, AtMost-format (n + 1) (omega arith))
step-bound n current_rv h = (omega arith, AtMost-format n (omega arith))
step-bound n (observed rv) h = raised-bound n (parse_uint rv)
step-bound n (resolved rv) h = elim (Bool-cases (str_empty rv)) [
  | inl e ↦ rw e (omega arith, AtMost-format n (omega arith))
  | inr e ↦ rw e (raised-bound n (parse_uint rv))
]

final-bound : (n : ℕ) (l : List Call) → Fits n l → n ≤ final n l
unfolding final Fits
final-bound n [] h = omega arith
final-bound n (c ∷ l) (h, t) = omega (arith, (step-bound n c h).0, final-bound (step n c).0 l t)

versions-bound : (n : ℕ) (l : List Call) → Fits n l → All (AtMost (final n l)) (versions n l)
unfolding final Fits versions
versions-bound n [] h = tt
versions-bound n (c ∷ l) (h, t) = (
  λ v e. omega (arith, (step-bound n c h).1 v e, final-bound (step n c).0 l t),
  versions-bound (step n c).0 l t,
)

final-Fits : (n : ℕ) (l : List Call) → Fits n l → final n l < max_u64
unfolding final Fits
final-Fits n [] h = h
final-Fits n (c ∷ l) (h, t) = final-Fits (step n c).0 l t

-- Below the version in the watch order, if it is a number.
abbrev pub Precedes : Bytes → Bytes → Type 0
Precedes later rv = (v : ℕ) → parse_uint rv ≡ some v → rv_less rv later ≡ true

number-Precedes :
    (n : ℕ) (rv : Bytes) → n < max_u64 → AtMost n rv → Precedes (format_uint (n + 1)) rv
unfolding rv_less str_empty
number-Precedes n [] h small v e = absurd (unfold parse_uint in ground arith)
number-Precedes n (c ∷ rv) h small v e =
    rw (str_empty-format (n + 1), e, parse_uint-format_uint (n + 1) (omega arith))
      (ground (arith, small v e))

All-map : {P Q : Bytes → Type 0} → (l : List Bytes) → ((x : Bytes) → P x → Q x) → All P l → All Q l
All-map [] f h = tt
All-map (x ∷ l) f (p, h) = (f x p, All-map l f h)

-- After any calls that keep the counter below the last uint64, the version that `Next` then returns
-- follows, in the order of watch versions, every numeric version that a call has returned, observed
-- or resolved.
pub next-Precedes :
    (n : ℕ) (l : List Call) → Fits n l → All (Precedes (next (final n l)).1) (versions n l)
unfolding next
next-Precedes n l fits =
    let e : (final n l + 1) % 2 ^ 64 ≡ final n l + 1 = omega (arith, final-Fits n l fits) in
    rw e (
      All-map (versions n l) (λ rv. number-Precedes (final n l) rv (final-Fits n l fits))
        (versions-bound n l fits))
