-- ===== src/Authority/Tests.antt =====
-- The authority of runtime/component/v2/watch at a concrete sequence of calls.
use aggexp.Prelude.{List, [], ◌∷◌, All, arith}
use aggexp.Text.{codes, str_empty}
use aggexp.Decimal.{parse_uint}
use aggexp.Authority.{next, observe, resolve}
use aggexp.Authority.Monotone.{Call, Precedes, Fits, final, versions, step, next-Precedes}

abbrev calls : List Call
calls = Call.next_rv ∷ Call.observed (codes "10") ∷ Call.resolved (codes "7") ∷ Call.current_rv ∷ []

calls-Fits : Fits 1 calls
unfolding Fits step next observe resolve parse_uint str_empty
calls-Fits = (omega arith, (omega arith, (omega arith, (omega arith, omega arith))))

next-Precedes_example : All (Precedes (next (final 1 calls)).1) (versions 1 calls)
next-Precedes_example = next-Precedes 1 calls calls-Fits
