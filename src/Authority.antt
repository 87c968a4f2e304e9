-- ===== src/Authority.antt =====
-- runtime/component/v2/watch/watch.go: the counter behind the resource versions of the middleware. One
-- goroutine at a time: the compare-and-swap loop of `Observe` succeeds at its first turn.
pub mod Monotone
mod Tests
use aggexp.Prelude.{ℕ, ◌+◌, ◌%◌, ◌^◌, Bool, true, false, [], Option, none, some, leb, if◌then◌else◌}
use aggexp.Text.{Bytes, str_empty}
use aggexp.Decimal.{format_uint, parse_uint}

-- `New`.
abbrev pub initial : ℕ
initial = 1

-- The counter is an atomic uint64.
unfoldable pub next : ℕ → ℕ × Bytes
next counter = let n = (counter + 1) % 2 ^ 64 in (n, format_uint n)

unfoldable pub current : ℕ → Bytes
current counter = format_uint counter

abbrev pub raised : ℕ → Option ℕ → ℕ
raised counter none = counter
raised counter (some n) = if leb n counter then counter else n

unfoldable pub observe : ℕ → Bytes → ℕ
observe counter rv = raised counter (parse_uint rv)

unfoldable pub resolve : ℕ → Bytes → ℕ × Bytes
resolve counter rv = if str_empty rv then (counter, current counter) else (observe counter rv, rv)
