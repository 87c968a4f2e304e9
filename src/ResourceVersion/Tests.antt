-- ===== src/ResourceVersion/Tests.antt =====
-- `rvLess` run on texts, and the theorem at concrete values.
use aggexp.Prelude.{◌≡◌, refl, true, false, [], arith}
use aggexp.Text.{codes, str_lt, str_empty}
use aggexp.Decimal.{format_uint, parse_uint}
use aggexp.ResourceVersion.{rv_less, rv_less-decimal}

rv_less-decimal_example :
    (rv_less (format_uint 9) (format_uint 10) ≡ true)
    × (rv_less [] (format_uint 10) ≡ true)
    × (rv_less (codes "abc") (codes "abc") ≡ false)
rv_less-decimal_example = rv_less-decimal 9 10 (codes "abc") (omega arith) (omega arith)

-- With texts that are no numbers among them the order has a cycle.
cycle :
    (rv_less (codes "10") (codes "1a") ≡ true)
    × (rv_less (codes "1a") (codes "9") ≡ true)
    × (rv_less (codes "9") (codes "10") ≡ true)
unfolding rv_less parse_uint str_lt str_empty
cycle = (refl, refl, refl)
