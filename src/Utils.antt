-- ===== src/Utils.antt =====
-- web/src/lib/utils.ts: `timeAgo`. `cn` and `formatDate` only call libraries.
pub mod Bounds
use vexil.Prelude.{
  ℕ, zero, suc, ◌+◌, ◌-◌, ◌*◌, ◌/◌, Bool, true, false, Option, none, some, List, [], ◌∷◌, ◌++◌, ltb,
  if◌then◌else◌,
}
use vexil.Text.{Text, codes}
use vexil.Text.Decimal.{ℤ, pos, negsuc}
use vexil.Text.Decimal.Print.{print}

-- `Math.floor(z / n)`, for a positive `n`.
unfoldable pub floor_div : ℤ → ℕ → ℤ
floor_div (pos m) n = pos (m / n)
floor_div (negsuc m) n = negsuc (m / n)

-- `${z}`.
abbrev pub print_int : ℤ → Text
print_int (pos n) = print n
print_int (negsuc n) = b'-' ∷ print (n + 1)

abbrev pub less : ℤ → ℕ → Bool
less (pos m) n = ltb m n
less (negsuc m) n = true

unfoldable pub time_ago_seconds : ℤ → Text
unfolding floor_div
time_ago_seconds seconds =
    if less seconds 60
    then print_int seconds ++ codes "s ago"
    else if less seconds 3600
    then print_int (floor_div seconds 60) ++ codes "m ago"
    else if less seconds 86400
    then print_int (floor_div seconds 3600) ++ codes "h ago"
    else print_int (floor_div seconds 86400) ++ codes "d ago"

-- The milliseconds from the date to now; `none` is NaN, for a text that is no date.
unfoldable pub time_ago : Option ℤ → Text
unfolding time_ago_seconds
time_ago none = codes "NaNd ago"
time_ago (some elapsed) = time_ago_seconds (floor_div elapsed 1000)
