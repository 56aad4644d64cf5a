-- ===== src/Utils/Bounds.antt =====
-- What `timeAgo` of web/src/lib/utils.ts says of a time that has passed.
use vexil.Prelude.{ℕ, ◌+◌, ◌*◌, ◌/◌, ◌≤◌, ◌<◌, ◌≡◌, inl, inr, some, ◌++◌, arith, ltb, Bool-cases}
use vexil.Text.{Text, codes}
use vexil.Text.Decimal.{pos}
use vexil.Text.Decimal.Print.{print}
use vexil.Utils.{floor_div, time_ago_seconds, time_ago}

pub data TimeUnit : Type 0 where
  seconds minutes hours days : TimeUnit

abbrev pub suffix : TimeUnit → Text
suffix seconds = codes "s ago"
suffix minutes = codes "m ago"
suffix hours = codes "h ago"
suffix days = codes "d ago"

-- The milliseconds of a unit.
abbrev pub size : TimeUnit → ℕ
size seconds = 1000
size minutes = 60000
size hours = 3600000
size days = 86400000

-- How many of a unit make up the next one.
abbrev pub IsBelowNext : TimeUnit → ℕ → Type 0
IsBelowNext seconds n = n < 60
IsBelowNext minutes n = (1 ≤ n) × (n < 60)
IsBelowNext hours n = (1 ≤ n) × (n < 24)
IsBelowNext days n = 1 ≤ n

-- A text tells the elapsed milliseconds: by a count and a unit, of which the count is the whole
-- part, and the largest unit that goes into them.
pub record Tells (text : Text) (elapsed : ℕ) : Type 0 where
  pub count : ℕ
  pub unit : TimeUnit
  pub shape : text ≡ print count ++ suffix unit
  pub passed : count * size unit ≤ elapsed
  pub not_yet : elapsed < (count + 1) * size unit
  pub fits : IsBelowNext unit count

-- Of a time that has passed, `timeAgo` tells the count of the largest unit that goes into it, less
-- than a full next unit: below 60 seconds, 60 minutes and 24 hours, and never 0 but of seconds.
pub time_ago-Tells : (elapsed : ℕ) → Tells (time_ago (some (pos elapsed))) elapsed
unfolding time_ago time_ago_seconds floor_div
time_ago-Tells elapsed = elim (Bool-cases (ltb (elapsed / 1000) 60)) [
  | inl small ↦ record {
    count = elapsed / 1000;
    unit = seconds;
    shape = rw small;
    passed = omega arith;
    not_yet = omega arith;
    fits = ground arith;
  }
  | inr s ↦ elim (Bool-cases (ltb (elapsed / 1000) 3600)) [
    | inl small ↦ record {
      count = elapsed / 1000 / 60;
      unit = minutes;
      shape = rw (s, small);
      passed = omega arith;
      not_yet = omega arith;
      fits = ground arith;
    }
    | inr m ↦ elim (Bool-cases (ltb (elapsed / 1000) 86400)) [
      | inl small ↦ record {
        count = elapsed / 1000 / 3600;
        unit = hours;
        shape = rw (s, m, small);
        passed = omega arith;
        not_yet = omega arith;
        fits = ground arith;
      }
      | inr h ↦ record {
        count = elapsed / 1000 / 86400;
        unit = days;
        shape = rw (s, m, h);
        passed = omega arith;
        not_yet = omega arith;
        fits = ground arith;
      }
    ]
  ]
]
