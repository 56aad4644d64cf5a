-- ===== src/Text/Case.antt =====
-- `toUpperCase`, `toLowerCase` and `replace` with a class of code units.
use vexil.Prelude.{ℕ, ◌+◌, ◌-◌, ◌<◌, ◌≡◌, refl, Bool, ◌&&◌, map, ◌==◌, leb, All, if◌then◌else◌}
use vexil.Text.{Text}

abbrev pub is_upper : ℕ → Bool
is_upper c = leb b'A' c && leb c b'Z'

abbrev pub is_lower : ℕ → Bool
is_lower c = leb b'a' c && leb c b'z'

abbrev pub is_digit : ℕ → Bool
is_digit c = leb b'0' c && leb c b'9'

-- The two case mappings on the ASCII code units.
unfoldable pub upper_code : ℕ → ℕ
upper_code c = if is_lower c then c - 32 else c

unfoldable pub lower_code : ℕ → ℕ
lower_code c = if is_upper c then c + 32 else c

abbrev pub IsAscii : Text → Type 0
IsAscii = All (λ c. c < 128)

-- The case mappings follow the tables of Unicode, which are no part of the program. On ASCII texts
-- they are the mappings of the single code units.
pub record CaseMapping : Type 0 where
  pub to_upper : Text → Text
  pub to_lower : Text → Text
  pub to_upper_ascii : (s : Text) → IsAscii s → to_upper s ≡ map upper_code s
  pub to_lower_ascii : (s : Text) → IsAscii s → to_lower s ≡ map lower_code s

-- `s.replace(/[^…]/g, r)`, where `keep` tells the class, and `s.replace(/c/g, r)`.
unfoldable pub replace_outside : (ℕ → Bool) → ℕ → Text → Text
replace_outside keep r = map (λ c. if keep c then c else r)

unfoldable pub replace_all : ℕ → ℕ → Text → Text
replace_all old r = map (λ c. if c == old then r else c)

-- The mappings of a system that knows ASCII alone.
abbrev pub ascii_case : CaseMapping
ascii_case = record {
  to_upper = map upper_code;
  to_lower = map lower_code;
  to_upper_ascii = λ s h. refl;
  to_lower_ascii = λ s h. refl;
}
