-- ===== src/Flags/Values.antt =====
-- The field for a flag's value in the two forms of web/src/components/flags.
use vexil.Prelude.{◌≡◌, Bool, true, false, ◌||◌, List, [], ◌∷◌}
use vexil.Text.{Text, codes, text_eq}
use vexil.Types.{FlagType, boolean}

-- The field offers two values for a boolean, and takes any text for the other types.
unfoldable pub offers_value : FlagType → Text → Bool
offers_value boolean t = text_eq t (codes "false") || text_eq t (codes "true")
offers_value _ t = true

-- A value that the field can show.
abbrev pub HasType : FlagType → Text → Type 0
HasType type value = offers_value type value ≡ true

-- The value is one of the options of a select.
abbrev pub is_listed : Text → List Text → Bool
is_listed t [] = false
is_listed t (a ∷ rest) = text_eq t a || is_listed t rest
