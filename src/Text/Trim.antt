-- ===== src/Text/Trim.antt =====
-- `trim`, over the white space and line terminators of ECMAScript.
use vexil.Prelude.{
  ℕ, ◌≡◌, refl, Bool, true, false, ◌&&◌, ◌||◌, [], ◌∷◌, ◌++◌, reverse, arith, ◌==◌, leb, All,
  if◌then◌else◌,
}
use mathlib.Core.List.{reverse-reverse}
use vexil.Text.{Text}

-- Tab, line feed, vertical tab, form feed, carriage return, space, no-break space, Ogham space,
-- the spaces of U+2000, the two separators, narrow, mathematical and ideographic space, and BOM.
unfoldable pub is_space : ℕ → Bool
is_space c =
    (leb 9 c && leb c 13)
    || c == 32
    || c == 160
    || c == 0x1680
    || (leb 0x2000 c && leb c 0x200a)
    || c == 0x2028
    || c == 0x2029
    || c == 0x202f
    || c == 0x205f
    || c == 0x3000
    || c == 0xfeff

unfoldable pub trim_start : Text → Text
trim_start [] = []
trim_start (c ∷ s) = let rest = trim_start s in if is_space c then rest else c ∷ s

unfoldable pub trim_end : Text → Text
unfolding trim_start
trim_end s = reverse (trim_start (reverse s))

unfoldable pub trim : Text → Text
unfolding trim_start trim_end
trim s = trim_end (trim_start s)

-- Neither end of the text is white space.
abbrev pub StartsBare : Text → Type 0
StartsBare [] = Unit
StartsBare (c ∷ s) = is_space c ≡ false

abbrev pub IsTrimmed : Text → Type 0
IsTrimmed s = StartsBare s × StartsBare (reverse s)

pub trim_start_of_StartsBare : (s : Text) → StartsBare s → trim_start s ≡ s
unfolding trim_start
trim_start_of_StartsBare [] h = refl
trim_start_of_StartsBare (c ∷ s) h = ground arith

pub trim_start-append :
    (gap s : Text) → All (λ c. is_space c ≡ true) gap → trim_start (gap ++ s) ≡ trim_start s
unfolding trim_start
trim_start-append [] s h = refl
trim_start-append (c ∷ gap) s h = ground (arith, trim_start-append gap s h.1)

pub trim_of_IsTrimmed : (s : Text) → IsTrimmed s → trim s ≡ s
unfolding trim
trim_of_IsTrimmed s h =
    rw (trim_start_of_StartsBare s h.0, trim_start_of_StartsBare (reverse s) h.1)
      (reverse-reverse s)
