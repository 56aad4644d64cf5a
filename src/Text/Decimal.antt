-- ===== src/Text/Decimal.antt =====
-- `parseInt(s, 10)`, against the numerals that it reads.
pub mod Reads
pub mod Print
use vexil.Prelude.{
  ℕ, ◌+◌, ◌-◌, ◌*◌, ◌^◌, ◌≡◌, refl, ap, ◌∙◌, inl, inr, Bool-cases, ◌≢◌, ◌↔◌, true, false, Option,
  none, some, [], ◌∷◌, ◌++◌, arith, ◌==◌, length, All, is_empty, if◌then◌else◌,
}
use native.Mathlib.Nat.{pow-suc}
use vexil.Text.{Text}
use vexil.Text.Case.{is_digit}
use vexil.Text.Trim.{trim_start_of_StartsBare, trim_start-append, is_space, trim_start, StartsBare}

-- A whole number; `negsuc n` is -(n + 1).
pub data ℤ : Type 0 where
  pos : ℕ → ℤ
  negsuc : ℕ → ℤ

abbrev pub negate : ℕ → ℤ
negate n = if n == 0 then pos 0 else negsuc (n - 1)

-- The digits in front, and the value that they spell behind `n`.
unfoldable pub digits : Text → Text
digits [] = []
digits (c ∷ s) = let rest = digits s in if is_digit c then c ∷ rest else []

abbrev pub accumulate : ℕ → Text → ℕ
accumulate n [] = n
accumulate n (c ∷ s) = accumulate (n * 10 + (c - b'0')) s

-- `none` is NaN.
unfoldable pub read_digits : (ℕ → ℤ) → Text → Option ℤ
unfolding digits
read_digits sign s =
    let ds = digits s in if is_empty ds then none else some (sign (accumulate 0 ds))

unfoldable pub read_signed : Text → Option ℤ
unfolding read_digits
read_signed [] = none
read_signed (c ∷ s) =
    if c == b'-'
    then read_digits negate s
    else if c == b'+'
    then read_digits pos s
    else read_digits pos (c ∷ s)

unfoldable pub parse_int : Text → Option ℤ
unfolding read_signed trim_start
parse_int s = read_signed (trim_start s)

-- What a sequence of digits stands for, by the places of the digits.
abbrev pub value : Text → ℕ
value [] = 0
value (c ∷ s) = (c - b'0') * 10 ^ length s + value s

abbrev pub IsNumeral : Text → Type 0
IsNumeral ds = (ds ≢ []) × All (λ c. is_digit c ≡ true) ds

-- What follows a numeral cannot be read as one more digit of it.
abbrev pub NoDigit : Text → Type 0
NoDigit [] = Unit
NoDigit (c ∷ s) = is_digit c ≡ false

shift : (n d p v : ℕ) → (n * 10 + d) * p + v ≡ n * (p * 10) + (d * p + v)
shift n d p v = omega arith

accumulate-value : (n : ℕ) (s : Text) → accumulate n s ≡ n * 10 ^ length s + value s
accumulate-value n [] = omega arith
accumulate-value n (c ∷ s) =
    rw pow-suc
      (accumulate-value (n * 10 + (c - b'0')) s ∙ shift n (c - b'0') (10 ^ length s) (value s))

accumulate_zero : (s : Text) → accumulate 0 s ≡ value s
accumulate_zero s = accumulate-value 0 s ∙ omega arith

digits-append :
    (ds rest : Text) → All (λ c. is_digit c ≡ true) ds → NoDigit rest → digits (ds ++ rest) ≡ ds
unfolding digits
digits-append [] [] h k = refl
digits-append [] (c ∷ rest) h k = ground arith
digits-append (d ∷ ds) rest h k = ground (arith, digits-append ds rest h.1 k)

read_digits-append :
    (sign : ℕ → ℤ) (ds rest : Text)
    → IsNumeral ds
    → NoDigit rest
    → read_digits sign (ds ++ rest) ≡ some (sign (value ds))
unfolding read_digits
read_digits-append sign [] rest h k = absurd (h.0 refl)
read_digits-append sign (d ∷ ds) rest h k =
    rw (digits-append (d ∷ ds) rest h.1 k, accumulate_zero (d ∷ ds))
      (ap (λ m. some (sign m)) (omega arith))
