-- ===== src/Text/Decimal/Print.antt =====
-- A natural number in a template string, against `parseInt`.
use vexil.Prelude.{
  ℕ, zero, suc, ◌+◌, ◌-◌, ◌*◌, ◌/◌, ◌%◌, ◌^◌, ◌<◌, ◌≡◌, refl, sym, ap, ◌∙◌, ◌≢◌, true, some, [],
  ◌∷◌, ◌++◌, arith, ltb, All-append, length, if◌then◌else◌, Bool-cases, inl, inr,
}
use native.Mathlib.Nat.{pow-suc}
use vexil.Text.{Text}
use vexil.Text.Case.{is_digit}
use vexil.Text.Decimal.{pos, parse_int, value, IsNumeral, NoDigit}
use vexil.Text.Decimal.Reads.{bare, parse_int_iff}

-- The digits from the last one; the fuel bounds their number.
print_from : ℕ → ℕ → Text
print_from zero n = []
print_from (suc fuel) n =
    let front = print_from fuel (n / 10) in
    if ltb n 10 then (b'0' + n) ∷ [] else front ++ (b'0' + n % 10) ∷ []

-- `${n}`. A number has no more digits than its value and one.
unfoldable pub print : ℕ → Text
unfolding print_from
print n = print_from (suc n) n

carry : (x p v d : ℕ) → x * (p * 10) + (v * 10 + d) ≡ (x * p + v) * 10 + d
carry x p v d = omega arith

length_snoc : (s : Text) (d : ℕ) → 10 ^ length (s ++ d ∷ []) ≡ 10 ^ length s * 10
length_snoc [] d = refl
length_snoc (c ∷ s) d =
    pow-suc 10 (length (s ++ d ∷ []))
    ∙ ap (λ m. m * 10) (length_snoc s d)
    ∙ ap (λ m. m * 10) (sym (pow-suc 10 (length s)))

value-append : (s : Text) (d : ℕ) → value (s ++ d ∷ []) ≡ value s * 10 + (d - b'0')
value-append [] d = omega arith
value-append (c ∷ s) d =
    rw (length_snoc s d, value-append s d) (carry (c - b'0') (10 ^ length s) (value s) (d - b'0'))

snoc-ne-nil : (s : Text) (d : ℕ) → s ++ d ∷ [] ≢ []
snoc-ne-nil [] d e = cc
snoc-ne-nil (c ∷ s) d e = cc

print_from-IsNumeral :
    (fuel n : ℕ) → n < fuel → IsNumeral (print_from fuel n) × (value (print_from fuel n) ≡ n)
unfolding print_from
print_from-IsNumeral zero n h = absurd (omega arith)
print_from-IsNumeral (suc fuel) n h = elim (Bool-cases (ltb n 10)) [
  | inl small ↦ rw small (((λ e. cc), (ground arith, tt)), ground arith)
  | inr large ↦
      let (numeral, exact) = print_from-IsNumeral fuel (n / 10) (ground arith) in
      let front = print_from fuel (n / 10) in
      rw large (
        (
          snoc-ne-nil front (b'0' + n % 10),
          All-append (λ c. is_digit c ≡ true) front _ numeral.1 (ground arith, tt),
        ),
        omega (arith, value-append front (b'0' + n % 10), exact),
      )
]

-- A number put into a text is read back as it was, whatever follows that begins with no digit.
pub parse_int-print :
    (n : ℕ) (rest : Text) → NoDigit rest → parse_int (print n ++ rest) ≡ some (pos n)
unfolding print
parse_int-print n rest h =
    let (numeral, exact) = print_from-IsNumeral (suc n) n (omega arith) in
    (parse_int_iff _ (pos n)).1 (record {
      gap = [];
      sign = bare;
      numeral = print_from (suc n) n;
      rest = rest;
      shape = refl;
      blank = tt;
      digital = numeral;
      ends = h;
      result = ap pos (sym exact);
    })
