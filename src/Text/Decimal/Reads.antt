-- ===== src/Text/Decimal/Reads.antt =====
-- What `parseInt(s, 10)` accepts, and what it returns.
use vexil.Prelude.{
  sym, ℕ, ◌≡◌, refl, ap, ◌∙◌, inl, inr, Bool-cases, ◌≢◌, ◌↔◌, true, false, none, some, [], ◌∷◌,
  ◌++◌, arith, ◌==◌, All, is_empty, if◌then◌else◌,
}
use vexil.Text.{Text}
use vexil.Text.Case.{is_digit}
use vexil.Text.Trim.{trim_start_of_StartsBare, trim_start-append, is_space, trim_start, StartsBare}
use vexil.Text.Decimal.{
  ℤ, pos, negate, digits, accumulate, read_digits, read_signed, parse_int, value, IsNumeral,
  NoDigit, accumulate_zero, read_digits-append,
}

pub data Sign : Type 0 where
  bare plus minus : Sign

abbrev pub sign_text : Sign → Text
sign_text bare = []
sign_text plus = b'+' ∷ []
sign_text minus = b'-' ∷ []

abbrev pub signed : Sign → ℕ → ℤ
signed bare n = pos n
signed plus n = pos n
signed minus n = negate n

-- The text is white space, a sign, a numeral and something else, and `z` is the signed value.
pub record Reads (s : Text) (z : ℤ) : Type 0 where
  pub gap : Text
  pub sign : Sign
  pub numeral : Text
  pub rest : Text
  pub shape : s ≡ gap ++ (sign_text sign ++ (numeral ++ rest))
  pub blank : All (λ c. is_space c ≡ true) gap
  pub digital : IsNumeral numeral
  pub ends : NoDigit rest
  pub result : z ≡ signed sign (value numeral)

digit_bare : (c : ℕ) → is_digit c ≡ true → is_space c ≡ false
unfolding is_space
digit_bare c h = ground arith

sign_bare : (sg : Sign) (ds rest : Text) → IsNumeral ds → StartsBare (sign_text sg ++ (ds ++ rest))
sign_bare bare [] rest h = absurd (h.0 refl)
sign_bare bare (d ∷ ds) rest h = digit_bare d h.1.0
sign_bare plus ds rest h = unfold is_space in refl
sign_bare minus ds rest h = unfold is_space in refl

read_signed-numeral :
    (sg : Sign) (ds rest : Text)
    → IsNumeral ds
    → NoDigit rest
    → read_signed (sign_text sg ++ (ds ++ rest)) ≡ some (signed sg (value ds))
unfolding read_signed
read_signed-numeral bare [] rest h k = absurd (h.0 refl)
read_signed-numeral bare (d ∷ ds) rest h k =
    ground (arith, read_digits-append pos (d ∷ ds) rest h k)
read_signed-numeral plus ds rest h k = read_digits-append pos ds rest h k
read_signed-numeral minus ds rest h k = read_digits-append negate ds rest h k

trim_start_split :
    (s : Text) → (gap : Text) × (s ≡ gap ++ trim_start s) × All (λ c. is_space c ≡ true) gap
unfolding trim_start
trim_start_split [] = ([], refl, tt)
trim_start_split (c ∷ s) = elim (Bool-cases (is_space c)) [
  | inl blank ↦
      let (gap, e, h) = trim_start_split s in (c ∷ gap, rw blank (ap (λ t. c ∷ t) e), (blank, h))
  | inr other ↦ ([], rw other, tt)
]

digits_split :
    (s : Text)
    → (rest : Text) × (s ≡ digits s ++ rest)
      × NoDigit rest
      × All (λ c. is_digit c ≡ true) (digits s)
unfolding digits
digits_split [] = ([], refl, tt, tt)
digits_split (c ∷ s) = elim (Bool-cases (is_digit c)) [
  | inl yes_digit ↦
      let (rest, e, h, k) = digits_split s in
      (rest, rw yes_digit (ap (λ t. c ∷ t) e), h, rw yes_digit (yes_digit, k))
  | inr other ↦ (c ∷ s, rw other, other, rw other tt)
]

finish_sound :
    (sign : ℕ → ℤ) (ds : Text) (z : ℤ)
    → (if is_empty ds then none else some (sign (accumulate 0 ds))) ≡ some z
    → (ds ≢ []) × (z ≡ sign (value ds))
finish_sound sign [] z h = cc
finish_sound sign (d ∷ ds) z h = ((λ e. cc), cc (accumulate_zero (d ∷ ds), h))

read_digits_sound :
    (sign : ℕ → ℤ) (s : Text) (z : ℤ)
    → read_digits sign s ≡ some z
    → (ds : Text) × (rest : Text) × (s ≡ ds ++ rest)
      × IsNumeral ds
      × NoDigit rest
      × (z ≡ sign (value ds))
unfolding read_digits
read_digits_sound sign s z h =
    let (rest, e, ends, all) = digits_split s in
    let (nonempty, exact) = finish_sound sign (digits s) z h in
    (digits s, rest, e, (nonempty, all), ends, exact)

read_signed_sound :
    (s : Text) (z : ℤ)
    → read_signed s ≡ some z
    → (sg : Sign) × (ds : Text) × (rest : Text) × (s ≡ sign_text sg ++ (ds ++ rest))
      × IsNumeral ds
      × NoDigit rest
      × (z ≡ signed sg (value ds))
unfolding read_signed
read_signed_sound [] z h = cc
read_signed_sound (c ∷ s) z h = elim (Bool-cases (c == b'-')) [
  | inl dash ↦
      let (ds, rest, e, n, k, r) = read_digits_sound negate s z (ground arith) in
      (minus, ds, rest, ground arith, n, k, r)
  | inr undashed ↦ elim (Bool-cases (c == b'+')) [
    | inl cross ↦
        let (ds, rest, e, n, k, r) = read_digits_sound pos s z (ground arith) in
        (plus, ds, rest, ground arith, n, k, r)
    | inr uncrossed ↦
        let (ds, rest, e, n, k, r) = read_digits_sound pos (c ∷ s) z (ground arith) in
        (bare, ds, rest, e, n, k, r)
  ]
]

parse_int_sound : (s : Text) (z : ℤ) → parse_int s ≡ some z → Reads s z
unfolding parse_int
parse_int_sound s z h =
    let (gap, e, blank) = trim_start_split s in
    let (sg, ds, rest, e', n, k, r) = read_signed_sound (trim_start s) z h in
    record {
      gap = gap;
      sign = sg;
      numeral = ds;
      rest = rest;
      shape = e ∙ ap (λ t. gap ++ t) e';
      blank = blank;
      digital = n;
      ends = k;
      result = r;
    }

parse_int_complete : (s : Text) (z : ℤ) → Reads s z → parse_int s ≡ some z
unfolding parse_int
parse_int_complete s z r =
    rw
      (
        r.shape,
        trim_start-append r.gap _ r.blank,
        trim_start_of_StartsBare _ (sign_bare r.sign r.numeral r.rest r.digital),
      )
      (read_signed-numeral r.sign r.numeral r.rest r.digital r.ends ∙ ap some (sym r.result))

-- `parseInt(s, 10)` is a number exactly if the text is white space, an optional sign, one or more
-- digits and something that is no digit; it is then the signed value of all these digits.
pub parse_int_iff : (s : Text) (z : ℤ) → (parse_int s ≡ some z) ↔ Reads s z
parse_int_iff s z = (parse_int_sound s z, parse_int_complete s z)
