-- ===== src/Sdk/Accessors.antt =====
-- The typed accessors of the client: `bool`, `string`, `int` and `json` of
-- sdks/node/src/index.ts.
use vexil.Prelude.{
  ℕ, sym, append-nil, ◌≡◌, refl, ◌↔◌, ◌⊎◌, inl, inr, Bool, true, false, Option, none, some, [], ◌∷◌,
  arith, In, Option-cases,
}
use vexil.Text.{Text, codes, text_eq_iff}
use vexil.Text.Decimal.{ℤ, pos, parse_int}
use vexil.Text.Decimal.Print.{print, parse_int-print}
use vexil.Text.Decimal.Reads.{Reads, parse_int_iff}
use vexil.Sdk.{Flag, Client, Host, get_flag, enabled, is_truthy, bool, string, int, json}

-- The flag is missing, or switched off.
abbrev pub IsOff : Option Flag → Type 0
IsOff none = Unit
IsOff (some flag) = flag.disabled ≡ true

enabled-IsOff : (o : Option Flag) → IsOff o → enabled o ≡ none
unfolding enabled
enabled-IsOff none h = refl
enabled-IsOff (some flag) h = rw h

is_truthy_iff :
    (v : Text) → (is_truthy v ≡ true) ↔ In v (codes "true" ∷ (codes "1" ∷ (codes "yes" ∷ [])))
unfolding is_truthy
is_truthy_iff v =
    ground
      (arith, text_eq_iff (codes "true") v, text_eq_iff (codes "1") v, text_eq_iff (codes "yes") v)

module _ {J N : Type 0} (host : Host J N) (c : Client) (name : Text) where
  -- Of a flag that is missing or disabled, each accessor returns the caller's default, and `json`
  -- null, whatever the stored value; none of them throws.
  accessors_off :
      IsOff (get_flag host c name)
      → (b : Bool) (t : Text) (n : N)
      → (bool host c name b ≡ b)
        × (string host c name t ≡ t)
        × (int host c name n ≡ n)
        × (json host c name ≡ some none)
  unfolding bool string int json
  accessors_off off b t n =
      let e = enabled-IsOff (get_flag host c name) off in rw e (refl, refl, refl, refl)

  module _ (flag : Flag) (found : get_flag host c name ≡ some flag)
      (on : flag.disabled ≡ false) where
    enabled_found : enabled (get_flag host c name) ≡ some flag
    unfolding enabled
    enabled_found = rw (found, on)

    -- Of an enabled flag, `bool` is true exactly if the value in lower case is one of the three
    -- words, whatever the default.
    bool_iff :
        (b : Bool)
        → (bool host c name b ≡ true)
          ↔ In (host.case.to_lower flag.value) (codes "true" ∷ (codes "1" ∷ (codes "yes" ∷ [])))
    unfolding bool
    bool_iff b = rw enabled_found (is_truthy_iff (host.case.to_lower flag.value))

    -- Of an enabled flag, `int` is the number that its value begins with, or else the value begins
    -- with none and `int` is the default.
    pub int-Reads :
        (n : N)
        → ((z : ℤ) × Reads flag.value z × (int host c name n ≡ host.number z))
          ⊎ (((z : ℤ) → ¬ Reads flag.value z) × (int host c name n ≡ n))
    unfolding int
    int-Reads n = elim (Option-cases (parse_int flag.value)) [
      | inl nan ↦
          inr ((λ z r. let reads = (parse_int_iff flag.value z).1 r in cc), rw (enabled_found, nan))
      | inr (z, number) ↦ inl (z, (parse_int_iff flag.value z).0 number, rw (enabled_found, number))
    ]

    -- Of an enabled flag whose value is a number in decimal notation, `int` is that number.
    int-print : (k : ℕ) (n : N) → flag.value ≡ print k → int host c name n ≡ host.number (pos k)
    unfolding int
    int-print k n e =
        let read : parse_int flag.value ≡ some (pos k) =
          rw (e, sym (append-nil (print k))) (parse_int-print k [] tt) in
        rw (enabled_found, read)
