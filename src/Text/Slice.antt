-- ===== src/Text/Slice.antt =====
-- `slice(0, n)`, and a text cut short.
use vexil.Prelude.{
  ℕ, zero, suc, ◌+◌, ◌≤◌, ◌≡◌, refl, ap, List, [], ◌∷◌, ◌++◌, arith, ltb, length, length-append,
  if◌then◌else◌, Bool-cases, inl, inr,
}
use vexil.Text.{Text, codes}

-- `xs.slice(0, n)`.
abbrev pub take {ℓ} : {A : Type ℓ} → ℕ → List A → List A
take zero xs = []
take (suc n) [] = []
take (suc n) (x ∷ xs) = x ∷ take n xs

-- `s.length > n ? s.slice(0, n) + '...' : s`.
unfoldable pub shorten : ℕ → Text → Text
shorten n s = if ltb n (length s) then take n s ++ codes "..." else s

pub length-take {ℓ} : {A : Type ℓ} (n : ℕ) (xs : List A) → length (take n xs) ≤ n
length-take zero xs = omega arith
length-take (suc n) [] = omega arith
length-take (suc n) (x ∷ xs) = omega (arith, length-take n xs)

take-append : (n : ℕ) (s t : Text) → n ≤ length s → take n (take n s ++ t) ≡ take n s
take-append zero s t h = refl
take-append (suc n) [] t h = absurd (omega arith)
take-append (suc n) (c ∷ s) t h = ap (λ u. c ∷ u) (take-append n s t (omega arith))

-- What is shown has no more code units than the bound and three, and begins as the text does.
pub shorten_lem :
    (n : ℕ) (s : Text) → (length (shorten n s) ≤ n + 3) × (take n (shorten n s) ≡ take n s)
unfolding shorten
shorten_lem n s = elim (Bool-cases (ltb n (length s))) [
  | inl long ↦ rw long (
    omega (arith, length-append (take n s) (codes "..."), length-take n s),
    take-append n s (codes "...") (ground arith),
  )
  | inr short ↦ rw short (ground arith, refl)
]
