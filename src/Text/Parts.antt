-- ===== src/Text/Parts.antt =====
-- `split` and `join` with a separator of one code unit.
use vexil.Prelude.{
  ℕ, ◌≡◌, refl, sym, ap, ◌∙◌, ◌≢◌, ◌⊎◌, inl, inr, Bool-cases, List, [], ◌∷◌, ◌++◌, arith, ◌==◌, All,
  if◌then◌else◌,
}
use vexil.Text.{Text}

-- The text holds no code unit `c`.
abbrev pub Lacks : ℕ → Text → Type 0
Lacks c = All (λ d. d ≢ c)

-- Puts a code unit in front of the first part.
abbrev extend : ℕ → List Text → List Text
extend c [] = (c ∷ []) ∷ []
extend c (p ∷ ps) = (c ∷ p) ∷ ps

unfoldable pub split : ℕ → Text → List Text
split sep [] = [] ∷ []
split sep (c ∷ s) = let rest = split sep s in if c == sep then [] ∷ rest else extend c rest

unfoldable pub join : ℕ → List Text → Text
join sep [] = []
join sep (p ∷ []) = p
join sep (p ∷ (q ∷ ps)) = p ++ sep ∷ join sep (q ∷ ps)

split_step : (sep c : ℕ) (s : Text) → c ≢ sep → split sep (c ∷ s) ≡ extend c (split sep s)
unfolding split
split_step sep c s h = ground arith

split-lone : (sep : ℕ) (p : Text) → Lacks sep p → split sep p ≡ p ∷ []
unfolding split
split-lone sep [] h = refl
split-lone sep (c ∷ p) h = ground (arith, split-lone sep p h.1)

split-append : (sep : ℕ) (p s : Text) → Lacks sep p → split sep (p ++ sep ∷ s) ≡ p ∷ split sep s
unfolding split
split-append sep [] s h = ground arith
split-append sep (c ∷ p) s h = ground (arith, split-append sep p s h.1)

-- Splitting a join gives the parts back, if there is one and none holds the separator.
pub split-join :
    (sep : ℕ) (p : Text) (ps : List Text)
    → All (Lacks sep) (p ∷ ps)
    → split sep (join sep (p ∷ ps)) ≡ p ∷ ps
unfolding join
split-join sep p [] h = split-lone sep p h.0
split-join sep p (q ∷ ps) h =
    split-append sep p (join sep (q ∷ ps)) h.0 ∙ ap (λ r. p ∷ r) (split-join sep q ps h.1)

split_cases :
    (sep c : ℕ) (s : Text)
    → ((c ≡ sep) × (split sep (c ∷ s) ≡ [] ∷ split sep s))
      ⊎ (split sep (c ∷ s) ≡ extend c (split sep s))
unfolding split
split_cases sep c s = elim (Bool-cases (c == sep)) [
  | inl same ↦ inl (ground arith, rw same refl)
  | inr other ↦ inr (rw other refl)
]

extend-ne-nil : (c : ℕ) (ps : List Text) → extend c ps ≢ []
extend-ne-nil c [] e = cc
extend-ne-nil c (p ∷ ps) e = cc

split-ne-nil : (sep : ℕ) (s : Text) → split sep s ≢ []
split-ne-nil sep [] e = unfold split in cc
split-ne-nil sep (c ∷ s) e = elim (split_cases sep c s) [
  | inl (same, h) ↦ let no : [] ∷ split sep s ≡ [] = sym h ∙ e in cc
  | inr h ↦ extend-ne-nil c (split sep s) (sym h ∙ e)
]

join-extend : (sep c : ℕ) (ps : List Text) → ps ≢ [] → join sep (extend c ps) ≡ c ∷ join sep ps
unfolding join
join-extend sep c [] h = absurd (h refl)
join-extend sep c (p ∷ []) h = refl
join-extend sep c (p ∷ (q ∷ ps)) h = refl

join-nil : (sep : ℕ) (ps : List Text) → ps ≢ [] → join sep ([] ∷ ps) ≡ sep ∷ join sep ps
unfolding join
join-nil sep [] h = absurd (h refl)
join-nil sep (p ∷ ps) h = refl

-- Joining the parts gives the text back.
pub join-split : (sep : ℕ) (s : Text) → join sep (split sep s) ≡ s
join-split sep [] = unfold split join in refl
join-split sep (c ∷ s) =
    let rest = join-split sep s in
    let some_part = split-ne-nil sep s in
    elim (split_cases sep c s) [
      | inl (same, h) ↦ ap (join sep) h ∙ (join-nil sep _ some_part ∙ rw (same, rest) refl)
      | inr h ↦ ap (join sep) h ∙ (join-extend sep c _ some_part ∙ ap (λ t. c ∷ t) rest)
    ]

-- A text in front of the first `c` is determined by the whole.
pub cut_injective :
    (c : ℕ) (s t u v : Text) → Lacks c s → Lacks c t → s ++ c ∷ u ≡ t ++ c ∷ v → (s ≡ t) × (u ≡ v)
cut_injective c [] [] u v h k e = (refl, cc)
cut_injective c [] (b ∷ t) u v h k e = absurd (k.0 (cc))
cut_injective c (a ∷ s) [] u v h k e = absurd (h.0 (cc))
cut_injective c (a ∷ s) (b ∷ t) u v h k e =
    let (same, rest) = cut_injective c s t u v h.1 k.1 (cc) in let first : a ≡ b = cc in (cc, rest)
