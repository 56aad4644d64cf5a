-- ===== src/Text/Search.antt =====
-- `startsWith` and `includes`, with what they mean.
use vexil.Prelude.{
  ◌≡◌, refl, ap, inl, inr, Bool, true, false, ◌&&◌, ◌||◌, [], ◌∷◌, ◌++◌, arith, ◌==◌, Bool-cases,
}
use vexil.Text.{Text}

-- `s.startsWith(p)`.
unfoldable pub starts_with : Text → Text → Bool
starts_with s [] = true
starts_with [] (b ∷ p) = false
starts_with (a ∷ s) (b ∷ p) = a == b && starts_with s p

-- `s.includes(q)`.
unfoldable pub includes : Text → Text → Bool
includes [] q = starts_with [] q
includes (a ∷ s) q = starts_with (a ∷ s) q || includes s q

pub starts_with_sound : (s p : Text) → starts_with s p ≡ true → (rest : Text) × (s ≡ p ++ rest)
unfolding starts_with
starts_with_sound s [] h = (s, refl)
starts_with_sound [] (b ∷ p) h = cc
starts_with_sound (a ∷ s) (b ∷ p) h =
    let (rest, e) = starts_with_sound s p (ground arith) in (rest, ground arith)

pub starts_with-append : (p rest : Text) → starts_with (p ++ rest) p ≡ true
unfolding starts_with
starts_with-append [] rest = refl
starts_with-append (b ∷ p) rest = ground (arith, starts_with-append p rest)

-- The text `q` stands somewhere in `s`.
abbrev pub Contains : Text → Text → Type 0
Contains s q = (before : Text) × (after : Text) × (s ≡ before ++ (q ++ after))

pub includes_sound : (s q : Text) → includes s q ≡ true → Contains s q
unfolding includes
includes_sound [] q h = let (rest, e) = starts_with_sound [] q h in ([], rest, e)
includes_sound (a ∷ s) q h = elim (Bool-cases (starts_with (a ∷ s) q)) [
  | inl front ↦ let (rest, e) = starts_with_sound (a ∷ s) q front in ([], rest, e)
  | inr later ↦
      let (before, after, e) = includes_sound s q (ground arith) in
      (a ∷ before, after, ap (λ t. a ∷ t) e)
]

pub includes-append : (before q after : Text) → includes (before ++ (q ++ after)) q ≡ true
unfolding includes
includes-append [] [] [] = unfold starts_with in refl
includes-append [] [] (c ∷ after) = unfold starts_with in refl
includes-append [] (b ∷ q) after = ground (arith, starts_with-append (b ∷ q) after)
includes-append (a ∷ before) q after = ground (arith, includes-append before q after)
