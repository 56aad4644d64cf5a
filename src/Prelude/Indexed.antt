-- ===== src/Prelude/Indexed.antt =====
-- Predicates on all the entries of a list, through what reads and changes it by position.
use Prim.Native.Nat.{ℕ, zero, suc}
use mathlib.Core.Path.{◌≡◌, refl, subst}
use mathlib.Core.Logic.{inl, inr}
use mathlib.Core.Option.{Option, some}
use mathlib.Core.List.{List, [], ◌∷◌}
use vexil.Prelude.Tests.{Option-cases, catch, >>=-eq-some}
use vexil.Prelude.Lists.{get_elem?, modify, remove_at, traverse, All}

module _ {ℓ κ} {A : Type ℓ} (P : A → Type κ) where
  pub All-get_elem : (xs : List A) (i : ℕ) {x : A} → All P xs → get_elem? xs i ≡ some x → P x
  All-get_elem [] i h e = cc
  All-get_elem (y ∷ xs) zero {x} h e = let same : y ≡ x = cc in subst P same h.0
  All-get_elem (y ∷ xs) (suc i) h e = All-get_elem xs i h.1 e

  pub All-modify :
      (f : A → A) (i : ℕ) (xs : List A)
      → All P xs
      → ((x : A) → get_elem? xs i ≡ some x → P x → P (f x))
      → All P (modify f i xs)
  All-modify f i [] h step = tt
  All-modify f zero (x ∷ xs) h step = (step x refl h.0, h.1)
  All-modify f (suc i) (x ∷ xs) h step = (h.0, All-modify f i xs h.1 step)

  pub All-remove_at : (i : ℕ) (xs : List A) → All P xs → All P (remove_at i xs)
  All-remove_at i [] h = tt
  All-remove_at zero (x ∷ xs) h = h.1
  All-remove_at (suc i) (x ∷ xs) h = (h.0, All-remove_at i xs h.1)

-- A property of every result of the body is one of all the results.
module _ {κ} {A B : Type 0} (P : B → Type κ) (f : A → Option B) where
  some-All :
      (xs : List A) (ys : List B)
      → ((a : A) (b : B) → f a ≡ some b → P b)
      → traverse f xs ≡ some ys
      → All P ys
  some-All [] ys h e = let none_left : ys ≡ [] = cc in rw none_left tt
  some-All (x ∷ xs) ys h e =
      let (y, head, e') = >>=-eq-some (f x) _ e in
      let (zs, later, e'') = >>=-eq-some (traverse f xs) _ e' in
      let same : ys ≡ y ∷ zs = cc in rw same (h x y head, some-All xs zs h later)

  pub traverse-All :
      (xs : List A) → ((a : A) (b : B) → f a ≡ some b → P b) → All P (catch (traverse f xs) [])
  traverse-All xs h = elim (Option-cases (traverse f xs)) [
    | inl thrown ↦ rw thrown tt
    | inr (ys, e) ↦ rw e (some-All xs ys h e)
  ]
