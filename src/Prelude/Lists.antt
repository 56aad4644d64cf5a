-- ===== src/Prelude/Lists.antt =====
-- Lists over the native numbers, under the library's names, and predicates on all their entries.
use Prim.Native.Nat.{ℕ, zero, suc, ◌+◌, ◌≤◌}
use mathlib.Core.Path.{◌≡◌, refl, sym, ap, ◌∙◌, subst}
use mathlib.Core.Bool.{Bool, true, false}
use mathlib.Core.Logic.{◌↔◌, ◌⊎◌, inl, inr}
use vexil.Prelude.Tests.{Bool-cases, catch, ◌>>=◌, >>=-eq-some}
use mathlib.Core.Option.{Option, none, some}
use mathlib.Core.List.{List, [], ◌∷◌, ◌++◌, map}
use native.Mathlib.Omega.{arith}

module _ {ℓ} {A : Type ℓ} where
  abbrev pub length : List A → ℕ
  length [] = 0
  length (x ∷ xs) = suc (length xs)

  abbrev pub get_elem? : List A → ℕ → Option A
  get_elem? [] i = none
  get_elem? (x ∷ xs) zero = some x
  get_elem? (x ∷ xs) (suc i) = get_elem? xs i

  abbrev pub is_empty : List A → Bool
  is_empty [] = true
  is_empty (x ∷ xs) = false

  -- `Array.prototype.filter` with a Boolean callback.
  abbrev pub keep : (A → Bool) → List A → List A
  keep p [] = []
  keep p (x ∷ xs) = elim (p x) [ true ↦ x ∷ keep p xs | false ↦ keep p xs ]

  pub length-append : (xs ys : List A) → length (xs ++ ys) ≡ length xs + length ys
  length-append [] ys = omega arith
  length-append (x ∷ xs) ys = omega (arith, length-append xs ys)

  pub length-keep : (p : A → Bool) (xs : List A) → length (keep p xs) ≤ length xs
  length-keep p [] = omega arith
  length-keep p (x ∷ xs) = ground (arith, length-keep p xs)

pub length-map {ℓ κ} :
    {A : Type ℓ} {B : Type κ} (f : A → B) (xs : List A) → length (map f xs) ≡ length xs
length-map f [] = refl
length-map f (x ∷ xs) = ap suc (length-map f xs)

-- `for (x of xs)` with a body that may throw.
abbrev pub traverse {ℓ κ} : {A : Type ℓ} {B : Type κ} → (A → Option B) → List A → Option (List B)
traverse f [] = some []
traverse f (x ∷ xs) = f x >>= λ y. traverse f xs >>= λ ys. some (y ∷ ys)

module _ {ℓ κ} {A : Type ℓ} (P : A → Type κ) where
  abbrev pub All : List A → Type κ
  All [] = Unit
  All (x ∷ xs) = P x × All xs

  pub All-append : (xs ys : List A) → All xs → All ys → All (xs ++ ys)
  All-append [] ys _ hy = hy
  All-append (x ∷ xs) ys (px, hx) hy = (px, All-append xs ys hx hy)

  pub All-left : (xs ys : List A) → All (xs ++ ys) → All xs
  All-left [] ys h = tt
  All-left (x ∷ xs) ys h = (h.0, All-left xs ys h.1)

  pub All-right : (xs ys : List A) → All (xs ++ ys) → All ys
  All-right [] ys h = h
  All-right (x ∷ xs) ys h = All-right xs ys h.1

-- A value is among the entries of a list.
abbrev pub In : {A : Type 0} → A → List A → Type 0
In a [] = ⊥
In a (x ∷ xs) = (x ≡ a) ⊎ In a xs

pub All-map {ℓ κ μ} :
    {A : Type ℓ} {B : Type κ} (P : B → Type μ) (f : A → B) (xs : List A)
    → ((x : A) → P (f x))
    → All P (map f xs)
All-map P f [] h = tt
All-map P f (x ∷ xs) h = (h x, All-map P f xs h)

pub All-In {κ} : {A : Type 0} (P : A → Type κ) (xs : List A) {a : A} → All P xs → In a xs → P a
All-In P [] h m = absurd m
All-In P (x ∷ xs) h (inl e) = subst P e h.0
All-In P (x ∷ xs) h (inr m) = All-In P xs h.1 m

pub In-map :
    {A B : Type 0} (f : A → B) (xs : List A) {b : B}
    → In b (map f xs)
    → (a : A) × In a xs × (f a ≡ b)
In-map f [] m = absurd m
In-map f (x ∷ xs) (inl e) = (x, inl refl, e)
In-map f (x ∷ xs) (inr m) = let (a, h, e) = In-map f xs m in (a, inr h, e)

module _ {A : Type 0} (p : A → Bool) where
  pub keep_yes : (x : A) (xs : List A) → p x ≡ true → keep p (x ∷ xs) ≡ x ∷ keep p xs
  keep_yes x xs h = ground arith

  pub keep_no : (x : A) (xs : List A) → p x ≡ false → keep p (x ∷ xs) ≡ keep p xs
  keep_no x xs h = ground arith

  pub In-keep : (xs : List A) {a : A} → In a (keep p xs) → In a xs × (p a ≡ true)
  In-keep [] m = absurd m
  In-keep (x ∷ xs) {a} m = elim (Bool-cases (p x)) [
    | inl held ↦ elim (subst (In a) (keep_yes x xs held) m) [
      | inl e ↦ (inl e, subst (λ y. p y ≡ true) e held)
      | inr k ↦ let (h, e) = In-keep xs k in (inr h, e)
    ]
    | inr dropped ↦ let (h, e) = In-keep xs (subst (In a) (keep_no x xs dropped) m) in (inr h, e)
  ]

  pub keep-In : (xs : List A) {a : A} → In a xs → p a ≡ true → In a (keep p xs)
  keep-In [] m h = absurd m
  keep-In (x ∷ xs) {a} (inl e) h =
      subst (In a) (sym (keep_yes x xs (subst (λ y. p y ≡ true) (sym e) h))) (inl e)
  keep-In (x ∷ xs) {a} (inr m) h = elim (Bool-cases (p x)) [
    | inl held ↦ subst (In a) (sym (keep_yes x xs held)) (inr (keep-In xs m h))
    | inr dropped ↦ subst (In a) (sym (keep_no x xs dropped)) (keep-In xs m h)
  ]

pub catch-In :
    {A : Type 0} (o : Option (List A)) {a : A}
    → In a (catch o [])
    → (xs : List A) × (o ≡ some xs) × In a xs
catch-In none m = absurd m
catch-In (some xs) m = (xs, refl, m)

pub traverse-In :
    {A B : Type 0} (f : A → Option B) (xs : List A) (ys : List B) {b : B}
    → traverse f xs ≡ some ys
    → In b ys
    → (a : A) × In a xs × (f a ≡ some b)
traverse-In f [] [] e m = absurd m
traverse-In f [] (y ∷ ys) e m = cc
traverse-In f (x ∷ xs) ys {b} e m =
    let (y, head, e') = >>=-eq-some (f x) _ e in
    let (zs, later, e'') = >>=-eq-some (traverse f xs) _ e' in
    let same_list : ys ≡ y ∷ zs = cc in
    let split : In b (y ∷ zs) = subst (In b) same_list m in
    elim split [
      | inl same ↦ (x, inl refl, head ∙ ap some same)
      | inr k ↦ let (a, h, g) = traverse-In f xs zs later k in (a, inr h, g)
    ]

-- One entry on which the body throws makes the whole loop throw.
pub traverse_throws :
    {A B : Type 0} (f : A → Option B) (xs : List A) {a : A}
    → In a xs
    → f a ≡ none
    → traverse f xs ≡ none
traverse_throws f [] m e = absurd m
traverse_throws f (x ∷ xs) (inl same) e = rw (same, e)
traverse_throws f (x ∷ xs) (inr m) e =
    elim (f x) as (λ o. (o >>= λ y. traverse f xs >>= λ ys. some (y ∷ ys)) ≡ none) [
      | none ↦ refl
      | some y ↦ rw (traverse_throws f xs m e)
    ]

module _ {ℓ} {A : Type ℓ} where
  -- `xs[i] = f(xs[i])`; out of range nothing changes.
  abbrev pub modify : (A → A) → ℕ → List A → List A
  modify f i [] = []
  modify f zero (x ∷ xs) = f x ∷ xs
  modify f (suc i) (x ∷ xs) = x ∷ modify f i xs

  -- `xs.filter((_, j) => j !== i)`.
  abbrev pub remove_at : ℕ → List A → List A
  remove_at i [] = []
  remove_at zero (x ∷ xs) = xs
  remove_at (suc i) (x ∷ xs) = x ∷ remove_at i xs

-- A member of a mapped list comes from one of the list.
pub In-map_iff :
    {A B : Type 0} (f : A → B) (y : B) (xs : List A)
    → In y (map f xs) ↔ ((x : A) × In x xs × (f x ≡ y))
In-map_iff f y [] = ((λ m. absurd m), λ (x, m, e). absurd m)
In-map_iff f y (x ∷ xs) =
    let (to, from) = In-map_iff f y xs in
    (
      (λ m. elim m [ inl e ↦ (x, inl refl, e) | inr n ↦ let (z, k, e) = to n in (z, inr k, e) ]),
      λ (z, m, e). elim m [ inl same ↦ inl (ap f same ∙ e) | inr n ↦ inr (from (z, n, e)) ],
    )
