-- ===== src/Text.antt =====
-- Texts as the lists of their UTF-16 code units, with the parts of JavaScript's `String` that
-- sdks/node/src/index.ts and web/src use.
pub mod Search
pub mod Parts
pub mod Trim
pub mod Case
pub mod Decimal
pub mod Slice
use Prim.Native.Char.{code}
use Prim.Native.String.{String}
use vexil.Prelude.{
  is_empty, ◌≢◌, ℕ, ◌≡◌, refl, ap, ◌↔◌, In, inl, inr, Bool, true, false, ◌&&◌, Option, none, some,
  List, [], ◌∷◌, arith, ◌==◌, if◌then◌else◌,
}

abbrev pub Text : Type 0
Text = List ℕ

-- The code units of a literal in the source, which is ASCII.
abbrev pub codes : String → Text
codes String.[] = []
codes (String.◌∷◌ c s) = code c ∷ codes s

-- `===` on strings.
unfoldable pub text_eq : Text → Text → Bool
text_eq [] [] = true
text_eq (a ∷ s) (b ∷ t) = a == b && text_eq s t
text_eq _ _ = false

pub text_eq_iff : (s t : Text) → (text_eq s t ≡ true) ↔ (s ≡ t)
unfolding text_eq
text_eq_iff [] [] = ground arith
text_eq_iff [] (b ∷ t) = ground arith
text_eq_iff (a ∷ s) [] = ground arith
text_eq_iff (a ∷ s) (b ∷ t) = ground (arith, text_eq_iff s t)

pub text_eq_refl : (s : Text) → text_eq s s ≡ true
text_eq_refl s = (text_eq_iff s s).1 refl

-- `s || d`, and `s || d` where `s` may be undefined.
abbrev pub or_else : Text → Text → Text
or_else [] d = d
or_else (c ∷ s) d = c ∷ s

abbrev pub or_text : Option Text → Text → Text
or_text none d = d
or_text (some s) d = or_else s d

-- `s || undefined`.
abbrev pub or_undefined : Text → Option Text
or_undefined [] = none
or_undefined (c ∷ s) = some (c ∷ s)

-- A property access on an object used as a map, and `key in map`.
unfoldable pub lookup {ℓ} : {V : Type ℓ} → Text → List (Text × V) → Option V
lookup k [] = none
lookup k ((j, v) ∷ m) = if text_eq j k then some v else lookup k m

-- `map[key] = v`: a key keeps its place, a new one goes to the end.
unfoldable pub insert {ℓ} : {V : Type ℓ} → Text → V → List (Text × V) → List (Text × V)
insert k v [] = (k, v) ∷ []
insert k v ((j, w) ∷ m) = if text_eq j k then (j, v) ∷ m else (j, w) ∷ insert k v m

-- No key stands twice.
abbrev pub DistinctKeys {ℓ} : {V : Type ℓ} → List (Text × V) → Type ℓ
DistinctKeys [] = Unit
DistinctKeys ((k, v) ∷ m) = (lookup k m ≡ none) × DistinctKeys m

pub lookup-In :
    {V : Type 0} (k : Text) (v : V) (m : List (Text × V))
    → DistinctKeys m
    → In (k, v) m
    → lookup k m ≡ some v
unfolding lookup
lookup-In k v [] d m = absurd m
lookup-In k v ((j, w) ∷ m) d (inl e) = ground (arith, text_eq_refl k)
lookup-In k v ((j, w) ∷ m) d (inr h) = ground (arith, text_eq_iff j k, lookup-In k v m d.1 h)

-- `localStorage.removeItem(key)`, and the deletion of a property.
unfoldable pub erase {ℓ} : {V : Type ℓ} → Text → List (Text × V) → List (Text × V)
erase k [] = []
erase k ((j, v) ∷ m) = let rest = erase k m in if text_eq j k then rest else (j, v) ∷ rest

pub lookup-insert :
    {V : Type 0} (k j : Text) (v : V) (m : List (Text × V))
    → lookup j (insert k v m) ≡ (if text_eq k j then some v else lookup j m)
unfolding lookup insert
lookup-insert k j v [] = refl
lookup-insert k j v ((i, w) ∷ m) =
    ground (arith, text_eq_iff k j, text_eq_iff i k, text_eq_iff i j, lookup-insert k j v m)

pub lookup-erase :
    {V : Type 0} (k j : Text) (m : List (Text × V))
    → lookup j (erase k m) ≡ (if text_eq k j then none else lookup j m)
unfolding lookup erase
lookup-erase k j [] = ground arith
lookup-erase k j ((i, w) ∷ m) =
    ground (arith, text_eq_iff k j, text_eq_iff i k, text_eq_iff i j, lookup-erase k j m)

pub is_empty-ne-nil : (s : Text) → is_empty s ≡ false → s ≢ []
is_empty-ne-nil [] h e = cc
is_empty-ne-nil (c ∷ s) h e = cc
