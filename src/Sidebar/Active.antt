-- ===== src/Sidebar/Active.antt =====
-- The item that web/src/components/layout/Sidebar.tsx highlights.
use vexil.Prelude.{
  ℕ, ◌≡◌, refl, sym, ap, ◌∙◌, ◌≢◌, ◌⊎◌, inl, inr, true, Option, List, [], ◌∷◌, ◌++◌, arith,
  get_elem?, All, All-In, In, Bool-cases,
}
use vexil.Text.{Text, codes, text_eq, text_eq_iff}
use vexil.Text.Search.{starts_with_sound}
use vexil.Sidebar.{Item, navigation, is_active}

-- The second code unit of an address, which tells the items apart.
abbrev tag : Text → Option ℕ
tag s = get_elem? s 1

tag-append : (a b : ℕ) (s rest : Text) → tag ((a ∷ (b ∷ s)) ++ rest) ≡ tag (a ∷ (b ∷ s))
tag-append a b s rest = refl

abbrev IsAddress : Text → Type 0
IsAddress href = (href ≡ codes "/") ⊎ ((a : ℕ) × (b : ℕ) × (s : Text) × (href ≡ a ∷ (b ∷ s)))

tag-is_active :
    (pathname : Text) (item : Item)
    → IsAddress item.href
    → is_active pathname item ≡ true
    → tag pathname ≡ tag item.href
unfolding is_active
tag-is_active pathname item shape h = elim (Bool-cases (text_eq pathname item.href)) [
  | inl same ↦ ap tag ((text_eq_iff pathname item.href).0 same)
  | inr other ↦ elim shape [
    | inl root ↦ let is_root = (text_eq_iff item.href (codes "/")).1 root in ground arith
    | inr (a, b, s, e) ↦
        let (rest, split) = starts_with_sound pathname item.href (ground arith) in
        ap tag split ∙ rw e (tag-append a b s rest)
  ]
]

abbrev Apart : List Item → Type 0
Apart [] = Unit
Apart (x ∷ xs) = All (λ y. tag x.href ≢ tag y.href) xs × Apart xs

Apart-unique :
    (xs : List Item) (i j : Item) → Apart xs → In i xs → In j xs → tag i.href ≡ tag j.href → i ≡ j
Apart-unique [] i j h m n e = absurd m
Apart-unique (x ∷ xs) i j h (inl p) (inl q) e = sym p ∙ q
Apart-unique (x ∷ xs) i j h (inl p) (inr n) e =
    absurd (All-In _ xs h.0 n (ap (λ (y : Item). tag y.href) p ∙ e))
Apart-unique (x ∷ xs) i j h (inr m) (inl q) e =
    absurd (All-In _ xs h.0 m (ap (λ (y : Item). tag y.href) q ∙ sym e))
Apart-unique (x ∷ xs) i j h (inr m) (inr n) e = Apart-unique xs i j h.1 m n e

navigation-Apart : Apart navigation
navigation-Apart = ground arith

navigation-IsAddress : All (λ i. IsAddress i.href) navigation
navigation-IsAddress = (
  inl refl,
  (
    inr (_, _, _, refl),
    (inr (_, _, _, refl), (inr (_, _, _, refl), (inr (_, _, _, refl), (inr (_, _, _, refl), tt)))),
  ),
)

-- On every path, one item of the navigation is highlighted at most.
pub is_active_unique :
    (pathname : Text) (i j : Item)
    → In i navigation
    → In j navigation
    → is_active pathname i ≡ true
    → is_active pathname j ≡ true
    → i ≡ j
is_active_unique pathname i j m n a b = Apart-unique navigation i j navigation-Apart m n (
    sym (
      tag-is_active pathname i
        (All-In (λ (k : Item). IsAddress k.href) navigation navigation-IsAddress m) a)
    ∙ tag-is_active pathname j
        (All-In (λ (k : Item). IsAddress k.href) navigation navigation-IsAddress n) b)
