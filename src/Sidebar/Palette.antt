-- ===== src/Sidebar/Palette.antt =====
-- The search of the pages in web/src/components/layout/Sidebar.tsx.
use vexil.Prelude.{
  ◌≡◌, refl, sym, subst, ◌↔◌, ◌⊎◌, inl, inr, true, false, List, [], ◌∷◌, keep, arith, In, In-keep,
  Bool-cases,
}
use vexil.Text.{Text}
use vexil.Text.Case.{CaseMapping}
use vexil.Text.Search.{includes, Contains, includes_sound, includes-append}
use vexil.Sidebar.{
  Item, navigation, Bar, Event, press_ctrl_k, press_escape, open_search, close_search, press_enter,
  type_search, select_item, open_bar, navigate, handle_select, any, matches, filtered, enter,
  handle, offers,
}

module _ (case : CaseMapping) where
  pub data Reach : Bar → Type 0 where
    start : (pathname : Text) → Reach (open_bar pathname)
    step : {b : Bar} (e : Event) → Reach b → offers b e ≡ true → Reach (handle case e b)

  -- The search is open, or its text is empty.
  abbrev pub IsClean : Bar → Type 0
  IsClean b = (b.search_open ≡ true) ⊎ (b.search ≡ [])

  enter-IsClean : (items : List Item) (b : Bar) → IsClean b → IsClean (enter case items b)
  unfolding enter handle_select
  enter-IsClean [] b h = h
  enter-IsClean (item ∷ items) b h = inr refl

  handle-IsClean : (e : Event) (b : Bar) → offers b e ≡ true → IsClean b → IsClean (handle case e b)
  unfolding handle offers handle_select navigate
  handle-IsClean press_ctrl_k b o h = ground arith
  handle-IsClean press_escape b o h = ground arith
  handle-IsClean press_enter b o h = enter-IsClean (filtered case b.search) b h
  handle-IsClean open_search b o h = inl refl
  handle-IsClean close_search b o h = inr refl
  handle-IsClean (type_search t) b o h = inl o
  handle-IsClean (select_item href) b o h = inr refl
  handle-IsClean _ b o h = h

  -- Whatever is pressed, typed and visited, the search never opens on a text that was typed before:
  -- while it is shut, its text is empty.
  Reach-IsClean : {b : Bar} → Reach b → IsClean b
  Reach-IsClean (start pathname) = inr refl
  Reach-IsClean (step {b} e r o) = handle-IsClean e b o (Reach-IsClean r)

  -- The item's name in lower case, or one of its keywords, holds the text in lower case.
  abbrev AnyHolds : Text → List Text → Type 0
  AnyHolds q ks = (k : Text) × In k ks × Contains k q

  abbrev pub Matches : Text → Item → Type 0
  Matches search item =
      Contains (case.to_lower item.name) (case.to_lower search)
      ⊎ AnyHolds (case.to_lower search) item.keywords

  holds_iff : (s q : Text) → (includes s q ≡ true) ↔ Contains s q
  holds_iff s q = (includes_sound s q, λ (before, after, e). rw e (includes-append before q after))

  any_sound : (q : Text) (ks : List Text) → any (λ k. includes k q) ks ≡ true → AnyHolds q ks
  any_sound q [] h = cc
  any_sound q (k ∷ ks) h = elim (Bool-cases (includes k q)) [
    | inl here ↦ (k, inl refl, includes_sound k q here)
    | inr later ↦ let (j, m, c) = any_sound q ks (ground arith) in (j, inr m, c)
  ]

  any_complete :
      (q : Text) (ks : List Text) (k : Text)
      → In k ks
      → Contains k q
      → any (λ k. includes k q) ks ≡ true
  any_complete q [] k m c = absurd m
  any_complete q (j ∷ ks) k (inl e) c =
      let found : includes j q ≡ true = rw e ((holds_iff k q).1 c) in ground arith
  any_complete q (j ∷ ks) k (inr m) c = ground (arith, any_complete q ks k m c)

  matches_iff :
      (search : Text) (item : Item)
      → (matches case search item ≡ true) ↔ ((search ≡ []) ⊎ Matches search item)
  unfolding matches
  matches_iff [] item = ((λ e. inl refl), λ h. refl)
  matches_iff (c ∷ s) item = (
    (λ e. elim (Bool-cases (includes (case.to_lower item.name) (case.to_lower (c ∷ s)))) [
      | inl name ↦ inr (inl (includes_sound _ _ name))
      | inr other ↦ inr (inr (any_sound _ item.keywords (ground arith)))
    ]),
    λ h. elim h [
      | inl e ↦ cc
      | inr (inl name) ↦ let found = (holds_iff _ _).1 name in ground arith
      | inr (inr (k, m, c')) ↦ let found = any_complete _ item.keywords k m c' in ground arith
    ],
  )

  -- What the Enter key makes of the bar.
  abbrev pub Enters : Bar → Bar → Type 0
  Enters b b' =
      ((filtered case b.search ≡ []) × (b' ≡ b))
      ⊎ ((item : Item) × (items : List Item) × (filtered case b.search ≡ item ∷ items)
          × In item navigation
          × ((b.search ≡ []) ⊎ Matches b.search item)
          × (b'.pathname ≡ item.href)
          × (b'.search_open ≡ false)
          × (b'.search ≡ []))

  enter-first :
      (items : List Item) (b : Bar) → filtered case b.search ≡ items → Enters b (enter case items b)
  unfolding enter handle_select navigate
  enter-first [] b e = inl (e, refl)
  enter-first (item ∷ items) b e =
      let first : In item (filtered case b.search) = subst (In item) (sym e) (inl refl) in
      let kept : In item (keep (matches case b.search) navigation) = unfold filtered in first in
      let (listed, match) = In-keep (matches case b.search) navigation kept in
      inr (item, items, e, listed, (matches_iff b.search item).0 match, refl, refl, refl)

  -- The Enter key leads to the first page that the search leaves, whose name or one of whose keywords
  -- holds the text in lower case, if there is one, and shuts the search. If the search leaves no
  -- page, nothing changes.
  press_enter-Enters : (b : Bar) → Enters b (handle case press_enter b)
  unfolding handle
  press_enter-Enters b = enter-first (filtered case b.search) b refl
