-- ===== src/Settings/Tabs.antt =====
-- What web/src/app/settings/page.tsx keeps of the switches.
use vexil.Prelude.{
  ℕ, zero, suc, ◌≡◌, refl, ap, ◌∙◌, inl, inr, false, List, [], ◌∷◌, ◌++◌, map, arith, Bool-cases,
}
use vexil.Text.{Text}
use vexil.Settings.{
  Tab, general, auth, notifications, api, database, Toggle, Page, Event, select_tab, press_toggle,
  shown_toggles, same_tab, press, handle, run,
}

abbrev labels : List Toggle → List Text
labels = map (λ (t : Toggle). t.label)

press-labels : (n : ℕ) (ts : List Toggle) → labels (press n ts) ≡ labels ts
unfolding press
press-labels n [] = refl
press-labels zero (t ∷ ts) = refl
press-labels (suc n) (t ∷ ts) = ap (λ ls. t.label ∷ ls) (press-labels n ts)

-- The switches of the open tab, and of no other, whatever their positions.
abbrev pub IsShown : Page → Type 0
IsShown p = labels p.toggles ≡ labels (shown_toggles p.active_tab)

handle-IsShown : (e : Event) (p : Page) → IsShown p → IsShown (handle e p)
unfolding handle
handle-IsShown (select_tab tab) p h = elim (Bool-cases (same_tab tab p.active_tab)) [
  | inl same ↦ rw same h
  | inr other ↦ rw other refl
]
handle-IsShown (press_toggle n) p h = press-labels n p.toggles ∙ h

-- Whatever is pressed, the switches are those of the tab that is open.
run-IsShown : (es : List Event) (p : Page) → IsShown p → IsShown (run es p)
unfolding run
run-IsShown [] p h = h
run-IsShown (e ∷ es) p h = run-IsShown es (handle e p) (handle-IsShown e p h)

run-append : (es fs : List Event) (p : Page) → run (es ++ fs) p ≡ run fs (run es p)
unfolding run
run-append [] fs p = refl
run-append (e ∷ es) fs p = run-append es fs (handle e p)

leave :
    (tab : Tab) (p : Page)
    → same_tab tab p.active_tab ≡ false
    → handle (select_tab tab) p ≡ record { active_tab = tab; toggles = shown_toggles tab }
unfolding handle
leave tab p h = rw h refl

same_tab-sym : (a b : Tab) → same_tab a b ≡ same_tab b a
same_tab-sym general general = refl
same_tab-sym auth auth = refl
same_tab-sym notifications notifications = refl
same_tab-sym api api = refl
same_tab-sym database database = refl
same_tab-sym a b = ground arith

-- No switch outlives a visit of another tab: after any clicks, leaving the tab that is open for
-- another and coming back to it shows it as when it was opened first.
run-leave_return :
    (es : List Event) (p : Page) (tab : Tab)
    → same_tab tab (run es p).active_tab ≡ false
    → let here = (run es p).active_tab in
      run (es ++ select_tab tab ∷ (select_tab here ∷ [])) p
      ≡ record { active_tab = here; toggles = shown_toggles here }
unfolding run
run-leave_return es p tab h =
    let q = run es p in
    run-append es _ p
    ∙ ap (handle (select_tab q.active_tab)) (leave tab q h)
    ∙ leave q.active_tab (record { active_tab = tab; toggles = shown_toggles tab })
        (same_tab-sym q.active_tab tab ∙ h)
