-- ===== src/Workloads/Shown.antt =====
-- Which cards web/src/app/workloads/page.tsx shows.
use vexil.Prelude.{
  ◌≡◌, refl, subst, ◌≢◌, ◌↔◌, ◌⊎◌, inl, inr, Bool, true, false, ◌||◌, List, [], ◌∷◌, keep, arith,
  is_empty, In, In-keep, keep-In, Bool-cases,
}
use vexil.Text.{is_empty-ne-nil}
use vexil.Text.Case.{CaseMapping}
use vexil.Types.{DiscoveredWorkload}
use vexil.Flags.Page.Filter.{Mentions, holds_iff, is_empty_iff}
use vexil.Workloads.{Page, Found, loading, failed, loaded, View, cards, passes, view_loaded, view}

module _ (case : CaseMapping) where
  -- The view is a list of cards, one of which is the workload's.
  abbrev pub Shows : View → DiscoveredWorkload → Type 0
  Shows (cards ws) w = In w ws
  Shows _ w = ⊥

  either : (a b c : Bool) → ((a || (b || c)) ≡ true) ↔ ((a ≡ true) ⊎ ((b ≡ true) ⊎ (c ≡ true)))
  either a b c = ground arith

  passes_iff :
      (p : Page) (w : DiscoveredWorkload)
      → (passes case p w ≡ true)
        ↔ ((p.search ≡ []) ⊎ (Mentions case p.search w.name ⊎ Mentions case p.search w.namespace))
  unfolding passes
  passes_iff p w =
      let (e0, e1) = is_empty_iff p.search in
      let (n0, n1) = holds_iff case p.search w.name in
      let (s0, s1) = holds_iff case p.search w.namespace in
      (
        (λ h. elim ((either _ _ _).0 h) [
          | inl a ↦ inl (e0 a)
          | inr (inl b) ↦ inr (inl (n0 b))
          | inr (inr c) ↦ inr (inr (s0 c))
        ]),
        λ m. (either _ _ _).1 (elim m [
          | inl a ↦ inl (e1 a)
          | inr (inl b) ↦ inr (inl (n1 b))
          | inr (inr c) ↦ inr (inr (s1 c))
        ]),
      )

  view_loaded_iff :
      (p : Page) (ws : List DiscoveredWorkload) (w : DiscoveredWorkload)
      → Shows (view_loaded case p ws) w ↔ In w ws
  view_loaded_iff p [] w = ((λ h. h), λ h. h)
  view_loaded_iff p (v ∷ ws) w = ((λ h. h), λ h. h)

  view_chosen_iff :
      (p : Page) (found : Found) (w : DiscoveredWorkload)
      → is_empty p.selected_cluster ≡ false
      → Shows (view case p found) w ↔ (
          (ws : List DiscoveredWorkload) × (found ≡ loaded ws)
          × In w ws
          × ((p.search ≡ [])
              ⊎ (Mentions case p.search w.name ⊎ Mentions case p.search w.namespace)))
  unfolding view
  view_chosen_iff p loading w h = rw h ((λ m. absurd m), λ (ws, e, _, _). cc)
  view_chosen_iff p (failed message) w h = rw h ((λ m. absurd m), λ (ws, e, _, _). cc)
  view_chosen_iff p (loaded vs) w h =
      let (to, from) = view_loaded_iff p (keep (passes case p) vs) w in
      rw h (
        (λ m.
            let (listed, e) = In-keep (passes case p) vs (to m) in
            (vs, refl, listed, (passes_iff p w).0 e)),
        λ (ws, e, listed, m).
            let same : ws ≡ vs = cc in
            from (keep-In (passes case p) vs (subst (In w) same listed) ((passes_iff p w).1 m)),
      )

  -- The page shows the card of a workload exactly if a cluster is chosen, the workload is among the
  -- answer's, and the search is empty or stands in its name or namespace, all in lower case.
  pub view-Shows_iff :
      (p : Page) (found : Found) (w : DiscoveredWorkload)
      → Shows (view case p found) w ↔ (
          (p.selected_cluster ≢ [])
          × ((ws : List DiscoveredWorkload) × (found ≡ loaded ws)
              × In w ws
              × ((p.search ≡ [])
                  ⊎ (Mentions case p.search w.name ⊎ Mentions case p.search w.namespace))))
  unfolding view
  view-Shows_iff p found w = elim (Bool-cases (is_empty p.selected_cluster)) [
    | inl nothing ↦ rw nothing (
      (λ m. absurd m),
      λ (chosen, _). absurd (chosen ((is_empty_iff p.selected_cluster).0 nothing)),
    )
    | inr chosen ↦
        let (to, from) = view_chosen_iff p found w chosen in
        ((λ m. (is_empty-ne-nil p.selected_cluster chosen, to m)), λ (_, m). from m)
  ]
