-- ===== src/Audit/Filter.antt =====
-- Which events web/src/app/audit/page.tsx lists.
use vexil.Prelude.{
  ◌≡◌, ◌↔◌, ◌⊎◌, inl, inr, Bool, true, false, not, ◌&&◌, some, List, [], ◌∷◌, map, keep, arith, In,
  In-keep, keep-In, In-map_iff, if◌then◌else◌,
}
use vexil.Text.{Text}
use vexil.Text.Case.{CaseMapping}
use vexil.Types.{AuditEvent}
use vexil.Flags.Page.Filter.{Mentions, holds_iff, is_empty_iff, set_iff}
use vexil.Audit.{Page, Row, View, table, event_row, passes, rows, view}

both_pass :
    (a b c d : Bool)
    → ((if not a && (not b && not c) then false else if d then false else true) ≡ true)
      ↔ (((a ≡ true) ⊎ ((b ≡ true) ⊎ (c ≡ true))) × (d ≡ false))
both_pass a b c d = ground arith

module _ (case : CaseMapping) (format : Text → Text) where
  -- A row of the view.
  abbrev pub Lists : View → Row → Type 0
  Lists (table rs) r = In r rs
  Lists _ r = ⊥

  -- The event meets the search and the filter, where they are set.
  abbrev pub Passes : Page → AuditEvent → Type 0
  Passes p e =
      ((p.search ≡ []) ⊎ (Mentions case p.search e.resource_id ⊎ Mentions case p.search e.resource))
      × ((p.filter_action ≡ []) ⊎ (e.action ≡ p.filter_action))

  passes_iff : (p : Page) (e : AuditEvent) → (passes case p e ≡ true) ↔ Passes p e
  unfolding passes
  passes_iff p e =
      let (e0, e1) = is_empty_iff p.search in
      let (i0, i1) = holds_iff case p.search e.resource_id in
      let (r0, r1) = holds_iff case p.search e.resource in
      let (a0, a1) = set_iff p.filter_action e.action in
      (
        (λ h.
            let (m, a) = (both_pass _ _ _ _).0 h in
            (
              elim m [
                | inl k ↦ inl (e0 k)
                | inr (inl k) ↦ inr (inl (i0 k))
                | inr (inr k) ↦ inr (inr (r0 k))
              ],
              a0 a,
            )),
        λ (m, a). (both_pass _ _ _ _).1 (
          elim m [
            | inl k ↦ inl (e1 k)
            | inr (inl k) ↦ inr (inl (i1 k))
            | inr (inr k) ↦ inr (inr (r1 k))
          ],
          a1 a,
        ),
      )

  rows_iff :
      (es : List AuditEvent) (r : Row)
      → Lists (rows case format es) r ↔ In r (map (event_row format) es)
  rows_iff [] r = ((λ m. m), λ m. m)
  rows_iff (e ∷ es) r = ((λ m. m), λ m. m)

  -- Once the events are there, the page has a row exactly for those events that meet its search, in
  -- the resource or its id, and its filter of the action, where they are set.
  pub view-Lists_iff :
      (p : Page) (events : List AuditEvent) (r : Row)
      → Lists (view case format p (some events)) r
        ↔ ((e : AuditEvent) × In e events × Passes p e × (event_row format e ≡ r))
  unfolding view
  view-Lists_iff p events r =
      let (to, from) = rows_iff (keep (passes case p) events) r in
      let (out, back) = In-map_iff (event_row format) r (keep (passes case p) events) in
      (
        (λ m.
            let (e, k, same) = out (to m) in
            let (listed, pass) = In-keep (passes case p) events k in
            (e, listed, (passes_iff p e).0 pass, same)),
        λ (e, listed, pass, same).
            from (back (e, keep-In (passes case p) events listed ((passes_iff p e).1 pass), same)),
      )
