-- ===== src/Flags/Edit/Editor/Sharing.antt =====
-- The rule objects that the form of EditFlagModal.tsx shares with the flag on the page.
use vexil.Prelude.{
  ℕ, ◌≡◌, refl, ◌∙◌, subst, inl, inr, Bool, true, false, List, [], ◌∷◌, get_elem?, All,
  Option-cases,
}
use vexil.Types.{TargetingRule, FeatureFlag}
use vexil.Flags.Edit.Editor.{
  Editor, Event, add_rule, remove_rule, change_rule, confirm, open_editor, handle, run,
}
use vexil.Flags.Edit.Editor.Shared.{Represents, Distinct}
use vexil.Flags.Edit.Editor.Refines.{edit_all, run-Shows}

-- An edit of a rule in place, or one that concerns no rule, or the Cancel button.
abbrev pub is_local : Event → Bool
is_local add_rule = false
is_local (remove_rule i) = false
is_local confirm = false
is_local _ = true

module _ (flag : FeatureFlag) where
  local_keeps :
      (e : Event) (s : Editor)
      → is_local e ≡ true
      → ((handle flag e s).rules ≡ s.rules) × ((handle flag e s).sent ≡ s.sent)
  unfolding handle
  local_keeps add_rule s h = cc
  local_keeps (remove_rule i) s h = cc
  local_keeps confirm s h = cc
  local_keeps (change_rule i ch) s h = elim (Option-cases (get_elem? s.rules i)) [
    | inl gone ↦ rw gone (refl, refl)
    | inr (a, there) ↦ rw there (refl, refl)
  ]
  local_keeps _ s h = (refl, refl)

  local_run_keeps :
      (es : List Event) (s : Editor)
      → All (λ e. is_local e ≡ true) es
      → ((run flag es s).rules ≡ s.rules) × ((run flag es s).sent ≡ s.sent)
  unfolding run
  local_run_keeps [] s h = (refl, refl)
  local_run_keeps (e ∷ es) s h =
      let (r, t) = local_keeps e s h.0 in
      let (r', t') = local_run_keeps es (handle flag e s) h.1 in (r' ∙ r, t' ∙ t)

  module _ (heap : List TargetingRule) (refs : List ℕ) (rs : List TargetingRule) where
    -- If each rule of the flag is an object of its own, edits of the rules in place reach the flag on
    -- the page at once. After any of them, a Cancel at the end included, nothing has been sent, and
    -- the flag's own objects stand for the edited rules.
    pub run_edits_flag :
        (es : List Event)
        → Distinct refs
        → Represents heap refs rs
        → All (λ e. is_local e ≡ true) es
        → ((run flag es (open_editor flag heap refs)).sent ≡ [])
          × Represents
              (run flag es (open_editor flag heap refs)).heap
              refs
              (edit_all flag.type es rs)
    unfolding open_editor
    run_edits_flag es d h l =
        let s = open_editor flag heap refs in
        let (same, none_sent) = local_run_keeps es s l in
        let after = run-Shows flag es s rs (record { own = d; shown = h }) in
        (
          none_sent,
          subst (λ a. Represents (run flag es s).heap a (edit_all flag.type es rs)) same
              after.shown,
        )
