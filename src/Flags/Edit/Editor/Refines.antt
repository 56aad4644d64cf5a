-- ===== src/Flags/Edit/Editor/Refines.antt =====
-- The handlers of EditFlagModal.tsx on the shared rule objects, against plain lists of rules.
use vexil.Prelude.{
  ℕ, inl, inr, List, [], ◌∷◌, ◌++◌, length, get_elem?, modify, remove_at, Option-cases,
}
use vexil.Types.{FlagType, TargetingRule, FeatureFlag}
use vexil.Flags.Edit.Editor.{
  Editor, RuleChange, Event, add_rule, remove_rule, change_rule, set_rule, new_rule, handle, run,
}
use vexil.Flags.Edit.Editor.Shared.{
  Represents, Distinct, Represents-modify, Represents-alloc, Represents-remove_at,
  Represents-length, modify-none, Distinct-alloc, Distinct-remove_at,
}

-- What an event does to the rules, with no objects.
unfoldable pub edit_rules : FlagType → Event → List TargetingRule → List TargetingRule
edit_rules type add_rule rs = rs ++ new_rule type (length rs) ∷ []
edit_rules type (remove_rule i) rs = remove_at i rs
edit_rules type (change_rule i ch) rs = modify (set_rule ch) i rs
edit_rules type _ rs = rs

unfoldable pub edit_all : FlagType → List Event → List TargetingRule → List TargetingRule
edit_all type [] rs = rs
edit_all type (e ∷ es) rs = edit_all type es (edit_rules type e rs)

-- The state shows these rules, each by an object of its own.
pub record Shows (s : Editor) (rs : List TargetingRule) : Type 0 where
  pub own : Distinct s.rules
  pub shown : Represents s.heap s.rules rs

module _ (flag : FeatureFlag) where
  change_rule-Shows :
      (i : ℕ) (ch : RuleChange) (s : Editor) (rs : List TargetingRule)
      → Shows s rs
      → Shows (handle flag (change_rule i ch) s) (edit_rules flag.type (change_rule i ch) rs)
  unfolding handle edit_rules
  change_rule-Shows i ch s rs h = elim (Option-cases (get_elem? s.rules i)) [
    | inl gone ↦ rw (gone, modify-none (set_rule ch) i s.heap s.rules rs gone h.shown) h
    | inr (a, there) ↦ rw there (record {
      own = h.own;
      shown = Represents-modify (set_rule ch) i a s.heap s.rules rs h.own there h.shown;
    })
  ]

  handle-Shows :
      (e : Event) (s : Editor) (rs : List TargetingRule)
      → Shows s rs
      → Shows (handle flag e s) (edit_rules flag.type e rs)
  unfolding handle edit_rules
  handle-Shows add_rule s rs h =
      let same = Represents-length s.heap s.rules rs h.shown in
      record {
        own = Distinct-alloc s.heap s.rules rs h.shown h.own;
        shown =
            rw (← same)
              (Represents-alloc s.heap s.rules rs (new_rule flag.type (length s.rules)) h.shown);
      }
  handle-Shows (remove_rule i) s rs h = record {
    own = Distinct-remove_at i s.rules h.own;
    shown = Represents-remove_at i s.heap s.rules rs h.shown;
  }
  handle-Shows (change_rule i ch) s rs h = change_rule-Shows i ch s rs h
  handle-Shows _ s rs h = record { own = h.own; shown = h.shown }

  -- A form that shows a list of rules, each by an object of its own, does so after any events with
  -- the rules that the same edits make of that plain list: no edit of one rule reaches another.
  pub run-Shows :
      (es : List Event) (s : Editor) (rs : List TargetingRule)
      → Shows s rs
      → Shows (run flag es s) (edit_all flag.type es rs)
  unfolding run edit_all
  run-Shows [] s rs h = h
  run-Shows (e ∷ es) s rs h =
      run-Shows es (handle flag e s) (edit_rules flag.type e rs) (handle-Shows e s rs h)
