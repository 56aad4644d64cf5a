-- ===== src/Flags/Edit/Editor/Confirm.antt =====
-- The dialog of EditFlagModal.tsx, and what a click on it does.
use vexil.Prelude.{
  ℕ, ◌≡◌, refl, sym, none, some, List, [], ◌∷◌, ◌++◌, append-nil, length, ltb, if◌then◌else◌,
}
use vexil.Text.{Text, codes}
use vexil.Text.Decimal.Print.{print}
use vexil.Types.{FeatureFlag}
use vexil.Dialogs.{
  Dialog, info, Element, backdrop, panel, cross, cancel_button, confirm_button, click, bubble, run,
}
use vexil.Flags.Edit.{FlagUpdate, build_update}
use vexil.Flags.Edit.Editor.{Editor, Event, confirm, cancel_confirm, read_rules, handle}

-- The part of the message about `count` rules.
unfoldable pub rules_text : ℕ → Text
rules_text count =
    if ltb 0 count
    then codes " with "
      ++ (print count ++ (codes " targeting rule" ++ (if ltb 1 count then codes "s" else [])))
    else []

unfoldable pub save_dialog : FeatureFlag → Editor → Dialog Event
unfolding rules_text
save_dialog flag s = record {
  title = codes "Save Changes";
  message =
      codes "Apply changes to \""
      ++ (flag.name
          ++ (codes "\"? This will update the flag across all targeted workloads"
              ++ (rules_text (length s.rules) ++ codes ".")));
  confirm_label = some (codes "Save Changes");
  cancel_label = none;
  variant = some info;
  on_confirm = confirm;
  on_cancel = cancel_confirm;
}

unfoldable pub dialogs : FeatureFlag → Editor → List (Dialog Event)
unfolding save_dialog
dialogs flag s = if s.show_save_confirm then save_dialog flag s ∷ [] else []

-- The requests that a click on the dialog is to make.
abbrev answer : FeatureFlag → Editor → Element → List FlagUpdate
answer flag s confirm_button = build_update flag s.form (read_rules s.heap s.rules) ∷ []
answer flag s _ = []

-- A click on the dialog sends what it is to send: one update with the form and the rules that stand
-- in it, from the button that confirms, and nothing from anywhere else.
pub click-sends_update :
    (flag : FeatureFlag) (s : Editor) (x : Element)
    → (run (handle flag) (click (save_dialog flag s) x) s).sent ≡ s.sent ++ answer flag s x
unfolding run click bubble handle save_dialog
click-sends_update flag s confirm_button = refl
click-sends_update flag s backdrop = sym (append-nil s.sent)
click-sends_update flag s panel = sym (append-nil s.sent)
click-sends_update flag s cross = sym (append-nil s.sent)
click-sends_update flag s cancel_button = sym (append-nil s.sent)
