-- ===== src/Flags/Create/Wizard/Frame.antt =====
-- What CreateFlagModal.tsx shows around its steps: the title, the progress, the buttons below and the
-- message of a failed request.
use vexil.Prelude.{
  ℕ, ◌≡◌, Bool, true, false, not, Option, none, some, List, [], ◌∷◌, map, ltb, ◌==◌, arith,
  if◌then◌else◌,
}
use vexil.Text.{Text, codes}
use vexil.Flags.Mutation.{Mutation, failed, is_pending}
use vexil.Flags.Create.{can_proceed_step1, can_proceed_step2}
use vexil.Flags.Create.Wizard.{Wizard, go_next, go_back, create, offers}

-- The mark of one of the three steps.
pub data Mark : Type 0 where
  done current ahead : Mark

pub data Forward : Type 0 where
  next_button : (is_disabled : Bool) → Forward
  create_button : (label : Text) → (is_disabled : Bool) → Forward

-- The button Done alone, or two buttons, of which the first goes back.
pub data Controls : Type 0 where
  finish : Controls
  buttons : (back : Text) → Forward → Controls

pub record Frame : Type 0 where
  pub title : Text
  pub progress : Option (List Mark × Text)
  pub error : Option Text
  pub controls : Controls

abbrev pub mark : ℕ → ℕ → Mark
mark step s = if s == step then current else if ltb s step then done else ahead

abbrev pub step_name : ℕ → Text
step_name step =
    if step == 1 then codes "Define" else if step == 2 then codes "Deliver" else codes "Review"

abbrev pub error_text : Mutation → Option Text
error_text (failed message) = some message
error_text _ = none

unfoldable pub controls_of : Wizard → Controls
controls_of w =
    if w.step == 4
    then finish
    else buttons (if ltb 1 w.step then codes "Back" else codes "Cancel") (
        if ltb w.step 3
        then next_button (
            if w.step == 1
            then not (can_proceed_step1 w.form)
            else not (can_proceed_step2 w.form.delivery_method w.form))
        else create_button
            (if is_pending w.mutation then codes "Creating..." else codes "Create Flag")
            (is_pending w.mutation))

unfoldable pub frame : Wizard → Frame
unfolding controls_of
frame w = record {
  title = if w.step == 4 then codes "Flag Created" else codes "New Feature Flag";
  progress =
      if ltb w.step 4
      then some (map (mark w.step) (1 ∷ (2 ∷ (3 ∷ []))), step_name w.step)
      else none;
  error = error_text w.mutation;
  controls = controls_of w;
}

-- Whether there is the button, and not disabled.
abbrev pub can_go_back : Controls → Bool
can_go_back finish = false
can_go_back (buttons back forward) = true

abbrev pub can_go_next : Controls → Bool
can_go_next (buttons back (next_button is_disabled)) = not is_disabled
can_go_next _ = false

abbrev pub can_create : Controls → Bool
can_create (buttons back (create_button label is_disabled)) = not is_disabled
can_create _ = false

-- The buttons below the open wizard are those that its transitions take: in every step and form the
-- button back, the button to the next step and the button that creates the flag are there and
-- enabled exactly where the wizard offers the event of theirs.
pub frame-offers :
    (w : Wizard)
    → w.is_open ≡ true
    → (offers w go_back ≡ can_go_back (frame w).controls)
      × (offers w go_next ≡ can_go_next (frame w).controls)
      × (offers w create ≡ can_create (frame w).controls)
unfolding offers frame controls_of
frame-offers w h = (ground arith, ground arith, ground arith)
