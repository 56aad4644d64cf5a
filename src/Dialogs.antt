-- ===== src/Dialogs.antt =====
-- web/src/components/ui/ConfirmModal.tsx: the dialog that asks before a change is made.
use vexil.Prelude.{
  ◌≡◌, ◌≢◌, refl, ◌⊎◌, inl, inr, Bool, true, false, Option, List, [], ◌∷◌, ◌++◌, catch,
  if◌then◌else◌,
}
use vexil.Text.{Text, codes}

pub data Variant : Type 0 where
  danger warning info : Variant

-- The props; a callback is the event of the page that it stands for.
pub record Dialog (E : Type 0) : Type 0 where
  pub title : Text
  pub message : Text
  pub confirm_label : Option Text
  pub cancel_label : Option Text
  pub variant : Option Variant
  pub on_confirm : E
  pub on_cancel : E

pub record Style : Type 0 where
  pub icon : Text
  pub button : Text

abbrev pub colors : Variant → Style
colors danger = record {
  icon = codes "bg-red-500/10 text-red-400";
  button = codes "bg-red-600 hover:bg-red-500 shadow-red-600/20";
}
colors warning = record {
  icon = codes "bg-amber-500/10 text-amber-400";
  button = codes "bg-amber-600 hover:bg-amber-500 shadow-amber-600/20";
}
colors info = record {
  icon = codes "bg-indigo-500/10 text-indigo-400";
  button = codes "bg-indigo-600 hover:bg-indigo-500 shadow-indigo-600/20";
}

-- What is shown, with the defaults of the props.
pub record View : Type 0 where
  pub title : Text
  pub message : Text
  pub confirm_label : Text
  pub cancel_label : Text
  pub style : Style

-- The elements with a handler for clicks: the area around the panel, the panel, and its buttons.
pub data Element : Type 0 where
  backdrop panel cross cancel_button confirm_button : Element

-- The element and what it stands in.
abbrev pub ancestry : Element → List Element
ancestry backdrop = backdrop ∷ []
ancestry panel = panel ∷ (backdrop ∷ [])
ancestry x = x ∷ (panel ∷ (backdrop ∷ []))

-- `e.stopPropagation()`.
abbrev pub stops : Element → Bool
stops panel = true
stops _ = false

module _ {E : Type 0} where
  unfoldable pub view : Dialog E → View
  view d = record {
    title = d.title;
    message = d.message;
    confirm_label = catch d.confirm_label (codes "Confirm");
    cancel_label = catch d.cancel_label (codes "Cancel");
    style = colors (catch d.variant danger);
  }

  -- The `onClick` of each element.
  abbrev pub on_click : Dialog E → Element → List E
  on_click d backdrop = d.on_cancel ∷ []
  on_click d panel = []
  on_click d cross = d.on_cancel ∷ []
  on_click d cancel_button = d.on_cancel ∷ []
  on_click d confirm_button = d.on_confirm ∷ []

  -- A click goes from the element outwards until a handler stops it.
  unfoldable pub bubble : Dialog E → List Element → List E
  bubble d [] = []
  bubble d (x ∷ xs) = let rest = bubble d xs in on_click d x ++ (if stops x then [] else rest)

  unfoldable pub click : Dialog E → Element → List E
  unfolding bubble
  click d x = bubble d (ancestry x)

  click-cancel :
      (d : Dialog E) (x : Element)
      → x ≢ confirm_button
      → (click d x ≡ []) ⊎ (click d x ≡ d.on_cancel ∷ [])
  unfolding click
  click-cancel d backdrop h = inr refl
  click-cancel d panel h = inl refl
  click-cancel d cross h = inr refl
  click-cancel d cancel_button h = inr refl
  click-cancel d confirm_button h = absurd (h refl)

-- The callbacks that a click calls, one after another.
unfoldable pub run : {E S : Type 0} → (E → S → S) → List E → S → S
run handle [] s = s
run handle (e ∷ es) s = run handle es (handle e s)

-- A page that shows dialogs: what an event does to its state, and the requests that it makes.
module _ {E S R : Type 0} (handle : E → S → S) (requests : E → S → List R) where
  unfoldable pub run_requests : List E → S → List R
  run_requests [] s = []
  run_requests (e ∷ es) s = requests e s ++ run_requests es (handle e s)

  -- The dialog asks for one request: the one callback makes it, the other none.
  pub record Asks (d : Dialog E) (s : S) (r : R) : Type 0 where
    pub confirms : requests d.on_confirm s ≡ r ∷ []
    pub cancels : requests d.on_cancel s ≡ []

  module _ (d : Dialog E) (s : S) (r : R) (h : Asks d s r) where
    pub click-confirm : run_requests (click d confirm_button) s ≡ r ∷ []
    unfolding run_requests click
    click-confirm = rw (h.confirms) refl

    pub click_quiet : (x : Element) → x ≢ confirm_button → run_requests (click d x) s ≡ []
    unfolding run_requests
    click_quiet x k = elim (click-cancel d x k) [
      | inl none_called ↦ rw none_called refl
      | inr cancelled ↦ rw cancelled (rw (h.cancels) refl)
    ]
