-- ===== src/Flags/Page/Confirm.antt =====
-- The two dialogs of web/src/app/flags/page.tsx, and what a click on them does.
use vexil.Prelude.{
  suc, ◌≡◌, refl, subst, ◌≢◌, ◌⊎◌, inl, inr, Option, none, some, List, [], ◌∷◌, ◌++◌, maybe, arith,
  length, length-append, In, if◌then◌else◌,
}
use vexil.Text.{Text, codes, text_eq}
use vexil.Text.Search.{Contains}
use vexil.Types.{FeatureFlag}
use vexil.Dialogs.{
  Dialog, danger, warning, Element, panel, confirm_button, click, run, run_requests, Asks,
  click-confirm, click_quiet,
}
use vexil.Flags.Page.{
  Page, Event, confirm_delete, cancel_delete, confirm_toggle, cancel_toggle, Effect, nothing,
  delete, toggle, handle, effect,
}

-- The value that the dialog says a flag is set to.
abbrev pub next_value : FeatureFlag → Text
next_value f = if text_eq f.default_value (codes "true") then codes "false" else codes "true"

abbrev pub delete_warning : Text
delete_warning =
    codes "\"? This will remove the flag from the cluster and may affect running workloads."

unfoldable pub delete_dialog : FeatureFlag → Dialog Event
delete_dialog f = record {
  title = codes "Delete Feature Flag";
  message = codes "Are you sure you want to delete \"" ++ (f.name ++ delete_warning);
  confirm_label = some (codes "Delete Flag");
  cancel_label = none;
  variant = some danger;
  on_confirm = confirm_delete;
  on_cancel = cancel_delete;
}

-- The message behind the name of the flag.
abbrev pub change_text : FeatureFlag → Text
change_text f =
    codes "\" from "
    ++ (f.default_value
        ++ (codes " to "
            ++ (next_value f ++ codes "? This change will be applied to all targeted workloads.")))

unfoldable pub toggle_dialog : FeatureFlag → Dialog Event
toggle_dialog f = record {
  title = codes "Toggle Feature Flag";
  message = codes "Toggle \"" ++ (f.name ++ change_text f);
  confirm_label = some (codes "Set to " ++ next_value f);
  cancel_label = none;
  variant = some warning;
  on_confirm = confirm_toggle;
  on_cancel = cancel_toggle;
}

-- The dialogs on the screen.
unfoldable pub dialogs : Page → List (Dialog Event)
unfolding delete_dialog toggle_dialog
dialogs p =
    maybe p.deleting_flag [] (λ f. delete_dialog f ∷ [])
    ++ maybe p.toggling_flag [] (λ f. toggle_dialog f ∷ [])

-- The requests that an event makes, as a list.
abbrev pub as_list : Effect → List Effect
as_list nothing = []
as_list r = r ∷ []

abbrev pub requests : Event → Page → List Effect
requests e p = as_list (effect e p)

-- The request concerns the flag, and is the one that the title speaks of.
pub data Concerns (f : FeatureFlag) : Text → Effect → Type 0 where
  deleting : Concerns f (codes "Delete Feature Flag") (delete f.namespace f.name f.cluster_id)
  toggling : Concerns f (codes "Toggle Feature Flag") (toggle f.namespace f.name f.cluster_id)

-- What comes of a click on the element.
pub record IsAnswered (p : Page) (d : Dialog Event) (x : Element) : Type 0 where
  pub quiet : x ≢ confirm_button → run_requests handle requests (click d x) p ≡ []
  pub asked :
      x ≡ confirm_button
      → (f : FeatureFlag) × (r : Effect) × Concerns f d.title r
        × Contains d.message f.name
        × (run_requests handle requests (click d x) p ≡ r ∷ [])
  pub closes : x ≢ panel → length (dialogs p) ≡ suc (length (dialogs (run handle (click d x) p)))
  pub stays : x ≡ panel → run handle (click d x) p ≡ p

delete-Asks :
    (p : Page) (f : FeatureFlag)
    → p.deleting_flag ≡ some f
    → Asks handle requests (delete_dialog f) p (delete f.namespace f.name f.cluster_id)
unfolding effect delete_dialog
delete-Asks p f e = record { confirms = rw e refl; cancels = refl }

toggle-Asks :
    (p : Page) (f : FeatureFlag)
    → p.toggling_flag ≡ some f
    → Asks handle requests (toggle_dialog f) p (toggle f.namespace f.name f.cluster_id)
unfolding effect toggle_dialog
toggle-Asks p f e = record { confirms = rw e refl; cancels = refl }

-- A click outside the panel closes the dialog that it is for.
delete_closes :
    (p : Page) (f : FeatureFlag) (x : Element)
    → p.deleting_flag ≡ some f
    → x ≢ panel
    → length (dialogs p) ≡ suc (length (dialogs (run handle (click (delete_dialog f) x) p)))
unfolding dialogs run click handle delete_dialog
delete_closes p f panel e h = absurd (h refl)
delete_closes p f x e h = rw e refl

length_last : {A : Type 0} (xs : List A) (y : A) → length (xs ++ y ∷ []) ≡ suc (length (xs ++ []))
length_last xs y = omega (arith, length-append xs (y ∷ []), length-append xs [])

toggle_closes :
    (p : Page) (f : FeatureFlag) (x : Element)
    → p.toggling_flag ≡ some f
    → x ≢ panel
    → length (dialogs p) ≡ suc (length (dialogs (run handle (click (toggle_dialog f) x) p)))
unfolding dialogs run click handle toggle_dialog
toggle_closes p f panel e h = absurd (h refl)
toggle_closes p f x e h =
    rw e (length_last (maybe p.deleting_flag [] λ g. delete_dialog g ∷ []) (toggle_dialog f))

module _ (p : Page) (f : FeatureFlag) (x : Element) where
  delete-IsAnswered : p.deleting_flag ≡ some f → IsAnswered p (delete_dialog f) x
  unfolding delete_dialog run click
  delete-IsAnswered e =
      let asks = delete-Asks p f e in
      record {
        quiet = click_quiet handle requests (delete_dialog f) p _ asks x;
        asked = λ same. (
          f,
          delete f.namespace f.name f.cluster_id,
          deleting,
          (codes "Are you sure you want to delete \"", delete_warning, refl),
          rw same (click-confirm handle requests (delete_dialog f) p _ asks),
        );
        closes = delete_closes p f x e;
        stays = λ same. rw same refl;
      }

  toggle-IsAnswered : p.toggling_flag ≡ some f → IsAnswered p (toggle_dialog f) x
  unfolding toggle_dialog run click
  toggle-IsAnswered e =
      let asks = toggle-Asks p f e in
      record {
        quiet = click_quiet handle requests (toggle_dialog f) p _ asks x;
        asked = λ same. (
          f,
          toggle f.namespace f.name f.cluster_id,
          toggling,
          (codes "Toggle \"", change_text f, refl),
          rw same (click-confirm handle requests (toggle_dialog f) p _ asks),
        );
        closes = toggle_closes p f x e;
        stays = λ same. rw same refl;
      }

In-dialogs :
    (p : Page) (d : Dialog Event) (o q : Option FeatureFlag)
    → In d (maybe o [] (λ f. delete_dialog f ∷ []) ++ maybe q [] (λ f. toggle_dialog f ∷ []))
    → ((f : FeatureFlag) × (o ≡ some f) × (delete_dialog f ≡ d))
      ⊎ ((f : FeatureFlag) × (q ≡ some f) × (toggle_dialog f ≡ d))
In-dialogs p d none none m = absurd m
In-dialogs p d none (some g) (inl e) = inr (g, refl, e)
In-dialogs p d none (some g) (inr m) = absurd m
In-dialogs p d (some f) q (inl e) = inl (f, refl, e)
In-dialogs p d (some f) none (inr m) = absurd m
In-dialogs p d (some f) (some g) (inr (inl e)) = inr (g, refl, e)
In-dialogs p d (some f) (some g) (inr (inr m)) = absurd m

-- A click on a dialog of the page makes a request only where it is on the button that confirms: one
-- request, of the kind that the title says and of a flag whose name the message holds. A click on
-- the panel beside the buttons changes nothing, and any other closes one dialog.
pub click-IsAnswered :
    (p : Page) (d : Dialog Event) (x : Element) → In d (dialogs p) → IsAnswered p d x
unfolding dialogs
click-IsAnswered p d x m = elim (In-dialogs p d p.deleting_flag p.toggling_flag m) [
  | inl (f, e, same) ↦ subst (λ d. IsAnswered p d x) same (delete-IsAnswered p f x e)
  | inr (f, e, same) ↦ subst (λ d. IsAnswered p d x) same (toggle-IsAnswered p f x e)
]
