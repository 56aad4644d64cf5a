-- ===== src/Clusters/Confirm.antt =====
-- The dialog of web/src/app/clusters/page.tsx, and what a click on it does.
use vexil.Prelude.{◌≡◌, refl, none, some, List, [], ◌∷◌, ◌++◌, append-nil, sym, maybe}
use vexil.Text.{codes}
use vexil.Dialogs.{
  Dialog, danger, Element, backdrop, panel, cross, cancel_button, confirm_button, click, bubble,
  run,
}
use vexil.Clusters.{Removal, Request, remove, Page, Event, confirm_remove, cancel_remove, handle}

unfoldable pub remove_dialog : Removal → Dialog Event
remove_dialog r = record {
  title = codes "Remove Cluster";
  message =
      codes "Are you sure you want to disconnect \""
      ++ (r.name ++ codes "\"? Feature flags targeting this cluster will no longer be managed.");
  confirm_label = some (codes "Remove Cluster");
  cancel_label = none;
  variant = some danger;
  on_confirm = confirm_remove;
  on_cancel = cancel_remove;
}

unfoldable pub dialogs : Page → List (Dialog Event)
unfolding remove_dialog
dialogs p = maybe p.removing_cluster [] λ r. remove_dialog r ∷ []

-- The requests that a click on the dialog is to make.
abbrev answer : Removal → Element → List Request
answer r confirm_button = remove r.id ∷ []
answer r _ = []

-- A click on the dialog sends what it is to send: one removal, of the cluster that it names, from the
-- button that confirms, and nothing from anywhere else.
pub click-sends :
    (p : Page) (r : Removal) (x : Element)
    → p.removing_cluster ≡ some r
    → (run handle (click (remove_dialog r) x) p).sent ≡ p.sent ++ answer r x
unfolding run click bubble handle remove_dialog
click-sends p r confirm_button e = rw e refl
click-sends p r backdrop e = sym (append-nil p.sent)
click-sends p r panel e = sym (append-nil p.sent)
click-sends p r cross e = sym (append-nil p.sent)
click-sends p r cancel_button e = sym (append-nil p.sent)
