-- ===== src/Clusters.antt =====
-- web/src/app/clusters/page.tsx: the list of the clusters, the form that registers one and the
-- dialog that removes one.
pub mod Safety
pub mod Cards
pub mod Confirm
use vexil.Prelude.{
  Bool, true, false, not, ◌&&◌, Option, none, some, List, [], ◌∷◌, ◌++◌, maybe, is_some, is_empty,
  if◌then◌else◌,
}
use vexil.Text.{Text, codes, text_eq}
use vexil.Flags.Mutation.{Mutation, idle, pending, succeeded, failed, is_pending}
use vexil.Flags.Page.{Viewer, is_admin}

pub record Form : Type 0 where
  pub id : Text
  pub display_name : Text
  pub api_server : Text
  pub kubeconfig : Text

pub record Removal : Type 0 where
  pub id : Text
  pub name : Text

pub data Request : Type 0 where
  register : Form → Request
  remove : (id : Text) → Request

pub record Page : Type 0 where
  pub show_register : Bool
  pub removing_cluster : Option Removal
  pub form : Form
  pub register_mutation : Mutation
  pub remove_mutation : Mutation
  pub sent : List Request

abbrev pub blank_form : Form
blank_form = record { id = []; display_name = []; api_server = []; kubeconfig = [] }

abbrev pub open_page : Page
open_page = record {
  show_register = false;
  removing_cluster = none;
  form = blank_form;
  register_mutation = idle;
  remove_mutation = idle;
  sent = [];
}

pub data Event : Type 0 where
  toggle_register close_register submit_register : Event
  type_id type_display_name type_api_server type_kubeconfig : Text → Event
  ask_remove : Removal → Event
  confirm_remove cancel_remove register_succeeded remove_succeeded : Event
  register_failed remove_failed : Text → Event

unfoldable pub handle : Event → Page → Page
handle toggle_register p = record p { show_register = not p.show_register }
handle close_register p = record p { show_register = false }
handle submit_register p = record p {
  register_mutation = pending;
  sent = p.sent ++ register p.form ∷ [];
}
handle (type_id t) p = record p { form = record p.form { id = t } }
handle (type_display_name t) p = record p { form = record p.form { display_name = t } }
handle (type_api_server t) p = record p { form = record p.form { api_server = t } }
handle (type_kubeconfig t) p = record p { form = record p.form { kubeconfig = t } }
handle (ask_remove r) p = record p { removing_cluster = some r }
handle confirm_remove p = maybe p.removing_cluster p λ r. record p {
  removing_cluster = none;
  remove_mutation = pending;
  sent = p.sent ++ remove r.id ∷ [];
}
handle cancel_remove p = record p { removing_cluster = none }
handle register_succeeded p = record p {
  register_mutation = succeeded;
  show_register = false;
  form = blank_form;
}
handle remove_succeeded p = record p { remove_mutation = succeeded }
handle (register_failed message) p = record p { register_mutation = failed message }
handle (remove_failed message) p = record p { remove_mutation = failed message }

-- The controls that the page shows and that are not disabled, with the required fields of the form,
-- and the answers. Removals may overlap, so that their answers come at any time.
unfoldable pub offers : Viewer → Page → Event → Bool
offers v p toggle_register = is_admin v
offers v p close_register = p.show_register
offers v p submit_register =
    p.show_register
    && (not (is_pending p.register_mutation)
        && (not (is_empty p.form.id) && not (is_empty p.form.display_name)))
offers v p (type_id t) = p.show_register
offers v p (type_display_name t) = p.show_register
offers v p (type_api_server t) = p.show_register
offers v p (type_kubeconfig t) = p.show_register
offers v p (ask_remove r) = is_admin v
offers v p confirm_remove = is_some p.removing_cluster
offers v p cancel_remove = is_some p.removing_cluster
offers v p register_succeeded = is_pending p.register_mutation
offers v p (register_failed message) = is_pending p.register_mutation
offers v p _ = true
