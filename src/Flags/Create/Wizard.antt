-- ===== src/Flags/Create/Wizard.antt =====
-- The steps of the wizard of CreateFlagModal.tsx: 1 defines the flag, 2 its delivery, 3 reviews, and
-- 4 reports success.
pub mod Sound
pub mod Invariant
pub mod Progress
pub mod Typed
pub mod Frame
use vexil.Prelude.{
  ◌≡◌, ℕ, zero, suc, ◌+◌, ◌-◌, Bool, true, false, not, ◌&&◌, ◌||◌, Option, none, some, List, [],
  ◌∷◌, ◌++◌, is_empty, ltb, ◌==◌, length, if◌then◌else◌,
}
use vexil.Text.{Text, codes, text_eq}
use vexil.Text.Case.{CaseMapping}
use vexil.Types.{FlagType, boolean, Cluster}
use vexil.Flags.Values.{offers_value, is_listed}
use vexil.Flags.Mutation.{Mutation, idle, pending, succeeded, failed, is_pending}
use vexil.Flags.Create.{
  DeliveryMethod, env_var, config_map, Form, blank_form, fetch_namespaces, CreateRequest,
  build_request, clean_name, clean_env_var, can_proceed_step1, can_proceed_step2, default_of,
}

pub record Wizard : Type 0 where
  pub step : ℕ
  pub form : Form
  pub clusters : List Cluster
  -- The options of the field for the namespace.
  pub namespaces : List Text
  pub mutation : Mutation
  pub sent : List CreateRequest
  pub is_open : Bool

pub data Event : Type 0 where
  clusters_loaded : List Cluster → Event
  namespaces_loaded : (is_ok : Bool) → List Text → Event
  select_cluster select_namespace type_name type_value type_description : Text → Event
  select_type : FlagType → Event
  choose_method : DeliveryMethod → Event
  type_labels type_env_var type_config_map_name type_config_map_key : Text → Event
  go_next go_back create close create_succeeded : Event
  create_failed : Text → Event

-- The options until the query for the chosen cluster has an answer.
abbrev pub default_namespaces : List Text
default_namespaces = codes "default" ∷ []

abbrev pub open_wizard : Wizard
open_wizard = record {
  step = 1;
  form = blank_form;
  clusters = [];
  namespaces = default_namespaces;
  mutation = idle;
  sent = [];
  is_open = true;
}

-- The effect that runs when the clusters or the chosen cluster change: the only cluster is chosen,
-- unless one is.
unfoldable pub auto_select : List Cluster → Form → Form
auto_select (c ∷ []) form =
    if is_empty form.cluster_id then record form { cluster_id = c.id } else form
auto_select _ form = form

-- Another cluster is another query, whose answer is not there yet.
abbrev pub namespaces_for : Wizard → Form → List Text
namespaces_for w form =
    if text_eq form.cluster_id w.form.cluster_id then w.namespaces else default_namespaces

abbrev pub with_clusters : Wizard → List Cluster → Form → Wizard
with_clusters w cs form = record w {
  clusters = cs;
  form = auto_select cs form;
  namespaces = namespaces_for w (auto_select cs form);
}

abbrev pub with_form : Wizard → Form → Wizard
with_form w form = with_clusters w w.clusters form

module _ (case : CaseMapping) where
  -- The handlers, each with the effect behind it.
  unfoldable pub handle : Event → Wizard → Wizard
  unfolding auto_select fetch_namespaces
  handle (clusters_loaded cs) w = with_clusters w cs w.form
  handle (namespaces_loaded is_ok body) w = record w { namespaces = fetch_namespaces is_ok body }
  handle (select_cluster id) w = with_form w (record w.form { cluster_id = id })
  handle (select_namespace ns) w = with_form w (record w.form { namespace = ns })
  handle (type_name t) w = with_form w (record w.form { name = clean_name case t })
  handle (type_value t) w = with_form w (record w.form { default_value = t })
  handle (type_description t) w = with_form w (record w.form { description = t })
  handle (select_type type) w =
      with_form w (record w.form { type = type; default_value = default_of type })
  handle (choose_method m) w = with_form w (record w.form { delivery_method = m })
  handle (type_labels t) w = with_form w (record w.form { selector_labels = t })
  handle (type_env_var t) w = with_form w (record w.form { env_var_name = clean_env_var case t })
  handle (type_config_map_name t) w = with_form w (record w.form { config_map_name = t })
  handle (type_config_map_key t) w = with_form w (record w.form { config_map_key = t })
  handle go_next w = record w { step = w.step + 1 }
  handle go_back w =
      if ltb 1 w.step then record w { step = w.step - 1 } else record w { is_open = false }
  handle create w = record w { mutation = pending; sent = w.sent ++ build_request w.form ∷ [] }
  handle close w = record w { is_open = false }
  handle create_succeeded w = record w { mutation = succeeded; step = 4 }
  handle (create_failed message) w = record w { mutation = failed message }

-- The method that the fields of the second step go with.
abbrev is_env_var : DeliveryMethod → Bool
is_env_var env_var = true
is_env_var _ = false

abbrev is_config_map : DeliveryMethod → Bool
is_config_map config_map = true
is_config_map _ = false

-- The options of the field for the cluster, behind the empty one.
unfoldable pub has_id : List Cluster → Text → Bool
has_id [] id = false
has_id (c ∷ cs) id = text_eq c.id id || has_id cs id

-- What the page offers: the controls that the step shows and that are not disabled, and the answers
-- of the server.
unfoldable pub offers : Wizard → Event → Bool
offers w (clusters_loaded cs) = true
offers w (select_cluster id) =
    w.is_open
    && (w.step == 1 && (ltb 1 (length w.clusters) && (is_empty id || has_id w.clusters id)))
offers w (namespaces_loaded is_ok body) = not (is_empty w.form.cluster_id)
offers w (select_namespace ns) = w.is_open && (w.step == 1 && is_listed ns w.namespaces)
offers w (type_name t) = w.is_open && w.step == 1
offers w (type_value t) = w.is_open && (w.step == 1 && offers_value w.form.type t)
offers w (type_description t) = w.is_open && w.step == 1
offers w (select_type type) = w.is_open && w.step == 1
offers w (choose_method m) = w.is_open && w.step == 2
offers w (type_labels t) = w.is_open && w.step == 2
offers w (type_env_var t) = w.is_open && (w.step == 2 && is_env_var w.form.delivery_method)
offers w (type_config_map_name t) =
    w.is_open && (w.step == 2 && is_config_map w.form.delivery_method)
offers w (type_config_map_key t) =
    w.is_open && (w.step == 2 && is_config_map w.form.delivery_method)
offers w go_next =
    w.is_open
    && (ltb w.step 3
        && (if w.step == 1
            then can_proceed_step1 w.form
            else can_proceed_step2 w.form.delivery_method w.form))
offers w go_back = w.is_open && not (w.step == 4)
offers w create =
    w.is_open && (not (ltb w.step 3) && (not (w.step == 4) && not (is_pending w.mutation)))
offers w close = w.is_open
offers w create_succeeded = is_pending w.mutation
offers w (create_failed message) = is_pending w.mutation

pub data Step (case : CaseMapping) (w : Wizard) : Wizard → Type 0 where
  act : (e : Event) → offers w e ≡ true → Step case w (handle case e w)

pub data Reach (case : CaseMapping) (w : Wizard) : Wizard → Type 0 where
  here : Reach case w w
  next : {v u : Wizard} → Reach case w v → Step case v u → Reach case w u
