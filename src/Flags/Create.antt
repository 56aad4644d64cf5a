-- ===== src/Flags/Create.antt =====
-- web/src/components/flags/CreateFlagModal.tsx: the wizard that creates a flag.
pub mod Names
pub mod Delivery
pub mod Wizard
pub mod Review
pub mod Announced
use vexil.Prelude.{
  ℕ, zero, suc, ◌+◌, ◌-◌, ◌≡◌, refl, Bool, true, false, not, ◌&&◌, ◌||◌, Option, none, some, List,
  [], ◌∷◌, ◌++◌, is_empty, ltb, ◌==◌, length, if◌then◌else◌,
}
use vexil.Text.{Text, codes, or_else, or_undefined}
use vexil.Text.Case.{CaseMapping, is_upper, is_lower, is_digit, replace_outside}
use vexil.Types.{FlagType, boolean, string, integer, json, LabelSelector, DeliverySpec, Cluster}
use vexil.Flags.Labels.{read_labels}
use vexil.Flags.Mutation.{Mutation, idle, pending, succeeded, failed, is_pending}

pub data DeliveryMethod : Type 0 where
  env_var config_map sidecar : DeliveryMethod

pub record Form : Type 0 where
  pub name : Text
  pub namespace : Text
  pub cluster_id : Text
  pub type : FlagType
  pub default_value : Text
  pub description : Text
  pub delivery_method : DeliveryMethod
  pub env_var_name : Text
  pub selector_labels : Text
  pub config_map_name : Text
  pub config_map_key : Text

abbrev pub blank_form : Form
blank_form = record {
  name = [];
  namespace = codes "default";
  cluster_id = [];
  type = boolean;
  default_value = codes "false";
  description = [];
  delivery_method = env_var;
  env_var_name = [];
  selector_labels = [];
  config_map_name = [];
  config_map_key = [];
}

-- `fetchNamespaces`: the answer's `ok`, and its body.
unfoldable pub fetch_namespaces : Bool → List Text → List Text
fetch_namespaces is_ok body =
    if not is_ok
    then codes "default" ∷ []
    else if ltb 0 (length body)
    then body
    else codes "default" ∷ []

-- The classes of the three patterns, `[^a-z0-9-]`, `[^A-Z0-9_]` and `[^A-Z0-9]`.
abbrev pub in_name : ℕ → Bool
in_name c = is_lower c || is_digit c || c == b'-'

abbrev pub in_env_var : ℕ → Bool
in_env_var c = is_upper c || is_digit c || c == b'_'

abbrev pub in_computed : ℕ → Bool
in_computed c = is_upper c || is_digit c

module _ (case : CaseMapping) where
  -- The value of the name field, and of the override of the variable's name.
  unfoldable pub clean_name : Text → Text
  unfolding replace_outside
  clean_name t = replace_outside in_name b'-' (case.to_lower t)

  unfoldable pub clean_env_var : Text → Text
  unfolding replace_outside
  clean_env_var t = replace_outside in_env_var b'_' (case.to_upper t)

  unfoldable pub computed_env_var : Form → Text
  unfolding replace_outside
  computed_env_var form =
      or_else form.env_var_name
        (codes "FLAG_" ++ replace_outside in_computed b'_' (case.to_upper form.name))

abbrev selected : Text → LabelSelector (Option Text)
selected labels = record { match_labels = some (read_labels labels) }

-- What `mutationFn` puts into `delivery`; `none` stands for the empty object, which is sent as
-- undefined.
unfoldable pub build_delivery : DeliveryMethod → Form → Option (DeliverySpec (Option Text))
build_delivery env_var form =
    if is_empty form.selector_labels
    then none
    else some (record {
      env_var = some (record {
        name = or_undefined form.env_var_name;
        selector = selected form.selector_labels;
      });
      config_map = none;
      sidecar = none;
    })
build_delivery config_map form =
    if is_empty form.config_map_name
    then none
    else some (record {
      env_var = none;
      config_map = some (record {
        config_map_name = form.config_map_name;
        key = or_else form.config_map_key form.name;
        selector =
            if is_empty form.selector_labels
            then record { match_labels = some [] }
            else selected form.selector_labels;
      });
      sidecar = none;
    })
build_delivery sidecar form =
    if is_empty form.selector_labels
    then none
    else some (record {
      env_var = none;
      config_map = none;
      sidecar = some (record { port = none; selector = selected form.selector_labels });
    })

-- The body of the POST request.
pub record CreateRequest : Type 0 where
  pub name : Text
  pub namespace : Text
  pub cluster_id : Text
  pub type : FlagType
  pub default_value : Text
  pub description : Option Text
  pub delivery : Option (DeliverySpec (Option Text))

unfoldable pub build_request : Form → CreateRequest
unfolding build_delivery
build_request form = record {
  name = form.name;
  namespace = form.namespace;
  cluster_id = form.cluster_id;
  type = form.type;
  default_value = form.default_value;
  description = or_undefined form.description;
  delivery = build_delivery form.delivery_method form;
}

unfoldable pub can_proceed_step1 : Form → Bool
can_proceed_step1 form =
    not (is_empty form.name) && (not (is_empty form.namespace) && not (is_empty form.cluster_id))

unfoldable pub can_proceed_step2 : DeliveryMethod → Form → Bool
can_proceed_step2 sidecar form = not (is_empty form.selector_labels)
can_proceed_step2 env_var form = not (is_empty form.selector_labels)
can_proceed_step2 config_map form =
    not (is_empty form.config_map_name) && not (is_empty form.selector_labels)

-- The initial value that goes with a type.
abbrev pub default_of : FlagType → Text
default_of boolean = codes "false"
default_of string = []
default_of integer = codes "0"
default_of json = codes "{}"
