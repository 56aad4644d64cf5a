-- ===== src/Flags/Edit.antt =====
-- web/src/components/flags/EditFlagModal.tsx: the form that edits a flag. The rules that the form
-- shows are the rule objects of the flag on the page: a rule is an address in a heap of rules, and
-- an object's conditions are reached through it alone.
pub mod Saving
pub mod Editor
use vexil.Prelude.{
  ℕ, zero, suc, ◌+◌, ◌≡◌, refl, Bool, true, false, not, ◌&&◌, Option, none, some, List, [], ◌∷◌,
  ◌++◌, map, maybe, ◌>>=◌, traverse, length, get_elem?, is_empty, ltb, ◌==◌, if◌then◌else◌,
}
use vexil.Text.{Text, codes, or_text, or_else, or_undefined}
use vexil.Text.Parts.{split}
use vexil.Types.{
  FlagType, boolean, string, integer, json, Operator, eq, LabelSelector, EnvVarDelivery,
  ConfigMapDelivery, SidecarDelivery, DeliverySpec, Condition, TargetingRule, FeatureFlag,
}
use vexil.Flags.Labels.{read_labels, print_labels}

pub data DeliveryMethod : Type 0 where
  env_var config_map sidecar manual : DeliveryMethod

pub record Form : Type 0 where
  pub description : Text
  pub default_value : Text
  pub disabled : Bool
  pub delivery_method : DeliveryMethod
  pub env_var_name : Text
  pub selector_labels : Text
  pub config_map_name : Text
  pub config_map_key : Text

-- `flag.delivery?.envVar` and its two siblings.
abbrev pub env_var_of : Option (DeliverySpec Text) → Option (EnvVarDelivery Text)
env_var_of d = d >>= λ spec. spec.env_var

abbrev pub config_map_of : Option (DeliverySpec Text) → Option (ConfigMapDelivery Text)
config_map_of d = d >>= λ spec. spec.config_map

abbrev pub sidecar_of : Option (DeliverySpec Text) → Option (SidecarDelivery Text)
sidecar_of d = d >>= λ spec. spec.sidecar

unfoldable pub initial_method : Option (DeliverySpec Text) → DeliveryMethod
initial_method d =
    maybe (env_var_of d)
      (maybe (config_map_of d) (maybe (sidecar_of d) manual (λ s. sidecar)) (λ c. config_map))
      (λ e. env_var)

unfoldable pub initial_labels : Option (DeliverySpec Text) → Text
initial_labels d =
    maybe (env_var_of d >>= λ e. e.selector.match_labels)
      (maybe (config_map_of d >>= λ c. c.selector.match_labels) [] print_labels) print_labels

unfoldable pub initial_form : FeatureFlag → Form
unfolding initial_method initial_labels
initial_form flag = record {
  description = or_text flag.description [];
  default_value = flag.default_value;
  disabled = flag.disabled;
  delivery_method = initial_method flag.delivery;
  env_var_name = or_text (env_var_of flag.delivery >>= λ e. e.name) [];
  selector_labels = initial_labels flag.delivery;
  config_map_name = or_text (config_map_of flag.delivery >>= λ c. some c.config_map_name) [];
  config_map_key = or_text (config_map_of flag.delivery >>= λ c. some c.key) [];
}

abbrev pub selected : Text → LabelSelector (Option Text)
selected labels = record { match_labels = some (read_labels labels) }

-- What `mutationFn` puts into `delivery`; `none` stands for the empty object, which is sent as
-- undefined. The arguments are the chosen method, the form and the flag's name.
unfoldable pub build_delivery : DeliveryMethod → Form → Text → Option (DeliverySpec (Option Text))
build_delivery env_var form name =
    if is_empty form.selector_labels
    then none
    else some (record {
      env_var = some (record {
        name = or_undefined form.env_var_name;
        selector = selected form.selector_labels;
      });
      config_map = none;
      sidecar = none;
    })
build_delivery config_map form name =
    if is_empty form.config_map_name
    then none
    else some (record {
      env_var = none;
      config_map = some (record {
        config_map_name = form.config_map_name;
        key = or_else form.config_map_key name;
        selector =
            if is_empty form.selector_labels
            then record { match_labels = some [] }
            else selected form.selector_labels;
      });
      sidecar = none;
    })
build_delivery sidecar form name =
    if is_empty form.selector_labels
    then none
    else some (record {
      env_var = none;
      config_map = none;
      sidecar = some (record { port = none; selector = selected form.selector_labels });
    })
build_delivery manual form name = none

-- The body of the PUT request; a field that is `none` is undefined and so is left out of it.
pub record FlagUpdate : Type 0 where
  pub description : Option Text
  pub default_value : Text
  pub disabled : Bool
  pub delivery : Option (DeliverySpec (Option Text))
  pub rules : Option (List TargetingRule)

unfoldable pub build_update : FeatureFlag → Form → List TargetingRule → FlagUpdate
unfolding build_delivery
build_update flag form rules = record {
  description = or_undefined form.description;
  default_value = form.default_value;
  disabled = form.disabled;
  delivery = build_delivery form.delivery_method form flag.name;
  rules = if is_empty rules then none else some rules;
}
