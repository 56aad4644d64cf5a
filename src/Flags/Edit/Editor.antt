-- ===== src/Flags/Edit/Editor.antt =====
-- The state of EditFlagModal.tsx and its handlers. `heap` holds the rule objects; `rules` are the
-- addresses that the form lists, and at first they are those of the flag on the page.
pub mod Shared
pub mod Refines
pub mod Sharing
pub mod Offers
pub mod Steps
pub mod Typed
pub mod Confirm
pub mod Summary
use vexil.Prelude.{
  ℕ, zero, suc, ◌+◌, Bool, true, false, not, ◌&&◌, ◌||◌, Option, none, some, List, [], ◌∷◌, ◌++◌,
  maybe, catch, traverse, length, get_elem?, modify, remove_at, is_empty, ltb, ◌==◌, is_some,
  if◌then◌else◌,
}
use vexil.Text.{Text, codes}
use vexil.Text.Decimal.Print.{print}
use vexil.Text.Parts.{split}
use vexil.Types.{
  FlagType, boolean, string, integer, json, Operator, eq, Condition, TargetingRule, FeatureFlag,
}
use vexil.Flags.Mutation.{Mutation, idle, pending, succeeded, failed, is_pending}
use vexil.Flags.Edit.{DeliveryMethod, Form, FlagUpdate, initial_form, build_update}

pub record Editor : Type 0 where
  pub heap : List TargetingRule
  pub rules : List ℕ
  pub expanded : Option ℕ
  pub form : Form
  pub show_rules_help : Bool
  pub show_save_confirm : Bool
  pub mutation : Mutation
  pub sent : List FlagUpdate
  pub is_open : Bool

pub data FormChange : Type 0 where
  description default_value selector_labels env_var_name : Text → FormChange
  config_map_name config_map_key : Text → FormChange
  disabled : Bool → FormChange
  delivery_method : DeliveryMethod → FormChange

-- A change of one condition; the values are what the text field holds.
pub data ConditionChange : Type 0 where
  attribute : Text → ConditionChange
  operator : Operator → ConditionChange
  values : Text → ConditionChange

pub data RuleChange : Type 0 where
  name value : Text → RuleChange
  change_condition : ℕ → ConditionChange → RuleChange
  add_condition : RuleChange
  remove_condition : ℕ → RuleChange

pub data Event : Type 0 where
  change_form : FormChange → Event
  add_rule : Event
  remove_rule : ℕ → Event
  toggle_rule : ℕ → Event
  change_rule : ℕ → RuleChange → Event
  toggle_help submit confirm cancel_confirm close : Event
  update_succeeded : Event
  update_failed : Text → Event

unfoldable pub set_form : FormChange → Form → Form
set_form (description t) f = record f { description = t }
set_form (default_value t) f = record f { default_value = t }
set_form (selector_labels t) f = record f { selector_labels = t }
set_form (env_var_name t) f = record f { env_var_name = t }
set_form (config_map_name t) f = record f { config_map_name = t }
set_form (config_map_key t) f = record f { config_map_key = t }
set_form (disabled b) f = record f { disabled = b }
set_form (delivery_method m) f = record f { delivery_method = m }

unfoldable pub set_condition : ConditionChange → Condition → Condition
set_condition (attribute t) c = record c { attribute = t }
set_condition (operator o) c = record c { operator = o }
set_condition (values t) c = record c { values = split b',' t }

abbrev pub blank_condition : Text → Condition
blank_condition t = record { attribute = t; operator = eq; values = [] ∷ [] }

-- The write into one rule object that a handler makes.
unfoldable pub set_rule : RuleChange → TargetingRule → TargetingRule
unfolding set_condition
set_rule (name t) r = record r { name = t }
set_rule (value t) r = record r { value = t }
set_rule (change_condition i ch) r = record r {
  conditions = modify (set_condition ch) i r.conditions;
}
set_rule add_condition r = record r { conditions = r.conditions ++ blank_condition [] ∷ [] }
set_rule (remove_condition i) r = record r { conditions = remove_at i r.conditions }

abbrev pub initial_value : FlagType → Text
initial_value boolean = codes "true"
initial_value _ = []

-- The rule that `addRule` makes, behind `count` others.
unfoldable pub new_rule : FlagType → ℕ → TargetingRule
new_rule type count = record {
  name = codes "Rule " ++ print (count + 1);
  conditions = blank_condition (codes "label:tier") ∷ [];
  value = initial_value type;
  percentage = none;
}

-- The rules that the addresses stand for.
unfoldable pub read_rules : List TargetingRule → List ℕ → List TargetingRule
read_rules heap rules = catch (traverse (get_elem? heap) rules) []

module _ (flag : FeatureFlag) where
  -- The state when the form opens: the flag's rule objects are `heap`, in this order.
  unfoldable pub open_editor : List TargetingRule → List ℕ → Editor
  open_editor heap rules = record {
    heap = heap;
    rules = rules;
    expanded = if ltb 0 (length rules) then some 0 else none;
    form = initial_form flag;
    show_rules_help = false;
    show_save_confirm = false;
    mutation = idle;
    sent = [];
    is_open = true;
  }

  -- The handlers. A rule that is not there is an exception, which leaves the state as it is.
  unfoldable pub handle : Event → Editor → Editor
  unfolding set_form new_rule read_rules
  handle (change_form ch) s = record s { form = set_form ch s.form }
  handle add_rule s = record s {
    heap = s.heap ++ new_rule flag.type (length s.rules) ∷ [];
    rules = s.rules ++ length s.heap ∷ [];
    expanded = some (length s.rules);
  }
  handle (remove_rule i) s = record s { rules = remove_at i s.rules; expanded = none }
  handle (toggle_rule i) s = record s {
    expanded = maybe s.expanded (some i) λ j. if j == i then none else some i;
  }
  handle (change_rule i ch) s =
      maybe (get_elem? s.rules i) s λ a. record s { heap = modify (set_rule ch) a s.heap }
  handle toggle_help s = record s { show_rules_help = not s.show_rules_help }
  handle submit s = record s { show_save_confirm = true }
  handle confirm s = record s {
    show_save_confirm = false;
    mutation = pending;
    sent = s.sent ++ build_update flag s.form (read_rules s.heap s.rules) ∷ [];
  }
  handle cancel_confirm s = record s { show_save_confirm = false }
  handle close s = record s { is_open = false }
  handle update_succeeded s = record s { mutation = succeeded; is_open = false }
  handle (update_failed message) s = record s { mutation = failed message }

  unfoldable pub run : List Event → Editor → Editor
  run [] s = s
  run (e ∷ es) s = run es (handle e s)
