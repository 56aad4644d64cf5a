-- ===== src/Flags/Edit/Editor/Offers.antt =====
-- Which controls the form of EditFlagModal.tsx offers.
use vexil.Prelude.{
  ℕ, ◌≡◌, Bool, true, false, not, ◌&&◌, ◌||◌, some, List, [], ◌∷◌, length, get_elem?, maybe, ◌>>=◌,
  ltb, ◌==◌, is_empty, and-eq-true_iff, maybe-true, >>=-eq-some,
}
use vexil.Text.{Text, codes, text_eq}
use vexil.Types.{FlagType, Condition, TargetingRule, FeatureFlag}
use vexil.Flags.Values.{offers_value, is_listed}
use vexil.Flags.Mutation.{is_pending}
use vexil.Flags.Edit.{DeliveryMethod, env_var, config_map, manual, Form}
use vexil.Flags.Edit.Editor.{
  Editor, Event, change_form, add_rule, remove_rule, toggle_rule, change_rule, toggle_help, submit,
  confirm, cancel_confirm, close, update_succeeded, update_failed, RuleChange, name, value,
  change_condition, add_condition, remove_condition, ConditionChange, attribute, operator, values,
  FormChange, default_value, selector_labels, env_var_name, config_map_name, config_map_key, handle,
}

-- The values of `attributeExamples`.
abbrev pub attribute_examples : List Text
attribute_examples =
    codes "label:tier"
    ∷ (codes "label:env" ∷ (codes "label:app" ∷ (codes "namespace" ∷ (codes "workload-name" ∷ []))))

-- The options of the property: the empty one, the examples, and the one that is chosen.
unfoldable pub offers_condition : Condition → ConditionChange → Bool
offers_condition c (attribute t) =
    is_empty t || (is_listed t attribute_examples || text_eq t c.attribute)
offers_condition c (operator o) = true
offers_condition c (values t) = true

-- The buttons and fields of one rule.
unfoldable pub offers_change : FlagType → TargetingRule → RuleChange → Bool
unfolding offers_condition
offers_change type r (name t) = true
offers_change type r (value t) = offers_value type t
offers_change type r (change_condition i ch) =
    maybe (get_elem? r.conditions i) false λ c. offers_condition c ch
offers_change type r add_condition = ltb 0 (length r.conditions)
offers_change type r (remove_condition i) =
    ltb 1 (length r.conditions) && ltb i (length r.conditions)

-- The fields above the rules, of which the method of the delivery tells some.
abbrev shows_labels : DeliveryMethod → Bool
shows_labels manual = false
shows_labels _ = true

abbrev shows_env_var : DeliveryMethod → Bool
shows_env_var env_var = true
shows_env_var _ = false

abbrev shows_config_map : DeliveryMethod → Bool
shows_config_map config_map = true
shows_config_map _ = false

unfoldable pub offers_form : FlagType → Form → FormChange → Bool
offers_form type f (default_value t) = offers_value type t
offers_form type f (selector_labels t) = shows_labels f.delivery_method
offers_form type f (env_var_name t) = shows_env_var f.delivery_method
offers_form type f (config_map_name t) = shows_config_map f.delivery_method
offers_form type f (config_map_key t) = shows_config_map f.delivery_method
offers_form type f _ = true

-- The body of rule `i` is shown.
abbrev pub is_expanded : Editor → ℕ → Bool
is_expanded s i = maybe s.expanded false (λ j. j == i) && ltb i (length s.rules)

-- What the page offers in a state: the controls that it shows and that are not disabled, and the
-- answer to a pending request.
unfoldable pub offers : FlagType → Editor → Event → Bool
unfolding offers_change offers_form
offers type s (change_form ch) = s.is_open && offers_form type s.form ch
offers type s add_rule = s.is_open
offers type s (remove_rule i) = s.is_open && is_expanded s i
offers type s (toggle_rule i) = s.is_open && ltb i (length s.rules)
offers type s (change_rule i ch) =
    s.is_open
    && (is_expanded s i
        && maybe (get_elem? s.rules i >>= get_elem? s.heap) false λ r. offers_change type r ch)
offers type s toggle_help = s.is_open
offers type s close = s.is_open
offers type s submit = s.is_open && not (is_pending s.mutation)
offers type s confirm = s.is_open && s.show_save_confirm
offers type s cancel_confirm = s.is_open && s.show_save_confirm
offers type s update_succeeded = is_pending s.mutation
offers type s (update_failed message) = is_pending s.mutation

-- A change of a rule is offered where its address and its object are there.
pub change_rule_found :
    (type : FlagType) (s : Editor) (i : ℕ) (ch : RuleChange)
    → offers type s (change_rule i ch) ≡ true
    → (a : ℕ) × (r : TargetingRule) × (get_elem? s.rules i ≡ some a)
      × (get_elem? s.heap a ≡ some r)
      × (offers_change type r ch ≡ true)
unfolding offers
change_rule_found type s i ch o =
    let shown = (and-eq-true_iff s.is_open _).0 o in
    let there = (and-eq-true_iff (is_expanded s i) _).0 shown.1 in
    let (r, looked, offered) =
      maybe-true (get_elem? s.rules i >>= get_elem? s.heap) (λ r. offers_change type r ch)
        there.1 in
    let (a, at, object) = >>=-eq-some (get_elem? s.rules i) _ looked in (a, r, at, object, offered)

pub data Step (flag : FeatureFlag) (s : Editor) : Editor → Type 0 where
  act : (e : Event) → offers flag.type s e ≡ true → Step flag s (handle flag e s)

pub data Reach (flag : FeatureFlag) (s : Editor) : Editor → Type 0 where
  here : Reach flag s s
  next : {t u : Editor} → Reach flag s t → Step flag t u → Reach flag s u
