-- ===== src/Flags/Edit/Editor/Typed.antt =====
-- The values and the attributes in the rules that EditFlagModal.tsx edits and sends.
use vexil.Prelude.{
  ℕ, ◌≡◌, refl, sym, inl, inr, Bool, true, ◌||◌, List, [], ◌∷◌, arith, length, get_elem?, maybe,
  maybe-true, and-eq-true_iff, All, All-append, All-get_elem, All-modify, All-remove_at,
  traverse-All, is_empty, Bool-cases,
}
use vexil.Text.{Text, text_eq, text_eq_iff}
use vexil.Types.{FlagType, boolean, string, integer, json, Condition, TargetingRule, FeatureFlag}
use vexil.Flags.Values.{offers_value, HasType, is_listed}
use vexil.Flags.Edit.{FlagUpdate, Form, build_update}
use vexil.Flags.Edit.Editor.{
  Editor, Event, change_form, add_rule, change_rule, confirm, RuleChange, name, value,
  change_condition, add_condition, remove_condition, ConditionChange, attribute, operator, values,
  FormChange, description, default_value, selector_labels, env_var_name, config_map_name,
  config_map_key, disabled, delivery_method, set_form, set_condition, set_rule, initial_value,
  new_rule, read_rules, handle,
}
use vexil.Flags.Edit.Editor.Offers.{
  attribute_examples, offers_condition, offers_change, offers_form, offers, change_rule_found, act,
  Reach, here, next,
}

-- The attribute is empty, an example, or one of `customs`.
abbrev pub knows : List Text → Text → Bool
knows customs t = is_empty t || (is_listed t attribute_examples || is_listed t customs)

abbrev pub IsKnown : List Text → Condition → Type 0
IsKnown customs c = knows customs c.attribute ≡ true

-- The rule returns a value of the type, and its conditions check known attributes.
pub record IsFit (type : FlagType) (customs : List Text) (r : TargetingRule) : Type 0 where
  pub value : HasType type r.value
  pub conditions : All (IsKnown customs) r.conditions

-- The update sets a value of the type, and so do its rules.
pub record IsFitUpdate (type : FlagType) (customs : List Text) (u : FlagUpdate) : Type 0 where
  pub default_value : HasType type u.default_value
  pub rules : maybe u.rules Unit (All (IsFit type customs))

pub record IsTyped (type : FlagType) (customs : List Text) (s : Editor) : Type 0 where
  pub form : HasType type s.form.default_value
  pub heap : All (IsFit type customs) s.heap
  pub sent : All (IsFitUpdate type customs) s.sent

initial-HasType : (type : FlagType) → HasType type (initial_value type)
unfolding offers_value text_eq
initial-HasType boolean = refl
initial-HasType string = refl
initial-HasType integer = refl
initial-HasType json = refl

module _ (type : FlagType) (customs : List Text) where
  set_condition-IsKnown :
      (ch : ConditionChange) (c : Condition)
      → offers_condition c ch ≡ true
      → IsKnown customs c
      → IsKnown customs (set_condition ch c)
  unfolding set_condition offers_condition
  set_condition-IsKnown (attribute t) c o h = elim (Bool-cases (text_eq t c.attribute)) [
    | inl same ↦ rw ((text_eq_iff t c.attribute).0 same) h
    | inr other ↦ ground (arith, o, other)
  ]
  set_condition-IsKnown (operator p) c o h = h
  set_condition-IsKnown (values t) c o h = h

  set_rule-IsFit :
      (ch : RuleChange) (r : TargetingRule)
      → offers_change type r ch ≡ true
      → IsFit type customs r
      → IsFit type customs (set_rule ch r)
  unfolding set_rule offers_change
  set_rule-IsFit (name t) r o h = record { value = h.value; conditions = h.conditions }
  set_rule-IsFit (value t) r o h = record { value = o; conditions = h.conditions }
  set_rule-IsFit (change_condition i ch) r o h = record {
    value = h.value;
    conditions =
        let (c, there, offered) =
          maybe-true (get_elem? r.conditions i) (λ x. offers_condition x ch) o in
        All-modify (IsKnown customs) (set_condition ch) i r.conditions h.conditions
          λ d e k. let same : c ≡ d = cc in set_condition-IsKnown ch d (rw (sym same) offered) k;
  }
  set_rule-IsFit add_condition r o h = record {
    value = h.value;
    conditions = All-append (IsKnown customs) r.conditions _ h.conditions (refl, tt);
  }
  set_rule-IsFit (remove_condition i) r o h = record {
    value = h.value;
    conditions = All-remove_at (IsKnown customs) i r.conditions h.conditions;
  }

  new_rule-IsFit : (count : ℕ) → IsFit type customs (new_rule type count)
  unfolding new_rule text_eq
  new_rule-IsFit count = record { value = initial-HasType type; conditions = (refl, tt) }

  set_form-HasType :
      (ch : FormChange) (f : Form)
      → offers_form type f ch ≡ true
      → HasType type f.default_value
      → HasType type (set_form ch f).default_value
  unfolding set_form offers_form
  set_form-HasType (default_value t) f o h = o
  set_form-HasType (description t) f o h = h
  set_form-HasType (selector_labels t) f o h = h
  set_form-HasType (env_var_name t) f o h = h
  set_form-HasType (config_map_name t) f o h = h
  set_form-HasType (config_map_key t) f o h = h
  set_form-HasType (disabled b) f o h = h
  set_form-HasType (delivery_method m) f o h = h

  read_rules-IsFit :
      (heap : List TargetingRule) (refs : List ℕ)
      → All (IsFit type customs) heap
      → All (IsFit type customs) (read_rules heap refs)
  unfolding read_rules
  read_rules-IsFit heap refs h =
      traverse-All (IsFit type customs) (get_elem? heap) refs
        λ a r e. All-get_elem (IsFit type customs) heap a h e

module _ (flag : FeatureFlag) (customs : List Text) where
  change_rule-IsTyped :
      (i : ℕ) (ch : RuleChange) (s : Editor)
      → offers flag.type s (change_rule i ch) ≡ true
      → IsTyped flag.type customs s
      → IsTyped flag.type customs (handle flag (change_rule i ch) s)
  unfolding offers handle
  change_rule-IsTyped i ch s o h =
      let (a, r, there, object, offered) = change_rule_found flag.type s i ch o in
      rw there (record {
        form = h.form;
        heap = All-modify (IsFit flag.type customs) (set_rule ch) a s.heap h.heap λ q e k.
            let same : r ≡ q = cc in
            set_rule-IsFit flag.type customs ch q (rw (sym same) offered) k;
        sent = h.sent;
      })

  update-IsFit :
      (form : Form) (rules : List TargetingRule)
      → HasType flag.type form.default_value
      → All (IsFit flag.type customs) rules
      → IsFitUpdate flag.type customs (build_update flag form rules)
  unfolding build_update
  update-IsFit form [] f h = record { default_value = f; rules = tt }
  update-IsFit form (r ∷ rules) f h = record { default_value = f; rules = h }

  handle-IsTyped :
      (e : Event) (s : Editor)
      → offers flag.type s e ≡ true
      → IsTyped flag.type customs s
      → IsTyped flag.type customs (handle flag e s)
  unfolding offers handle
  handle-IsTyped (change_form ch) s o h = record {
    form = set_form-HasType flag.type customs ch s.form ((and-eq-true_iff _ _).0 o).1 h.form;
    heap = h.heap;
    sent = h.sent;
  }
  handle-IsTyped add_rule s o h = record {
    form = h.form;
    heap =
        All-append (IsFit flag.type customs) s.heap _ h.heap
          (new_rule-IsFit flag.type customs (length s.rules), tt);
    sent = h.sent;
  }
  handle-IsTyped (change_rule i ch) s o h = change_rule-IsTyped i ch s o h
  handle-IsTyped confirm s o h = record {
    form = h.form;
    heap = h.heap;
    sent = All-append (IsFitUpdate flag.type customs) s.sent _ h.sent (
      update-IsFit s.form (read_rules s.heap s.rules) h.form
          (read_rules-IsFit flag.type customs s.heap s.rules h.heap),
      tt,
    );
  }
  handle-IsTyped _ s o h = record { form = h.form; heap = h.heap; sent = h.sent }

  -- If at first the flag's value and the value of each rule fit the flag's type, and every condition
  -- checks an attribute that is empty, one of the five examples or one of `customs`, then this holds
  -- in every state that the controls of the form lead to, of its fields, of its rules and of each
  -- request that it has sent: no attribute but these ever comes in.
  pub Reach-IsTyped_editor :
      (s t : Editor) → IsTyped flag.type customs s → Reach flag s t → IsTyped flag.type customs t
  Reach-IsTyped_editor s t h here = h
  Reach-IsTyped_editor s u h (next {t} r (act e o)) =
      handle-IsTyped e t o (Reach-IsTyped_editor s t h r)
