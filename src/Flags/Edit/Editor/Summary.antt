-- ===== src/Flags/Edit/Editor/Summary.antt =====
-- What EditFlagModal.tsx shows of a rule: its header, and the fields of a condition.
use vexil.Prelude.{
  ℕ, ◌+◌, ◌≡◌, Bool, true, false, not, Option, none, some, List, [], ◌∷◌, ◌++◌, map, is_empty, keep,
  if◌then◌else◌,
}
use vexil.Text.{Text, codes, or_else}
use vexil.Text.Case.{CaseMapping, replace_all}
use vexil.Text.Decimal.Print.{print}
use vexil.Text.Parts.{join, join-split}
use vexil.Types.{Operator, eq, neq, in_list, notin, matches, Condition, TargetingRule}
use vexil.Flags.Edit.Editor.{values, set_condition}

-- `operatorLabels`, of the labels.
abbrev pub operator_label : Operator → Text
operator_label eq = codes "equals"
operator_label neq = codes "not equals"
operator_label in_list = codes "is one of"
operator_label notin = codes "is not one of"
operator_label matches = codes "matches regex"

-- `parts.join(sep)`.
unfoldable pub join_text : Text → List Text → Text
join_text sep [] = []
join_text sep (p ∷ []) = p
join_text sep (p ∷ (q ∷ ps)) = p ++ (sep ++ join_text sep (q ∷ ps))

-- `values.filter(Boolean)`.
abbrev pub filled_values : List Text → List Text
filled_values vs = keep (λ v. not (is_empty v)) vs

unfoldable pub condition_text : Condition → Text
unfolding join_text
condition_text c =
    or_else c.attribute (codes "?")
    ++ (codes " "
        ++ (operator_label c.operator
            ++ (codes " "
                ++ or_else (join_text (codes ", ") (filled_values c.values)) (codes "?"))))

unfoldable pub condition_summary : List Condition → Text
unfolding condition_text join_text
condition_summary cs = join_text (codes " AND ") (map condition_text cs)

-- The button over a rule; the line below the name is there while the rule is closed.
pub record Header : Type 0 where
  pub number : ℕ
  pub name : Text
  pub summary : Option (Text × Text)

unfoldable pub header : ℕ → Bool → TargetingRule → Header
unfolding condition_summary
header i is_expanded rule = record {
  number = i + 1;
  name = or_else rule.name (codes "Rule " ++ print (i + 1));
  summary =
      if is_expanded
      then none
      else some (
        or_else (condition_summary rule.conditions) (codes "..."),
        or_else rule.value (codes "?"),
      );
}

-- The field for the values of a condition, with its label and its placeholder.
pub record ValuesField : Type 0 where
  pub label : Text
  pub value : Text
  pub placeholder : Text

abbrev pub takes_many : Operator → Bool
takes_many in_list = true
takes_many notin = true
takes_many _ = false

abbrev pub is_in_list : Operator → Bool
is_in_list in_list = true
is_in_list _ = false

unfoldable pub values_field : Condition → ValuesField
values_field c = record {
  label = if takes_many c.operator then codes "Values (comma-separated)" else codes "Value";
  value = join b',' c.values;
  placeholder = if is_in_list c.operator then codes "premium,enterprise" else codes "premium";
}

-- The variable that is named where the field for it is empty.
unfoldable pub env_var_placeholder : CaseMapping → Text → Text
env_var_placeholder case name = codes "FLAG_" ++ replace_all b'-' b'_' (case.to_upper name)

-- The field for the values shows what has been typed into it, with every comma, though the text is
-- stored as the list of its parts and put together again.
pub values_field-set_condition :
    (t : Text) (c : Condition) → (values_field (set_condition (values t) c)).value ≡ t
unfolding values_field set_condition
values_field-set_condition t c = join-split b',' t
