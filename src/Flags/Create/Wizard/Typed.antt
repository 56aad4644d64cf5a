-- ===== src/Flags/Create/Wizard/Typed.antt =====
-- The values of the flags that CreateFlagModal.tsx sends, against their types.
use vexil.Prelude.{
  ◌≡◌, refl, true, List, [], ◌∷◌, arith, All, All-append, ltb, Bool-cases, inl, inr,
}
use vexil.Text.{text_eq}
use vexil.Text.Case.{CaseMapping}
use vexil.Types.{FlagType, boolean, string, integer, json, Cluster}
use vexil.Flags.Values.{offers_value, HasType}
use vexil.Flags.Create.{Form, CreateRequest, build_request, default_of}
use vexil.Flags.Create.Wizard.{
  Wizard, Event, clusters_loaded, namespaces_loaded, select_cluster, select_namespace, type_name,
  type_value, type_description, select_type, choose_method, type_labels, type_env_var,
  type_config_map_name, type_config_map_key, go_next, go_back, create, close, create_succeeded,
  create_failed, open_wizard, auto_select, with_form, handle, offers, act, Reach, here, next,
}

pub record IsTyped (w : Wizard) : Type 0 where
  pub form : HasType w.form.type w.form.default_value
  pub sent : All (λ (q : CreateRequest). HasType q.type q.default_value) w.sent

auto_select-HasType :
    (cs : List Cluster) (form : Form)
    → HasType form.type form.default_value
    → HasType (auto_select cs form).type (auto_select cs form).default_value
unfolding auto_select
auto_select-HasType [] form h = h
auto_select-HasType (c ∷ []) form h = ground (arith, h)
auto_select-HasType (c ∷ (d ∷ cs)) form h = h

default-HasType : (type : FlagType) → HasType type (default_of type)
unfolding offers_value text_eq
default-HasType boolean = refl
default-HasType string = refl
default-HasType integer = refl
default-HasType json = refl

with_form-IsTyped :
    (w : Wizard) (form : Form)
    → IsTyped w
    → HasType form.type form.default_value
    → IsTyped (with_form w form)
with_form-IsTyped w form h t = record {
  form = auto_select-HasType w.clusters form t;
  sent = h.sent;
}

module _ (case : CaseMapping) where
  handle-IsTyped :
      (e : Event) (w : Wizard) → offers w e ≡ true → IsTyped w → IsTyped (handle case e w)
  unfolding handle offers build_request
  handle-IsTyped (clusters_loaded cs) w o h = record {
    form = auto_select-HasType cs w.form h.form;
    sent = h.sent;
  }
  handle-IsTyped (namespaces_loaded is_ok body) w o h = record { form = h.form; sent = h.sent }
  handle-IsTyped (select_type type) w o h = with_form-IsTyped w _ h (default-HasType type)
  handle-IsTyped (type_value t) w o h = with_form-IsTyped w _ h (ground arith)
  handle-IsTyped (select_cluster id) w o h = with_form-IsTyped w _ h h.form
  handle-IsTyped (select_namespace ns) w o h = with_form-IsTyped w _ h h.form
  handle-IsTyped (type_name t) w o h = with_form-IsTyped w _ h h.form
  handle-IsTyped (type_description t) w o h = with_form-IsTyped w _ h h.form
  handle-IsTyped (choose_method m) w o h = with_form-IsTyped w _ h h.form
  handle-IsTyped (type_labels t) w o h = with_form-IsTyped w _ h h.form
  handle-IsTyped (type_env_var t) w o h = with_form-IsTyped w _ h h.form
  handle-IsTyped (type_config_map_name t) w o h = with_form-IsTyped w _ h h.form
  handle-IsTyped (type_config_map_key t) w o h = with_form-IsTyped w _ h h.form
  handle-IsTyped go_next w o h = record { form = h.form; sent = h.sent }
  handle-IsTyped go_back w o h = elim (Bool-cases (ltb 1 w.step)) [
    | inl later ↦ rw later (record { form = h.form; sent = h.sent })
    | inr first ↦ rw first (record { form = h.form; sent = h.sent })
  ]
  handle-IsTyped create w o h = record {
    form = h.form;
    sent =
        All-append (λ (q : CreateRequest). HasType q.type q.default_value) w.sent _ h.sent
          (h.form, tt);
  }
  handle-IsTyped close w o h = record { form = h.form; sent = h.sent }
  handle-IsTyped create_succeeded w o h = record { form = h.form; sent = h.sent }
  handle-IsTyped (create_failed message) w o h = record { form = h.form; sent = h.sent }

  -- In every state that the wizard can reach from its opening, the value in the form and that of each
  -- request sent are values of the chosen type: of a boolean flag, `false` or `true`, also after the
  -- type has been changed. A text is any value of the three other types.
  pub Reach-IsTyped : {w : Wizard} → Reach case open_wizard w → IsTyped w
  unfolding offers_value text_eq
  Reach-IsTyped here = record { form = refl; sent = tt }
  Reach-IsTyped (next {v} r (act e o)) = handle-IsTyped e v o (Reach-IsTyped r)
