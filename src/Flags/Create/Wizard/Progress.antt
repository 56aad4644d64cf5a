-- ===== src/Flags/Create/Wizard/Progress.antt =====
-- The way through the wizard of CreateFlagModal.tsx to a flag that is created.
use vexil.Prelude.{
  ◌++◌, ℕ, ◌≡◌, refl, ap, ◌∙◌, subst, true, false, List, [], ◌∷◌, arith, is_empty, All, Bool,
  if◌then◌else◌,
}
use vexil.Text.{Text, codes, text_eq, text_eq_iff, text_eq_refl}
use vexil.Text.Case.{CaseMapping}
use vexil.Types.{Cluster}
use vexil.Sdk.EnvNames.{IsFlagName}
use vexil.Flags.Mutation.{idle}
use vexil.Flags.Values.{offers_value, is_listed}
use vexil.Flags.Create.{
  fetch_namespaces, clean_name, config_map, Form, blank_form, build_request, in_env_var, default_of,
  can_proceed_step1, can_proceed_step2,
}
use vexil.Flags.Create.Names.{clean_name_of_IsFlagName, clean_env_var_of_All}
use vexil.Flags.Create.Review.{success_text}
use vexil.Flags.Create.Wizard.{
  Wizard, Event, clusters_loaded, namespaces_loaded, default_namespaces, with_form, select_cluster,
  select_namespace, type_name, type_value, type_description, select_type, choose_method,
  type_labels, type_env_var, type_config_map_name, type_config_map_key, go_next, go_back, create,
  create_succeeded, open_wizard, auto_select, handle, offers, has_id, act, Reach, here, next,
}

-- The wizard at a step, before it has sent anything.
abbrev at_step : List Cluster → List Text → ℕ → Form → Wizard
at_step cs ns n form = record {
  step = n;
  form = form;
  clusters = cs;
  namespaces = ns;
  mutation = idle;
  sent = [];
  is_open = true;
}

-- The form with a cluster chosen, and nothing else; and at the end of the first step.
abbrev placed : Form → Form
placed f = record blank_form { cluster_id = f.cluster_id }

abbrev defined : Form → Form
defined f = record blank_form {
  name = f.name;
  namespace = f.namespace;
  cluster_id = f.cluster_id;
  type = f.type;
  default_value = f.default_value;
  description = f.description;
}

auto_select_of_chosen :
    (cs : List Cluster) (form : Form)
    → is_empty form.cluster_id ≡ false
    → auto_select cs form ≡ form
unfolding auto_select
auto_select_of_chosen [] form h = refl
auto_select_of_chosen (c ∷ []) form h = rw h refl
auto_select_of_chosen (c ∷ (d ∷ cs)) form h = refl

-- An edit that keeps a cluster that is chosen keeps the namespaces.
with_form_of_chosen :
    (w : Wizard) (form : Form)
    → is_empty form.cluster_id ≡ false
    → form.cluster_id ≡ w.form.cluster_id
    → with_form w form ≡ record w { form = form }
with_form_of_chosen w form h e =
    let kept = auto_select_of_chosen w.clusters form h in
    let same : text_eq form.cluster_id w.form.cluster_id ≡ true =
      rw e (text_eq_refl w.form.cluster_id) in
    rw (kept, same) refl

default_either :
    (b : Bool) → (if b then default_namespaces else default_namespaces) ≡ default_namespaces
default_either true = refl
default_either false = refl

-- `is_ok` and `body` are the answer with the namespaces of the cluster.
module _ (case : CaseMapping) (is_ok : Bool) (body : List Text) where
  abbrev Gets : Wizard → Type 0
  Gets = Reach case open_wizard

  act_to :
      {w : Wizard} (u : Wizard) (e : Event)
      → Gets w
      → offers w e ≡ true
      → handle case e w ≡ u
      → Gets u
  act_to u e r o same = subst Gets same (next r (act e o))

  -- A form that can be filled in: what the fields of the page take.
  pub record CanFill (cs : List Cluster) (f : Form) : Type 0 where
    pub name : IsFlagName f.name
    pub env_var_name : All (λ c. in_env_var c ≡ true) f.env_var_name
    pub value : offers_value f.type f.default_value ≡ true
    pub cluster : has_id cs f.cluster_id ≡ true
    pub namespace : is_listed f.namespace (fetch_namespaces is_ok body) ≡ true
    pub step1 : can_proceed_step1 f ≡ true
    pub step2 : can_proceed_step2 f.delivery_method f ≡ true

  CanFill-chosen : (cs : List Cluster) (f : Form) → CanFill cs f → is_empty f.cluster_id ≡ false
  unfolding can_proceed_step1
  CanFill-chosen cs f h = let s = h.step1 in ground arith

  abbrev listed : List Text
  listed = fetch_namespaces is_ok body

  clustered-Gets :
      (cs : List Cluster) (f : Form)
      → CanFill cs f
      → Gets (at_step cs default_namespaces 1 (placed f))
  unfolding handle offers has_id auto_select
  clustered-Gets [] f h = let no = h.cluster in cc
  clustered-Gets (c ∷ []) f h =
      let there = h.cluster in
      let same = (text_eq_iff c.id f.cluster_id).0 (ground arith) in
      act_to (at_step (c ∷ []) default_namespaces 1 (placed f)) (clusters_loaded (c ∷ [])) here refl
        (ap (λ ns. at_step (c ∷ []) ns 1 (record blank_form { cluster_id = c.id }))
            (default_either (text_eq c.id []))
          ∙ ap (λ id. at_step (c ∷ []) default_namespaces 1 (record blank_form { cluster_id = id }))
              same)
  clustered-Gets (c ∷ (d ∷ cs)) f h =
      let there = h.cluster in
      let all = c ∷ (d ∷ cs) in
      let loaded : Gets (at_step all default_namespaces 1 blank_form) =
        act_to (at_step all default_namespaces 1 blank_form) (clusters_loaded all) here refl
          (ap (λ ns. at_step all ns 1 blank_form) (default_either (text_eq [] []))) in
      act_to (at_step all default_namespaces 1 (placed f)) (select_cluster f.cluster_id) loaded
        (ground arith)
        (ap (λ ns. at_step all ns 1 (placed f)) (default_either (text_eq f.cluster_id [])))

  placed-Gets :
      (cs : List Cluster) (f : Form) → CanFill cs f → Gets (at_step cs listed 1 (placed f))
  unfolding handle offers
  placed-Gets cs f h =
      let k = CanFill-chosen cs f h in
      act_to (at_step cs listed 1 (placed f)) (namespaces_loaded is_ok body) (clustered-Gets cs f h)
        (rw k refl) refl

  -- An edit that keeps the cluster.
  edit-Gets :
      (cs : List Cluster) (n : ℕ) (from to : Form) (e : Event)
      → Gets (at_step cs listed n from)
      → offers (at_step cs listed n from) e ≡ true
      → handle case e (at_step cs listed n from) ≡ with_form (at_step cs listed n from) to
      → is_empty to.cluster_id ≡ false
      → to.cluster_id ≡ from.cluster_id
      → Gets (at_step cs listed n to)
  edit-Gets cs n from to e r o same h k =
      act_to (at_step cs listed n to) e r o
        (same ∙ with_form_of_chosen (at_step cs listed n from) to h k)

  defined-Gets :
      (cs : List Cluster) (f : Form) → CanFill cs f → Gets (at_step cs listed 1 (defined f))
  unfolding handle offers
  defined-Gets cs f h =
      let k = CanFill-chosen cs f h in
      let f1 = record (placed f) { name = f.name } in
      let f2 = record f1 { namespace = f.namespace } in
      let f3 = record f2 { type = f.type; default_value = default_of f.type } in
      let f4 = record f3 { default_value = f.default_value } in
      let named =
        edit-Gets cs 1 (placed f) f1 (type_name f.name) (placed-Gets cs f h) refl
          (ap (λ t. with_form (at_step cs listed 1 (placed f)) (record (placed f) { name = t }))
            (clean_name_of_IsFlagName case f.name h.name))
          k refl in
      let located =
        edit-Gets cs 1 f1 f2 (select_namespace f.namespace) named h.namespace refl k refl in
      let typed = edit-Gets cs 1 f2 f3 (select_type f.type) located refl refl k refl in
      let valued = edit-Gets cs 1 f3 f4 (type_value f.default_value) typed h.value refl k refl in
      edit-Gets cs 1 f4 (defined f) (type_description f.description) valued refl refl k refl

  delivered-Gets :
      (cs : List Cluster) (f : Form)
      → CanFill cs f
      → Gets (at_step cs listed 2 (defined f))
      → Gets (at_step cs listed 2 f)
  unfolding handle offers
  delivered-Gets cs f h r =
      let k = CanFill-chosen cs f h in
      let f1 = record (defined f) { env_var_name = f.env_var_name } in
      let f2 = record f1 { delivery_method = config_map } in
      let f3 = record f2 { config_map_name = f.config_map_name } in
      let f4 = record f3 { config_map_key = f.config_map_key } in
      let f5 = record f4 { delivery_method = f.delivery_method } in
      let variable =
        edit-Gets cs 2 (defined f) f1 (type_env_var f.env_var_name) r refl
          (ap
            (λ t.
              with_form (at_step cs listed 2 (defined f)) (record (defined f) { env_var_name = t }))
            (clean_env_var_of_All case f.env_var_name h.env_var_name))
          k refl in
      let mounted = edit-Gets cs 2 f1 f2 (choose_method config_map) variable refl refl k refl in
      let named =
        edit-Gets cs 2 f2 f3 (type_config_map_name f.config_map_name) mounted refl refl k refl in
      let keyed =
        edit-Gets cs 2 f3 f4 (type_config_map_key f.config_map_key) named refl refl k refl in
      let chosen = edit-Gets cs 2 f4 f5 (choose_method f.delivery_method) keyed refl refl k refl in
      edit-Gets cs 2 f5 f (type_labels f.selector_labels) chosen refl refl k refl

  -- The third step, with the form filled in.
  filled-Gets : (cs : List Cluster) (f : Form) → CanFill cs f → Gets (at_step cs listed 3 f)
  unfolding handle offers can_proceed_step1
  filled-Gets cs f h =
      let second =
        act_to (at_step cs listed 2 (defined f)) go_next (defined-Gets cs f h) h.step1 refl in
      act_to (at_step cs listed 3 f) go_next (delivered-Gets cs f h second) h.step2 refl

  -- Every form that the fields take, with a cluster that is listed and a namespace that the field offers
  -- behind the answer to the query for that cluster, and which passes the first two steps, can be
  -- created: from the opening of the wizard, its controls lead to the request for this form, which is
  -- the only one sent, and the answer of the server to the report of success.
  pub fill-succeeds :
      (cs : List Cluster) (f : Form)
      → CanFill cs f
      → (w : Wizard) × Reach case open_wizard w × (w.sent ≡ build_request f ∷ []) × (w.step ≡ 4)
  unfolding handle offers can_proceed_step1
  fill-succeeds cs f h =
      let asked = next (filled-Gets cs f h) (act create refl) in
      (_, next asked (act create_succeeded refl), refl, refl)

  -- The wizard lets the user go back while the request is pending. After the request for any form that
  -- can be created, whatever name a flag can have may stand in the report of success, though the only
  -- flag that has been sent is that of the form.
  pub report_of_any_name :
      (cs : List Cluster) (f : Form) (n : Text)
      → CanFill cs f
      → IsFlagName n
      → (w : Wizard) × Reach case open_wizard w
        × (w.sent ≡ build_request f ∷ [])
        × (w.step ≡ 4)
        × (success_text w.form ≡ n ++ (codes " is now active in " ++ f.namespace))
  unfolding handle offers success_text
  report_of_any_name cs f n h k =
      let asked = next (filled-Gets cs f h) (act create refl) in
      let second = next asked (act go_back refl) in
      let first = next second (act go_back refl) in
      let renamed = next first (act (type_name n) refl) in
      let form = record f { name = clean_name case n } in
      let chosen = auto_select_of_chosen cs form (CanFill-chosen cs f h) in
      (
        _,
        next renamed (act create_succeeded refl),
        refl,
        refl,
        rw (chosen, clean_name_of_IsFlagName case n k) refl,
      )
