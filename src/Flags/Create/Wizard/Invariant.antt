-- ===== src/Flags/Create/Wizard/Invariant.antt =====
-- The states that the wizard of CreateFlagModal.tsx can reach.
use vexil.Prelude.{◌≡◌, refl, true, arith, ltb, Bool-cases, inl, inr}
use vexil.Text.Case.{CaseMapping}
use vexil.Flags.Create.{default_of, clean_env_var, clean_name, can_proceed_step1}
use vexil.Flags.Create.Names.{clean_name-IsFlagName}
use vexil.Flags.Create.Wizard.{
  Wizard, Event, clusters_loaded, namespaces_loaded, select_cluster, select_namespace, type_name,
  type_value, type_description, select_type, choose_method, type_labels, type_env_var,
  type_config_map_name, type_config_map_key, go_next, go_back, create, close, create_succeeded,
  create_failed, open_wizard, handle, offers, act, Reach, here, next,
}
use vexil.Flags.Create.Wizard.Sound.{
  IsSound, defining-IsSound, delivering-IsSound, loading-IsSound, listing-IsSound, next-IsSound,
  back-IsSound, create-IsSound, closed-IsSound,
}

module _ (case : CaseMapping) where
  handle-IsSound :
      (e : Event) (w : Wizard) → offers w e ≡ true → IsSound w → IsSound (handle case e w)
  unfolding handle offers
  handle-IsSound (clusters_loaded cs) w o h = loading-IsSound cs w h
  handle-IsSound (namespaces_loaded is_ok body) w o h = listing-IsSound _ w h
  handle-IsSound (select_cluster id) w o h =
      defining-IsSound w (record w.form { cluster_id = id }) h (ground arith) h.valid_name
  handle-IsSound (select_namespace ns) w o h =
      defining-IsSound w (record w.form { namespace = ns }) h (ground arith) h.valid_name
  handle-IsSound (type_name t) w o h =
      defining-IsSound w (record w.form { name = clean_name case t }) h (ground arith)
        (clean_name-IsFlagName case t).0
  handle-IsSound (type_value t) w o h =
      defining-IsSound w (record w.form { default_value = t }) h (ground arith) h.valid_name
  handle-IsSound (type_description t) w o h =
      defining-IsSound w (record w.form { description = t }) h (ground arith) h.valid_name
  handle-IsSound (select_type type) w o h =
      defining-IsSound w (record w.form { type = type; default_value = default_of type }) h
        (ground arith) h.valid_name
  handle-IsSound (choose_method m) w o h =
      delivering-IsSound w (record w.form { delivery_method = m }) h (ground arith) refl
        (unfold can_proceed_step1 in refl)
  handle-IsSound (type_labels t) w o h =
      delivering-IsSound w (record w.form { selector_labels = t }) h (ground arith) refl
        (unfold can_proceed_step1 in refl)
  handle-IsSound (type_env_var t) w o h =
      delivering-IsSound w (record w.form { env_var_name = clean_env_var case t }) h (ground arith)
        refl (unfold can_proceed_step1 in refl)
  handle-IsSound (type_config_map_name t) w o h =
      delivering-IsSound w (record w.form { config_map_name = t }) h (ground arith) refl
        (unfold can_proceed_step1 in refl)
  handle-IsSound (type_config_map_key t) w o h =
      delivering-IsSound w (record w.form { config_map_key = t }) h (ground arith) refl
        (unfold can_proceed_step1 in refl)
  handle-IsSound go_next w o h = next-IsSound w h (ground arith) (ground arith)
  handle-IsSound go_back w o h = elim (Bool-cases (ltb 1 w.step)) [
    | inl later ↦ rw later (back-IsSound w h (ground arith) (ground arith))
    | inr first ↦ rw first (closed-IsSound w h)
  ]
  handle-IsSound create w o h = create-IsSound w h (ground arith) (ground arith)
  handle-IsSound close w o h = closed-IsSound w h
  handle-IsSound create_succeeded w o h = record {
    in_range = (omega arith, omega arith);
    valid_name = h.valid_name;
    defined = λ p q. absurd (omega arith);
    delivered = λ p. absurd (omega arith);
    complete = h.complete;
    asked = λ p. h.asked o;
    answered = λ p. h.asked o;
  }
  handle-IsSound (create_failed message) w o h = record {
    in_range = h.in_range;
    valid_name = h.valid_name;
    defined = h.defined;
    delivered = h.delivered;
    complete = h.complete;
    asked = λ p. h.asked o;
    answered = h.answered;
  }

  open_wizard-IsSound : IsSound open_wizard
  open_wizard-IsSound = record {
    in_range = (omega arith, omega arith);
    valid_name = tt;
    defined = λ p q. absurd (omega arith);
    delivered = λ p. absurd (omega arith);
    complete = tt;
    asked = λ p. cc;
    answered = λ p. absurd (omega arith);
  }

  -- In every state that the wizard can reach from its opening, by whatever controls it offers and
  -- whatever the server answers, each request sent is complete, and the report of success is shown
  -- only after a request.
  pub Reach-IsSound_wizard : {w : Wizard} → Reach case open_wizard w → IsSound w
  Reach-IsSound_wizard here = open_wizard-IsSound
  Reach-IsSound_wizard (next {v} r (act e o)) = handle-IsSound e v o (Reach-IsSound_wizard r)
