-- ===== src/Flags/Created.antt =====
-- A flag that CreateFlagModal.tsx has created, in the form of EditFlagModal.tsx.
use vexil.Prelude.{
  map_option, ℕ, ◌≡◌, refl, ap, ◌∙◌, ◌≢◌, true, false, Option, none, some, List, [], ◌∷◌, map, All,
  arith, is_empty,
}
use vexil.Text.{Text, DistinctKeys, or_else, or_undefined}
use vexil.Types.{
  LabelSelector, EnvVarDelivery, ConfigMapDelivery, SidecarDelivery, DeliverySpec, TargetingRule,
  FeatureFlag,
}
use vexil.Flags.Labels.{
  print_labels, IsPlainLabel, sent_label, read_labels, read_labels-print_labels,
}
use vexil.Flags.Create.{
  DeliveryMethod, env_var, config_map, sidecar, Form, build_delivery, build_request,
  can_proceed_step1, can_proceed_step2,
}
use vexil.Flags.Edit.Saving.{saved, saved_env_var, saved_config_map, saved_sidecar}

-- JSON leaves out the keys whose value is undefined.
abbrev pub given : List (Text × Option Text) → List (Text × Text)
given [] = []
given ((k, none) ∷ es) = given es
given ((k, some v) ∷ es) = (k, v) ∷ given es

abbrev pub stored_selector : LabelSelector (Option Text) → LabelSelector Text
stored_selector s = record { match_labels = map_option given s.match_labels }

-- The delivery that is stored for one that is sent.
abbrev pub stored_delivery : DeliverySpec (Option Text) → DeliverySpec Text
stored_delivery d = record {
  env_var =
      map_option
        (λ (e : EnvVarDelivery (Option Text)). record {
          name = e.name;
          selector = stored_selector e.selector;
        })
        d.env_var;
  config_map =
      map_option
        (λ (c : ConfigMapDelivery (Option Text)). record {
          config_map_name = c.config_map_name;
          key = c.key;
          selector = stored_selector c.selector;
        })
        d.config_map;
  sidecar =
      map_option
        (λ (s : SidecarDelivery (Option Text)). record {
          port = s.port;
          selector = stored_selector s.selector;
        })
        d.sidecar;
}

given-sent : (m : List (Text × Text)) → given (map sent_label m) ≡ m
given-sent [] = refl
given-sent ((k, v) ∷ m) = ap (λ es. (k, v) ∷ es) (given-sent m)

or_undefined-ne : (s : Text) → or_undefined s ≢ some []
or_undefined-ne [] e = cc
or_undefined-ne (c ∷ s) e = cc

cons-cases : (s : Text) → is_empty s ≡ false → (c : ℕ) × (t : Text) × (s ≡ c ∷ t)
cons-cases [] h = cc
cons-cases (c ∷ s) h = (c, s, refl)

or_else-cases : (s d : Text) → is_empty d ≡ false → (c : ℕ) × (t : Text) × (or_else s d ≡ c ∷ t)
or_else-cases [] d h = cons-cases d h
or_else-cases (c ∷ s) d h = (c, s, refl)

-- What an untouched form sends for a flag that was created with a method.
abbrev pub kept {ℓ} : {A : Type ℓ} → DeliveryMethod → Option A → Option A
kept sidecar q = none
kept _ q = q

module _ (form : Form) (flag : FeatureFlag) (rules : List TargetingRule) (e : Text × Text)
    (m : List (Text × Text)) where
  saved_by :
      (method : DeliveryMethod)
      → form.selector_labels ≡ print_labels (e ∷ m)
      → All IsPlainLabel (e ∷ m)
      → DistinctKeys (e ∷ m)
      → is_empty form.name ≡ false
      → can_proceed_step2 method form ≡ true
      → flag.delivery ≡ map_option stored_delivery (build_delivery method form)
      → (saved flag rules).delivery ≡ kept method (build_delivery method form)
  unfolding build_delivery can_proceed_step2
  saved_by env_var typed plain distinct named h d =
      let labels : is_empty form.selector_labels ≡ false = ground arith in
      let read = ap read_labels typed ∙ read_labels-print_labels e m plain distinct in
      let stored = rw (labels, read, given-sent (e ∷ m)) at d in
      rw (labels, read)
        (saved_env_var flag rules (or_undefined form.env_var_name) e m stored
          (or_undefined-ne form.env_var_name) plain distinct)
  saved_by config_map typed plain distinct named h d =
      let labels : is_empty form.selector_labels ≡ false = ground arith in
      let (n, name, is_name) = cons-cases form.config_map_name (ground arith) in
      let (k, key, is_key) = or_else-cases form.config_map_key form.name named in
      let read = ap read_labels typed ∙ read_labels-print_labels e m plain distinct in
      let stored = rw (is_name, is_key, labels, read, given-sent (e ∷ m)) at d in
      rw (is_name, is_key, labels, read)
        (saved_config_map flag rules n k name key e m stored plain distinct)
  saved_by sidecar typed plain distinct named h d =
      let labels : is_empty form.selector_labels ≡ false = ground arith in
      let stored = rw labels at d in saved_sidecar flag rules _ stored

  -- A flag that the wizard has created with plain and distinct labels, one at least, and whose
  -- delivery is stored as it was sent, opens in the form for editing so that saving it untouched sends
  -- the same delivery again, if that is an environment variable or a ConfigMap; after the sidecar, none.
  pub created-saved :
      form.selector_labels ≡ print_labels (e ∷ m)
      → All IsPlainLabel (e ∷ m)
      → DistinctKeys (e ∷ m)
      → can_proceed_step1 form ≡ true
      → can_proceed_step2 form.delivery_method form ≡ true
      → flag.delivery ≡ map_option stored_delivery (build_request form).delivery
      → (saved flag rules).delivery ≡ kept form.delivery_method (build_request form).delivery
  unfolding build_request can_proceed_step1
  created-saved typed plain distinct one two d =
      saved_by form.delivery_method typed plain distinct (ground arith) two d
