-- ===== src/Flags/Edit/Saving.antt =====
-- What saving an untouched form of EditFlagModal.tsx sends for the flag's delivery and rules.
use vexil.Prelude.{
  ℕ, ◌≡◌, refl, ◌≢◌, ◌↔◌, inl, inr, subst, Bool-cases, false, Option, none, some, List, [], ◌∷◌,
  ◌++◌, map, arith, All, is_empty, if◌then◌else◌,
}
use vexil.Text.{Text, DistinctKeys, or_text, or_undefined}
use vexil.Text.Parts.{join}
use vexil.Types.{
  EnvVarDelivery, ConfigMapDelivery, SidecarDelivery, DeliverySpec, TargetingRule, FeatureFlag,
}
use vexil.Flags.Labels.{
  print_label, print_labels, IsPlainLabel, sent_label, read_labels-print_labels,
}
use vexil.Flags.Edit.{
  Form, FlagUpdate, env_var, initial_method, initial_form, build_delivery, build_update,
}

is_empty-append : (s : Text) (c : ℕ) (t : Text) → is_empty (s ++ c ∷ t) ≡ false
is_empty-append [] c t = refl
is_empty-append (a ∷ s) c t = refl

is_empty-print_labels :
    (e : Text × Text) (m : List (Text × Text)) → is_empty (print_labels (e ∷ m)) ≡ false
unfolding print_labels join
is_empty-print_labels e [] = is_empty-append e.0 b'=' e.1
is_empty-print_labels e (f ∷ m) = is_empty-append (print_label e) b',' _

or_undefined-or_text : (o : Option Text) → o ≢ some [] → or_undefined (or_text o []) ≡ o
or_undefined-or_text none h = refl
or_undefined-or_text (some []) h = absurd (h refl)
or_undefined-or_text (some (c ∷ s)) h = refl

-- The update that saving the form of `flag` sends if nothing is changed.
abbrev pub saved : FeatureFlag → List TargetingRule → FlagUpdate
saved flag rules = build_update flag (initial_form flag) rules

env_var_alone :
    (form : Form) (name : Text) (sent : DeliverySpec (Option Text))
    → build_delivery env_var form name ≡ some sent
    → (sent.config_map ≡ none) × (sent.sidecar ≡ none)
unfolding build_delivery
env_var_alone form name sent h = elim (Bool-cases (is_empty form.selector_labels)) [
  | inl blank ↦ ground arith
  | inr labels ↦ ground arith
]

module _ (flag : FeatureFlag) (rules : List TargetingRule) where
  -- Saving an untouched form keeps a delivery by an environment variable alone, whose selector has
  -- plain and distinct labels, one at least, and whose name is not the empty text.
  pub saved_env_var :
      (name : Option Text) (e : Text × Text) (m : List (Text × Text))
      → flag.delivery
        ≡ some (record {
          env_var =
              some (record { name = name; selector = record { match_labels = some (e ∷ m) } });
          config_map = none;
          sidecar = none;
        })
      → name ≢ some []
      → All IsPlainLabel (e ∷ m)
      → DistinctKeys (e ∷ m)
      → (saved flag rules).delivery
        ≡ some (record {
          env_var = some (record {
            name = name;
            selector = record { match_labels = some (map sent_label (e ∷ m)) };
          });
          config_map = none;
          sidecar = none;
        })
  unfolding build_update initial_form
  saved_env_var name e m d n h k =
      rw (
        d,
        or_undefined-or_text name n,
        is_empty-print_labels e m,
        read_labels-print_labels e m h k,
      )

  -- It keeps a delivery by a ConfigMap alone likewise, whose name and key are not empty, and whose
  -- selector has plain and distinct labels, one at least.
  pub saved_config_map :
      (n k : ℕ) (name key : Text) (e : Text × Text) (m : List (Text × Text))
      → flag.delivery
        ≡ some (record {
          env_var = none;
          config_map = some (record {
            config_map_name = n ∷ name;
            key = k ∷ key;
            selector = record { match_labels = some (e ∷ m) };
          });
          sidecar = none;
        })
      → All IsPlainLabel (e ∷ m)
      → DistinctKeys (e ∷ m)
      → (saved flag rules).delivery
        ≡ some (record {
          env_var = none;
          config_map = some (record {
            config_map_name = n ∷ name;
            key = k ∷ key;
            selector = record { match_labels = some (map sent_label (e ∷ m)) };
          });
          sidecar = none;
        })
  unfolding build_update initial_form
  saved_config_map n k name key e m d h distinct =
      rw (d, is_empty-print_labels e m, read_labels-print_labels e m h distinct)

  -- Of a flag that is delivered by the sidecar alone, the form shows no labels, so that saving it
  -- untouched sends no delivery, whatever the selector is.
  pub saved_sidecar :
      (s : SidecarDelivery Text)
      → flag.delivery ≡ some (record { env_var = none; config_map = none; sidecar = some s })
      → (saved flag rules).delivery ≡ none
  unfolding build_update initial_form
  saved_sidecar s d = rw d

  -- Of a flag with an environment variable and any other deliveries, a delivery that saving the
  -- untouched form sends holds no ConfigMap and no sidecar.
  pub saved_first :
      (e : EnvVarDelivery Text) (c : Option (ConfigMapDelivery Text))
      (s : Option (SidecarDelivery Text)) (sent : DeliverySpec (Option Text))
      → flag.delivery ≡ some (record { env_var = some e; config_map = c; sidecar = s })
      → (saved flag rules).delivery ≡ some sent
      → (sent.config_map ≡ none) × (sent.sidecar ≡ none)
  unfolding build_update initial_form
  saved_first e c s sent d h =
      let shown : initial_method flag.delivery ≡ env_var = rw d in
      env_var_alone (initial_form flag) flag.name sent
        (subst (λ q. build_delivery q (initial_form flag) flag.name ≡ some sent) shown h)

undefined :
    (d : Text) (rules : List TargetingRule)
    → ((or_undefined d ≡ none) ↔ (d ≡ []))
      × (((if is_empty rules then none else some rules) ≡ none) ↔ (rules ≡ []))
undefined [] [] = ground arith
undefined [] (r ∷ rules) = ground arith
undefined (c ∷ d) [] = ground arith
undefined (c ∷ d) (r ∷ rules) = ground arith

-- The update leaves the description undefined exactly if the form's is empty, and the rules exactly
-- if there are none.
build_update_undefined_iff :
    (flag : FeatureFlag) (form : Form) (rules : List TargetingRule)
    → (((build_update flag form rules).description ≡ none) ↔ (form.description ≡ []))
      × (((build_update flag form rules).rules ≡ none) ↔ (rules ≡ []))
unfolding build_update
build_update_undefined_iff flag form rules = undefined form.description rules
