-- ===== src/Flags/Create/Review/Agrees.antt =====
-- The review of CreateFlagModal.tsx against the request that it leads to.
use vexil.Prelude.{
  ◌≡◌, refl, sym, ap, ◌∙◌, ◌⊎◌, inl, inr, true, false, Option, some, [], ◌∷◌, ◌++◌, catch, arith,
  is_empty, All,
}
use vexil.Text.{Text, codes, or_else, or_undefined}
use vexil.Text.Search.{Contains}
use vexil.Types.{DeliverySpec, EnvVarDelivery, ConfigMapDelivery, SidecarDelivery, type_text}
use vexil.Sdk.{Host, env_name}
use vexil.Sdk.EnvNames.{IsFlagName}
use vexil.Flags.Create.{
  DeliveryMethod, env_var, config_map, sidecar, Form, CreateRequest, build_delivery, build_request,
  can_proceed_step2, computed_env_var,
}
use vexil.Flags.Create.Names.{computed_env_var-env_name}
use vexil.Flags.Create.Review.{Review, delivery_text, review, snippets}

-- A field that is not empty is sent as it is, and needs no replacement.
or_undefined-cases :
    (s : Text) → (s ≡ []) ⊎ ((or_undefined s ≡ some s) × ((d : Text) → or_else s d ≡ s))
or_undefined-cases [] = inl refl
or_undefined-cases (c ∷ s) = inr (refl, λ d. refl)

module _ {J N : Type 0} (host : Host J N) where
  -- A line tells where the request delivers the flag to, and under which name. Where the request
  -- leaves the variable open, it is the one that the Node.js client reads.
  abbrev pub Tells : Text → Text → DeliverySpec (Option Text) → Type 0
  Tells line name d =
      ((v : EnvVarDelivery (Option Text)) × (d.env_var ≡ some v)
        × (line ≡ codes "Env var: " ++ catch v.name (env_name host name)))
      ⊎ (((c : ConfigMapDelivery (Option Text)) × (d.config_map ≡ some c)
            × (line ≡ codes "ConfigMap: " ++ (c.config_map_name ++ b'/' ∷ c.key)))
          ⊎ ((s : SidecarDelivery (Option Text)) × (d.sidecar ≡ some s)
              × (line ≡ codes "Sidecar API (port 8514)")))

  -- The review shows the request.
  pub record Agrees (r : Review) (q : CreateRequest) : Type 0 where
    pub name : r.name ≡ q.name
    pub namespace : r.namespace ≡ q.namespace
    pub type : r.type ≡ type_text q.type
    pub value : r.value ≡ q.default_value
    pub description : r.description ≡ q.description
    pub delivery :
        (d : DeliverySpec (Option Text)) × (q.delivery ≡ some d) × Tells r.delivery q.name d

  variable_text :
      (form : Form)
      → IsFlagName form.name
      → computed_env_var host.case form
        ≡ catch (or_undefined form.env_var_name) (env_name host form.name)
  unfolding computed_env_var
  variable_text form h = elim (or_undefined-cases form.env_var_name) [
    | inl open_name ↦ computed_env_var-env_name host form open_name h ∙ rw open_name refl
    | inr (sent, same) ↦ same _ ∙ rw sent refl
  ]

  delivery-Tells :
      (m : DeliveryMethod) (form : Form)
      → IsFlagName form.name
      → can_proceed_step2 m form ≡ true
      → (d : DeliverySpec (Option Text)) × (build_delivery m form ≡ some d)
        × Tells (delivery_text host.case m form) form.name d
  unfolding build_delivery can_proceed_step2 delivery_text
  delivery-Tells env_var form n h =
      let labels : is_empty form.selector_labels ≡ false = ground arith in
      rw labels (_, refl, inl (_, refl, ap (λ t. codes "Env var: " ++ t) (variable_text form n)))
  delivery-Tells config_map form n h =
      let named : is_empty form.config_map_name ≡ false = ground arith in
      rw named (_, refl, inr (inl (_, refl, refl)))
  delivery-Tells sidecar form n h =
      let labels : is_empty form.selector_labels ≡ false = ground arith in
      rw labels (_, refl, inr (inr (_, refl, refl)))

  -- If the flag's name holds lower case letters, digits and hyphens only, and the second step can be
  -- left, the review shows what is sent: the name, the namespace, the type, the value, the description,
  -- and the delivery with its ConfigMap and key, or with its variable, which is the one that the
  -- Node.js client reads where the request leaves it open.
  pub review-Agrees :
      (form : Form)
      → IsFlagName form.name
      → can_proceed_step2 form.delivery_method form ≡ true
      → Agrees (review host.case form) (build_request form)
  unfolding review build_request
  review-Agrees form n h = record {
    name = refl;
    namespace = refl;
    type = refl;
    value = refl;
    description = refl;
    delivery = delivery-Tells form.delivery_method form n h;
  }

  -- With environment variables, and no name of its own for the variable, every example of code at the
  -- end of the wizard names the variable that the Node.js client reads for the flag.
  snippets-Contains :
      (form : Form)
      → IsFlagName form.name
      → form.env_var_name ≡ []
      → All (λ s. Contains s.code (env_name host form.name)) (snippets host.case env_var form)
  unfolding snippets
  snippets-Contains form n e =
      let same = sym (computed_env_var-env_name host form e n) in
      let named : (code : Text)
          → Contains code (computed_env_var host.case form)
          → Contains code (env_name host form.name) =
        λ code c. rw same c in
      (
        named _ (codes "darkMode := os.Getenv(\"", codes "\") == \"true\"", refl),
        (
          named _ (codes "dark_mode = os.environ.get(\"", codes "\", \"false\") == \"true\"", refl),
          (
            named _ (codes "const darkMode = process.env.", codes " === \"true\";", refl),
            (
              named _ (
                codes "var darkMode = Environment.GetEnvironmentVariable(\"",
                codes "\") == \"true\";",
                refl,
              ),
              tt,
            ),
          ),
        ),
      )
