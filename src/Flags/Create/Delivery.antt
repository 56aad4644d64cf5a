-- ===== src/Flags/Create/Delivery.antt =====
-- The deliveries that the wizard sends.
use vexil.Prelude.{◌≡◌, refl, ◌≢◌, true, false, Option, none, some, arith, is_empty}
use vexil.Text.{Text}
use vexil.Types.{DeliverySpec}
use vexil.Flags.Create.{
  DeliveryMethod, env_var, config_map, sidecar, Form, build_delivery, can_proceed_step2,
}

-- Which of the three parts of a delivery is there.
abbrev pub Delivers : DeliveryMethod → DeliverySpec (Option Text) → Type 0
Delivers env_var d = (d.env_var ≢ none) × (d.config_map ≡ none) × (d.sidecar ≡ none)
Delivers config_map d = (d.env_var ≡ none) × (d.config_map ≢ none) × (d.sidecar ≡ none)
Delivers sidecar d = (d.env_var ≡ none) × (d.config_map ≡ none) × (d.sidecar ≢ none)

-- Past the second step the request has a delivery, by the chosen method and by no other.
pub can_proceed_step2-Delivers :
    (m : DeliveryMethod) (form : Form)
    → can_proceed_step2 m form ≡ true
    → (d : DeliverySpec (Option Text)) × (build_delivery m form ≡ some d) × Delivers m d
unfolding build_delivery can_proceed_step2
can_proceed_step2-Delivers env_var form h =
    let labels : is_empty form.selector_labels ≡ false = ground arith in
    rw labels (_, refl, ((λ e. cc), refl, refl))
can_proceed_step2-Delivers config_map form h =
    let named : is_empty form.config_map_name ≡ false = ground arith in
    rw named (_, refl, (refl, (λ e. cc), refl))
can_proceed_step2-Delivers sidecar form h =
    let labels : is_empty form.selector_labels ≡ false = ground arith in
    rw labels (_, refl, (refl, refl, (λ e. cc)))
