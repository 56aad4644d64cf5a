-- ===== src/Tests/Flags.antt =====
-- The flags page and its two forms, at concrete data.
use vexil.Prelude.{
  inl, map_option, ◌≡◌, refl, ◌↔◌, false, Option, none, some, List, [], ◌∷◌, map, In, All, arith,
}
use vexil.Text.{Text, codes, DistinctKeys, lookup, insert, text_eq}
use vexil.Text.Case.{ascii_case}
use vexil.Text.Parts.{split, join}
use vexil.Text.Trim.{is_space, trim}
use vexil.Types.{
  boolean, active, eq, LabelSelector, EnvVarDelivery, ConfigMapDelivery, SidecarDelivery,
  DeliverySpec, TargetingRule, FeatureFlag,
}
use vexil.Flags.Labels.{
  IsPlainLabel, read_labels, print_labels, sent_label, from_entries, read_label,
}
use vexil.Flags.Edit.{
  build_update, initial_form, initial_labels, initial_method, build_delivery as build_edited,
}
use vexil.Flags.Edit.Saving.{saved}
use vexil.Flags.Edit.Editor as Edit
use vexil.Flags.Edit.Editor.Shared.{Represents}
use vexil.Flags.Edit.Editor.Refines.{Shows, edit_all, run-Shows}
use vexil.Flags.Edit.Editor.Sharing.{run_edits_flag}
use vexil.Flags.Edit.Editor.Offers.{offers, act, Reach, here, next}
use vexil.Flags.Values.{offers_value}
use vexil.Flags.Edit.Editor.Typed.{IsTyped, Reach-IsTyped_editor}
use vexil.Flags.Edit.Editor.Steps.{IsSound, Reach-IsSound_editor}
use vexil.Flags.Create
use vexil.Flags.Created.{stored_delivery, kept, created-saved}
use vexil.Flags.Page
use vexil.Dialogs.{confirm_button}
use vexil.Flags.Page.Confirm.{IsAnswered, delete_dialog, dialogs, click-IsAnswered}
use vexil.Flags.Page.{Event, ask_delete, confirm_delete, Effect, delete, Viewer, filtered_flags}
use vexil.Flags.Page.Filter.{Passes, filtered_flags_iff}
use vexil.Flags.Page.Dialogs
use vexil.Flags.Page.Dialogs.{open_page, Allowed, effect-Allowed}

abbrev tier : List (Text × Text)
tier = (codes "app", codes "shop") ∷ ((codes "tier", codes "web") ∷ [])

abbrev selector : LabelSelector Text
selector = record { match_labels = some tier }

abbrev env_var_spec : EnvVarDelivery Text
env_var_spec = record { name = some (codes "FLAG_DARK"); selector = selector }

abbrev config_map_spec : ConfigMapDelivery Text
config_map_spec = record {
  config_map_name = codes "flags";
  key = codes "dark";
  selector = selector;
}

abbrev sidecar_spec : SidecarDelivery Text
sidecar_spec = record { port = none; selector = selector }

abbrev rule : TargetingRule
rule = record {
  name = codes "Rule 1";
  conditions =
      record { attribute = codes "label:tier"; operator = eq; values = codes "web" ∷ [] } ∷ [];
  value = codes "true";
  percentage = none;
}

abbrev dark : Option (DeliverySpec Text) → FeatureFlag
dark delivery = record {
  name = codes "dark-mode";
  namespace = codes "default";
  cluster_id = codes "local";
  description = some (codes "Night");
  type = boolean;
  default_value = codes "false";
  current_value = codes "false";
  phase = none;
  disabled = false;
  targeted_workloads = none;
  lifecycle = active;
  delivery = delivery;
  rules = some (rule ∷ []);
  created_at = [];
  updated_at = none;
}

abbrev spec :
    Option (EnvVarDelivery Text)
    → Option (ConfigMapDelivery Text)
    → Option (SidecarDelivery Text)
    → DeliverySpec Text
spec e c s = record { env_var = e; config_map = c; sidecar = s }

plain_distinct : DistinctKeys tier
unfolding lookup text_eq
plain_distinct = (refl, (refl, tt))

abbrev app : Text × Text
app = (codes "app", codes "shop")

abbrev others : List (Text × Text)
others = (codes "tier", codes "web") ∷ []

plain : All IsPlainLabel (app ∷ others)
unfolding is_space
plain = ground arith

abbrev created : Create.Form
created = record Create.blank_form {
  name = codes "dark-mode";
  cluster_id = codes "local";
  delivery_method = Create.config_map;
  config_map_name = codes "flags";
  selector_labels = codes "app=shop,tier=web";
}

abbrev stored : FeatureFlag
stored = dark (map_option stored_delivery (Create.build_request created).delivery)

typed : created.selector_labels ≡ print_labels (app ∷ others)
unfolding print_labels join
typed = refl

created-saved_example :
    (saved stored (rule ∷ [])).delivery
    ≡ kept Create.config_map (Create.build_request created).delivery
created-saved_example =
    created-saved created stored (rule ∷ []) app others typed plain plain_distinct
      (unfold Create.can_proceed_step1 in refl) (unfold Create.can_proceed_step2 in refl) refl

abbrev twice : FeatureFlag
twice = dark (some (spec (some env_var_spec) none (some sidecar_spec)))

abbrev sent_delivery : DeliverySpec (Option Text)
sent_delivery = record {
  env_var = some (record {
    name = some (codes "FLAG_DARK");
    selector = record { match_labels = some (map sent_label (app ∷ others)) };
  });
  config_map = none;
  sidecar = none;
}

twice_sent : (saved twice []).delivery ≡ some sent_delivery
unfolding build_update initial_form build_edited initial_labels initial_method print_labels
    read_labels from_entries read_label split join trim is_space insert text_eq
twice_sent = refl

abbrev no_rules : List TargetingRule
no_rules = []

abbrev edits : List Edit.Event
edits =
    Edit.add_rule
    ∷ (Edit.change_rule 1 (Edit.name (codes "beta")) ∷ (Edit.change_rule 0 Edit.add_condition ∷ []))

abbrev opened : Edit.Editor
opened = Edit.open_editor twice (rule ∷ []) (0 ∷ [])

opened-Shows : Shows opened (rule ∷ [])
unfolding Edit.open_editor
opened-Shows = record { own = (tt, tt); shown = (refl, tt) }

run-Shows_example : Shows (Edit.run twice edits opened) (edit_all boolean edits (rule ∷ []))
run-Shows_example = run-Shows twice edits opened (rule ∷ []) opened-Shows

abbrev cancelled : List Edit.Event
cancelled = Edit.change_rule 0 (Edit.value (codes "false")) ∷ (Edit.close ∷ [])

run_edits_flag_example :
    ((Edit.run twice cancelled opened).sent ≡ [])
    × Represents
        (Edit.run twice cancelled opened).heap
        (0 ∷ [])
        (edit_all boolean cancelled (rule ∷ []))
run_edits_flag_example =
    run_edits_flag twice (rule ∷ []) (0 ∷ []) (rule ∷ []) cancelled (tt, tt) (refl, tt)
      (refl, (refl, tt))

opened-IsSound : IsSound opened
unfolding Edit.open_editor
opened-IsSound = record {
  in_range = ground arith;
  single = λ e. refl;
  conditional = ((λ e. cc), tt);
}

added : Reach twice opened (Edit.handle twice Edit.add_rule opened)
unfolding Edit.open_editor offers
added = next here (act Edit.add_rule refl)

Reach-IsSound_editor_example : IsSound (Edit.handle twice Edit.add_rule opened)
Reach-IsSound_editor_example =
    Reach-IsSound_editor twice opened (Edit.handle twice Edit.add_rule opened) opened-IsSound added

opened-IsTyped : IsTyped boolean (codes "label:team" ∷ []) opened
unfolding Edit.open_editor initial_form offers_value text_eq
opened-IsTyped = record {
  form = refl;
  heap = (record { value = refl; conditions = (refl, tt) }, tt);
  sent = tt;
}

Reach-IsTyped_editor_example :
    IsTyped boolean (codes "label:team" ∷ []) (Edit.handle twice Edit.add_rule opened)
Reach-IsTyped_editor_example =
    Reach-IsTyped_editor twice (codes "label:team" ∷ []) opened
      (Edit.handle twice Edit.add_rule opened) opened-IsTyped added

filtered_flags_iff_example :
    In twice (filtered_flags ascii_case open_page (twice ∷ []))
    ↔ (In twice (twice ∷ []) × Passes ascii_case open_page twice)
filtered_flags_iff_example = filtered_flags_iff ascii_case open_page (twice ∷ []) twice

abbrev admin : Viewer
admin = record { role = some (codes "admin") }

asked : Dialogs.Reach admin (Page.handle (Page.ask_delete twice) open_page)
unfolding Page.offers text_eq
asked = Dialogs.step (Page.ask_delete twice) Dialogs.start refl

effect-Allowed_example :
    Allowed admin
      (Page.handle (Page.ask_delete twice) open_page)
      (Page.effect Page.confirm_delete (Page.handle (Page.ask_delete twice) open_page))
effect-Allowed_example = effect-Allowed Page.confirm_delete asked

-- The page that asks about the deletion, and a click on the button that confirms it.
abbrev asking : Page.Page
asking = Page.handle (Page.ask_delete twice) open_page

click-IsAnswered_example : IsAnswered asking (delete_dialog twice) confirm_button
click-IsAnswered_example =
    click-IsAnswered asking (delete_dialog twice) confirm_button
      (unfold dialogs Page.handle in inl refl)
