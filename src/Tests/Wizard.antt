-- ===== src/Tests/Wizard.antt =====
-- The wizard for a new flag, at concrete data.
use vexil.Prelude.{◌≡◌, refl, true, false, ◌↔◌, ◌⊎◌, some, List, none, [], ◌∷◌, ◌++◌, arith}
use vexil.Text.{Text, codes, lookup, text_eq}
use vexil.Text.Case.{ascii_case, upper_code, lower_code}
use vexil.Types.{Cluster, connected}
use vexil.Text.Decimal.{ℤ}
use vexil.Sdk.{Client, Host, rejected, env, env_name, get_flag, string_flag}
use vexil.Flags.Create.Announced.{announced-get_flag_iff}
use vexil.Flags.Values.{offers_value}
use vexil.Flags.Create
use vexil.Flags.Create.{
  blank_form, fetch_namespaces, build_delivery, build_request, can_proceed_step1, can_proceed_step2,
  clean_name, clean_env_var, in_env_var, computed_env_var,
}
use vexil.Flags.Create.Wizard
use vexil.Flags.Create.Wizard.{open_wizard}
use vexil.Flags.Create.Wizard.Sound
use vexil.Flags.Create.Wizard.Progress
use vexil.Flags.Create.Review.{review, success_text}
use vexil.Flags.Create.Review.Agrees.{Agrees, review-Agrees}
use vexil.Flags.Create.Wizard.Typed.{IsTyped, Reach-IsTyped}
use vexil.Flags.Create.Wizard.Invariant.{Reach-IsSound_wizard}

abbrev filled : Create.Form
filled = record blank_form {
  name = codes "dark-mode";
  cluster_id = codes "local";
  selector_labels = codes "app=shop";
}

abbrev place : Cluster
place = record {
  id = codes "local";
  display_name = codes "Local";
  api_server = codes "https://k8s";
  status = connected;
  kubernetes_version = none;
  discovered_workloads = 0;
}

abbrev offline : Host Text ℤ
offline = record {
  case = ascii_case;
  number = λ z. z;
  environ = [];
  fetch_flag = λ url. rejected;
  fetch_flags = λ url. rejected;
  is_directory = λ path. none;
  exists = λ path. false;
  read_file = λ path. none;
  read_dir = λ path. none;
  join_path = λ p q. p;
  parse_json = λ s. none;
  has_key = λ j k. none;
  get_key = λ j k. [];
  entries = λ j. none;
  to_text = λ j. none;
}

named :
    Wizard.Reach ascii_case open_wizard
      (Wizard.handle ascii_case (Wizard.type_name (codes "Dark")) open_wizard)
unfolding Wizard.offers
named = Wizard.next Wizard.here (Wizard.act (Wizard.type_name (codes "Dark")) refl)

Reach-IsTyped_example :
    IsTyped (Wizard.handle ascii_case (Wizard.type_name (codes "Dark")) open_wizard)
Reach-IsTyped_example = Reach-IsTyped ascii_case named

Reach-IsSound_wizard_example :
    Sound.IsSound (Wizard.handle ascii_case (Wizard.type_name (codes "Dark")) open_wizard)
Reach-IsSound_wizard_example = Reach-IsSound_wizard ascii_case named

abbrev names : List Text
names = codes "shop" ∷ (codes "default" ∷ [])

listed : Progress.CanFill ascii_case true names (place ∷ []) filled
unfolding Wizard.has_id fetch_namespaces offers_value can_proceed_step1 can_proceed_step2 text_eq
listed = record {
  name = ground arith;
  env_var_name = tt;
  value = refl;
  cluster = refl;
  namespace = refl;
  step1 = refl;
  step2 = refl;
}

fill-succeeds_example :
    (w : Wizard.Wizard) × Wizard.Reach ascii_case open_wizard w
    × (w.sent ≡ build_request filled ∷ [])
    × (w.step ≡ 4)
fill-succeeds_example = Progress.fill-succeeds ascii_case true names (place ∷ []) filled listed

review-Agrees_example : Agrees offline (review ascii_case filled) (build_request filled)
review-Agrees_example =
    review-Agrees offline filled (ground arith) (unfold can_proceed_step2 in refl)

report_of_any_name_example :
    (w : Wizard.Wizard) × Wizard.Reach ascii_case open_wizard w
    × (w.sent ≡ build_request filled ∷ [])
    × (w.step ≡ 4)
    × (success_text w.form ≡ codes "light-mode" ++ (codes " is now active in " ++ codes "default"))
report_of_any_name_example =
    Progress.report_of_any_name ascii_case true names (place ∷ []) filled (codes "light-mode")
      listed (ground arith)

-- A flag with a name only, and an application in which its variable is set.
abbrev dark : Wizard.Wizard
dark = Wizard.handle ascii_case (Wizard.type_name (codes "Dark")) open_wizard

abbrev home : List (Text × Text)
home = (codes "HOME", codes "/root") ∷ []

abbrev application : Host Text ℤ
application = record offline { environ = (codes "FLAG_DARK", codes "true") ∷ home }

abbrev env_client : Client
env_client = record { provider = env; address = []; config_path = [] }

home_only : lookup (env_name application dark.form.name) home ≡ none
unfolding env_name Wizard.handle Wizard.auto_select clean_name lookup text_eq upper_code
home_only = refl

set_up : application.environ ≡ (computed_env_var ascii_case dark.form, codes "true") ∷ home
unfolding Wizard.handle Wizard.auto_select clean_name computed_env_var upper_code lower_code
set_up = refl

announced-get_flag_iff_example :
    (get_flag application env_client dark.form.name
      ≡ some (string_flag dark.form.name (codes "true")))
    ↔ ((dark.form.env_var_name ≡ [])
        ⊎ (dark.form.env_var_name ≡ env_name application dark.form.name))
announced-get_flag_iff_example =
    announced-get_flag_iff application env_client dark (codes "true") home refl named home_only
      set_up
