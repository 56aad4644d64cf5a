-- ===== src/Tests/Pages.antt =====
-- The other pages and the sidebar, at concrete data.
use vexil.Prelude.{
  ◌≡◌, refl, ◌≢◌, ◌↔◌, ◌⊎◌, true, false, Option, none, some, List, [], ◌∷◌, ◌++◌, In, All, length,
}
use vexil.Text.{Text, codes}
use vexil.Text.Case.{ascii_case}
use vexil.Text.Decimal.{ℤ, pos, negsuc}
use vexil.Types
use vexil.Types.{
  Cluster, connected, disconnected, DiscoveredWorkload, deployment, AuditEvent, FeatureFlag,
  boolean,
}
use vexil.Flags.Page.{Viewer}
use vexil.Flags.Page.Filter.{Mentions}
use vexil.Text.Decimal.Print.{print}
use vexil.Flags.Page.Table
use vexil.Flags.Page.Table.Rows.{Accounts, view-Accounts}
use vexil.Workloads
use vexil.Workloads.Steps
use vexil.Workloads.Shown.{Shows, view-Shows_iff}
use vexil.Workloads.Masked.{redact, card-redact}
use vexil.Clusters.Cards
use vexil.Audit
use vexil.Audit.Filter.{Lists, Passes, view-Lists_iff}
use vexil.Overview
use vexil.Text.Search.{includes, starts_with}
use vexil.Text.Case.{lower_code}
use vexil.Sidebar
use vexil.Utils
use vexil.Utils.Bounds.{Tells, time_ago-Tells}

abbrev local : Cluster
local = record {
  id = codes "local";
  display_name = codes "Local";
  api_server = codes "https://k8s";
  status = connected;
  kubernetes_version = none;
  discovered_workloads = 1;
}

abbrev remote : Cluster
remote = record local { id = codes "remote"; status = disconnected }

abbrev shop : DiscoveredWorkload
shop = record {
  cluster = codes "local";
  namespace = codes "default";
  name = codes "shop";
  kind = deployment;
  replicas = some 2;
  labels = [];
  containers = some (
      record {
        name = codes "web";
        image = codes "shop:1";
        env_vars = some (
            record {
              name = codes "KEY";
              value = some (codes "secret");
              source = none;
              is_masked = true;
              is_flag = false;
              flag_name = none;
            }
            ∷ []);
        config_map_refs = none;
        secret_refs = [];
      }
      ∷ []);
  matching_flags = none;
}

abbrev found : Workloads.Page
found = Workloads.handle (Workloads.clusters_loaded (local ∷ [])) Workloads.open_page

Reach-IsSettled_example : Steps.IsSettled found
Reach-IsSettled_example = Steps.Reach-IsSettled (
    Steps.step (Workloads.clusters_loaded (local ∷ [])) Steps.start
      (unfold Workloads.offers in refl))

view-Shows_iff_example :
    Shows ascii_case (Workloads.view ascii_case found (Workloads.loaded (shop ∷ []))) shop ↔ (
      (found.selected_cluster ≢ [])
      × ((ws : List DiscoveredWorkload) × (Workloads.loaded (shop ∷ []) ≡ Workloads.loaded ws)
          × In shop ws
          × ((found.search ≡ [])
              ⊎ (Mentions ascii_case found.search shop.name
                  ⊎ Mentions ascii_case found.search shop.namespace))))
view-Shows_iff_example = view-Shows_iff ascii_case found (Workloads.loaded (shop ∷ [])) shop

abbrev other_secret : Text → Option Text
other_secret name = some (codes "another")

card-redact_example : Workloads.card (redact other_secret shop) ≡ Workloads.card shop
card-redact_example = card-redact other_secret shop

time_ago-Tells_example : Tells (Utils.time_ago (some (pos 7260000))) 7260000
time_ago-Tells_example = time_ago-Tells 7260000

-- Of a time to come, the seconds are told with their sign, however many they are.
time_ago_of_future : Utils.time_ago (some (negsuc 86399999)) ≡ codes "-86400s ago"
unfolding Utils.time_ago Utils.time_ago_seconds Utils.floor_div print
time_ago_of_future = refl

abbrev dark : FeatureFlag
dark = record {
  name = codes "dark-mode";
  namespace = codes "default";
  cluster_id = codes "local";
  description = none;
  type = boolean;
  default_value = codes "false";
  current_value = codes "false";
  phase = none;
  disabled = false;
  targeted_workloads = none;
  lifecycle = Types.active;
  delivery = none;
  rules = none;
  created_at = [];
  updated_at = none;
}

abbrev elapsed : Text → Option ℤ
elapsed t = some (pos (length t))

view-Accounts_example :
    Accounts ascii_case elapsed Overview.Counts.active_only
      (dark ∷ [])
      (Table.view ascii_case elapsed Overview.Counts.active_only (some (dark ∷ [])))
view-Accounts_example = view-Accounts ascii_case elapsed Overview.Counts.active_only dark []

abbrev guest : Viewer
guest = record { role = none }

stats-clusters_iff_example :
    ((Overview.stats [] (local ∷ (remote ∷ []))).clusters
      ≡ Overview.Counts.greens (Cards.view guest (some (local ∷ (remote ∷ [])))))
    × ((Cards.heading (some (local ∷ (remote ∷ [])))
          ≡ print (Overview.stats [] (local ∷ (remote ∷ []))).clusters
            ++ codes " connected clusters")
        ↔ All (λ c. Cards.is_connected c ≡ true) (local ∷ (remote ∷ [])))
stats-clusters_iff_example = Overview.Counts.stats-clusters_iff guest [] (local ∷ (remote ∷ []))

abbrev deletion : AuditEvent
deletion = record {
  id = codes "1";
  timestamp = codes "2024-01-01";
  actor = none;
  action = codes "delete";
  resource = codes "flag";
  resource_id = codes "default/dark-mode";
  cluster = none;
}

abbrev verbatim : Text → Text
verbatim t = t

abbrev deletions : Audit.Page
deletions = record { search = codes "dark"; filter_action = codes "delete" }

view-Lists_iff_example :
    Lists ascii_case verbatim
      (Audit.view ascii_case verbatim deletions (some (deletion ∷ [])))
      (Audit.event_row verbatim deletion)
    ↔ ((e : AuditEvent) × In e (deletion ∷ [])
        × Passes ascii_case verbatim deletions e
        × (Audit.event_row verbatim e ≡ Audit.event_row verbatim deletion))
view-Lists_iff_example =
    view-Lists_iff ascii_case verbatim deletions (deletion ∷ []) (Audit.event_row verbatim deletion)

abbrev searching : Sidebar.Bar
searching = record (Sidebar.open_bar (codes "/")) { search_open = true; search = codes "Node" }

-- The third page has `node` among its keywords.
node_found : (Sidebar.handle ascii_case Sidebar.press_enter searching).pathname ≡ codes "/clusters"
unfolding Sidebar.handle Sidebar.filtered Sidebar.matches includes starts_with lower_code
    Sidebar.enter Sidebar.handle_select Sidebar.navigate
node_found = refl

two_hours : Utils.time_ago (some (pos 7260000)) ≡ codes "2h ago"
unfolding Utils.time_ago Utils.time_ago_seconds Utils.floor_div print
two_hours = refl

two_connected : Cards.heading (some (local ∷ (remote ∷ []))) ≡ codes "2 connected clusters"
unfolding Cards.heading print
two_connected = refl

masked :
    (Workloads.card shop).containers
    ≡ record {
      name = codes "web";
      image = codes "shop:1";
      env_vars = (codes "KEY", codes "(from secret)") ∷ [];
      config_map_refs = [];
    }
      ∷ []
unfolding Workloads.card
masked = refl
