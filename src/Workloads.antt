-- ===== src/Workloads.antt =====
-- web/src/app/workloads/page.tsx: the workloads of a cluster, and what a card shows of one.
pub mod Steps
pub mod Shown
pub mod Masked
use vexil.Prelude.{
  ℕ, Bool, true, false, not, ◌&&◌, ◌||◌, Option, none, some, List, [], ◌∷◌, ◌++◌, map, maybe, catch,
  keep, is_empty, length, ltb, if◌then◌else◌,
}
use vexil.Text.{Text, codes, text_eq, or_text, or_undefined}
use vexil.Text.Case.{CaseMapping}
use vexil.Types.{Cluster, WorkloadKind, EnvVarInfo, KeyRef, ContainerInfo, DiscoveredWorkload}
use vexil.Flags.Page.{holds}
use vexil.Api.Endpoints.{Endpoint, list_workloads}

-- `fetchNamespaces`: the answer's `ok`, and its body.
unfoldable pub fetch_namespaces : Bool → List Text → List Text
fetch_namespaces is_ok body = if not is_ok then [] else body

-- The state of the page, with the clusters and the namespaces that its queries hold.
pub record Page : Type 0 where
  pub selected_cluster : Text
  pub selected_namespace : Text
  pub expanded_workload : Option Text
  pub search : Text
  pub clusters : List Cluster
  pub namespaces : List Text

pub data Event : Type 0 where
  clusters_loaded : List Cluster → Event
  namespaces_loaded : (is_ok : Bool) → (body : List Text) → Event
  select_cluster select_namespace type_search : Text → Event
  toggle_workload : DiscoveredWorkload → Event

abbrev pub open_page : Page
open_page = record {
  selected_cluster = [];
  selected_namespace = [];
  expanded_workload = none;
  search = [];
  clusters = [];
  namespaces = [];
}

-- The effect that runs when the clusters or the chosen one change.
unfoldable pub auto_select : List Cluster → Text → Text
auto_select (c ∷ []) selected = if is_empty selected then c.id else selected
auto_select _ selected = selected

abbrev pub settle : Page → Page
settle p = record p { selected_cluster = auto_select p.clusters p.selected_cluster }

-- The key of a card.
abbrev pub workload_key : DiscoveredWorkload → Text
workload_key w = w.namespace ++ b'/' ∷ w.name

unfoldable pub is_expanded : Page → DiscoveredWorkload → Bool
is_expanded p w = maybe p.expanded_workload false λ key. text_eq key (workload_key w)

-- The handlers, each with the effect behind it. The query of the namespaces is another one for
-- another cluster, and holds nothing at first.
unfoldable pub handle : Event → Page → Page
unfolding fetch_namespaces is_expanded
handle (clusters_loaded cs) p = settle (record p { clusters = cs })
handle (namespaces_loaded is_ok body) p = record p { namespaces = fetch_namespaces is_ok body }
handle (select_cluster id) p = settle (record p {
  selected_cluster = id;
  selected_namespace = [];
  expanded_workload = none;
  namespaces = [];
})
handle (select_namespace ns) p = record p { selected_namespace = ns; expanded_workload = none }
handle (type_search t) p = record p { search = t }
handle (toggle_workload w) p = record p {
  expanded_workload = if is_expanded p w then none else some (workload_key w);
}

-- The query of the workloads, which is disabled until a cluster is chosen.
unfoldable pub query : {P : Type 0} → Page → Option (Endpoint P)
query p =
    if is_empty p.selected_cluster
    then none
    else some (list_workloads p.selected_cluster (or_undefined p.selected_namespace))

-- What that query has at hand: nothing yet, an exception with its message, or the workloads.
pub data Found : Type 0 where
  loading : Found
  failed : (message : Option Text) → Found
  loaded : List DiscoveredWorkload → Found

-- What stands below the fields.
pub data View : Type 0 where
  select_first scanning : View
  failure note : Text → View
  cards : List DiscoveredWorkload → View

module _ (case : CaseMapping) where
  unfoldable pub passes : Page → DiscoveredWorkload → Bool
  passes p w = is_empty p.search || (holds case p.search w.name || holds case p.search w.namespace)

  abbrev view_loaded : Page → List DiscoveredWorkload → View
  view_loaded p [] = note (
      if not (is_empty p.search)
      then codes "No workloads match your search"
      else codes "No workloads found. Only namespaces with FeatureFlags are shown.")
  view_loaded p (w ∷ ws) = cards (w ∷ ws)

  unfoldable pub view : Page → Found → View
  unfolding passes
  view p found = if is_empty p.selected_cluster then select_first else elim found [
    | loading ↦ scanning
    | failed message ↦ failure (or_text message (codes "Connection error"))
    | loaded workloads ↦ view_loaded p (keep (passes p) workloads)
  ]

-- The controls that the page shows, and the answers to its queries.
unfoldable pub offers : Page → Event → Bool
offers p (clusters_loaded cs) = true
offers p (namespaces_loaded is_ok body) = not (is_empty p.selected_cluster)
offers p (select_cluster id) = true
offers p (select_namespace ns) = not (is_empty p.selected_cluster) && ltb 0 (length p.namespaces)
offers p (type_search t) = not (is_empty p.selected_cluster)
offers p (toggle_workload w) = not (is_empty p.selected_cluster)

-- `WorkloadCard`: what it shows of a variable, a reference, a container and a workload.
abbrev pub env_text : EnvVarInfo → Text
env_text env = if env.is_masked then codes "(from secret)" else or_text env.value (codes "(empty)")

abbrev pub env_row : EnvVarInfo → Text × Text
env_row env = (env.name, env_text env)

abbrev pub ref_text : KeyRef → Text
ref_text ref = ref.name ++ maybe ref.key [] λ key. if is_empty key then [] else b'/' ∷ key

pub record ContainerCard : Type 0 where
  pub name : Text
  pub image : Text
  pub env_vars : List (Text × Text)
  pub config_map_refs : List Text

pub record Card : Type 0 where
  pub name : Text
  pub namespace : Text
  pub kind : WorkloadKind
  pub matching_flags : List Text
  pub replicas : ℕ
  pub containers : List ContainerCard

abbrev pub container_card : ContainerInfo → ContainerCard
container_card c = record {
  name = c.name;
  image = c.image;
  env_vars = map env_row (catch c.env_vars []);
  config_map_refs = map ref_text (catch c.config_map_refs []);
}

unfoldable pub card : DiscoveredWorkload → Card
card w = record {
  name = w.name;
  namespace = w.namespace;
  kind = w.kind;
  matching_flags = catch w.matching_flags [];
  replicas = catch w.replicas 0;
  containers = map container_card (catch w.containers []);
}
