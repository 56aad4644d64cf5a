-- ===== src/Clusters/Cards.antt =====
-- The heading and the cards of web/src/app/clusters/page.tsx.
use vexil.Prelude.{
  ℕ, Bool, true, false, Option, none, some, List, [], ◌∷◌, ◌++◌, map, length, if◌then◌else◌,
}
use vexil.Text.{Text, codes, or_undefined}
use vexil.Text.Decimal.Print.{print}
use vexil.Types.{Cluster, ClusterStatus, connected, disconnected, error}
use vexil.Flags.Page.{Viewer, is_admin}
use vexil.Clusters.{Removal}

-- `${clusters?.length || 0} connected clusters`.
unfoldable pub heading : Option (List Cluster) → Text
heading none = print 0 ++ codes " connected clusters"
heading (some cs) = print (length cs) ++ codes " connected clusters"

abbrev pub is_connected : Cluster → Bool
is_connected c = elim c.status [ connected ↦ true | _ ↦ false ]

abbrev pub cluster_status_text : ClusterStatus → Text
cluster_status_text connected = codes "Connected"
cluster_status_text disconnected = codes "Disconnected"
cluster_status_text error = codes "Error"

pub record Card : Type 0 where
  pub key : Text
  pub name : Text
  pub id : Text
  pub is_green : Bool
  pub status : Text
  pub version : Option Text
  pub workloads : ℕ
  pub removal : Option Removal

abbrev given : Option Text → Option Text
given none = none
given (some s) = or_undefined s

unfoldable pub card : Viewer → Cluster → Card
card v c = record {
  key = c.id;
  name = c.display_name;
  id = c.id;
  is_green = is_connected c;
  status = cluster_status_text c.status;
  version = given c.kubernetes_version;
  workloads = c.discovered_workloads;
  removal = if is_admin v then some (record { id = c.id; name = c.display_name }) else none;
}

pub data View : Type 0 where
  loading no_clusters : View
  cards : List Card → View

-- `none` while the clusters are loading; after an error the page has an empty list of them.
unfoldable pub view : Viewer → Option (List Cluster) → View
unfolding card
view v none = loading
view v (some []) = no_clusters
view v (some (c ∷ cs)) = cards (map (card v) (c ∷ cs))
