-- ===== src/Workloads/Steps.antt =====
-- The states of web/src/app/workloads/page.tsx that its controls lead to.
use vexil.Prelude.{◌≡◌, refl, ◌≢◌, ◌↔◌, true, false, not, none, List, [], ◌∷◌, arith, is_empty}
use vexil.Text.{Text, text_eq_iff}
use vexil.Text.Parts.{Lacks, cut_injective}
use vexil.Types.{Cluster, DiscoveredWorkload}
use vexil.Workloads.{
  Page, Event, clusters_loaded, namespaces_loaded, select_cluster, select_namespace, type_search,
  toggle_workload, open_page, auto_select, settle, workload_key, is_expanded, handle, offers,
}

pub data Reach : Page → Type 0 where
  start : Reach open_page
  step : {p : Page} (e : Event) → Reach p → offers p e ≡ true → Reach (handle e p)

-- Without a cluster nothing below it is chosen; a cluster that is the only one, and has an id, is.
pub record IsSettled (p : Page) : Type 0 where
  pub below :
      p.selected_cluster ≡ []
      → (p.selected_namespace ≡ []) × (p.expanded_workload ≡ none) × (p.namespaces ≡ [])
  pub chosen : (c : Cluster) → p.clusters ≡ c ∷ [] → c.id ≢ [] → p.selected_cluster ≢ []

auto_select-nil :
    (cs : List Cluster) (selected : Text) → auto_select cs selected ≡ [] → selected ≡ []
unfolding auto_select
auto_select-nil cs [] e = refl
auto_select-nil [] (a ∷ s) e = e
auto_select-nil (c ∷ []) (a ∷ s) e = e
auto_select-nil (c ∷ (d ∷ cs)) (a ∷ s) e = e

auto_select-chosen :
    (cs : List Cluster) (selected : Text) (c : Cluster)
    → cs ≡ c ∷ []
    → c.id ≢ []
    → auto_select cs selected ≢ []
unfolding auto_select
auto_select-chosen [] selected c e h = cc
auto_select-chosen (d ∷ []) [] c e h = λ z. h (let same : d ≡ c = cc in cc)
auto_select-chosen (d ∷ []) (a ∷ s) c e h = λ z. cc
auto_select-chosen (d ∷ (d' ∷ cs)) selected c e h = λ z. cc

settle-IsSettled :
    (p : Page)
    → (p.selected_cluster ≡ []
        → (p.selected_namespace ≡ []) × (p.expanded_workload ≡ none) × (p.namespaces ≡ []))
    → IsSettled (settle p)
settle-IsSettled p h = record {
  below = λ e. h (auto_select-nil p.clusters p.selected_cluster e);
  chosen = auto_select-chosen p.clusters p.selected_cluster;
}

selected : (s : Text) → not (is_empty s) ≡ true → s ≢ []
selected [] h e = cc
selected (c ∷ s) h e = cc

handle-IsSettled : (e : Event) (p : Page) → offers p e ≡ true → IsSettled p → IsSettled (handle e p)
unfolding handle offers
handle-IsSettled (clusters_loaded cs) p o h = settle-IsSettled (record p { clusters = cs }) h.below
handle-IsSettled (namespaces_loaded is_ok body) p o h = record {
  below = λ e. absurd (selected p.selected_cluster o e);
  chosen = h.chosen;
}
handle-IsSettled (select_cluster id) p o h = settle-IsSettled _ (λ e. (refl, refl, refl))
handle-IsSettled (select_namespace ns) p o h = record {
  below = λ e. absurd (selected p.selected_cluster (ground arith) e);
  chosen = h.chosen;
}
handle-IsSettled (type_search t) p o h = record { below = h.below; chosen = h.chosen }
handle-IsSettled (toggle_workload w) p o h = record {
  below = λ e. absurd (selected p.selected_cluster o e);
  chosen = h.chosen;
}

-- In every state that the controls of the page and the answers of its queries lead to: without a
-- cluster there is no namespace, no open card and no list of namespaces; and where exactly one
-- cluster is known, and it has an id, a cluster is chosen.
pub Reach-IsSettled : {p : Page} → Reach p → IsSettled p
Reach-IsSettled start = record { below = λ e. (refl, refl, refl); chosen = λ c e h. cc }
Reach-IsSettled (step {p} e r o) = handle-IsSettled e p o (Reach-IsSettled r)

-- After a card that is shut has been clicked on, the cards that are open are those of the same
-- namespace and name, of whatever kind the workload is, if the two namespaces hold no slash.
toggle-is_expanded_iff :
    (p : Page) (w v : DiscoveredWorkload)
    → is_expanded p w ≡ false
    → Lacks b'/' w.namespace
    → Lacks b'/' v.namespace
    → (is_expanded (handle (toggle_workload w) p) v ≡ true)
      ↔ ((w.namespace ≡ v.namespace) × (w.name ≡ v.name))
unfolding handle is_expanded
toggle-is_expanded_iff p w v shut h k =
    let (to, from) = text_eq_iff (workload_key w) (workload_key v) in
    rw shut (
      (λ e. cut_injective b'/' w.namespace v.namespace w.name v.name h k (to e)),
      λ (ns, name). from (rw (ns, name)),
    )
