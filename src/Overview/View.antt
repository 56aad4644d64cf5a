-- ===== src/Overview/View.antt =====
-- What the dashboard of web/src/app/page.tsx shows, while its lists are loaded and behind it.
use vexil.Prelude.{
  ℕ, ◌≡◌, refl, ◌↔◌, ◌≤◌, ◌<◌, subst, Option, none, some, List, [], ◌∷◌, map, catch, length,
  length-map, arith,
}
use vexil.Text.{Text, codes}
use vexil.Text.Slice.{take, length-take}
use vexil.Text.Decimal.{ℤ}
use vexil.Types.{FeatureFlag, Cluster, AuditEvent}
use vexil.Overview.{
  Stats, stats, FlagRow, flag_row, EventRow, ClusterRow, cluster_row, recent_flags, recent_events,
}

pub record StatCard : Type 0 where
  pub name : Text
  pub value : ℕ

-- A part with a list is `none` where the list is empty or not there yet: the flags and the activity
-- have a line of text instead, the clusters nothing.
pub record View : Type 0 where
  pub cards : List StatCard
  pub flags : Option (List FlagRow)
  pub activity : Option (List EventRow)
  pub clusters : Option (List ClusterRow)

-- `xs && xs.length > 0 ? f(xs) : ...`.
unfoldable pub unless_empty : {A B : Type 0} → (List A → B) → Option (List A) → Option B
unless_empty f none = none
unless_empty f (some []) = none
unless_empty f (some (x ∷ xs)) = some (f (x ∷ xs))

unfoldable pub stat_cards : Stats → List StatCard
stat_cards s =
    record { name = codes "Total Flags"; value = s.total_flags }
    ∷ (record { name = codes "Active Flags"; value = s.active_flags }
        ∷ (record { name = codes "Clusters"; value = s.clusters }
            ∷ (record { name = codes "Targeted Workloads"; value = s.targeted_workloads } ∷ [])))

unfoldable pub view :
    (Text → Option ℤ)
    → Option (List FeatureFlag)
    → Option (List Cluster)
    → Option (List AuditEvent)
    → View
unfolding unless_empty stat_cards
view elapsed flags clusters audit = record {
  cards = stat_cards (stats (catch flags []) (catch clusters []));
  flags = unless_empty recent_flags flags;
  activity = unless_empty (recent_events elapsed) audit;
  clusters = unless_empty (map cluster_row) clusters;
}

recent_flags_short :
    (f : FeatureFlag) (fs : List FeatureFlag) (rows : List FlagRow)
    → some (recent_flags (f ∷ fs)) ≡ some rows
    → (0 < length rows) × (length rows ≤ 6)
unfolding recent_flags
recent_flags_short f fs rows e =
    let same : recent_flags (f ∷ fs) ≡ rows = cc in
    subst (λ (rs : List FlagRow). (0 < length rs) × (length rs ≤ 6)) same
      (omega arith, omega (arith, length-map flag_row (take 5 fs), length-take 5 fs))

module _ (elapsed : Text → Option ℤ) (clusters : Option (List Cluster))
    (audit : Option (List AuditEvent)) where
  -- The flags are replaced by the line `No flags yet` exactly if the card counts none, so also while
  -- they are loaded; otherwise between one and six of them are shown.
  view-flags :
      (flags : Option (List FeatureFlag))
      → (((view elapsed flags clusters audit).flags ≡ none)
          ↔ ((stats (catch flags []) (catch clusters [])).total_flags ≡ 0))
        × ((rows : List FlagRow)
            → (view elapsed flags clusters audit).flags ≡ some rows
            → (0 < length rows) × (length rows ≤ 6))
  unfolding view unless_empty stats
  view-flags none = (((λ e. refl), λ e. refl), λ rows e. cc)
  view-flags (some []) = (((λ e. refl), λ e. refl), λ rows e. cc)
  view-flags (some (f ∷ fs)) =
      (((λ e. cc), λ e. absurd (omega (arith, e))), λ rows e. recent_flags_short f fs rows e)
