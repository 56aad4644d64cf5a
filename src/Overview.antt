-- ===== src/Overview.antt =====
-- web/src/app/page.tsx: the numbers, the recent flags and events, and the clusters of the dashboard.
pub mod Counts
pub mod View
use vexil.Prelude.{
  ℕ, zero, suc, ◌+◌, Bool, true, false, not, ◌&&◌, Option, none, some, List, [], ◌∷◌, ◌++◌, map,
  maybe, catch, keep, length, ltb, is_empty, if◌then◌else◌,
}
use vexil.Text.{Text, codes, text_eq}
use vexil.Text.Slice.{take, shorten}
use vexil.Text.Decimal.{ℤ}
use vexil.Types.{FlagType, FlagPhase, FeatureFlag, Cluster, AuditEvent, type_text, phase_text}
use vexil.Flags.Page.{shown_phase}
use vexil.Clusters.Cards.{is_connected}
use vexil.Utils.{time_ago}

-- `f.phase === 'Active'`.
abbrev pub is_active : FeatureFlag → Bool
is_active f = maybe f.phase false λ phase. text_eq (phase_text phase) (codes "Active")

-- `xs.reduce((acc, x) => acc + w(x), acc)`.
abbrev pub reduce {ℓ} : {A : Type ℓ} → (A → ℕ) → ℕ → List A → ℕ
reduce w acc [] = acc
reduce w acc (x ∷ xs) = reduce w (acc + w x) xs

pub record Stats : Type 0 where
  pub total_flags : ℕ
  pub active_flags : ℕ
  pub clusters : ℕ
  pub targeted_workloads : ℕ

unfoldable pub stats : List FeatureFlag → List Cluster → Stats
stats flags clusters = record {
  total_flags = length flags;
  active_flags = length (keep is_active flags);
  clusters = length (keep is_connected clusters);
  targeted_workloads = reduce (λ (f : FeatureFlag). catch f.targeted_workloads 0) 0 flags;
}

-- The colour of the dot in front of a flag.
pub data Dot : Type 0 where
  off on other : Dot

abbrev pub dot : FeatureFlag → Dot
dot f =
    if f.disabled
    then off
    else if text_eq f.default_value (codes "true")
    then on
    else if text_eq f.default_value (codes "false")
    then off
    else other

pub record FlagRow : Type 0 where
  pub key : Text
  pub dot : Dot
  pub name : Text
  pub place : Text
  pub value : Text
  pub phase : Text

unfoldable pub flag_row : FeatureFlag → FlagRow
flag_row f = record {
  key = f.namespace ++ b'/' ∷ f.name;
  dot = dot f;
  name = f.name;
  place = f.namespace ++ (codes " / " ++ type_text f.type);
  value = shorten 20 f.default_value;
  phase = shown_phase f.phase;
}

pub record EventRow : Type 0 where
  pub key : Text
  pub action : Text
  pub resource : Text
  pub resource_id : Text
  pub time : Text

-- `elapsed` is what `new Date` and the clock make of a timestamp.
abbrev pub event_row : (Text → Option ℤ) → AuditEvent → EventRow
event_row elapsed event = record {
  key = event.id;
  action = event.action;
  resource = event.resource;
  resource_id = event.resource_id;
  time = time_ago (elapsed event.timestamp);
}

pub record ClusterRow : Type 0 where
  pub key : Text
  pub is_green : Bool
  pub name : Text
  pub id : Text
  pub workloads : ℕ

unfoldable pub cluster_row : Cluster → ClusterRow
cluster_row c = record {
  key = c.id;
  is_green = is_connected c;
  name = c.display_name;
  id = c.id;
  workloads = c.discovered_workloads;
}

unfoldable pub recent_flags : List FeatureFlag → List FlagRow
unfolding flag_row
recent_flags flags = map flag_row (take 6 flags)

unfoldable pub recent_events : (Text → Option ℤ) → List AuditEvent → List EventRow
recent_events elapsed audit = map (event_row elapsed) (take 8 audit)
