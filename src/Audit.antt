-- ===== src/Audit.antt =====
-- web/src/app/audit/page.tsx: the log of the changes, with its search and its filter.
pub mod Filter
use vexil.Prelude.{
  Bool, true, false, not, ◌&&◌, Option, none, some, List, [], ◌∷◌, maybe, map, keep, is_empty,
  if◌then◌else◌,
}
use vexil.Text.{Text, codes, text_eq, or_text}
use vexil.Text.Case.{CaseMapping}
use vexil.Types.{AuditEvent}
use vexil.Flags.Page.{holds}

pub record Page : Type 0 where
  pub search : Text
  pub filter_action : Text

-- The options of the filter; the first stands for all actions.
abbrev pub actions : List Text
actions = [] ∷ (codes "create" ∷ (codes "update" ∷ (codes "delete" ∷ (codes "toggle" ∷ []))))

pub record Row : Type 0 where
  pub key : Text
  pub time : Text
  pub action : Text
  pub resource : Text
  pub resource_id : Text
  pub cluster : Text

pub data View : Type 0 where
  loading no_events : View
  table : List Row → View

-- `format` is `formatDate`, which the runtime carries out.
unfoldable pub event_row : (Text → Text) → AuditEvent → Row
event_row format event = record {
  key = event.id;
  time = format event.timestamp;
  action = event.action;
  resource = event.resource;
  resource_id = event.resource_id;
  cluster = or_text event.cluster (codes "-");
}

module _ (case : CaseMapping) where
  unfoldable pub passes : Page → AuditEvent → Bool
  passes p e =
      if not (is_empty p.search)
        && (not (holds case p.search e.resource_id) && not (holds case p.search e.resource))
      then false
      else if not (is_empty p.filter_action) && not (text_eq e.action p.filter_action)
      then false
      else true

  abbrev rows : (Text → Text) → List AuditEvent → View
  rows format [] = no_events
  rows format (e ∷ es) = table (map (event_row format) (e ∷ es))

  -- The table of the events, or `none` while they are loading; after an error the list is empty.
  unfoldable pub view : (Text → Text) → Page → Option (List AuditEvent) → View
  unfolding passes event_row
  view format p none = loading
  view format p (some events) = rows format (keep (passes p) events)
