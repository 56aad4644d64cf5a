-- ===== src/Flags/Page.antt =====
-- web/src/app/flags/page.tsx: the list of the flags, its filters and its dialogs.
pub mod Filter
pub mod Dialogs
pub mod Table
pub mod Requests
pub mod Once
pub mod Confirm
use vexil.Prelude.{
  Bool, true, false, not, ◌&&◌, ◌||◌, Option, none, some, List, [], ◌∷◌, ◌++◌, maybe, keep,
  is_empty, is_some, if◌then◌else◌,
}
use vexil.Text.{Text, codes, text_eq}
use vexil.Text.Case.{CaseMapping}
use vexil.Text.Search.{includes}
use vexil.Types.{FlagType, boolean, FlagPhase, FeatureFlag, type_text, phase_text}

-- The part of the signed-in user that the page reads.
pub record Viewer : Type 0 where
  pub role : Option Text

abbrev pub is_admin : Viewer → Bool
is_admin v = maybe v.role false λ role. text_eq role (codes "admin")

abbrev pub can_edit : Viewer → Bool
can_edit v = maybe v.role true λ role. not (text_eq role (codes "viewer"))

pub record Page : Type 0 where
  pub show_create : Bool
  pub editing_flag : Option FeatureFlag
  pub deleting_flag : Option FeatureFlag
  pub toggling_flag : Option FeatureFlag
  pub search : Text
  pub filter_type : Text
  pub filter_phase : Text

-- `flag.phase || 'Pending'`.
abbrev pub shown_phase : Option FlagPhase → Text
shown_phase o = maybe o (codes "Pending") phase_text

module _ (case : CaseMapping) where
  -- `s.toLowerCase().includes(search.toLowerCase())`.
  unfoldable pub holds : Text → Text → Bool
  holds search s = includes (case.to_lower s) (case.to_lower search)

  unfoldable pub passes : Page → FeatureFlag → Bool
  passes p f =
      if not (is_empty p.search)
        && (not (holds p.search f.name)
            && (not (maybe f.description false (holds p.search))
                && not (holds p.search f.namespace)))
      then false
      else if not (is_empty p.filter_type) && not (text_eq (type_text f.type) p.filter_type)
      then false
      else if not (is_empty p.filter_phase) && not (text_eq (shown_phase f.phase) p.filter_phase)
      then false
      else true

  unfoldable pub filtered_flags : Page → List FeatureFlag → List FeatureFlag
  filtered_flags p flags = keep (passes p) flags

pub data Event : Type 0 where
  type_search select_type select_phase : Text → Event
  clear_search clear_filters open_create close_create : Event
  open_editor ask_delete ask_toggle : FeatureFlag → Event
  close_editor confirm_delete cancel_delete confirm_toggle cancel_toggle : Event

-- The request that an event makes.
pub data Effect : Type 0 where
  nothing : Effect
  delete toggle : (namespace name cluster_id : Text) → Effect

unfoldable pub handle : Event → Page → Page
handle (type_search t) p = record p { search = t }
handle (select_type t) p = record p { filter_type = t }
handle (select_phase t) p = record p { filter_phase = t }
handle clear_search p = record p { search = [] }
handle clear_filters p = record p { search = []; filter_type = []; filter_phase = [] }
handle open_create p = record p { show_create = true }
handle close_create p = record p { show_create = false }
handle (open_editor f) p = record p { editing_flag = some f }
handle (ask_delete f) p = record p { deleting_flag = some f }
handle (ask_toggle f) p = record p { toggling_flag = some f }
handle close_editor p = record p { editing_flag = none }
handle confirm_delete p = record p { deleting_flag = none }
handle cancel_delete p = record p { deleting_flag = none }
handle confirm_toggle p = record p { toggling_flag = none }
handle cancel_toggle p = record p { toggling_flag = none }

unfoldable pub effect : Event → Page → Effect
effect confirm_delete p = maybe p.deleting_flag nothing λ f. delete f.namespace f.name f.cluster_id
effect confirm_toggle p = maybe p.toggling_flag nothing λ f. toggle f.namespace f.name f.cluster_id
effect _ p = nothing

abbrev pub is_boolean : FlagType → Bool
is_boolean boolean = true
is_boolean _ = false

-- The controls that the page shows to this user. A row opens the editor for every user.
unfoldable pub offers : Viewer → Page → Event → Bool
offers v p open_create = can_edit v
offers v p (ask_toggle f) = can_edit v && is_boolean f.type
offers v p (ask_delete f) = is_admin v
offers v p close_create = p.show_create
offers v p close_editor = is_some p.editing_flag
offers v p confirm_delete = is_some p.deleting_flag
offers v p cancel_delete = is_some p.deleting_flag
offers v p confirm_toggle = is_some p.toggling_flag
offers v p cancel_toggle = is_some p.toggling_flag
offers v p clear_search = not (is_empty p.search)
offers v p clear_filters =
    not (is_empty p.search) || (not (is_empty p.filter_type) || not (is_empty p.filter_phase))
offers v p _ = true
