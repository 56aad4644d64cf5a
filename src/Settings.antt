-- ===== src/Settings.antt =====
-- The tabs of web/src/app/settings/page.tsx and the switches for the notifications. Users is about
-- the panel of the users.
pub mod Tabs
use vexil.Prelude.{
  ℕ, zero, suc, ◌≡◌, refl, Bool, true, false, not, ◌&&◌, Option, none, some, List, [], ◌∷◌, map,
  length, if◌then◌else◌,
}
use vexil.Text.{Text, codes}
use vexil.Text.Decimal.Print.{print}
use vexil.Types.{Cluster}

pub data Tab : Type 0 where
  general auth notifications api database : Tab

-- `ToggleSetting`.
pub record Toggle : Type 0 where
  pub label : Text
  pub checked : Bool

abbrev pub defaults : List Toggle
defaults =
    record { label = codes "Flag changes"; checked = true }
    ∷ (record { label = codes "Cluster events"; checked = true }
        ∷ (record { label = codes "Rollout progress"; checked = false }
            ∷ (record { label = codes "Policy violations"; checked = true } ∷ [])))

-- The tab that is shown, and the switches, which have a state only while they are shown.
pub record Page : Type 0 where
  pub active_tab : Tab
  pub toggles : List Toggle

pub data Event : Type 0 where
  select_tab : Tab → Event
  press_toggle : (index : ℕ) → Event

-- The components that a tab shows when it is opened.
unfoldable pub shown_toggles : Tab → List Toggle
shown_toggles notifications = defaults
shown_toggles _ = []

abbrev pub open_page : Page
open_page = record { active_tab = general; toggles = [] }

abbrev pub same_tab : Tab → Tab → Bool
same_tab general general = true
same_tab auth auth = true
same_tab notifications notifications = true
same_tab api api = true
same_tab database database = true
same_tab _ _ = false

unfoldable pub press : ℕ → List Toggle → List Toggle
press n [] = []
press zero (t ∷ ts) = record t { checked = not t.checked } ∷ ts
press (suc n) (t ∷ ts) = t ∷ press n ts

-- React keeps the state of what is still shown, and drops that of what is not.
unfoldable pub handle : Event → Page → Page
unfolding shown_toggles press
handle (select_tab tab) p =
    if same_tab tab p.active_tab
    then p
    else record { active_tab = tab; toggles = shown_toggles tab }
handle (press_toggle n) p = record p { toggles = press n p.toggles }

unfoldable pub run : List Event → Page → Page
unfolding handle
run [] p = p
run (e ∷ es) p = run es (handle e p)

-- `String(clusters?.length || 0)`, the row `Connected Clusters`.
unfoldable pub connected_clusters : Option (List Cluster) → Text
connected_clusters none = print 0
connected_clusters (some cs) = print (length cs)
