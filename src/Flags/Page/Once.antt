-- ===== src/Flags/Page/Once.antt =====
-- How many requests web/src/app/flags/page.tsx makes for a question that it asks.
use vexil.Prelude.{ℕ, ◌+◌, ◌≤◌, ◌≡◌, refl, Option, none, some, List, [], ◌∷◌, maybe, arith}
use vexil.Types.{FeatureFlag}
use vexil.Flags.Page.{
  Page, Event, ask_delete, ask_toggle, confirm_delete, confirm_toggle, Effect, nothing, delete,
  toggle, handle, effect,
}
use vexil.Flags.Page.Dialogs.{open_page}

abbrev is_request : Effect → ℕ
is_request nothing = 0
is_request _ = 1

-- The requests that events make, one after another.
unfoldable pub requests : List Event → Page → ℕ
unfolding effect handle
requests [] p = 0
requests (e ∷ es) p = is_request (effect e p) + requests es (handle e p)

-- The dialogs that events open.
abbrev is_question : Event → ℕ
is_question (ask_delete f) = 1
is_question (ask_toggle f) = 1
is_question _ = 0

unfoldable pub questions : List Event → ℕ
questions [] = 0
questions (e ∷ es) = is_question e + questions es

abbrev one {ℓ} : {A : Type ℓ} → Option A → ℕ
one none = 0
one (some a) = 1

-- The dialogs that are open.
abbrev open_dialogs : Page → ℕ
open_dialogs p = one p.deleting_flag + one p.toggling_flag

delete_once :
    (o : Option FeatureFlag)
    → is_request (maybe o nothing λ f. delete f.namespace f.name f.cluster_id) ≡ one o
delete_once none = refl
delete_once (some f) = refl

toggle_once :
    (o : Option FeatureFlag)
    → is_request (maybe o nothing λ f. toggle f.namespace f.name f.cluster_id) ≡ one o
toggle_once none = refl
toggle_once (some f) = refl

-- An event makes no more requests than it closes dialogs, beyond those that it opens.
event_once :
    (e : Event) (p : Page)
    → is_request (effect e p) + open_dialogs (handle e p) ≤ is_question e + open_dialogs p
unfolding effect handle
event_once (ask_delete f) p = omega arith
event_once (ask_toggle f) p = omega arith
event_once confirm_delete p = omega (arith, delete_once p.deleting_flag)
event_once confirm_toggle p = omega (arith, toggle_once p.toggling_flag)
event_once _ p = omega arith

counted : (es : List Event) (p : Page) → requests es p ≤ questions es + open_dialogs p
unfolding requests questions
counted [] p = omega arith
counted (e ∷ es) p = omega (arith, event_once e p, counted es (handle e p))

-- From the opening of the page, whatever is clicked and typed, however often: there are no more
-- requests to delete and to toggle than dialogs that were opened to ask for one.
pub requests-questions : (es : List Event) → requests es open_page ≤ questions es
requests-questions es = omega (arith, counted es open_page)
