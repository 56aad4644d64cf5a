-- ===== src/Flags/Page/Dialogs.antt =====
-- Who can make web/src/app/flags/page.tsx send a request that deletes or toggles a flag.
use vexil.Prelude.{
  ◌≡◌, refl, Bool, true, false, ◌&&◌, Option, none, some, maybe, is_some, [], arith,
}
use vexil.Types.{FeatureFlag}
use vexil.Flags.Page.{
  Viewer, is_admin, can_edit, is_boolean, Page, Event, type_search, select_type, select_phase,
  clear_search, clear_filters, open_create, close_create, open_editor, ask_delete, ask_toggle,
  close_editor, confirm_delete, cancel_delete, confirm_toggle, cancel_toggle, Effect, nothing,
  delete, toggle, handle, effect, offers,
}

-- `useState` at the first rendering.
abbrev pub open_page : Page
open_page = record {
  show_create = false;
  editing_flag = none;
  deleting_flag = none;
  toggling_flag = none;
  search = [];
  filter_type = [];
  filter_phase = [];
}

pub data Reach (v : Viewer) : Page → Type 0 where
  start : Reach v open_page
  step : {p : Page} (e : Event) → Reach v p → offers v p e ≡ true → Reach v (handle e p)

-- The flags that the two dialogs ask about may be deleted and toggled by this user.
pub record IsAllowed (v : Viewer) (p : Page) : Type 0 where
  pub deleting : is_some p.deleting_flag ≡ true → is_admin v ≡ true
  pub creating : p.show_create ≡ true → can_edit v ≡ true
  pub toggling :
      (f : FeatureFlag)
      → p.toggling_flag ≡ some f
      → (can_edit v ≡ true) × (is_boolean f.type ≡ true)

both : {a b : Bool} → (a && b) ≡ true → (a ≡ true) × (b ≡ true)
both {a} {b} e = ground arith

handle-IsAllowed :
    (v : Viewer) (p : Page) (e : Event)
    → IsAllowed v p
    → offers v p e ≡ true
    → IsAllowed v (handle e p)
unfolding handle offers
handle-IsAllowed v p (type_search t) i o = record {
  deleting = i.deleting;
  creating = i.creating;
  toggling = i.toggling;
}
handle-IsAllowed v p (select_type t) i o = record {
  deleting = i.deleting;
  creating = i.creating;
  toggling = i.toggling;
}
handle-IsAllowed v p (select_phase t) i o = record {
  deleting = i.deleting;
  creating = i.creating;
  toggling = i.toggling;
}
handle-IsAllowed v p clear_search i o = record {
  deleting = i.deleting;
  creating = i.creating;
  toggling = i.toggling;
}
handle-IsAllowed v p clear_filters i o = record {
  deleting = i.deleting;
  creating = i.creating;
  toggling = i.toggling;
}
handle-IsAllowed v p open_create i o = record {
  deleting = i.deleting;
  creating = λ e. o;
  toggling = i.toggling;
}
handle-IsAllowed v p close_create i o = record {
  deleting = i.deleting;
  creating = λ e. cc;
  toggling = i.toggling;
}
handle-IsAllowed v p (open_editor f) i o = record {
  deleting = i.deleting;
  creating = i.creating;
  toggling = i.toggling;
}
handle-IsAllowed v p (ask_delete f) i o = record {
  deleting = λ e. o;
  creating = i.creating;
  toggling = i.toggling;
}
handle-IsAllowed v p (ask_toggle f) i o = record {
  deleting = i.deleting;
  creating = i.creating;
  toggling = λ g e. let (c, b) = both o in (c, cc);
}
handle-IsAllowed v p close_editor i o = record {
  deleting = i.deleting;
  creating = i.creating;
  toggling = i.toggling;
}
handle-IsAllowed v p confirm_delete i o = record {
  deleting = λ e. cc;
  creating = i.creating;
  toggling = i.toggling;
}
handle-IsAllowed v p cancel_delete i o = record {
  deleting = λ e. cc;
  creating = i.creating;
  toggling = i.toggling;
}
handle-IsAllowed v p confirm_toggle i o = record {
  deleting = i.deleting;
  creating = i.creating;
  toggling = λ f e. cc;
}
handle-IsAllowed v p cancel_toggle i o = record {
  deleting = i.deleting;
  creating = i.creating;
  toggling = λ f e. cc;
}

pub Reach-IsAllowed : {v : Viewer} {p : Page} → Reach v p → IsAllowed v p
Reach-IsAllowed start = record { deleting = λ e. cc; creating = λ e. cc; toggling = λ f e. cc }
Reach-IsAllowed {v} (step {p} e r o) = handle-IsAllowed v p e (Reach-IsAllowed r) o

-- What the user must be for a request to leave the page.
abbrev pub Allowed : Viewer → Page → Effect → Type 0
Allowed v p nothing = Unit
Allowed v p (delete n m c) = is_admin v ≡ true
Allowed v p (toggle n m c) =
    (f : FeatureFlag) × (p.toggling_flag ≡ some f)
    × (f.name ≡ m)
    × (f.namespace ≡ n)
    × (f.cluster_id ≡ c)
    × (can_edit v ≡ true)
    × (is_boolean f.type ≡ true)

delete-Allowed :
    (v : Viewer) (p : Page) (o : Option FeatureFlag)
    → (is_some o ≡ true → is_admin v ≡ true)
    → Allowed v p (maybe o nothing λ f. delete f.namespace f.name f.cluster_id)
delete-Allowed v p none h = tt
delete-Allowed v p (some f) h = h refl

toggle-Allowed :
    (v : Viewer) (p : Page) (o : Option FeatureFlag)
    → p.toggling_flag ≡ o
    → ((f : FeatureFlag) → o ≡ some f → (can_edit v ≡ true) × (is_boolean f.type ≡ true))
    → Allowed v p (maybe o nothing λ f. toggle f.namespace f.name f.cluster_id)
toggle-Allowed v p none e h = tt
toggle-Allowed v p (some f) e h = let (c, b) = h f refl in (f, e, refl, refl, refl, c, b)

-- In every state that the controls of the page lead to, a request that an event makes is allowed:
-- a delete request is made for an administrator only; a toggle request for a user who can
-- edit, of the flag that the dialog shows, by its names, and of a boolean flag.
pub effect-Allowed : {v : Viewer} {p : Page} (e : Event) → Reach v p → Allowed v p (effect e p)
unfolding effect
effect-Allowed {v} {p} confirm_delete r =
    delete-Allowed v p p.deleting_flag (Reach-IsAllowed r).deleting
effect-Allowed {v} {p} confirm_toggle r =
    toggle-Allowed v p p.toggling_flag refl (Reach-IsAllowed r).toggling
effect-Allowed (type_search t) r = tt
effect-Allowed (select_type t) r = tt
effect-Allowed (select_phase t) r = tt
effect-Allowed clear_search r = tt
effect-Allowed clear_filters r = tt
effect-Allowed open_create r = tt
effect-Allowed close_create r = tt
effect-Allowed (open_editor f) r = tt
effect-Allowed (ask_delete f) r = tt
effect-Allowed (ask_toggle f) r = tt
effect-Allowed close_editor r = tt
effect-Allowed cancel_delete r = tt
effect-Allowed cancel_toggle r = tt
