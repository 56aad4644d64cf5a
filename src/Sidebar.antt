-- ===== src/Sidebar.antt =====
-- web/src/components/layout/Sidebar.tsx: the navigation, the search of the pages and the logout.
pub mod Palette
pub mod Active
pub mod Leave
pub mod View
use vexil.Prelude.{
  Bool, true, false, not, ◌&&◌, ◌||◌, Option, none, some, List, [], ◌∷◌, ◌++◌, maybe, keep,
  is_empty, if◌then◌else◌,
}
use vexil.Text.{Text, codes, text_eq}
use vexil.Text.Case.{CaseMapping}
use vexil.Text.Search.{starts_with, includes}
use vexil.Auth.{UserJson, Session, logout, is_signed_in}

pub record Item : Type 0 where
  pub name : Text
  pub href : Text
  pub keywords : List Text

abbrev pub navigation : List Item
navigation =
    record {
      name = codes "Dashboard";
      href = codes "/";
      keywords = codes "home" ∷ (codes "overview" ∷ []);
    }
    ∷ (record {
      name = codes "Feature Flags";
      href = codes "/flags";
      keywords = codes "toggle" ∷ (codes "flag" ∷ (codes "feature" ∷ []));
    }
        ∷ (record {
          name = codes "Clusters";
          href = codes "/clusters";
          keywords = codes "cluster" ∷ (codes "node" ∷ (codes "kubernetes" ∷ []));
        }
            ∷ (record {
              name = codes "Workloads";
              href = codes "/workloads";
              keywords =
                  codes "deployment" ∷ (codes "pod" ∷ (codes "workload" ∷ (codes "app" ∷ [])));
            }
                ∷ (record {
                  name = codes "Audit Log";
                  href = codes "/audit";
                  keywords =
                      codes "audit" ∷ (codes "log" ∷ (codes "history" ∷ (codes "event" ∷ [])));
                }
                    ∷ (record {
                      name = codes "Settings";
                      href = codes "/settings";
                      keywords = codes "settings" ∷ (codes "config" ∷ (codes "preferences" ∷ []));
                    }
                        ∷ [])))))

pub record Bar : Type 0 where
  pub pathname : Text
  pub search_open : Bool
  pub search : Text
  pub mobile_open : Bool

pub data Event : Type 0 where
  press_ctrl_k press_escape open_search close_search press_enter : Event
  type_search select_item follow_link visit : Text → Event
  open_mobile close_mobile : Event

abbrev pub open_bar : Text → Bar
open_bar pathname = record {
  pathname = pathname;
  search_open = false;
  search = [];
  mobile_open = false;
}

-- A change of the path, with the effect that closes the menu on it.
unfoldable pub navigate : Text → Bar → Bar
navigate href b = record b {
  pathname = href;
  mobile_open = if text_eq b.pathname href then b.mobile_open else false;
}

abbrev pub shut : Bar → Bar
shut b = record b { search_open = false; search = [] }

unfoldable pub handle_select : Text → Bar → Bar
unfolding navigate
handle_select href b = shut (navigate href b)

-- `xs.some(p)`.
abbrev pub any {ℓ} : {A : Type ℓ} → (A → Bool) → List A → Bool
any p [] = false
any p (x ∷ xs) = p x || any p xs

-- `isActive` of the navigation.
unfoldable pub is_active : Text → Item → Bool
unfolding starts_with
is_active pathname item =
    text_eq pathname item.href
    || (not (text_eq item.href (codes "/")) && starts_with pathname item.href)

module _ (case : CaseMapping) where
  unfoldable pub matches : Text → Item → Bool
  matches search item =
      if is_empty search
      then true
      else includes (case.to_lower item.name) (case.to_lower search)
        || any (λ k. includes k (case.to_lower search)) item.keywords

  unfoldable pub filtered : Text → List Item
  filtered search = keep (matches search) navigation

  -- The Enter key, with the items that the search leaves.
  unfoldable pub enter : List Item → Bar → Bar
  unfolding handle_select
  enter [] b = b
  enter (item ∷ items) b = handle_select item.href b

  unfoldable pub handle : Event → Bar → Bar
  unfolding handle_select navigate enter
  handle press_ctrl_k b = if b.search_open then shut b else record b { search_open = true }
  handle press_escape b = if b.search_open then shut b else b
  handle open_search b = record b { search_open = true }
  handle close_search b = shut b
  handle press_enter b = enter (filtered b.search) b
  handle (type_search t) b = record b { search = t }
  handle (select_item href) b = handle_select href b
  handle (follow_link href) b = navigate href b
  handle (visit path) b = navigate path b
  handle open_mobile b = record b { mobile_open = true }
  handle close_mobile b = record b { mobile_open = false }

-- The field and the list of the search are shown while it is open. The keys are heard everywhere.
unfoldable pub offers : Bar → Event → Bool
offers b press_enter = b.search_open
offers b (type_search t) = b.search_open
offers b (select_item href) = b.search_open
offers b _ = true

-- `handleLogout` from its call to its end, behind the answer: the session, the path, and the token of the request that is made. An
-- exception of that request is caught in `authApi.logout`.
pub record Left : Type 0 where
  pub session : Session
  pub pathname : Text
  pub called : Option Text

unfoldable pub handle_logout : UserJson → Session → Left
unfolding logout
handle_logout json s = record {
  session = logout json s;
  pathname = codes "/login";
  called = if is_signed_in s.store.token then s.store.token else none;
}
