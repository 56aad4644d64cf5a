-- ===== src/Users.antt =====
-- The users panel of web/src/app/settings/page.tsx.
pub mod Safety
pub mod Editing
pub mod View
pub mod Shown
use vexil.Prelude.{
  Bool, true, false, not, ◌&&◌, ◌||◌, Option, none, some, List, [], ◌∷◌, ◌++◌, maybe, is_some,
  is_empty, if◌then◌else◌,
}
use vexil.Text.{Text, codes, text_eq, or_undefined}
use vexil.Flags.Mutation.{Mutation, idle, pending, succeeded, failed, is_pending}
use vexil.Auth.{User}

-- The body of an update; a field that is `none` is left out.
pub record Changes : Type 0 where
  pub password : Option Text
  pub role : Option Text

pub data Request : Type 0 where
  create : (username password role : Text) → Request
  update : (username : Text) → Changes → Request
  delete : (username : Text) → Request

pub record Panel : Type 0 where
  pub show_create : Bool
  pub editing_user : Option Text
  pub deleting_user : Option Text
  pub new_username : Text
  pub new_password : Text
  pub new_role : Text
  pub edit_password : Text
  pub edit_role : Text
  pub edit_original_role : Text
  pub create_mutation : Mutation
  pub update_mutation : Mutation
  pub delete_mutation : Mutation
  pub sent : List Request

pub data Event : Type 0 where
  toggle_create submit_create cancel_edit confirm_delete cancel_delete : Event
  type_username type_password select_role type_edit_password select_edit_role : Text → Event
  press_edit : User → Event
  submit_update ask_delete : (username : Text) → Event
  create_succeeded update_succeeded delete_succeeded : Event
  create_failed update_failed delete_failed : Text → Event

abbrev pub open_panel : Panel
open_panel = record {
  show_create = false;
  editing_user = none;
  deleting_user = none;
  new_username = [];
  new_password = [];
  new_role = codes "viewer";
  edit_password = [];
  edit_role = [];
  edit_original_role = [];
  create_mutation = idle;
  update_mutation = idle;
  delete_mutation = idle;
  sent = [];
}

-- The object that `handleUpdate` fills, and whether it has a key.
unfoldable pub build_changes : Panel → Changes
build_changes s = record {
  password = or_undefined s.edit_password;
  role =
      if not (is_empty s.edit_role) && not (text_eq s.edit_role s.edit_original_role)
      then some s.edit_role
      else none;
}

abbrev pub has_changes : Changes → Bool
has_changes c = is_some c.password || is_some c.role

unfoldable pub start_editing : User → Panel → Panel
start_editing user s = record s {
  editing_user = some user.username;
  edit_password = [];
  edit_role = user.role;
  edit_original_role = user.role;
}

-- `editingUser === username`.
abbrev pub is_editing : Panel → Text → Bool
is_editing s username = maybe s.editing_user false (text_eq username)

unfoldable pub handle_update : Text → Panel → Panel
unfolding build_changes
handle_update username s =
    if has_changes (build_changes s)
    then record s {
      update_mutation = pending;
      sent = s.sent ++ update username (build_changes s) ∷ [];
    }
    else s

-- The state that the panel sees of a request that is answered, unless it has been reset.
abbrev pub settled : Mutation → Mutation → Mutation
settled m result = if is_pending m then result else m

unfoldable pub handle : Event → Panel → Panel
unfolding start_editing handle_update
handle toggle_create s = record s { show_create = not s.show_create; create_mutation = idle }
handle (type_username t) s = record s { new_username = t }
handle (type_password t) s = record s { new_password = t }
handle (select_role t) s = record s { new_role = t }
handle submit_create s = record s {
  create_mutation = pending;
  sent = s.sent ++ create s.new_username s.new_password s.new_role ∷ [];
}
handle (press_edit user) s =
    if is_editing s user.username then record s { editing_user = none } else start_editing user s
handle (type_edit_password t) s = record s { edit_password = t }
handle (select_edit_role t) s = record s { edit_role = t }
handle (submit_update username) s = handle_update username s
handle cancel_edit s = record s { editing_user = none }
handle (ask_delete username) s = record s { deleting_user = some username }
handle confirm_delete s =
    maybe s.deleting_user s
      λ username. record s { delete_mutation = pending; sent = s.sent ++ delete username ∷ [] }
handle cancel_delete s = record s { deleting_user = none; delete_mutation = idle }
handle create_succeeded s = record s {
  create_mutation = settled s.create_mutation succeeded;
  show_create = false;
  new_username = [];
  new_password = [];
  new_role = codes "viewer";
}
handle update_succeeded s = record s {
  update_mutation = settled s.update_mutation succeeded;
  editing_user = none;
  edit_password = [];
  edit_role = [];
}
handle delete_succeeded s = record s {
  delete_mutation = settled s.delete_mutation succeeded;
  deleting_user = none;
}
handle (create_failed message) s = record s {
  create_mutation = settled s.create_mutation (failed message);
}
handle (update_failed message) s = record s {
  update_mutation = settled s.update_mutation (failed message);
}
handle (delete_failed message) s = record s {
  delete_mutation = settled s.delete_mutation (failed message);
}

abbrev pub is_admin : Option User → Bool
is_admin current = maybe current false λ u. text_eq u.role (codes "admin")

-- `username === currentUser?.username`.
abbrev pub is_me : Option User → Text → Bool
is_me current username = maybe current false λ u. text_eq username u.username

-- The controls that are shown and not disabled, with the required fields of the form. An answer
-- may come at any time, also for a request before a `reset`.
unfoldable pub offers : Option User → Panel → Event → Bool
offers current s toggle_create = is_admin current
offers current s (type_username t) = s.show_create
offers current s (type_password t) = s.show_create
offers current s (select_role t) = s.show_create
offers current s submit_create =
    s.show_create
    && (not (is_pending s.create_mutation)
        && (not (is_empty s.new_username) && not (is_empty s.new_password)))
offers current s (press_edit user) = is_admin current || is_me current user.username
offers current s (type_edit_password t) = is_some s.editing_user
offers current s (select_edit_role t) = is_some s.editing_user && is_admin current
offers current s (submit_update username) =
    is_editing s username && not (is_pending s.update_mutation)
offers current s cancel_edit = is_some s.editing_user
offers current s (ask_delete username) = is_admin current && not (is_me current username)
offers current s confirm_delete = is_some s.deleting_user && not (is_pending s.delete_mutation)
offers current s cancel_delete = is_some s.deleting_user
offers current s _ = true
