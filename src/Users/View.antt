-- ===== src/Users/View.antt =====
-- What the users panel of web/src/app/settings/page.tsx shows.
use vexil.Prelude.{
  Bool, not, ◌&&◌, Option, none, some, List, [], ◌∷◌, map, maybe, catch, is_empty, if◌then◌else◌,
}
use vexil.Text.{Text, codes, lookup}
use vexil.Flags.Mutation.{Mutation, failed, is_pending}
use vexil.Auth.{User}
use vexil.Users.{Panel, is_editing, is_admin, is_me}

-- An entry of the answer to `usersApi.list`.
pub record Account : Type 0 where
  pub username : Text
  pub role : Text
  pub created_at : Text

-- The inputs of the form for a new user, the message of its request, and whether its button is disabled.
pub record CreateForm : Type 0 where
  pub username : Text
  pub password : Text
  pub role : Text
  pub error : Option Text
  pub is_disabled : Bool

-- The form below a row; the role is there for an administrator.
pub record EditForm : Type 0 where
  pub password : Text
  pub role : Option Text
  pub error : Option Text
  pub is_disabled : Bool

pub record Row : Type 0 where
  pub username : Text
  pub role : Text
  pub badge : Text
  pub created : Text
  pub edit_title : Option Text
  pub can_delete : Bool
  pub form : Option EditForm

pub record Removal : Type 0 where
  pub username : Text
  pub error : Option Text
  pub is_disabled : Bool

pub data Body : Type 0 where
  loading no_users : Body
  table : List Row → Body

pub record View : Type 0 where
  pub create_button : Option Text
  pub create_form : Option CreateForm
  pub body : Body
  pub removal : Option Removal

-- `roleBadgeColors[role] || roleBadgeColors.viewer`, for a role that is no name of a property that
-- every object has.
abbrev pub viewer_badge : Text
viewer_badge = codes "bg-slate-500/15 text-slate-400 border-slate-500/20"

unfoldable pub badge_of : Text → Text
badge_of role =
    catch
      (lookup role (
        (codes "admin", codes "bg-indigo-500/15 text-indigo-400 border-indigo-500/20")
        ∷ ((codes "editor", codes "bg-amber-500/15 text-amber-400 border-amber-500/20")
            ∷ ((codes "viewer", viewer_badge) ∷ []))))
      viewer_badge

-- The message of a failed request.
abbrev pub message_of : Mutation → Option Text
message_of (failed message) = some message
message_of _ = none

unfoldable pub create_form_of : Panel → CreateForm
create_form_of s = record {
  username = s.new_username;
  password = s.new_password;
  role = s.new_role;
  error = message_of s.create_mutation;
  is_disabled = is_pending s.create_mutation;
}

unfoldable pub edit_form_of : Option User → Panel → EditForm
edit_form_of current s = record {
  password = s.edit_password;
  role = if is_admin current then some s.edit_role else none;
  error = message_of s.update_mutation;
  is_disabled = is_pending s.update_mutation;
}

-- The box that asks before a deletion; an empty name shows none.
unfoldable pub removal_of : Panel → Option Removal
removal_of s = maybe s.deleting_user none λ username.
    if is_empty username
    then none
    else some (record {
      username = username;
      error = message_of s.delete_mutation;
      is_disabled = is_pending s.delete_mutation;
    })

-- `date_text` is `new Date(createdAt).toLocaleDateString()`.
module _ (date_text : Text → Text) (current : Option User) (s : Panel) where
  unfoldable pub row : Account → Row
  unfolding badge_of edit_form_of
  row u = record {
    username = u.username;
    role = u.role;
    badge = badge_of u.role;
    created = date_text u.created_at;
    edit_title =
        if is_admin current
        then some (codes "Edit user")
        else if is_me current u.username
        then some (codes "Change password")
        else none;
    can_delete = is_admin current && not (is_me current u.username);
    form = if is_editing s u.username then some (edit_form_of current s) else none;
  }

  -- The list, while the first answer is awaited and behind it.
  unfoldable pub body_of : Bool → Option (List Account) → Body
  unfolding row
  body_of is_loading users =
      if is_loading
      then loading
      else maybe users no_users λ us. if is_empty us then no_users else table (map row us)

  unfoldable pub view : Bool → Option (List Account) → View
  unfolding create_form_of removal_of body_of
  view is_loading users = record {
    create_button =
        if is_admin current
        then some (if s.show_create then codes "Cancel" else codes "New user")
        else none;
    create_form = if s.show_create then some (create_form_of s) else none;
    body = body_of is_loading users;
    removal = removal_of s;
  }
