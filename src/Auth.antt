-- ===== src/Auth.antt =====
-- web/src/lib/auth.ts, web/src/app/providers.tsx and web/src/app/login/page.tsx: the session of the
-- dashboard. The store of zustand and the browser's storage are two copies of it.
pub mod Laws
pub mod View
pub mod Guard
pub mod Expired
use vexil.Prelude.{
  Bool, true, false, not, ◌&&◌, ◌||◌, ◌≡◌, Option, none, some, List, [], ◌∷◌, ◌++◌, maybe, ◌>>=◌,
  is_empty, is_some, if◌then◌else◌,
}
use vexil.Text.{Text, codes, text_eq, or_text, or_else, lookup, insert, erase}
use vexil.Api.{Browser, token_key, user_key, sign_out}
use vexil.Flags.Mutation

pub record User : Type 0 where
  pub username : Text
  pub role : Text

pub record Store : Type 0 where
  pub token : Option Text
  pub user : Option User

-- `JSON.stringify` of a user and `JSON.parse` of what is stored, of which the outer `none` is an
-- exception and the inner one null. What is written is read back.
pub record UserJson : Type 0 where
  pub stringify : User → Text
  pub parse : Text → Option (Option User)
  pub parse-stringify : (u : User) → parse (stringify u) ≡ some (some u)
  pub parse-null : parse (codes "null") ≡ some none
  pub stringify-ne-nil : (u : User) → is_empty (stringify u) ≡ false

-- The dashboard in a browser: the page's storage and the store.
pub record Session : Type 0 where
  pub storage : List (Text × Text)
  pub store : Store

module _ (json : UserJson) where
  -- The state that a load of the page creates from the storage; `none` is an exception.
  unfoldable pub load : List (Text × Text) → Option Store
  load storage = do
    user ← json.parse (or_text (lookup user_key storage) (codes "null"))
    some (record { token = lookup token_key storage; user = user })

  unfoldable pub set_auth : Text → User → Session → Session
  set_auth token user s = record {
    storage = insert user_key (json.stringify user) (insert token_key token s.storage);
    store = record { token = some token; user = some user };
  }

  unfoldable pub logout : Session → Session
  logout s = record {
    storage = erase user_key (erase token_key s.storage);
    store = record { token = none; user = none };
  }

-- The answer to `authApi.login`: an exception of `fetch`, or a response with its `ok` and what
-- `res.json()` reads. `error_of` is the property `error` of an answer that is not null.
pub data LoginAnswer (J : Type 0) : Type 0 where
  unreachable : Text → LoginAnswer J
  refused : (error : Option J) → LoginAnswer J
  accepted : (token : Text) → (user : User) → LoginAnswer J

unfoldable pub login_message : {J : Type 0} → (J → Option Text) → LoginAnswer J → Option Text
login_message error_of (unreachable message) = some message
login_message error_of (refused none) = some (codes "Login failed")
login_message error_of (refused (some error)) =
    some (or_text (error_of error) (codes "Login failed"))
login_message error_of (accepted token user) = none

pub record LoginPage : Type 0 where
  pub username : Text
  pub password : Text
  pub error : Text
  pub loading : Bool
  pub session : Session
  pub location : Text

module _ (json : UserJson) {J : Type 0} (error_of : J → Option Text) where
  -- `handleSubmit` up to its `await`, and behind it.
  unfoldable pub submit_login : LoginPage → LoginPage
  submit_login p = record p { error = []; loading = true }

  unfoldable pub finish_login : LoginAnswer J → LoginPage → LoginPage
  unfolding set_auth login_message
  finish_login (accepted token user) p = record p {
    session = set_auth json token user p.session;
    location = codes "/";
    loading = false;
  }
  finish_login answer p = record p {
    error = or_text (login_message error_of answer) [];
    loading = false;
  }

-- `AuthGuard` of web/src/app/providers.tsx.
pub record GuardState : Type 0 where
  pub ready : Bool
  pub pathname : Text

-- `!token`.
abbrev pub is_signed_in : Option Text → Bool
is_signed_in none = false
is_signed_in (some token) = not (is_empty token)

-- The effect, which runs when the token or the path changes; a redirect changes the path.
unfoldable pub guard_effect : Option Text → GuardState → GuardState
guard_effect token g =
    let on_login = text_eq g.pathname (codes "/login") in
    if not (is_signed_in token) && not on_login
    then record g { pathname = codes "/login" }
    else if is_signed_in token && on_login
    then record g { pathname = codes "/" }
    else record g { ready = true }

-- What the guard renders: nothing, the page alone, or the page beside the sidebar.
pub data Shown : Type 0 where
  nothing children framed : Shown

unfoldable pub guard_view : GuardState → Shown
guard_view g =
    if not g.ready
    then nothing
    else if text_eq g.pathname (codes "/login")
    then children
    else framed
