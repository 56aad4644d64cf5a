-- ===== src/App.antt =====
-- The dashboard as one machine: the session of web/src/lib/auth.ts, the guard of
-- web/src/app/providers.tsx, the form of web/src/app/login/page.tsx, the logout of
-- web/src/components/layout/Sidebar.tsx, and the answer 401 of web/src/lib/api-client.ts. What the
-- code starts and does not wait for is a state of its own: a navigation of the router, a load of
-- another page, the run of the effect behind a rendering, and each answer.
pub mod Guarded
pub mod Progress
pub mod Authorized
use vexil.Prelude.{
  ℕ, ◌+◌, ◌-◌, Bool, true, false, not, ◌&&◌, ◌||◌, Option, none, some, List, [], ◌∷◌, ◌>>=◌, maybe,
  is_some, is_empty, ltb, if◌then◌else◌,
}
use vexil.Text.{Text, codes, text_eq}
use vexil.Api.{Browser, sign_out}
use vexil.Auth.{
  User, UserJson, Store, Session, load, set_auth, logout, LoginAnswer, accepted, LoginPage,
  submit_login, finish_login, GuardState, is_signed_in, guard_effect, Shown, nothing, children,
  framed, guard_view,
}

-- The form of the login page, with the session and the path that `usePathname` gives.
pub record App : Type 0 where
  pub login : LoginPage
  -- `ready` of the guard, and whether its effect has to run, for another token or path.
  pub ready : Bool
  pub due : Bool
  -- The navigation that the router was asked for last, while it is under way, and the address that
  -- the browser is leaving for.
  pub redirect : Option Text
  pub leaving : Option Text
  -- The logins that a form which is gone has sent, and the logouts, while they are pending.
  pub late_logins : ℕ
  pub logouts : ℕ

pub data Event (J : Type 0) : Type 0 where
  type_username type_password : Text → Event J
  submit click_logout : Event J
  answer late_answer : LoginAnswer J → Event J
  logout_answered : Event J
  -- A link or a page of the search; the buttons of the browser's history.
  follow travel : Text → Event J
  -- The effect of the guard runs; the router arrives.
  run_effect arrive : Event J
  -- An answer 401; the load that it starts; the address bar or the button to reload.
  refuse leave : Event J
  load_address : Text → Event J

abbrev pub token_of : App → Option Text
token_of a = a.login.session.store.token

abbrev pub guard_of : App → GuardState
guard_of a = record { ready = a.ready; pathname = a.login.location }

abbrev pub shown : App → Shown
shown a = guard_view (guard_of a)

-- The browser that the page runs in.
abbrev pub browser_of : App → Browser
browser_of a = record {
  has_window = true;
  storage = a.login.session.storage;
  location = a.login.location;
}

abbrev pub same_token : Option Text → Option Text → Bool
same_token none none = true
same_token (some s) (some t) = text_eq s t
same_token _ _ = false

abbrev pub blank_login : Session → Text → LoginPage
blank_login session location = record {
  username = [];
  password = [];
  error = [];
  loading = false;
  session = session;
  location = location;
}

-- A change of the session, after which the effect runs if the token is another one.
abbrev pub with_session : Session → App → App
with_session s a = record a {
  login = record a.login { session = s };
  due = a.due || not (same_token a.login.session.store.token s.store.token);
}

-- The effect: where it calls the router, the path that it asks for, and otherwise `ready`.
unfoldable pub effect : App → App
unfolding guard_effect
effect a =
    let g = guard_effect (token_of a) (guard_of a) in
    record a {
      ready = g.ready;
      due = false;
      redirect = if text_eq g.pathname a.login.location then a.redirect else some g.pathname;
    }

-- The router arrives. Another path has another page, with a form of its own, and the effect runs.
unfoldable pub arrive_at : Text → App → App
arrive_at path a =
    if text_eq path a.login.location then record a { redirect = none } else record a {
      login = blank_login a.login.session path;
      due = true;
      redirect = none;
      late_logins = if a.login.loading then a.late_logins + 1 else a.late_logins;
    }

-- `logout(); router.replace('/login')`.
unfoldable pub leave_session : UserJson → App → App
unfolding logout
leave_session json a = record (with_session (logout json a.login.session) a) {
  redirect = some (codes "/login");
}

module _ (json : UserJson) where
  -- The page is loaded; `none` is an exception of the store.
  unfoldable pub open_app : List (Text × Text) → Text → Option App
  open_app storage location = load json storage >>= λ (store : Store). some (record {
    login = blank_login (record { storage = storage; store = store }) location;
    ready = false;
    due = true;
    redirect = none;
    leaving = none;
    late_logins = 0;
    logouts = 0;
  })

  module _ {J : Type 0} (error_of : J → Option Text) where
    -- The rest of `handleSubmit` behind its `await`: `router.replace` asks for a navigation.
    unfoldable pub finish_submit : LoginAnswer J → App → App
    unfolding finish_login
    finish_submit (accepted token user) a =
        let p = finish_login json error_of (accepted token user) a.login in
        record (with_session p.session a) {
          login = record p { location = a.login.location };
          redirect = some p.location;
        }
    finish_submit r a = record a { login = finish_login json error_of r a.login }

    -- The same for a form that is gone: only the session and the router are left.
    unfoldable pub finish_unmounted : LoginAnswer J → App → App
    unfolding set_auth
    finish_unmounted (accepted token user) a =
        record (with_session (set_auth json token user a.login.session) a) {
          redirect = some (codes "/");
          late_logins = a.late_logins - 1;
        }
    finish_unmounted r a = record a { late_logins = a.late_logins - 1 }

    -- An event that does not happen in a state leaves it as it is.
    unfoldable pub handle : Event J → App → Option App
    unfolding effect arrive_at leave_session open_app finish_submit finish_unmounted sign_out
    handle (type_username t) a = some (record a { login = record a.login { username = t } })
    handle (type_password t) a = some (record a { login = record a.login { password = t } })
    handle submit a = some (record a { login = submit_login json error_of a.login })
    handle (answer r) a = some (finish_submit r a)
    handle (late_answer r) a = some (finish_unmounted r a)
    handle click_logout a = some (
        if is_signed_in (token_of a)
        then record a { logouts = a.logouts + 1 }
        else leave_session json a)
    handle logout_answered a = some (leave_session json (record a { logouts = a.logouts - 1 }))
    handle (follow href) a = some (record a { redirect = some href })
    handle (travel path) a = some (record a { redirect = some path })
    handle run_effect a = some (effect a)
    handle arrive a = some (maybe a.redirect a λ path. arrive_at path a)
    handle refuse a =
        let b = sign_out (browser_of a) in
        some (record a {
          login = record a.login { session = record a.login.session { storage = b.storage } };
          leaving = some b.location;
        })
    handle leave a = maybe a.leaving (some a) (open_app a.login.session.storage)
    handle (load_address location) a = open_app a.login.session.storage location

-- Whether the login page is shown, and whether a page with the sidebar is.
abbrev is_login : Shown → Bool
is_login children = true
is_login _ = false

abbrev is_framed : Shown → Bool
is_framed framed = true
is_framed _ = false

-- The controls that are shown, and what is under way. The two fields are required, and the button is
-- disabled while the request is pending. A request of a page may be answered with 401 also when
-- another page is shown.
unfoldable pub offers : {J : Type 0} → App → Event J → Bool
offers a (type_username t) = is_login (shown a)
offers a (type_password t) = is_login (shown a)
offers a submit =
    is_login (shown a)
    && (not a.login.loading && (not (is_empty a.login.username) && not (is_empty a.login.password)))
offers a (answer r) = a.login.loading
offers a (late_answer r) = ltb 0 a.late_logins
offers a click_logout = is_framed (shown a)
offers a logout_answered = ltb 0 a.logouts
offers a (follow href) = is_framed (shown a)
offers a run_effect = a.due
offers a arrive = is_some a.redirect
offers a leave = is_some a.leaving
offers a _ = true
