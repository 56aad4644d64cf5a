-- ===== src/App/Guarded.antt =====
-- What always holds of the session of the dashboard, and what a load of the page shows.
use vexil.Prelude.{
  ◌+◌, ◌-◌, >>=-eq-some, ◌≡◌, refl, sym, ap, ◌∙◌, subst, ◌↔◌, ◌⊎◌, inl, inr, true, false, not,
  Option, none, some, List, maybe, maybe, Bool-cases, Option-cases, if◌then◌else◌, arith,
}
use vexil.Text.{Text, codes, text_eq, text_eq_refl, text_eq_iff}
use vexil.Api.{sign_out}
use vexil.Auth.{
  UserJson, Store, load, LoginAnswer, unreachable, refused, accepted, submit_login, finish_login,
  is_signed_in, guard_effect, nothing, children, framed, guard_view,
}
use vexil.Auth.Laws.{Agrees, set_auth-Agrees, logout-Agrees, load-sign_out}
use vexil.App.{
  App, Event, type_username, type_password, submit, click_logout, answer, late_answer,
  logout_answered, follow, travel, run_effect, arrive, refuse, leave, load_address, browser_of,
  token_of, shown, blank_login, effect, arrive_at, leave_session, open_app, finish_submit,
  finish_unmounted, handle, offers,
}

-- The session has expired: the storage holds none any more, and the page is being left for the login.
abbrev pub IsExpired : UserJson → App → Type 0
IsExpired json a =
    (load json a.login.session.storage ≡ some (record { token = none; user = none }))
    × (a.leaving ≡ some (codes "/login"))

-- A page with the sidebar is shown exactly with a token, the login page exactly without.
abbrev pub Fits : App → Type 0
Fits a =
    ((shown a ≡ framed) ↔ (is_signed_in (token_of a) ≡ true))
    × ((shown a ≡ children) ↔ (is_signed_in (token_of a) ≡ false))

-- The effect runs, the router follows the redirect, if there is one, and the effect runs again.
abbrev follow_up : App → App
follow_up b = maybe b.redirect b λ path. effect (arrive_at path b)

abbrev pub settle : App → App
settle a = follow_up (effect a)

abbrev pub opened : List (Text × Text) → Store → Text → App
opened storage store path = record {
  login = blank_login (record { storage = storage; store = store }) path;
  ready = false;
  due = true;
  redirect = none;
  leaving = none;
  late_logins = 0;
  logouts = 0;
}

-- A load of a page of the dashboard from what is stored now: it shows nothing until the guard has run,
-- and what fits the stored token behind that.
abbrev pub Reloads : UserJson → App → Text → Type 0
Reloads json a path =
    (b : App) × (open_app json a.login.session.storage path ≡ some b)
    × Agrees json b.login.session
    × (shown b ≡ nothing)
    × Fits (settle b)

abbrev pub IsKept : UserJson → App → Type 0
IsKept json a = Agrees json a.login.session ⊎ IsExpired json a

pub record IsGuarded (json : UserJson) (a : App) : Type 0 where
  pub kept : IsKept json a
  pub reloads : (path : Text) → Reloads json a path

-- The three cases of the effect: what is shown fits, or the router is asked for the other page.
pub effect_stays :
    (a : App)
    → text_eq a.login.location (codes "/login") ≡ not (is_signed_in (token_of a))
    → effect a ≡ record a { ready = true; due = false }
unfolding effect guard_effect
effect_stays a h = elim (Bool-cases (is_signed_in (token_of a))) [
  | inl inside ↦
      let elsewhere : text_eq a.login.location (codes "/login") ≡ false = h ∙ ap not inside in
      rw (inside, elsewhere, text_eq_refl a.login.location) refl
  | inr outside ↦
      let at_login : text_eq a.login.location (codes "/login") ≡ true = h ∙ ap not outside in
      rw (outside, at_login, text_eq_refl a.login.location) refl
]

pub effect_enters :
    (a : App)
    → is_signed_in (token_of a) ≡ true
    → text_eq a.login.location (codes "/login") ≡ true
    → effect a ≡ record a { due = false; redirect = some (codes "/") }
unfolding effect guard_effect
effect_enters a inside at_login =
    let there : text_eq (codes "/") a.login.location ≡ false =
      rw ((text_eq_iff a.login.location (codes "/login")).0 at_login) (unfold text_eq in refl) in
    rw (inside, at_login, there) refl

text_eq_comm : (s t : Text) → text_eq s t ≡ false → text_eq t s ≡ false
text_eq_comm s t h = ground (arith, text_eq_iff s t, text_eq_iff t s)

pub effect_leaves :
    (a : App)
    → is_signed_in (token_of a) ≡ false
    → text_eq a.login.location (codes "/login") ≡ false
    → effect a ≡ record a { due = false; redirect = some (codes "/login") }
unfolding effect guard_effect
effect_leaves a outside elsewhere =
    rw (outside, elsewhere, text_eq_comm a.login.location (codes "/login") elsewhere) refl

-- A path that another page is on.
abbrev pub moved : Text → App → App
moved path a = record a {
  login = blank_login a.login.session path;
  due = true;
  redirect = none;
  late_logins = if a.login.loading then a.late_logins + 1 else a.late_logins;
}

pub arrive_at_moves :
    (path : Text) (a : App)
    → text_eq path a.login.location ≡ false
    → arrive_at path a ≡ moved path a
unfolding arrive_at
arrive_at_moves path a h = rw h refl

view_iff :
    (a : App)
    → a.ready ≡ true
    → ((shown a ≡ framed) ↔ (text_eq a.login.location (codes "/login") ≡ false))
      × ((shown a ≡ children) ↔ (text_eq a.login.location (codes "/login") ≡ true))
unfolding guard_view
view_iff a r = ground arith

pub ready-Fits :
    (a : App)
    → a.ready ≡ true
    → text_eq a.login.location (codes "/login") ≡ not (is_signed_in (token_of a))
    → Fits a
ready-Fits a r h = let (inside, outside) = view_iff a r in ground (arith, inside, outside, h)

effect-Fits :
    (a : App)
    → text_eq a.login.location (codes "/login") ≡ not (is_signed_in (token_of a))
    → Fits (effect a)
effect-Fits a h =
    subst Fits (sym (effect_stays a h)) (ready-Fits (record a { ready = true; due = false }) refl h)

settle_stays :
    (a : App)
    → a.redirect ≡ none
    → text_eq a.login.location (codes "/login") ≡ not (is_signed_in (token_of a))
    → Fits (settle a)
settle_stays a r h =
    subst (λ b. Fits (follow_up b)) (sym (effect_stays a h))
      (rw r (ready-Fits (record a { ready = true; due = false }) refl h))

settle_moves :
    (a b : App) (path : Text)
    → effect a ≡ record b { redirect = some path }
    → text_eq path b.login.location ≡ false
    → text_eq path (codes "/login") ≡ not (is_signed_in (token_of b))
    → Fits (settle a)
settle_moves a b path e h k =
    let c = record b { redirect = some path } in
    subst (λ x. Fits (follow_up x)) (sym e)
      (subst (λ x. Fits (effect x)) (sym (arrive_at_moves path c h)) (effect-Fits (moved path c) k))

opened-Fits :
    (storage : List (Text × Text)) (store : Store) (path : Text)
    → Fits (settle (opened storage store path))
opened-Fits storage store path =
    let a = opened storage store path in
    elim (Bool-cases (is_signed_in store.token)) [
      | inl inside ↦ elim (Bool-cases (text_eq path (codes "/login"))) [
        | inl at_login ↦
            settle_moves a (record a { due = false }) (codes "/") (effect_enters a inside at_login)
              (rw ((text_eq_iff path (codes "/login")).0 at_login) (unfold text_eq in refl))
              (rw inside (unfold text_eq in refl))
        | inr elsewhere ↦ settle_stays a refl (elsewhere ∙ sym (ap not inside))
      ]
      | inr outside ↦ elim (Bool-cases (text_eq path (codes "/login"))) [
        | inl at_login ↦ settle_stays a refl (at_login ∙ sym (ap not outside))
        | inr elsewhere ↦
            settle_moves a (record a { due = false }) (codes "/login")
              (effect_leaves a outside elsewhere) (text_eq_comm path (codes "/login") elsewhere)
              (rw outside (text_eq_refl (codes "/login")))
      ]
    ]

load-Reloads :
    (json : UserJson) (a : App) (store : Store) (path : Text)
    → load json a.login.session.storage ≡ some store
    → Reloads json a path
unfolding open_app guard_view
load-Reloads json a store path h = (
  opened a.login.session.storage store path,
  rw h refl,
  h,
  refl,
  opened-Fits a.login.session.storage store path,
)

pub IsKept-load :
    (json : UserJson) (a : App)
    → IsKept json a
    → (store : Store) × (load json a.login.session.storage ≡ some store)
IsKept-load json a (inl agrees) = (_, agrees)
IsKept-load json a (inr expired) = (_, expired.0)

kept-IsGuarded : (json : UserJson) (a : App) → IsKept json a → IsGuarded json a
kept-IsGuarded json a h = record {
  kept = h;
  reloads =
      λ path. let (store, loads) = IsKept-load json a h in load-Reloads json a store path loads;
}

-- A step that the code makes without an exception, to a state that keeps the session.
abbrev Runs : UserJson → Option App → Type 0
Runs json r = (b : App) × (r ≡ some b) × IsKept json b

open_app-Runs :
    (json : UserJson) (a : App) (path : Text)
    → IsKept json a
    → Runs json (open_app json a.login.session.storage path)
open_app-Runs json a path h =
    let (store, loads) = IsKept-load json a h in
    let (b, e, agrees, _, _) = load-Reloads json a store path loads in (b, e, inl agrees)

module _ (json : UserJson) {J : Type 0} (error_of : J → Option Text) where
  finish_submit-IsKept :
      (r : LoginAnswer J) (a : App) → IsKept json a → IsKept json (finish_submit json error_of r a)
  unfolding finish_submit finish_login
  finish_submit-IsKept (accepted token user) a h =
      inl (set_auth-Agrees json token user a.login.session)
  finish_submit-IsKept (refused error) a h = h
  finish_submit-IsKept (unreachable message) a h = h

  finish_unmounted-IsKept :
      (r : LoginAnswer J) (a : App)
      → IsKept json a
      → IsKept json (finish_unmounted json error_of r a)
  unfolding finish_unmounted
  finish_unmounted-IsKept (accepted token user) a h =
      inl (set_auth-Agrees json token user a.login.session)
  finish_unmounted-IsKept (refused error) a h = h
  finish_unmounted-IsKept (unreachable message) a h = h

  leave_session-IsKept : (a : App) → IsKept json (leave_session json a)
  unfolding leave_session
  leave_session-IsKept a = inl (logout-Agrees json a.login.session)

  logout-IsKept :
      (a : App)
      → IsKept json a
      → IsKept json (
          if is_signed_in (token_of a)
          then record a { logouts = a.logouts + 1 }
          else leave_session json a)
  logout-IsKept a h = elim (Bool-cases (is_signed_in (token_of a))) [
    | inl inside ↦ rw inside h
    | inr outside ↦ rw outside (leave_session-IsKept a)
  ]

  arrive-IsKept : (path : Text) (a : App) → IsKept json a → IsKept json (arrive_at path a)
  unfolding arrive_at
  arrive-IsKept path a h = elim (Bool-cases (text_eq path a.login.location)) [
    | inl same ↦ rw same h
    | inr other ↦ rw other h
  ]

  leave-Runs :
      (a : App) (o : Option Text)
      → IsKept json a
      → Runs json (maybe o (some a) (open_app json a.login.session.storage))
  leave-Runs a none h = (_, refl, h)
  leave-Runs a (some path) h = open_app-Runs json a path h

  handle-Runs : (e : Event J) (a : App) → IsKept json a → Runs json (handle json error_of e a)
  unfolding handle submit_login effect sign_out
  handle-Runs (type_username t) a h = (_, refl, h)
  handle-Runs (type_password t) a h = (_, refl, h)
  handle-Runs submit a h = (_, refl, h)
  handle-Runs (answer r) a h = (_, refl, finish_submit-IsKept r a h)
  handle-Runs (late_answer r) a h = (_, refl, finish_unmounted-IsKept r a h)
  handle-Runs click_logout a h = (_, refl, logout-IsKept a h)
  handle-Runs logout_answered a h =
      (_, refl, leave_session-IsKept (record a { logouts = a.logouts - 1 }))
  handle-Runs (follow href) a h = (_, refl, h)
  handle-Runs (travel path) a h = (_, refl, h)
  handle-Runs run_effect a h = (_, refl, h)
  handle-Runs arrive a h = elim (Option-cases a.redirect) [
    | inl resting ↦ rw resting (_, refl, h)
    | inr (path, asked) ↦ rw asked (_, refl, arrive-IsKept path a h)
  ]
  handle-Runs refuse a h = (_, refl, inr (load-sign_out json (browser_of a), refl))
  handle-Runs leave a h = leave-Runs a a.leaving h
  handle-Runs (load_address path) a h = open_app-Runs json a path h

  -- The states from a first load of the page, which may fail, of whatever is stored.
  pub data Reach : App → Type 0 where
    start :
        (storage : List (Text × Text)) (location : Text) {a : App}
        → open_app json storage location ≡ some a
        → Reach a
    step :
        {a b : App} (e : Event J)
        → Reach a
        → offers a e ≡ true
        → handle json error_of e a ≡ some b
        → Reach b

  same-IsKept : {a b : App} → some a ≡ some b → IsKept json a → IsKept json b
  same-IsKept {a} {b} e h = let same : a ≡ b = cc in subst (IsKept json) same h

  start-IsKept :
      (storage : List (Text × Text)) (location : Text) {a : App}
      → open_app json storage location ≡ some a
      → IsKept json a
  unfolding open_app
  start-IsKept storage location {a} e =
      let (store, loads, made) = >>=-eq-some (load json storage) _ e in same-IsKept made (inl loads)

  Reach-IsKept : {a : App} → Reach a → IsKept json a
  Reach-IsKept (start storage location e) = start-IsKept storage location e
  Reach-IsKept (step {a} e r o h) =
      let (b, f, g) = handle-Runs e a (Reach-IsKept r) in same-IsKept (sym f ∙ h) g

  -- In every state of the dashboard that a first load of the page leads to, by any clicks, inputs,
  -- answers early and late, navigations, runs of the effect, refusals and further loads, in any order:
  -- the store and the storage hold the same session, or after an answer 401 the storage holds none and
  -- the page is being left for the login. A load of any address ends in no exception of the store,
  -- shows nothing at first, and behind the effect and its redirect, if nothing comes between, shows a
  -- page with the sidebar exactly if the stored session has a token, and the login page otherwise.
  pub Reach-IsGuarded : {a : App} → Reach a → IsGuarded json a
  Reach-IsGuarded {a} r = kept-IsGuarded json a (Reach-IsKept r)

  -- No event of the dashboard, a load of the page included, ends in an exception of the store, once a
  -- first load has succeeded.
  Reach-handle : {a : App} (e : Event J) → Reach a → (b : App) × (handle json error_of e a ≡ some b)
  Reach-handle {a} e r = let (b, f, g) = handle-Runs e a (Reach-IsKept r) in (b, f)
