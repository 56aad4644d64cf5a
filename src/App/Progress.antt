-- ===== src/App/Progress.antt =====
-- The way to the dashboard, from every state that it can be in.
use vexil.Prelude.{
  ◌≡◌, ◌⊎◌, refl, sym, ap, Bool, true, false, not, ◌||◌, [], Option, some, is_empty, Bool-cases,
  inl, inr, ◌+◌, ◌-◌, arith,
}
use vexil.Text.{Text, codes, text_eq, text_eq_iff}
use vexil.Auth.{
  User, UserJson, logout, accepted, unreachable, submit_login, finish_login, set_auth, is_signed_in,
  guard_view, children, framed,
}
use vexil.App.{
  App, Event, type_username, type_password, submit, click_logout, answer, logout_answered,
  run_effect, arrive, leave, load_address, token_of, shown, effect, arrive_at, leave_session,
  open_app, finish_submit, handle, offers,
}
use vexil.App.Guarded.{
  Reach, Reach-IsGuarded, IsKept-load, opened, effect_stays, effect_enters, moved, arrive_at_moves,
}

-- The events that load a page anew.
abbrev is_load : {J : Type 0} → Event J → Bool
is_load leave = true
is_load (load_address path) = true
is_load _ = false

children_at_login :
    (a : App) → shown a ≡ children → (a.ready ≡ true) × (a.login.location ≡ codes "/login")
unfolding guard_view
children_at_login a h = ground (arith, text_eq_iff a.login.location (codes "/login"))

module _ (json : UserJson) {J : Type 0} (error_of : J → Option Text) where
  -- The states that the dashboard can get to from the state `a`, with loads of a page or without.
  pub data Steps (can_load : Bool) (a : App) : App → Type 0 where
    here : Steps can_load a a
    next :
        {b c : App} (e : Event J)
        → Steps can_load a b
        → (not (is_load e) || can_load) ≡ true
        → offers b e ≡ true
        → handle json error_of e b ≡ some c
        → Steps can_load a c

  then_effect :
      {can_load : Bool} {a b : App} (c : App)
      → Steps can_load a b
      → b.due ≡ true
      → effect b ≡ c
      → Steps can_load a c
  unfolding handle offers
  then_effect c s due h = next run_effect s refl due (ap some h)

  then_arrive :
      {can_load : Bool} {a b : App} (c : App) (path : Text)
      → Steps can_load a b
      → b.redirect ≡ some path
      → arrive_at path b ≡ c
      → Steps can_load a c
  unfolding handle offers
  then_arrive {a} {b} c path s asked h = next arrive s refl (rw asked refl) (rw asked (ap some h))

  -- A login page with no request pending.
  record IsFresh (can_load : Bool) (a b : App) : Type 0 where
    steps : Steps can_load a b
    ready : b.ready ≡ true
    at_login : b.login.location ≡ codes "/login"
    signed_out : is_signed_in (token_of b) ≡ false
    idle : b.login.loading ≡ false

  -- The router arrives at another path, where the effect finds that the page fits.
  arrived :
      {can_load : Bool} {a : App} (s : App) (path : Text)
      → Steps can_load a s
      → s.redirect ≡ some path
      → text_eq path s.login.location ≡ false
      → text_eq path (codes "/login") ≡ not (is_signed_in (token_of s))
      → Steps can_load a (record (moved path s) { ready = true; due = false })
  arrived s path steps asked other fits =
      let there = then_arrive (moved path s) path steps asked (arrive_at_moves path s other) in
      then_effect (record (moved path s) { ready = true; due = false }) there refl
        (effect_stays (moved path s) fits)

  -- The logout of a page with the sidebar.
  left :
      {can_load : Bool} (a s : App)
      → Steps can_load a s
      → s.ready ≡ true
      → s.login.location ≡ codes "/"
      → is_signed_in (token_of s) ≡ true
      → (b : App) × IsFresh can_load a b
  unfolding handle offers guard_view leave_session logout text_eq
  left {can_load} a s steps ready at_root inside =
      let asked = record s { logouts = s.logouts + 1 } in
      let calling : Steps can_load a asked =
        next click_logout steps refl (rw (ready, at_root) refl) (rw inside refl) in
      let gone = leave_session json (record asked { logouts = asked.logouts - 1 }) in
      let answered : Steps can_load a gone =
        next logout_answered calling refl (ground arith) refl in
      (
        record (moved (codes "/login") gone) { ready = true; due = false },
        record {
          steps = arrived gone (codes "/login") answered refl (rw at_root refl) refl;
          ready = refl;
          at_login = refl;
          signed_out = refl;
          idle = refl;
        },
      )

  -- The login page, loaded with a session or without.
  freshen : (a : App) → Reach json error_of a → (b : App) × IsFresh true a b
  unfolding handle open_app text_eq
  freshen a r =
      let (store, loads) = IsKept-load json a (Reach-IsGuarded json error_of r).kept in
      let s = opened a.login.session.storage store (codes "/login") in
      let loaded : Steps true a s =
        next (load_address (codes "/login")) here refl (unfold offers in refl) (rw loads refl) in
      elim (Bool-cases (is_signed_in store.token)) [
        | inl inside ↦
            let asked = record s { due = false; redirect = some (codes "/") } in
            let entering : Steps true a asked =
              then_effect asked loaded refl (effect_enters s inside refl) in
            left a (record (moved (codes "/") asked) { ready = true; due = false })
              (arrived asked (codes "/") entering refl refl (sym (ap not inside))) refl refl inside
        | inr outside ↦ (
          record s { ready = true; due = false },
          record {
            steps =
                then_effect (record s { ready = true; due = false }) loaded refl
                  (effect_stays s (sym (ap not outside)));
            ready = refl;
            at_login = refl;
            signed_out = outside;
            idle = refl;
          },
        )
      ]

  -- A way from the state `a` to a login form with the name and the password, which is submitted, and on
  -- without a load to a page with the sidebar, in a session with the token.
  pub record SignsIn (can_load : Bool) (a : App) (username password token : Text) : Type 0 where
    pub form : App
    pub sent : App
    pub page : App
    pub to_form : Steps can_load a form
    pub is_filled : (form.login.username ≡ username) × (form.login.password ≡ password)
    pub is_offered : offers {J = J} form submit ≡ true
    pub is_sent : handle json error_of submit form ≡ some sent
    pub to_page : Steps false sent page
    pub is_shown : shown page ≡ framed
    pub in_session : token_of page ≡ some token

  -- The page behind a login that the server accepts.
  sign_in :
      {can_load : Bool} (a s : App) (username password token : Text) (user : User)
      → IsFresh can_load a s
      → is_empty username ≡ false
      → is_empty password ≡ false
      → is_empty token ≡ false
      → SignsIn can_load a username password token
  unfolding handle offers guard_view text_eq submit_login finish_submit finish_login set_auth
  sign_in {can_load} a s username password token user h u p t =
      let ready = h.ready in
      let at_login = h.at_login in
      let idle = h.idle in
      let named = record s { login = record s.login { username = username } } in
      let filled = record named { login = record named.login { password = password } } in
      let sent = record filled { login = submit_login json error_of filled.login } in
      let back = finish_submit json error_of (accepted token user) sent in
      let first : Steps can_load a named =
        next (type_username username) h.steps refl (rw (ready, at_login) refl) refl in
      let second : Steps can_load a filled =
        next (type_password password) first refl (rw (ready, at_login) refl) refl in
      let answered : Steps false sent back =
        next (answer (accepted token user)) here refl refl refl in
      record {
        form = filled;
        sent = sent;
        page = record (moved (codes "/") back) { ready = true; due = false };
        to_form = second;
        is_filled = (refl, refl);
        is_offered = rw (ready, at_login, idle, u, p) refl;
        is_sent = refl;
        to_page = arrived back (codes "/") answered refl (rw at_login refl) (rw t refl);
        is_shown = refl;
        in_session = refl;
      }

  -- The login page without a session; a pending request may fail.
  waiting :
      (a : App)
      → shown a ≡ children
      → is_signed_in (token_of a) ≡ false
      → (b : App) × IsFresh false a b
  unfolding handle offers finish_submit finish_login
  waiting a seen out =
      let (ready, there) = children_at_login a seen in
      elim (Bool-cases a.login.loading) [
        | inl pending ↦ (
          finish_submit json error_of (unreachable []) a,
          record {
            steps = next (answer (unreachable [])) here refl pending refl;
            ready = ready;
            at_login = there;
            signed_out = out;
            idle = refl;
          },
        )
        | inr free ↦ (
          a,
          record { steps = here; ready = ready; at_login = there; signed_out = out; idle = free },
        )
      ]

  start_fresh :
      (can_load : Bool) (a : App)
      → Reach json error_of a
      → (can_load ≡ true) ⊎ ((shown a ≡ children) × (is_signed_in (token_of a) ≡ false))
      → (b : App) × IsFresh can_load a b
  start_fresh true a r start = freshen a r
  start_fresh false a r (inr (seen, out)) = waiting a seen out
  start_fresh false a r (inl h) = absurd cc

  -- For every name and password that are not empty and that the server accepts, with a token that is
  -- not empty, and every state that the dashboard can be in: there is a way to a login form with that
  -- name and password that can be submitted, and from its submission on, without a load of a page, to a
  -- page with the sidebar in a session with that token. The way to the form may load the login page;
  -- from a login page that is shown without a session it needs no load, also while a request of that
  -- page is pending.
  pub Steps-framed :
      (can_load : Bool) (a : App) (username password token : Text) (user : User)
      → Reach json error_of a
      → (can_load ≡ true) ⊎ ((shown a ≡ children) × (is_signed_in (token_of a) ≡ false))
      → is_empty username ≡ false
      → is_empty password ≡ false
      → is_empty token ≡ false
      → SignsIn can_load a username password token
  Steps-framed can_load a username password token user r start u p t =
      let (s, fresh) = start_fresh can_load a r start in
      sign_in a s username password token user fresh u p t
