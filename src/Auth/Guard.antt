-- ===== src/Auth/Guard.antt =====
-- The guard of web/src/app/providers.tsx and the login of web/src/app/login/page.tsx.
use vexil.Prelude.{◌≡◌, refl, ◌↔◌, ◌≢◌, true, false, Option, some, [], arith}
use vexil.Text.{Text, codes, text_eq, text_eq_iff, text_eq_refl}
use vexil.Auth.{
  UserJson, LoginAnswer, unreachable, refused, accepted, LoginPage, submit_login, finish_login,
  GuardState, is_signed_in, guard_effect, nothing, children, framed, guard_view,
}
use vexil.Auth.Laws.{Agrees, set_auth-Agrees}

root_differs : text_eq (codes "/") (codes "/login") ≡ false
unfolding text_eq
root_differs = refl

-- The guard settles after one redirect at most: then it is ready, a further run of its effect
-- changes nothing, and the path is the login's exactly if nobody is signed in.
pub guard_effect_settles :
    (token : Option Text) (g : GuardState)
    → let h = guard_effect token (guard_effect token g) in
      (h.ready ≡ true)
      × (guard_effect token h ≡ h)
      × ((h.pathname ≡ codes "/login") ↔ (is_signed_in token ≡ false))
unfolding guard_effect
guard_effect_settles token g = ground (
  arith,
  text_eq_refl (codes "/login"),
  root_differs,
  text_eq_iff g.pathname (codes "/login"),
  text_eq_iff (codes "/") (codes "/login"),
)

-- Until somebody is signed in, a page other than the login is never framed by a guard that starts
-- unready, as long as its redirects are followed.
guard_view_signed_out :
    (token : Option Text) (pathname : Text)
    → is_signed_in token ≡ false
    → let g = guard_effect token (record { ready = false; pathname = pathname }) in
      (guard_view (record { ready = false; pathname = pathname }) ≡ nothing)
      × (guard_view g ≢ framed)
      × (guard_view (guard_effect token g) ≡ children)
unfolding guard_effect guard_view
guard_view_signed_out token pathname h =
    ground (arith, text_eq_refl (codes "/login"), text_eq_iff pathname (codes "/login"))

-- How a login from the state `p` ends, in the state `q`.
abbrev pub Ends : (json : UserJson) {J : Type 0} → LoginPage → LoginAnswer J → LoginPage → Type 0
Ends json p (accepted token user) q =
    Agrees json q.session
    × (q.session.store.token ≡ some token)
    × (q.session.store.user ≡ some user)
    × (q.location ≡ codes "/")
    × (q.error ≡ [])
Ends json p _ q = (q.session ≡ p.session) × (q.location ≡ p.location)

module _ (json : UserJson) {J : Type 0} (error_of : J → Option Text) (p : LoginPage) where
  -- A login that is accepted signs the user in, in the store and for the next load of the page, and
  -- leaves for the dashboard with no error shown; every other answer changes neither the session
  -- nor the address. The form is enabled again in each case.
  pub finish_login-submit_login :
      (answer : LoginAnswer J)
      → let q = finish_login json error_of answer (submit_login json error_of p) in
        (q.loading ≡ false) × Ends json p answer q
  unfolding submit_login finish_login
  finish_login-submit_login (accepted token user) =
      (refl, (set_auth-Agrees json token user p.session, refl, refl, refl, refl))
  finish_login-submit_login (unreachable message) = (refl, (refl, refl))
  finish_login-submit_login (refused error) = (refl, (refl, refl))
