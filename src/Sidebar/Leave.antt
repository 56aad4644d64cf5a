-- ===== src/Sidebar/Leave.antt =====
-- The logout of web/src/components/layout/Sidebar.tsx, with the guard of web/src/app/providers.tsx.
use vexil.Prelude.{◌≡◌, refl, true, none, some, if◌then◌else◌}
use vexil.Text.{codes, text_eq}
use vexil.Auth.{UserJson, Session, load, is_signed_in, guard_effect, guard_view, children}
use vexil.Auth.Laws.{logout-Agrees}
use vexil.Sidebar.{handle_logout}

module _ (json : UserJson) (s : Session) where
  -- After a click on the logout, a load of the page finds nobody signed in, whatever was stored; the
  -- guard shows the login page, alone and at once; and the server has been told of the token, if
  -- there was one that is not empty.
  pub handle_logout_lem :
      let left = handle_logout json s in
      let g =
        guard_effect left.session.store.token (record { ready = true; pathname = left.pathname }) in
      (load json left.session.storage ≡ some (record { token = none; user = none }))
      × (g.pathname ≡ codes "/login")
      × (guard_view g ≡ children)
      × (left.called ≡ (if is_signed_in s.store.token then s.store.token else none))
  unfolding handle_logout guard_effect guard_view text_eq
  handle_logout_lem = (logout-Agrees json s, refl, refl, refl)
