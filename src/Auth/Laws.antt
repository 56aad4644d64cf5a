-- ===== src/Auth/Laws.antt =====
-- The store of the session against the storage of the browser.
use vexil.Prelude.{◌≡◌, refl, false, none, some, List, [], ◌∷◌, is_empty}
use vexil.Text.{Text, codes, text_eq, or_else, insert, erase, lookup-insert, lookup-erase}
use vexil.Api.{Browser, token_key, user_key, sign_out}
use vexil.Auth.{User, UserJson, Session, load, set_auth, logout}

or_else_full : (s d : Text) → is_empty s ≡ false → or_else s d ≡ s
or_else_full [] d h = cc
or_else_full (c ∷ s) d h = refl

pub data SessionEvent : Type 0 where
  logs_in : Text → User → SessionEvent
  logs_out : SessionEvent

module _ (json : UserJson) where
  -- The storage holds the session of the store.
  abbrev pub Agrees : Session → Type 0
  Agrees s = load json s.storage ≡ some s.store

  -- A load of the page after a login finds the session of the login, whatever was stored.
  pub set_auth-Agrees :
      (token : Text) (user : User) (s : Session) → Agrees (set_auth json token user s)
  unfolding load set_auth text_eq
  set_auth-Agrees token user s = rw (
    lookup-insert user_key user_key (json.stringify user) (insert token_key token s.storage),
    lookup-insert user_key token_key (json.stringify user) (insert token_key token s.storage),
    lookup-insert token_key token_key token s.storage,
    or_else_full (json.stringify user) (codes "null") (json.stringify-ne-nil user),
    json.parse-stringify user,
  )

  pub logout-Agrees : (s : Session) → Agrees (logout json s)
  unfolding load logout text_eq
  logout-Agrees s = rw (
    lookup-erase user_key user_key (erase token_key s.storage),
    lookup-erase user_key token_key (erase token_key s.storage),
    lookup-erase token_key token_key s.storage,
    json.parse-null,
  )

  unfoldable pub run : List SessionEvent → Session → Session
  run [] s = s
  run (logs_in token user ∷ es) s = run es (set_auth json token user s)
  run (logs_out ∷ es) s = run es (logout json s)

  -- After any logins and logouts, a load of the page finds the session that the store has, if this
  -- holds at first.
  pub run-Agrees : (es : List SessionEvent) (s : Session) → Agrees s → Agrees (run es s)
  unfolding run
  run-Agrees [] s h = h
  run-Agrees (logs_in token user ∷ es) s h =
      run-Agrees es (set_auth json token user s) (set_auth-Agrees token user s)
  run-Agrees (logs_out ∷ es) s h = run-Agrees es (logout json s) (logout-Agrees s)

  -- After an answer 401, a load of the page finds nobody signed in, whatever was stored.
  pub load-sign_out :
      (b : Browser) → load json (sign_out b).storage ≡ some (record { token = none; user = none })
  unfolding sign_out logout
  load-sign_out b =
      logout-Agrees (record { storage = b.storage; store = record { token = none; user = none } })
