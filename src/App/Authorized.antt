-- ===== src/App/Authorized.antt =====
-- The requests of the dashboard's pages, through the proxy to the API server.
use vexil.Prelude.{◌⊎◌, inl, inr, ◌≡◌, ap, ◌∙◌, Option, none, some, >>=-eq-some}
use vexil.Text.{Text, codes, lookup, or_text}
use vexil.Api.{RequestInit, token_key, user_key, build_call}
use vexil.Api.Request.{bearer, stored_token}
use vexil.Proxy.{Incoming, Outgoing, build_outgoing}
use vexil.Proxy.Client.{Arrives, build_outgoing-build_call}
use vexil.Auth.{UserJson, Store, load}
use vexil.App.{App, token_of, browser_of}
use vexil.App.Guarded.{Reach, Reach-IsGuarded}

load-stored_token :
    (json : UserJson) (a : App) (store : Store)
    → load json a.login.session.storage ≡ some store
    → stored_token (browser_of a) ≡ store.token
unfolding load
load-stored_token json a store h =
    let storage = a.login.session.storage in
    let (user, parsed, made) =
      >>=-eq-some (json.parse (or_text (lookup user_key storage) (codes "null"))) _ h in
    let same : record { token = lookup token_key storage; user = user } ≡ store = cc in
    ap (λ (s : Store). s.token) same

-- In every state of the dashboard, a call that a page makes through `request` of the API client, with
-- no headers of its own, reaches the API server with the token of the store as its bearer, where
-- that has one which is not empty; or the page is being left for the login after an answer 401, and the
-- call carries no authorization. No token of an earlier session is sent.
pub Reach-carries :
    (json : UserJson) {J : Type 0} (error_of : J → Option Text) {a : App} (url : Option Text)
    (path : Text) (options : RequestInit) (i : Incoming)
    → Reach json error_of a
    → options.headers ≡ none
    → Arrives (build_call (codes "/api/v1") (browser_of a) path options) i
    → ((build_outgoing url i).authorization ≡ bearer (token_of a))
      ⊎ ((a.leaving ≡ some (codes "/login")) × ((build_outgoing url i).authorization ≡ none))
Reach-carries json error_of {a} url path options i r h arrives =
    let sent =
      ap (λ (o : Outgoing). o.authorization)
        (build_outgoing-build_call url (browser_of a) path options i arrives h) in
    elim (Reach-IsGuarded json error_of r).kept [
      | inl agrees ↦ inl (sent ∙ ap bearer (load-stored_token json a a.login.session.store agrees))
      | inr expired ↦ inr (
        expired.1,
        sent
            ∙ ap bearer (load-stored_token json a (record { token = none; user = none }) expired.0),
      )
    ]
