-- ===== src/Auth/Expired.antt =====
-- What the dashboard shows after the API server has refused a token: web/src/lib/api-client.ts, the
-- session of web/src/lib/auth.ts and the guard of web/src/app/providers.tsx together.
use vexil.Prelude.{◌≡◌, refl, true, false, ◌&&◌, Option, some, ◌>>=◌, arith, ◌==◌}
use vexil.Text.{Text, codes, text_eq}
use vexil.Api.{
  Browser, RequestInit, Call, Response, Fetched, responded, threw, build_call, sign_out, settle,
  request,
}
use vexil.Auth.{UserJson, Store, load, guard_effect, Shown, children, guard_view}
use vexil.Auth.Laws.{load-sign_out}

-- A page that is loaded at the browser's address: the store is filled from the storage, and the
-- guard's effect runs, and once more behind a redirect. An exception of the store is `none`.
unfoldable pub load_page : UserJson → Browser → Option (Text × Shown)
unfolding load guard_effect guard_view
load_page json b = load json b.storage >>= λ (store : Store).
    let first = guard_effect store.token (record { ready = false; pathname = b.location }) in
    let g = guard_effect store.token first in some (g.pathname, guard_view g)

load_page-sign_out :
    (json : UserJson) (b : Browser) → load_page json (sign_out b) ≡ some (codes "/login", children)
unfolding load_page sign_out text_eq
load_page-sign_out json b = rw (load-sign_out json b) refl

module _ (json : UserJson) {J : Type 0} (error_of : J → Option (Option Text)) (api_base : Text)
    (fetch : Call → Fetched J) (b : Browser) (path : Text) (options : RequestInit) where
  request-eq-sign_out :
      (res : Response J)
      → fetch (build_call api_base b path options) ≡ responded res
      → res.status ≡ 401
      → b.has_window ≡ true
      → request error_of api_base fetch b path options ≡ (sign_out b, threw (codes "Unauthorized"))
  unfolding request settle
  request-eq-sign_out res e s w =
      let test : (res.status == 401 && b.has_window) ≡ true = ground arith in rw (e, test) refl

  -- After a request in a browser that is answered with 401, whatever was stored, even a user that
  -- cannot be read: the caller gets an exception, and the page that is loaded next is the login page,
  -- alone.
  pub request-load_page :
      (res : Response J)
      → fetch (build_call api_base b path options) ≡ responded res
      → res.status ≡ 401
      → b.has_window ≡ true
      → let r = request error_of api_base fetch b path options in
        (r.1 ≡ threw (codes "Unauthorized"))
        × (load_page json r.0 ≡ some (codes "/login", children))
  request-load_page res e s w = rw (request-eq-sign_out res e s w) (refl, load_page-sign_out json b)
