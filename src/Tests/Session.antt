-- ===== src/Tests/Session.antt =====
-- The session, the guard and the login, at concrete data.
use vexil.Prelude.{
  ◌≡◌, ◌⊎◌, inl, refl, ◌↔◌, true, false, zero, suc, Option, none, some, List, ◌>>=◌, [], ◌∷◌, ◌==◌,
  is_empty, if◌then◌else◌,
}
use vexil.Text.{Text, codes, text_eq, lookup, insert}
use vexil.Auth.{User, UserJson, Store, Session, load, is_signed_in, guard_effect, children}
use vexil.Api.{
  Browser, RequestInit, Call, Response, Fetched, responded, threw, token_key, user_key, request,
  build_call, merged_headers, spread,
}
use vexil.Auth.Expired.{load_page, request-load_page}
use vexil.Auth.Laws.{Agrees}
use vexil.App.{App, run_effect, refuse, browser_of, token_of, effect, open_app, handle, offers}
use vexil.App.Guarded
use vexil.App.Authorized.{Reach-carries}
use vexil.Proxy.{Incoming, build_outgoing}
use vexil.Proxy.Client.{Arrives}
use vexil.Text.Parts.{join}
use vexil.App.Progress
use vexil.Api.Request.{bearer}
use vexil.Api.{sign_out}
use vexil.Auth.Guard.{guard_effect_settles}

-- A user as a text: each code unit of the name behind a 1, then a 0 and the role.
abbrev write : Text → Text → Text
write [] role = 0 ∷ role
write (c ∷ username) role = 1 ∷ (c ∷ write username role)

abbrev read : Text → Option (Text × Text)
read [] = none
read (zero ∷ role) = some ([], role)
read (suc n ∷ []) = none
read (suc n ∷ (c ∷ s)) = read s >>= λ p. some (c ∷ p.0, p.1)

read-write : (username role : Text) → read (write username role) ≡ some (username, role)
read-write [] role = refl
read-write (c ∷ username) role = rw (read-write username role) refl

abbrev parse : Text → Option (Option User)
parse [] = none
parse (c ∷ s) =
    if c == 110
    then some none
    else (read (c ∷ s) >>= λ p. some (some (record { username = p.0; role = p.1 })))

parse-write :
    (username role : Text)
    → (parse (write username role) ≡ some (some (record { username = username; role = role })))
      × (is_empty (write username role) ≡ false)
parse-write [] role = (refl, refl)
parse-write (c ∷ username) role = (rw (read-write username role) refl, refl)

abbrev user_json : UserJson
user_json = record {
  stringify = λ u. write u.username u.role;
  parse = parse;
  parse-stringify = λ u. (parse-write u.username u.role).0;
  parse-null = refl;
  stringify-ne-nil = λ u. (parse-write u.username u.role).1;
}

abbrev ada : User
ada = record { username = codes "ada"; role = codes "admin" }

abbrev signed_out : Session
signed_out = record {
  storage = (codes "theme", codes "dark") ∷ [];
  store = record { token = none; user = none };
}

agreed : Agrees user_json signed_out
unfolding load lookup text_eq
agreed = refl

guard_effect_settles_example :
    let h =
      guard_effect
        (some (codes "t"))
        (guard_effect (some (codes "t")) (record { ready = false; pathname = codes "/login" })) in
    (h.ready ≡ true)
    × (guard_effect (some (codes "t")) h ≡ h)
    × ((h.pathname ≡ codes "/login") ↔ (is_signed_in (some (codes "t")) ≡ false))
guard_effect_settles_example =
    guard_effect_settles (some (codes "t")) (record { ready = false; pathname = codes "/login" })

abbrev message_of : Text → Option Text
message_of j = some j

abbrev expired : Browser
expired = record {
  has_window = true;
  storage = (token_key, codes "t") ∷ ((user_key, codes "broken") ∷ []);
  location = codes "/flags";
}

abbrev refusal : Response Text
refusal = record { status = 401; status_text = codes "Unauthorized"; json = none }

abbrev refuses : Call → Fetched Text
refuses call = responded refusal

abbrev error_in : Text → Option (Option Text)
error_in j = some (some j)

abbrev no_options : RequestInit
no_options = record { method = none; headers = none; body = none }

request-load_page_example :
    let r = request error_in (codes "/api/v1") refuses expired (codes "/flags") no_options in
    (r.1 ≡ threw (codes "Unauthorized"))
    × (load_page user_json r.0 ≡ some (codes "/login", children))
request-load_page_example =
    request-load_page user_json error_in (codes "/api/v1") refuses expired (codes "/flags")
      no_options refusal refl refl refl

-- The dashboard, opened with a session at the page of the flags, and a request of that page.
abbrev kept : List (Text × Text)
kept = (token_key, codes "t") ∷ ((user_key, write (codes "ada") (codes "admin")) ∷ [])

abbrev resumed : Store
resumed = record { token = some (codes "t"); user = some ada }

abbrev inside : App
inside = Guarded.opened kept resumed (codes "/flags")

loaded : open_app user_json kept (codes "/flags") ≡ some inside
unfolding open_app load lookup text_eq
loaded = refl

inside_reached : Guarded.Reach user_json message_of inside
inside_reached = Guarded.start kept (codes "/flags") loaded

-- The page is rendered, and a request of it is answered with 401.
abbrev refused_page : App
refused_page = record (record inside { ready = true; due = false }) {
  login = record inside.login {
    session = record inside.login.session { storage = (sign_out (browser_of inside)).storage };
  };
  leaving = some (codes "/login");
}

refused_reached : Guarded.Reach user_json message_of refused_page
unfolding handle effect guard_effect offers sign_out text_eq
refused_reached =
    Guarded.step {a = record inside { ready = true; due = false }} refuse
      (Guarded.step {a = inside} run_effect inside_reached refl refl) refl refl

Reach-IsGuarded_example : Guarded.IsGuarded user_json refused_page
Reach-IsGuarded_example = Guarded.Reach-IsGuarded user_json message_of refused_reached

Steps-framed_example :
    Progress.SignsIn user_json message_of true refused_page (codes "ada") (codes "p") (codes "u")
Steps-framed_example =
    Progress.Steps-framed user_json message_of true refused_page (codes "ada") (codes "p")
      (codes "u") ada refused_reached (inl refl) refl refl refl

abbrev incoming : Incoming
incoming = record {
  method = codes "GET";
  path = codes "flags" ∷ [];
  search = [];
  authorization = some (codes "Bearer t");
  text = [];
}

arriving :
    Arrives (build_call (codes "/api/v1") (browser_of inside) (codes "/flags") no_options) incoming
unfolding build_call merged_headers spread insert lookup join text_eq
arriving = record { method = refl; url = refl; authorization = refl; text = refl }

Reach-carries_example :
    ((build_outgoing none incoming).authorization ≡ bearer (token_of inside))
    ⊎ ((inside.leaving ≡ some (codes "/login"))
        × ((build_outgoing none incoming).authorization ≡ none))
Reach-carries_example =
    Reach-carries user_json message_of none (codes "/flags") no_options incoming inside_reached refl
      arriving
