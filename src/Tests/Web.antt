-- ===== src/Tests/Web.antt =====
-- The proxy and the client of the API server, at concrete data.
use vexil.Prelude.{
  ℕ, ◌≡◌, refl, ◌≢◌, ◌↔◌, ◌≤◌, ◌++◌, catch, inl, Bool, true, false, ◌&&◌, ◌||◌, not, Option, none,
  some, List, [], ◌∷◌, In, All, arith, leb, ◌==◌, if◌then◌else◌,
}
use vexil.Text.{Text, codes, text_eq, lookup}
use vexil.Proxy.{build_outgoing, get_backend_url}
use vexil.Proxy.{Incoming, Outgoing, Answer, answered, null_body_statuses, Platform, bad_gateway}
use vexil.Proxy.Client
use vexil.Proxy.Client.{
  Arrives, sent_body, build_outgoing-build_call, through, request-lost, request-answered,
}
use vexil.Api.{
  Call, request, build_call, Browser, RequestInit, Response, responded, value, threw, token_key,
  settle,
}
use vexil.Api.Request.{bearer, stored_token, settle_other}

-- The statuses that the Fetch standard lets a response with a text have.
abbrev constructs : ℕ → Bool
constructs s = leb 200 s && leb s 599 && not (s == 204 || s == 205 || s == 304)

with_body_constructs : (s : ℕ) → 200 ≤ s → s ≤ 599 → ¬ In s null_body_statuses → constructs s ≡ true
with_body_constructs s lo hi other = ground arith

null_constructs : All (λ s. constructs s ≡ false) null_body_statuses
null_constructs = ground arith

abbrev platform : Platform
platform = record {
  constructs = constructs;
  null_body = null_constructs;
  with_body = with_body_constructs;
}

abbrev deletion : Incoming
deletion = record {
  method = codes "DELETE";
  path = codes "flags" ∷ (codes "default" ∷ (codes "dark-mode" ∷ []));
  search = codes "?clusterId=local";
  authorization = some (codes "Bearer t");
  text = [];
}

abbrev answers : ℕ → Outgoing → Answer
answers status call = answered status none (codes "{}")

abbrev route : Call → Incoming
route call = record {
  method = catch call.method (codes "GET");
  path = codes "flags" ∷ (codes "default" ∷ (codes "dark-mode" ∷ []));
  search = codes "?clusterId=local";
  authorization = lookup (codes "Authorization") call.headers;
  text = catch call.body [];
}

abbrev remove : RequestInit
remove = record { method = some (codes "DELETE"); headers = none; body = none }

abbrev browser : Browser
browser = record {
  has_window = true;
  storage = (token_key, codes "t") ∷ ((codes "theme", codes "dark") ∷ []);
  location = codes "/flags";
}

abbrev options : Option (List (Text × Text)) → RequestInit
options headers = record { method = none; headers = headers; body = none }

abbrev error_of : Text → Option (Option Text)
error_of j = some (some j)

abbrev response : ℕ → Response Text
response status = record { status = status; status_text = codes "s"; json = some (codes "j") }

abbrev dark_path : Text
dark_path = codes "/flags/default/dark-mode?clusterId=local"

arrives :
    Arrives
      (build_call (codes "/api/v1") browser dark_path remove)
      (route (build_call (codes "/api/v1") browser dark_path remove))
unfolding build_call vexil.Text.Parts.join
arrives = record { method = refl; url = refl; authorization = refl; text = refl }

build_outgoing-build_call_example :
    build_outgoing none (route (build_call (codes "/api/v1") browser dark_path remove)) ≡ record {
      url = get_backend_url none ++ (codes "/api/v1" ++ dark_path);
      method = codes "DELETE";
      content_type = codes "application/json";
      authorization = bearer (stored_token browser);
      body = sent_body (codes "DELETE") none;
    }
build_outgoing-build_call_example =
    build_outgoing-build_call none browser dark_path remove
      (route (build_call (codes "/api/v1") browser dark_path remove)) arrives refl

-- A reader of one text, which it knows as a text of its own.
abbrev parse_error : Text → Option Text
parse_error s =
    if text_eq s bad_gateway.content then some (codes "Failed to connect to API server") else none

abbrev message_in : Text → Option (Option Text)
message_in j = some (some j)

abbrev no_text : ℕ → Text
no_text status = []

parsed : parse_error bad_gateway.content ≡ some (codes "Failed to connect to API server")
unfolding text_eq
parsed = refl

request-lost_example :
    request message_in
      (codes "/api/v1")
      (through message_in parse_error no_text platform none (answers 204) route)
      browser
      dark_path
      remove
    ≡ (browser, threw (codes "Failed to connect to API server"))
request-lost_example =
    request-lost message_in parse_error no_text platform none (answers 204) route (codes "/api/v1")
      browser dark_path remove (codes "Failed to connect to API server") parsed refl (ground arith)

request-answered_example :
    request message_in
      (codes "/api/v1")
      (through message_in parse_error no_text platform none (answers 401) route)
      browser
      dark_path
      remove
    ≡ settle message_in browser (
        responded (
          Client.response message_in parse_error no_text platform none
            (answers 401)
            route
            401
            (codes "{}")))
request-answered_example =
    request-answered message_in parse_error no_text platform none (answers 401) route
      (codes "/api/v1") browser dark_path remove 401 none (codes "{}") refl (omega arith)
      (omega arith) (ground arith)

settle_other_example :
    ((settle error_of browser (responded (response 200))).0 ≡ browser)
    × ((v : Text)
        → ((settle error_of browser (responded (response 200))).1 ≡ value v) ↔ (
            (200 ≤ 200)
            × (200 ≤ 299)
            × ((response 200).status ≢ 204)
            × (some (codes "j") ≡ some v)))
settle_other_example = settle_other error_of browser (response 200) (inl (ground arith))
