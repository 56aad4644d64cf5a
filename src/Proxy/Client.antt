-- ===== src/Proxy/Client.antt =====
-- The client of web/src/lib/api-client.ts with the proxy of web/src/app/api/v1/[...path]/route.ts
-- between it and the API server.
use vexil.Prelude.{
  ℕ, ◌≤◌, ◌≡◌, refl, sym, ◌∙◌, not, ◌&&◌, Option, none, some, [], ◌∷◌, ◌++◌, In, catch,
  if◌then◌else◌,
}
use vexil.Text.{Text, codes, text_eq, lookup}
use vexil.Text.Parts.{join}
use vexil.Proxy.{
  Incoming, Outgoing, Answer, failed, answered, null_body_statuses, Platform, get_backend_url,
  if_given, build_outgoing, bad_gateway, relay, proxy_request,
}
use vexil.Proxy.Laws.{proxy_request-relays, proxy_request_null_body}
use vexil.Api.{
  Browser, RequestInit, Call, Response, Fetched, responded, threw, build_call, failure, settle,
  request,
}
use vexil.Api.Request.{bearer, stored_token, build_call-headers}

-- What `fetch` and the router make of a call to the dashboard's own address: the method, which is
-- GET by default, the segments of the path behind the route's, the search, the header and the body.
pub record Arrives (call : Call) (i : Incoming) : Type 0 where
  pub method : i.method ≡ catch call.method (codes "GET")
  pub url : call.url ≡ codes "/api/v1/" ++ (join b'/' i.path ++ i.search)
  pub authorization : i.authorization ≡ lookup (codes "Authorization") call.headers
  pub text : i.text ≡ catch call.body []

-- What a text for a body comes to: the empty one to none.
abbrev pub sent_body : Text → Option Text → Option Text
sent_body method body =
    if not (text_eq method (codes "GET")) && not (text_eq method (codes "HEAD"))
    then if_given body
    else none

if_given-bearer : (t : Option Text) → if_given (bearer t) ≡ bearer t
if_given-bearer none = refl
if_given-bearer (some []) = refl
if_given-bearer (some (c ∷ t)) = refl

if_given-catch : (o : Option Text) → if_given (some (catch o [])) ≡ if_given o
if_given-catch none = refl
if_given-catch (some s) = refl

module _ (url : Option Text) (b : Browser) (path : Text) (options : RequestInit) where
  -- A call of the dashboard without headers of its own arrives at the API server as it was made: at
  -- its address, with its method, with the stored token as its bearer, if there is one that is not
  -- empty, and with its body, if it has one that is not empty and the method takes one.
  pub build_outgoing-build_call :
      (i : Incoming)
      → Arrives (build_call (codes "/api/v1") b path options) i
      → options.headers ≡ none
      → build_outgoing url i ≡ record {
        url = get_backend_url url ++ (codes "/api/v1" ++ path);
        method = catch options.method (codes "GET");
        content_type = codes "application/json";
        authorization = bearer (stored_token b);
        body = sent_body (catch options.method (codes "GET")) options.body;
      }
  unfolding build_outgoing build_call
  build_outgoing-build_call i a h =
      let token = a.authorization ∙ (build_call-headers (codes "/api/v1") path b options h).1 in
      let address = sym a.url in
      rw
        (
          address,
          a.method,
          token,
          a.text,
          if_given-bearer (stored_token b),
          if_given-catch options.body,
        )
        refl

module _ {J : Type 0} (error_of : J → Option (Option Text)) (parse : Text → Option J)
    (status_text : ℕ → Text) (platform : Platform) (url : Option Text) (backend : Outgoing → Answer)
    (arrive : Call → Incoming) where
  -- The reply of the proxy, as the browser's `fetch` hands it to the client.
  abbrev pub response : ℕ → Text → Response J
  response status content = record {
    status = status;
    status_text = status_text status;
    json = parse content;
  }

  abbrev pub through : Call → Fetched J
  through call =
      let reply = proxy_request platform url backend (arrive call) in
      responded (response reply.status reply.content)

  -- The API server cannot be reached, or answers with a status that takes no body.
  abbrev pub IsLost : Answer → Type 0
  IsLost failed = Unit
  IsLost (answered status content_type content) = In status null_body_statuses

  module _ (api_base : Text) (b : Browser) (path : Text) (options : RequestInit) where
    abbrev outgoing : Outgoing
    outgoing = build_outgoing url (arrive (build_call api_base b path options))

    lost :
        (answer : Answer)
        → backend outgoing ≡ answer
        → IsLost answer
        → proxy_request platform url backend (arrive (build_call api_base b path options))
          ≡ bad_gateway
    unfolding proxy_request relay
    lost failed e m = rw e refl
    lost (answered status content_type content) e m =
        proxy_request_null_body platform url backend (arrive (build_call api_base b path options))
          status content_type content e m

    told :
        (j : J)
        → parse bad_gateway.content ≡ some j
        → error_of j ≡ some (some (codes "Failed to connect to API server"))
        → settle error_of b (responded (response 502 bad_gateway.content))
          ≡ (b, threw (codes "Failed to connect to API server"))
    unfolding settle failure
    told j p m = rw (p, m) refl

    -- If the API server cannot be reached, or has answered with a status that takes no body, such as
    -- 204 after a deletion, the caller gets the exception that it could not be reached, and the browser
    -- is as before, so that the user stays signed in. `parse` and `error_of` read the proxy's own text.
    pub request-lost :
        (j : J)
        → parse bad_gateway.content ≡ some j
        → error_of j ≡ some (some (codes "Failed to connect to API server"))
        → IsLost (backend outgoing)
        → request error_of api_base through b path options
          ≡ (b, threw (codes "Failed to connect to API server"))
    unfolding request
    request-lost j p m h = rw (lost (backend outgoing) refl h) (told j p m)

    -- An answer of the API server with a status from 200 to 599 that can have a body settles the call as
    -- it would without the proxy: by its status and its content.
    pub request-answered :
        (status : ℕ) (content_type : Option Text) (content : Text)
        → backend outgoing ≡ answered status content_type content
        → 200 ≤ status
        → status ≤ 599
        → ¬ In status null_body_statuses
        → request error_of api_base through b path options
          ≡ settle error_of b (responded (response status content))
    unfolding request
    request-answered status content_type content e lo hi body =
        rw
          (proxy_request-relays platform url backend (arrive (build_call api_base b path options))
            status content_type content e lo hi body)
          refl
