-- ===== src/Proxy.antt =====
-- web/src/app/api/v1/[...path]/route.ts: the dashboard's proxy to the API server.
pub mod Laws
pub mod Client
use vexil.Prelude.{
  ℕ, ◌≤◌, ◌≡◌, ◌≢◌, Bool, true, false, not, ◌&&◌, Option, none, some, List, [], ◌∷◌, ◌++◌, maybe,
  All, In, is_empty, if◌then◌else◌,
}
use vexil.Text.{Text, codes, text_eq, or_text}
use vexil.Text.Parts.{join}

-- What the handler reads of the request: `authorization` is the header, if it is there.
pub record Incoming : Type 0 where
  pub method : Text
  pub path : List Text
  pub search : Text
  pub authorization : Option Text
  pub text : Text

-- What it passes to `fetch`.
pub record Outgoing : Type 0 where
  pub url : Text
  pub method : Text
  pub content_type : Text
  pub authorization : Option Text
  pub body : Option Text

-- What comes of that: an exception, or a response that has been read.
pub data Answer : Type 0 where
  failed : Answer
  answered : (status : ℕ) → (content_type : Option Text) → (content : Text) → Answer

pub record Reply : Type 0 where
  pub status : ℕ
  pub content_type : Text
  pub content : Text

-- The statuses with which a response may have no body.
abbrev pub null_body_statuses : List ℕ
null_body_statuses = 101 ∷ (103 ∷ (204 ∷ (205 ∷ (304 ∷ []))))

-- The constructor of a response with a text for its body throws unless it takes the status. By the
-- Fetch standard it takes those from 200 to 599 but the null body statuses.
pub record Platform : Type 0 where
  pub constructs : ℕ → Bool
  pub null_body : All (λ s. constructs s ≡ false) null_body_statuses
  pub with_body : (s : ℕ) → 200 ≤ s → s ≤ 599 → ¬ In s null_body_statuses → constructs s ≡ true

unfoldable pub get_backend_url : Option Text → Text
get_backend_url vexil_api_url = or_text vexil_api_url (codes "http://localhost:8090")

-- `if (h) headers['Authorization'] = h`, and likewise for the body.
abbrev pub if_given : Option Text → Option Text
if_given none = none
if_given (some []) = none
if_given (some (c ∷ s)) = some (c ∷ s)

unfoldable pub build_outgoing : Option Text → Incoming → Outgoing
unfolding get_backend_url
build_outgoing vexil_api_url request = record {
  url =
      get_backend_url vexil_api_url
      ++ (codes "/api/v1/" ++ (join b'/' request.path ++ request.search));
  method = request.method;
  content_type = codes "application/json";
  authorization = if_given request.authorization;
  body =
      if not (text_eq request.method (codes "GET")) && not (text_eq request.method (codes "HEAD"))
      then if_given (some request.text)
      else none;
}

abbrev pub bad_gateway : Reply
bad_gateway = record {
  status = 502;
  content_type = codes "application/json";
  content = codes "{\"error\":\"Failed to connect to API server\"}";
}

module _ (platform : Platform) where
  -- The `try` block and its `catch`.
  unfoldable pub relay : Answer → Reply
  relay failed = bad_gateway
  relay (answered status content_type content) =
      if platform.constructs status
      then record {
        status = status;
        content_type = or_text content_type (codes "application/json");
        content = content;
      }
      else bad_gateway

  unfoldable pub proxy_request : Option Text → (Outgoing → Answer) → Incoming → Reply
  unfolding build_outgoing relay
  proxy_request vexil_api_url fetch request = relay (fetch (build_outgoing vexil_api_url request))
