-- ===== src/Api.antt =====
-- web/src/lib/api-client.ts: the dashboard's client of the API server.
pub mod Request
pub mod Endpoints
use vexil.Prelude.{
  ℕ, Bool, true, false, not, ◌&&◌, Option, none, some, List, [], ◌∷◌, ◌++◌, maybe, ◌>>=◌, leb, ◌==◌,
  is_empty, if◌then◌else◌,
}
use vexil.Text.{Text, codes, or_text, or_else, lookup, insert, erase}

-- The part of the browser that the client touches: on the server there is no window.
pub record Browser : Type 0 where
  pub has_window : Bool
  pub storage : List (Text × Text)
  pub location : Text

pub record RequestInit : Type 0 where
  pub method : Option Text
  pub headers : Option (List (Text × Text))
  pub body : Option Text

pub record Call : Type 0 where
  pub url : Text
  pub method : Option Text
  pub headers : List (Text × Text)
  pub body : Option Text

-- A response with what `res.json()` reads, `none` where that throws.
pub record Response (J : Type 0) : Type 0 where
  pub status : ℕ
  pub status_text : Text
  pub json : Option J

pub data Fetched (J : Type 0) : Type 0 where
  rejected : Text → Fetched J
  responded : Response J → Fetched J

-- How a call of the client ends. `malformed` is the exception of a body that is no JSON, or of an
-- error that is null.
pub data Outcome (J : Type 0) : Type 0 where
  value : J → Outcome J
  undefined malformed : Outcome J
  threw : Text → Outcome J

abbrev pub token_key : Text
token_key = codes "vexil-token"

abbrev pub user_key : Text
user_key = codes "vexil-user"

-- `{ ...m, ...n }`.
unfoldable pub spread : List (Text × Text) → List (Text × Text) → List (Text × Text)
spread m [] = m
spread m ((k, v) ∷ n) = spread (insert k v m) n

abbrev authorization : Option Text → List (Text × Text)
authorization none = []
authorization (some []) = []
authorization (some (c ∷ t)) = (codes "Authorization", codes "Bearer " ++ (c ∷ t)) ∷ []

-- The headers that are put together; those of the caller come last.
unfoldable pub merged_headers : Option Text → List (Text × Text) → List (Text × Text)
unfolding spread
merged_headers token own =
    spread (spread ((codes "Content-Type", codes "application/json") ∷ []) (authorization token))
      own

-- The argument of `fetch`: the options are spread behind the headers, and so over them.
unfoldable pub build_call : Text → Browser → Text → RequestInit → Call
unfolding merged_headers
build_call api_base b path options =
    let token = if b.has_window then lookup token_key b.storage else none in
    record {
      url = api_base ++ path;
      method = options.method;
      headers = maybe options.headers (merged_headers token []) λ own. own;
      body = options.body;
    }

-- `Response.ok`.
abbrev pub is_ok : ℕ → Bool
is_ok status = leb 200 status && leb status 299

unfoldable pub sign_out : Browser → Browser
sign_out b = record b {
  storage = erase user_key (erase token_key b.storage);
  location = codes "/login";
}

-- `error_of` reads the property `error` of an answer: nothing where the answer is null, which
-- throws, and a text that may be undefined otherwise.
module _ {J : Type 0} (error_of : J → Option (Option Text)) where
  -- `await res.json().catch(() => ({ error: res.statusText }))`, and the error that is thrown.
  unfoldable pub failure : Response J → Outcome J
  failure res = maybe res.json (threw (or_else res.status_text (codes "Request failed"))) λ error.
      maybe (error_of error) malformed λ message. threw (or_text message (codes "Request failed"))

  unfoldable pub success : Response J → Outcome J
  success res = if res.status == 204 then undefined else maybe res.json malformed value

  unfoldable pub settle : Browser → Fetched J → Browser × Outcome J
  unfolding sign_out failure success
  settle b (rejected message) = (b, threw message)
  settle b (responded res) =
      if res.status == 401 && b.has_window
      then (sign_out b, threw (codes "Unauthorized"))
      else if not (is_ok res.status)
      then (b, failure res)
      else (b, success res)

  -- `request`, with the network as a function.
  unfoldable pub request :
      Text → (Call → Fetched J) → Browser → Text → RequestInit → Browser × Outcome J
  unfolding build_call settle
  request api_base fetch b path options = settle b (fetch (build_call api_base b path options))
