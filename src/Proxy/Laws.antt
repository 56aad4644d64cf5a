-- ===== src/Proxy/Laws.antt =====
-- What the proxy passes on, in the two directions.
use vexil.Prelude.{
  ℕ, ◌≤◌, ◌≡◌, refl, ◌≢◌, ◌↔◌, false, Option, none, some, [], ◌∷◌, arith, All-In, In,
}
use vexil.Text.{Text, codes, text_eq_iff, or_text}
use vexil.Proxy.{
  Incoming, Outgoing, Answer, answered, null_body_statuses, Platform, if_given, build_outgoing,
  bad_gateway, relay, proxy_request,
}

if_given_iff : (o : Option Text) (t : Text) → (if_given o ≡ some t) ↔ ((o ≡ some t) × (t ≢ []))
if_given_iff none t = ground arith
if_given_iff (some []) t = ((λ e. cc), λ h. absurd (h.1 (cc)))
if_given_iff (some (c ∷ s)) t = ((λ e. (e, λ z. cc)), λ h. h.0)

-- The request to the API server has the client's method; it carries an authorization exactly if the
-- client sent one that is not empty, and a body exactly if the client's is not empty and the method
-- is neither GET nor HEAD.
build_outgoing_lem :
    (url : Option Text) (request : Incoming) (t : Text)
    → ((build_outgoing url request).method ≡ request.method)
      × (((build_outgoing url request).authorization ≡ some t)
          ↔ ((request.authorization ≡ some t) × (t ≢ [])))
      × (((build_outgoing url request).body ≡ some t) ↔ (
          (request.text ≡ t)
          × (t ≢ [])
          × (request.method ≢ codes "GET")
          × (request.method ≢ codes "HEAD")))
unfolding build_outgoing
build_outgoing_lem url request t = (
  refl,
  if_given_iff request.authorization t,
  ground (
    arith,
    text_eq_iff request.method (codes "GET"),
    text_eq_iff request.method (codes "HEAD"),
    if_given_iff (some request.text) t,
  ),
)

module _ (platform : Platform) (url : Option Text) (fetch : Outgoing → Answer)
    (request : Incoming) where
  -- A status that can have a body is relayed with its content, and with its content type, for which
  -- JSON is the default.
  pub proxy_request-relays :
      (status : ℕ) (content_type : Option Text) (content : Text)
      → fetch (build_outgoing url request) ≡ answered status content_type content
      → 200 ≤ status
      → status ≤ 599
      → ¬ In status null_body_statuses
      → proxy_request platform url fetch request ≡ record {
        status = status;
        content_type = or_text content_type (codes "application/json");
        content = content;
      }
  unfolding proxy_request relay
  proxy_request-relays status content_type content a lo hi body =
      rw (a, platform.with_body status lo hi body)

  -- Where the API server answers with a status that has no body, such as 204 after a deletion, the
  -- client is told that the server could not be reached.
  pub proxy_request_null_body :
      (status : ℕ) (content_type : Option Text) (content : Text)
      → fetch (build_outgoing url request) ≡ answered status content_type content
      → In status null_body_statuses
      → proxy_request platform url fetch request ≡ bad_gateway
  unfolding proxy_request relay
  proxy_request_null_body status content_type content a m =
      let refused : platform.constructs status ≡ false =
        All-In (λ s. platform.constructs s ≡ false) null_body_statuses platform.null_body m in
      rw (a, refused)
