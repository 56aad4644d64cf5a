-- ===== src/Api/Request.antt =====
-- The shared request of web/src/lib/api-client.ts.
use vexil.Prelude.{
  ◌≤◌, ◌≡◌, refl, ◌≢◌, ◌↔◌, ◌⊎◌, inl, inr, true, false, ◌&&◌, Option, none, some, [], ◌∷◌, ◌++◌,
  arith, ◌==◌, if◌then◌else◌, Bool-cases,
}
use vexil.Text.{Text, codes, text_eq, lookup, insert, erase, lookup-erase}
use vexil.Api.{
  Browser, RequestInit, Response, responded, value, threw, token_key, user_key, spread,
  merged_headers, build_call, is_ok, failure, success, settle,
}

-- The header that a token stands for; an empty token stands for none.
abbrev pub bearer : Option Text → Option Text
bearer none = none
bearer (some []) = none
bearer (some (c ∷ t)) = some (codes "Bearer " ++ c ∷ t)

merged_headers_lem :
    (token : Option Text)
    → (lookup (codes "Content-Type") (merged_headers token []) ≡ some (codes "application/json"))
      × (lookup (codes "Authorization") (merged_headers token []) ≡ bearer token)
unfolding merged_headers spread insert lookup text_eq
merged_headers_lem none = (refl, refl)
merged_headers_lem (some []) = (refl, refl)
merged_headers_lem (some (d ∷ u)) = (refl, refl)

-- The token that the requests of this browser carry.
abbrev pub stored_token : Browser → Option Text
stored_token b = if b.has_window then lookup token_key b.storage else none

module _ (api_base path : Text) (b : Browser) where
  -- A request without headers of its own is sent with a stored token as its bearer, and with no
  -- authorization if there is none or it is empty; its content type is JSON.
  pub build_call-headers :
      (options : RequestInit)
      → options.headers ≡ none
      → (lookup (codes "Content-Type") (build_call api_base b path options).headers
          ≡ some (codes "application/json"))
        × (lookup (codes "Authorization") (build_call api_base b path options).headers
            ≡ bearer (stored_token b))
  unfolding build_call
  build_call-headers options h = rw h (merged_headers_lem (stored_token b))

module _ {J : Type 0} (error_of : J → Option (Option Text)) (b : Browser) (res : Response J) where
  failure-ne-value : (v : J) → failure error_of res ≢ value v
  unfolding failure
  failure-ne-value v e = ground arith

  success-eq-value_iff :
      (v : J) → (success error_of res ≡ value v) ↔ ((res.status ≢ 204) × (res.json ≡ some v))
  unfolding success
  success-eq-value_iff v = ground arith

  -- After a 401 in a browser the stored token and user are gone, every other entry of the storage
  -- is as before, the page is sent to the login, and the caller gets an exception.
  settle_unauthorized :
      res.status ≡ 401
      → b.has_window ≡ true
      → ((settle error_of b (responded res)).1 ≡ threw (codes "Unauthorized"))
        × ((settle error_of b (responded res)).0.location ≡ codes "/login")
        × ((k : Text)
            → lookup k (settle error_of b (responded res)).0.storage ≡ (
                if text_eq user_key k
                then none
                else if text_eq token_key k
                then none
                else lookup k b.storage))
  unfolding settle
  settle_unauthorized s w =
      rw (s, w)
        (
          refl,
          refl,
          λ k. rw (
            lookup-erase user_key k (erase token_key b.storage),
            lookup-erase token_key k b.storage,
          ),
        )

  -- Every other answer leaves the browser as it is. The caller gets a value only from a status from
  -- 200 to 299 other than 204, and then it is the answer's body.
  pub settle_other :
      (res.status ≢ 401) ⊎ (b.has_window ≡ false)
      → ((settle error_of b (responded res)).0 ≡ b)
        × ((v : J)
            → ((settle error_of b (responded res)).1 ≡ value v) ↔ (
                (200 ≤ res.status) × (res.status ≤ 299) × (res.status ≢ 204) × (res.json ≡ some v)))
  unfolding settle
  settle_other o =
      let passed : (res.status == 401 && b.has_window) ≡ false = ground arith in
      rw passed (elim (Bool-cases (is_ok res.status)) [
        | inl fine ↦ rw fine (refl, λ v. ground (arith, success-eq-value_iff v))
        | inr bad ↦
            rw bad (refl, λ v. ((λ e. absurd (failure-ne-value v e)), λ h. absurd (ground arith)))
      ])
