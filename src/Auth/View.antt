-- ===== src/Auth/View.antt =====
-- What web/src/app/login/page.tsx shows.
use vexil.Prelude.{
  ◌≡◌, refl, Bool, true, false, Option, none, some, [], ◌∷◌, is_empty, if◌then◌else◌,
}
use vexil.Text.{Text, codes, or_text, or_else}
use vexil.Auth.{UserJson, refused, LoginPage, login_message, submit_login, finish_login}

pub record View : Type 0 where
  pub username : Text
  pub password : Text
  pub error : Option Text
  pub button : Text
  pub is_disabled : Bool

unfoldable pub view : LoginPage → View
view p = record {
  username = p.username;
  password = p.password;
  error = if is_empty p.error then none else some p.error;
  button = if p.loading then codes "Signing in..." else codes "Sign in";
  is_disabled = p.loading;
}

module _ (json : UserJson) {J : Type 0} (error_of : J → Option Text) where
  -- While the request is pending, the button is disabled and an earlier message is gone.
  submit_login-view :
      (p : LoginPage)
      → ((view (submit_login json error_of p)).is_disabled ≡ true)
        × ((view (submit_login json error_of p)).error ≡ none)
  unfolding view submit_login
  submit_login-view p = (refl, refl)

  or_text-ne-nil : (o : Option Text) → is_empty (or_text o (codes "Login failed")) ≡ false
  or_text-ne-nil none = refl
  or_text-ne-nil (some []) = refl
  or_text-ne-nil (some (c ∷ s)) = refl

  shown_message :
      (t : Text)
      → is_empty t ≡ false
      → (if is_empty (or_else t []) then none else some (or_else t [])) ≡ some t
  shown_message [] h = cc
  shown_message (c ∷ s) h = refl

  -- A refusal is always told: behind it the button is enabled, what was typed is there, and a message
  -- is shown that is not empty, also where the server gives an empty one or none.
  finish_login-view :
      (error : Option J) (p : LoginPage)
      → let v = view (finish_login json error_of (refused error) p) in
        (v.is_disabled ≡ false)
        × (v.username ≡ p.username)
        × (v.password ≡ p.password)
        × ((message : Text) × (v.error ≡ some message) × (is_empty message ≡ false))
  unfolding view finish_login login_message
  finish_login-view none p = (refl, refl, refl, (_, refl, refl))
  finish_login-view (some error) p =
      let told = or_text-ne-nil (error_of error) in
      (
        refl,
        refl,
        refl,
        (
          or_text (error_of error) (codes "Login failed"),
          shown_message (or_text (error_of error) (codes "Login failed")) told,
          told,
        ),
      )
