-- ===== src/Sdk/EnvNames.antt =====
-- The names of the environment variables: `getEnv` and `allEnv` of sdks/node/src/index.ts.
use vexil.Prelude.{
  ℕ, ◌<◌, ◌≡◌, refl, sym, ap, ◌∙◌, ◌≢◌, ◌↔◌, Bool, true, false, ◌||◌, [], ◌∷◌, ◌++◌, map, arith,
  ◌==◌, All, if◌then◌else◌,
}
use vexil.Text.{Text, codes}
use vexil.Text.Case.{is_lower, is_digit, upper_code, lower_code, IsAscii, replace_all}
use vexil.Sdk.{Host, env_name, flag_name}

-- What the code makes of one ASCII code unit, in the two directions.
abbrev upper_dash : ℕ → ℕ
upper_dash c = let u = upper_code c in if u == b'-' then b'_' else u

abbrev lower_bar : ℕ → ℕ
lower_bar c = let u = lower_code c in if u == b'_' then b'-' else u

pub upper_dash-lower_bar_iff :
    (c : ℕ) → (upper_dash (lower_bar c) ≡ c) ↔ ((is_lower c ≡ false) × (c ≢ b'-'))
unfolding upper_code lower_code
upper_dash-lower_bar_iff c = ground arith

lower_bar-upper_dash :
    (c : ℕ) → is_lower c || is_digit c || c == b'-' ≡ true → lower_bar (upper_dash c) ≡ c
unfolding upper_code lower_code
lower_bar-upper_dash c h = ground arith

lower_bar_ascii : (c : ℕ) → c < 128 → lower_bar c < 128
unfolding lower_code
lower_bar_ascii c h = ground arith

upper_dash_ascii : (c : ℕ) → c < 128 → upper_dash c < 128
unfolding upper_code
upper_dash_ascii c h = ground arith

replace-upper : (s : Text) → replace_all b'-' b'_' (map upper_code s) ≡ map upper_dash s
unfolding replace_all
replace-upper [] = refl
replace-upper (c ∷ s) = ap (λ t. upper_dash c ∷ t) (replace-upper s)

replace-lower : (s : Text) → replace_all b'_' b'-' (map lower_code s) ≡ map lower_bar s
unfolding replace_all
replace-lower [] = refl
replace-lower (c ∷ s) = ap (λ t. lower_bar c ∷ t) (replace-lower s)

map-IsAscii :
    (f : ℕ → ℕ) → ((c : ℕ) → c < 128 → f c < 128) → (s : Text) → IsAscii s → IsAscii (map f s)
map-IsAscii f h [] a = tt
map-IsAscii f h (c ∷ s) a = (h c a.0, map-IsAscii f h s a.1)

-- A variable's name behind its prefix that the client can write: no lower case and no hyphen.
abbrev pub IsScreaming : Text → Type 0
IsScreaming = All (λ c. (is_lower c ≡ false) × (c ≢ b'-'))

-- A flag's name as the platform takes it: lower case letters, digits and hyphens.
abbrev pub is_name_code : ℕ → Bool
is_name_code c = is_lower c || is_digit c || c == b'-'

abbrev pub IsFlagName : Text → Type 0
IsFlagName = All (λ c. is_name_code c ≡ true)

pub IsFlagName-IsAscii : (s : Text) → IsFlagName s → IsAscii s
IsFlagName-IsAscii [] h = tt
IsFlagName-IsAscii (c ∷ s) h = (ground arith, IsFlagName-IsAscii s h.1)

back_iff : (s : Text) → (map upper_dash (map lower_bar s) ≡ s) ↔ IsScreaming s
back_iff [] = ((λ e. tt), λ h. refl)
back_iff (c ∷ s) = ground (arith, upper_dash-lower_bar_iff c, back_iff s)

forth : (s : Text) → IsFlagName s → map lower_bar (map upper_dash s) ≡ s
forth [] h = refl
forth (c ∷ s) h = ground (arith, lower_bar-upper_dash c h.0, forth s h.1)

module _ {J N : Type 0} (host : Host J N) where
  env_name_ascii : (s : Text) → IsAscii s → env_name host s ≡ codes "FLAG_" ++ map upper_dash s
  unfolding env_name
  env_name_ascii s a = rw (host.case.to_upper_ascii s a, replace-upper s)

  flag_name_ascii : (s : Text) → IsAscii s → flag_name host (codes "FLAG_" ++ s) ≡ map lower_bar s
  unfolding flag_name
  flag_name_ascii s a = rw (host.case.to_lower_ascii s a, replace-lower s)

  env_name-flag_name_ascii :
      (s : Text)
      → IsAscii s
      → env_name host (flag_name host (codes "FLAG_" ++ s))
        ≡ codes "FLAG_" ++ map upper_dash (map lower_bar s)
  env_name-flag_name_ascii s a =
      rw (flag_name_ascii s a) (env_name_ascii _ (map-IsAscii lower_bar lower_bar_ascii s a))

  -- Of an ASCII variable name behind `FLAG_`, the name that `allEnv` lists is read back by `getEnv`
  -- from that same variable exactly if the name holds no lower case letter and no hyphen.
  pub env_name-flag_name_iff :
      (s : Text)
      → IsAscii s
      → (env_name host (flag_name host (codes "FLAG_" ++ s)) ≡ codes "FLAG_" ++ s) ↔ IsScreaming s
  env_name-flag_name_iff s a = (
    (λ e. (back_iff s).0 (cc (env_name-flag_name_ascii s a, e))),
    λ h. rw (env_name-flag_name_ascii s a, (back_iff s).1 h),
  )

  -- A flag name of the platform comes back from its environment variable.
  flag_name-env_name : (s : Text) → IsFlagName s → flag_name host (env_name host s) ≡ s
  flag_name-env_name s h =
      let a = IsFlagName-IsAscii s h in
      rw (env_name_ascii s a, flag_name_ascii _ (map-IsAscii upper_dash upper_dash_ascii s a))
        (forth s h)

  -- So two flag names of the platform never share a variable.
  pub env_name_injective :
      (s t : Text) → IsFlagName s → IsFlagName t → env_name host s ≡ env_name host t → s ≡ t
  env_name_injective s t h k e =
      sym (flag_name-env_name s h) ∙ ap (flag_name host) e ∙ flag_name-env_name t k
