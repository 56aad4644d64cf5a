-- ===== src/Flags/Create/Names.antt =====
-- The names that the wizard makes: the flag's, and the environment variable's, which the Node.js
-- client of sdks/node/src/index.ts has to look up again.
use vexil.Prelude.{
  ℕ, ◌≡◌, refl, ap, Bool, true, [], ◌∷◌, ◌++◌, map, arith, ◌==◌, All, if◌then◌else◌, Bool-cases,
  inl, inr,
}
use vexil.Text.{Text, codes}
use vexil.Text.Case.{CaseMapping, IsAscii, upper_code, lower_code, replace_outside, replace_all}
use vexil.Sdk.{Host, env_name}
use vexil.Sdk.EnvNames.{IsFlagName, IsFlagName-IsAscii, is_name_code}
use vexil.Flags.Edit.Editor.Summary.{env_var_placeholder}
use vexil.Flags.Create.{
  Form, in_name, in_env_var, in_computed, clean_name, clean_env_var, computed_env_var,
}

replace_outside-All :
    (keep : ℕ → Bool) (r : ℕ) (s : Text)
    → keep r ≡ true
    → All (λ c. keep c ≡ true) (replace_outside keep r s)
unfolding replace_outside
replace_outside-All keep r [] h = tt
replace_outside-All keep r (c ∷ s) h = elim (Bool-cases (keep c)) [
  | inl kept ↦ (rw kept kept, replace_outside-All keep r s h)
  | inr other ↦ (rw other h, replace_outside-All keep r s h)
]

replace_outside_of_All :
    (keep : ℕ → Bool) (r : ℕ) (s : Text) → All (λ c. keep c ≡ true) s → replace_outside keep r s ≡ s
unfolding replace_outside
replace_outside_of_All keep r [] h = refl
replace_outside_of_All keep r (c ∷ s) h = rw (h.0, replace_outside_of_All keep r s h.1)

computed_code :
    (c : ℕ)
    → is_name_code c ≡ true
    → (let u = upper_code c in if in_computed u then u else b'_')
      ≡ (let u = upper_code c in if u == b'-' then b'_' else u)
unfolding upper_code
computed_code c h = ground arith

computed_replace :
    (s : Text)
    → IsFlagName s
    → replace_outside in_computed b'_' (map upper_code s) ≡ replace_all b'-' b'_' (map upper_code s)
unfolding replace_outside replace_all
computed_replace [] h = refl
computed_replace (c ∷ s) h = cc (computed_code c h.0, computed_replace s h.1)

name_codes : (s : Text) → IsFlagName s → map lower_code s ≡ s
unfolding lower_code
name_codes [] h = refl
name_codes (c ∷ s) h = let same : lower_code c ≡ c = ground arith in cc (same, name_codes s h.1)

env_var_codes : (s : Text) → All (λ c. in_env_var c ≡ true) s → (map upper_code s ≡ s) × IsAscii s
unfolding upper_code
env_var_codes [] h = (refl, tt)
env_var_codes (c ∷ s) h =
    let same : upper_code c ≡ c = ground arith in
    let (e, a) = env_var_codes s h.1 in (cc (same, e), (ground arith, a))

module _ (case : CaseMapping) where
  -- Whatever is typed, the flag's name holds lower case letters, digits and hyphens only, and the
  -- override of the variable upper case letters, digits and underscores only.
  pub clean_name-IsFlagName :
      (t : Text)
      → IsFlagName (clean_name case t) × All (λ c. in_env_var c ≡ true) (clean_env_var case t)
  unfolding clean_name clean_env_var
  clean_name-IsFlagName t =
      (replace_outside-All in_name b'-' _ refl, replace_outside-All in_env_var b'_' _ refl)

  -- What is typed as such is left as it is.
  pub clean_name_of_IsFlagName : (t : Text) → IsFlagName t → clean_name case t ≡ t
  unfolding clean_name
  clean_name_of_IsFlagName t h =
      rw (case.to_lower_ascii t (IsFlagName-IsAscii t h), name_codes t h)
        (replace_outside_of_All in_name b'-' t h)

  pub clean_env_var_of_All :
      (t : Text) → All (λ c. in_env_var c ≡ true) t → clean_env_var case t ≡ t
  unfolding clean_env_var
  clean_env_var_of_All t h =
      let (e, a) = env_var_codes t h in
      rw (case.to_upper_ascii t a, e) (replace_outside_of_All in_env_var b'_' t h)

-- Where no override is given, the variable that the wizard announces for a flag, whose name holds
-- lower case letters, digits and hyphens only, is the one that the Node.js client reads for it.
pub computed_env_var-env_name :
    {J N : Type 0} (host : Host J N) (form : Form)
    → form.env_var_name ≡ []
    → IsFlagName form.name
    → computed_env_var host.case form ≡ env_name host form.name
unfolding computed_env_var env_name
computed_env_var-env_name host form e h =
    let ascii = host.case.to_upper_ascii form.name (IsFlagName-IsAscii form.name h) in
    rw (e, ascii) (ap (λ t. codes "FLAG_" ++ t) (computed_replace form.name h))

-- The variable that the form for a flag names where its field is empty is the one that the Node.js
-- client reads for the flag.
env_var_placeholder-env_name :
    {J N : Type 0} (host : Host J N) (name : Text)
    → env_var_placeholder host.case name ≡ env_name host name
unfolding env_var_placeholder env_name
env_var_placeholder-env_name host name = refl
