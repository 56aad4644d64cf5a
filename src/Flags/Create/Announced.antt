-- ===== src/Flags/Create/Announced.antt =====
-- The environment variable that the last step of CreateFlagModal.tsx announces, in the environment of
-- an application with the Node.js client of sdks/node/src/index.ts.
use vexil.Prelude.{◌≡◌, refl, sym, ◌∙◌, ◌↔◌, ◌⊎◌, inl, inr, none, some, List, [], ◌∷◌, Bool-cases}
use vexil.Text.{Text, lookup, or_else, text_eq, text_eq_iff}
use vexil.Sdk.{Client, Host, env, string_flag, env_name, get_env, get_flag, get_flag_of}
use vexil.Sdk.EnvNames.{IsFlagName}
use vexil.Flags.Create.{Form, computed_env_var}
use vexil.Flags.Create.Names.{computed_env_var-env_name}
use vexil.Flags.Create.Wizard.{Wizard, open_wizard, Reach}
use vexil.Flags.Create.Wizard.Invariant.{Reach-IsSound_wizard}

chosen : (t d : Text) → (t ≡ []) ⊎ (or_else t d ≡ t)
chosen [] d = inl refl
chosen (c ∷ s) d = inr refl

module _ {J N : Type 0} (host : Host J N) where
  -- An override that is given is what is announced.
  overridden :
      (form : Form)
      → (form.env_var_name ≡ []) ⊎ (computed_env_var host.case form ≡ form.env_var_name)
  unfolding computed_env_var
  overridden form = chosen form.env_var_name _

  announced_iff :
      (form : Form)
      → IsFlagName form.name
      → (computed_env_var host.case form ≡ env_name host form.name)
        ↔ ((form.env_var_name ≡ []) ⊎ (form.env_var_name ≡ env_name host form.name))
  announced_iff form h = (
    (λ e. elim (overridden form) [ inl blank ↦ inl blank | inr given ↦ inr (sym given ∙ e) ]),
    λ cases. elim cases [
      | inl blank ↦ computed_env_var-env_name host form blank h
      | inr same ↦ elim (overridden form) [
        | inl blank ↦ computed_env_var-env_name host form blank h
        | inr given ↦ given ∙ same
      ]
    ],
  )

  read_iff :
      (key name value : Text) (rest : List (Text × Text))
      → lookup (env_name host name) rest ≡ none
      → host.environ ≡ (key, value) ∷ rest
      → (get_env host name ≡ some (string_flag name value)) ↔ (key ≡ env_name host name)
  unfolding get_env lookup
  read_iff key name value rest others e =
      let same = text_eq_iff key (env_name host name) in
      elim (Bool-cases (text_eq key (env_name host name))) [
        | inl found ↦ ((λ h. same.0 found), λ h. rw (e, found) refl)
        | inr other ↦ (
          (λ h. absurd (let f = rw (e, other, others) at h in cc)),
          λ h. absurd (let y = same.1 h in cc),
        )
      ]

  -- In a state that the wizard can reach, let the variable that it announces be set to a value, and no
  -- other variable be the one of the flag's name. Then the Node.js client, with the provider for
  -- the environment, finds the flag with this value exactly if the field for the name of the variable
  -- is empty or repeats the variable of the flag's name: with any other name it finds no such flag.
  pub announced-get_flag_iff :
      (c : Client) (w : Wizard) (value : Text) (rest : List (Text × Text))
      → c.provider ≡ env
      → Reach host.case open_wizard w
      → lookup (env_name host w.form.name) rest ≡ none
      → host.environ ≡ (computed_env_var host.case w.form, value) ∷ rest
      → (get_flag host c w.form.name ≡ some (string_flag w.form.name value))
        ↔ ((w.form.env_var_name ≡ []) ⊎ (w.form.env_var_name ≡ env_name host w.form.name))
  unfolding get_flag get_flag_of
  announced-get_flag_iff c w value rest provider r others e =
      let named = (Reach-IsSound_wizard host.case r).valid_name in
      let (a, b) = announced_iff w.form named in
      let (f, g) = read_iff (computed_env_var host.case w.form) w.form.name value rest others e in
      rw provider ((λ h. a (f h)), λ h. g (b h))
