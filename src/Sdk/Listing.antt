-- ===== src/Sdk/Listing.antt =====
-- `allEnv` against `getEnv` of sdks/node/src/index.ts.
use vexil.Prelude.{
  ◌≡◌, refl, sym, ap, ◌∙◌, subst, some, List, [], ◌∷◌, ◌++◌, All, All-In, In, In-map, In-keep,
}
use vexil.Text.{Text, codes, or_else, lookup, DistinctKeys, lookup-In}
use vexil.Text.Case.{IsAscii}
use vexil.Text.Search.{starts_with, starts_with_sound}
use vexil.Sdk.{
  Flag, Client, Host, env, string_flag, env_name, get_env, flag_name, all_env, get_flag, all_flags,
  all_flags_of, get_flag_of,
}
use vexil.Sdk.EnvNames.{IsScreaming, env_name-flag_name_iff}

-- Every variable with the prefix is ASCII, with no lower case letter and no hyphen behind it.
abbrev pub IsConventional : List (Text × Text) → Type 0
IsConventional = All (λ e. (s : Text) → e.0 ≡ codes "FLAG_" ++ s → IsAscii s × IsScreaming s)

or_else_nil : (s : Text) → or_else s [] ≡ s
or_else_nil [] = refl
or_else_nil (c ∷ s) = refl

module _ {J N : Type 0} (host : Host J N) where
  get_env_listed :
      (key v s : Text)
      → key ≡ codes "FLAG_" ++ s
      → IsAscii s
      → IsScreaming s
      → lookup key host.environ ≡ some v
      → get_env host (flag_name host key) ≡ some (string_flag (flag_name host key) (or_else v []))
  unfolding get_env
  get_env_listed key v s shape ascii screams found =
      let back : env_name host (flag_name host key) ≡ key =
        ap (λ k. env_name host (flag_name host k)) shape
        ∙ (env_name-flag_name_iff host s ascii).1 screams
        ∙ sym shape in
      rw (back, found, or_else_nil v)

  all_env-get_env :
      (f : Flag)
      → DistinctKeys host.environ
      → IsConventional host.environ
      → In f (all_env host)
      → get_env host f.name ≡ some f
  unfolding all_env
  all_env-get_env f d conv m =
      let (e, kept, same) = In-map _ _ m in
      let (listed, prefixed) =
        In-keep (λ (e : Text × Text). starts_with e.0 (codes "FLAG_")) host.environ kept in
      let (s, shape) = starts_with_sound e.0 (codes "FLAG_") prefixed in
      let (ascii, screams) = All-In _ host.environ conv listed s shape in
      subst (λ g. get_env host g.name ≡ some g) same
        (get_env_listed e.0 e.1 s shape ascii screams (lookup-In e.0 e.1 host.environ d listed))

  -- With the environment as the provider, `getFlag` returns each flag that `allFlags` lists, if no
  -- variable is defined twice and those with the prefix are conventional.
  pub all_flags-get_flag_env :
      (c : Client) (f : Flag)
      → c.provider ≡ env
      → DistinctKeys host.environ
      → IsConventional host.environ
      → In f (all_flags host c)
      → get_flag host c f.name ≡ some f
  unfolding all_flags all_flags_of get_flag get_flag_of
  all_flags-get_flag_env c f p d conv m =
      subst (λ q. In f (all_flags_of host q c) → get_flag_of host q c f.name ≡ some f) (sym p)
        (all_env-get_env f d conv) m
