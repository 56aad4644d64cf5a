-- ===== src/Workloads/Masked.antt =====
-- What a card of web/src/app/workloads/page.tsx shows of the variables that come from secrets.
use vexil.Prelude.{
  map_option, ◌≡◌, refl, Option, none, some, List, [], ◌∷◌, map, catch, Bool-cases, inl, inr,
  if◌then◌else◌,
}
use mathlib.Core.Path.{ap₂}
use vexil.Text.{Text}
use vexil.Types.{EnvVarInfo, ContainerInfo, DiscoveredWorkload}
use vexil.Workloads.{env_text, env_row, container_card, card}

-- The workload with other values in the variables that are masked.
abbrev pub redact_env : (Text → Option Text) → EnvVarInfo → EnvVarInfo
redact_env other env = record env { value = if env.is_masked then other env.name else env.value }

abbrev pub redact_container : (Text → Option Text) → ContainerInfo → ContainerInfo
redact_container other c = record c { env_vars = map_option (map (redact_env other)) c.env_vars }

abbrev pub redact : (Text → Option Text) → DiscoveredWorkload → DiscoveredWorkload
redact other w = record w { containers = map_option (map (redact_container other)) w.containers }

env_text-redact :
    (other : Text → Option Text) (env : EnvVarInfo) → env_text (redact_env other env) ≡ env_text env
env_text-redact other env = elim (Bool-cases env.is_masked) [
  | inl masked ↦ simp masked
  | inr plain ↦ simp plain
]

envs-redact :
    (other : Text → Option Text) (envs : List EnvVarInfo)
    → map env_row (map (redact_env other) envs) ≡ map env_row envs
envs-redact other [] = refl
envs-redact other (env ∷ envs) = cc (env_text-redact other env, envs-redact other envs)

envs_option-redact :
    (other : Text → Option Text) (envs : Option (List EnvVarInfo))
    → map env_row (catch (map_option (map (redact_env other)) envs) [])
      ≡ map env_row (catch envs [])
envs_option-redact other none = refl
envs_option-redact other (some envs) = envs-redact other envs

container_card-redact :
    (other : Text → Option Text) (c : ContainerInfo)
    → container_card (redact_container other c) ≡ container_card c
container_card-redact other c = rw (envs_option-redact other c.env_vars)

containers-redact :
    (other : Text → Option Text) (cs : List ContainerInfo)
    → map container_card (map (redact_container other) cs) ≡ map container_card cs
containers-redact other [] = refl
containers-redact other (c ∷ cs) =
    ap₂ ◌∷◌ (container_card-redact other c) (containers-redact other cs)

containers_option-redact :
    (other : Text → Option Text) (cs : Option (List ContainerInfo))
    → map container_card (catch (map_option (map (redact_container other)) cs) [])
      ≡ map container_card (catch cs [])
containers_option-redact other none = refl
containers_option-redact other (some cs) = containers-redact other cs

-- A card does not depend on the values of the variables that are masked: with any other values in
-- their place, by their names, it is the same.
pub card-redact :
    (other : Text → Option Text) (w : DiscoveredWorkload) → card (redact other w) ≡ card w
unfolding card
card-redact other w = rw (containers_option-redact other w.containers)
