-- ===== src/Auth/Allowlist/Environment.antt =====
-- backend/core/kernel/config/environment.py, and when a missing Redis closes the allowlist. A
-- ValueError is none.
use nyzrating.Prelude.{Bool, false, ◌&&◌, ◌||◌, Option, none, some, List, [], ◌∷◌, if◌then◌else◌}
use nyzrating.Prelude.Text.{Text, codes, text_eq, strip, lower, mem_text}

abbrev pub allowed_envs : List Text
allowed_envs = codes "local" ∷ codes "test" ∷ codes "staging" ∷ codes "production" ∷ []

abbrev pub env_alias : Text → Text
env_alias env =
    if text_eq env (codes "dev")
    then codes "local"
    else if text_eq env (codes "prod")
    then codes "production"
    else env

unfoldable pub normalize_app_env : Text → Option Text
normalize_app_env value =
    let env = env_alias (lower (strip value)) in
    if mem_text env allowed_envs then some env else none

unfoldable pub is_deployed_env : Text → Option Bool
is_deployed_env value = elim (normalize_app_env value) [
  | none ↦ none
  | some env ↦ some (text_eq env (codes "staging") || text_eq env (codes "production"))
]

-- The environment is none where the configuration cannot be read.
unfoldable pub fail_closed_active : Option Text → Bool → Option Bool
fail_closed_active none fail_closed_without_redis = some false
fail_closed_active (some env) fail_closed_without_redis = elim (is_deployed_env env) [
  | none ↦ none
  | some deployed ↦ some (deployed && fail_closed_without_redis)
]
