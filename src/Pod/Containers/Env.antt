-- ===== src/Pod/Containers/Env.antt =====
-- pkg/webhook/pod.go: what a mutated container finds in its environment.
use mathlib.Core.Option.{or_else}
use vault_secrets_webhook.Base.{
  String, ◌≡◌, ◌∙◌, refl, Bool, true, false, not, Option, none, some, List, [], ◌∷◌, ◌++◌, ◌&&◌,
  ◌==◌, arith, any-append, all, All, if◌then◌else◌,
}
use vault_secrets_webhook.Config.{VaultConfig, Duration}
use vault_secrets_webhook.Kube.{EnvVar, env_var, Volume}
use vault_secrets_webhook.Pod.Containers.{
  is_log_level_set, append_when, base_env, optional_env, mutated_env,
}

-- The value of a variable: the last entry of that name counts.
unfoldable pub value_of : String → List EnvVar → Option String
value_of name [] = none
value_of name (v ∷ env) = elim (value_of name env) [
  | some value ↦ some value
  | none ↦ if v.name == name then some v.value else none
]

value_of-append :
    (name : String) (xs ys : List EnvVar)
    → value_of name (xs ++ ys) ≡ or_else (value_of name ys) (value_of name xs)
unfolding value_of or_else
value_of-append name [] ys = ground arith
value_of-append name (x ∷ xs) ys = ground (arith, value_of-append name xs ys)

-- None of these variables has the name.
abbrev lacks : String → List (Bool × EnvVar) → Bool
lacks name guarded = all (λ (_, v). not (v.name == name)) guarded

value_of-one :
    (name : String) (v : EnvVar) (env : List EnvVar)
    → (v.name == name) ≡ false
    → value_of name (env ++ (v ∷ [])) ≡ value_of name env
unfolding value_of or_else
value_of-one name v env other = value_of-append name env (v ∷ []) ∙ ground arith

value_of-append_when :
    (name : String) (env : List EnvVar) (guarded : List (Bool × EnvVar))
    → lacks name guarded ≡ true
    → value_of name (append_when env guarded) ≡ value_of name env
unfolding append_when
value_of-append_when name env [] l = refl
value_of-append_when name env ((true, v) ∷ rest) l =
    value_of-append_when name (env ++ (v ∷ [])) rest (ground arith)
    ∙ value_of-one name v env (ground arith)
value_of-append_when name env ((false, v) ∷ rest) l =
    value_of-append_when name env rest (ground arith)

log_level_unset :
    (env : List EnvVar) → is_log_level_set env ≡ false → value_of "VAULT_LOG_LEVEL" env ≡ none
unfolding is_log_level_set value_of
log_level_unset [] e = refl
log_level_unset (v ∷ env) e = ground (arith, log_level_unset env)

-- Variables of other names do not set the log level.
is_log_level_set-others :
    (xs ys : List EnvVar)
    → is_log_level_set ys ≡ false
    → is_log_level_set (xs ++ ys) ≡ is_log_level_set xs
unfolding is_log_level_set
is_log_level_set-others xs ys others = any-append _ xs ys ∙ ground arith

is_log_level_set-when :
    (test : Bool) (env : List EnvVar) (v : EnvVar)
    → is_log_level_set (v ∷ []) ≡ false
    → is_log_level_set (append_when env ((test, v) ∷ [])) ≡ is_log_level_set env
unfolding append_when
is_log_level_set-when true env v other = is_log_level_set-others env (v ∷ []) other
is_log_level_set-when false env v other = refl

module _ (show : Duration → String) (c : VaultConfig) (volumes : List Volume)
    (env : List EnvVar) where
  -- A variable that only the base variables have keeps their value.
  base_value :
      (name value : String)
      → value_of name (base_env show c) ≡ some value
      → lacks name ((true, env_var "VAULT_TOKEN" c.token) ∷ []) ≡ true
      → lacks name ((true, env_var "VAULT_LOG_LEVEL" c.log_level) ∷ optional_env show c volumes)
        ≡ true
      → value_of name (mutated_env show c volumes env) ≡ some value
  unfolding mutated_env or_else
  base_value name value based token others =
      value_of-append_when name _ _ others
      ∙ value_of-append_when name _ _ token
      ∙ value_of-append name env (base_env show c)
      ∙ rw based

  -- Each setting of the first group reaches a mutated container with the value of the options,
  -- whatever the container's own environment says.
  pub mutated_env-base_env :
      All (λ v. value_of v.name (mutated_env show c volumes env) ≡ some v.value) (base_env show c)
  unfolding base_env optional_env value_of
  mutated_env-base_env = (
    base_value "VAULT_ADDR" _ refl refl refl,
    (
      base_value "VAULT_SKIP_VERIFY" _ refl refl refl,
      (
        base_value "VAULT_AUTH_METHOD" _ refl refl refl,
        (
          base_value "VAULT_PATH" _ refl refl refl,
          (
            base_value "VAULT_ROLE" _ refl refl refl,
            (
              base_value "VAULT_IGNORE_MISSING_SECRETS" _ refl refl refl,
              (
                base_value "VAULT_ENV_PASSTHROUGH" _ refl refl refl,
                (
                  base_value "VAULT_JSON_LOG" _ refl refl refl,
                  (base_value "VAULT_CLIENT_TIMEOUT" _ refl refl refl, tt),
                ),
              ),
            ),
          ),
        ),
      ),
    ),
  )

  -- The environment before the log level is decided.
  abbrev with_token : List EnvVar
  with_token =
      append_when (env ++ base_env show c)
        ((not (c.token == ""), env_var "VAULT_TOKEN" c.token) ∷ [])

  value_of-with_token : value_of "VAULT_LOG_LEVEL" with_token ≡ value_of "VAULT_LOG_LEVEL" env
  unfolding base_env value_of or_else
  value_of-with_token =
      value_of-append_when "VAULT_LOG_LEVEL" (env ++ base_env show c) _ refl
      ∙ value_of-append "VAULT_LOG_LEVEL" env (base_env show c)

  is_log_level_set-with_token : is_log_level_set with_token ≡ is_log_level_set env
  unfolding base_env is_log_level_set
  is_log_level_set-with_token =
      is_log_level_set-when (not (c.token == "")) (env ++ base_env show c) _ refl
      ∙ is_log_level_set-others env (base_env show c) refl

  value_of-level :
      (test : Bool)
      → value_of "VAULT_LOG_LEVEL" (
          append_when with_token
            ((test, env_var "VAULT_LOG_LEVEL" c.log_level) ∷ optional_env show c volumes))
        ≡ (if test then some c.log_level else value_of "VAULT_LOG_LEVEL" env)
  unfolding append_when optional_env or_else value_of
  value_of-level true =
      value_of-append_when "VAULT_LOG_LEVEL"
        (with_token ++ (env_var "VAULT_LOG_LEVEL" c.log_level ∷ [])) (optional_env show c volumes)
        refl
      ∙ value_of-append "VAULT_LOG_LEVEL" with_token (env_var "VAULT_LOG_LEVEL" c.log_level ∷ [])
  value_of-level false =
      value_of-append_when "VAULT_LOG_LEVEL" with_token (optional_env show c volumes) refl
      ∙ value_of-with_token

  -- The log level is the container's own where it sets one, else that of the options unless it is
  -- empty.
  mutated_env-log_level : value_of "VAULT_LOG_LEVEL" (mutated_env show c volumes env) ≡ (
      if is_log_level_set env
      then value_of "VAULT_LOG_LEVEL" env
      else if c.log_level == ""
      then none
      else some c.log_level)
  unfolding mutated_env
  mutated_env-log_level =
      value_of-level (not (is_log_level_set with_token) && not (c.log_level == ""))
      ∙ rw is_log_level_set-with_token (ground (arith, log_level_unset env))
