-- ===== src/Logging/Routes.antt =====
-- Where records are written: the routers of main.go and of pkg/webhook/registry.go.
use vault_secrets_webhook.Base.{
  pos, negsuc, String, ◌≡◌, refl, ◌∙◌, Bool, true, false, ◌&&◌, Option, none, some, List, [], ◌∷◌,
  eqb, any, if◌then◌else◌, get_or_else,
}
use vault_secrets_webhook.Logging.{Level, level_debug, level_info, level_warn, level_error, at_most}

pub data Stream : Type 0 where
  stdout stderr : Stream

-- A handler that a `slogmulti` router is given: its stream, its format, its least level, and the
-- levels that its filter lets through, if it has one.
pub record Handler : Type 0 where
  pub stream : Stream
  pub json : Bool
  pub least : Level
  pub levels : Option (List Level)

abbrev same_level : Level → Level → Bool
same_level (pos a) (pos b) = eqb a b
same_level (negsuc a) (negsuc b) = eqb a b
same_level _ _ = false

-- `levelFilter`: `slices.Contains(levels, r.Level)`.
abbrev passes : Level → Option (List Level) → Bool
passes level none = true
passes level (some levels) = any (same_level level) levels

-- The documented behaviour of a `slogmulti` router: a record is written by every handler that is
-- enabled for its level and whose filter lets it through.
unfoldable pub written : List Handler → Level → List (Stream × Bool)
written [] level = []
written (h ∷ handlers) level =
    let rest = written handlers level in
    if at_most h.least level && passes level h.levels then (h.stream, h.json) ∷ rest else rest

-- The router of main.go, from `enable_json_log` and `log_level`; `unmarshal` is
-- `slog.Level.UnmarshalText`, where none is an error.
unfoldable pub main_router : (String → Option Level) → Bool → String → List Handler
main_router unmarshal enable_json_log log_level =
    let level = get_or_else (unmarshal log_level) level_info in
    record {
      stream = stderr;
      json = enable_json_log;
      least = level_warn;
      levels = some (level_warn ∷ level_error ∷ []);
    }
    ∷ record {
      stream = stdout;
      json = enable_json_log;
      least = level;
      levels = some (level_debug ∷ level_info ∷ []);
    }
    ∷ []

-- The router of the registry's logger.
unfoldable pub registry_router : Bool → List Handler
registry_router enable_json_log =
    record { stream = stderr; json = enable_json_log; least = level_warn; levels = none }
    ∷ record {
      stream = stdout;
      json = enable_json_log;
      least = level_debug;
      levels = some (level_debug ∷ level_info ∷ []);
    }
    ∷ []

module _ (route : List Handler → Level → List (Stream × Bool))
    (follows : (handlers : List Handler) (level : Level)
      → route handlers level ≡ written handlers level)
    (unmarshal : String → Option Level) (enable_json_log : Bool) (log_level : String) where
  -- If the router does what is documented: in main.go, warnings and errors are written once, to the standard error, whatever the level that
  -- is set; information and debugging once, to the standard output, exactly where their level is at
  -- least the one that is set, or INFO where the setting names none.
  route-main_router :
      let router = main_router unmarshal enable_json_log log_level in
      let least = get_or_else (unmarshal log_level) level_info in
      (route router level_error ≡ (stderr, enable_json_log) ∷ [])
      × (route router level_warn ≡ (stderr, enable_json_log) ∷ [])
      × (route router level_info
          ≡ (if at_most least level_info then (stdout, enable_json_log) ∷ [] else []))
      × (route router level_debug
          ≡ (if at_most least level_debug then (stdout, enable_json_log) ∷ [] else []))
  unfolding written main_router
  route-main_router =
      let router = main_router unmarshal enable_json_log log_level in
      let least = get_or_else (unmarshal log_level) level_info in
      (
        follows router level_error ∙ filtered (at_most least level_error),
        follows router level_warn ∙ filtered (at_most least level_warn),
        follows router level_info ∙ let_through (at_most least level_info),
        follows router level_debug ∙ let_through (at_most least level_debug),
      )
    where
      filtered :
          (enabled : Bool)
          → ◌≡◌ {A = List (Stream × Bool)}
              ((stderr, enable_json_log)
                ∷ (if enabled && false then (stdout, enable_json_log) ∷ [] else []))
              ((stderr, enable_json_log) ∷ [])
      filtered true = refl
      filtered false = refl

      let_through :
          (enabled : Bool)
          → ◌≡◌ {A = List (Stream × Bool)}
              (if enabled && true then (stdout, enable_json_log) ∷ [] else [])
              (if enabled then (stdout, enable_json_log) ∷ [] else [])
      let_through true = refl
      let_through false = refl
