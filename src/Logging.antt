-- ===== src/Logging.antt =====
-- `slog` as the program uses it: levels, loggers with attributes, and where a record is written.
pub mod Routes
pub mod Client
pub mod Webhook
pub mod Reviews
use vault_secrets_webhook.Base.{
  ℤ, pos, negsuc, String, Bool, true, false, List, [], ◌∷◌, ◌++◌, Assoc, leb,
}

-- `slog.Level`
abbrev pub Level : Type 0
Level = ℤ

-- The constants of `slog`: -4, 0, 4 and 8.
abbrev pub level_debug : Level
level_debug = negsuc 3

abbrev pub level_info : Level
level_info = pos 0

abbrev pub level_warn : Level
level_warn = pos 4

abbrev pub level_error : Level
level_error = pos 8

-- `a <= b`
abbrev pub at_most : Level → Level → Bool
at_most (pos a) (pos b) = leb a b
at_most (pos a) (negsuc b) = false
at_most (negsuc a) (pos b) = true
at_most (negsuc a) (negsuc b) = leb b a

-- A `slog.Record`; the values of attributes are their texts.
pub record Entry : Type 0 where
  pub level : Level
  pub message : String
  pub attributes : Assoc String

-- A `slog.Logger`, by the attributes that `With` has given it.
pub record Logger : Type 0 where
  pub attributes : Assoc String

-- `Logger.Log`: the record, after those already logged.
abbrev pub log : Logger → Level → String → Assoc String → List Entry → List Entry
log l level message attributes entries =
    entries
    ++ record { level = level; message = message; attributes = l.attributes ++ attributes } ∷ []

-- `Logger.With`
abbrev pub with : Logger → Assoc String → Logger
with l attributes = record { attributes = l.attributes ++ attributes }
