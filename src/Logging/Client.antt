-- ===== src/Logging/Client.antt =====
-- pkg/webhook/client_logger.go: the logger that the Vault client is given.
use vault_secrets_webhook.Base.{String, List, [], ◌∷◌, ◌++◌, Assoc}
use vault_secrets_webhook.Logging.{
  Logger, Entry, log, level_debug, level_info, level_warn, level_error,
}

-- `argsToAttrs`
unfoldable pub args_to_attrs : List (Assoc String) → Assoc String
args_to_attrs [] = []
args_to_attrs (arg ∷ args) = arg ++ args_to_attrs args

module _ (logger : Logger) (msg : String) (args : List (Assoc String)) where
  unfoldable pub debug : List Entry → List Entry
  unfolding args_to_attrs
  debug = log logger level_debug msg (args_to_attrs args)

  unfoldable pub trace : List Entry → List Entry
  unfolding debug
  trace = debug

  unfoldable pub info : List Entry → List Entry
  unfolding args_to_attrs
  info = log logger level_info msg (args_to_attrs args)

  unfoldable pub warn : List Entry → List Entry
  unfolding args_to_attrs
  warn = log logger level_warn msg (args_to_attrs args)

  unfoldable pub error : List Entry → List Entry
  unfolding args_to_attrs
  error = log logger level_error msg (args_to_attrs args)
