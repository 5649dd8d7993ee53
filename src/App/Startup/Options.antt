-- ===== src/App/Startup/Options.antt =====
-- src/app/include/clyman_application.h, `main`: the options, and the loading of the configuration
use clyman.Prelude.{
  ℕ, zero, suc, String, ◌==◌, string_eq, Bool, true, false, append_text, List, [], ◌∷◌, ◌++◌, map,
  if◌then◌else◌,
}

-- The profile once it is loaded: an option that is not there reads as the empty text.
pub record Profile : Type 0 where
  pub get_opt : String → String
  pub cluster_name : String
  pub has_consul : Bool

-- `config.add_secure_opt` is called on each of these.
unfoldable pub secure_ops : String → List String
secure_ops cluster_name =
    map (append_text cluster_name) (
      ".transaction.security.auth.user" ∷ ".transaction.security.auth.password"
      ∷ ".transaction.security.hash.password" ∷ ".event.security.out.aes.key"
      ∷ ".event.security.out.aes.iv" ∷ ".event.security.out.aes.salt"
      ∷ ".event.security.out.aes.password" ∷ ".event.security.in.aes.key"
      ∷ ".event.security.in.aes.iv" ∷ ".event.security.in.aes.salt"
      ∷ ".event.security.in.aes.password" ∷ [])
    ++ "mongo.auth.un" ∷ "mongo.auth.pw" ∷ []

-- `config.add_opt` is called on each of these: an option and its default.
abbrev pub default_opts : List (String × String)
default_opts =
    ("mongo", "")
    ∷ ("mongo.db", "clyman")
    ∷ ("mongo.obj.collection", "obj3")
    ∷ ("mongo.prop.collection", "property")
    ∷ ("mongo.ssl.pem.file", "")
    ∷ ("mongo.ssl.pem.password", "")
    ∷ ("mongo.ssl.crl.file", "")
    ∷ ("mongo.ssl.ca.file", "")
    ∷ ("mongo.ssl.ca.dir", "")
    ∷ ("mongo.ssl.active", "")
    ∷ ("mongo.ssl.validate_server_cert", "true")
    ∷ ("transaction.format", "json")
    ∷ ("transaction.id.stamp", "true")
    ∷ ("event.stream.method", "kafka")
    ∷ ("event.format", "json")
    ∷ ("event.destination.host", "localhost")
    ∷ ("event.destination.port", "8764")
    ∷ ("http.host", "localhost")
    ∷ ("http.port", "8768")
    ∷ ("udp.port", "8762")
    ∷ ("log.file", "clyman.log")
    ∷ ("log.level", "Info")
    ∷ ("transaction.security.ssl.ca.vault.active", "false")
    ∷ ("transaction.security.ssl.ca.vault.role_name", "test")
    ∷ ("transaction.security.ssl.ca.vault.common_name", "test")
    ∷ ("transaction.security.ssl.enabled", "false")
    ∷ ("transaction.security.auth.type", "none")
    ∷ ("event.security.aes.enabled", "false")
    ∷ []

-- The loop over `config.load_config()`, over the attempts that are left: `loads n` says whether the
-- call after `n` failures returns.
unfoldable pub load_loop : (ℕ → Bool) → ℕ → ℕ → Bool
load_loop loads config_attempts zero = false
load_loop loads config_attempts (suc left) =
    let rest = load_loop loads (suc config_attempts) left in
    if loads config_attempts then true else rest

-- The loop is left for good once there are more than 50 failures.
unfoldable pub load_config : (ℕ → Bool) → Bool
unfolding load_loop
load_config loads = load_loop loads 0 51

pub data Priority : Type 0 where
  prio_debug : Priority
  prio_information : Priority
  prio_warning : Priority
  prio_error : Priority

unfoldable pub log_priority : String → Priority
log_priority level =
    if level == "Debug"
    then prio_debug
    else if level == "Warn"
    then prio_warning
    else if level == "Error"
    then prio_error
    else prio_information
