-- ===== src/Db/Connection.antt =====
-- src/db/core_database_manager.cpp: `find_new_connection` and `init_with_connection`, and the
-- constructors of src/db/include/core_database_manager.h
mod Laws
mod Tests
use clyman.Prelude.{
  String, Bool, true, false, not, is_empty, append_text, Option, none, some, if◌then◌else◌,
}
use clyman.Outcome.{Outcome, ok, throw, crash}
use clyman.Outcome.Io.{Io}
use clyman.App.Cluster.{Service}

-- What the constructor keeps of the configuration.
pub record SslSettings : Type 0 where
  pub ssl_active : Bool
  pub allow_invalid_certs : Bool
  pub pem_file : String
  pub pem_password : String
  pub ca_file : String
  pub ca_dir : String
  pub crl_file : String

-- `mongocxx::options::ssl`; `none` is an option that was not set.
pub record SslOptions : Type 0 where
  pub allow_invalid_certificates : Option Bool
  pub pem_file : Option String
  pub pem_password : Option String
  pub ca_file : Option String
  pub ca_dir : Option String
  pub crl_file : Option String

abbrev pub no_options : SslOptions
no_options = record {
  allow_invalid_certificates = none;
  pem_file = none;
  pem_password = none;
  ca_file = none;
  ca_dir = none;
  crl_file = none;
}

-- `mongocxx::pool`, with its options where there are any.
pub record Pool : Type 0 where
  pub uri : String
  pub options : Option SslOptions

pub record Connection : Type 0 where
  pub pool : Option Pool
  pub ssl_options : SslOptions
  pub initialized : Bool

-- `if (!(file.empty())) ssl_options.f(file)`
unless_empty : String → (String → SslOptions → SslOptions) → SslOptions → SslOptions
unless_empty file set_file o = if is_empty file then o else set_file file o

-- The directory and the CRL are given to `pem_file` as well.
unfoldable pub set_ssl_options : SslSettings → SslOptions → SslOptions
unfolding unless_empty
set_ssl_options s o =
    let pem : String → SslOptions → SslOptions = λ v o. record o { pem_file = some v } in
    unless_empty s.crl_file pem (
      unless_empty s.ca_dir pem (
        unless_empty s.ca_file (λ v o. record o { ca_file = some v })
          (unless_empty s.pem_password (λ v o. record o { pem_password = some v })
            (unless_empty s.pem_file pem (
              if s.allow_invalid_certs
              then record o { allow_invalid_certificates = some true }
              else o)))))

-- The pool for a connection string, in place of the one before.
unfoldable pub connect_to : SslSettings → String → Connection → Connection
unfolding set_ssl_options
connect_to s conn c =
    if s.ssl_active
    then record c {
      ssl_options = set_ssl_options s c.ssl_options;
      pool = some (record {
        uri = append_text conn "?ssl=true";
        options = some (set_ssl_options s c.ssl_options);
      });
    }
    else record c { pool = some (record { uri = conn; options = none }) }

unfoldable pub init_with_connection : SslSettings → String → Connection → Connection
unfolding connect_to
init_with_connection s connection_string c =
    if is_empty connection_string
    then c
    else record (connect_to s connection_string c) { initialized = true }

-- `CoreDatabaseManager`, with all its arguments
unfoldable pub new_connection :
    String → Bool → Bool → String → String → String → String → String → SslSettings × Connection
unfolding init_with_connection
new_connection conn is_ssl_active validate_server_cert pem_file pem_passwd ca_file ca_dir crl_file =
    let s : SslSettings = record {
      ssl_active = is_ssl_active;
      allow_invalid_certs = not validate_server_cert;
      pem_file = pem_file;
      pem_password = pem_passwd;
      ca_file = ca_file;
      ca_dir = ca_dir;
      crl_file = crl_file;
    } in
    (
      s,
      init_with_connection s conn
          (record { pool = none; ssl_options = no_options; initialized = false }),
    )

-- "mongodb://UN:PW@ADDRESS:PORT"
unfoldable pub mongo_conn_str : (String → String) → Service → String
mongo_conn_str get_opt service = append_text "mongodb://" (
    append_text (get_opt "mongo.auth.un") (
      append_text ":" (
        append_text (get_opt "mongo.auth.pw")
          (append_text "@" (append_text service.address (append_text ":" service.port))))))

-- `get_service_by_metadata` is a call of Consul, where there is one.
unfoldable pub find_new_connection :
    (String → String) → Option (Outcome Service) → SslSettings → Io Connection (Unit {0})
unfolding mongo_conn_str connect_to
find_new_connection get_opt none s c = (ok tt, c)
find_new_connection get_opt (some (ok service)) s c =
    (ok tt, connect_to s (mongo_conn_str get_opt service) c)
find_new_connection get_opt (some (throw e)) s c = (throw e, c)
find_new_connection get_opt (some crash) s c = (crash, c)
