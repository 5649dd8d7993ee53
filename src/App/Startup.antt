-- ===== src/App/Startup.antt =====
-- src/app/include/clyman_application.h: `main`, from the configuration to the server that listens
pub mod Options
pub mod Tls
pub mod Laws
mod Tests
use clyman.Prelude.{
  ℕ, zero, suc, String, ◌==◌, string_eq, Bool, true, false, not, ◌&&◌, ◌||◌, is_empty, append_text,
  List, [], ◌∷◌, ◌++◌, map, Option, none, some, if◌then◌else◌,
}
use clyman.Outcome.{Outcome, ok, ◌>>=◌}
use clyman.Json.{Parsed}
use clyman.User.{SingleAccountManager, new_account_manager}
use clyman.App.Cluster.{Service, ClusterManager, discovering, fixed, update_cluster_info}
use clyman.Db.Connection.{SslSettings, Connection, new_connection}
use clyman.App.Startup.Options.{Profile, load_loop, load_config, Priority, log_priority}
use clyman.App.Startup.Tls.{VaultReply, TlsSetup, tls_setup}

module _ (p : Profile) where
  open p use {get_opt, cluster_name}

  -- An option of the cluster.
  abbrev cluster_opt : String → String
  cluster_opt name = get_opt (append_text cluster_name name)

  -- The connection of the database manager.
  unfoldable pub database_connection : SslSettings × Connection
  unfolding new_connection
  database_connection =
      new_connection (get_opt "mongo") (get_opt "mongo.ssl.active" == "true")
        (get_opt "mongo.ssl.validate_server_cert" == "true") (get_opt "mongo.ssl.pem.file")
        (get_opt "mongo.ssl.pem.password") (get_opt "mongo.ssl.ca.file")
        (get_opt "mongo.ssl.ca.dir") (get_opt "mongo.ssl.crl.file")

  -- `acct_manager`; `hash` is Poco's HMAC.
  unfoldable pub account_manager : (String → String → String) → Option SingleAccountManager
  unfolding new_account_manager
  account_manager hash =
      if get_opt "transaction.security.auth.type" == "single"
      then some (
          new_account_manager hash (cluster_opt ".transaction.security.hash.password")
            (cluster_opt ".transaction.security.auth.user")
            (cluster_opt ".transaction.security.auth.password"))
      else none

  -- The key and the initialization vector of the publisher, if it encrypts.
  unfoldable pub publisher_encryption : Option (String × String)
  publisher_encryption =
      let key = cluster_opt ".event.security.out.aes.key" in
      let iv = cluster_opt ".event.security.out.aes.iv" in
      if cluster_opt ".event.security.aes.enabled" == "true"
        && (not (is_empty key) && not (is_empty iv))
      then some (key, iv)
      else none

  unfoldable pub cluster_manager : ClusterManager
  unfolding discovering fixed
  cluster_manager =
      let host = get_opt "event.destination.host" in
      let port = get_opt "event.destination.port" in
      if is_empty host && is_empty port
      then discovering (get_opt "event.destination.name")
      else fixed host port

-- What is registered with Consul, where there is one.
unfoldable pub registrations : Profile → List Service
registrations p =
    let tags = append_text "cluster=" p.cluster_name ∷ [] in
    let host = p.get_opt "http.host" in
    if p.has_consul
    then record {
      name = "Clyman";
      id = "Clyman";
      address = host;
      port = p.get_opt "http.port";
      tags = tags;
    }
      ∷ record {
        name = "Clyman_Udp";
        id = "Clyman_Udp";
        address = host;
        port = p.get_opt "udp.port";
        tags = tags;
      }
      ∷ []
    else []

-- The server with what it is given, as it is when it starts to listen.
pub record Server : Type 0 where
  pub priority : Priority
  pub database : SslSettings × Connection
  pub accounts : Option SingleAccountManager
  pub encryption : Option (String × String)
  pub cluster : ClusterManager
  pub tls : TlsSetup
  pub registered : List Service
  pub http_address : String
  pub secured : Bool

pub data Start : Type 0 where
  exit_noinput : Start
  exit_config : Start
  serves : Server → Start

server : Profile → (String → String → String) → ClusterManager → TlsSetup → Server
unfolding log_priority database_connection account_manager publisher_encryption registrations
server p hash c setup = record {
  priority = log_priority (p.get_opt "log.level");
  database = database_connection p;
  accounts = account_manager p hash;
  encryption = publisher_encryption p;
  cluster = c;
  tls = setup;
  registered = registrations p;
  http_address = append_text (p.get_opt "http.host") (append_text ":" (p.get_opt "http.port"));
  secured = p.get_opt "transaction.security.ssl.enabled" == "true";
}

after_tls : Profile → (String → String → String) → ClusterManager → Option TlsSetup → Start
unfolding server
after_tls p hash c none = exit_config
after_tls p hash c (some setup) = serves (server p hash c setup)

-- `discovered` is what Consul says to the first update of the cluster.
unfoldable pub main :
    {D : Type 0}
    → Profile
    → (String → String → String)
    → (ℕ → Bool)
    → Parsed D
    → VaultReply
    → (String → Bool)
    → Outcome Start
unfolding load_config cluster_manager update_cluster_info tls_setup after_tls
main p hash loads discovered vault file_exists =
    if load_config loads
    then (let (r, c) = update_cluster_info p.cluster_name discovered (cluster_manager p) in
        r >>= λ _. ok (after_tls p hash c (tls_setup p vault file_exists)))
    else ok exit_noinput
