-- ===== src/App/Startup/Laws.antt =====
-- When the server starts, and with what.
use clyman.Prelude.{
  refl, none, some, Option, ◌==◌, string_eq, if◌then◌else◌, ℕ, zero, suc, ◌+◌, ◌<◌, String, ◌≡◌,
  Bool, true, false, append_text, List, [], ◌∷◌, ◌∙◌, ap, arith,
}
use clyman.Outcome.{ok}
use clyman.Json.{Parsed}
use clyman.App.Cluster.{fixed, update_cluster_info}
use clyman.Db.Connection.{no_options, new_connection}
use clyman.App.Startup.Options.{
  log_priority, Profile, default_opts, load_loop, load_config, prio_information,
}
use clyman.App.Startup.Tls.{no_setup, VaultReply, tls_setup}
use clyman.App.Startup.{
  Server, serves, main, account_manager, publisher_encryption, registrations, cluster_manager,
  database_connection,
}

-- An attempt that loads is reached if enough are left.
loop_loads :
    (loads : ℕ → Bool) (k m left n : ℕ)
    → n ≡ k + m
    → m < left
    → loads n ≡ true
    → load_loop loads k left ≡ true
unfolding load_loop
loop_loads loads k m zero n q h e = ground arith
loop_loads loads k zero (suc left) n q h e = let p : k ≡ n = omega arith in simp (ap loads p ∙ e)
loop_loads loads k (suc m) (suc left) n q h e =
    let rest : load_loop loads (suc k) left ≡ true =
      loop_loads loads (suc k) m left n (omega arith) (omega arith) e in
    ground arith

-- The first value under a key.
abbrev pub value_of : List (String × String) → String → Option String
value_of [] key = none
value_of ((k, v) ∷ kvs) key = let rest = value_of kvs key in if k == key then some v else rest

-- The server that the defaults make.
abbrev pub default_server : Profile → Server
default_server p = record {
  priority = prio_information;
  database = (
    record {
      ssl_active = false;
      allow_invalid_certs = false;
      pem_file = "";
      pem_password = "";
      ca_file = "";
      ca_dir = "";
      crl_file = "";
    },
    record { pool = none; ssl_options = no_options; initialized = false },
  );
  accounts = none;
  encryption = none;
  cluster = fixed "localhost" "8764";
  tls = no_setup;
  registered = registrations p;
  http_address = "localhost:8768";
  secured = false;
}

loaded : (loads : ℕ → Bool) (n : ℕ) → n < 51 → loads n ≡ true → load_config loads ≡ true
unfolding load_config
loaded loads n h e = loop_loads loads 0 n 51 n (omega arith) h e

-- With the options at their defaults, and no option for encryption under the name of the cluster, the
-- program serves plain HTTP at localhost:8768 as soon as one of the first 51 attempts to load the
-- configuration succeeds: without accounts, without encryption of events, without a connection to the
-- database until the first call, and with localhost:8764 as the one service downstream, whatever
-- Consul, Vault and the file system say.
pub main_with_defaults :
    {D : Type 0} (p : Profile) (hash : String → String → String) (loads : ℕ → Bool) (n : ℕ)
    (discovered : Parsed D) (vault : VaultReply) (file_exists : String → Bool)
    → n < 51
    → loads n ≡ true
    → ((k v : String) → value_of default_opts k ≡ some v → p.get_opt k ≡ v)
    → p.get_opt (append_text p.cluster_name ".event.security.aes.enabled") ≡ ""
    → main p hash loads discovered vault file_exists ≡ ok (serves (default_server p))
unfolding main cluster_manager update_cluster_info tls_setup log_priority account_manager
    publisher_encryption database_connection new_connection fixed
main_with_defaults p hash loads n discovered vault file_exists hn hl d aes = simp (
  loaded loads n hn hl,
  aes,
  d "mongo" "" refl,
  d "mongo.ssl.pem.file" "" refl,
  d "mongo.ssl.pem.password" "" refl,
  d "mongo.ssl.crl.file" "" refl,
  d "mongo.ssl.ca.file" "" refl,
  d "mongo.ssl.ca.dir" "" refl,
  d "mongo.ssl.active" "" refl,
  d "mongo.ssl.validate_server_cert" "true" refl,
  d "event.destination.host" "localhost" refl,
  d "event.destination.port" "8764" refl,
  d "http.host" "localhost" refl,
  d "http.port" "8768" refl,
  d "log.level" "Info" refl,
  d "transaction.security.ssl.ca.vault.active" "false" refl,
  d "transaction.security.ssl.enabled" "false" refl,
  d "transaction.security.auth.type" "none" refl,
)
