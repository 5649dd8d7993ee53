-- ===== src/App/Startup/Tls.antt =====
-- src/app/include/clyman_application.h, `main`: what is set up for TLS
use clyman.Prelude.{
  String, ◌==◌, string_eq, Bool, is_empty, List, [], ◌∷◌, Option, none, some, if◌then◌else◌,
}
use clyman.App.Startup.Options.{Profile}

-- What `gen_ssl_cert` does: it throws, or it fills the buffer with a success or without; the text is
-- the chain of the authorities.
pub data VaultReply : Type 0 where
  vault_throws : VaultReply
  vault_refuses : VaultReply
  vault_issues : String → VaultReply

-- What is set up for TLS: nothing, the certificate of Vault with its chain where it has one, or the
-- files that are read.
pub data TlsSetup : Type 0 where
  no_setup : TlsSetup
  from_vault : Option String → TlsSetup
  from_files : List String → TlsSetup

-- The files of properties, in the order in which they are read.
abbrev pub ssl_properties : List String
ssl_properties = "ssl.properties" ∷ "/etc/clyman/ssl.properties" ∷ "/ssl/clyman/ssl.properties" ∷ []

-- Those that are there.
unfoldable pub present : (String → Bool) → List String → List String
present file_exists [] = []
present file_exists (f ∷ fs) =
    let rest = present file_exists fs in if file_exists f then f ∷ rest else rest

files_setup : List String → Option TlsSetup
files_setup [] = none
files_setup (f ∷ fs) = some (from_files (f ∷ fs))

vault_setup : VaultReply → Option TlsSetup
vault_setup vault_throws = none
vault_setup vault_refuses = some no_setup
vault_setup (vault_issues chain) = some (from_vault (if is_empty chain then none else some chain))

-- `none` is the return of EXIT_CONFIG.
unfoldable pub tls_setup : Profile → VaultReply → (String → Bool) → Option TlsSetup
unfolding present files_setup vault_setup
tls_setup p vault file_exists =
    if p.get_opt "transaction.security.ssl.ca.vault.active" == "true"
    then vault_setup vault
    else if p.get_opt "transaction.security.ssl.enabled" == "true"
    then files_setup (present file_exists ssl_properties)
    else some no_setup
