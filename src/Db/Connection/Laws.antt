-- ===== src/Db/Connection/Laws.antt =====
-- Which certificates the driver is given.
use clyman.Prelude.{
  String, ◌≡◌, Bool, true, false, is_empty, append_text, Option, none, some, if◌then◌else◌, arith,
}
use clyman.Db.Connection.{new_connection}

-- A file that is given.
abbrev pub given : String → Option String
given file = if is_empty file then none else some file

-- The first file that is given.
abbrev pub first_given : String → String → String → Option String
first_given a b c = if is_empty a then (if is_empty b then given c else some b) else some a

-- A database manager that is made with a connection string that is not empty, with TLS, has a pool for
-- that string from the start. The pool's certificate is the CRL where one is given, and otherwise the
-- directory of the authorities where one is, and otherwise the PEM file: neither the CRL nor the
-- directory is set as what it is. A password and a file of authorities are set where they are given,
-- and invalid certificates are allowed exactly if they are not to be validated.
pub new_connection-options :
    (conn : String) (validate : Bool) (pem_file pem_password ca_file ca_dir crl_file : String)
    → is_empty conn ≡ false
    → let c = (new_connection conn true validate pem_file pem_password ca_file ca_dir crl_file).1 in
      (c.pool
        ≡ some (record {
          uri = append_text conn "?ssl=true";
          options = some (record {
            allow_invalid_certificates = if validate then none else some true;
            pem_file = first_given crl_file ca_dir pem_file;
            pem_password = given pem_password;
            ca_file = given ca_file;
            ca_dir = none;
            crl_file = none;
          });
        }))
      × (c.initialized ≡ true)
unfolding new_connection
new_connection-options conn validate pem_file pem_password ca_file ca_dir crl_file h =
    (ground arith, ground arith)
