-- ===== src/Db/Connection/Tests.antt =====
-- Tests of the connection.
use clyman.Prelude.{◌≡◌, refl, true, some}
use clyman.Db.Connection.{SslOptions, no_options, new_connection}
use clyman.Db.Connection.Laws.{new_connection-options}

-- With a PEM file and a CRL, the CRL is the certificate.
abbrev options : SslOptions
options = record no_options { pem_file = some "crl.pem"; ca_file = some "ca.pem" }

new_connection-options_example :
    ((new_connection "mongodb://db" true true "server.pem" "" "ca.pem" "" "crl.pem").1.pool
      ≡ some (record { uri = "mongodb://db?ssl=true"; options = some options }))
    × ((new_connection "mongodb://db" true true "server.pem" "" "ca.pem" "" "crl.pem").1.initialized
        ≡ true)
unfolding new_connection
new_connection-options_example =
    new_connection-options "mongodb://db" true "server.pem" "" "ca.pem" "" "crl.pem" refl
