-- ===== src/App/Cluster/Tests.antt =====
-- Tests of the cluster manager.
use clyman.Prelude.{ℤ, ◌≡◌, List, [], ◌∷◌, some, none}
use clyman.Outcome.{ok}
use clyman.Json.{Parsed, parse_error, document, object, fields}
use clyman.App.Cluster.{Service, fixed, discovering, get_ivan, update_cluster}
use clyman.App.Cluster.Laws.{fixed_stays, discovery_finds_nothing}

abbrev service : Service
service = record { name = "Ivan"; id = "Ivan"; address = "a"; port = "80"; tags = [] }

abbrev replies : List (Parsed ℤ)
replies = document (object (fields [])) ∷ parse_error "bad" ∷ []

fixed_stays_example :
    (update_cluster "cluster" replies (fixed "a" "80") ≡ (ok tt, fixed "a" "80"))
    × (get_ivan (fixed "a" "80") ≡ (ok (some service), fixed "a" "80"))
fixed_stays_example = fixed_stays "a" "80" "cluster" replies

discovery_finds_nothing_example :
    let c = (update_cluster "cluster" replies (discovering "Ivan")).1 in get_ivan c ≡ (ok none, c)
discovery_finds_nothing_example = discovery_finds_nothing "cluster" "Ivan" replies
