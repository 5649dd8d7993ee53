-- ===== src/Controller/Router/Tests.antt =====
-- Tests of the choice of a handler.
use clyman.Prelude.{String, ◌==◌, string_eq, ◌≡◌, refl, true, [], ◌∷◌, some, none}
use clyman.Constants.{obj_get}
use clyman.User.{ivan_basic_auth}
use clyman.Controller.Router.{Request, Credentials, Accounts, object_key, create_request_handler}
use clyman.Controller.Router.Laws.{Login, create_request_handler-authenticated}

abbrev decode : String → String
decode s = s

abbrev lock_request : Request
lock_request = record {
  method = "GET";
  path = "v1" ∷ "object" ∷ "k" ∷ "lock" ∷ [];
  query = ("device", "d") ∷ [];
  credentials = none;
}

-- One user.
abbrev accounts : Accounts
accounts = record { auth_type = ivan_basic_auth; authenticate_user = λ u p. p == "pw" }

abbrev login : Credentials
login = record { scheme = "Basic"; info = "user:pw" }

abbrev get_request : Request
get_request = record {
  method = "GET";
  path = "v1" ∷ "object" ∷ "k" ∷ [];
  query = [];
  credentials = some login;
}

create_request_handler-authenticated_example :
    (c : Credentials) × (user : String) × (password : String) × (get_request.credentials ≡ some c)
    × ((c.scheme == "Basic") ≡ true)
    × Login (decode c.info) user password
    × (accounts.authenticate_user user password ≡ true)
unfolding create_request_handler
create_request_handler-authenticated_example =
    create_request_handler-authenticated decode accounts get_request (object_key obj_get "k") refl
      refl
