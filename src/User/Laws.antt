-- ===== src/User/Laws.antt =====
-- What the single account accepts.
use clyman.Prelude.{String, ◌≡◌, string_eq, true, ◌↔◌, eq_iff}
use clyman.User.{new_account_manager, authenticate_user}

-- The single account accepts a user name and a password exactly if the password has the same hash as
-- that of the account; the user name is not compared.
pub authenticate_user-hash :
    (hash : String → String → String) (key un pw user passwd : String)
    → (authenticate_user hash key (new_account_manager hash key un pw) user passwd ≡ true)
      ↔ (hash key passwd ≡ hash key pw)
unfolding authenticate_user new_account_manager
authenticate_user-hash hash key un pw user passwd = eq_iff (hash key passwd) (hash key pw)
