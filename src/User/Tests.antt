-- ===== src/User/Tests.antt =====
-- Tests of the single account, with a hash that keeps the text.
use clyman.Prelude.{String, ◌≡◌, true, ◌↔◌}
use clyman.User.{new_account_manager, authenticate_user}
use clyman.User.Laws.{authenticate_user-hash}

abbrev hash : String → String → String
hash key text = text

authenticate_user-hash_example :
    (authenticate_user hash "key" (new_account_manager hash "key" "user" "pw") "other" "pw" ≡ true)
    ↔ (hash "key" "pw" ≡ hash "key" "pw")
authenticate_user-hash_example = authenticate_user-hash hash "key" "user" "pw" "other" "pw"
