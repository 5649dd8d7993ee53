-- ===== src/User.antt =====
-- src/user/include/account_manager_interface.h and account_manager.h
pub mod Laws
mod Tests
use clyman.Prelude.{String, ℤ, pos, ◌==◌, string_eq, Bool, ◌≡◌, refl, arith, eq_iff, ◌↔◌, true}

abbrev pub ivan_no_auth : ℤ
ivan_no_auth = pos 0

abbrev pub ivan_basic_auth : ℤ
ivan_basic_auth = pos 1

-- `hash` is Poco's HMAC of a text under the key of the constructor, in hexadecimal.
pub record SingleAccountManager : Type 0 where
  pub username : String
  pub password : String
  pub type : ℤ

module _ (hash : String → String → String) (hash_pw : String) where
  unfoldable pub new_account_manager : String → String → SingleAccountManager
  new_account_manager un pw = record {
    username = un;
    password = hash hash_pw pw;
    type = ivan_basic_auth;
  }

  unfoldable pub authenticate_user : SingleAccountManager → String → String → Bool
  authenticate_user m user passwd = hash hash_pw passwd == m.password
