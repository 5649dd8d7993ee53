-- ===== src/Controller/Router/Laws.antt =====
-- The choice of a handler keeps to the table, and to the accounts.
use Prim.Native.Char.{Char, code}
use Prim.Native.String.{[] as empty_text, ◌∷◌ as text_cons}
use clyman.Prelude.{
  String, ◌==◌, int_eq, nat_eq, string_eq, ◌≡◌, refl, Bool, true, false, [], ◌∷◌, Option, some,
  none, not, arith, if◌then◌else◌, Bool-cases, inl, inr,
}
use clyman.User.{ivan_basic_auth}
use clyman.Controller.Router.{
  Credentials, Request, Route, Accounts, route, create_request_handler, split_colon,
  check_credentials, login,
}

accepted_basic :
    (basic accepted : Bool)
    → (if basic then not accepted else true) ≡ false
    → (basic ≡ true) × (accepted ≡ true)
accepted_basic true true e = (refl, refl)
accepted_basic true false e = ground arith
accepted_basic false accepted e = ground arith

-- The user and the password in a text: what stands before and behind the first colon. Without a colon
-- the whole text is the user.
pub data Login : String → String → String → Type 0 where
  no_colon : Login empty_text empty_text empty_text
  colon : {c : Char} (s : String) → (code c == b':') ≡ true → Login (text_cons c s) empty_text s
  no_colon_yet :
      {c : Char} {s user password : String}
      → (code c == b':') ≡ false
      → Login s user password
      → Login (text_cons c s) (text_cons c user) password

split_colon-Login : (s : String) → Login s (split_colon s).0 (split_colon s).1
unfolding split_colon
split_colon-Login empty_text = Login.no_colon
split_colon-Login (text_cons c s) = elim (Bool-cases (code c == b':')) [
  | inl h ↦ simp (h) (Login.colon s h)
  | inr h ↦ simp (h) (Login.no_colon_yet h (split_colon-Login s))
]

check_credentials_lem :
    (decode : String → String) (a : Accounts) (c : Option Credentials)
    → (a.auth_type == ivan_basic_auth) ≡ true
    → check_credentials decode a c ≡ false
    → (k : Credentials) × (user : String) × (password : String) × (c ≡ some k)
      × ((k.scheme == "Basic") ≡ true)
      × Login (decode k.info) user password
      × (a.authenticate_user user password ≡ true)
unfolding check_credentials login
check_credentials_lem decode a none h e = ground arith
check_credentials_lem decode a (some k) h e =
    let (scheme, accepted) =
      accepted_basic (k.scheme == "Basic") (login decode a k.info) (simp (h) at e) in
    let text = decode k.info in
    (k, (split_colon text).0, (split_colon text).1, refl, scheme, split_colon-Login text, accepted)

passed :
    (failure : Bool) (found : Option Route) (rt : Route)
    → (if failure then none else found) ≡ some rt
    → failure ≡ false
passed true found rt e = ground arith
passed false found rt e = refl

-- With accounts for basic authentication, a request gets a handler only if it carries credentials of
-- the scheme "Basic" whose user and password, the decoded text before and behind the first colon, the
-- accounts accept.
pub create_request_handler-authenticated :
    (decode : String → String) (a : Accounts) (r : Request) (rt : Route)
    → (a.auth_type == ivan_basic_auth) ≡ true
    → create_request_handler decode (some a) r ≡ some rt
    → (c : Credentials) × (user : String) × (password : String) × (r.credentials ≡ some c)
      × ((c.scheme == "Basic") ≡ true)
      × Login (decode c.info) user password
      × (a.authenticate_user user password ≡ true)
unfolding create_request_handler
create_request_handler-authenticated decode a r rt h e =
    check_credentials_lem decode a r.credentials h
      (passed (check_credentials decode a r.credentials) (route r) rt e)
