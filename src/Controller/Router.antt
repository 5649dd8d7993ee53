-- ===== src/Controller/Router.antt =====
-- src/controller/include/handler_factory.h: authentication, and the choice of a handler
pub mod Spec
pub mod Laws
mod Tests
use Prim.Native.Char.{Char, code}
use Prim.Native.String.{[] as empty_text, ◌∷◌ as text_cons}
use clyman.Prelude.{
  ℕ, String, ℤ, ◌==◌, int_eq, nat_eq, string_eq, Bool, true, false, not, ◌&&◌, List, [], ◌∷◌,
  Option, none, some, if◌then◌else◌,
}
use clyman.Constants.{
  obj_crt, obj_upd, obj_get, obj_del, obj_query, obj_lock, obj_unlock, prop_crt, prop_upd, prop_get,
  prop_del, prop_query, asset_add, asset_del, obj_frame_crt, obj_frame_upd, obj_frame_del,
  obj_action_crt, obj_action_upd, obj_action_del, prop_frame_crt, prop_frame_upd, prop_frame_del,
  prop_action_crt, prop_action_upd, prop_action_del,
}
use clyman.User.{ivan_basic_auth}

-- The scheme and the rest of the `Authorization` header.
pub record Credentials : Type 0 where
  pub scheme : String
  pub info : String

-- The path as Poco's `URI` cuts it, and the query parameters in their order.
pub record Request : Type 0 where
  pub method : String
  pub path : List String
  pub query : List (String × String)
  pub credentials : Option Credentials

-- The handlers with the arguments of their constructors.
pub data Route : Type 0 where
  object_base : ℤ → String → Route
  object_key : ℤ → String → Route
  object_lock : ℤ → String → String → Route
  asset : ℤ → String → String → Route
  object_action : ℤ → String → String → Route
  object_action_delete : ℤ → String → String → Route
  object_frame : ℤ → String → String → String → Route
  object_frame_delete : ℤ → String → String → String → Route
  property_base : ℤ → String → Route
  property_key : ℤ → String → Route
  property_action : ℤ → String → String → Route
  property_action_delete : ℤ → String → String → Route
  property_frame : ℤ → String → String → String → Route
  property_frame_delete : ℤ → String → String → String → Route
  heartbeat : Route

-- What the factory uses of an account manager.
pub record Accounts : Type 0 where
  pub auth_type : ℤ
  pub authenticate_user : String → String → Bool

-- `getline(stream, username, ':')` and the rest.
unfoldable pub split_colon : String → String × String
split_colon empty_text = (empty_text, empty_text)
split_colon (text_cons c s) =
    let rest = split_colon s in
    if code c == b':' then (empty_text, s) else (text_cons c rest.0, rest.1)

-- `decode` reads the first line of a Base64 text.
module _ (decode : String → String) where
  login : Accounts → String → Bool
  unfolding split_colon
  login a info = let parts = split_colon (decode info) in a.authenticate_user parts.0 parts.1

  check_credentials : Accounts → Option Credentials → Bool
  unfolding login
  check_credentials a none = true
  check_credentials a (some c) =
      if a.auth_type == ivan_basic_auth
      then (if c.scheme == "Basic" then not (login a c.info) else true)
      else false

  unfoldable pub authentication_failure : Option Accounts → Option Credentials → Bool
  unfolding check_credentials
  authentication_failure none credentials = false
  authentication_failure (some a) credentials = check_credentials a credentials

-- The first `device` parameter.
unfoldable pub device : List (String × String) → Option String
device [] = none
device ((k, v) ∷ ps) = if k == "device" then some v else device ps

locked : ℤ → String → Option String → Option Route
locked msg_type id none = none
locked msg_type id (some dev) = some (object_lock msg_type id dev)

-- The branches of a method: the segments behind "v1". Their number is in the patterns.
unfoldable pub post_route : List String → Option Route
post_route (kind ∷ []) =
    if kind == "object"
    then some (object_base obj_crt "")
    else if kind == "property"
    then some (property_base prop_crt "")
    else none
post_route (kind ∷ id ∷ []) =
    if kind == "object"
    then (if id == "query" then some (object_base obj_query "") else some (object_base obj_upd id))
    else if kind == "property"
    then (if id == "query"
        then some (property_base prop_query "")
        else some (property_base prop_upd id))
    else none
post_route (kind ∷ id ∷ part ∷ []) =
    if part == "action"
    then (if kind == "object"
        then some (object_action obj_action_crt id "")
        else if kind == "property"
        then some (property_action prop_action_crt id "")
        else none)
    else none
post_route (kind ∷ id ∷ part ∷ name ∷ []) =
    if part == "action"
    then (if kind == "object"
        then some (object_action obj_action_upd id name)
        else if kind == "property"
        then some (property_action prop_action_upd id name)
        else none)
    else none
post_route (kind ∷ id ∷ part ∷ name ∷ sub ∷ []) =
    if part == "action" && sub == "keyframe"
    then (if kind == "object"
        then some (object_frame obj_frame_crt id name "")
        else if kind == "property"
        then some (property_frame prop_frame_crt id name "")
        else none)
    else none
post_route (kind ∷ id ∷ part ∷ name ∷ sub ∷ index ∷ []) =
    if part == "action" && sub == "keyframe"
    then (if kind == "object"
        then some (object_frame obj_frame_upd id name index)
        else if kind == "property"
        then some (property_frame prop_frame_upd id name index)
        else none)
    else none
post_route _ = none

unfoldable pub get_route : List String → List (String × String) → Option Route
unfolding locked device
get_route (kind ∷ id ∷ []) query =
    if kind == "object"
    then some (object_key obj_get id)
    else if kind == "property"
    then some (property_key prop_get id)
    else none
get_route (kind ∷ id ∷ part ∷ rest) query =
    if kind == "object" && part == "lock" then locked obj_lock id (device query) else none
get_route _ query = none

delete_longer : List String → Option Route
delete_longer (kind ∷ id ∷ part ∷ name ∷ []) =
    if kind == "object" && part == "asset"
    then some (asset asset_del id name)
    else if part == "action"
    then (if kind == "object"
        then some (object_action_delete obj_action_del id name)
        else if kind == "property"
        then some (property_action_delete prop_action_del id name)
        else none)
    else none
delete_longer (kind ∷ id ∷ part ∷ name ∷ sub ∷ index ∷ []) =
    if part == "action" && sub == "keyframe"
    then (if kind == "object"
        then some (object_frame_delete obj_frame_del id name index)
        else if kind == "property"
        then some (property_frame_delete prop_frame_del id name index)
        else none)
    else none
delete_longer _ = none

unfoldable pub delete_route : List String → List (String × String) → Option Route
unfolding delete_longer locked device
delete_route (kind ∷ id ∷ []) query =
    if kind == "object"
    then some (object_key obj_del id)
    else if kind == "property"
    then some (property_key prop_del id)
    else none
delete_route (kind ∷ id ∷ part ∷ rest) query =
    if kind == "object" && part == "lock"
    then locked obj_unlock id (device query)
    else delete_longer (kind ∷ id ∷ part ∷ rest)
delete_route _ query = none

unfoldable pub put_route : List String → Option Route
put_route (kind ∷ id ∷ part ∷ name ∷ []) =
    if kind == "object" && part == "asset" then some (asset asset_add id name) else none
put_route _ = none

health : String → List String → Option Route
health method (p ∷ []) = if p == "health" && method == "GET" then some heartbeat else none
health method _ = none

versioned : String → List String → List (String × String) → Option Route
unfolding post_route get_route delete_route put_route
versioned method segments query =
    if method == "POST"
    then post_route segments
    else if method == "GET"
    then get_route segments query
    else if method == "DELETE"
    then delete_route segments query
    else if method == "PUT"
    then put_route segments
    else none

route_at : String → List (String × String) → List String → Option Route
unfolding health versioned
route_at method query (version ∷ s ∷ ss) =
    if version == "v1" then versioned method (s ∷ ss) query else none
route_at method query path = health method path

unfoldable pub route : Request → Option Route
unfolding route_at
route r = route_at r.method r.query r.path

unfoldable pub create_request_handler : (String → String) → Option Accounts → Request → Option Route
unfolding authentication_failure route
create_request_handler decode accounts r =
    if authentication_failure decode accounts r.credentials then none else route r
