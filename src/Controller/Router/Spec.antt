-- ===== src/Controller/Router/Spec.antt =====
-- The HTTP interface that src/controller/include/handler_factory.h offers: which request is for which
-- handler. It is a table, apart from the tests of the code.
use clyman.Prelude.{String, ◌==◌, string_eq, ◌≡◌, false, List, [], ◌∷◌}
use clyman.Constants.{
  obj_crt, obj_upd, obj_get, obj_del, obj_query, obj_lock, obj_unlock, prop_crt, prop_upd, prop_get,
  prop_del, prop_query, asset_add, asset_del, obj_frame_crt, obj_frame_upd, obj_frame_del,
  obj_action_crt, obj_action_upd, obj_action_del, prop_frame_crt, prop_frame_upd, prop_frame_del,
  prop_action_crt, prop_action_upd, prop_action_del,
}
use clyman.Controller.Router.{
  Route, object_base, object_key, object_lock, asset, object_action, object_action_delete,
  object_frame, object_frame_delete, property_base, property_key, property_action,
  property_action_delete, property_frame, property_frame_delete, heartbeat,
}

abbrev Query : Type 0
Query = List (String × String)

-- The `device` parameter is the first one of that name; others may stand before it and behind it.
pub data Device (dev : String) : Query → Type 0 where
  here : (ps : Query) → Device dev (("device", dev) ∷ ps)
  later :
      {ps : Query} (k v : String)
      → (k == "device") ≡ false
      → Device dev ps
      → Device dev ((k, v) ∷ ps)

-- By the method, the segments behind "v1", and the query. A lock may have more segments behind it.
pub data ObjectRequest : String → List String → Query → Route → Type 0 where
  create : {q : Query} → ObjectRequest "POST" ("object" ∷ []) q (object_base obj_crt "")
  find : {q : Query} → ObjectRequest "POST" ("object" ∷ "query" ∷ []) q (object_base obj_query "")
  update :
      {q : Query} (id : String)
      → (id == "query") ≡ false
      → ObjectRequest "POST" ("object" ∷ id ∷ []) q (object_base obj_upd id)
  get :
      {q : Query} (id : String) → ObjectRequest "GET" ("object" ∷ id ∷ []) q (object_key obj_get id)
  remove :
      {q : Query} (id : String)
      → ObjectRequest "DELETE" ("object" ∷ id ∷ []) q (object_key obj_del id)
  lock :
      {q : Query} (id dev : String) (rest : List String)
      → Device dev q
      → ObjectRequest "GET" ("object" ∷ id ∷ "lock" ∷ rest) q (object_lock obj_lock id dev)
  unlock :
      {q : Query} (id dev : String) (rest : List String)
      → Device dev q
      → ObjectRequest "DELETE" ("object" ∷ id ∷ "lock" ∷ rest) q (object_lock obj_unlock id dev)
  add_asset :
      {q : Query} (id a : String)
      → ObjectRequest "PUT" ("object" ∷ id ∷ "asset" ∷ a ∷ []) q (asset asset_add id a)
  remove_asset :
      {q : Query} (id a : String)
      → ObjectRequest "DELETE" ("object" ∷ id ∷ "asset" ∷ a ∷ []) q (asset asset_del id a)
  create_action :
      {q : Query} (id : String)
      → ObjectRequest "POST" ("object" ∷ id ∷ "action" ∷ []) q (object_action obj_action_crt id "")
  update_action :
      {q : Query} (id name : String)
      → ObjectRequest "POST"
          ("object" ∷ id ∷ "action" ∷ name ∷ [])
          q
          (object_action obj_action_upd id name)
  remove_action :
      {q : Query} (id name : String)
      → ObjectRequest "DELETE"
          ("object" ∷ id ∷ "action" ∷ name ∷ [])
          q
          (object_action_delete obj_action_del id name)
  create_frame :
      {q : Query} (id name : String)
      → ObjectRequest "POST"
          ("object" ∷ id ∷ "action" ∷ name ∷ "keyframe" ∷ [])
          q
          (object_frame obj_frame_crt id name "")
  update_frame :
      {q : Query} (id name i : String)
      → ObjectRequest "POST"
          ("object" ∷ id ∷ "action" ∷ name ∷ "keyframe" ∷ i ∷ [])
          q
          (object_frame obj_frame_upd id name i)
  remove_frame :
      {q : Query} (id name i : String)
      → ObjectRequest "DELETE"
          ("object" ∷ id ∷ "action" ∷ name ∷ "keyframe" ∷ i ∷ [])
          q
          (object_frame_delete obj_frame_del id name i)

-- The same for properties, which have no locks and no assets.
pub data PropertyRequest : String → List String → Query → Route → Type 0 where
  create : {q : Query} → PropertyRequest "POST" ("property" ∷ []) q (property_base prop_crt "")
  find :
      {q : Query}
      → PropertyRequest "POST" ("property" ∷ "query" ∷ []) q (property_base prop_query "")
  update :
      {q : Query} (id : String)
      → (id == "query") ≡ false
      → PropertyRequest "POST" ("property" ∷ id ∷ []) q (property_base prop_upd id)
  get :
      {q : Query} (id : String)
      → PropertyRequest "GET" ("property" ∷ id ∷ []) q (property_key prop_get id)
  remove :
      {q : Query} (id : String)
      → PropertyRequest "DELETE" ("property" ∷ id ∷ []) q (property_key prop_del id)
  create_action :
      {q : Query} (id : String)
      → PropertyRequest "POST"
          ("property" ∷ id ∷ "action" ∷ [])
          q
          (property_action prop_action_crt id "")
  update_action :
      {q : Query} (id name : String)
      → PropertyRequest "POST"
          ("property" ∷ id ∷ "action" ∷ name ∷ [])
          q
          (property_action prop_action_upd id name)
  remove_action :
      {q : Query} (id name : String)
      → PropertyRequest "DELETE"
          ("property" ∷ id ∷ "action" ∷ name ∷ [])
          q
          (property_action_delete prop_action_del id name)
  create_frame :
      {q : Query} (id name : String)
      → PropertyRequest "POST"
          ("property" ∷ id ∷ "action" ∷ name ∷ "keyframe" ∷ [])
          q
          (property_frame prop_frame_crt id name "")
  update_frame :
      {q : Query} (id name i : String)
      → PropertyRequest "POST"
          ("property" ∷ id ∷ "action" ∷ name ∷ "keyframe" ∷ i ∷ [])
          q
          (property_frame prop_frame_upd id name i)
  remove_frame :
      {q : Query} (id name i : String)
      → PropertyRequest "DELETE"
          ("property" ∷ id ∷ "action" ∷ name ∷ "keyframe" ∷ i ∷ [])
          q
          (property_frame_delete prop_frame_del id name i)

pub data Serves : String → List String → Query → Route → Type 0 where
  health : {q : Query} → Serves "GET" ("health" ∷ []) q heartbeat
  of_object :
      {m : String} {p : List String} {q : Query} {r : Route}
      → ObjectRequest m p q r
      → Serves m ("v1" ∷ p) q r
  of_property :
      {m : String} {p : List String} {q : Query} {r : Route}
      → PropertyRequest m p q r
      → Serves m ("v1" ∷ p) q r
