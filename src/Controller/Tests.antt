-- ===== src/Controller/Tests.antt =====
-- Tests of the handlers, over a database manager that counts its calls.
use clyman.Prelude.{ℤ, pos, int_eq, ◌≡◌, refl, List, [], ◌∷◌, false}
use clyman.Outcome.{Outcome}
use clyman.Constants.{obj_crt, obj_get, obj_del, asset_del, no_error}
use clyman.Json.{parse_error}
use clyman.Json.Write.{Token}
use clyman.Std.{stoi}
use clyman.Writer.{to_msg_string, to_transform_json, to_json_writer}
use clyman.Model.Object.{Object, new_object, set_key, set_scene}
use clyman.Model.DataList.{DataList, new_data_list}
use clyman.App.Cluster.{get_ivan}
use clyman.Controller.Refusals.{refusal, refused_body, parse_error_refused}
use clyman.Controller.ObjectBase.{object_base_request}
use clyman.Controller.ObjectKey.{object_key_request}
use clyman.Controller.ObjectKey.Laws.{
  DeletedAs, object_key_request_get, object_key_request_delete-announces,
}
use clyman.Controller.Device.{asset_request}
use clyman.Controller.Device.Laws.{reported, reply, asset_request-reply}
use clyman.Controller.Action.{object_action_request}
use clyman.Controller.Frame.{object_frame_request}
use clyman.Samples.{floats, manager, session, cluster, downstream, stored, missing, accepted}

parse_error_refused_example :
    (object_base_request floats manager obj_crt "k" (parse_error "bad") session ≡ (
      Outcome.ok (refusal floats manager "application/json" obj_crt "bad"),
      record session { body = refused_body floats manager obj_crt "bad" },
    ))
    × (object_action_request floats manager obj_crt "k" "walk" (parse_error "bad") session ≡ (
      Outcome.ok (refusal floats manager "application/json" obj_crt "bad"),
      record session { body = refused_body floats manager obj_crt "bad" },
    ))
    × (object_frame_request floats manager obj_crt "k" "walk" "x" (parse_error "bad") session ≡ (
      Outcome.ok (refusal floats manager "text/plain" obj_crt "bad"),
      record session { body = refused_body floats manager obj_crt "bad" },
    ))
parse_error_refused_example =
    parse_error_refused floats manager obj_crt "k" "walk" "x" "bad" session refl

asset_request-reply_example : asset_request floats manager asset_del "k" "a" session ≡ (
  Outcome.ok (reply floats manager asset_del accepted),
  record session { db = 1; body = reported floats manager asset_del accepted },
)
asset_request-reply_example =
    asset_request-reply floats manager false "k" "a" session accepted 1 refl

-- What a get finds, and its text.
abbrev found : DataList (Object ℤ)
found = record new_data_list {
  msg_type = obj_get;
  err_code = no_error;
  objects = stored ∷ [];
  num_records = pos 1;
}

abbrev text_of : Outcome (List (Token ℤ)) → List (Token ℤ)
text_of (Outcome.ok ts) = ts
text_of _ = []

object_key_request_get_example : object_key_request floats manager obj_get "k" session ≡ (
  Outcome.ok (record {
    status = 200;
    content_type = "application/json";
    body = text_of (to_msg_string floats found);
  }),
  record session { db = 1; body = found },
)
unfolding to_msg_string
object_key_request_get_example =
    object_key_request_get floats manager "k" session found 1 (text_of (to_msg_string floats found))
      refl refl

abbrev deleted : Object ℤ
deleted = set_key (set_scene (new_object floats) "scene") "k"

object_key_request_delete-announces_example :
    DeletedAs floats manager "k" session
      (record {
        scene = "scene";
        message = text_of (to_transform_json floats deleted obj_del);
        host = "host";
        port = pos 8765;
      })
      2
unfolding to_json_writer new_object stoi get_ivan
object_key_request_delete-announces_example =
    object_key_request_delete-announces floats manager "k" session stored
      (record new_data_list { objects = stored ∷ []; num_records = pos 1 }) 1 2 (Outcome.ok missing)
      downstream cluster (pos 8765) (text_of (to_transform_json floats deleted obj_del)) refl refl
      refl refl refl refl refl
