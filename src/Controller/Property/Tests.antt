-- ===== src/Controller/Property/Tests.antt =====
-- Tests of the handlers of properties.
use clyman.Prelude.{ℕ, suc, ℤ, pos, ◌≡◌, refl, int_eq, [], ◌∷◌, some, none}
use clyman.Outcome.{Outcome}
use clyman.Outcome.Io.Safety.{IsAnswered}
use clyman.Constants.{prop_crt, prop_get, prop_del, prop_frame_del, no_error}
use clyman.SortedMap.{find, emplace, replace, int_less, string_less}
use clyman.Json.{Json, document, array, object, items, fields}
use clyman.Factory.Property.{
  build_property_list, property_action_from_iterator, property_frame_from_iterator,
}
use clyman.Factory.Property.RoundTrip.{property_json, reread_property}
use clyman.Model.Property.{Property}
use clyman.Model.DataList.{DataList, new_data_list, get_object}
use clyman.App.Cluster.{get_ivan}
use clyman.Db.Bson.{oid}
use clyman.Db.Core.{Mongo, done}
use clyman.Db.Implementation.{property_manager as manager_over}
use clyman.Db.Property.Documents.{build_create_prop_doc}
use clyman.Db.Property.RoundTrip.{stored_property}
use clyman.Controller.Handler.{Session}
use clyman.Controller.Status.{documented_status}
use clyman.Controller.Property.Base.{property_base_request}
use clyman.Controller.Property.Frame.{property_frame_delete_request}
use clyman.Std.{stoi}
use clyman.Controller.Property.Key.{property_key_request}
use clyman.Controller.Property.Key.Answered.{property_key_request-IsAnswered}
use clyman.Controller.Property.Answers.{frame_delete, property_request, property_request-status}
use clyman.Controller.Property.Stored.{
  PropertySession, listed, created_list, found_list, moved, created_property_found,
}
use clyman.Samples.{floats, core, driver, brightness, cluster, property_manager}

-- The request of a creation, and the property in it.
abbrev body : Json ℤ
body = object (fields (("properties", array (items (property_json floats brightness ∷ []))) ∷ []))

abbrev posted : Property ℤ ℤ
posted = reread_property floats brightness

-- A driver whose database has stored it.
abbrev storing : Mongo ℤ ℕ
storing = record (driver 1) {
  find_one = λ q w. (done (some (("_id", oid "id") ∷ build_create_prop_doc floats posted)), suc w);
}

abbrev alone : PropertySession floats storing
alone = record {
  db = core;
  cluster = record cluster { fixed_ivan_addr = none };
  events = [];
  body = new_data_list;
}

created_property_found_example :
    (property_base_request floats (manager_over floats storing) prop_crt "" (document body) alone
      ≡ (
        Outcome.ok (listed floats storing (created_list floats storing "id")),
        moved floats storing alone 1 (created_list floats storing "id"),
      ))
    × (property_key_request floats
          (manager_over floats storing)
          prop_get
          "id"
          (moved floats storing alone 1 (created_list floats storing "id"))
        ≡ (
          Outcome.ok (
              listed floats storing
                (found_list floats storing (stored_property floats "id" posted))),
          moved floats storing alone 2
              (found_list floats storing (stored_property floats "id" posted)),
        ))
unfolding fields items build_property_list get_ivan find emplace replace
    property_action_from_iterator property_frame_from_iterator
created_property_found_example =
    created_property_found floats storing body (record new_data_list { objects = posted ∷ [] })
      posted alone 0 1 1 2 1 "id" "id" refl refl
      (((refl, (refl, tt)), (((refl, refl), tt), (tt, tt))), tt) (tt, tt) refl refl refl refl refl
      refl refl refl

abbrev served : Session (Property ℤ ℤ) ℤ ℕ
served = record { db = 0; cluster = cluster; events = []; body = new_data_list }

property_key_request-IsAnswered_example :
    IsAnswered (property_key_request floats property_manager prop_del "k") served
unfolding get_ivan get_object
property_key_request-IsAnswered_example =
    property_key_request-IsAnswered floats property_manager prop_del "k" served
      (λ w p h. (brightness, refl)) (λ w p. tt) tt

abbrev unread_list : DataList (Property ℤ ℤ)
unread_list = record new_data_list {
  msg_type = prop_frame_del;
  err_code = no_error;
  err_msg = "stoi";
}

-- An index that is no number.
property_request-status_example : 200 ≡ documented_status (pos 100)
unfolding property_request property_frame_delete_request stoi get_ivan
property_request-status_example =
    property_request-status floats property_manager (frame_delete prop_frame_del "k" "fade" "x")
      served (listed floats (driver 1) unread_list) (record served { body = unread_list }) refl
