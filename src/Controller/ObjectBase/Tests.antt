-- ===== src/Controller/ObjectBase/Tests.antt =====
-- Tests of the creation of objects.
use clyman.Prelude.{ℕ, suc, ℤ, String, ◌≡◌, refl, List, [], ◌∷◌, none}
use clyman.Outcome.{Outcome}
use clyman.Constants.{obj_crt}
use clyman.Json.{Json, document, string, array, object, items, fields}
use clyman.Json.Write.{Token}
use clyman.Writer.{to_msg_string}
use clyman.Factory.Object.{build_object_list}
use clyman.Model.Object.{Object, new_object}
use clyman.Model.DataList.{DataList, new_data_list}
use clyman.App.Cluster.{get_ivan}
use clyman.Db.Interface.{DatabaseResponse}
use clyman.Controller.Handler.{Session}
use clyman.Controller.ObjectBase.{object_base_request}
use clyman.Controller.ObjectBase.Creation.{creation, object_base_request_creates}
use clyman.Samples.{floats, manager, session, cluster, accepted}

abbrev answer : Object ℤ → ℕ → DatabaseResponse × String
answer o w = (accepted, "id")

abbrev next : Object ℤ → ℕ → ℕ
next o w = suc w

-- Two objects.
abbrev body : Json ℤ
body = object (
    fields (
      (
        "objects",
        array (
            items (
              object (fields (("name", string "a") ∷ []))
              ∷ object (fields (("name", string "b") ∷ []))
              ∷ [])),
      )
      ∷ []))

abbrev named : String → Object ℤ
named name = record (new_object floats) { name = name }

abbrev list : DataList (Object ℤ)
list = record new_data_list { objects = named "a" ∷ named "b" ∷ [] }

-- Nothing downstream.
abbrev alone : Session (Object ℤ) ℤ ℕ
alone = record session { cluster = record cluster { fixed_ivan_addr = none } }

abbrev reply : DataList (Object ℤ)
reply = creation floats manager answer next list.objects 0

abbrev text_of : Outcome (List (Token ℤ)) → List (Token ℤ)
text_of (Outcome.ok ts) = ts
text_of _ = []

object_base_request_creates_example :
    object_base_request floats manager obj_crt "" (document body) alone ≡ (
      Outcome.ok (record {
        status = 200;
        content_type = "application/json";
        body = text_of (to_msg_string floats reply);
      }),
      record alone { db = 2; body = reply },
    )
unfolding fields items build_object_list new_object get_ivan to_msg_string
object_base_request_creates_example =
    object_base_request_creates floats manager answer next body list alone
      (text_of (to_msg_string floats reply)) (λ o w. refl) (λ o w. refl) refl refl refl
