-- ===== src/Writer.antt =====
-- What is sent out as JSON: src/model/object/json_object.cpp and src/model/list/json_object_list.cpp
pub mod Property
use clyman.Prelude.{ℕ, String, ℤ, List, [], ◌∷◌, ◌++◌, length, map, if◌then◌else◌}
use clyman.Outcome.{Outcome, ok, ◌>>=◌, gather}
use clyman.Floats.{Floats}
use clyman.Constants.{obj_upd}
use clyman.Model.Handle.{AnimationGraphHandle}
use clyman.Model.Transform.{Transformation, get_transform_element}
use clyman.Model.Animation.{AnimationAction, ObjectFrame, get_handle}
use clyman.Model.Object.{Object, has_transform}
use clyman.Model.DataList.{DataList}
use clyman.Json.Write.{
  Token, start_object, end_object, start_array, end_array, key, str, uint, dbl, to_unsigned,
  write_json_string_elt, write_json_int_elt, write_json_graph_handle,
}

-- The counters of the loops to 3 and to 4.
abbrev pub three : List ℕ
three = 0 ∷ 1 ∷ 2 ∷ []

abbrev pub four : List ℕ
four = 0 ∷ 1 ∷ 2 ∷ 3 ∷ []

module _ (fl : Floats) where
  open fl use {Float, Double, widen}

  unfoldable pub write_transform : Transformation Float → Outcome (List (Token Double))
  unfolding get_transform_element gather
  write_transform t =
      gather (λ i. gather (λ j. do e ← get_transform_element t i j; ok (dbl (widen e) ∷ [])) four)
        four

  unfoldable pub write_handles :
      List (AnimationGraphHandle Float) → List ℕ → Outcome (List (Token Double))
  unfolding get_handle write_json_graph_handle gather
  write_handles hs indices =
      gather
        (λ i. do
          h ← get_handle hs i
          ok (start_object ∷ (write_json_graph_handle fl h ++ end_object ∷ [])))
        indices

  unfoldable pub write_keyframe : ℤ × ObjectFrame Float → Outcome (List (Token Double))
  unfolding write_json_int_elt write_transform write_handles
  write_keyframe (index, f) = do
    ts ← write_transform f.trans
    translations ← write_handles f.translation three
    rotations ← write_handles f.rotation four
    scales ← write_handles f.scale three
    ok (
        start_object
        ∷ (write_json_int_elt "frame" index
            ++ (key "transform"
                ∷ start_array
                ∷ (ts
                    ++ (end_array
                        ∷ key "translation_handle"
                        ∷ start_array
                        ∷ (translations
                            ++ (end_array
                                ∷ key "rotation_handle"
                                ∷ start_array
                                ∷ (rotations
                                    ++ (end_array
                                        ∷ key "scale_handle"
                                        ∷ start_array
                                        ∷ (scales ++ (end_array ∷ end_object ∷ [])))))))))))

  unfoldable pub write_action :
      String × AnimationAction (ObjectFrame Float) → Outcome (List (Token Double))
  unfolding write_json_string_elt write_keyframe gather
  write_action (name, a) = do
    frames ← gather write_keyframe a.keyframes
    ok (
        start_object
        ∷ (write_json_string_elt "name" name
            ++ (write_json_string_elt "description" a.description
                ++ (write_json_string_elt "key" a.related.key
                    ++ (key "keyframes" ∷ start_array ∷ (frames ++ end_array ∷ end_object ∷ []))))))

  write_texts : Object Float → List (Token Double)
  unfolding write_json_string_elt
  write_texts o =
      write_json_string_elt "key" o.related.key
      ++ (write_json_string_elt "name" o.name
          ++ (write_json_string_elt "scene" o.related.scene_id
              ++ (write_json_string_elt "type" o.type
                  ++ (write_json_string_elt "subtype" o.subtype
                      ++ write_json_string_elt "owner" o.owner))))

  write_transform_elt : Object Float → Outcome (List (Token Double))
  unfolding has_transform write_transform
  write_transform_elt o =
      if has_transform o
      then (do
        ts ← write_transform o.trans
        ok (key "transform" ∷ start_array ∷ (ts ++ end_array ∷ [])))
      else ok []

  unfoldable pub to_json_writer : Object Float → ℤ → Outcome (List (Token Double))
  unfolding write_texts write_transform_elt write_action write_json_int_elt gather
  to_json_writer o mtype = do
    ts ← write_transform_elt o
    actions ← gather write_action o.action_map
    ok (
        start_object
        ∷ (write_json_int_elt "msg_type" mtype
            ++ (write_texts o
                ++ (ts
                    ++ (key "assets"
                        ∷ start_array
                        ∷ (map str o.related.asset_ids
                            ++ (end_array
                                ∷ key "actions"
                                ∷ start_array
                                ∷ (actions ++ end_array ∷ end_object ∷ []))))))))

  -- `to_transform_json(mtype)`
  abbrev pub to_transform_json : Object Float → ℤ → Outcome (List (Token Double))
  to_transform_json = to_json_writer

  -- `to_transform_json()`
  abbrev pub to_update_json : Object Float → Outcome (List (Token Double))
  to_update_json o = to_json_writer o obj_upd

  -- `JsonObjectList::to_msg_string`
  unfoldable pub to_msg_string : DataList (Object Float) → Outcome (List (Token Double))
  unfolding to_json_writer to_unsigned write_json_string_elt gather
  to_msg_string l = do
    objects ← gather (λ o. to_json_writer o l.msg_type) l.objects
    ok (
        start_object
        ∷ key "msg_type"
        ∷ uint (to_unsigned l.msg_type)
        ∷ key "err_code"
        ∷ uint (to_unsigned l.err_code)
        ∷ key "num_records"
        ∷ uint (length l.objects)
        ∷ (write_json_string_elt "err_msg" l.err_msg
            ++ (write_json_string_elt "transaction_id" l.transaction_id
                ++ (key "objects" ∷ start_array ∷ (objects ++ end_array ∷ end_object ∷ [])))))
