-- ===== src/Writer/Property.antt =====
-- src/model/property/json_property.cpp and src/model/list/json_property_list.cpp
use clyman.Prelude.{String, ℤ, List, [], ◌∷◌, ◌++◌, length, map}
use clyman.Floats.{Floats}
use clyman.Constants.{prop_upd}
use clyman.Model.Handle.{AnimationGraphHandle}
use clyman.Model.Animation.{AnimationAction}
use clyman.Model.Property.{PropertyFrame, Property}
use clyman.Model.DataList.{DataList}
use clyman.Prelude.{concat_map}
use clyman.Json.Write.{
  Token, start_object, end_object, start_array, end_array, key, uint, dbl, to_unsigned,
  write_json_string_elt, write_json_int_elt, write_json_graph_handle,
}

-- An array that is left out where it has no elements.
abbrev pub values_elt : {A D : Type 0} → List A → List (Token D) → List (Token D)
values_elt [] elements = []
values_elt (x ∷ xs) elements = key "values" ∷ start_array ∷ (elements ++ end_array ∷ [])

module _ (fl : Floats) where
  open fl use {Float, Double}

  -- The loop over the values of a frame; a value without a handle is written alone.
  unfoldable pub write_frame_values :
      List Double → List (AnimationGraphHandle Float) → List (Token Double)
  unfolding write_json_graph_handle
  write_frame_values [] hs = []
  write_frame_values (v ∷ vs) [] =
      start_object ∷ key "value" ∷ dbl v ∷ end_object ∷ write_frame_values vs []
  write_frame_values (v ∷ vs) (h ∷ hs) =
      start_object
      ∷ key "value"
      ∷ dbl v
      ∷ (write_json_graph_handle fl h ++ end_object ∷ write_frame_values vs hs)

  unfoldable pub write_prop_keyframe : ℤ × PropertyFrame Float Double → List (Token Double)
  unfolding write_json_int_elt write_frame_values
  write_prop_keyframe (index, f) =
      start_object
      ∷ (write_json_int_elt "frame" index
          ++ (values_elt f.values (write_frame_values f.values f.handles) ++ end_object ∷ []))

  unfoldable pub write_prop_action :
      String × AnimationAction (PropertyFrame Float Double) → List (Token Double)
  unfolding write_json_string_elt write_prop_keyframe
  write_prop_action (name, a) =
      start_object
      ∷ (write_json_string_elt "name" name
          ++ (write_json_string_elt "description" a.description
              ++ (key "keyframes"
                  ∷ start_array
                  ∷ (concat_map write_prop_keyframe a.keyframes ++ end_array ∷ end_object ∷ []))))

  -- `JsonProperty::to_json_writer`: the message type that it is given is not used.
  unfoldable pub property_to_json_writer : Property Float Double → ℤ → List (Token Double)
  unfolding write_prop_action write_json_int_elt write_json_string_elt
  property_to_json_writer p mtype =
      start_object
      ∷ (write_json_int_elt "msg_type" prop_upd
          ++ (write_json_string_elt "key" p.related.key
              ++ (write_json_string_elt "name" p.name
                  ++ (write_json_string_elt "parent" p.related.parent
                      ++ (write_json_string_elt "asset_sub_id" p.related.asset_sub_id
                          ++ (write_json_string_elt "scene" p.related.scene_id
                              ++ (values_elt p.values (map dbl p.values)
                                  ++ (key "actions"
                                      ∷ start_array
                                      ∷ (concat_map write_prop_action p.action_map
                                          ++ end_array ∷ end_object ∷ [])))))))))

  -- `to_json(mtype)` and `to_json()`
  unfoldable pub property_to_json : Property Float Double → ℤ → List (Token Double)
  unfolding property_to_json_writer
  property_to_json p mtype = property_to_json_writer p mtype

  -- `JsonPropertyList::to_msg_string`
  unfoldable pub property_list_to_msg_string :
      DataList (Property Float Double) → List (Token Double)
  unfolding property_to_json_writer to_unsigned write_json_string_elt
  property_list_to_msg_string l =
      start_object
      ∷ key "msg_type"
      ∷ uint (to_unsigned l.msg_type)
      ∷ key "err_code"
      ∷ uint (to_unsigned l.err_code)
      ∷ key "num_records"
      ∷ uint (length l.objects)
      ∷ (write_json_string_elt "err_msg" l.err_msg
          ++ (write_json_string_elt "transaction_id" l.transaction_id
              ++ (key "properties"
                  ∷ start_array
                  ∷ (concat_map (λ p. property_to_json_writer p l.msg_type) l.objects
                      ++ end_array ∷ end_object ∷ []))))
