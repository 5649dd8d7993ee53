-- ===== src/Factory/Property.antt =====
-- src/model/factory/json_factory.cpp: properties, their actions and frames, and lists of properties
pub mod RoundTrip
use clyman.Prelude.{String, ℤ, List, [], ◌∷◌, Option, none, some, ◌==◌, string_eq, if◌then◌else◌}
use clyman.Outcome.{Outcome, ok, crash, or_crash, ◌>>=◌, for_each}
use clyman.Floats.{Floats}
use clyman.Model.Handle.{new_handle}
use clyman.Model.Animation.{AnimationAction, new_action, add_keyframe, get_keyframe, put_keyframe}
use clyman.Model.Property.{
  PropertyFrame, Property, new_property_frame, new_property, add_value, add_frame_value, add_handle,
  add_prop_action, get_prop_action, put_prop_action,
}
use clyman.Model.DataList.{DataList, new_data_list, add_object}
use clyman.Json.{Json, int, double, string, array, object, elements, members, find_member, Items}
use clyman.Json.Read.{parse_json_graph_handle}
use clyman.Factory.Object.{parse_list_string_elements, parse_list_int_elements}

unfoldable pub parse_property_body : {F D : Type 0} → String → String → Property F D → Property F D
parse_property_body param_name v p =
    if param_name == "key"
    then record p { related = record p.related { key = v } }
    else if param_name == "name"
    then record p { name = v }
    else if param_name == "parent"
    then record p { related = record p.related { parent = v } }
    else if param_name == "scene"
    then record p { related = record p.related { scene_id = v } }
    else if param_name == "asset_sub_id"
    then record p { related = record p.related { asset_sub_id = v } }
    else p

module _ (fl : Floats) where
  open fl use {Float, Double, zero_f}

  abbrev pub Frame : Type 0
  Frame = PropertyFrame Float Double

  abbrev pub Action : Type 0
  Action = AnimationAction Frame

  -- The first attribute "value" that is a number with a point.
  add_first_value : List (String × Json Double) → Frame → Frame
  unfolding add_frame_value
  add_first_value [] f = f
  add_first_value ((name, double v) ∷ ms) f =
      if name == "value" then add_frame_value f v else add_first_value ms f
  add_first_value (m ∷ ms) f = add_first_value ms f

  -- An element of "values": `GetObject()` wants an object. A handle is added for each.
  values_step : Frame → Json Double → Outcome Frame
  unfolding add_first_value add_handle parse_json_graph_handle
  values_step f (object ms) = do
    h ← parse_json_graph_handle fl (object ms) (new_handle zero_f)
    ok (add_handle (add_first_value (members ms) f) h)
  values_step f _ = crash

  unfoldable pub property_frame_from_iterator : Frame → String × Json Double → Outcome Frame
  unfolding values_step elements members for_each
  property_frame_from_iterator f (name, array xs) =
      if name == "values" then for_each values_step f (elements xs) else ok f
  property_frame_from_iterator f (name, string v) =
      if name == "scene"
      then ok (record f { related = record f.related { scene_id = v } })
      else ok f
  property_frame_from_iterator f _ = ok f

  -- The frame is added first, and then filled through `get_keyframe`.
  prop_keyframe : Action → List (String × Json Double) → Option (Json Double) → Outcome Action
  unfolding add_keyframe get_keyframe put_keyframe
  prop_keyframe action ms (some (int index)) = do
    let added = add_keyframe action index new_property_frame
    f ← or_crash (get_keyframe added index)
    f' ←
        for_each property_frame_from_iterator (record f { base = record f.base { frame = index } })
          ms
    ok (put_keyframe added index f')
  prop_keyframe action ms _ = ok action

  pub prop_keyframe_step : Action → Json Double → Outcome Action
  unfolding prop_keyframe
  prop_keyframe_step action (object ms) =
      prop_keyframe action (members ms) (find_member "frame" (members ms))
  prop_keyframe_step action _ = ok action

  -- The owner of an action is not read.
  prop_action_text : Action → String → String → Action
  prop_action_text a attribute v =
      if attribute == "name"
      then record a { name = v }
      else if attribute == "description"
      then record a { description = v }
      else if attribute == "key"
      then record a { related = record a.related { key = v } }
      else if attribute == "scene"
      then record a { related = record a.related { scene_id = v } }
      else a

  unfoldable pub property_action_from_iterator : Action → String × Json Double → Outcome Action
  unfolding prop_action_text prop_keyframe_step elements members find_member for_each
  property_action_from_iterator action (attribute, array xs) =
      if attribute == "keyframes"
      then for_each prop_keyframe_step action (elements xs)
      else ok action
  property_action_from_iterator action (attribute, string v) =
      ok (prop_action_text action attribute v)
  property_action_from_iterator action _ = ok action

  pub prop_value_step : Property Float Double → Json Double → Outcome (Property Float Double)
  unfolding add_value
  prop_value_step p (double v) = ok (add_value p v)
  prop_value_step p _ = ok p

  -- The action is added first, and then filled through `get_action`; a missing name fails.
  named_prop_action :
      Property Float Double
      → List (String × Json Double)
      → Option (Json Double)
      → Outcome (Property Float Double)
  unfolding add_prop_action get_prop_action put_prop_action
  named_prop_action p ms none = crash
  named_prop_action p ms (some (string name)) = do
    let added = add_prop_action p name new_action
    a ← or_crash (get_prop_action added name)
    a' ← for_each property_action_from_iterator a ms
    ok (put_prop_action added name a')
  named_prop_action p ms (some _) = ok p

  pub prop_action_step : Property Float Double → Json Double → Outcome (Property Float Double)
  unfolding named_prop_action
  prop_action_step p (object ms) =
      named_prop_action p (members ms) (find_member "name" (members ms))
  prop_action_step p _ = crash

  prop_array : Property Float Double → String → Items Double → Outcome (Property Float Double)
  unfolding prop_value_step prop_action_step
  prop_array p param_name xs =
      if param_name == "values"
      then for_each prop_value_step p (elements xs)
      else if param_name == "actions"
      then for_each prop_action_step p (elements xs)
      else ok p

  unfoldable pub property_from_iterator :
      Property Float Double → String × Json Double → Outcome (Property Float Double)
  unfolding parse_property_body prop_array elements members find_member for_each
  property_from_iterator p (param_name, string v) = ok (parse_property_body param_name v p)
  property_from_iterator p (param_name, array xs) = prop_array p param_name xs
  property_from_iterator p _ = ok p

  unfoldable pub build_property : Json Double → Outcome (Property Float Double)
  unfolding property_from_iterator members for_each
  build_property (object ms) = for_each property_from_iterator new_property (members ms)
  build_property _ = ok new_property

  -- An element of the array, which must be an object.
  list_property_step :
      DataList (Property Float Double) → Json Double → Outcome (DataList (Property Float Double))
  unfolding add_object
  list_property_step l (object ms) = do
    p ← for_each property_from_iterator new_property (members ms)
    ok (add_object l p)
  list_property_step l _ = crash

  prop_list_member_step :
      DataList (Property Float Double)
      → String × Json Double
      → Outcome (DataList (Property Float Double))
  unfolding list_property_step parse_list_int_elements parse_list_string_elements
  prop_list_member_step l (param_name, int n) = ok (parse_list_int_elements param_name n l)
  prop_list_member_step l (param_name, string v) = ok (parse_list_string_elements param_name v l)
  prop_list_member_step l (param_name, array xs) = for_each list_property_step l (elements xs)
  prop_list_member_step l _ = ok l

  unfoldable pub build_property_list : Json Double → Outcome (DataList (Property Float Double))
  unfolding prop_list_member_step property_from_iterator elements members for_each
  build_property_list (object ms) = for_each prop_list_member_step new_data_list (members ms)
  build_property_list _ = ok new_data_list

  unfoldable pub build_property_action : Json Double → Outcome Action
  unfolding property_action_from_iterator members for_each
  build_property_action (object ms) = for_each property_action_from_iterator new_action (members ms)
  build_property_action _ = ok new_action

  prop_frame_with_index : Frame → List (String × Json Double) → Option (Json Double) → Outcome Frame
  prop_frame_with_index f ms (some (int n)) =
      for_each property_frame_from_iterator (record f { base = record f.base { frame = n } }) ms
  prop_frame_with_index f ms _ = ok f

  unfoldable pub build_property_frame : Json Double → Outcome Frame
  unfolding prop_frame_with_index members find_member for_each
  build_property_frame (object ms) =
      prop_frame_with_index new_property_frame (members ms) (find_member "frame" (members ms))
  build_property_frame _ = ok new_property_frame
