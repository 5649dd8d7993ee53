-- ===== src/Factory/Object.antt =====
-- src/model/factory/json_factory.cpp: objects and lists of objects
use clyman.Prelude.{String, ℤ, List, Option, none, some, ◌==◌, string_eq, if◌then◌else◌}
use clyman.Outcome.{Outcome, ok, crash, or_crash, ◌>>=◌, for_each}
use clyman.Floats.{Floats}
use clyman.Model.Related.{add_asset}
use clyman.Model.Animation.{new_action}
use clyman.Model.Object.{
  Object, new_object, add_action, get_action, put_action, set_key, set_scene, set_parent,
  set_asset_sub_id,
}
use clyman.Model.DataList.{DataList, new_data_list, add_object}
use clyman.Json.{Json, int, string, array, object, elements, members, find_member, Items}
use clyman.Factory.Frame.{parse_transform}
use clyman.Factory.Action.{obj_action_from_iterator}

unfoldable pub parse_obj_body : {F : Type 0} → String → String → Object F → Object F
parse_obj_body param_name v o =
    if param_name == "key"
    then set_key o v
    else if param_name == "name"
    then record o { name = v }
    else if param_name == "parent"
    then set_parent o v
    else if param_name == "scene"
    then set_scene o v
    else if param_name == "asset_sub_id"
    then set_asset_sub_id o v
    else if param_name == "owner"
    then record o { owner = v }
    else if param_name == "type"
    then record o { type = v }
    else if param_name == "subtype"
    then record o { subtype = v }
    else o

unfoldable pub parse_list_string_elements : {T : Type 0} → String → String → DataList T → DataList T
parse_list_string_elements param_name v l =
    if param_name == "transaction_id"
    then record l { transaction_id = v }
    else if param_name == "err_msg"
    then record l { err_msg = v }
    else l

unfoldable pub parse_list_int_elements : {T : Type 0} → String → ℤ → DataList T → DataList T
parse_list_int_elements param_name v l =
    if param_name == "msg_type"
    then record l { msg_type = v }
    else if param_name == "operation"
    then record l { op_type = v }
    else if param_name == "num_records"
    then record l { num_records = v }
    else l

module _ (fl : Floats) where
  open fl use {Float, Double}

  asset_step : Object Float → Json Double → Outcome (Object Float)
  unfolding add_asset
  asset_step o (string v) = ok (record o { related = add_asset o.related v })
  asset_step o _ = ok o

  -- The action is added first, and then filled through `get_action`.
  named_action :
      Object Float → List (String × Json Double) → Option (Json Double) → Outcome (Object Float)
  named_action o ms none = crash
  named_action o ms (some (string name)) = do
    let added = add_action o name new_action
    a ← or_crash (get_action added name)
    a' ← for_each (obj_action_from_iterator fl) (record a { name = name }) ms
    ok (put_action added name a')
  named_action o ms (some _) = ok o

  action_step : Object Float → Json Double → Outcome (Object Float)
  unfolding named_action
  action_step o (object ms) = named_action o (members ms) (find_member "name" (members ms))
  action_step o _ = ok o

  object_array : Object Float → String → Items Double → Outcome (Object Float)
  unfolding asset_step action_step
  object_array o param_name xs =
      if param_name == "assets"
      then for_each asset_step o (elements xs)
      else if param_name == "transform"
      then (do t ← parse_transform fl o.trans xs; ok (record o { trans = t }))
      else if param_name == "actions"
      then for_each action_step o (elements xs)
      else ok o

  unfoldable pub obj_from_iterator : Object Float → String × Json Double → Outcome (Object Float)
  unfolding parse_obj_body object_array parse_transform add_action get_action put_action elements
      members find_member for_each
  obj_from_iterator o (param_name, string v) = ok (parse_obj_body param_name v o)
  obj_from_iterator o (param_name, array xs) = object_array o param_name xs
  obj_from_iterator o _ = ok o

  unfoldable pub build_object : Json Double → Outcome (Object Float)
  unfolding obj_from_iterator members for_each
  build_object (object ms) = for_each obj_from_iterator (new_object fl) (members ms)
  build_object _ = ok (new_object fl)

  -- An element of the array, which must be an object.
  list_object_step : DataList (Object Float) → Json Double → Outcome (DataList (Object Float))
  list_object_step l (object ms) = do
    o ← for_each obj_from_iterator (new_object fl) (members ms)
    ok (add_object l o)
  list_object_step l _ = crash

  -- Every array, under whatever name, is read as a list of objects.
  list_member_step :
      DataList (Object Float) → String × Json Double → Outcome (DataList (Object Float))
  unfolding list_object_step
  list_member_step l (param_name, int n) = ok (parse_list_int_elements param_name n l)
  list_member_step l (param_name, string v) = ok (parse_list_string_elements param_name v l)
  list_member_step l (param_name, array xs) = for_each list_object_step l (elements xs)
  list_member_step l _ = ok l

  unfoldable pub build_object_list : Json Double → Outcome (DataList (Object Float))
  unfolding list_member_step parse_list_int_elements parse_list_string_elements obj_from_iterator
      add_object elements members for_each
  build_object_list (object ms) = for_each list_member_step new_data_list (members ms)
  build_object_list _ = ok new_data_list
