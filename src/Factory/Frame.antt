-- ===== src/Factory/Frame.antt =====
-- src/model/factory/json_factory.cpp: `obj_frame_from_iterator` and `build_object_frame`
pub mod Laws
use clyman.Prelude.{
  ℕ, ◌+◌, ◌/◌, ◌%◌, String, ℤ, List, [], ◌∷◌, Option, none, some, ◌==◌, string_eq, if◌then◌else◌,
}
use clyman.Outcome.{Outcome, ok, crash, ◌>>=◌, for_each}
use clyman.Floats.{Floats}
use clyman.Model.Handle.{AnimationGraphHandle}
use clyman.Model.Transform.{Transformation, set_transform_element}
use clyman.Model.Animation.{ObjectFrame, new_object_frame, get_handle, set_handle}
use clyman.Json.{
  Json, null, bool, int, wide, double, string, array, object, elements, members, find_member, Items,
}
use clyman.Json.Read.{parse_json_graph_handle}

module _ (fl : Floats) where
  open fl use {Float, Double, narrow, of_int}

  -- One turn of the loop over a "transform" array: `index` counts every element, and elements that
  -- are no numbers are passed over.
  transform_step : ℕ × Transformation Float → Json Double → Outcome (ℕ × Transformation Float)
  transform_step (index, t) (double d) = do
    t' ← set_transform_element t (index / 4) (index % 4) (narrow d)
    ok (index + 1, t')
  transform_step (index, t) (int n) = do
    t' ← set_transform_element t (index / 4) (index % 4) (narrow (of_int n))
    ok (index + 1, t')
  transform_step (index, t) _ = ok (index + 1, t)

  unfoldable pub parse_transform :
      Transformation Float → Items Double → Outcome (Transformation Float)
  unfolding transform_step set_transform_element elements for_each
  parse_transform t xs = do end_state ← for_each transform_step (0, t) (elements xs); ok end_state.1

  Handles : Type 0
  Handles = List (AnimationGraphHandle Float)

  parse_handle_at : ℕ → Handles → Json Double → Outcome (ℕ × Handles)
  unfolding Handles
  parse_handle_at index hs x = do
    h ← get_handle hs index
    h' ← parse_json_graph_handle fl x h
    hs' ← set_handle hs index h'
    ok (index + 1, hs')

  handle_step : ℕ × Handles → Json Double → Outcome (ℕ × Handles)
  unfolding parse_handle_at
  handle_step (index, hs) x = parse_handle_at index hs x

  -- Only the rotation handles pass over what is no object.
  rotation_step : ℕ × Handles → Json Double → Outcome (ℕ × Handles)
  unfolding parse_handle_at
  rotation_step (index, hs) (object ms) = parse_handle_at index hs (object ms)
  rotation_step (index, hs) _ = ok (index, hs)

  unfoldable pub parse_handles :
      List (AnimationGraphHandle Float) → Items Double → Outcome (List (AnimationGraphHandle Float))
  unfolding Handles handle_step parse_json_graph_handle get_handle set_handle elements for_each
  parse_handles hs xs = do end_state ← for_each handle_step (0, hs) (elements xs); ok end_state.1

  unfoldable pub parse_rotation_handles :
      List (AnimationGraphHandle Float) → Items Double → Outcome (List (AnimationGraphHandle Float))
  unfolding Handles rotation_step parse_json_graph_handle get_handle set_handle elements for_each
  parse_rotation_handles hs xs = do
    end_state ← for_each rotation_step (0, hs) (elements xs)
    ok end_state.1

  frame_text : ObjectFrame Float → String → String → ObjectFrame Float
  frame_text f name v =
      if name == "owner"
      then record f { base = record f.base { owner = v } }
      else if name == "scene"
      then record f { related = record f.related { scene_id = v } }
      else f

  frame_array : ObjectFrame Float → String → Items Double → Outcome (ObjectFrame Float)
  unfolding parse_transform parse_handles parse_rotation_handles
  frame_array f name xs =
      if name == "transform"
      then (do t ← parse_transform f.trans xs; ok (record f { trans = t }))
      else if name == "translation_handle"
      then (do hs ← parse_handles f.translation xs; ok (record f { translation = hs }))
      else if name == "rotation_handle"
      then (do hs ← parse_rotation_handles f.rotation xs; ok (record f { rotation = hs }))
      else if name == "scale_handle"
      then (do hs ← parse_handles f.scale xs; ok (record f { scale = hs }))
      else ok f

  unfoldable pub obj_frame_from_iterator :
      ObjectFrame Float → String × Json Double → Outcome (ObjectFrame Float)
  unfolding frame_text frame_array
  obj_frame_from_iterator f (name, string v) = ok (frame_text f name v)
  obj_frame_from_iterator f (name, array xs) = frame_array f name xs
  obj_frame_from_iterator f _ = ok f

  frame_with_index :
      ObjectFrame Float
      → List (String × Json Double)
      → Option (Json Double)
      → Outcome (ObjectFrame Float)
  frame_with_index f ms (some (int n)) =
      for_each obj_frame_from_iterator (record f { base = record f.base { frame = n } }) ms
  frame_with_index f ms _ = ok f

  unfoldable pub build_object_frame : Json Double → Outcome (ObjectFrame Float)
  unfolding frame_with_index members find_member for_each
  build_object_frame (object ms) =
      frame_with_index (new_object_frame fl) (members ms) (find_member "frame" (members ms))
  build_object_frame _ = ok (new_object_frame fl)
