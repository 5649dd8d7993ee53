-- ===== src/Factory/Action.antt =====
-- src/model/factory/json_factory.cpp: `obj_action_from_iterator` and `build_object_action`
use clyman.Prelude.{String, ℤ, List, Option, some, ◌==◌, string_eq, if◌then◌else◌}
use clyman.Outcome.{Outcome, ok, or_crash, ◌>>=◌, for_each}
use clyman.Floats.{Floats}
use clyman.Model.Animation.{
  AnimationAction, new_action, ObjectFrame, new_object_frame, add_keyframe, get_keyframe,
  put_keyframe,
}
use clyman.Json.{Json, int, string, array, object, elements, members, find_member}
use clyman.Factory.Frame.{obj_frame_from_iterator}

module _ (fl : Floats) where
  open fl use {Float, Double}

  -- The frame is added first, and then filled through `get_keyframe`: a second frame of one index is
  -- merged into the first.
  keyframe :
      AnimationAction (ObjectFrame Float)
      → List (String × Json Double)
      → ℤ
      → Outcome (AnimationAction (ObjectFrame Float))
  keyframe action ms index = do
    let added = add_keyframe action index (new_object_frame fl)
    f ← or_crash (get_keyframe added index)
    f' ←
        for_each (obj_frame_from_iterator fl) (record f { base = record f.base { frame = index } })
          ms
    ok (put_keyframe added index f')

  keyframe_at :
      AnimationAction (ObjectFrame Float)
      → List (String × Json Double)
      → Option (Json Double)
      → Outcome (AnimationAction (ObjectFrame Float))
  unfolding keyframe
  keyframe_at action ms (some (int index)) = keyframe action ms index
  keyframe_at action ms _ = ok action

  keyframe_step :
      AnimationAction (ObjectFrame Float)
      → Json Double
      → Outcome (AnimationAction (ObjectFrame Float))
  unfolding keyframe_at
  keyframe_step action (object ms) =
      keyframe_at action (members ms) (find_member "frame" (members ms))
  keyframe_step action _ = ok action

  action_text :
      AnimationAction (ObjectFrame Float) → String → String → AnimationAction (ObjectFrame Float)
  action_text a attribute v =
      if attribute == "name"
      then record a { name = v }
      else if attribute == "description"
      then record a { description = v }
      else if attribute == "owner"
      then record a { owner = v }
      else if attribute == "key"
      then record a { related = record a.related { key = v } }
      else if attribute == "scene"
      then record a { related = record a.related { scene_id = v } }
      else a

  unfoldable pub obj_action_from_iterator :
      AnimationAction (ObjectFrame Float)
      → String × Json Double
      → Outcome (AnimationAction (ObjectFrame Float))
  unfolding action_text keyframe_step add_keyframe get_keyframe put_keyframe elements members
      find_member for_each
  obj_action_from_iterator action (attribute, string v) = ok (action_text action attribute v)
  obj_action_from_iterator action (attribute, array xs) =
      if attribute == "keyframes" then for_each keyframe_step action (elements xs) else ok action
  obj_action_from_iterator action _ = ok action

  unfoldable pub build_object_action : Json Double → Outcome (AnimationAction (ObjectFrame Float))
  unfolding obj_action_from_iterator
  build_object_action (object ms) = for_each obj_action_from_iterator new_action (members ms)
  build_object_action _ = ok new_action
