-- ===== src/Model/Animation.antt =====
-- src/model/core/include/animation_frame.h and animation_action.h, and
-- src/model/object/include/object_frame.h
use clyman.Prelude.{
  ℕ, String, ℤ, negsuc, List, [], Option, replicate, get_elem?, set, if◌then◌else◌, ltb, length,
}
use clyman.Outcome.{Outcome, ok, crash, or_crash}
use clyman.Floats.{Floats}
use clyman.SortedMap.{SortedMap, emplace, find, replace, erase, int_less}
use clyman.Model.Handle.{AnimationGraphHandle, new_handle}
use clyman.Model.Transform.{Transformation, new_transformation}
use clyman.Model.Related.{RelatedData, new_related}

pub record AnimationFrame : Type 0 where
  pub frame : ℤ
  pub owner : String

-- A frame that has not been given an index.
abbrev pub no_frame : ℤ
no_frame = negsuc 9998

abbrev pub new_animation_frame : AnimationFrame
new_animation_frame = record { frame = no_frame; owner = "" }

-- `AnimationAction<T>`
pub record AnimationAction (T : Type 0) : Type 0 where
  pub related : RelatedData
  pub name : String
  pub description : String
  pub owner : String
  pub keyframes : SortedMap ℤ T

module _ {T : Type 0} where
  abbrev pub new_action : AnimationAction T
  new_action = record {
    related = new_related;
    name = "";
    description = "";
    owner = "";
    keyframes = [];
  }

  unfoldable pub add_keyframe : AnimationAction T → ℤ → T → AnimationAction T
  add_keyframe a index keyframe = record a { keyframes = emplace index keyframe a.keyframes }

  -- `none` is the null pointer.
  unfoldable pub get_keyframe : AnimationAction T → ℤ → Option T
  get_keyframe a index = find index a.keyframes

  -- A change of the frame that `get_keyframe(index)` points to.
  unfoldable pub put_keyframe : AnimationAction T → ℤ → T → AnimationAction T
  put_keyframe a index keyframe = record a { keyframes = replace index keyframe a.keyframes }

  unfoldable pub remove_keyframe : AnimationAction T → ℤ → AnimationAction T
  remove_keyframe a index = record a { keyframes = erase index a.keyframes }

pub record ObjectFrame (F : Type 0) : Type 0 where
  pub base : AnimationFrame
  pub trans : Transformation F
  pub related : RelatedData
  pub translation : List (AnimationGraphHandle F)
  pub rotation : List (AnimationGraphHandle F)
  pub scale : List (AnimationGraphHandle F)

module _ (fl : Floats) where
  open fl use {Float, zero_f, one_f}

  -- Three handles for translation and scale, four for rotation.
  unfoldable pub new_object_frame : ObjectFrame Float
  new_object_frame = record {
    base = new_animation_frame;
    trans = new_transformation zero_f one_f;
    related = new_related;
    translation = replicate 3 (new_handle zero_f);
    rotation = replicate 4 (new_handle zero_f);
    scale = replicate 3 (new_handle zero_f);
  }

-- `get_translation(index)`, `get_rotation(index)` and `get_scale(index)`: an element of the vector.
unfoldable pub get_handle :
    {F : Type 0} → List (AnimationGraphHandle F) → ℕ → Outcome (AnimationGraphHandle F)
get_handle hs index = or_crash (get_elem? hs index)

-- A change of the handle that such a pointer leads to, or `set_translation` and the like.
unfoldable pub set_handle :
    {F : Type 0}
    → List (AnimationGraphHandle F)
    → ℕ
    → AnimationGraphHandle F
    → Outcome (List (AnimationGraphHandle F))
set_handle hs index h = if ltb index (length hs) then ok (set hs index h) else crash
