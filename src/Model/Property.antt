-- ===== src/Model/Property.antt =====
-- src/model/property/include: property_3d.h, property_frame.h, animation_property.h and json_property.h
use clyman.Prelude.{ℕ, String, List, [], ◌∷◌, ◌++◌, Option, get_elem?}
use clyman.Outcome.{Outcome, or_crash}
use clyman.SortedMap.{SortedMap, emplace, find, replace, string_less}
use clyman.Model.Handle.{AnimationGraphHandle}
use clyman.Model.Related.{RelatedData, new_related}
use clyman.Model.Animation.{AnimationFrame, AnimationAction, new_animation_frame}

-- `F` and `D` are the types `float` and `double`: handles hold the former, values the latter.
pub record PropertyFrame (F D : Type 0) : Type 0 where
  pub base : AnimationFrame
  pub values : List D
  pub related : RelatedData
  pub handles : List (AnimationGraphHandle F)

-- AnimationProperty and JsonProperty, which adds no state.
pub record Property (F D : Type 0) : Type 0 where
  pub related : RelatedData
  pub values : List D
  pub name : String
  pub action_map : SortedMap String (AnimationAction (PropertyFrame F D))

module _ {F D : Type 0} where
  abbrev pub new_property_frame : PropertyFrame F D
  new_property_frame = record {
    base = new_animation_frame;
    values = [];
    related = new_related;
    handles = [];
  }

  -- `object_factory.build_property()`
  abbrev pub new_property : Property F D
  new_property = record { related = new_related; values = []; name = ""; action_map = [] }

  abbrev pub set_prop_key : Property F D → String → Property F D
  set_prop_key p k = record p { related = record p.related { key = k } }

  abbrev pub set_prop_scene : Property F D → String → Property F D
  set_prop_scene p s = record p { related = record p.related { scene_id = s } }

  unfoldable pub add_value : Property F D → D → Property F D
  add_value p v = record p { values = p.values ++ v ∷ [] }

  unfoldable pub add_frame_value : PropertyFrame F D → D → PropertyFrame F D
  add_frame_value f v = record f { values = f.values ++ v ∷ [] }

  unfoldable pub add_handle : PropertyFrame F D → AnimationGraphHandle F → PropertyFrame F D
  add_handle f h = record f { handles = f.handles ++ h ∷ [] }

  -- `handles[index]`; past the end it is undefined.
  unfoldable pub get_frame_handle : PropertyFrame F D → ℕ → Outcome (AnimationGraphHandle F)
  get_frame_handle f index = or_crash (get_elem? f.handles index)

  unfoldable pub add_prop_action :
      Property F D → String → AnimationAction (PropertyFrame F D) → Property F D
  add_prop_action p name action = record p { action_map = emplace name action p.action_map }

  -- `none` is the null pointer.
  unfoldable pub get_prop_action :
      Property F D → String → Option (AnimationAction (PropertyFrame F D))
  get_prop_action p name = find name p.action_map

  -- A change of the action that `get_action(name)` points to.
  unfoldable pub put_prop_action :
      Property F D → String → AnimationAction (PropertyFrame F D) → Property F D
  put_prop_action p name action = record p { action_map = replace name action p.action_map }
