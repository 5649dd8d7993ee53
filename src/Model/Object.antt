-- ===== src/Model/Object.antt =====
-- src/model/object/include/object_3d.h, object_document.h and json_object.h
use clyman.Prelude.{String, Bool, true, [], Option}
use clyman.Floats.{Floats}
use clyman.SortedMap.{SortedMap, emplace, find, replace, string_less}
use clyman.Model.Transform.{Transformation, new_transformation}
use clyman.Model.Related.{RelatedData, new_related}
use clyman.Model.Animation.{AnimationAction, ObjectFrame}

-- The transform is a pointer that every constructor sets and nothing clears.
pub record Object (F : Type 0) : Type 0 where
  pub related : RelatedData
  pub trans : Transformation F
  pub name : String
  pub type : String
  pub subtype : String
  pub owner : String
  pub action_map : SortedMap String (AnimationAction (ObjectFrame F))

module _ (fl : Floats) where
  open fl use {Float, zero_f, one_f}

  -- `object_factory.build_object()`
  unfoldable pub new_object : Object Float
  new_object = record {
    related = new_related;
    trans = new_transformation zero_f one_f;
    name = "";
    type = "";
    subtype = "";
    owner = "";
    action_map = [];
  }

module _ {F : Type 0} where
  unfoldable pub has_transform : Object F → Bool
  has_transform o = true

  unfoldable pub add_action : Object F → String → AnimationAction (ObjectFrame F) → Object F
  add_action o name action = record o { action_map = emplace name action o.action_map }

  -- `none` where `action_map[name]` makes a null pointer.
  unfoldable pub get_action : Object F → String → Option (AnimationAction (ObjectFrame F))
  get_action o name = find name o.action_map

  -- A change of the action that `get_action(name)` points to.
  unfoldable pub put_action : Object F → String → AnimationAction (ObjectFrame F) → Object F
  put_action o name action = record o { action_map = replace name action o.action_map }

  abbrev pub set_key : Object F → String → Object F
  set_key o k = record o { related = record o.related { key = k } }

  abbrev pub set_scene : Object F → String → Object F
  set_scene o s = record o { related = record o.related { scene_id = s } }

  abbrev pub set_parent : Object F → String → Object F
  set_parent o p = record o { related = record o.related { parent = p } }

  abbrev pub set_asset_sub_id : Object F → String → Object F
  set_asset_sub_id o s = record o { related = record o.related { asset_sub_id = s } }
