-- ===== src/Db/Interface.antt =====
-- src/db/include/db_manager_interface.h: what the request handlers use of a database manager. The
-- state `W` is whatever the manager and the database keep. A method that fills the caller's list
-- changes it as it goes, so the list is part of its state.
use clyman.Prelude.{String, ℤ, pos, Bool, false}
use clyman.Outcome.Io.{Io}
use clyman.Model.Animation.{AnimationAction, ObjectFrame}
use clyman.Model.Object.{Object}
use clyman.Model.Property.{PropertyFrame, Property}
use clyman.Model.DataList.{DataList}

pub record DatabaseResponse : Type 0 where
  pub success : Bool
  pub error_message : String
  pub error_code : ℤ

abbrev pub new_response : DatabaseResponse
new_response = record { success = false; error_message = ""; error_code = pos 100 }

-- `create_object` also returns the generated key.
pub record DatabaseManager (F : Type 0) (W : Type 0) : Type 0 where
  pub create_object : Object F → Io W (DatabaseResponse × String)
  pub update_object : Object F → String → Io W DatabaseResponse
  pub update_assets : Object F → String → Bool → Io W DatabaseResponse
  pub get_object : String → Io (DataList (Object F) × W) (Unit {0})
  pub object_query : Object F → ℤ → Io (DataList (Object F) × W) (Unit {0})
  pub delete_object : String → Io W DatabaseResponse
  pub lock_object : String → String → Io W DatabaseResponse
  pub unlock_object : String → String → Io W DatabaseResponse
  pub create_action : String → AnimationAction (ObjectFrame F) → String → Io W DatabaseResponse
  pub update_action : String → AnimationAction (ObjectFrame F) → String → Io W DatabaseResponse
  pub delete_object_action : String → String → Io W DatabaseResponse
  pub create_keyframe : String → String → ObjectFrame F → ℤ → Io W DatabaseResponse
  pub update_keyframe : String → String → ObjectFrame F → ℤ → Io W DatabaseResponse
  pub delete_object_keyframe : String → String → ℤ → Io W DatabaseResponse

-- What it offers for properties. `create_property` also returns the generated key.
pub record PropertyManager (F D : Type 0) (W : Type 0) : Type 0 where
  pub create_property : Property F D → Io W (DatabaseResponse × String)
  pub update_property : Property F D → String → Io W DatabaseResponse
  pub get_property : String → Io (DataList (Property F D) × W) (Unit {0})
  pub property_query : Property F D → ℤ → Io (DataList (Property F D) × W) (Unit {0})
  pub delete_property : String → Io W DatabaseResponse
  pub create_prop_action :
      String → AnimationAction (PropertyFrame F D) → String → Io W DatabaseResponse
  pub update_prop_action :
      String → AnimationAction (PropertyFrame F D) → String → Io W DatabaseResponse
  pub delete_property_action : String → String → Io W DatabaseResponse
  pub create_prop_keyframe : String → String → PropertyFrame F D → ℤ → Io W DatabaseResponse
  pub update_prop_keyframe : String → String → PropertyFrame F D → ℤ → Io W DatabaseResponse
  pub delete_property_keyframe : String → String → ℤ → Io W DatabaseResponse
